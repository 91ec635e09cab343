-- ===== src/Streams/Reply.antt =====
-- anthropic-openai-codec.mjs: openaiToAnthropicMessage, for a reply that is not a stream. The text of
-- its message is given, and its calls have ids and names.
pub mod Parts
pub mod Same
use tokligence_gateway.Prelude.{
  ℕ, Bool, true, false, List, [], ◌∷◌, ◌++◌, map, Option, none, some, Text,
}
use tokligence_gateway.Streams.Codec.{Finish, Call, Choice, StopReason, stop_reason, or_text}
use tokligence_gateway.Streams.Collect.{Part, text_part, thinking_part, tool_part}

abbrev pub call_part : Call → Part
call_part call = tool_part (or_text call.id []) (or_text call.name []) call.arguments

abbrev pub thinking_of : Bool → Text → List Part
thinking_of true (x ∷ t) = thinking_part (x ∷ t) ∷ []
thinking_of _ _ = []

abbrev pub text_of : Text → List Part
text_of [] = []
text_of (x ∷ t) = text_part (x ∷ t) ∷ []

unfoldable pub stop_of : Option Finish → Option StopReason
stop_of none = none
stop_of (some f) = some (stop_reason (some f))

-- usageOf
unfoldable pub usage_of : Option (ℕ × ℕ) → ℕ × ℕ
usage_of none = (0, 0)
usage_of (some u) = u

-- The content, the reason to stop and the usage of the message
unfoldable pub openai_to_anthropic_message :
    Bool → Choice → Option (ℕ × ℕ) → List Part × Option StopReason × (ℕ × ℕ)
openai_to_anthropic_message kept ch usage = (
  thinking_of kept ch.reasoning ++ (text_of ch.content ++ map call_part ch.calls),
  stop_of ch.finish,
  usage_of usage,
)
