-- ===== src/Streams/Codec/Grammar/Started.antt =====
-- anthropic-openai-codec.mjs: what a stream adds to a message that has started leaves it started.
use tokligence_gateway.Prelude.{
  ℕ, ◌≡◌, refl, ◌∙◌, Bool, true, false, List, [], ◌∷◌, Option, none, some, Text,
}
use tokligence_gateway.Streams.Codec.{
  Call, Kind, text, tool, Codec, close_kind, start_block, open_text_from, open_tool_at, block_at,
  on_reasoning, on_content, add_arguments, on_call, on_calls, start_unless, with_usage,
}

pub with_usage-started : (c : Codec) (u : Option (ℕ × ℕ)) → (with_usage c u).started ≡ c.started
with_usage-started c none = refl
with_usage-started c (some (i, n)) = refl

pub start-started : (b : Bool) (c : Codec) → c.started ≡ b → (start_unless b c).started ≡ true
unfolding start_unless
start-started true c e = e
start-started false c e = refl

close_kind-started : (c : Codec) (o : Option (Kind × ℕ)) → (close_kind c o).started ≡ c.started
unfolding close_kind
close_kind-started c none = refl
close_kind-started c (some (k, b)) = refl

open_text_from-started :
    (c : Codec) (o : Option (Kind × ℕ)) → (open_text_from c o).started ≡ c.started
unfolding open_text_from start_block
open_text_from-started c none = close_kind-started c none
open_text_from-started c (some (text, b)) = refl
open_text_from-started c (some (tool, b)) = close_kind-started c (some (tool, b))

pub on_content-started : (c : Codec) (s : Text) → (on_content c s).started ≡ c.started
unfolding on_content
on_content-started c [] = refl
on_content-started c (x ∷ s) = open_text_from-started _ c.opened

pub on_reasoning-started :
    (kept : Bool) (c : Codec) (s : Text) → (on_reasoning kept c s).started ≡ c.started
unfolding on_reasoning
on_reasoning-started true c [] = refl
on_reasoning-started false c [] = refl
on_reasoning-started false c (x ∷ s) = refl
on_reasoning-started true c (x ∷ s) = close_kind-started _ c.opened

add_arguments-started : (d : Codec × ℕ) (s : Text) → (add_arguments d s).started ≡ d.0.started
unfolding add_arguments
add_arguments-started (c, b) [] = refl
add_arguments-started (c, b) (x ∷ s) = refl

open_tool_at-started :
    (c : Codec) (call : Call) (o : Option ℕ) → (open_tool_at c call o).0.started ≡ c.started
unfolding open_tool_at start_block
open_tool_at-started c call none = close_kind-started c c.opened
open_tool_at-started c call (some b) = refl

pub on_calls-started : (c : Codec) (calls : List Call) → (on_calls c calls).started ≡ c.started
unfolding on_calls on_call
on_calls-started c [] = refl
on_calls-started c (call ∷ calls) =
    on_calls-started (on_call c call) calls
    ∙ add_arguments-started (open_tool_at _ call (block_at call.index c.tool_blocks)) call.arguments
    ∙ open_tool_at-started _ call (block_at call.index c.tool_blocks)
