-- ===== src/Messages/Validate.antt =====
-- anthropic-openai-codec.mjs: validateNativeAnthropicRequest.
use tokligence_gateway.Prelude.{
  Bool, true, false, not, ◌&&◌, ◌||◌, List, [], ◌∷◌, Option, none, some, Text, codes, if◌then◌else◌,
  any,
}
use tokligence_gateway.Prelude.Json.{
  Json, bool, text, array, object, Items, nil, cons, get, is_truthy, is_object, is_bool, is_string,
  is_named, is_word,
}

pub data Label : Type 0 where
  system_prompt native_message tool_result : Label

-- The message of the error, which has status 400 and the code unsupported_bridge_request
pub data Invalid : Type 0 where
  tool_choice unnamed_choice parallel_setting conflicting_parallel : Invalid
  not_text not_plain : Label → Invalid
  not_messages unknown_role not_content not_block swallowed signed_thinking tool_use result_id
        error_flag unsupported_block :
      Invalid

-- `if (bad) invalid(e)`, and what is checked after it
abbrev pub refuse_if : Bool → Invalid → Option Invalid → Option Invalid
refuse_if true e rest = some e
refuse_if false e rest = rest

abbrev pub first_of : Option Invalid → Option Invalid → Option Invalid
first_of (some e) rest = some e
first_of none rest = rest

unfoldable pub one_of : List Text → Option Json → Bool
one_of words v = any (λ w. is_word w v) words

-- `v?.length` is truthy
unfoldable pub has_length : Option Json → Bool
has_length (some (text (c ∷ t))) = true
has_length (some (array (cons v xs))) = true
has_length (some (object fs)) = is_truthy (get (object fs) (codes "length"))
has_length _ = false

abbrev pub is_type : Text → Json → Bool
is_type word v = is_word word (get v (codes "type"))

-- `a !== !b`, where b is a Boolean
abbrev pub conflicts : Json → Json → Bool
conflicts (bool a) (bool b) = if b then a else not a
conflicts _ _ = true

unfoldable pub parallel_error : Json → Json → Option Json → Option Invalid
parallel_error request choice none = none
parallel_error request choice (some d) =
    refuse_if (is_type (codes "none") choice || not (is_bool d)) parallel_setting
      (elim (get request (codes "parallel_tool_calls")) [
        | none ↦ none
        | some p ↦ refuse_if (conflicts p d) conflicting_parallel none
      ])

unfoldable pub choice_error : Json → Option Json → Option Invalid
choice_error request none = none
choice_error request (some choice) =
    refuse_if
      (not (is_object choice)
        || not (
            one_of (codes "auto" ∷ (codes "any" ∷ (codes "none" ∷ (codes "tool" ∷ []))))
              (get choice (codes "type"))))
      tool_choice
      (refuse_if (is_type (codes "tool") choice && not (is_named (get choice (codes "name"))))
        unnamed_choice
        (parallel_error request choice (get choice (codes "disable_parallel_tool_use"))))

unfoldable pub is_plain : Json → Bool
is_plain b =
    is_object b
    && is_type (codes "text") b
    && is_string (get b (codes "text"))
    && not (has_length (get b (codes "citations")))

unfoldable pub all_plain : Items → Bool
all_plain nil = true
all_plain (cons b bs) = is_plain b && all_plain bs

-- `textOnly`
unfoldable pub text_only : Label → Json → Option Invalid
text_only label (text t) = none
text_only label (array bs) = refuse_if (not (all_plain bs)) (not_plain label) none
text_only label v = some (not_text label)

abbrev pub text_only_if : Label → Option Json → Option Invalid
text_only_if label none = none
text_only_if label (some v) = text_only label v

-- `v === undefined || v === ""`
abbrev pub is_unsigned : Option Json → Bool
is_unsigned none = true
is_unsigned (some (text [])) = true
is_unsigned _ = false

abbrev pub is_flag : Option Json → Bool
is_flag none = true
is_flag (some v) = is_bool v

abbrev pub is_given_object : Option Json → Bool
is_given_object (some v) = is_object v
is_given_object none = false

unfoldable pub thinking_error : Json → Option Invalid
thinking_error b =
    refuse_if
      (not (is_string (get b (codes "thinking"))) || not (is_unsigned (get b (codes "signature"))))
      signed_thinking none

unfoldable pub tool_use_error : Json → Option Invalid
tool_use_error b =
    refuse_if
      (not (is_named (get b (codes "id")))
        || not (is_string (get b (codes "name")))
        || not (is_given_object (get b (codes "input"))))
      tool_use none

unfoldable pub tool_result_error : Json → Option Invalid
tool_result_error b = refuse_if (not (is_named (get b (codes "tool_use_id")))) result_id (
    refuse_if (not (is_flag (get b (codes "is_error")))) error_flag
      (text_only_if tool_result (get b (codes "content"))))

-- A block of a message with the role
unfoldable pub block_error : Option Json → Json → Option Invalid
block_error role b =
    if not (is_object b)
    then some not_block
    else if is_type (codes "text") b
    then refuse_if (not (is_plain b)) (not_plain native_message) none
    else if is_string (get b (codes "text"))
    then some swallowed
    else if is_type (codes "thinking") b && is_word (codes "assistant") role
    then thinking_error b
    else if is_type (codes "tool_use") b && is_word (codes "assistant") role
    then tool_use_error b
    else if is_type (codes "tool_result") b && is_word (codes "user") role
    then tool_result_error b
    else some unsupported_block

unfoldable pub blocks_error : Option Json → Items → Option Invalid
blocks_error role nil = none
blocks_error role (cons b bs) = first_of (block_error role b) (blocks_error role bs)

unfoldable pub content_error : Option Json → Option Json → Option Invalid
content_error role (some (text t)) = none
content_error role (some (array bs)) = blocks_error role bs
content_error role _ = some not_content

unfoldable pub message_error : Json → Option Invalid
message_error m =
    refuse_if
      (not (is_object m)
        || not (
            one_of (codes "user" ∷ (codes "assistant" ∷ (codes "system" ∷ [])))
              (get m (codes "role"))))
      unknown_role (content_error (get m (codes "role")) (get m (codes "content")))

unfoldable pub messages_error : Items → Option Invalid
messages_error nil = none
messages_error (cons m ms) = first_of (message_error m) (messages_error ms)

unfoldable pub list_error : Option Json → Option Invalid
list_error (some (array ms)) = messages_error ms
list_error _ = some not_messages

-- `none` is a request that may pass.
unfoldable pub validate : Json → Option Invalid
validate request = first_of (choice_error request (get request (codes "tool_choice"))) (
    first_of (text_only_if system_prompt (get request (codes "system")))
      (list_error (get request (codes "messages"))))
