-- ===== src/Messages/Tests.antt =====
-- anthropic-openai-codec.mjs: a request with a text, thinking, a tool call and its result.
use tokligence_gateway.Prelude.{◌≡◌, refl, true, none, some, Text, codes, text_eq, any}
use tokligence_gateway.Prelude.Json.{
  Json, text, bool, array, object, Items, nil, cons, Fields, end, field, get, field_of, is_word,
}
use tokligence_gateway.Messages.Validate.{
  validate, choice_error, text_only, list_error, messages_error, message_error, one_of,
  content_error, blocks_error, block_error, thinking_error, tool_use_error, tool_result_error,
  is_plain,
}
use tokligence_gateway.Messages.Request.{Request, anthropic_to_openai}
use tokligence_gateway.Messages.Kept.Reading.{reading}
use tokligence_gateway.Messages.Kept.Whole.{of_request, anthropic_to_openai-validate}

abbrev str : Text → Text → Fields → Fields
str k v fs = field k (text v) fs

abbrev ask : Json
ask = object (str (codes "role") (codes "user") (str (codes "content") (codes "read it") end))

abbrev thinking : Json
thinking = object (str (codes "type") (codes "thinking") (str (codes "thinking") (codes "hm") end))

abbrev tool_call : Json
tool_call = object (
    str (codes "type") (codes "tool_use") (
      str (codes "id") (codes "c1")
        (str (codes "name") (codes "read") (field (codes "input") (object end) end))))

abbrev answer : Json
answer = object (
    str (codes "type") (codes "tool_result") (
      str (codes "tool_use_id") (codes "c1")
        (field (codes "is_error") (bool true) (str (codes "content") (codes "no file") end))))

abbrev says : Text → Items → Json
says role blocks = object (str (codes "role") role (field (codes "content") (array blocks) end))

abbrev request : Json
request = object (
    str (codes "system") (codes " be brief ") (
      field (codes "messages")
        (array (
          cons ask (
            cons (says (codes "assistant") (cons thinking (cons tool_call nil)))
              (cons (says (codes "user") (cons answer nil)) nil))))
        end))

request_valid : validate request ≡ none
unfolding validate choice_error get field_of text_eq text_only list_error messages_error
    message_error one_of any is_word content_error blocks_error block_error thinking_error
    tool_use_error tool_result_error is_plain
request_valid = refl

anthropic_to_openai-validate_example :
    (r : Request) × (anthropic_to_openai true true request ≡ some r)
    × (reading r.messages ≡ of_request true request)
anthropic_to_openai-validate_example = anthropic_to_openai-validate true true request request_valid
