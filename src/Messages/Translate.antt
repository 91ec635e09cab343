-- ===== src/Messages/Translate.antt =====
-- anthropic-openai-codec.mjs: anthropicToOpenAI. The arguments of a tool call stand for the JSON text
-- that is printed of them. A field that is shown as text is a string, a Boolean or left out.
use tokligence_gateway.Prelude.{
  Bool, true, false, ◌&&◌, ◌||◌, List, [], ◌∷◌, ◌++◌, map, Option, none, some, Text, codes,
  trim_text, if◌then◌else◌,
}
use tokligence_gateway.Prelude.Json.{
  Json, null, bool, text, array, object, Items, nil, cons, end, get, is_truthy, is_string, is_named,
}
use tokligence_gateway.Messages.Validate.{is_type}

-- A part of `plain`
pub data Plain : Type 0 where
  text_plain image_plain : Json → Plain
  reasoning_plain : Text → Plain

pub record ToolCall : Type 0 where
  pub id : Json
  pub name : Option Json
  pub arguments : Json

pub record ToolResult : Type 0 where
  pub tool_call_id : Option Json
  pub is_error : Bool
  pub content : Text

pub record Parts : Type 0 where
  pub plain : List Plain
  pub calls : List ToolCall
  pub results : List ToolResult

pub record Reply : Type 0 where
  pub role : Json
  -- `null` where there are none
  pub content : List Plain
  pub reasoning : Text
  pub calls : List ToolCall

-- A message that is sent
pub data Sent : Type 0 where
  instruction : Text → Sent
  spoken : Option Json → Json → Sent
  result : ToolResult → Sent
  reply : Reply → Sent

abbrev pub shown : Json → Text
shown (text t) = t
shown (bool true) = codes "true"
shown (bool false) = codes "false"
shown _ = []

abbrev pub shown_in : Option Json → Text
shown_in none = codes "undefined"
shown_in (some null) = codes "null"
shown_in (some v) = shown v

abbrev pub or_empty : Option Json → Json
or_empty none = text []
or_empty (some null) = text []
or_empty (some v) = v

abbrev pub has_text : Json → Bool
has_text b = is_type (codes "text") b || is_string (get b (codes "text"))

unfoldable pub texts : Items → Text
texts nil = []
texts (cons b bs) =
    let later = texts bs in
    if has_text b then shown (or_empty (get b (codes "text"))) ++ later else later

unfoldable pub text_of : Option Json → Text
text_of (some (text t)) = t
text_of (some (array bs)) = texts bs
text_of _ = []

unfoldable pub source_url : Json → Option Json
source_url source =
    if is_type (codes "url") source || is_truthy (get source (codes "url"))
    then get source (codes "url")
    else if is_truthy (get source (codes "media_type")) && is_truthy (get source (codes "data"))
    then some (
        text (
          codes "data:"
          ++ (shown_in (get source (codes "media_type"))
              ++ (codes ";base64," ++ shown_in (get source (codes "data"))))))
    else none

unfoldable pub image_data_url : Json → Option Json
image_data_url b = elim (get b (codes "source")) [
  | none ↦ none
  | some source ↦ if is_truthy (some source) then source_url source else none
]

abbrev pub no_parts : Parts
no_parts = record { plain = []; calls = []; results = [] }

abbrev pub a_part : Plain → Parts
a_part p = record { plain = p ∷ []; calls = []; results = [] }

abbrev pub a_call : ToolCall → Parts
a_call c = record { plain = []; calls = c ∷ []; results = [] }

abbrev pub a_result : ToolResult → Parts
a_result r = record { plain = []; calls = []; results = r ∷ [] }

unfoldable pub image_parts : Option Json → Parts
image_parts none = no_parts
image_parts (some url) = if is_truthy (some url) then a_part (image_plain url) else no_parts

unfoldable pub thinking_parts : Option Json → Parts
thinking_parts (some (text (c ∷ t))) = a_part (reasoning_plain (c ∷ t))
thinking_parts _ = no_parts

abbrev pub id_or : Option Json → Option Json → Json
id_or id name = if is_truthy id then or_empty id else text (codes "call_" ++ shown_in name)

abbrev pub or_object : Option Json → Json
or_object (some null) = object end
or_object none = object end
or_object (some v) = v

-- `v === true`
abbrev pub is_set : Option Json → Bool
is_set (some (bool true)) = true
is_set _ = false

unfoldable pub result_of : Bool → Json → ToolResult
result_of preserve b = record {
  tool_call_id = get b (codes "tool_use_id");
  is_error = preserve && is_set (get b (codes "is_error"));
  content = text_of (get b (codes "content"));
}

abbrev pub call_of : Json → ToolCall
call_of b = record {
  id = id_or (get b (codes "id")) (get b (codes "name"));
  name = get b (codes "name");
  arguments = or_object (get b (codes "input"));
}

-- What a block adds, unless the translation is given up for signed thinking. A value that is neither
-- an object nor a list has no type, and adds nothing.
unfoldable pub block_parts : Bool → Json → Option Parts
block_parts preserve b =
    if has_text b
    then some (a_part (text_plain (or_empty (get b (codes "text")))))
    else if is_type (codes "image") b
    then some (image_parts (image_data_url b))
    else if is_type (codes "thinking") b
    then (if is_named (get b (codes "signature"))
        then none
        else some (thinking_parts (get b (codes "thinking"))))
    else if is_type (codes "tool_use") b
    then some (a_call (call_of b))
    else if is_type (codes "tool_result") b
    then some (a_result (result_of preserve b))
    else some no_parts

abbrev pub add : Parts → Parts → Parts
add p q = record {
  plain = p.plain ++ q.plain;
  calls = p.calls ++ q.calls;
  results = p.results ++ q.results;
}

abbrev pub join : Option Parts → Option Parts → Option Parts
join none q = none
join (some p) none = none
join (some p) (some q) = some (add p q)

unfoldable pub parts_of : Bool → Items → Option Parts
parts_of preserve nil = some no_parts
parts_of preserve (cons b bs) = join (block_parts preserve b) (parts_of preserve bs)

unfoldable pub reasoning_of : List Plain → Text
reasoning_of [] = []
reasoning_of (reasoning_plain t ∷ ps) = t ++ reasoning_of ps
reasoning_of (p ∷ ps) = reasoning_of ps

unfoldable pub visible : List Plain → List Plain
visible [] = []
visible (reasoning_plain t ∷ ps) = visible ps
visible (p ∷ ps) = p ∷ visible ps

abbrev pub role_or : Option Json → Json
role_or role = if is_truthy role then or_empty role else text (codes "assistant")

abbrev pub make_reply : Option Json → List Plain → List ToolCall → List Sent
make_reply role plain calls =
    reply (record {
      role = role_or role;
      content = visible plain;
      reasoning = reasoning_of plain;
      calls = calls;
    })
    ∷ []

unfoldable pub reply_of : Option Json → List Plain → List ToolCall → List Sent
reply_of role [] [] = []
reply_of role plain calls = make_reply role plain calls

unfoldable pub sent_parts : Option Json → Option Parts → Option (List Sent)
sent_parts role none = none
sent_parts role (some p) = some (map result p.results ++ reply_of role p.plain p.calls)

unfoldable pub sent_content : Bool → Option Json → Option Json → Option (List Sent)
sent_content preserve role (some (text t)) = some (spoken role (text t) ∷ [])
sent_content preserve role (some (array bs)) = sent_parts role (parts_of preserve bs)
sent_content preserve role _ = some []

unfoldable pub sent_message : Bool → Json → Option (List Sent)
sent_message preserve m = sent_content preserve (get m (codes "role")) (get m (codes "content"))

abbrev pub join_sent : Option (List Sent) → Option (List Sent) → Option (List Sent)
join_sent none later = none
join_sent (some xs) none = none
join_sent (some xs) (some ys) = some (xs ++ ys)

unfoldable pub sent_messages : Bool → Items → Option (List Sent)
sent_messages preserve nil = some []
sent_messages preserve (cons m ms) = join_sent (sent_message preserve m) (sent_messages preserve ms)

abbrev pub items : Option Json → Items
items (some (array xs)) = xs
items _ = nil

abbrev pub instructions : Text → List Sent
instructions [] = []
instructions (c ∷ t) = instruction (c ∷ t) ∷ []

-- `messages` of the request that is sent
unfoldable pub messages : Bool → Json → Option (List Sent)
messages preserve request =
    join_sent (some (instructions (trim_text (text_of (get request (codes "system"))))))
      (sent_messages preserve (items (get request (codes "messages"))))
