-- ===== src/Messages/Request.antt =====
-- anthropic-openai-codec.mjs: the rest of the request that anthropicToOpenAI sends.
use tokligence_gateway.Prelude.{
  Bool, not, ◌&&◌, ◌||◌, List, [], ◌∷◌, Option, none, some, Text, codes, if◌then◌else◌,
}
use tokligence_gateway.Prelude.Json.{Json, number, array, Items, nil, cons, get, is_truthy}
use tokligence_gateway.Messages.Validate.{is_type}
use tokligence_gateway.Messages.Translate.{Sent, items, is_set, messages}

-- `none` as the parameters stands for an object without properties, as the description for "".
pub record Tool : Type 0 where
  pub name : Option Json
  pub description : Option Json
  pub parameters : Option Json
  pub strict : Bool

pub data Choice : Type 0 where
  mode : Text → Choice
  selected : Option Json → Choice

pub record Request : Type 0 where
  pub copied : List (Text × Json)
  -- `none` stands for 4096.
  pub max_tokens : Option Json
  pub stop : Option Json
  -- with `stream_options`
  pub stream : Bool
  pub messages : List Sent
  pub tools : List Tool
  pub tool_choice : Option Choice
  pub parallel_tool_calls : Option Bool

abbrev pub if_truthy : Option Json → Option Json
if_truthy v = if is_truthy v then v else none

unfoldable pub copied_fields : Json → List Text → List (Text × Json)
copied_fields request [] = []
copied_fields request (k ∷ ks) = elim (get request k) [
  | none ↦ copied_fields request ks
  | some v ↦ (k, v) ∷ copied_fields request ks
]

abbrev pub if_number : Option Json → Option Json
if_number (some (number z)) = some (number z)
if_number _ = none

abbrev pub if_filled : Option Json → Option Json
if_filled (some (array (cons v vs))) = some (array (cons v vs))
if_filled _ = none

abbrev pub if_given : Option Json → Option Bool
if_given none = none
if_given (some v) = some (is_set (some v))

unfoldable pub tools_of : Items → List Tool
tools_of nil = []
tools_of (cons t ts) =
    let later = tools_of ts in
    if not (is_truthy (get t (codes "name")))
    then later
    else record {
      name = get t (codes "name");
      description = if_truthy (get t (codes "description"));
      parameters =
          if is_truthy (get t (codes "input_schema"))
          then get t (codes "input_schema")
          else if_truthy (get t (codes "parameters"));
      strict = is_set (get t (codes "strict"));
    }
      ∷ later

-- toolChoiceToOpenAI
unfoldable pub tool_choice_to_openai : Option Json → Option Choice
tool_choice_to_openai none = none
tool_choice_to_openai (some choice) =
    if is_type (codes "auto") choice
    then some (mode (codes "auto"))
    else if is_type (codes "any") choice
    then some (mode (codes "required"))
    else if is_type (codes "none") choice
    then some (mode (codes "none"))
    else if is_type (codes "tool") choice && is_truthy (get choice (codes "name"))
    then some (selected (get choice (codes "name")))
    else none

abbrev pub request_of : Bool → Json → List Sent → Request
request_of force request ms = record {
  copied =
      copied_fields request
        (codes "model" ∷ (codes "temperature" ∷ (codes "top_p" ∷ (codes "user" ∷ []))));
  max_tokens = if_number (get request (codes "max_tokens"));
  stop = if_filled (get request (codes "stop_sequences"));
  stream = force || is_set (get request (codes "stream"));
  messages = ms;
  tools = tools_of (items (get request (codes "tools")));
  tool_choice = tool_choice_to_openai (get request (codes "tool_choice"));
  parallel_tool_calls = if_given (get request (codes "parallel_tool_calls"));
}

abbrev pub with_messages : Bool → Json → Option (List Sent) → Option Request
with_messages force request none = none
with_messages force request (some ms) = some (request_of force request ms)

-- `none` where signed thinking is refused with status 400
unfoldable pub anthropic_to_openai : Bool → Bool → Json → Option Request
anthropic_to_openai force preserve request = with_messages force request (messages preserve request)
