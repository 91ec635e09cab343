-- ===== src/Protocols.antt =====
-- protocol-codecs.mjs: the protocol of a path, what a request asks for, and whether a provider has
-- it. Of a request body the model keeps what these functions read.
use tokligence_gateway.Prelude.{
  ℕ, ◌≡◌, Bool, true, false, not, ◌&&◌, ◌||◌, List, [], ◌∷◌, Option, none, some, Text, codes,
  text_eq, text_eq→eq, text_eq_refl, strip_prefix, any, if◌then◌else◌, ltb, refl, ap,
}
use tokligence_gateway.FreeModels.Costs.{
  Json, text, array, object, Items, nil, cons, Fields, end, field,
}

pub data Protocol : Type 0 where
  chat_completions responses messages : Protocol
  unknown : Text → Protocol

unfoldable pub protocol_eq : Protocol → Protocol → Bool
protocol_eq chat_completions chat_completions = true
protocol_eq responses responses = true
protocol_eq messages messages = true
protocol_eq (unknown a) (unknown b) = text_eq a b
protocol_eq _ _ = false

-- `pathname.includes(part)`
unfoldable pub contains : Text → Text → Bool
contains part [] = elim (strip_prefix part []) [ none ↦ false | some rest ↦ true ]
contains part (c ∷ t) =
    let later = contains part t in
    elim (strip_prefix part (c ∷ t)) [ none ↦ later | some rest ↦ true ]

unfoldable pub protocol_for_path : Text → Option Protocol
protocol_for_path pathname =
    if contains (codes "/chat/completions") pathname
    then some chat_completions
    else if contains (codes "/responses") pathname
    then some responses
    else if contains (codes "/messages") pathname
    then some messages
    else none

-- `JSON.stringify` escapes the quotes inside a text, so the pattern `"(image|input_image|image_url)"`
-- is in the printed content exactly if one of the three words stands in it as a whole text or key.
unfoldable pub is_image_word : Text → Bool
is_image_word t =
    text_eq t (codes "image") || text_eq t (codes "input_image") || text_eq t (codes "image_url")

unfoldable mutual
  pub mentions_image : Json → Bool
  mentions_image (text t) = is_image_word t
  mentions_image (array xs) = mentions_image_items xs
  mentions_image (object fs) = mentions_image_fields fs
  mentions_image _ = false

  pub mentions_image_items : Items → Bool
  mentions_image_items nil = false
  mentions_image_items (cons v xs) = mentions_image v || mentions_image_items xs

  pub mentions_image_fields : Fields → Bool
  mentions_image_fields end = false
  mentions_image_fields (field k v fs) =
      is_image_word k || mentions_image v || mentions_image_fields fs

pub record Body : Type 0 where
  -- `stream === true`, `parallel_tool_calls === true`
  pub stream : Bool
  pub parallel_tool_calls : Bool
  -- the length of `tools`, if it is an array
  pub tools : Option ℕ
  -- whether these are truthy
  pub response_format : Bool
  pub text_format : Bool
  pub output_config_format : Bool
  pub reasoning : Bool
  pub thinking : Bool
  pub output_config_effort : Bool
  -- `messages || input || ""`
  pub content : Json
  -- `Buffer.byteLength(JSON.stringify(body))`
  pub bytes : ℕ

pub record Features : Type 0 where
  pub protocol : Protocol
  pub streaming : Bool
  pub tools : Bool
  pub parallel_tools : Bool
  pub structured_output : Bool
  pub reasoning : Bool
  pub vision : Bool

abbrev some_tools : Option ℕ → Bool
some_tools none = false
some_tools (some n) = ltb 0 n

unfoldable pub inspect_request_features : Protocol → Body → Features
inspect_request_features protocol b = record {
  protocol = protocol;
  streaming = b.stream;
  tools = some_tools b.tools;
  parallel_tools = b.parallel_tool_calls;
  structured_output = b.response_format || b.text_format || b.output_config_format;
  reasoning = b.reasoning || b.thinking || b.output_config_effort;
  vision = mentions_image b.content;
}

pub record Capabilities : Type 0 where
  pub protocols : List Protocol
  pub streaming : Bool
  pub tools : Bool
  pub parallel_tools : Bool
  pub structured_output : Bool
  pub reasoning : Bool
  pub vision : Bool

abbrev covers : Bool → Bool → Bool
covers required has = not required || has

unfoldable pub supports_features : Capabilities → Features → Bool
supports_features c r =
    any (protocol_eq r.protocol) c.protocols
    && covers r.streaming c.streaming
    && covers r.tools c.tools
    && covers r.parallel_tools c.parallel_tools
    && covers r.structured_output c.structured_output
    && covers r.reasoning c.reasoning
    && covers r.vision c.vision

pub protocol_eq→eq : (a b : Protocol) → protocol_eq a b ≡ true → a ≡ b
unfolding protocol_eq
protocol_eq→eq chat_completions chat_completions h = refl
protocol_eq→eq responses responses h = refl
protocol_eq→eq messages messages h = refl
protocol_eq→eq (unknown a) (unknown b) h = ap unknown (text_eq→eq a b h)
protocol_eq→eq _ _ h = cc

pub protocol_eq_refl : (a : Protocol) → protocol_eq a a ≡ true
unfolding protocol_eq
protocol_eq_refl chat_completions = refl
protocol_eq_refl responses = refl
protocol_eq_refl messages = refl
protocol_eq_refl (unknown a) = text_eq_refl a
