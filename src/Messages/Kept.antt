-- ===== src/Messages/Kept.antt =====
-- anthropic-openai-codec.mjs: what validateNativeAnthropicRequest lets pass is translated without a
-- loss. This file reads the blocks of a request and the parts that they become.
pub mod Blocks
pub mod Reading
pub mod Whole
use tokligence_gateway.Prelude.{
  ◌≡◌, refl, sym, ap, ◌∙◌, subst, inl, inr, Bool, true, false, not, ◌&&◌, ◌||◌, List, [], ◌∷◌, ◌++◌,
  map, Option, none, some, arith, Text, codes, text_eq, text_eq→eq, if◌then◌else◌, Bool-cases,
}
use tokligence_gateway.Prelude.Json.{
  Json, null, bool, number, text, array, object, Items, nil, cons, end, get, is_truthy, is_object,
  is_string, is_named, is_word,
}
use tokligence_gateway.Messages.Validate.{
  Label, native_message, tool_result, is_type, refuse_if, is_plain, all_plain, text_only,
  text_only_if, is_unsigned, is_flag, is_given_object, block_error,
}
use tokligence_gateway.Messages.Translate.{
  Plain, text_plain, image_plain, reasoning_plain, ToolCall, ToolResult, Parts, shown, or_empty,
  has_text, texts, text_of, no_parts, a_part, a_call, a_result, thinking_parts, id_or, or_object,
  is_set, result_of, call_of, block_parts, reasoning_of,
}

-- A call of a tool, with what is given of it
pub record Asked : Type 0 where
  pub id : Option Json
  pub name : Option Json
  pub input : Option Json

abbrev pub string_of : Option Json → Text
string_of (some (text t)) = t
string_of _ = []

unfoldable pub strings_in : Items → Text
strings_in nil = []
strings_in (cons b bs) = string_of (get b (codes "text")) ++ strings_in bs

-- A text, or the texts of the blocks
unfoldable pub content_text : Option Json → Text
content_text (some (array bs)) = strings_in bs
content_text v = string_of v

unfoldable pub said_in : Json → List Json
said_in b = if is_type (codes "text") b then text (string_of (get b (codes "text"))) ∷ [] else []

unfoldable pub thought_in : Json → Text
thought_in b = if is_type (codes "thinking") b then string_of (get b (codes "thinking")) else []

unfoldable pub called_in : Json → List Asked
called_in b =
    if is_type (codes "tool_use") b
    then record {
      id = get b (codes "id");
      name = get b (codes "name");
      input = get b (codes "input");
    }
      ∷ []
    else []

unfoldable pub answered_in : Bool → Json → List ToolResult
answered_in preserve b =
    if is_type (codes "tool_result") b
    then record {
      tool_call_id = get b (codes "tool_use_id");
      is_error = preserve && is_set (get b (codes "is_error"));
      content = content_text (get b (codes "content"));
    }
      ∷ []
    else []

unfoldable pub said_plain : List Plain → List Json
said_plain [] = []
said_plain (text_plain v ∷ ps) = v ∷ said_plain ps
said_plain (p ∷ ps) = said_plain ps

abbrev pub asked : ToolCall → Asked
asked c = record { id = some c.id; name = c.name; input = some c.arguments }

-- The parts carry what has been read.
pub record Carries (said : List Json) (thought : Text) (called : List Asked)
    (answered : List ToolResult) (p : Parts) : Type 0 where
  pub says : said_plain p.plain ≡ said
  pub thinks : reasoning_of p.plain ≡ thought
  pub calls : map asked p.calls ≡ called
  pub answers : p.results ≡ answered

-- A value is not two words.
pub is_word-apart :
    (u w : Text) (v : Option Json) → is_word u v ≡ true → text_eq u w ≡ false → is_word w v ≡ false
unfolding is_word
is_word-apart u w none h e = cc
is_word-apart u w (some (text t)) h e = subst (λ t. text_eq t w ≡ false) (sym (text_eq→eq t u h)) e
is_word-apart u w (some null) h e = cc
is_word-apart u w (some (bool b)) h e = cc
is_word-apart u w (some (number b)) h e = cc
is_word-apart u w (some (array b)) h e = cc
is_word-apart u w (some (object b)) h e = cc

pub or_empty-string : (v : Option Json) → is_string v ≡ true → or_empty v ≡ text (string_of v)
or_empty-string v h = ground arith

texts-strings : (bs : Items) → all_plain bs ≡ true → texts bs ≡ strings_in bs
unfolding texts strings_in all_plain is_plain
texts-strings nil h = refl
texts-strings (cons b bs) h =
    let typed : is_type (codes "text") b ≡ true = ground arith in
    let string : is_string (get b (codes "text")) ≡ true = ground arith in
    rw (typed, or_empty-string (get b (codes "text")) string, texts-strings bs (ground arith)) refl

pub text_of-content :
    (label : Label) (v : Option Json) → text_only_if label v ≡ none → text_of v ≡ content_text v
unfolding text_of content_text text_only
text_of-content label none h = refl
text_of-content label (some (text t)) h = refl
text_of-content label (some null) h = refl
text_of-content label (some (bool b)) h = refl
text_of-content label (some (number b)) h = refl
text_of-content label (some (object b)) h = refl
text_of-content label (some (array bs)) h = elim (Bool-cases (all_plain bs)) [
  | inl plain ↦ texts-strings bs plain
  | inr other ↦ absurd (ground arith)
]
