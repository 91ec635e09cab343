-- ===== src/FreeModels/Costs.antt =====
-- opencode-free-models.mjs: the checks of freeOpenCodeModels on parsed JSON, and the function.
use tokligence_gateway.Prelude.{
  is_space, skip_spaces, ℕ, Bool, true, false, not, ◌&&◌, ◌||◌, List, [], ◌∷◌, ◌++◌, Option, none,
  some, leb, ◌==◌, Text, codes, text_eq, strip_prefix, if◌then◌else◌,
}
use tokligence_gateway.Prelude.JsMap
pub use tokligence_gateway.Prelude.Json.{
  Json, null, bool, number, text, array, object, Items, nil, cons, Fields, end, field, is_truthy,
}
use tokligence_gateway.Prelude.JsMap.{JsMap}

-- The white space that `trim` and `Number` skip, in ASCII.
all_spaces : Text → Bool
all_spaces [] = true
all_spaces (c ∷ t) = is_space c && all_spaces t

is_digit : ℕ → Bool
is_digit c = leb 48 c && leb c 57

-- Digits up to the spaces at the end, at least one.
digits_end : Bool → Text → Bool
digits_end seen [] = seen
digits_end seen (c ∷ t) =
    let more = digits_end true t in if is_digit c then more else seen && all_spaces (c ∷ t)

-- An exponent after its `e`, with its sign
exponent_end : Text → Bool
exponent_end [] = false
exponent_end (c ∷ t) =
    if c == b'+' || c == b'-' then digits_end false t else digits_end false (c ∷ t)

-- After the sign: zeros with at most one point, at least one digit, then an exponent or the end.
zeros : Bool → Bool → Text → Bool
zeros seen pointed [] = seen
zeros seen pointed (c ∷ t) =
    let more = zeros true pointed t in
    let past_point = zeros seen true t in
    if c == b'0'
    then more
    else if c == b'.'
    then not pointed && past_point
    else if c == b'e' || c == b'E'
    then seen && exponent_end t
    else seen && all_spaces (c ∷ t)

unsigned : Text → Text
unsigned [] = []
unsigned (c ∷ t) = if c == b'+' || c == b'-' then t else c ∷ t

-- Zeros of a literal with a base, `0x0`, `0o0`, `0b0`.
based_zeros : Bool → Text → Bool
based_zeros seen [] = seen
based_zeros seen (c ∷ t) =
    let more = based_zeros true t in if c == b'0' then more else seen && all_spaces (c ∷ t)

is_base : ℕ → Bool
is_base c = c == b'x' || c == b'X' || c == b'o' || c == b'O' || c == b'b' || c == b'B'

based : Text → Bool
based (z ∷ c ∷ t) = z == b'0' && is_base c && based_zeros false t
based _ = false

-- `t.trim() !== "" && Number.isFinite(Number(t)) && Number(t) === 0`
unfoldable pub zero_text : Text → Bool
unfolding skip_spaces zeros based unsigned based_zeros exponent_end digits_end all_spaces is_space
    is_digit is_base
zero_text t = based (skip_spaces t) || zeros false false (unsigned (skip_spaces t))

-- zero
unfoldable pub zero_value : Json → Bool
zero_value (number is_zero) = is_zero
zero_value (text t) = zero_text t
zero_value _ = false

unfoldable mutual
  unfolding zero_value

  -- allZero
  pub all_zero : Json → Bool
  all_zero (array xs) = all_zero_items xs
  all_zero (object fs) = all_zero_fields fs
  all_zero v = zero_value v

  pub all_zero_items : Items → Bool
  all_zero_items nil = true
  all_zero_items (cons v xs) = all_zero v && all_zero_items xs

  pub all_zero_fields : Fields → Bool
  all_zero_fields end = true
  all_zero_fields (field k v fs) = all_zero v && all_zero_fields fs

member_of : Fields → Text → Json
member_of end name = null
member_of (field k v fs) name = if text_eq k name then v else member_of fs name

-- `v?.name` of an object; `null` stands for undefined too, which no test here tells apart.
unfoldable pub member : Json → Text → Json
unfolding member_of
member (object fs) name = member_of fs name
member _ name = null

-- An entry of the endpoint's list; a string has no pricing.
pub record Entry : Type 0 where
  pub id : Option Text
  pub pricing : Option Json

-- What models.dev says of a model.
pub record Metadata : Type 0 where
  pub status : Option Text
  pub cost : Json
  pub name : Option Text
  pub context : Option ℕ

pub record FreeModel : Type 0 where
  pub id : Text
  pub name : Option Text
  pub context_window : Option ℕ

unfoldable pub is_jev : Text → Bool
is_jev id = elim (strip_prefix (codes "jev-") id) [ none ↦ false | some rest ↦ true ]

unfoldable pub is_deprecated : Option Text → Bool
is_deprecated none = false
is_deprecated (some s) = text_eq s (codes "deprecated")

-- A pricing that is falsy, such as null or the empty text, says nothing.
unfoldable pub priced_zero : Option Json → Bool
priced_zero none = true
priced_zero (some p) = not (is_truthy (some p)) || all_zero p

abbrev is_empty : Text → Bool
is_empty [] = true
is_empty (c ∷ t) = false

-- The test on one entry, an `id` and what models.dev says of it.
unfoldable pub passes : Text → Option Json → Metadata → Bool
passes id pricing m =
    not (is_empty id)
    && not (is_jev id)
    && not (is_deprecated m.status)
    && zero_value (member m.cost (codes "input"))
    && zero_value (member m.cost (codes "output"))
    && all_zero m.cost
    && priced_zero pricing

unfoldable pub free_entry : JsMap Metadata → Entry → List FreeModel
free_entry metadata e = elim e.id [
  | none ↦ []
  | some id ↦ elim (JsMap.get metadata id) [
    | none ↦ []
    | some m ↦
        if passes id e.pricing m
        then record { id = id; name = m.name; context_window = m.context } ∷ []
        else []
  ]
]

unfoldable pub free_entries : JsMap Metadata → List Entry → List FreeModel
unfolding free_entry
free_entries metadata [] = []
free_entries metadata (e ∷ es) = free_entry metadata e ++ free_entries metadata es

-- freeOpenCodeModels: `none` is its error on a catalog without the lists.
unfoldable pub free_models : Option (List Entry) → Option (JsMap Metadata) → Option (List FreeModel)
unfolding free_entries
free_models none metadata = none
free_models (some entries) none = none
free_models (some entries) (some metadata) = some (free_entries metadata entries)
