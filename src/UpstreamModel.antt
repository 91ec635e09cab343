-- ===== src/UpstreamModel.antt =====
-- upstream-model.mjs: the id that a provider knows a model by, from the gateway's own id for it.
-- The test for an empty id has no clause: no prefix fits it, and it comes back as it is.
pub mod Laws
mod Tests
use tokligence_gateway.Prelude.{
  ℕ, Bool, List, [], ◌∷◌, Option, none, some, length, drop, Text, codes, text_eq, strip_prefix,
  lower_case, if◌then◌else◌,
}

-- `model.toLowerCase().startsWith(prefix) ? model.slice(prefix.length)`
unfoldable pub strip_folded : Text → Text → Option Text
strip_folded prefix model = elim (strip_prefix prefix (lower_case model)) [
  | none ↦ none
  | some rest ↦ some (drop (length prefix) model)
]

-- The first of the prefixes that the model has is cut off.
unfoldable pub strip_first : List Text → Text → Option Text
strip_first [] model = none
strip_first (p ∷ ps) model =
    let rest = strip_first ps model in elim (strip_folded p model) [ none ↦ rest | some m ↦ some m ]

abbrev pub openrouter_prefixes : List Text
openrouter_prefixes = codes "openrouter/" ∷ codes "or/" ∷ []

abbrev pub mistral_prefixes : List Text
mistral_prefixes = codes "mistral/" ∷ []

abbrev pub opencode_prefixes : List Text
opencode_prefixes = codes "opencode-go/" ∷ codes "opencode-zen/" ∷ codes "oc/" ∷ codes "zen/" ∷ []

-- OPENROUTER_ALIASES has one entry: an id that begins with `free` is the router's free model.
unfoldable pub openrouter_alias : Text → Text
openrouter_alias model = elim (strip_folded (codes "free") model) [
  | none ↦ model
  | some rest ↦ codes "openrouter/free"
]

unfoldable pub resolve_open_router_model : Text → Text
resolve_open_router_model model = elim (strip_first openrouter_prefixes model) [
  | some m ↦ m
  | none ↦ openrouter_alias model
]

unfoldable pub resolve_mistral_model : Text → Text
resolve_mistral_model model = elim (strip_first mistral_prefixes model) [
  | some m ↦ m
  | none ↦ model
]

unfoldable pub resolve_open_code_model : Text → Text
resolve_open_code_model model = elim (strip_first opencode_prefixes model) [
  | some m ↦ m
  | none ↦ model
]

unfoldable pub normalize_upstream_model : Text → Text → Text
normalize_upstream_model provider model =
    if text_eq provider (codes "openrouter")
    then resolve_open_router_model model
    else if text_eq provider (codes "mistral")
    then resolve_mistral_model model
    else if text_eq provider (codes "opencode-zen")
    then resolve_open_code_model model
    else if text_eq provider (codes "opencode-go")
    then resolve_open_code_model model
    else model
