-- ===== src/Preferences.antt =====
-- preferences.mjs: overrides of aliases that the dashboard makes while the gateway runs. The YAML
-- library is a parameter: what it prints and reads back is a document, a list of overrides. A file
-- that is missing or that cannot be read is `none`. Making the directory is not modelled.
pub mod Saved
pub mod Restart
pub mod Bake
pub mod Baked
mod Tests
use tokligence_gateway.Prelude.{
  Bool, true, false, not, ◌&&◌, List, [], ◌∷◌, ◌++◌, Option, none, some, any, Text, text_eq, truthy,
  trim_text, lower_case, if◌then◌else◌,
}
use tokligence_gateway.Prelude.JsMap
use tokligence_gateway.Prelude.JsMap.{JsMap}
use tokligence_gateway.Routes.{
  Alias, Config, provider_by_id, provider_enabled, resolve_configured_alias,
}
use tokligence_gateway.Routes.Wildcard.{matches_wildcard}

-- `none` is null, and a target that is no string.
pub record Override : Type 0 where
  pub provider : Option Text
  pub target : Option Text
  pub fallback : Option Text

-- A value of a request: null or undefined, a string, or something else
pub data Given : Type 0 where
  absent other : Given
  string : Text → Given

pub record Wanted : Type 0 where
  -- null, undefined, or the id of a provider
  pub provider : Option Text
  pub target : Given
  pub fallback : Given

pub data Rejection : Type 0 where
  unknown_alias provider_not_enabled empty_target bad_fallback : Rejection

-- The live overrides, and the document in the file that they are kept in
pub record Preferences : Type 0 where
  pub overrides : JsMap Override
  pub file : Option (JsMap Override)

abbrev given_text : Given → Option Text
given_text (string t) = some t
given_text _ = none

abbrev is_other : Given → Bool
is_other other = true
is_other _ = false

-- The target without the spaces round it, if something is left
abbrev pub given_target : Given → Option Text
given_target g = elim (given_text g) [ none ↦ none | some t ↦ truthy (some (trim_text t)) ]

-- What `_persist` writes of an override: an empty provider or fallback is left out.
unfoldable pub stored : Override → Override
stored o = record { provider = truthy o.provider; target = o.target; fallback = truthy o.fallback }

unfoldable pub stored_all : JsMap Override → JsMap Override
stored_all [] = []
stored_all ((id, o) ∷ rest) = (id, stored o) ∷ stored_all rest

unfoldable pub at_alias :
    Alias → Option Override → Bool → Option (Alias × Override) → Option (Alias × Override)
at_alias a none fits later = later
at_alias a (some o) true later = some (a, o)
at_alias a (some o) false later = later

module _ (env : Text → Option Text) (has_access : Text → Bool) (config : Config)
    (readonly : Bool) where
  unfoldable pub alias_exists : Text → Bool
  alias_exists id = any (λ (a : Alias). text_eq a.id id) config.aliases

  unfoldable pub enabled_provider : Text → Bool
  enabled_provider id = elim (provider_by_id config id) [
    | none ↦ false
    | some p ↦ provider_enabled env has_access p
  ]

  -- `_load`: overrides of aliases that are not there are skipped.
  unfoldable pub load_all : JsMap Override → JsMap Override → JsMap Override
  load_all overrides [] = overrides
  load_all overrides ((id, o) ∷ rest) =
      load_all (if alias_exists id then JsMap.set overrides id o else overrides) rest

  unfoldable pub load : Option (JsMap Override) → Preferences
  load none = record { overrides = []; file = none }
  load (some document) = record {
    overrides = if readonly then [] else load_all [] document;
    file = some document;
  }

  unfoldable pub persist : Preferences → Preferences
  persist p = if readonly then p else record p { file = some (stored_all p.overrides) }

  abbrev bad_provider : Wanted → Bool
  bad_provider w = elim (truthy w.provider) [ none ↦ false | some id ↦ not (enabled_provider id) ]

  -- The errors of an override, none if it is accepted
  unfoldable pub rejections : Wanted → List Rejection
  rejections w =
      (if bad_provider w then provider_not_enabled ∷ [] else [])
      ++ (elim (given_target w.target) [ none ↦ empty_target ∷ [] | some t ↦ [] ])
      ++ (if is_other w.fallback then bad_fallback ∷ [] else [])

  abbrev pub accepted : Wanted → Override
  accepted w = record {
    provider = truthy w.provider;
    target = given_target w.target;
    fallback = truthy (given_text w.fallback);
  }

  unfoldable pub clear : Preferences → Text → Preferences × List Rejection
  clear p id =
      if alias_exists id
      then (persist (record p { overrides = JsMap.delete p.overrides id }), [])
      else (p, unknown_alias ∷ [])

  unfoldable pub finish_set :
      Preferences → Text → Wanted → List Rejection → Preferences × List Rejection
  finish_set p id w (e ∷ es) = (p, e ∷ es)
  finish_set p id w [] =
      (persist (record p { overrides = JsMap.set p.overrides id (accepted w) }), [])

  -- `set`; without an override it clears the one there is.
  unfoldable pub set : Preferences → Text → Option Wanted → Preferences × List Rejection
  unfolding finish_set
  set p id none = clear p id
  set p id (some w) =
      if alias_exists id then finish_set p id w (rejections w) else (p, unknown_alias ∷ [])

  unfoldable pub reset : Preferences → Preferences
  reset p = persist (record p { overrides = [] })

  abbrev fits : Alias → Text → Bool
  fits a model = any (λ pattern. matches_wildcard pattern (lower_case model)) a.patterns

  -- `_matchingOverride`: the first alias in the order of the policy that has an override and fits
  unfoldable pub matching_override : List Alias → JsMap Override → Text → Option (Alias × Override)
  matching_override [] overrides model = none
  matching_override (a ∷ rest) overrides model =
      at_alias a (JsMap.get overrides a.id) (fits a model) (matching_override rest overrides model)

  abbrev base : Text → Text
  base model = resolve_configured_alias env has_access config model

  abbrev pub or_text : Option Text → Text → Option Text
  or_text o t = elim (truthy o) [ none ↦ some t | some s ↦ some s ]

  -- Whether the override names a provider that is not enabled now
  abbrev pub is_off : Override → Bool
  is_off o = elim (truthy o.provider) [ none ↦ false | some id ↦ not (enabled_provider id) ]

  -- What the override that fits resolves a model to
  unfoldable pub answer : Text → Option (Alias × Override) → Option Text
  answer model none = some (base model)
  answer model (some (a, o)) = if is_off o then or_text o.fallback (base model) else o.target

  -- `resolve`; `none` is the null target of an override that was read from a file without one.
  unfoldable pub resolve : Preferences → Text → Option Text
  resolve p [] = some []
  resolve p (c ∷ model) =
      answer (c ∷ model) (matching_override config.aliases p.overrides (c ∷ model))
