-- ===== src/Preferences/Tests.antt =====
-- preferences.mjs: an override that is set, saved and baked, and the theorems at that input.
use tokligence_gateway.Prelude.{
  ◌≡◌, refl, inl, Bool, false, List, [], ◌∷◌, Option, none, some, any, keep, Text, codes, text_eq,
  truthy, lower_case, to_lower, trim_text, skip_spaces, drop_end, is_space, sort_by, insert_by,
}
use tokligence_gateway.Prelude.JsMap
use tokligence_gateway.Routes.{
  Alias, Config, best_alias, all_patterns, resolve_configured_alias, follow_alias,
}
use tokligence_gateway.Routes.Wildcard.{matches_wildcard, specificity, glob, star, is_terminator}
use tokligence_gateway.Preferences.{
  Override, absent, string, Wanted, Preferences, load, persist, stored, stored_all, alias_exists,
  rejections, finish_set, set, matching_override, at_alias, answer, resolve, is_off,
}
use tokligence_gateway.Preferences.Restart.{start, after_set, restart-resolve}
use tokligence_gateway.Preferences.Bake.{baked_config, wrote, bake_to_routes}
use tokligence_gateway.Preferences.Baked.{IsFilled, bake-resolve}

abbrev env : Text → Option Text
env name = none

abbrev access : Text → Bool
access file = false

abbrev alias_of : Text → Text → Text → Alias
alias_of id pattern target = record {
  id = id;
  patterns = pattern ∷ [];
  provider = none;
  target = target;
  fallback = none;
}

abbrev fast : Alias
fast = alias_of (codes "fast") (codes "fast-*") (codes "old")

abbrev config : Config
config = record {
  providers = [];
  routes = [];
  profiles = [];
  roles = [];
  aliases = alias_of (codes "any") (codes "*") (codes "rest") ∷ fast ∷ [];
  class_routing = none;
  canonical_models = [];
}

abbrev wanted : Wanted
wanted = record { provider = none; target = string (codes " new "); fallback = absent }

abbrev written : Override
written = record { provider = none; target = some (codes "new"); fallback = none }

abbrev fresh : Preferences
fresh = record { overrides = []; file = none }

abbrev changed : Preferences
changed = record {
  overrides = (codes "fast", written) ∷ [];
  file = some ((codes "fast", written) ∷ []);
}

set_fast : set env access config false fresh (codes "fast") (some wanted) ≡ (changed, [])
unfolding set finish_set rejections alias_exists any text_eq trim_text skip_spaces drop_end is_space
    truthy persist stored stored_all JsMap.set
set_fast = refl

restart-resolve_example :
    resolve env access config false
      (load env access config false
        (set env access config false
          (load env access config false none)
          (codes "fast")
          (some wanted)).0.file)
      (codes "fast-1")
    ≡ resolve env access config false
        (set env access config false
          (load env access config false none)
          (codes "fast")
          (some wanted)).0
        (codes "fast-1")
restart-resolve_example =
    restart-resolve env access config
      (set env access config false (load env access config false none) (codes "fast")
        (some wanted)).0
      (codes "fast-1") (after_set (codes "fast") (some wanted) (start none))

best_is_fast :
    best_alias env access config (codes "fast-1")
    ≡ (fast, codes "fast-*") ∷ (alias_of (codes "any") (codes "*") (codes "rest"), codes "*") ∷ []
unfolding best_alias all_patterns keep matches_wildcard glob star is_terminator specificity sort_by
    insert_by lower_case to_lower
best_is_fast = refl

fast_fits :
    matching_override env access config false config.aliases changed.overrides (codes "fast-1")
    ≡ some (fast, written)
unfolding matching_override at_alias any matches_wildcard glob star is_terminator lower_case
    to_lower JsMap.get text_eq
fast_fits = refl

fast_known : JsMap.get changed.overrides (codes "fast") ≡ some written
unfolding JsMap.get text_eq
fast_known = refl

written_set : IsFilled written (codes "new")
unfolding truthy
written_set = record {
  has_target = refl;
  target_there = refl;
  no_empty_provider = refl;
  no_empty_fallback = refl;
}

nobody_off : is_off env access config false written ≡ false
unfolding truthy
nobody_off = refl

bake-resolve_example :
    (some (
        resolve_configured_alias env access
          (baked_config changed.overrides config)
          (codes "fast-1"))
      ≡ resolve env access config false changed (codes "fast-1"))
    × ((file : List Alias) (p' : Preferences)
        → bake_to_routes env access config false config.aliases changed ≡ wrote file p'
        → (file ≡ (baked_config changed.overrides config).aliases)
          × (resolve env access config false p' (codes "fast-1")
              ≡ some (resolve_configured_alias env access config (codes "fast-1"))))
bake-resolve_example =
    bake-resolve env access config changed.overrides changed b'f' (codes "ast-1") fast
      (codes "fast-*") ((alias_of (codes "any") (codes "*") (codes "rest"), codes "*") ∷ []) written
      (codes "new") refl best_is_fast fast_known fast_fits written_set (inl nobody_off)

-- The first alias that fits and has an override wins, however general it is: with an override of
-- `any`, the policy's own more specific alias is never asked.
hidden :
    (resolve env access config false
        (record { overrides = (codes "any", written) ∷ []; file = none })
        (codes "fast-1")
      ≡ some (codes "new"))
    × (resolve_configured_alias env access config (codes "fast-1") ≡ codes "old")
unfolding resolve answer matching_override at_alias any matches_wildcard glob star is_terminator
    lower_case to_lower JsMap.get text_eq truthy resolve_configured_alias follow_alias best_alias
    all_patterns keep specificity sort_by insert_by
hidden = (refl, refl)
