-- ===== src/Preferences/Baked.antt =====
-- preferences.mjs: what the baked policy resolves, and what the running instance does after it.
use tokligence_gateway.Prelude.{
  ℕ, ◌≡◌, refl, sym, ap, ◌∙◌, inl, inr, ◌⊎◌, Bool, false, List, [], ◌∷◌, ◌++◌, Option, none, some,
  arith, map, keep, Bool-cases, Option-cases, Text, truthy, lower_case, if◌then◌else◌, sort_by,
}
use tokligence_gateway.Prelude.JsMap
use tokligence_gateway.Prelude.JsMap.{JsMap}
use tokligence_gateway.Routes.{
  Alias, Config, provider_by_id, resolve_configured_alias, best_alias, all_patterns, patterns_of,
  alias_or, follow_alias,
}
use tokligence_gateway.Routes.Wildcard.{matches_wildcard, specificity}
use tokligence_gateway.Preferences.{
  Override, Preferences, matching_override, at_alias, resolve, answer, is_off, persist,
  enabled_provider,
}
use tokligence_gateway.Preferences.Bake.{
  baked_field_id, target_or, bake_alias, baked, baked_config, wrote, bake_to_routes, bake_pair,
  baked-patterns, map-append, patterns_of-map, keep-map, sort_by-map,
}

-- An override as `set` makes it: a target, and nothing that is empty
pub record IsFilled (o : Override) (target : Text) : Type 0 where
  pub has_target : o.target ≡ some target
  pub target_there : truthy (some target) ≡ some target
  pub no_empty_provider : truthy o.provider ≡ o.provider
  pub no_empty_fallback : truthy o.fallback ≡ o.fallback

module _ (env : Text → Option Text) (has_access : Text → Bool) (config : Config)
    (overrides : JsMap Override) where
  all_patterns-baked :
      (aliases : List Alias)
      → all_patterns env has_access (map (baked overrides) aliases)
        ≡ map (bake_pair overrides) (all_patterns env has_access aliases)
  unfolding all_patterns
  all_patterns-baked [] = refl
  all_patterns-baked (a ∷ rest) =
      let own =
        ap (patterns_of env has_access (baked overrides a))
          (baked-patterns overrides a (JsMap.get overrides a.id))
        ∙ patterns_of-map overrides env has_access a a.patterns in
      ap (λ xs. xs ++ all_patterns env has_access (map (baked overrides) rest)) own
      ∙ ap (λ xs. map (bake_pair overrides) (patterns_of env has_access a a.patterns) ++ xs)
          (all_patterns-baked rest)
      ∙ sym (
          map-append overrides (bake_pair overrides) (patterns_of env has_access a a.patterns)
            (all_patterns env has_access rest))

  best_alias-baked :
      (model : Text)
      → best_alias env has_access (baked_config overrides config) model
        ≡ map (bake_pair overrides) (best_alias env has_access config model)
  unfolding best_alias
  best_alias-baked model =
      let matching = λ (x : Alias × Text). matches_wildcard x.1 (lower_case model) in
      ap (λ xs. sort_by (λ (x : Alias × Text). specificity x.1) (keep matching xs))
        (all_patterns-baked config.aliases)
      ∙ ap (sort_by (λ (x : Alias × Text). specificity x.1)) (
          keep-map overrides (bake_pair overrides) matching
            (all_patterns env has_access config.aliases) (λ x. refl))
      ∙ sort_by-map overrides (bake_pair overrides) (λ x. specificity x.1) _ (λ x. refl)

  follow : Text → Text → Option Text → Option Text → Text
  follow model target provider fallback = elim (truthy provider) [
    | none ↦ target
    | some id ↦
        if enabled_provider env has_access config false id
        then target
        else alias_or env has_access (truthy fallback) model
  ]

  follow_alias-follow :
      (model : Text) (a : Alias) (pattern : Text) (rest : List (Alias × Text))
      → follow_alias env has_access (baked_config overrides config) model ((a, pattern) ∷ rest)
        ≡ follow model a.target a.provider a.fallback
  unfolding follow_alias follow enabled_provider provider_by_id
  follow_alias-follow model a pattern rest = ground arith

  follow-answer :
      (model : Text) (a : Alias) (o : Override) (target : Text)
      → IsFilled o target
      → (is_off env has_access config false o ≡ false) ⊎ ((f : Text) × (truthy o.fallback ≡ some f))
      → some (follow model target o.provider o.fallback)
        ≡ answer env has_access config false model (some (a, o))
  unfolding follow answer
  follow-answer model a o target s usable =
      let held = s.has_target in
      elim (Option-cases (truthy o.provider)) [
        | inl nobody ↦ ground arith
        | inr (id, named) ↦ elim (Bool-cases (enabled_provider env has_access config false id)) [
          | inl on ↦ ground arith
          | inr off ↦ elim usable [ inl up ↦ absurd (ground arith) | inr (f, there) ↦ ground arith ]
        ]
      ]

  follow_baked :
      (model : Text) (a : Alias) (pattern : Text) (rest : List (Alias × Text)) (o : Override)
      (target : Text)
      → IsFilled o target
      → follow_alias env has_access
          (baked_config overrides config)
          model
          ((bake_alias a (some o), pattern) ∷ rest)
        ≡ follow model target o.provider o.fallback
  unfolding bake_alias
  follow_baked model a pattern rest o target s =
      let provider = baked_field_id o.provider a.provider s.no_empty_provider in
      let fallback = baked_field_id o.fallback a.fallback s.no_empty_fallback in
      let written : target_or (truthy o.target) a.target ≡ target =
        rw (s.has_target) (rw (s.target_there) refl) in
      follow_alias-follow model (bake_alias a (some o)) pattern rest
      ∙ rw (provider, fallback, written) refl

  bake-wrote :
      (ov : JsMap Override) (saved : Option (JsMap Override)) (a : Alias) (o : Override)
      (file : List Alias) (p' : Preferences)
      → JsMap.get ov a.id ≡ some o
      → bake_to_routes env has_access config false config.aliases
          (record { overrides = ov; file = saved })
        ≡ wrote file p'
      → (file ≡ map (baked ov) config.aliases) × (p'.overrides ≡ [])
  unfolding bake_to_routes persist JsMap.get
  bake-wrote [] saved a o file p' known h = cc
  bake-wrote (e ∷ es) saved a o file p' known h = (cc, cc)

  matching_override-empty :
      (aliases : List Alias) (model : Text)
      → matching_override env has_access config false aliases [] model ≡ none
  unfolding matching_override at_alias JsMap.get
  matching_override-empty [] model = refl
  matching_override-empty (a ∷ rest) model = matching_override-empty rest model

  -- Where the override that fits a model is that of its most specific alias, names a target, and is
  -- usable (its provider is enabled, or it has a fallback): the policy into which the overrides are
  -- baked resolves the model as the running instance did. The running instance, whose overrides are
  -- cleared while its own copy of the policy stays, goes back to what the old policy says.
  pub bake-resolve :
      (p : Preferences) (c : ℕ) (model : Text) (a : Alias) (pattern : Text)
      (rest : List (Alias × Text)) (o : Override) (target : Text)
      → p.overrides ≡ overrides
      → best_alias env has_access config (c ∷ model) ≡ (a, pattern) ∷ rest
      → JsMap.get overrides a.id ≡ some o
      → matching_override env has_access config false config.aliases overrides (c ∷ model)
        ≡ some (a, o)
      → IsFilled o target
      → (is_off env has_access config false o ≡ false) ⊎ ((f : Text) × (truthy o.fallback ≡ some f))
      → (some (resolve_configured_alias env has_access (baked_config overrides config) (c ∷ model))
          ≡ resolve env has_access config false p (c ∷ model))
        × ((file : List Alias) (p' : Preferences)
            → bake_to_routes env has_access config false config.aliases p ≡ wrote file p'
            → (file ≡ (baked_config overrides config).aliases)
              × (resolve env has_access config false p' (c ∷ model)
                  ≡ some (resolve_configured_alias env has_access config (c ∷ model))))
  unfolding resolve resolve_configured_alias
  bake-resolve p c model a pattern rest o target now best known fitting s usable = (
    ap some (
          ap (follow_alias env has_access (baked_config overrides config) (c ∷ model)) (
            best_alias-baked (c ∷ model)
            ∙ ap (map (bake_pair overrides)) best
            ∙ ap
                (λ (x : Option Override).
                  (bake_alias a x, pattern) ∷ map (bake_pair overrides) rest)
                known)
          ∙ follow_baked (c ∷ model) a pattern (map (bake_pair overrides) rest) o target s)
        ∙ follow-answer (c ∷ model) a o target s usable
        ∙ sym (
            ap (answer env has_access config false (c ∷ model)) (
              ap
                (λ (m : JsMap Override).
                  matching_override env has_access config false config.aliases m (c ∷ model))
                now
              ∙ fitting)),
    λ file p' h.
        let (same, cleared) =
          bake-wrote p.overrides p.file a o file p'
            (ap (λ (m : JsMap Override). JsMap.get m a.id) now ∙ known) h in
        (
          same ∙ ap (λ (m : JsMap Override). map (baked m) config.aliases) now,
          ap
                (λ (m : JsMap Override).
                  answer env has_access config false (c ∷ model)
                    (matching_override env has_access config false config.aliases m (c ∷ model)))
                cleared
              ∙ ap (answer env has_access config false (c ∷ model))
                  (matching_override-empty config.aliases (c ∷ model))
              ∙ unfold answer in refl,
        ),
  )
