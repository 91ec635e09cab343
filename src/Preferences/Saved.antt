-- ===== src/Preferences/Saved.antt =====
-- preferences.mjs: overrides survive a restart. The document that is written is read back by the
-- next instance, which then resolves every model as the one before did.
use tokligence_gateway.Prelude.{
  ◌≡◌, refl, ap, ◌∙◌, Bool, true, false, List, [], ◌∷◌, Option, none, some, arith, Text,
  text_eq_iff, truthy, All,
}
use tokligence_gateway.Prelude.JsMap
use tokligence_gateway.Prelude.JsMap.{JsMap, get-set, get-delete, Unique, set-Unique, delete-Unique}
use tokligence_gateway.Routes.{Alias, Config}
use tokligence_gateway.Preferences.{
  Override, Preferences, stored, stored_all, alias_exists, load_all, load, persist,
  matching_override, at_alias, answer, resolve,
}

abbrev map_stored : Option Override → Option Override
map_stored none = none
map_stored (some o) = some (stored o)

abbrev or_get : Option Override → Option Override → Option Override
or_get none later = later
or_get (some o) later = some o

or_get-none : (o : Option Override) → or_get o none ≡ o
or_get-none none = refl
or_get-none (some o) = refl

truthy_again : (o : Option Text) → truthy (truthy o) ≡ truthy o
unfolding truthy
truthy_again v0 = ground arith

module _ (env : Text → Option Text) (has_access : Text → Bool) (config : Config) where
  -- Each override is for an alias of the policy, and there is one for each alias at most.
  abbrev pub IsKept : JsMap Override → Type 0
  IsKept m =
      Unique m
      × All (λ (e : Text × Override). alias_exists env has_access config false e.0 ≡ true) m

  load_all-known :
      (acc rest : JsMap Override) (id : Text) (o : Override)
      → alias_exists env has_access config false id ≡ true
      → load_all env has_access config false acc ((id, o) ∷ rest)
        ≡ load_all env has_access config false (JsMap.set acc id o) rest
  unfolding load_all
  load_all-known acc rest id o e = ground arith

  get-load_all :
      (acc m : JsMap Override) (k : Text)
      → IsKept m
      → JsMap.get (load_all env has_access config false acc (stored_all m)) k
        ≡ or_get (map_stored (JsMap.get m k)) (JsMap.get acc k)
  unfolding load_all stored_all JsMap.get
  get-load_all acc [] k h = refl
  get-load_all acc ((id, o) ∷ rest) k ((absent, u), (e, es)) =
      let ih = get-load_all (JsMap.set acc id (stored o)) rest k (u, es) in
      ground (
        arith,
        load_all-known acc (stored_all rest) id (stored o) e,
        ih,
        get-set acc id k (stored o),
        text_eq_iff id k,
      )

  persist_restart :
      (p : Preferences) (k : Text)
      → IsKept p.overrides
      → JsMap.get
          (load env has_access config false (persist env has_access config false p).file).overrides
          k
        ≡ map_stored (JsMap.get p.overrides k)
  unfolding load persist JsMap.get
  persist_restart p k h =
      get-load_all [] p.overrides k h ∙ or_get-none (map_stored (JsMap.get p.overrides k))

  abbrev stored_match : Option (Alias × Override) → Option (Alias × Override)
  stored_match none = none
  stored_match (some (a, o)) = some (a, stored o)

  at_alias-stored :
      (a : Alias) (o : Option Override) (fits : Bool) (later : Option (Alias × Override))
      → at_alias a (map_stored o) fits (stored_match later) ≡ stored_match (at_alias a o fits later)
  unfolding at_alias
  at_alias-stored a v1 v2 later = ground arith

  matching_override-stored :
      (aliases : List Alias) (m m' : JsMap Override) (model : Text)
      → ((k : Text) → JsMap.get m' k ≡ map_stored (JsMap.get m k))
      → matching_override env has_access config false aliases m' model
        ≡ stored_match (matching_override env has_access config false aliases m model)
  unfolding matching_override
  matching_override-stored [] m m' model same = refl
  matching_override-stored (a ∷ rest) m m' model same =
      rw (same a.id, matching_override-stored rest m m' model same)
        (at_alias-stored a (JsMap.get m a.id) _ _)

  answer-stored :
      (model : Text) (found : Option (Alias × Override))
      → answer env has_access config false model (stored_match found)
        ≡ answer env has_access config false model found
  unfolding answer stored
  answer-stored model none = refl
  answer-stored model (some (a, o)) =
      ground (arith, truthy_again o.provider, truthy_again o.fallback)

  -- What is written of the overrides and read again by a new instance resolves every model to the
  -- same target, if each override is for an alias of the policy and none has two.
  pub resolve-persist :
      (p : Preferences) (model : Text)
      → IsKept p.overrides
      → resolve env has_access config false
          (load env has_access config false (persist env has_access config false p).file)
          model
        ≡ resolve env has_access config false p model
  unfolding resolve
  resolve-persist p [] h = refl
  resolve-persist p (c ∷ model) h =
      ap (answer env has_access config false (c ∷ model)) (
        matching_override-stored config.aliases p.overrides _ (c ∷ model)
          (λ k. persist_restart p k h))
      ∙ answer-stored (c ∷ model)
          (matching_override env has_access config false config.aliases p.overrides (c ∷ model))
