-- ===== src/Preferences/Restart.antt =====
-- preferences.mjs: the states that the operations lead to, and what a restart makes of them.
use tokligence_gateway.Prelude.{
  ◌≡◌, refl, ◌∙◌, inl, inr, Bool, true, false, List, [], ◌∷◌, Option, none, some, Bool-cases, Text,
  text_eq, All,
}
use tokligence_gateway.Prelude.JsMap
use tokligence_gateway.Prelude.JsMap.{JsMap, Unique, set-Unique, delete-Unique}
use tokligence_gateway.Routes.{Config}
use tokligence_gateway.Preferences.{
  Override, Wanted, Rejection, Preferences, alias_exists, load_all, load, persist, set, clear,
  reset, resolve, finish_set,
}
use tokligence_gateway.Preferences.Saved.{IsKept, resolve-persist}

module _ (env : Text → Option Text) (has_access : Text → Bool) (config : Config) where
  abbrev exists : Text → Bool
  exists id = alias_exists env has_access config false id

  abbrev Known : JsMap Override → Type 0
  Known m = All (λ (e : Text × Override). alias_exists env has_access config false e.0 ≡ true) m

  set-Known :
      (m : JsMap Override) (id : Text) (o : Override)
      → exists id ≡ true
      → Known m
      → Known (JsMap.set m id o)
  unfolding JsMap.set
  set-Known [] id o e h = (e, tt)
  set-Known ((k, v) ∷ m) id o e (here, rest) = elim (Bool-cases (text_eq k id)) [
    | inl t ↦ rw t (e, rest)
    | inr f ↦ rw f (here, set-Known m id o e rest)
  ]

  delete-Known : (m : JsMap Override) (id : Text) → Known m → Known (JsMap.delete m id)
  unfolding JsMap.delete
  delete-Known [] id h = tt
  delete-Known ((k, v) ∷ m) id (here, rest) = elim (Bool-cases (text_eq k id)) [
    | inl t ↦ rw t (delete-Known m id rest)
    | inr f ↦ rw f (here, delete-Known m id rest)
  ]

  load_all-IsKept :
      (acc document : JsMap Override)
      → IsKept env has_access config acc
      → IsKept env has_access config (load_all env has_access config false acc document)
  unfolding load_all
  load_all-IsKept acc [] h = h
  load_all-IsKept acc ((id, o) ∷ rest) (u, k) = elim (Bool-cases (exists id)) [
    | inl t ↦
        rw t (
          load_all-IsKept (JsMap.set acc id o) rest (set-Unique acc id o u, set-Known acc id o t k))
    | inr f ↦ rw f (load_all-IsKept acc rest (u, k))
  ]

  -- The states that an instance which may write goes through, from any file
  pub data Reach : Preferences → Type 0 where
    start : (file : Option (JsMap Override)) → Reach (load env has_access config false file)
    after_set :
        {p : Preferences} (id : Text) (w : Option Wanted)
        → Reach p
        → Reach (set env has_access config false p id w).0
    after_clear :
        {p : Preferences} (id : Text) → Reach p → Reach (clear env has_access config false p id).0
    after_reset : {p : Preferences} → Reach p → Reach (reset env has_access config false p)

  -- The overrides are well kept, and the next instance will resolve as this one does.
  record IsSafe (p : Preferences) : Type 0 where
    kept : IsKept env has_access config p.overrides
    same :
        (model : Text)
        → resolve env has_access config false (load env has_access config false p.file) model
          ≡ resolve env has_access config false p model

  -- What a model resolves to rests on the overrides, not on the file.
  resolve-file :
      (p : Preferences) (model : Text)
      → resolve env has_access config false p model
        ≡ resolve env has_access config false (persist env has_access config false p) model
  unfolding resolve persist
  resolve-file p [] = refl
  resolve-file p (c ∷ model) = refl

  persist-IsSafe :
      (p : Preferences)
      → IsKept env has_access config p.overrides
      → IsSafe (persist env has_access config false p)
  unfolding persist
  persist-IsSafe p k = record {
    kept = k;
    same = λ model. resolve-persist env has_access config p model k ∙ resolve-file p model;
  }

  load-IsSafe : (file : Option (JsMap Override)) → IsSafe (load env has_access config false file)
  unfolding load
  load-IsSafe none = record { kept = (tt, tt); same = λ model. refl }
  load-IsSafe (some document) = record {
    kept = load_all-IsKept [] document (tt, tt);
    same = λ model. refl;
  }

  clear-IsSafe :
      (p : Preferences) (id : Text) → IsSafe p → IsSafe (clear env has_access config false p id).0
  unfolding clear
  clear-IsSafe p id s = elim (Bool-cases (exists id)) [
    | inl t ↦ rw t (
        persist-IsSafe _
          (delete-Unique p.overrides id s.kept.0, delete-Known p.overrides id s.kept.1))
    | inr f ↦ rw f s
  ]

  finish_set-IsSafe :
      (p : Preferences) (id : Text) (w : Wanted) (errors : List Rejection)
      → exists id ≡ true
      → IsSafe p
      → IsSafe (finish_set env has_access config false p id w errors).0
  unfolding finish_set
  finish_set-IsSafe p id w (e ∷ es) t s = s
  finish_set-IsSafe p id w [] t s =
      persist-IsSafe _ (set-Unique p.overrides id _ s.kept.0, set-Known p.overrides id _ t s.kept.1)

  set-IsSafe :
      (p : Preferences) (id : Text) (w : Option Wanted)
      → IsSafe p
      → IsSafe (set env has_access config false p id w).0
  unfolding set
  set-IsSafe p id none s = clear-IsSafe p id s
  set-IsSafe p id (some w) s = elim (Bool-cases (exists id)) [
    | inl t ↦ rw t (finish_set-IsSafe p id w _ t s)
    | inr f ↦ rw f s
  ]

  reset-IsSafe : (p : Preferences) → IsSafe (reset env has_access config false p)
  unfolding reset
  reset-IsSafe p = persist-IsSafe _ (tt, tt)

  Reach-IsSafe : {p : Preferences} → Reach p → IsSafe p
  Reach-IsSafe (start file) = load-IsSafe file
  Reach-IsSafe (after_set id w h) = set-IsSafe _ id w (Reach-IsSafe h)
  Reach-IsSafe (after_clear id h) = clear-IsSafe _ id (Reach-IsSafe h)
  Reach-IsSafe (after_reset {p} h) = reset-IsSafe p

  -- After any sequence of calls of set, clear and reset under one policy, without baking, an instance
  -- that is started anew on the file under that policy resolves every model to the same target as the
  -- instance that wrote it.
  pub restart-resolve :
      (p : Preferences) (model : Text)
      → Reach p
      → resolve env has_access config false (load env has_access config false p.file) model
        ≡ resolve env has_access config false p model
  restart-resolve p model h = (Reach-IsSafe h).same model
