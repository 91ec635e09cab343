-- ===== src/Preferences/Bake.antt =====
-- preferences.mjs: bakeToRoutes, which writes the live overrides into the policy for good.
use tokligence_gateway.Prelude.{
  arith, ℕ, ◌≡◌, refl, ap, ◌∙◌, inl, inr, Bool, List, [], ◌∷◌, ◌++◌, Option, none, some, map, keep,
  Bool-cases, Text, truthy, if◌then◌else◌, leb, sort_by, insert_by,
}
use tokligence_gateway.Prelude.JsMap
use tokligence_gateway.Prelude.JsMap.{JsMap}
use tokligence_gateway.Routes.{Alias, Config, patterns_of}
use tokligence_gateway.Preferences.{Override, Preferences, persist}

-- A field that is null is deleted, an empty one is left as it is, any other is written.
unfoldable pub baked_field : Option Text → Option Text → Option Text
baked_field none old = none
baked_field (some []) old = old
baked_field (some (c ∷ t)) old = some (c ∷ t)

pub baked_field_id :
    (wanted old : Option Text) → truthy wanted ≡ wanted → baked_field wanted old ≡ wanted
unfolding baked_field truthy
baked_field_id v0 old h = ground arith

abbrev pub target_or : Option Text → Text → Text
target_or none old = old
target_or (some t) old = t

unfoldable pub bake_alias : Alias → Option Override → Alias
bake_alias a none = a
bake_alias a (some o) = record a {
  provider = baked_field o.provider a.provider;
  target = target_or (truthy o.target) a.target;
  fallback = baked_field o.fallback a.fallback;
}

abbrev pub baked : JsMap Override → Alias → Alias
baked overrides a = bake_alias a (JsMap.get overrides a.id)

abbrev pub baked_config : JsMap Override → Config → Config
baked_config overrides config = record config { aliases = map (baked overrides) config.aliases }

pub data Bake : Type 0 where
  read_only : Bake
  -- the aliases of the policy file, and the state with its overrides cleared
  wrote : List Alias → Preferences → Bake

-- `bakeToRoutes` on the aliases of the policy file
unfoldable pub bake_to_routes :
    (Text → Option Text) → (Text → Bool) → Config → Bool → List Alias → Preferences → Bake
bake_to_routes env has_access config readonly file p =
    if readonly then read_only else elim p.overrides [
      | [] ↦ wrote file p
      | e ∷ es ↦
          wrote (map (baked (e ∷ es)) file)
            (persist env has_access config readonly (record p { overrides = [] }))
    ]

-- An alias with its pattern, baked
abbrev pub bake_pair : JsMap Override → Alias × Text → Alias × Text
bake_pair overrides (a, pattern) = (baked overrides a, pattern)

module _ (overrides : JsMap Override) where
  pub baked-patterns : (a : Alias) (o : Option Override) → (bake_alias a o).patterns ≡ a.patterns
  unfolding bake_alias
  baked-patterns a none = refl
  baked-patterns a (some o) = refl

  pub map-append :
      (f : Alias × Text → Alias × Text) (xs ys : List (Alias × Text))
      → map f (xs ++ ys) ≡ map f xs ++ map f ys
  map-append f [] ys = refl
  map-append f (x ∷ xs) ys = ap (λ r. f x ∷ r) (map-append f xs ys)

  pub patterns_of-map :
      (env : Text → Option Text) (has_access : Text → Bool) (a : Alias) (ps : List Text)
      → patterns_of env has_access (baked overrides a) ps
        ≡ map (bake_pair overrides) (patterns_of env has_access a ps)
  patterns_of-map env has_access a [] = refl
  patterns_of-map env has_access a (p ∷ ps) =
      ap (λ r. (baked overrides a, p) ∷ r) (patterns_of-map env has_access a ps)

  pub keep-map :
      (f : Alias × Text → Alias × Text) (p : Alias × Text → Bool) (xs : List (Alias × Text))
      → ((x : Alias × Text) → p (f x) ≡ p x)
      → keep p (map f xs) ≡ map f (keep p xs)
  unfolding keep
  keep-map f p [] same = refl
  keep-map f p (x ∷ xs) same = elim (Bool-cases (p x)) [
    | inl t ↦ rw (same x) (rw t (ap (λ r. f x ∷ r) (keep-map f p xs same)))
    | inr e ↦ rw (same x) (rw e (keep-map f p xs same))
  ]

  insert_by-map :
      (f : Alias × Text → Alias × Text) (score : Alias × Text → ℕ) (x : Alias × Text)
      (xs : List (Alias × Text))
      → ((y : Alias × Text) → score (f y) ≡ score y)
      → insert_by score (f x) (map f xs) ≡ map f (insert_by score x xs)
  unfolding insert_by
  insert_by-map f score x [] same = refl
  insert_by-map f score x (y ∷ ys) same = elim (Bool-cases (leb (score y) (score x))) [
    | inl t ↦ rw (same x, same y) (rw t refl)
    | inr e ↦ rw (same x, same y) (rw e (ap (λ r. f y ∷ r) (insert_by-map f score x ys same)))
  ]

  pub sort_by-map :
      (f : Alias × Text → Alias × Text) (score : Alias × Text → ℕ) (xs : List (Alias × Text))
      → ((y : Alias × Text) → score (f y) ≡ score y)
      → sort_by score (map f xs) ≡ map f (sort_by score xs)
  unfolding sort_by
  sort_by-map f score [] same = refl
  sort_by-map f score (x ∷ xs) same =
      ap (insert_by score (f x)) (sort_by-map f score xs same)
      ∙ insert_by-map f score x (sort_by score xs) same
