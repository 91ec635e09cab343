-- ===== src/Prelude/JsMap.antt =====
-- The JavaScript `Map` with string keys: entries in insertion order, one for each key.
use Prim.Native.Nat.{ℕ, ◌+◌, ◌≤◌, ◌<◌}
use mathlib.Core.Path.{◌≡◌, refl}
use mathlib.Core.Logic.{inl, inr}
use mathlib.Core.Option.{Option, none, some}
use mathlib.Core.List.{List, [], ◌∷◌, ◌++◌}
use native.Mathlib.Omega.{arith}
use tokligence_gateway.Prelude.Tests.{ltb, if◌then◌else◌, Bool-cases}
use tokligence_gateway.Prelude.Lists.{length}
use tokligence_gateway.Prelude.Strings.{Text, text_eq, text_eq→eq, text_eq_iff, text_eq_refl}

abbrev pub JsMap {ℓ} : Type ℓ → Type ℓ
JsMap V = List (Text × V)

module _ {ℓ} {V : Type ℓ} where
  -- `m.get(k)`
  unfoldable pub get : JsMap V → Text → Option V
  get [] k = none
  get ((j, v) ∷ m) k = if text_eq j k then some v else get m k

  -- `m.set(k, v)`: a key that is there keeps its place
  unfoldable pub set : JsMap V → Text → V → JsMap V
  set [] k v = (k, v) ∷ []
  set ((j, w) ∷ m) k v = if text_eq j k then (k, v) ∷ m else (j, w) ∷ set m k v

  -- `m.delete(k)`
  unfoldable pub delete : JsMap V → Text → JsMap V
  delete [] k = []
  delete ((j, v) ∷ m) k = let rest = delete m k in if text_eq j k then rest else (j, v) ∷ rest

  -- `while (m.size > limit) m.delete(m.keys().next().value)`
  unfoldable pub trim : ℕ → JsMap V → JsMap V
  trim limit [] = []
  trim limit (e ∷ m) = let rest = trim limit m in if ltb limit (length (e ∷ m)) then rest else e ∷ m

  pub get-set :
      (m : JsMap V) (k j : Text) (v : V)
      → get (set m k v) j ≡ (if text_eq k j then some v else get m j)
  unfolding get set
  get-set [] k j v = refl
  get-set ((i, w) ∷ m) k j v =
      ground (arith, text_eq_iff k j, text_eq_iff i k, text_eq_iff i j, get-set m k j v)

  pub get-delete :
      (m : JsMap V) (k j : Text) → get (delete m k) j ≡ (if text_eq k j then none else get m j)
  unfolding get delete
  get-delete [] k j = ground arith
  get-delete ((i, w) ∷ m) k j =
      ground (arith, text_eq_iff k j, text_eq_iff i k, text_eq_iff i j, get-delete m k j)

  pub length-set-le : (m : JsMap V) (k : Text) (v : V) → length (set m k v) ≤ length m + 1
  unfolding set get
  length-set-le [] k v = omega arith
  length-set-le ((j, w) ∷ m) k v = ground (arith, length-set-le m k v)

  pub length-delete-le : (m : JsMap V) (k : Text) → length (delete m k) ≤ length m
  unfolding delete
  length-delete-le [] k = omega arith
  length-delete-le ((j, w) ∷ m) k = ground (arith, length-delete-le m k)

  pub length-trim-le : (n : ℕ) (m : JsMap V) → length (trim n m) ≤ n
  unfolding trim
  length-trim-le n [] = omega arith
  length-trim-le n (e ∷ m) = ground (arith, length-trim-le n m)

  -- A map that is small enough is left alone.
  pub trim_id : (n : ℕ) (m : JsMap V) → length m ≤ n → trim n m ≡ m
  unfolding trim
  trim_id n [] h = refl
  trim_id n (e ∷ m) h = ground arith

  -- A new key goes to the end, where a later `trim` comes last.
  pub set_absent : (m : JsMap V) (k : Text) (v : V) → get m k ≡ none → set m k v ≡ m ++ (k, v) ∷ []
  unfolding get set
  set_absent [] k v h = refl
  set_absent ((j, w) ∷ m) k v h = ground (arith, set_absent m k v)

  pub get-append :
      (m : JsMap V) (k : Text) (v : V) → get m k ≡ none → get (m ++ (k, v) ∷ []) k ≡ some v
  unfolding get
  get-append [] k v h = ground (arith, text_eq_refl k)
  get-append ((j, w) ∷ m) k v h = ground (arith, get-append m k v)

  pub get-trim_append :
      (n : ℕ) (m : JsMap V) (k : Text) (v : V)
      → get m k ≡ none
      → 0 < n
      → get (trim n (m ++ (k, v) ∷ [])) k ≡ some v
  unfolding get trim
  get-trim_append n [] k v h p = ground (arith, text_eq_refl k)
  get-trim_append n ((j, w) ∷ m) k v h p = ground (arith, get-trim_append n m k v, get-append m k v)

  -- The entry just set survives `trim`, if the key was deleted before.
  pub get-trim-set-delete :
      (n : ℕ) (m : JsMap V) (k : Text) (v : V)
      → 0 < n
      → get (trim n (set (delete m k) k v)) k ≡ some v
  get-trim-set-delete n m k v p =
      let gone : get (delete m k) k ≡ none = rw (get-delete m k k, text_eq_refl k) in
      rw (set_absent (delete m k) k v gone) (get-trim_append n (delete m k) k v gone p)

  -- One entry for each key
  abbrev pub Unique : JsMap V → Type ℓ
  Unique [] = Unit
  Unique ((k, v) ∷ m) = (get m k ≡ none) × Unique m

  pub set-Unique : (m : JsMap V) (k : Text) (v : V) → Unique m → Unique (set m k v)
  unfolding set get
  set-Unique [] k v h = (refl, tt)
  set-Unique ((j, w) ∷ m) k v (absent, u) = elim (Bool-cases (text_eq j k)) [
    | inl t ↦ rw t (rw (← text_eq→eq j k t) (absent, u))
    | inr f ↦
        rw f (ground (arith, get-set m k j v, text_eq_iff j k, text_eq_iff k j), set-Unique m k v u)
  ]

  pub delete-Unique : (m : JsMap V) (k : Text) → Unique m → Unique (delete m k)
  unfolding delete
  delete-Unique [] k h = tt
  delete-Unique ((j, w) ∷ m) k (absent, u) = elim (Bool-cases (text_eq j k)) [
    | inl t ↦ rw t (delete-Unique m k u)
    | inr f ↦ rw f (ground (arith, get-delete m k j), delete-Unique m k u)
  ]
