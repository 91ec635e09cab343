-- ===== src/Prelude/Lists.antt =====
-- Lists measured by native numbers, Boolean filters and searches, and membership by recursion.
use Prim.Native.Nat.{ℕ, zero, suc, ◌+◌, ◌≤◌, ◌<◌}
use mathlib.Core.Path.{◌≡◌, sym, ap, ◌∙◌}
use mathlib.Core.Logic.{◌⊎◌, inl, inr}
use mathlib.Core.List.{List, [], ◌∷◌, ◌++◌}
use mathlib.Core.Bool.{Bool, true, false, ◌&&◌, ◌||◌}
use mathlib.Core.Option.{Option, none, some}
use native.Mathlib.Omega.{arith}
use tokligence_gateway.Prelude.Tests.{Bool-cases, if◌then◌else◌}

module _ {ℓ} {A : Type ℓ} where
  abbrev pub length : List A → ℕ
  length [] = 0
  length (x ∷ xs) = suc (length xs)

  -- `xs.slice(0, n)`
  unfoldable pub take : ℕ → List A → List A
  take zero xs = []
  take (suc n) [] = []
  take (suc n) (x ∷ xs) = x ∷ take n xs

  -- `xs.slice(n)`
  unfoldable pub drop : ℕ → List A → List A
  drop zero xs = xs
  drop (suc n) [] = []
  drop (suc n) (x ∷ xs) = drop n xs

  -- `xs.filter(p)`
  unfoldable pub keep : (A → Bool) → List A → List A
  keep p [] = []
  keep p (x ∷ xs) = let rest = keep p xs in if p x then x ∷ rest else rest

  -- `xs.find(p)`, with `none` for undefined
  unfoldable pub find : (A → Bool) → List A → Option A
  find p [] = none
  find p (x ∷ xs) = if p x then some x else find p xs

  -- `xs.some(p)` and `xs.every(p)`
  unfoldable pub any : (A → Bool) → List A → Bool
  any p [] = false
  any p (x ∷ xs) = p x || any p xs

  unfoldable pub all : (A → Bool) → List A → Bool
  all p [] = true
  all p (x ∷ xs) = p x && all p xs

-- Membership, by recursion.
abbrev pub In : {A : Type 0} → A → List A → Type 0
In x [] = ⊥
In x (y ∷ ys) = (x ≡ y) ⊎ In x ys

module _ {ℓ κ} {A : Type ℓ} (P : A → Type κ) where
  abbrev pub All : List A → Type κ
  All [] = Unit
  All (x ∷ xs) = P x × All xs

module _ {ℓ} {A : Type ℓ} where
  pub length-append : (xs ys : List A) → length (xs ++ ys) ≡ length xs + length ys
  length-append [] ys = omega arith
  length-append (x ∷ xs) ys = omega (arith, length-append xs ys)

  pub length-take-le : (n : ℕ) (xs : List A) → length (take n xs) ≤ n
  unfolding take
  length-take-le zero xs = omega arith
  length-take-le (suc n) [] = omega arith
  length-take-le (suc n) (x ∷ xs) = omega (arith, length-take-le n xs)

  pub length-keep-le : (p : A → Bool) (xs : List A) → length (keep p xs) ≤ length xs
  unfolding keep
  length-keep-le p [] = omega arith
  length-keep-le p (x ∷ xs) = ground (arith, length-keep-le p xs)

module _ {A : Type 0} where
  pub length-take-positive :
      (n : ℕ) (x : A) (xs : List A) → In x xs → 0 < n → 0 < length (take n xs)
  unfolding take
  length-take-positive zero x xs m h = omega arith
  length-take-positive (suc n) x [] m h = absurd m
  length-take-positive (suc n) x (y ∷ xs) m h = omega arith

  pub In-take : (n : ℕ) (x : A) (xs : List A) → In x (take n xs) → In x xs
  unfolding take
  In-take zero x xs h = absurd h
  In-take (suc n) x [] h = absurd h
  In-take (suc n) x (y ∷ xs) (inl e) = inl e
  In-take (suc n) x (y ∷ xs) (inr m) = inr (In-take n x xs m)

  pub In-append_left : (x : A) (xs ys : List A) → In x xs → In x (xs ++ ys)
  In-append_left x [] ys h = absurd h
  In-append_left x (y ∷ xs) ys (inl e) = inl e
  In-append_left x (y ∷ xs) ys (inr m) = inr (In-append_left x xs ys m)

  pub In-append_right : (x : A) (xs ys : List A) → In x ys → In x (xs ++ ys)
  In-append_right x [] ys h = h
  In-append_right x (y ∷ xs) ys h = inr (In-append_right x xs ys h)

  pub In-append : (x : A) (xs ys : List A) → In x (xs ++ ys) → In x xs ⊎ In x ys
  In-append x [] ys h = inr h
  In-append x (y ∷ xs) ys (inl e) = inl (inl e)
  In-append x (y ∷ xs) ys (inr m) = elim (In-append x xs ys m) [
    | inl l ↦ inl (inr l)
    | inr r ↦ inr r
  ]

  In-keep_head :
      (p : A → Bool) (x y : A) (kept xs : List A)
      → p y ≡ true
      → In x (y ∷ kept)
      → (In x kept → In x xs × (p x ≡ true))
      → In x (y ∷ xs) × (p x ≡ true)
  In-keep_head p x y kept xs t (inl s) later = (inl s, ap p s ∙ t)
  In-keep_head p x y kept xs t (inr m) later = let (i, q) = later m in (inr i, q)

  -- What `keep` keeps is what passes.
  pub In-keep : (p : A → Bool) (x : A) (xs : List A) → In x (keep p xs) → In x xs × (p x ≡ true)
  unfolding keep
  In-keep p x [] h = absurd h
  In-keep p x (y ∷ xs) h = elim (Bool-cases (p y)) [
    | inl t ↦ In-keep_head p x y (keep p xs) xs t (rw t at h) (In-keep p x xs)
    | inr f ↦ let (i, q) = In-keep p x xs (rw f at h) in (inr i, q)
  ]

  pub keep_complete : (p : A → Bool) (x : A) (xs : List A) → In x xs → p x ≡ true → In x (keep p xs)
  unfolding keep
  keep_complete p x [] h e = absurd h
  keep_complete p x (y ∷ xs) (inl s) e = rw (sym (ap p s) ∙ e) (inl s)
  keep_complete p x (y ∷ xs) (inr m) e = elim (Bool-cases (p y)) [
    | inl t ↦ rw t (inr (keep_complete p x xs m e))
    | inr f ↦ rw f (keep_complete p x xs m e)
  ]

  -- A search finds a member that passes, and fails only if none passes.
  pub find_sound :
      (p : A → Bool) (xs : List A) (x : A) → find p xs ≡ some x → In x xs × (p x ≡ true)
  unfolding find
  find_sound p [] x h = cc
  find_sound p (y ∷ xs) x h = elim (Bool-cases (p y)) [
    | inl t ↦
        let e : some y ≡ some x = rw (t) at h in
        let s : y ≡ x = cc in (inl (sym s), sym (ap p s) ∙ t)
    | inr f ↦ let (i, q) = find_sound p xs x (rw f at h) in (inr i, q)
  ]

  pub find-none : (p : A → Bool) (xs : List A) (x : A) → find p xs ≡ none → In x xs → p x ≡ false
  unfolding find
  find-none p [] x h m = absurd m
  find-none p (y ∷ xs) x h (inl s) = elim (Bool-cases (p y)) [
    | inl t ↦ absurd (ground arith)
    | inr f ↦ ap p s ∙ f
  ]
  find-none p (y ∷ xs) x h (inr m) = elim (Bool-cases (p y)) [
    | inl t ↦ absurd (ground arith)
    | inr f ↦ find-none p xs x (rw f at h) m
  ]

module _ {ℓ κ} {A : Type ℓ} {P Q : A → Type κ} where
  pub All-map : ((x : A) → P x → Q x) → (xs : List A) → All P xs → All Q xs
  All-map f [] h = tt
  All-map f (x ∷ xs) h = (f x h.0, All-map f xs h.1)
