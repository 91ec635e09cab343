-- ===== src/Prelude/Sorting.antt =====
-- `Array.prototype.sort` by a number, highest first: a stable sort.
use mathlib.Core.List.{Perm}
use mathlib.Core.List.Perm
use Prim.Native.Nat.{ℕ, ◌≤◌}
use mathlib.Core.Path.{◌≡◌, refl}
use mathlib.Core.Logic.{inl, inr}
use mathlib.Core.List.{List, [], ◌∷◌}
use native.Mathlib.Omega.{arith}
use tokligence_gateway.Prelude.Tests.{leb, ◌==◌, Bool-cases, if◌then◌else◌}
use tokligence_gateway.Prelude.Lists.{keep, All, In}

module _ {A : Type 0} (score : A → ℕ) where
  unfoldable pub insert_by : A → List A → List A
  insert_by x [] = x ∷ []
  insert_by x (y ∷ ys) = if leb (score y) (score x) then x ∷ y ∷ ys else y ∷ insert_by x ys

  unfoldable pub sort_by : List A → List A
  sort_by [] = []
  sort_by (x ∷ xs) = insert_by x (sort_by xs)

  -- No element scores more than one before it.
  abbrev pub IsDescending : List A → Type 0
  IsDescending [] = Unit
  IsDescending (x ∷ xs) = All (λ y. score y ≤ score x) xs × IsDescending xs

  insert_by-Perm : (x : A) (xs : List A) → Perm (insert_by x xs) (x ∷ xs)
  unfolding insert_by
  insert_by-Perm x [] = Perm.refl _
  insert_by-Perm x (y ∷ ys) = elim (Bool-cases (leb (score y) (score x))) [
    | inl t ↦ rw t (Perm.refl _)
    | inr f ↦ rw f (Perm.trans (Perm.cons y (insert_by-Perm x ys)) (Perm.swap x y ys))
  ]

  pub sort_by-Perm : (xs : List A) → Perm (sort_by xs) xs
  unfolding sort_by
  sort_by-Perm [] = Perm.refl _
  sort_by-Perm (x ∷ xs) = Perm.trans (insert_by-Perm x (sort_by xs)) (Perm.cons x (sort_by-Perm xs))

  All-insert_by : (P : A → Type 0) (x : A) (xs : List A) → P x → All P xs → All P (insert_by x xs)
  unfolding insert_by
  All-insert_by P x [] p h = (p, tt)
  All-insert_by P x (y ∷ ys) p h = elim (Bool-cases (leb (score y) (score x))) [
    | inl t ↦ rw t (p, h)
    | inr f ↦ rw f (h.0, All-insert_by P x ys p h.1)
  ]

  All-le : (b c : ℕ) (xs : List A) → b ≤ c → All (λ y. score y ≤ b) xs → All (λ y. score y ≤ c) xs
  All-le b c [] h a = tt
  All-le b c (x ∷ xs) h a = (omega arith, All-le b c xs h a.1)

  insert_by-IsDescending : (x : A) (xs : List A) → IsDescending xs → IsDescending (insert_by x xs)
  unfolding insert_by
  insert_by-IsDescending x [] h = (tt, tt)
  insert_by-IsDescending x (y ∷ ys) h = elim (Bool-cases (leb (score y) (score x))) [
    | inl t ↦
        let le : score y ≤ score x = ground arith in
        rw t ((le, All-le (score y) (score x) ys le h.0), h)
    | inr f ↦
        let le : score x ≤ score y = ground arith in
        rw f (All-insert_by (λ z. score z ≤ score y) x ys le h.0, insert_by-IsDescending x ys h.1)
  ]

  pub sort_by-IsDescending : (xs : List A) → IsDescending (sort_by xs)
  unfolding sort_by
  sort_by-IsDescending [] = tt
  sort_by-IsDescending (x ∷ xs) = insert_by-IsDescending x (sort_by xs) (sort_by-IsDescending xs)

  keep-insert_by :
      (n : ℕ) (x : A) (xs : List A)
      → keep (λ y. score y == n) (insert_by x xs)
        ≡ (if score x == n then x ∷ keep (λ y. score y == n) xs else keep (λ y. score y == n) xs)
  unfolding insert_by keep
  keep-insert_by n x [] = refl
  keep-insert_by n x (y ∷ ys) = ground (arith, keep-insert_by n x ys)

  -- Elements of one score keep their order.
  pub sort_by_stable :
      (n : ℕ) (xs : List A) → keep (λ y. score y == n) (sort_by xs) ≡ keep (λ y. score y == n) xs
  unfolding sort_by keep
  sort_by_stable n [] = refl
  sort_by_stable n (x ∷ xs) = ground (arith, keep-insert_by n x (sort_by xs), sort_by_stable n xs)

  In-insert_by : (x y : A) (ys : List A) → In x (insert_by y ys) → In x (y ∷ ys)
  unfolding insert_by
  In-insert_by x y [] m = m
  In-insert_by x y (z ∷ zs) m = elim (Bool-cases (leb (score z) (score y))) [
    | inl t ↦ rw t at m
    | inr f ↦ later (rw f at m) (In-insert_by x y zs)
  ]
    where
      later :
          In x (z ∷ insert_by y zs) → (In x (insert_by y zs) → In x (y ∷ zs)) → In x (y ∷ z ∷ zs)
      later (inl e) ih = inr (inl e)
      later (inr i) ih = elim (ih i) [ inl e ↦ inl e | inr j ↦ inr (inr j) ]

  insert_by-In : (x y : A) (ys : List A) → In x (y ∷ ys) → In x (insert_by y ys)
  unfolding insert_by
  insert_by-In x y [] m = m
  insert_by-In x y (z ∷ zs) m = elim (Bool-cases (leb (score z) (score y))) [
    | inl t ↦ rw t m
    | inr f ↦ rw f (later m (insert_by-In x y zs))
  ]
    where
      later :
          In x (y ∷ z ∷ zs) → (In x (y ∷ zs) → In x (insert_by y zs)) → In x (z ∷ insert_by y zs)
      later (inl e) ih = inr (ih (inl e))
      later (inr (inl e)) ih = inl e
      later (inr (inr i)) ih = inr (ih (inr i))

  pub In-sort_by : (x : A) (xs : List A) → In x (sort_by xs) → In x xs
  unfolding sort_by
  In-sort_by x [] m = m
  In-sort_by x (y ∷ ys) m = elim (In-insert_by x y (sort_by ys) m) [
    | inl e ↦ inl e
    | inr i ↦ inr (In-sort_by x ys i)
  ]

  pub sort_by-In : (x : A) (xs : List A) → In x xs → In x (sort_by xs)
  unfolding sort_by
  sort_by-In x [] m = m
  sort_by-In x (y ∷ ys) (inl e) = insert_by-In x y (sort_by ys) (inl e)
  sort_by-In x (y ∷ ys) (inr i) = insert_by-In x y (sort_by ys) (inr (sort_by-In x ys i))
