-- ===== src/Planner/Appended.antt =====
-- routing-planner.mjs: a role's candidates with its fallback's behind them.
use mathlib.Core.List.{append-nil, append_assoc}
use tokligence_gateway.Prelude.{
  ◌<◌, ◌≡◌, refl, sym, ◌∙◌, inl, inr, ◌⊎◌, List, [], ◌∷◌, ◌++◌, arith, In, In-append,
  In-append_left, length, any, Bool-cases,
}
use tokligence_gateway.Planner.{Candidate}
use tokligence_gateway.Planner.Role.{append_new, add_new, same_lane}

add_new-In : (cs : List Candidate) (d x : Candidate) → In x (add_new cs d) → In x cs ⊎ (x ≡ d)
unfolding add_new
add_new-In cs d x m = elim (Bool-cases (any (same_lane d) cs)) [
  | inl t ↦ inl (rw t at m)
  | inr f ↦ elim (In-append x cs (d ∷ []) (rw f at m)) [
    | inl j ↦ inl j
    | inr (inl e) ↦ inr e
    | inr (inr none_left) ↦ absurd none_left
  ]
]

add_new-In_left : (cs : List Candidate) (d x : Candidate) → In x cs → In x (add_new cs d)
unfolding add_new
add_new-In_left cs d x m = elim (Bool-cases (any (same_lane d) cs)) [
  | inl t ↦ rw t m
  | inr f ↦ rw f (In-append_left x cs (d ∷ []) m)
]

pub append_new-In :
    (ds cs : List Candidate) (x : Candidate) → In x (append_new cs ds) → In x cs ⊎ In x ds
unfolding append_new
append_new-In [] cs x m = inl m
append_new-In (d ∷ ds) cs x m = elim (append_new-In ds (add_new cs d) x m) [
  | inr i ↦ inr (inr i)
  | inl i ↦ elim (add_new-In cs d x i) [ inl j ↦ inl j | inr e ↦ inr (inl e) ]
]

-- What comes first stays.
append_new-In_left : (ds cs : List Candidate) (x : Candidate) → In x cs → In x (append_new cs ds)
unfolding append_new
append_new-In_left [] cs x m = m
append_new-In_left (d ∷ ds) cs x m =
    append_new-In_left ds (add_new cs d) x (add_new-In_left cs d x m)

In-cons :
    (x d : Candidate) (extra ds : List Candidate)
    → ((y : Candidate) → In y extra → In y ds)
    → In x (d ∷ extra)
    → In x (d ∷ ds)
In-cons x d extra ds from (inl e) = inl e
In-cons x d extra ds from (inr m) = inr (from x m)

-- The lanes that come first stay first, and what follows them is new.
pub append_new-append :
    (ds cs : List Candidate)
    → (extra : List Candidate) × (append_new cs ds ≡ cs ++ extra)
      × ((x : Candidate) → In x extra → In x ds)
unfolding append_new add_new
append_new-append [] cs = ([], sym (append-nil cs), λ x m. m)
append_new-append (d ∷ ds) cs = elim (Bool-cases (any (same_lane d) cs)) [
  | inl t ↦
      let (extra, same, from) = append_new-append ds cs in (extra, rw t same, λ x m. inr (from x m))
  | inr f ↦
      let (extra, same, from) = append_new-append ds (cs ++ d ∷ []) in
      (d ∷ extra, rw f (same ∙ append_assoc cs (d ∷ []) extra), λ x m. In-cons x d extra ds from m)
]

In-positive : (x : Candidate) (cs : List Candidate) → In x cs → 0 < length cs
In-positive x [] m = absurd m
In-positive x (c ∷ cs) m = omega arith

pub append_new-positive :
    (ds cs : List Candidate) → (0 < length cs) ⊎ (0 < length ds) → 0 < length (append_new cs ds)
unfolding append_new add_new any
append_new-positive ds (c ∷ cs) h = In-positive c _ (append_new-In_left ds (c ∷ cs) c (inl refl))
append_new-positive [] [] h = absurd (ground arith)
append_new-positive (d ∷ ds) [] h =
    In-positive d _ (append_new-In_left ds (add_new [] d) d (inl refl))
