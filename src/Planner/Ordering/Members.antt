-- ===== src/Planner/Ordering/Members.antt =====
-- routing-planner.mjs: the two orders keep the members of the list and the cooldowns.
use tokligence_gateway.Prelude.{
  ℕ, ◌≡◌, inl, inr, Bool, List, [], ◌∷◌, Option, some, arith, Text, In, truthy, Option-cases,
  Bool-cases, In-sort_by, sort_by-In,
}
use tokligence_gateway.Prelude.JsMap
use tokligence_gateway.Prelude.JsMap.{JsMap, get-delete}
use tokligence_gateway.Planner.{StickyRoute, Runtime, Candidate}
use tokligence_gateway.Planner.Ordering.{
  to_front, is_sticky, move_sticky, quota_score, affinity_key, has_lapsed, reorder_by_quota,
  reorder_by_affinity, reorder_by_affinity-cases,
}

swap-In :
    (d e : Candidate) (es ds : List Candidate) (x : Candidate)
    → (In x (e ∷ es) → In x ds)
    → In x (e ∷ d ∷ es)
    → In x (d ∷ ds)
swap-In d e es ds x ih (inl s) = inr (ih (inl s))
swap-In d e es ds x ih (inr (inl s)) = inl s
swap-In d e es ds x ih (inr (inr i)) = inr (ih (inr i))

swap_out :
    (d e : Candidate) (es ds : List Candidate) (x : Candidate)
    → (In x ds → In x (e ∷ es))
    → In x (d ∷ ds)
    → In x (e ∷ d ∷ es)
swap_out d e es ds x ih (inl s) = inr (inl s)
swap_out d e es ds x ih (inr i) = elim (ih i) [ inl s ↦ inl s | inr j ↦ inr (inr j) ]

In-to_front :
    (p : Candidate → Bool) (cs : List Candidate) (c : Candidate) (rest : List Candidate)
    (x : Candidate)
    → to_front p cs ≡ some (c, rest)
    → (In x (c ∷ rest) → In x cs) × (In x cs → In x (c ∷ rest))
unfolding to_front
In-to_front p [] c rest x h = cc
In-to_front p (d ∷ ds) c rest x h = elim (Bool-cases (p d)) [
  | inl t ↦
      let same : d ≡ c = ground arith in
      let tail : ds ≡ rest = ground arith in rw (← same, ← tail) (λ m. m, λ m. m)
  | inr f ↦ elim (Option-cases (to_front p ds)) [
    | inl nothing ↦ absurd (ground arith)
    | inr ((e, es), found) ↦
        let ih = In-to_front p ds e es x found in
        let same : e ≡ c = ground arith in
        let tail : d ∷ es ≡ rest = ground arith in
        rw (← same, ← tail) (swap-In d e es ds x ih.0, swap_out d e es ds x ih.1)
  ]
]

move_sticky-In :
    (s : StickyRoute) (cs : List Candidate) (x : Candidate)
    → (In x (move_sticky s cs) → In x cs) × (In x cs → In x (move_sticky s cs))
unfolding move_sticky
move_sticky-In s cs x = elim (Option-cases (to_front (is_sticky s) cs)) [
  | inl nothing ↦ rw (nothing, move_sticky) (λ m. m, λ m. m)
  | inr ((c, rest), found) ↦ rw (found, move_sticky) (In-to_front (is_sticky s) cs c rest x found)
]

-- The two orders keep the members of the list.
pub reorder-In :
    (r : Runtime) (session : Option Text) (profile : Text) (ttl now : ℕ) (cs : List Candidate)
    (x : Candidate)
    → (In x (reorder_by_affinity r session profile ttl now (reorder_by_quota r cs)).1 → In x cs)
      × (In x cs → In x (reorder_by_affinity r session profile ttl now (reorder_by_quota r cs)).1)
unfolding reorder_by_quota
reorder-In r session profile ttl now cs x =
    elim (reorder_by_affinity-cases r session profile ttl now (reorder_by_quota r cs)) [
      | inl same ↦ rw same (In-sort_by (quota_score r) x cs, sort_by-In (quota_score r) x cs)
      | inr (s, moved) ↦
          let (there, back) = move_sticky-In s (reorder_by_quota r cs) x in
          rw moved (
            λ m. In-sort_by (quota_score r) x cs (there m),
            λ m. back (sort_by-In (quota_score r) x cs m),
          )
    ]

-- Affinity leaves the cooldowns as they are.
pub reorder_by_affinity-cooldowns :
    (r : Runtime) (session : Option Text) (profile : Text) (ttl now : ℕ) (cs : List Candidate)
    → (reorder_by_affinity r session profile ttl now cs).0.cooldowns ≡ r.cooldowns
unfolding reorder_by_affinity
reorder_by_affinity-cooldowns r session profile ttl now cs = elim (Option-cases (truthy session)) [
  | inl nothing ↦ rw (nothing, reorder_by_affinity)
  | inr (s, known) ↦ elim (Option-cases (JsMap.get r.affinity (affinity_key s profile))) [
    | inl nothing ↦ rw (known, reorder_by_affinity) (rw nothing)
    | inr (sticky, found) ↦ elim (Bool-cases (has_lapsed sticky ttl now)) [
      | inl over ↦ rw (known, reorder_by_affinity) (rw found (rw over))
      | inr live ↦ rw (known, reorder_by_affinity) (rw found (rw live))
    ]
  ]
]
