-- ===== src/Planner/Ordering.antt =====
-- routing-planner.mjs: candidates in order of cost and remaining quota, the session's own first.
pub mod Members
pub mod Preference
use mathlib.Core.List.{Perm}
use mathlib.Core.List.Perm
use tokligence_gateway.Prelude.{
  ℕ, ◌+◌, ◌-◌, ◌≤◌, ◌≡◌, ◌⊎◌, inl, inr, Bool, true, false, ◌&&◌, List, [], ◌∷◌, ◌++◌, Option, none,
  some, arith, ltb, leb, ◌==◌, Text, codes, text_eq, text_eq_refl, In, truthy, Option-cases,
  Bool-cases, sort_by, sort_by-Perm, In-sort_by, sort_by-In, sort_by-IsDescending, sort_by_stable,
  IsDescending, keep, if◌then◌else◌,
}
use tokligence_gateway.Prelude.JsMap
use tokligence_gateway.Prelude.JsMap.{JsMap, get-delete}
use tokligence_gateway.Routes.{CostClass, free, subscription, payg, other_class}
use tokligence_gateway.Planner.{StickyRoute, Runtime, Candidate}

-- in thousandths, as the quotas are
abbrev pub class_score : Option CostClass → ℕ
class_score none = 100000
class_score (some free) = 300000
class_score (some subscription) = 200000
class_score (some payg) = 100000
class_score (some other_class) = 0

unfoldable pub quota_score : Runtime → Candidate → ℕ
quota_score r c =
    let class = class_score c.provider.cost_class in
    elim (JsMap.get r.quotas c.provider.id) [
      | none ↦ class
      | some q ↦ elim q.used [
        | none ↦ class
        | some used ↦ if q.available then class + (100000 - used) else class
      ]
    ]

unfoldable pub reorder_by_quota : Runtime → List Candidate → List Candidate
reorder_by_quota r candidates = sort_by (quota_score r) candidates

-- The first candidate that passes is put in front.
unfoldable pub to_front : (Candidate → Bool) → List Candidate → Option (Candidate × List Candidate)
to_front p [] = none
to_front p (c ∷ cs) =
    let later = to_front p cs in
    if p c then some (c, cs) else elim later [ none ↦ none | some (d, ds) ↦ some (d, c ∷ ds) ]

abbrev pub is_sticky : StickyRoute → Candidate → Bool
is_sticky s c = text_eq c.provider.id s.provider && text_eq c.upstream_model s.model

unfoldable pub move_sticky : StickyRoute → List Candidate → List Candidate
move_sticky s candidates = elim (to_front (is_sticky s) candidates) [
  | none ↦ candidates
  | some (c, cs) ↦ c ∷ cs
]

unfoldable pub affinity_key : Text → Text → Text
affinity_key session profile = session ++ codes ":" ++ profile

-- `sticky.updatedAt && sticky.updatedAt + ttl <= Date.now()`
unfoldable pub has_lapsed : StickyRoute → ℕ → ℕ → Bool
has_lapsed s ttl now = ltb 0 s.updated_at && leb (s.updated_at + ttl) now

-- An entry that has lapsed is deleted.
unfoldable pub reorder_by_affinity :
    Runtime → Option Text → Text → ℕ → ℕ → List Candidate → Runtime × List Candidate
reorder_by_affinity r session profile ttl now candidates = elim (truthy session) [
  | none ↦ (r, candidates)
  | some s ↦ elim (JsMap.get r.affinity (affinity_key s profile)) [
    | none ↦ (r, candidates)
    | some sticky ↦
        if has_lapsed sticky ttl now
        then (record r { affinity = JsMap.delete r.affinity (affinity_key s profile) }, candidates)
        else (r, move_sticky sticky candidates)
  ]
]

to_front-Perm :
    (p : Candidate → Bool) (cs : List Candidate) (c : Candidate) (rest : List Candidate)
    → to_front p cs ≡ some (c, rest)
    → Perm (c ∷ rest) cs × (p c ≡ true)
unfolding to_front
to_front-Perm p [] c rest h = cc
to_front-Perm p (d ∷ ds) c rest h = elim (Bool-cases (p d)) [
  | inl t ↦
      let e : d ≡ c = ground arith in
      let f : ds ≡ rest = ground arith in rw (← e, ← f) (Perm.refl (d ∷ ds), t)
  | inr f ↦ elim (Option-cases (to_front p ds)) [
    | inl nothing ↦ absurd (ground arith)
    | inr ((e, es), found) ↦
        let (perm, q) = to_front-Perm p ds e es found in
        let same : e ≡ c = ground arith in
        let tail : d ∷ es ≡ rest = ground arith in
        rw (← same, ← tail) (Perm.trans (Perm.swap d e es) (Perm.cons d perm), q)
  ]
]

move_sticky-Perm : (s : StickyRoute) (cs : List Candidate) → Perm (move_sticky s cs) cs
unfolding move_sticky
move_sticky-Perm s cs = elim (Option-cases (to_front (is_sticky s) cs)) [
  | inl nothing ↦ rw (nothing, move_sticky) (Perm.refl cs)
  | inr ((c, rest), found) ↦
      rw (found, move_sticky) ((to_front-Perm (is_sticky s) cs c rest found).0)
]

-- Whatever the affinity says, the candidates stay as they are or the sticky one comes first.
pub reorder_by_affinity-cases :
    (r : Runtime) (session : Option Text) (profile : Text) (ttl now : ℕ) (cs : List Candidate)
    → ((reorder_by_affinity r session profile ttl now cs).1 ≡ cs)
      ⊎ ((s : StickyRoute) × ((reorder_by_affinity r session profile ttl now cs).1
            ≡ move_sticky s cs))
unfolding reorder_by_affinity
reorder_by_affinity-cases r session profile ttl now cs = elim (Option-cases (truthy session)) [
  | inl nothing ↦ inl (rw (nothing, reorder_by_affinity))
  | inr (s, known) ↦ elim (Option-cases (JsMap.get r.affinity (affinity_key s profile))) [
    | inl nothing ↦ inl (rw (known, reorder_by_affinity) (rw nothing))
    | inr (sticky, found) ↦ elim (Bool-cases (has_lapsed sticky ttl now)) [
      | inl over ↦ inl (rw (known, reorder_by_affinity) (rw found (rw over)))
      | inr live ↦ inr (sticky, rw (known, reorder_by_affinity) (rw found (rw live)))
    ]
  ]
]

-- Affinity loses and adds no candidate.
pub reorder_by_affinity-Perm :
    (r : Runtime) (session : Option Text) (profile : Text) (ttl now : ℕ) (cs : List Candidate)
    → Perm (reorder_by_affinity r session profile ttl now cs).1 cs
reorder_by_affinity-Perm r session profile ttl now cs =
    elim (reorder_by_affinity-cases r session profile ttl now cs) [
      | inl same ↦ rw same (Perm.refl cs)
      | inr (s, moved) ↦ rw moved (move_sticky-Perm s cs)
    ]

to_front-none :
    (p : Candidate → Bool) (cs : List Candidate) (c : Candidate)
    → to_front p cs ≡ none
    → In c cs
    → p c ≡ false
unfolding to_front
to_front-none p [] c h m = absurd m
to_front-none p (d ∷ ds) c h (inl e) = rw e (ground arith)
to_front-none p (d ∷ ds) c h (inr m) = to_front-none p ds c (ground arith) m

-- A session with a remembered backend that has not lapsed, and that is among the candidates, tries
-- that backend first; a lapsed one is forgotten and changes no order.
pub reorder_by_affinity_lem :
    (r : Runtime) (session : Text) (profile : Text) (ttl now : ℕ) (cs : List Candidate)
    (sticky : StickyRoute)
    → truthy (some session) ≡ some session
    → JsMap.get r.affinity (affinity_key session profile) ≡ some sticky
    → ((has_lapsed sticky ttl now ≡ false)
        → (c : Candidate) → In c cs
        → is_sticky sticky c ≡ true
        → (d : Candidate) × (rest : List Candidate) × ((reorder_by_affinity r
              (some session)
              profile
              ttl
              now
              cs).1
            ≡ d ∷ rest)
          × (is_sticky sticky d ≡ true))
      × ((has_lapsed sticky ttl now ≡ true)
          → ((reorder_by_affinity r (some session) profile ttl now cs).1 ≡ cs)
            × (JsMap.get
                  (reorder_by_affinity r (some session) profile ttl now cs).0.affinity
                  (affinity_key session profile)
                ≡ none))
reorder_by_affinity_lem r session profile ttl now cs sticky real found = (
  λ live c m matched. elim (Option-cases (to_front (is_sticky sticky) cs)) [
    | inl nothing ↦ cc (to_front-none (is_sticky sticky) cs c nothing m)
    | inr ((d, rest), front) ↦ (
      d,
      rest,
      unfold reorder_by_affinity move_sticky in ground arith,
      (to_front-Perm (is_sticky sticky) cs d rest front).1,
    )
  ],
  λ over. (
    unfold reorder_by_affinity in ground arith,
    unfold reorder_by_affinity in
        ground (
          arith,
          get-delete r.affinity (affinity_key session profile) (affinity_key session profile),
          text_eq_refl (affinity_key session profile),
        ),
  ),
)
