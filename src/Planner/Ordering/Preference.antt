-- ===== src/Planner/Ordering/Preference.antt =====
-- routing-planner.mjs: quotaScore and reorderByQuota, and which of two candidates comes first.
use mathlib.Core.List.{Perm}
use tokligence_gateway.Prelude.{
  ℕ, ◌+◌, ◌*◌, ◌-◌, ◌≤◌, ◌<◌, ◌≡◌, All, inl, inr, subst, true, false, List, [], ◌∷◌, ◌++◌, Option,
  none, some, arith, ◌==◌, In, sort_by-Perm, sort_by-IsDescending, sort_by_stable, IsDescending,
  keep, Option-cases, Bool-cases,
}
use tokligence_gateway.Prelude.JsMap
use tokligence_gateway.Routes.{CostClass, free, subscription, payg, other_class}
use tokligence_gateway.Planner.{Quota, Runtime, Candidate}
use tokligence_gateway.Planner.Ordering.{class_score, quota_score, reorder_by_quota}

-- The cost classes from the cheapest down; a provider that states none is paid for.
pub data Ranks : Option CostClass → ℕ → Type 0 where
  at_no_cost : Ranks (some free) 3
  by_subscription : Ranks (some subscription) 2
  paid_for : Ranks (some payg) 1
  unstated : Ranks none 1
  of_unknown_class : Ranks (some other_class) 0

class_score-Ranks : (o : Option CostClass) (m : ℕ) → Ranks o m → class_score o ≡ 100000 * m
class_score-Ranks _ _ at_no_cost = omega arith
class_score-Ranks _ _ by_subscription = omega arith
class_score-Ranks _ _ paid_for = omega arith
class_score-Ranks _ _ unstated = omega arith
class_score-Ranks _ _ of_unknown_class = omega arith

module _ (r : Runtime) where
  -- What is known to be left of a candidate's quota, in thousandths of a percent.
  pub data Left (c : Candidate) : ℕ → Type 0 where
    unknown : JsMap.get r.quotas c.provider.id ≡ none → Left c 0
    unmeasured : (q : Quota) → JsMap.get r.quotas c.provider.id ≡ some q → q.used ≡ none → Left c 0
    unavailable :
        (q : Quota) → JsMap.get r.quotas c.provider.id ≡ some q → q.available ≡ false → Left c 0
    measured :
        (q : Quota) (used : ℕ)
        → JsMap.get r.quotas c.provider.id ≡ some q
        → q.available ≡ true
        → q.used ≡ some used
        → Left c (100000 - used)

  -- `c` comes before `d`: its class is two ranks cheaper, or one rank, unless nothing is left of its
  -- quota, or not known to be, and nothing used of the other's; or the class is the same and more is
  -- left of its quota.
  pub data Precedes (c d : Candidate) : Type 0 where
    two_ranks :
        (m n : ℕ)
        → Ranks c.provider.cost_class m
        → Ranks d.provider.cost_class n
        → n + 2 ≤ m
        → Precedes c d
    one_rank :
        (m n a b : ℕ)
        → Ranks c.provider.cost_class m
        → Ranks d.provider.cost_class n
        → n + 1 ≡ m
        → Left c a
        → Left d b
        → b < 100000 + a
        → Precedes c d
    same_rank :
        (n a b : ℕ)
        → Ranks c.provider.cost_class n
        → Ranks d.provider.cost_class n
        → Left c a
        → Left d b
        → b < a
        → Precedes c d

  quota_score-Left :
      (c : Candidate) (a : ℕ) → Left c a → quota_score r c ≡ class_score c.provider.cost_class + a
  unfolding quota_score
  quota_score-Left c _ (unknown h) = ground arith
  quota_score-Left c _ (unmeasured q h u) = ground arith
  quota_score-Left c _ (unavailable q h f) = elim (Option-cases q.used) [
    | inl nothing ↦ ground arith
    | inr (used, known) ↦ ground arith
  ]
  quota_score-Left c _ (measured q used h t u) = ground arith

  Left_total : (c : Candidate) → (a : ℕ) × Left c a × (a ≤ 100000)
  Left_total c = elim (Option-cases (JsMap.get r.quotas c.provider.id)) [
    | inl nothing ↦ (0, unknown nothing, omega arith)
    | inr (q, known) ↦ elim (Option-cases q.used) [
      | inl unread ↦ (0, unmeasured q known unread, omega arith)
      | inr (used, read) ↦ elim (Bool-cases q.available) [
        | inl t ↦ (100000 - used, measured q used known t read, omega arith)
        | inr f ↦ (0, unavailable q known f, omega arith)
      ]
    ]
  ]

  Precedes-lt : (c d : Candidate) → Precedes c d → quota_score r d < quota_score r c
  Precedes-lt c d (two_ranks m n x y h) =
      let (a, have, some_left) = Left_total c in
      let (b, other, few) = Left_total d in
      omega (
        arith,
        class_score-Ranks _ m x,
        class_score-Ranks _ n y,
        quota_score-Left c a have,
        quota_score-Left d b other,
      )
  Precedes-lt c d (one_rank m n a b x y h have other less) = omega (
    arith,
    class_score-Ranks _ m x,
    class_score-Ranks _ n y,
    quota_score-Left c a have,
    quota_score-Left d b other,
  )
  Precedes-lt c d (same_rank n a b x y have other less) = omega (
    arith,
    class_score-Ranks _ n x,
    class_score-Ranks _ n y,
    quota_score-Left c a have,
    quota_score-Left d b other,
  )

  All-In :
      (n : ℕ) (cs : List Candidate) (c : Candidate)
      → All (λ y. quota_score r y ≤ n) cs
      → In c cs
      → quota_score r c ≤ n
  All-In n [] c h m = absurd m
  All-In n (x ∷ xs) c h (inl e) = rw e h.0
  All-In n (x ∷ xs) c h (inr m) = All-In n xs c h.1 m

  IsDescending-after :
      (before : List Candidate) (d : Candidate) (after : List Candidate) (c : Candidate)
      → IsDescending (quota_score r) (before ++ d ∷ after)
      → In c after
      → quota_score r c ≤ quota_score r d
  IsDescending-after [] d after c h m = All-In (quota_score r d) after c h.0 m
  IsDescending-after (x ∷ xs) d after c h m = IsDescending-after xs d after c h.1 m

  -- Sorting by quota only reorders, and never leaves a candidate behind one that it precedes. The
  -- classes are free, subscription, paid or unstated, and unknown. A candidate precedes another of a
  -- class that is two or more dearer; of the next dearer class, if something is known to be left of
  -- its own quota or not all of the other's; and of its own class, if more is known to be left of its
  -- quota. Candidates of equal score stay in the order of the policy.
  pub reorder_by_quota_lem :
      (candidates : List Candidate)
      → Perm (reorder_by_quota r candidates) candidates
        × ((before after : List Candidate) (c d : Candidate)
            → reorder_by_quota r candidates ≡ before ++ d ∷ after
            → In c after
            → ¬ Precedes c d)
        × ((n : ℕ)
            → keep (λ c. quota_score r c == n) (reorder_by_quota r candidates)
              ≡ keep (λ c. quota_score r c == n) candidates)
  unfolding reorder_by_quota
  reorder_by_quota_lem candidates = (
    sort_by-Perm (quota_score r) candidates,
    λ before after c d e m p.
        let sorted =
          subst (IsDescending (quota_score r)) e
            (sort_by-IsDescending (quota_score r) candidates) in
        omega (arith, IsDescending-after before d after c sorted m, Precedes-lt c d p),
    λ n. sort_by_stable (quota_score r) n candidates,
  )
