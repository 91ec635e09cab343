-- ===== src/AccountPool/Selection.antt =====
-- opencode-account-pool.mjs: what `select` returns, and when it returns nothing.
use tokligence_gateway.Prelude.{
  ℕ, ◌≤◌, ◌≡◌, refl, ◌↔◌, ◌⊎◌, inl, inr, Bool, true, false, List, [], ◌∷◌, Option, none, some,
  arith, Text, includes, In, In-keep, keep, keep_complete, find, find_sound, Option-cases,
  Bool-cases, ltb,
}
use tokligence_gateway.Prelude.JsMap
use tokligence_gateway.Prelude.JsMap.{JsMap}
use tokligence_gateway.AccountPool.{
  Account, Endpoint, World, Pool, Sticky, eligible, is_candidate, preferred, first, select,
  cooling_until, prune_affinity,
}

-- The account may be chosen: it is one of the pool's, is not excluded, may serve the model, and is
-- not cooling down, or cooling accounts are included.
pub record IsCandidate (w : World) (accounts : List Account) (p : Pool) (endpoint : Endpoint)
    (model : Text) (exclude : List Text) (include_cooling : Bool) (at : ℕ) (a : Account)
    : Type 0 where
  pub listed : In a accounts
  pub free : includes exclude a.id ≡ false
  pub able : eligible w a endpoint model ≡ true
  pub rested : (include_cooling ≡ true) ⊎ (cooling_until p a.id ≤ at)

module _ (w : World) (accounts : List Account) (p : Pool) (endpoint : Endpoint) (model : Text)
    (exclude : List Text) (include_cooling : Bool) (at : ℕ) where
  abbrev pub Fit : Account → Type 0
  Fit = IsCandidate w accounts p endpoint model exclude include_cooling at

  abbrev pub candidates : List Account
  candidates = keep (is_candidate w p endpoint model exclude include_cooling at) accounts

  is_candidate-Fit : (a : Account) → In a candidates → Fit a
  is_candidate-Fit a m =
      let (listed, passes) = In-keep _ a accounts m in
      record {
        listed = listed;
        free = unfold is_candidate in ground arith;
        able = unfold is_candidate in ground arith;
        rested = unfold is_candidate in ground arith;
      }

  pub Fit-is_candidate : (a : Account) → Fit a → In a candidates
  Fit-is_candidate a f =
      keep_complete _ a accounts f.listed
        (unfold is_candidate in ground (arith, f.free, f.able, f.rested))

  first-In : (a : Account) (xs : List Account) → first xs ≡ some a → In a xs
  first-In a [] e = cc
  first-In a (x ∷ xs) e = inl (cc)

  preferred-In :
      (affinity : JsMap Sticky) (key : Text) (a : Account) (xs : List Account)
      → preferred affinity key at xs ≡ some a
      → In a xs
  unfolding preferred
  preferred-In affinity key a xs e = elim (Option-cases (JsMap.get affinity key)) [
    | inl nothing ↦ absurd (ground arith)
    | inr (s, known) ↦ elim (Bool-cases (ltb at s.until)) [
      | inl live ↦ (find_sound _ xs a (rw live at (rw (known, preferred) at e))).0
      | inr over ↦ absurd (ground arith)
    ]
  ]

  first_cases : (xs : List Account) → (xs ≡ []) ⊎ ((a : Account) × (first xs ≡ some a))
  first_cases [] = inl refl
  first_cases (x ∷ xs) = inr (x, refl)

  preferred-nil : (affinity : JsMap Sticky) (key : Text) → preferred affinity key at [] ≡ none
  unfolding preferred find
  preferred-nil affinity key = elim (Option-cases (JsMap.get affinity key)) [
    | inl nothing ↦ rw (nothing, preferred)
    | inr (s, known) ↦ rw (known, preferred) (ground arith)
  ]

  module _ (key : Text) where
    abbrev chosen : Option Account
    chosen = (select w accounts p endpoint model key exclude include_cooling at).1

    -- The account that is selected is one of the pool's, is not excluded, may serve the model on
    -- the endpoint, and is not cooling down unless cooling accounts are included.
    pub select-IsCandidate :
        (a : Account)
        → (select w accounts p endpoint model key exclude include_cooling at).1 ≡ some a
        → IsCandidate w accounts p endpoint model exclude include_cooling at a
    unfolding select
    select-IsCandidate a h =
        elim (Option-cases (preferred (prune_affinity at p.affinity) key at candidates)) [
          | inl nothing ↦
              let e : first candidates ≡ some a = ground arith in
              is_candidate-Fit a (first-In a candidates e)
          | inr (b, found) ↦
              let same : b ≡ a = ground arith in
              is_candidate-Fit a
                (preferred-In (prune_affinity at p.affinity) key a candidates (rw (← same) found))
        ]

    -- Nothing is selected exactly when no account of the pool may be chosen.
    pub select-eq-none_iff :
        ((select w accounts p endpoint model key exclude include_cooling at).1 ≡ none)
        ↔ ((a : Account) → ¬ IsCandidate w accounts p endpoint model exclude include_cooling at a)
    unfolding select
    select-eq-none_iff = (
      λ h a f. elim (first_cases candidates) [
        | inl empty ↦ rw empty at (Fit-is_candidate a f)
        | inr (b, found) ↦
            elim (Option-cases (preferred (prune_affinity at p.affinity) key at candidates)) [
              | inl nothing ↦ ground arith
              | inr (c, other) ↦ ground arith
            ]
      ],
      λ none_fits. elim (first_cases candidates) [
        | inl empty ↦
            let e : preferred (prune_affinity at p.affinity) key at candidates ≡ none =
              rw empty (preferred-nil (prune_affinity at p.affinity) key) in
            let f : first candidates ≡ none = rw empty in ground arith
        | inr (b, found) ↦ absurd (none_fits b (is_candidate-Fit b (first-In b candidates found)))
      ],
    )
