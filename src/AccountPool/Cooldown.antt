-- ===== src/AccountPool/Cooldown.antt =====
-- opencode-account-pool.mjs: what a failure does to an account, and what a late success does not.
use native.Mathlib.Nat.{one-le-pow, pow-le-pow_right}
use tokligence_gateway.Prelude.{
  ℕ, ◌+◌, ◌*◌, ◌^◌, ◌-◌, min, max, ◌≤◌, ◌<◌, ◌≡◌, ◌≢◌, refl, sym, ◌∙◌, some-injective, inl, inr,
  false, List, Option, some, arith, Text, text_eq_iff, text_eq_refl, Option-cases,
}
use tokligence_gateway.Prelude.JsMap
use tokligence_gateway.Prelude.JsMap.{get-set}
use tokligence_gateway.AccountPool.{
  Account, Endpoint, World, Pool, Entry, RetryAfter, absent, not_positive, unbounded, millis,
  delay_ms, record_failure, mark_failure, mark_success, select, cooling_until, generation_of,
}
use tokligence_gateway.AccountPool.Selection.{select-IsCandidate}

min_four : (n : ℕ) → 2 ^ min n 4 ≤ 16
min_four n = pow-le-pow_right {n = 2} (omega arith) (let h : min n 4 ≤ 4 = omega arith in h)

-- Whatever the upstream asks for, an account rests for a second at least and thirty days at most.
pub delay_ms_bounds :
    (r : RetryAfter) (failures : ℕ)
    → (1000 ≤ delay_ms r failures) × (delay_ms r failures ≤ 2592000000)
unfolding delay_ms
delay_ms_bounds absent f =
    omega (arith, min_four (f - 1), one-le-pow (min (f - 1) 4) 2 (omega arith))
delay_ms_bounds not_positive f = omega arith
delay_ms_bounds unbounded f = omega arith
delay_ms_bounds (millis n) f = omega arith

-- Without a hint from upstream the n-th failure in a row rests for 5 s times 2 to the n - 1, up to
-- the fifth, 80 s: the cap of an hour is never reached.
pub delay_ms-absent :
    (failures : ℕ)
    → (delay_ms absent failures ≡ 5000 * 2 ^ min (failures - 1) 4)
      × (delay_ms absent failures ≤ 80000)
unfolding delay_ms
delay_ms-absent f = omega (arith, min_four (f - 1))

-- How long an account rests that has failed so many times in a row before, in milliseconds
pub data Rests : RetryAfter → ℕ → ℕ → Type 0 where
  doubled : (before : ℕ) → before ≤ 4 → Rests absent before (5000 * 2 ^ before)
  longest : (before : ℕ) → 4 < before → Rests absent before 80000
  as_asked : (before n : ℕ) → 1000 ≤ n → n ≤ 2592000000 → Rests (millis n) before n
  shortest : (before n : ℕ) → n < 1000 → Rests (millis n) before 1000
  capped : (before n : ℕ) → 2592000000 < n → Rests (millis n) before 2592000000
  at_once : (before : ℕ) → Rests not_positive before 1000
  forever : (before : ℕ) → Rests unbounded before 2592000000

delay_ms-Rests :
    (retry : RetryAfter) (before n : ℕ) → Rests retry before n → delay_ms retry (before + 1) ≡ n
unfolding delay_ms
delay_ms-Rests absent before n (doubled _ few) =
    let same : min (before + 1 - 1) 4 ≡ before = omega arith in
    rw same (omega (arith, min_four before, pow-le-pow_right {n = 2} (omega arith) few))
delay_ms-Rests absent before n (longest _ many) =
    let same : min (before + 1 - 1) 4 ≡ 4 = omega arith in rw same refl
delay_ms-Rests (millis k) before n (as_asked _ _ least most) = omega arith
delay_ms-Rests (millis k) before n (shortest _ _ small) = omega arith
delay_ms-Rests (millis k) before n (capped _ _ large) = omega arith
delay_ms-Rests not_positive before n (at_once _) = refl
delay_ms-Rests unbounded before n (forever _) = omega arith

module _ (p : Pool) (a : Account) (retry : RetryAfter) (diagnostic : Option Text) (at : ℕ) where
  -- The entry that a failure leaves on its account.
  failed_entry :
      (q : Pool)
      → mark_failure p a retry diagnostic at ≡ some q
      → (e : Entry) × (JsMap.get p.state a.id ≡ some e)
        × (JsMap.get q.state a.id ≡ some (record_failure e retry diagnostic at))
  failed_entry q h = elim (Option-cases (JsMap.get p.state a.id)) [
    | inl nothing ↦ absurd (unfold mark_failure in ground arith)
    | inr (e, known) ↦ (
      e,
      known,
      unfold mark_failure in
          ground (
            arith,
            get-set p.state a.id a.id (record_failure e retry diagnostic at),
            text_eq_refl a.id,
          ),
    )
  ]

  -- A failure sends its account to rest for at least a second from now, never shortens a rest that
  -- is under way, never lets it end later than in thirty days or where it ended before, and opens
  -- a new generation. No other account and no session's affinity changes.
  pub mark_failure_lem :
      (q : Pool)
      → mark_failure p a retry diagnostic at ≡ some q
      → (at + 1000 ≤ cooling_until q a.id)
        × (cooling_until p a.id ≤ cooling_until q a.id)
        × (cooling_until q a.id ≤ max (cooling_until p a.id) (at + 2592000000))
        × ((g : ℕ) → generation_of p a.id ≡ some g → generation_of q a.id ≡ some (g + 1))
        × ((id : Text) → id ≢ a.id → JsMap.get q.state id ≡ JsMap.get p.state id)
        × (q.affinity ≡ p.affinity)
  mark_failure_lem q h =
      let (e, known, now) = failed_entry q h in
      let bounds = delay_ms_bounds retry (e.failures + 1) in
      (
        ground arith,
        ground arith,
        ground arith,
        λ g began. unfold generation_of in ground arith,
        λ id other.
            unfold mark_failure in
            ground (
              arith,
              get-set p.state a.id id (record_failure e retry diagnostic at),
              text_eq_iff a.id id,
            ),
        unfold mark_failure in ground arith,
      )

  -- An account that has failed is not selected again before its rest is over, counted from the
  -- failure, by any session and for any model, unless cooling accounts are asked for. The rest is
  -- the wait that the upstream asked for, from a second to thirty days, and where it asked for none
  -- 5 s times 2 to the number of failures in a row before this one, up to 80 s.
  pub select-mark_failure :
      (w : World) (accounts : List Account) (endpoint : Endpoint) (model key : Text)
      (exclude : List Text) (later n : ℕ) (before : Entry) (b : Account) (q : Pool)
      → mark_failure p a retry diagnostic at ≡ some q
      → JsMap.get p.state a.id ≡ some before
      → Rests retry before.failures n
      → later < at + n
      → (select w accounts q endpoint model key exclude false later).1 ≡ some b
      → b.id ≢ a.id
  select-mark_failure w accounts endpoint model key exclude later n before b q h then rest soon
        chosen =
      λ same.
        let c = select-IsCandidate w accounts q endpoint model exclude false later key b chosen in
        let (e, known, now) = failed_entry q h in
        let there : JsMap.get q.state b.id ≡ some (record_failure e retry diagnostic at) =
          rw same now in
        let stated : e ≡ before = some-injective (sym known ∙ then) in
        let long : delay_ms retry (e.failures + 1) ≡ n =
          rw stated (delay_ms-Rests retry before.failures n rest) in
        let until = c.rested in ground arith

-- A success that began before a failure of its account, with the generation of that time, is
-- ignored: the pool, with the account's rest, stays as the failure left it.
pub mark_success-mark_failure :
    (p : Pool) (a : Account) (retry : RetryAfter) (diagnostic : Option Text) (at : ℕ) (q : Pool)
    (key : Text) (generation later : ℕ)
    → generation_of p a.id ≡ some generation
    → mark_failure p a retry diagnostic at ≡ some q
    → mark_success q a key generation later ≡ some q
mark_success-mark_failure p a retry diagnostic at q key generation later began h =
    let (e, known, now) = failed_entry p a retry diagnostic at q h in
    unfold mark_success generation_of in ground arith
