-- ===== src/AccountPool/Reach.antt =====
-- opencode-account-pool.mjs: every sequence of calls keeps the pool's maps within their bounds, and
-- no call throws.
use tokligence_gateway.Prelude.{
  ℕ, ◌+◌, ◌≤◌, ◌≡◌, ◌≢◌, inl, inr, Bool, List, [], ◌∷◌, Option, none, some, arith, length, Text,
  text_eq_refl, In, Option-cases, ◌==◌, Bool-cases,
}
use tokligence_gateway.Prelude.JsMap
use tokligence_gateway.Prelude.JsMap.{JsMap, get-set, length-trim-le, length-delete-le}
use tokligence_gateway.AccountPool.{
  Account, Endpoint, World, Pool, Entry, Sticky, RetryAfter, prune_affinity, select, mark_success,
  mark_failure, mark_session_failure, create, initial_state, fresh, max_sticky, affinity_ms,
  record_failure,
}

-- What every pool keeps: each of its accounts has an entry, and the affinity is bounded.
pub record IsValid (accounts : List Account) (p : Pool) : Type 0 where
  pub bounded : length p.affinity ≤ 4096
  pub known : (a : Account) → In a accounts → (e : Entry) × (JsMap.get p.state a.id ≡ some e)

-- One call of the pool. The account of a success or a failure is one of the pool's, as `select`
-- returns them; sessions, models, clocks and the order of calls are free.
pub data Step (w : World) (accounts : List Account) : Pool → Pool → Type 0 where
  selects :
      (p : Pool) (endpoint : Endpoint) (model key : Text) (exclude : List Text) (cooling : Bool)
      (at : ℕ)
      → Step w accounts p (select w accounts p endpoint model key exclude cooling at).0
  succeeds :
      {p q : Pool} (a : Account) (key : Text) (generation at : ℕ)
      → In a accounts
      → mark_success p a key generation at ≡ some q
      → Step w accounts p q
  fails :
      {p q : Pool} (a : Account) (retry : RetryAfter) (diagnostic : Option Text) (at : ℕ)
      → In a accounts
      → mark_failure p a retry diagnostic at ≡ some q
      → Step w accounts p q
  loses_session : (p : Pool) (key : Text) → Step w accounts p (mark_session_failure p key)

pub data Reach (w : World) (accounts : List Account) : Pool → Type 0 where
  start : Reach w accounts (create accounts)
  next : {p q : Pool} → Reach w accounts p → Step w accounts p q → Reach w accounts q

set-known :
    (m : JsMap Entry) (k j : Text) (v e : Entry)
    → JsMap.get m j ≡ some e
    → (e' : Entry) × (JsMap.get (JsMap.set m k v) j ≡ some e')
set-known m k j v e h = ground (arith, get-set m k j v)

initial_state-keeps :
    (rest : List Account) (m : JsMap Entry) (k : Text) (e : Entry)
    → JsMap.get m k ≡ some e
    → (e' : Entry) × (JsMap.get (initial_state rest m) k ≡ some e')
unfolding initial_state
initial_state-keeps [] m k e h = (e, h)
initial_state-keeps (a ∷ rest) m k e h =
    let (e', h') = set-known m a.id k fresh e h in
    initial_state-keeps rest (JsMap.set m a.id fresh) k e' h'

initial_state-known :
    (accounts : List Account) (m : JsMap Entry) (a : Account)
    → In a accounts
    → (e : Entry) × (JsMap.get (initial_state accounts m) a.id ≡ some e)
unfolding initial_state
initial_state-known [] m a h = absurd h
initial_state-known (b ∷ rest) m a (inl s) =
    initial_state-keeps rest (JsMap.set m b.id fresh) a.id fresh
      (rw s (ground (arith, get-set m b.id b.id fresh, text_eq_refl b.id)))
initial_state-known (b ∷ rest) m a (inr i) = initial_state-known rest (JsMap.set m b.id fresh) a i

create-IsValid : (accounts : List Account) → IsValid accounts (create accounts)
unfolding create
create-IsValid accounts = record {
  bounded = omega arith;
  known = λ a h. initial_state-known accounts [] a h;
}

module _ (accounts : List Account) (p : Pool) (v : IsValid accounts p) where
  prune-bounded : (at : ℕ) → length (prune_affinity at p.affinity) ≤ 4096
  unfolding prune_affinity
  prune-bounded at = length-trim-le max_sticky _

  mark_success-IsValid :
      (q : Pool) (a : Account) (key : Text) (generation at : ℕ)
      → mark_success p a key generation at ≡ some q
      → IsValid accounts q
  mark_success-IsValid q a key generation at h = elim (Option-cases (JsMap.get p.state a.id)) [
    | inl nothing ↦ absurd (unfold mark_success in ground arith)
    | inr (e, here) ↦ elim (Bool-cases (e.generation == generation)) [
      | inl now ↦
          let rested : Entry = record e { until = 0; failures = 0; diagnostic = none } in
          let state : q.state ≡ JsMap.set p.state a.id rested =
            unfold mark_success in ground arith in
          let s : Sticky = record { account_id = a.id; until = at + affinity_ms } in
          let pruned = JsMap.delete (prune_affinity at p.affinity) key in
          record {
            bounded =
                unfold mark_success in
                ground (arith, length-trim-le {0} max_sticky (JsMap.set pruned key s));
            known = λ b m.
                let (e', there) = v.known b m in
                rw state (set-known p.state a.id b.id rested e' there);
          }
      | inr stale ↦ let same : p ≡ q = unfold mark_success in ground arith in rw (← same) v
    ]
  ]

  mark_failure-IsValid :
      (q : Pool) (a : Account) (retry : RetryAfter) (diagnostic : Option Text) (at : ℕ)
      → mark_failure p a retry diagnostic at ≡ some q
      → IsValid accounts q
  mark_failure-IsValid q a retry diagnostic at h = elim (Option-cases (JsMap.get p.state a.id)) [
    | inl nothing ↦ absurd (unfold mark_failure in ground arith)
    | inr (e, here) ↦
        let failed = record_failure e retry diagnostic at in
        let state : q.state ≡ JsMap.set p.state a.id failed = unfold mark_failure in ground arith in
        record {
          bounded = unfold mark_failure in ground (arith, v.bounded);
          known = λ b m.
              let (e', there) = v.known b m in
              rw state (set-known p.state a.id b.id failed e' there);
        }
  ]

  mark_session_failure-IsValid : (key : Text) → IsValid accounts (mark_session_failure p key)
  unfolding mark_session_failure
  mark_session_failure-IsValid [] = v
  mark_session_failure-IsValid (c ∷ key) = record {
    bounded = omega (arith, v.bounded, length-delete-le {0} p.affinity (c ∷ key));
    known = v.known;
  }

Step-IsValid :
    {w : World} {accounts : List Account} {p q : Pool}
    → Step w accounts p q
    → IsValid accounts p
    → IsValid accounts q
Step-IsValid {w} {accounts} (selects p endpoint model key exclude cooling at) v = record {
  bounded = unfold select in prune-bounded accounts p v at;
  known = unfold select in v.known;
}
Step-IsValid {accounts} {p} {q} (succeeds a key generation at m h) v =
    mark_success-IsValid accounts p v q a key generation at h
Step-IsValid {accounts} {p} {q} (fails a retry diagnostic at m h) v =
    mark_failure-IsValid accounts p v q a retry diagnostic at h
Step-IsValid {accounts} (loses_session p key) v = mark_session_failure-IsValid accounts p v key

-- After any sequence of calls each account of the pool has its cooldown entry and at most 4096
-- sessions are remembered.
pub Reach-IsValid :
    {w : World} {accounts : List Account} {p : Pool} → Reach w accounts p → IsValid accounts p
Reach-IsValid {accounts} start = create-IsValid accounts
Reach-IsValid (next r s) = Step-IsValid s (Reach-IsValid r)

-- After any sequence of calls, marking a success or a failure of one of the pool's accounts does
-- not throw.
pub mark_total :
    (w : World) (accounts : List Account) (p : Pool)
    → Reach w accounts p
    → (a : Account) → In a accounts
    → (key : Text) (generation at : ℕ) (retry : RetryAfter) (diagnostic : Option Text)
    → (mark_success p a key generation at ≢ none) × (mark_failure p a retry diagnostic at ≢ none)
mark_total w accounts p r a m key generation at retry diagnostic =
    let (e, known) = (Reach-IsValid r).known a m in
    unfold mark_success mark_failure in (ground arith, ground arith)
