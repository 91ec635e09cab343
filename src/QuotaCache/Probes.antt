-- ===== src/QuotaCache/Probes.antt =====
-- quota-cache.mjs: how often the calls of the cache ask the provider.
use tokligence_gateway.Prelude.{
  ℕ, ◌+◌, ◌-◌, ◌≡◌, ◌≤◌, ◌⊎◌, refl, ap, ◌∙◌, inl, inr, Bool, true, false, ◌||◌, List, [], ◌∷◌,
  Option, none, some, arith, ltb, all, Bool-cases,
}
use tokligence_gateway.QuotaCache.Values.{
  Result, Provider, mistral, codex_oauth, is_credential_failure, is_transient_failure,
}
use tokligence_gateway.QuotaCache.Cache.{
  Limits, Entry, Got, served, waits, launched, live_value, is_backing_off, held_value, held, get_by,
  get, settle, on_credential, on_mistral, on_transient, on_value,
}

-- The entry after a call, and how many probes it has started
abbrev pub after_got : Entry → Got → Entry × ℕ
after_got e (served r e') = (e', 0)
after_got e waits = (e, 0)
after_got e (launched e') = (e', 1)

-- The calls at the times, while no probe ends: how many probes they start
unfoldable pub probes : Limits → Entry → List ℕ → ℕ
probes x e [] = 0
probes x e (t ∷ ts) = let (e', n) = after_got e (get x e t) in n + probes x e' ts

held_value-kept :
    (x : Limits) (e : Entry) (v : Result) (time : ℕ) (b : Bool)
    → ((after_got e (held_value x e v time b)).1 ≡ 0)
      × ((after_got e (held_value x e v time b)).0.flight ≡ e.flight)
      × ((after_got e (held_value x e v time b)).0.failed_at ≡ e.failed_at)
unfolding held_value
held_value-kept x e v time true = (refl, refl, refl)
held_value-kept x e v time false = (refl, refl, refl)

held-kept :
    (x : Limits) (e : Entry) (o : Option Result) (time : ℕ)
    → ((after_got e (held x e o time)).1 ≡ 0)
      × ((after_got e (held x e o time)).0.flight ≡ e.flight)
      × ((after_got e (held x e o time)).0.failed_at ≡ e.failed_at)
unfolding held
held-kept x e none time = (refl, refl, refl)
held-kept x e (some v) time = held_value-kept x e v time e.primary_fresh

-- A call starts a probe only if none is under way, and then one is.
call_lem :
    (x : Limits) (e : Entry) (time : ℕ) (o : Option Result) (flight resting : Bool)
    → e.flight ≡ flight
    → (((after_got e (get_by x e time o flight resting)).1 ≡ 0)
        × ((after_got e (get_by x e time o flight resting)).0.flight ≡ flight))
      ⊎ ((flight ≡ false)
          × ((after_got e (get_by x e time o flight resting)).1 ≡ 1)
          × ((after_got e (get_by x e time o flight resting)).0.flight ≡ true))
unfolding get_by
call_lem x e time (some v) flight resting h = inl (refl, h)
call_lem x e time none true resting h = inl (refl, h)
call_lem x e time none false true h =
    let (count, same, _) = held-kept x e e.value time in inl (count, same ∙ h)
call_lem x e time none false false h = inr (refl, refl, refl)

probes-flight : (x : Limits) (e : Entry) (ts : List ℕ) → e.flight ≡ true → probes x e ts ≡ 0
unfolding probes
probes-flight x e [] h = refl
probes-flight x e (t ∷ ts) h =
    elim (call_lem x e t (live_value x e.at t e.value) e.flight (is_backing_off x e.failed_at t)
      refl) [
        | inl (count, same) ↦
            let rest = probes-flight x (after_got e (get x e t)).0 ts (same ∙ h) in omega arith
        | inr (idle, _, _) ↦ absurd (ground arith)
      ]

-- While a probe is under way no other one is started: calls at whatever times start at most one
-- before it ends.
pub probes-le : (x : Limits) (e : Entry) (ts : List ℕ) → probes x e ts ≤ 1
unfolding probes
probes-le x e [] = omega arith
probes-le x e (t ∷ ts) =
    elim (call_lem x e t (live_value x e.at t e.value) e.flight (is_backing_off x e.failed_at t)
      refl) [
        | inl (count, same) ↦ let rest = probes-le x (after_got e (get x e t)).0 ts in omega arith
        | inr (idle, count, flying) ↦
            let rest = probes-flight x (after_got e (get x e t)).0 ts flying in omega arith
      ]

resting_lem :
    (x : Limits) (e : Entry) (time : ℕ) (o : Option Result) (flight : Bool)
    → ((after_got e (get_by x e time o flight true)).1 ≡ 0)
      × ((after_got e (get_by x e time o flight true)).0.failed_at ≡ e.failed_at)
unfolding get_by
resting_lem x e time (some v) flight = (refl, refl)
resting_lem x e time none true = (refl, refl)
resting_lem x e time none false = let (count, _, same) = held-kept x e e.value time in (count, same)

probes-backoff :
    (x : Limits) (e : Entry) (failed : ℕ) (ts : List ℕ)
    → e.failed_at ≡ some failed
    → all (λ t. ltb (t - failed) x.backoff) ts ≡ true
    → probes x e ts ≡ 0
unfolding probes all
probes-backoff x e failed [] h soon = refl
probes-backoff x e failed (t ∷ ts) h soon =
    let resting : is_backing_off x e.failed_at t ≡ true = rw h (ground arith) in
    let (count, same) = resting_lem x e t (live_value x e.at t e.value) e.flight in
    let still =
      ap (λ b. after_got e (get_by x e t (live_value x e.at t e.value) e.flight b)) resting in
    let rest =
      probes-backoff x (after_got e (get x e t)).0 failed ts
        (ap (λ (r : Entry × ℕ). r.0.failed_at) still ∙ same ∙ h) (ground arith) in
    let none_now = ap (λ (r : Entry × ℕ). r.1) still ∙ count in omega arith

-- A probe that fails, or answers that the credentials or the readings are not there
unfoldable pub is_failure : Provider → Option Result → Bool
is_failure p none = true
is_failure p (some v) = is_credential_failure v || is_transient_failure p v

on_credential-failed :
    (x : Limits) (e : Entry) (o : Option Result) (v : Result) (time : ℕ)
    → (on_credential x e o v time).0.failed_at ≡ e.failed_at
unfolding on_credential
on_credential-failed x e none v time = elim (Bool-cases v.available) [
  | inl b ↦ rw (b, on_credential) refl
  | inr b ↦ rw (b, on_credential) refl
]
on_credential-failed x e (some w) v time = elim (Bool-cases v.available) [
  | inl b ↦ rw (b, on_credential) refl
  | inr b ↦ rw (b, on_credential) refl
]

on_mistral-failed :
    (x : Limits) (e : Entry) (o : Option Result) (v : Result) (time : ℕ)
    → (on_mistral x e o v time).0.failed_at ≡ e.failed_at
unfolding on_mistral
on_mistral-failed x e none v time = elim (Bool-cases v.available) [
  | inl b ↦ rw (b, on_mistral) refl
  | inr b ↦ rw (b, on_mistral) refl
]
on_mistral-failed x e (some w) v time = elim (Bool-cases v.available) [
  | inl b ↦ rw (b, on_mistral) refl
  | inr b ↦ rw (b, on_mistral) refl
]

on_transient-failed :
    (x : Limits) (p : Provider) (e : Entry) (v : Result) (time : ℕ)
    → (on_transient x p e v time).0.failed_at ≡ e.failed_at
unfolding on_transient
on_transient-failed x mistral e v time = on_mistral-failed x e e.value v time
on_transient-failed x codex_oauth e v time = refl

settle-failed :
    (x : Limits) (p : Provider) (e : Entry) (o : Option Result) (time : ℕ)
    → is_failure p o ≡ true
    → (settle x p e o time).0.failed_at ≡ some time
unfolding settle on_value is_failure
settle-failed x p e none time h = refl
settle-failed x p e (some v) time h =
    let e' : Entry = record e { flight = false; failed_at = some time } in
    elim (Bool-cases (is_credential_failure v)) [
      | inl b ↦ rw (b, on_value) (on_credential-failed x e' e.value v time)
      | inr b ↦
          let t : is_transient_failure p v ≡ true = ground arith in
          rw (b, t, on_value) (on_transient-failed x p e' v time)
    ]

-- After a failure of a probe the provider is left alone: calls less than the back-off later, in
-- whatever number, start no probe. A failure is a probe that throws, one that finds the credentials
-- no good, or one whose readings are not available.
pub settle-probes :
    (x : Limits) (p : Provider) (e : Entry) (o : Option Result) (time : ℕ) (ts : List ℕ)
    → is_failure p o ≡ true
    → all (λ t. ltb (t - time) x.backoff) ts ≡ true
    → probes x (settle x p e o time).0 ts ≡ 0
settle-probes x p e o time ts failed soon =
    probes-backoff x (settle x p e o time).0 time ts (settle-failed x p e o time failed) soon
