-- ===== src/Executor/Resting.antt =====
-- request-executor.mjs and routing-planner.mjs: a lane that has failed rests.
use tokligence_gateway.Prelude.{
  ℕ, ◌+◌, ◌≡◌, ◌<◌, ◌≤◌, refl, ap, ◌∙◌, subst, inl, inr, Bool, true, false, not, ◌&&◌, ◌||◌, Option,
  none, some, arith, ◌==◌, Bool-cases, Option-cases, Text, text_eq_refl,
}
use tokligence_gateway.Prelude.JsMap.{get-set}
use tokligence_gateway.Protocols.{Protocol}
use tokligence_gateway.Planner.{Candidate, circuit_open, cooldown_until}
use tokligence_gateway.Executor.{
  Thrown, Answer, Delivery, delivered, left, unsettled, stream_failed, failed_early, failed_late,
  Run, Turn, Attempt, threw, answered, model_of, cool, cooldown_ms, thrown_cooldown_ms,
  daily_cooldown_ms, lane_key, is_ok,
}
use tokligence_gateway.Executor.Attempts.{
  Result, moved_on, cut, thrown, settled, Step, again, done, Step-cases, after_step, step, on_throw,
  on_unfit, on_answer, unmarked, attempts,
}
use tokligence_gateway.Executor.Failover.{
  Context, next, is_pooled_chat, lane_status, on_error, blame, on_settled, on_result, on_relay,
  on_body, rest_ms, Script, try_candidate, retries,
}

-- The planner offers the lane of the candidate to nobody at that time.
unfoldable pub IsResting : Run → Candidate → ℕ → Type 0
IsResting run c t = circuit_open run.runtime c.provider.id (model_of c) c.protocol t ≡ true

cool-IsResting :
    (run : Run) (c : Candidate) (until t : ℕ) → t < until → IsResting (cool run c until) c t
unfolding IsResting circuit_open cooldown_until cool
cool-IsResting run c until t h = ground (
  arith,
  get-set run.runtime.cooldowns (lane_key c) (lane_key c) until,
  text_eq_refl (lane_key c),
)

cooldown_ms-ge : (o : Option ℕ) → 1000 ≤ cooldown_ms o
unfolding cooldown_ms
cooldown_ms-ge none = omega arith
cooldown_ms-ge (some s) = omega arith

thrown_cooldown_ms-ge : (daily : ℕ) (e : Thrown) → 1000 ≤ thrown_cooldown_ms daily e
unfolding thrown_cooldown_ms daily_cooldown_ms
thrown_cooldown_ms-ge daily e = elim (Bool-cases e.daily) [
  | inl b ↦ rw b (omega arith)
  | inr b ↦ rw b (omega arith)
]

on_error-IsResting :
    (x : Context) (run run' : Run) (c : Candidate) (held : Option Answer) (e : Thrown)
    (is_aborted sent is_last : Bool) (t : ℕ)
    → on_error x run c held e is_aborted sent is_last ≡ next run'
    → t < x.now + 1000
    → IsResting run' c t
unfolding on_error
on_error-IsResting x run run' c held e is_aborted true is_last t h soon = absurd (ground arith)
on_error-IsResting x run run' c held e true false is_last t h soon = absurd (ground arith)
on_error-IsResting x run run' c held e false false is_last t h soon =
    elim (Option-cases (lane_status c e is_last)) [
      | inr (status, own) ↦ absurd (ground arith)
      | inl nothing ↦
          let until = x.now + thrown_cooldown_ms x.daily_ms e in
          let same : record (cool (blame run held false) c until) { last_status = 502 } ≡ run' =
            ground arith in
          let long = thrown_cooldown_ms-ge x.daily_ms e in
          subst (λ r. IsResting r c t) same
            (unfold IsResting in cool-IsResting (blame run held false) c until t (omega arith))
    ]

rest_ms-ge : (x : Context) (a : Answer) → 1000 ≤ rest_ms x a
unfolding rest_ms
rest_ms-ge x a = elim (Bool-cases (a.status == 429 && a.daily_body)) [
  | inl b ↦ rw b (unfold daily_cooldown_ms in omega arith)
  | inr b ↦ rw b (cooldown_ms-ge a.retry_after)
]

on_relay-next :
    (run run' : Run) (c : Candidate) (a : Answer) (d : Delivery)
    → ¬ (on_relay run c a d ≡ next run')
unfolding on_relay
on_relay-next run run' c a v4 h = ground arith

on_body-IsResting :
    (x : Context) (run run' : Run) (c : Candidate) (a : Answer) (is_last : Bool) (d : Delivery)
    (t : ℕ)
    → on_body x run c a is_last d ≡ next run'
    → t < x.now + 1000
    → IsResting run' c t
unfolding on_body
on_body-IsResting x run run' c a is_last delivered t h soon = absurd (ground arith)
on_body-IsResting x run run' c a is_last left t h soon = absurd (ground arith)
on_body-IsResting x run run' c a is_last unsettled t h soon = absurd (ground arith)
on_body-IsResting x run run' c a is_last (stream_failed has_content) t h soon =
    absurd (ground arith)
on_body-IsResting x run run' c a is_last (failed_early e) t h soon =
    on_error-IsResting x run run' c (some a) e false false is_last t h soon
on_body-IsResting x run run' c a is_last (failed_late e) t h soon =
    on_error-IsResting x run run' c (some a) e false true is_last t h soon

on_settled-IsResting :
    (x : Context) (run run' : Run) (c : Candidate) (a : Answer) (is_last : Bool) (t : ℕ)
    → a.account ≡ none
    → on_settled x run c a is_last ≡ next run'
    → t < x.now + 1000
    → IsResting run' c t
unfolding on_settled is_pooled_chat
on_settled-IsResting x run run' c a is_last t own h soon = elim (Bool-cases (is_ok a.status)) [
  | inl ok ↦ on_body-IsResting x run run' c a is_last a.delivery t (ground arith) soon
  | inr bad ↦ elim (Bool-cases (a.bridge || a.specialist)) [
    | inl final ↦ absurd (ground arith)
    | inr other ↦
        let until = x.now + rest_ms x a in
        let same : cool (record run { last_status = a.status }) c until ≡ run' = ground arith in
        let long = rest_ms-ge x a in
        subst (λ r. IsResting r c t) same
          (cool-IsResting (record run { last_status = a.status }) c until t (omega arith))
  ]
]

-- The failure is the lane's own: no account of the pool has answered, and the pool is not exhausted.
unfoldable pub is_own : Attempt → Bool
is_own (threw e) = not e.exhausted
is_own (answered a) = elim a.account [ none ↦ true | some account ↦ false ]

unfoldable IsOwn : Result → Type 0
IsOwn moved_on = ⊥
IsOwn cut = Unit
IsOwn (thrown e) = Unit
IsOwn (settled a) = a.account ≡ none

on_result-IsResting :
    (x : Context) (run run' : Run) (c : Candidate) (held : Option Answer) (result : Result)
    (is_aborted is_last : Bool) (t : ℕ)
    → IsOwn result
    → on_result x c is_aborted is_last (run, held, result) ≡ next run'
    → t < x.now + 1000
    → IsResting run' c t
unfolding on_result IsOwn
on_result-IsResting x run run' c held moved_on is_aborted is_last t own h soon = absurd own
on_result-IsResting x run run' c held cut is_aborted is_last t own h soon = absurd (ground arith)
on_result-IsResting x run run' c held (thrown e) is_aborted is_last t own h soon =
    on_error-IsResting x run run' c held e is_aborted false is_last t h soon
on_result-IsResting x run run' c held (settled a) is_aborted is_last t own h soon =
    on_settled-IsResting x run run' c a is_last t own h soon

unfoldable IsOwnStep : Step → Type 0
IsOwnStep (again run held) = ⊥
IsOwnStep (done run held result) = IsOwn result

on_unfit-IsOwnStep :
    (run : Run) (e : Thrown) (account : Option Text)
    → e.exhausted ≡ false
    → IsOwnStep (on_unfit run none e false account)
unfolding on_unfit unmarked IsOwnStep IsOwn
on_unfit-IsOwnStep run e none h = rw h tt
on_unfit-IsOwnStep run e (some account) h = rw h tt

on_throw-IsOwnStep :
    (run : Run) (e : Thrown) (is_aborted : Bool)
    → e.exhausted ≡ false
    → IsOwnStep (on_throw run none e is_aborted false)
unfolding on_throw unmarked IsOwnStep IsOwn
on_throw-IsOwnStep run e true h = rw h tt
on_throw-IsOwnStep run e false h = on_unfit-IsOwnStep run e e.account h

on_answer-IsOwnStep :
    (run : Run) (protocol : Protocol) (a : Answer) (is_aborted : Bool)
    → a.account ≡ none
    → IsOwnStep (on_answer run protocol a is_aborted false)
unfolding on_answer IsOwnStep IsOwn
on_answer-IsOwnStep run protocol a true h = tt
on_answer-IsOwnStep run protocol a false h = rw h refl

step-IsOwnStep :
    (run : Run) (protocol : Protocol) (turn : Turn) (attempt : Attempt)
    → turn.attempt ≡ attempt
    → is_own attempt ≡ true
    → IsOwnStep (step run protocol none turn false)
unfolding step is_own
step-IsOwnStep run protocol turn (threw e) same own =
    rw same (on_throw-IsOwnStep run e turn.aborted (ground arith))
step-IsOwnStep run protocol turn (answered a) same own = elim (Option-cases a.account) [
  | inl nothing ↦ rw same (on_answer-IsOwnStep run protocol a turn.aborted nothing)
  | inr (account, pooled) ↦ absurd (ground arith)
]

-- A candidate that has no account pool and is left behind for a failure of its own rests: for a
-- second at least, the planner takes its lane for one that is not to be used.
pub try_candidate-IsResting :
    (x : Context) (run run' : Run) (c : Candidate) (script : Script) (is_last : Bool) (t : ℕ)
    → retries x c ≡ 0
    → is_own (script.turns 0).attempt ≡ true
    → try_candidate x run c script is_last ≡ next run'
    → t < x.now + 1000
    → IsResting run' c t
unfolding try_candidate IsOwnStep attempts after_step
try_candidate-IsResting x run run' c script is_last t alone own h soon =
    elim (Step-cases (step run c.protocol none (script.turns 0) false)) [
      | inl (run0, held, more) ↦ absurd (subst IsOwnStep more only)
      | inr (run0, held, result, over) ↦
          on_result-IsResting x run0 run' c held result script.by_error is_last t
            (subst IsOwnStep over only)
            (ap (on_result x c script.by_error is_last) (rw (alone, attempts) (rw over refl)) ∙ h)
            soon
    ]
  where
    only : IsOwnStep (step run c.protocol none (script.turns 0) false)
    only = step-IsOwnStep run c.protocol (script.turns 0) (script.turns 0).attempt refl own
