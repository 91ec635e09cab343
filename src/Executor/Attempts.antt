-- ===== src/Executor/Attempts.antt =====
-- request-executor.mjs: the attempts on one candidate, on one account of the pool after another.
use tokligence_gateway.Prelude.{
  ℕ, ◌≡◌, ◌⊎◌, refl, inl, inr, zero, suc, ◌+◌, Bool, true, false, not, ◌&&◌, ◌||◌, Option, none,
  some, Text, if◌then◌else◌,
}
use tokligence_gateway.Protocols.{Protocol}
use tokligence_gateway.Executor.{
  Thrown, Preflight, passed, retryable, semantic, broken, Answer, threw, answered, Turn,
  mark_failure, Run, is_ok, is_retryable, is_chat, log,
}

-- How the attempts on a candidate end: on to the next candidate, with an error, with an answer, or
-- aborted. `attemptResult` is what the last attempt that answered has left, or null.
pub data Result : Type 0 where
  moved_on cut : Result
  thrown : Thrown → Result
  settled : Answer → Result

pub data Step : Type 0 where
  again : Run → Option Answer → Step
  done : Run → Option Answer → Result → Step

pub Step-cases :
    (s : Step)
    → ((run : Run) × (held : Option Answer) × (s ≡ again run held))
      ⊎ ((run : Run) × (held : Option Answer) × (result : Result) × (s ≡ done run held result))
Step-cases (again run held) = inl (run, held, refl)
Step-cases (done run held result) = inr (run, held, result, refl)

abbrev pub retry_or : Bool → Run → Option Answer → Step → Step
retry_or true run held otherwise = again run held
retry_or false run held otherwise = otherwise

-- A failed attempt that the pool has no account for any more, or that is an error
unfoldable pub unmarked : Run → Option Answer → Thrown → Bool → Step
unmarked run held e aborted =
    if e.exhausted && not aborted then done run none moved_on else done run held (thrown e)

-- The account of an attempt that has thrown is marked.
unfoldable pub on_unfit : Run → Option Answer → Thrown → Bool → Option Text → Step
on_unfit run held e retry none = unmarked run held e false
on_unfit run held e retry (some a) =
    let failed = log run (mark_failure a) in
    retry_or retry failed held (unmarked failed held e false)

-- An attempt that throws; `retry` says whether the pool has attempts left.
unfoldable pub on_throw : Run → Option Answer → Thrown → Bool → Bool → Step
on_throw run held e true retry = unmarked run held e true
on_throw run held e false retry = on_unfit run held e retry e.account

-- What the beginning of a pooled stream says
unfoldable pub on_preflight : Run → Answer → Text → Bool → Preflight → Step
on_preflight run a account retry passed = done run (some a) (settled a)
on_preflight run a account retry semantic = done run (some a) (settled a)
on_preflight run a account retry (broken e) = done run (some a) (thrown e)
on_preflight run a account retry retryable =
    retry_or retry (log run (mark_failure account)) (some a)
      (done (log run (mark_failure account)) none moved_on)

-- An answer of an account of the pool
unfoldable pub on_pooled : Run → Protocol → Answer → Text → Bool → Step
on_pooled run protocol a account retry =
    let failed = log run (mark_failure account) in
    if is_ok a.status
    then (if not a.event_stream
        then retry_or retry (record failed { last_status = 502 }) (some a)
            (done (record failed { last_status = 502 }) none moved_on)
        else if a.codec || is_chat protocol
        then on_preflight run a account retry a.preflight
        else done run (some a) (settled a))
    else if is_retryable a.status
    then retry_or retry failed (some a) (done failed (some a) (settled a))
    else done run (some a) (settled a)

unfoldable pub on_answer : Run → Protocol → Answer → Bool → Bool → Step
on_answer run protocol a true retry = done run (some a) cut
on_answer run protocol a false retry = elim a.account [
  | none ↦ done run (some a) (settled a)
  | some account ↦ on_pooled run protocol a account retry
]

unfoldable pub step : Run → Protocol → Option Answer → Turn → Bool → Step
step run protocol held turn retry = elim turn.attempt [
  | threw e ↦ on_throw run held e turn.aborted retry
  | answered a ↦ on_answer run protocol a turn.aborted retry
]

unfoldable pub after_step :
    (Run → Option Answer → Run × Option Answer × Result) → Step → Run × Option Answer × Result
after_step next (again run held) = next run held
after_step next (done run held result) = (run, held, result)

-- The loop over the accounts, with the number of attempts that are left after this one. Without any
-- left no step asks for another.
unfoldable pub attempts :
    Protocol → (ℕ → Turn) → ℕ → ℕ → Run → Option Answer → Run × Option Answer × Result
attempts protocol turns zero k run held =
    after_step (λ run' held'. (run', held', moved_on)) (step run protocol held (turns k) false)
attempts protocol turns (suc more) k run held =
    after_step (λ run' held'. attempts protocol turns more (k + 1) run' held')
      (step run protocol held (turns k) true)
