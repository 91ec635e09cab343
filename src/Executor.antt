-- ===== src/Executor.antt =====
-- request-executor.mjs: the failover over the candidates of a plan. What the upstream services do
-- is a parameter, a script of turns: for each candidate and each attempt the answer or the error,
-- and whether the request has been aborted by then. Bodies, headers and traces are left out, and so
-- are the diagnostics that go into the body of the last answer.
pub mod History
pub mod Attempts
pub mod Failover
pub mod Order
pub mod Resting
mod Tests
use tokligence_gateway.Prelude.{
  ℕ, zero, suc, ◌+◌, ◌*◌, max, min, Bool, true, false, not, ◌&&◌, ◌||◌, List, [], ◌∷◌, ◌++◌, Option,
  none, some, Text, leb, ltb, ◌==◌, if◌then◌else◌,
}
use tokligence_gateway.Prelude.JsMap
use tokligence_gateway.Protocols.{Protocol, chat_completions}
use tokligence_gateway.Planner.{Runtime, Candidate, cooldown_key}

-- An error: the pool account it carries, `poolExhausted`, `statusCode`, the `status` of an error
-- that has a `code` too, and whether it tells of a daily quota
pub record Thrown : Type 0 where
  pub account : Option Text
  pub exhausted : Bool
  pub status_code : Option ℕ
  pub proxy_status : Option ℕ
  pub daily : Bool

-- What the first part of a stream says
pub data Preflight : Type 0 where
  passed retryable semantic : Preflight
  broken : Thrown → Preflight

-- How the body gets to the client: whole; with a failure in a stream that has begun, after semantic
-- content or before; not at all, because the client has left; or with an error, before the headers
-- are sent or after. Only a stream that is translated or relayed fails as one, and only the specialist
-- service leaves an answer unsettled.
pub data Delivery : Type 0 where
  delivered left unsettled : Delivery
  stream_failed : Bool → Delivery
  failed_early failed_late : Thrown → Delivery

-- An answer of an upstream service, with the account of the pool that was used
pub record Answer : Type 0 where
  pub status : ℕ
  pub account : Option Text
  pub sticky : Bool
  pub event_stream : Bool
  pub codec : Bool
  pub bridge : Bool
  pub specialist : Bool
  pub preflight : Preflight
  -- the header `retry-after` as a number, if it is one
  pub retry_after : Option ℕ
  -- whether the body of a 429 tells of a daily quota
  pub daily_body : Bool
  pub delivery : Delivery

pub data Attempt : Type 0 where
  threw : Thrown → Attempt
  answered : Answer → Attempt

pub record Turn : Type 0 where
  pub aborted : Bool
  pub attempt : Attempt

-- A call of the account pool
pub data PoolCall : Type 0 where
  mark_failure mark_success mark_session_failure : Text → PoolCall

-- The state of a request that is under way
pub record Run : Type 0 where
  pub runtime : Runtime
  pub calls : List PoolCall
  pub last_status : ℕ

abbrev pub error_cooldown_ms : ℕ
error_cooldown_ms = 10000

-- cooldownMs
unfoldable pub cooldown_ms : Option ℕ → ℕ
cooldown_ms none = error_cooldown_ms
cooldown_ms (some seconds) = min (max (seconds * 1000) 1000) 30000

-- DAILY_QUOTA_COOLDOWN_MS
unfoldable pub daily_cooldown_ms : ℕ → ℕ
daily_cooldown_ms daily_ms = max daily_ms error_cooldown_ms

-- errorCooldownMs
unfoldable pub thrown_cooldown_ms : ℕ → Thrown → ℕ
thrown_cooldown_ms daily_ms e = if e.daily then daily_cooldown_ms daily_ms else error_cooldown_ms

-- failureStatus
unfoldable pub failure_status : ℕ → ℕ
failure_status status = if status == 429 || status == 503 then 503 else 502

abbrev pub is_ok : ℕ → Bool
is_ok status = leb 200 status && ltb status 300

-- The statuses on which another account of the pool is tried
unfoldable pub is_retryable : ℕ → Bool
is_retryable status = status == 429 || status == 401 || status == 403 || leb 500 status

abbrev pub is_chat : Protocol → Bool
is_chat chat_completions = true
is_chat _ = false

-- `candidate.model?.id || candidate.upstreamModel`
abbrev pub model_of : Candidate → Text
model_of c = elim c.model [ [] ↦ c.upstream_model | x ∷ t ↦ x ∷ t ]

abbrev pub lane_key : Candidate → Text
lane_key c = cooldown_key c.provider.id (model_of c) c.protocol

abbrev pub log : Run → PoolCall → Run
log run call = record run { calls = run.calls ++ call ∷ [] }

-- The lane of the candidate rests until the time.
unfoldable pub cool : Run → Candidate → ℕ → Run
cool run c until =
    let r = run.runtime in
    record run { runtime = record r { cooldowns = JsMap.set r.cooldowns (lane_key c) until } }
