-- ===== src/Executor/Failover.antt =====
-- request-executor.mjs: what an answer or an error of a candidate leads to, and the loop over the
-- candidates of a plan.
use tokligence_gateway.Prelude.{
  ℕ, ◌+◌, Bool, true, false, not, ◌&&◌, ◌||◌, List, [], ◌∷◌, Option, none, some, Text, truthy, ◌==◌,
  if◌then◌else◌,
}
use tokligence_gateway.Prelude.JsMap
use tokligence_gateway.Routes.{Adapter, opencode_native, agy_native, cliproxyapi, opencode_zen}
use tokligence_gateway.Planner.{Runtime, Candidate}
use tokligence_gateway.Planner.Ordering.{affinity_key}
use tokligence_gateway.Executor.{
  Thrown, Answer, Delivery, delivered, left, unsettled, stream_failed, failed_early, failed_late,
  Preflight, semantic, Turn, mark_failure, mark_success, mark_session_failure, Run, is_ok, is_chat,
  log, cool, cooldown_ms, thrown_cooldown_ms, daily_cooldown_ms,
}
use tokligence_gateway.Executor.Attempts.{Result, moved_on, cut, thrown, settled, attempts}
use tokligence_gateway.Executor.History.{record_model_family}

pub record Context : Type 0 where
  pub session : Option Text
  pub profile : Option Text
  -- `none` if it is undefined
  pub history_key : Option (Option Text)
  pub want_stream : Bool
  -- `maxAttempts` of the account pool, if there is one, less one
  pub pool_retries : Option ℕ
  pub history_ttl_ms : ℕ
  pub daily_ms : ℕ
  pub now : ℕ

-- How the request ends: an error is answered with the status, an answer of the candidate has been
-- sent or begun, the candidates are used up, or the request is aborted before anything is sent.
pub data Ending : Type 0 where
  stopped : ℕ → Ending
  committed : Candidate → Ending
  used_up aborted : Ending

pub data Turned : Type 0 where
  next : Run → Turned
  ended : Run → Ending → Turned

abbrev with_runtime : Run → Runtime → Run
with_runtime run r = record run { runtime = r }

-- The session keeps to the candidate, and its family is recorded.
unfoldable pub remember : Context → Run → Candidate → Run
remember x run c =
    let r = run.runtime in
    let sticky : Runtime = elim (truthy x.session) [
      | none ↦ r
      | some s ↦ elim (truthy x.profile) [
        | none ↦ r
        | some p ↦ record r {
          affinity =
              JsMap.set r.affinity (affinity_key s p)
                (record { provider = c.provider.id; model = c.upstream_model; updated_at = x.now });
        }
      ]
    ] in
    let key : Option Text = elim x.history_key [ none ↦ x.session | some k ↦ k ] in
    with_runtime run (record_model_family sticky key c.family x.history_ttl_ms x.now)

-- The `catch` of a candidate, in the lanes that answer with an error of their own
unfoldable pub lane_status : Candidate → Thrown → Bool → Option ℕ
lane_status c e is_last =
    let status : ℕ = elim e.status_code [ none ↦ 502 | some s ↦ s ] in
    if c.specialist then some status else at_adapter c.provider.adapter status
  where
    at_adapter : Adapter → ℕ → Option ℕ
    at_adapter opencode_native status =
        some (if status == 400 || status == 503 then status else 502)
    at_adapter agy_native status =
        some (if status == 400 || status == 401 || status == 503 then status else 502)
    at_adapter cliproxyapi status = if is_last then e.proxy_status else none
    at_adapter _ status = none

abbrev is_proxy : Adapter → Bool
is_proxy cliproxyapi = true
is_proxy _ = false

-- What the `catch` tells the pool of the last answer that there was
unfoldable pub blame : Run → Option Answer → Bool → Run
blame run none is_aborted = run
blame run (some a) true = run
blame run (some a) false = elim a.account [
  | none ↦ run
  | some account ↦
      let failed = log run (mark_failure account) in
      if a.sticky then log failed (mark_session_failure account) else failed
]

unfoldable pub on_error :
    Context → Run → Candidate → Option Answer → Thrown → Bool → Bool → Bool → Turned
on_error x run c held e is_aborted sent is_last =
    let blamed = blame run held is_aborted in
    let rested = cool blamed c (x.now + thrown_cooldown_ms x.daily_ms e) in
    if sent
    then ended blamed (committed c)
    else if is_aborted
    then ended blamed aborted
    else elim (lane_status c e is_last) [
      | some status ↦
          ended (if is_proxy c.provider.adapter && not c.specialist then rested else blamed)
            (stopped status)
      | none ↦ next (record rested { last_status = 502 })
    ]

abbrev is_semantic : Preflight → Bool
is_semantic semantic = true
is_semantic _ = false

-- A stream that has failed, as the pool learns it
unfoldable pub fail_stream : Run → Answer → Option Text → Bool → Run
fail_stream run a none has_content = run
fail_stream run a (some account) has_content =
    let failed = log run (mark_failure account) in
    if has_content || is_semantic a.preflight
    then log failed (mark_session_failure account)
    else failed

abbrev succeed : Run → Option Text → Run
succeed run none = run
succeed run (some account) = log run (mark_success account)

-- A stream of the pool whose chat completion is neither translated nor passed on
unfoldable pub is_pooled_chat : Candidate → Answer → Bool
is_pooled_chat c a =
    (elim a.account [ none ↦ false | some account ↦ true ])
    && not a.codec
    && is_chat c.protocol
    && a.event_stream

abbrev pub is_relayed : Context → Candidate → Answer → Bool
is_relayed x c a = is_pooled_chat c a && x.want_stream

-- What is kept of an answer that has been delivered: one that is translated tells the pool of an
-- error at its beginning, one that is passed on tells the pool nothing.
unfoldable pub on_delivered : Context → Run → Candidate → Answer → Run
on_delivered x run c a =
    if a.codec
    then remember x
        (if is_semantic a.preflight
          then fail_stream run a a.account true
          else succeed run a.account)
        c
    else if is_pooled_chat c a
    then remember x (succeed run a.account) c
    else if a.specialist
    then run
    else remember x run c

-- A chat completion of the pool that is relayed as a stream
unfoldable pub on_relay : Run → Candidate → Answer → Delivery → Turned
on_relay run c a delivered = ended (succeed run a.account) (committed c)
on_relay run c a left = ended run (committed c)
on_relay run c a unsettled = ended run (committed c)
on_relay run c a (stream_failed has_content) =
    ended (fail_stream run a a.account has_content) (committed c)
on_relay run c a (failed_early e) = ended (fail_stream run a a.account false) (committed c)
on_relay run c a (failed_late e) = ended (fail_stream run a a.account false) (committed c)

-- A chat completion of the pool that is collected, an answer that is translated, one of the
-- specialist service, and one that is passed on
unfoldable pub on_body : Context → Run → Candidate → Answer → Bool → Delivery → Turned
on_body x run c a is_last delivered = ended (on_delivered x run c a) (committed c)
on_body x run c a is_last left = ended (if a.codec then remember x run c else run) (committed c)
on_body x run c a is_last unsettled = ended run (stopped 502)
on_body x run c a is_last (stream_failed has_content) =
    ended (remember x (fail_stream run a a.account has_content) c) (committed c)
on_body x run c a is_last (failed_early e) = on_error x run c (some a) e false false is_last
on_body x run c a is_last (failed_late e) = on_error x run c (some a) e false true is_last

-- How long the lane of a rejected answer rests
unfoldable pub rest_ms : Context → Answer → ℕ
rest_ms x a =
    if a.status == 429 && a.daily_body
    then daily_cooldown_ms x.daily_ms
    else cooldown_ms a.retry_after

-- An answer that is settled on, with its status
unfoldable pub on_settled : Context → Run → Candidate → Answer → Bool → Turned
on_settled x run c a is_last =
    let rejected = record run { last_status = a.status } in
    if is_ok a.status
    then (if is_relayed x c a
        then on_relay run c a a.delivery
        else on_body x run c a is_last a.delivery)
    else if a.bridge || a.specialist
    then ended run (stopped a.status)
    else elim a.account [
      | some account ↦ next rejected
      | none ↦ next (cool rejected c (x.now + rest_ms x a))
    ]

abbrev is_pooled : Adapter → Bool
is_pooled opencode_zen = true
is_pooled _ = false

abbrev pub retries : Context → Candidate → ℕ
retries x c = elim x.pool_retries [
  | none ↦ 0
  | some n ↦ if is_pooled c.provider.adapter then n else 0
]

unfoldable pub on_result : Context → Candidate → Bool → Bool → Run × Option Answer × Result → Turned
on_result x c is_aborted is_last (run, held, moved_on) = next run
on_result x c is_aborted is_last (run, held, cut) = ended run aborted
on_result x c is_aborted is_last (run, held, thrown e) =
    on_error x run c held e is_aborted false is_last
on_result x c is_aborted is_last (run, held, settled a) = on_settled x run c a is_last

-- For each candidate: whether the request is aborted before it or by an error of it, and its turns
pub record Script : Type 0 where
  pub before : Bool
  pub by_error : Bool
  pub turns : ℕ → Turn

unfoldable pub try_candidate : Context → Run → Candidate → Script → Bool → Turned
try_candidate x run c script is_last =
    on_result x c script.by_error is_last
      (attempts c.protocol script.turns (retries x c) 0 run none)

abbrev pub is_empty {ℓ} : {A : Type ℓ} → List A → Bool
is_empty [] = true
is_empty (x ∷ xs) = false

-- executeRoutePlan, up to the answer that says that nothing has worked
unfoldable pub failover : Context → Run → List (Candidate × Script) → Run × Ending
failover x run [] = (run, used_up)
failover x run ((c, script) ∷ rest) =
    if script.before then (run, aborted) else elim (try_candidate x run c script (is_empty rest)) [
      | next run' ↦ failover x run' rest
      | ended run' ending ↦ (run', ending)
    ]
