-- ===== src/Executor/Tests.antt =====
-- request-executor.mjs: a plan of two lanes, of which the first one fails, and the theorems at that
-- input.
use tokligence_gateway.Prelude.{
  ℕ, ◌≡◌, ◌≤◌, refl, true, false, List, [], ◌∷◌, Option, none, some, Text, codes, arith, length,
  text_eq, truthy, In,
}
use tokligence_gateway.Prelude.JsMap
use tokligence_gateway.Protocols.{chat_completions}
use tokligence_gateway.Routes.{Adapter, openai_compatible, Provider}
use tokligence_gateway.Planner.{Runtime, Candidate, cooldown_key, protocol_name}
use tokligence_gateway.Executor.{
  Thrown, Answer, delivered, passed, Attempt, threw, answered, Run, cool, cooldown_ms,
  thrown_cooldown_ms,
}
use tokligence_gateway.Executor.Attempts.{
  attempts, step, after_step, on_throw, on_answer, on_unfit, unmarked,
}
use tokligence_gateway.Executor.Failover.{
  Context, committed, used_up, next, ended, Script, try_candidate, failover, is_empty, on_result,
  on_error, on_settled, on_body, on_delivered, is_pooled_chat, remember, lane_status, blame,
  rest_ms, retries,
}
use tokligence_gateway.Executor.History.{
  record_family_lem, record_family, live_families, record_model_family,
}
use tokligence_gateway.Executor.Order.{Skips, failover-committed, failover-used_up}
use tokligence_gateway.Executor.Resting.{IsResting, is_own, try_candidate-IsResting}

abbrev idle : Runtime
idle = record {
  cooldowns = [];
  affinity = [];
  quotas = [];
  histories = [];
  catalog = none;
  misses = [];
}

abbrev fresh : Run
fresh = record { runtime = idle; calls = []; last_status = 503 }

abbrev provider : Text → Adapter → Provider
provider name adapter = record {
  id = name;
  adapter = adapter;
  is_default = false;
  enabled_env = none;
  api_key_env = none;
  internal_api_key_env = [];
  credential_file = none;
  credential_file_env = none;
  pool_accounts = [];
  pool_keys = [];
  protocols = [];
  no_translation = false;
  models = [];
  discover_free_only = false;
  tool_calling = true;
  can_reason = false;
  can_see = false;
  no_streaming = false;
  parallel_tools = false;
  structured_output = false;
  context_window = none;
  cost_class = none;
  family = none;
}

abbrev lane : Text → Candidate
lane name = record {
  provider = provider name openai_compatible;
  model = codes "m";
  upstream_model = codes "m";
  protocol = chat_completions;
  native = true;
  translated = false;
  family = none;
  specialist = false;
}

abbrev broken_off : Thrown
broken_off = record {
  account = none;
  exhausted = false;
  status_code = none;
  proxy_status = none;
  daily = false;
}

abbrev answer : ℕ → Option Text → Answer
answer status account = record {
  status = status;
  account = account;
  sticky = false;
  event_stream = true;
  codec = false;
  bridge = false;
  specialist = false;
  preflight = passed;
  retry_after = some 5;
  daily_body = false;
  delivery = delivered;
}

abbrev script_of : Attempt → Script
script_of attempt = record {
  before = false;
  by_error = false;
  turns = λ k. record { aborted = false; attempt = attempt };
}

abbrev context : Context
context = record {
  session = none;
  profile = none;
  history_key = none;
  want_stream = true;
  pool_retries = some 1;
  history_ttl_ms = 3600000;
  daily_ms = 3600000;
  now = 50000;
}

abbrev failing : Script
failing = script_of (threw broken_off)

abbrev working : Script
working = script_of (answered (answer 200 none))

abbrev busy : Script
busy = script_of (answered (answer 503 none))

-- After the error of the first lane
abbrev after : Run
after = record {
  runtime = record idle { cooldowns = (codes "a:m:chat_completions", 60000) ∷ [] };
  calls = [];
  last_status = 502;
}

abbrev at_end : Run
at_end = record {
  runtime = record idle {
    cooldowns = (codes "a:m:chat_completions", 60000) ∷ (codes "b:m:chat_completions", 55000) ∷ [];
  };
  calls = [];
  last_status = 503;
}

left_behind : try_candidate context fresh (lane (codes "a")) failing false ≡ next after
unfolding try_candidate attempts after_step step on_throw on_unfit unmarked on_result on_error blame
    lane_status cool thrown_cooldown_ms cooldown_key protocol_name JsMap.set text_eq
left_behind = refl

served :
    failover context fresh ((lane (codes "a"), failing) ∷ (lane (codes "b"), working) ∷ [])
    ≡ (after, committed (lane (codes "b")))
unfolding failover try_candidate attempts after_step step on_throw on_unfit unmarked on_answer
    on_result on_error blame lane_status cool thrown_cooldown_ms cooldown_key protocol_name
    JsMap.set text_eq on_settled on_body on_delivered is_pooled_chat remember truthy
    record_model_family
served = refl

unserved :
    failover context fresh ((lane (codes "a"), failing) ∷ (lane (codes "b"), busy) ∷ [])
    ≡ (at_end, used_up)
unfolding failover try_candidate attempts after_step step on_throw on_unfit unmarked on_answer
    on_result on_error blame lane_status cool thrown_cooldown_ms cooldown_key protocol_name
    JsMap.set text_eq on_settled rest_ms cooldown_ms
unserved = refl

failover-committed_example :
    (run' : Run) × (script : Script) × (rest : List (Candidate × Script)) × Skips context fresh
      ((lane (codes "a"), failing) ∷ (lane (codes "b"), working) ∷ [])
      run'
      ((lane (codes "b"), script) ∷ rest)
    × (try_candidate context run' (lane (codes "b")) script (is_empty rest)
        ≡ ended after (committed (lane (codes "b"))))
failover-committed_example =
    failover-committed context fresh after
      ((lane (codes "a"), failing) ∷ (lane (codes "b"), working) ∷ []) (lane (codes "b")) served

failover-used_up_example :
    Skips context fresh ((lane (codes "a"), failing) ∷ (lane (codes "b"), busy) ∷ []) at_end []
failover-used_up_example =
    failover-used_up context fresh at_end
      ((lane (codes "a"), failing) ∷ (lane (codes "b"), busy) ∷ []) unserved

alone : retries context (lane (codes "a")) ≡ 0
alone = refl

own : is_own (threw broken_off) ≡ true
unfolding is_own
own = refl

try_candidate-IsResting_example : IsResting after (lane (codes "a")) 50500
try_candidate-IsResting_example =
    try_candidate-IsResting context fresh after (lane (codes "a")) failing false 50500 alone own
      left_behind (omega arith)

record_family_lem_example :
    In (codes "f") (
      live_families
        (record_family idle (codes "s") (codes "f") 1000 50000).histories
        (codes "s")
        1000
        50500)
    × (length (
          live_families
            (record_family idle (codes "s") (codes "f") 1000 50000).histories
            (codes "s")
            1000
            50500)
        ≤ 16)
    × (length (record_family idle (codes "s") (codes "f") 1000 50000).histories ≤ 1000)
record_family_lem_example =
    record_family_lem idle (codes "s") (codes "f") 1000 50000 50500 (omega arith)
