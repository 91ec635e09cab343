-- ===== src/AccountPool.antt =====
-- opencode-account-pool.mjs: the pool of OpenCode accounts. Its two maps, the cooldown state of
-- each account and the session affinity, are a `Pool`; the accounts themselves never change and
-- are a parameter. The clock, `now()`, is an argument of each operation, in milliseconds. What the
-- operations read of the credential files and the environment is a parameter too.
pub mod Config
pub mod Selection
pub mod Cooldown
pub mod Affinity
pub mod Diagnostic
pub mod Reach
mod Tests
use tokligence_gateway.Prelude.{
  ℕ, ◌+◌, ◌-◌, ◌*◌, ◌^◌, min, max, Bool, true, false, not, ◌&&◌, ◌||◌, List, [], ◌∷◌, map, Option,
  none, some, length, keep, find, ltb, leb, ◌==◌, Text, text_eq, includes, if◌then◌else◌,
}
use tokligence_gateway.FreeModels.{ChatProvider, chat_allowed}
use tokligence_gateway.Prelude.JsMap
use tokligence_gateway.Prelude.JsMap.{JsMap}

abbrev pub max_sticky : ℕ
max_sticky = 4096

abbrev pub max_cooldown_ms : ℕ
max_cooldown_ms = 60 * 60 * 1000

abbrev pub max_retry_after_ms : ℕ
max_retry_after_ms = 30 * 24 * 60 * 60 * 1000

abbrev pub affinity_ms : ℕ
affinity_ms = 60 * 60 * 1000

pub data Endpoint : Type 0 where
  chat systemone : Endpoint

pub record Account : Type 0 where
  pub id : Text
  pub credential_file : Option Text
  pub credential_file_env : Option Text
  pub token_url : Option Text
  pub client_id : Option Text
  pub refresh_skew_ms : Option ℕ
  pub api_key : Bool
  pub api_key_env : Text
  pub discover_free_models : Bool
  pub chat_models : List Text
  pub systemone_models : List Text

-- What an account's eligibility rests on outside the pool.
pub record World : Type 0 where
  -- `Boolean(env[name])`
  pub env_set : Text → Bool
  -- `Boolean(readCredential(fileFor(account))?.access)`
  pub has_credential : Account → Bool
  -- The provider, and `Date.now()`, which the list of free models is read at
  pub provider : ChatProvider
  pub clock : ℕ

pub record Entry : Type 0 where
  pub until : ℕ
  pub failures : ℕ
  pub generation : ℕ
  pub diagnostic : Option Text

pub record Sticky : Type 0 where
  pub account_id : Text
  pub until : ℕ

pub record Pool : Type 0 where
  pub state : JsMap Entry
  pub affinity : JsMap Sticky

abbrev pub fresh : Entry
fresh = record { until = 0; failures = 0; generation = 0; diagnostic = none }

-- `new Map(accounts.map((account) => [account.id, { … }]))`
unfoldable pub initial_state : List Account → JsMap Entry → JsMap Entry
initial_state [] m = m
initial_state (a ∷ rest) m = initial_state rest (JsMap.set m a.id fresh)

unfoldable pub create : List Account → Pool
unfolding initial_state
create accounts = record { state = initial_state accounts []; affinity = [] }

-- The model rule of `eligible`, and of `modelEligible` in `diagnostic`.
unfoldable pub model_eligible : World → Account → Endpoint → Text → Bool
model_eligible w a chat model =
    if a.api_key
    then false
    else chat_allowed w.provider a.discover_free_models a.chat_models model w.clock
model_eligible w a systemone model =
    includes a.systemone_models model && (if a.api_key then w.env_set a.api_key_env else true)

-- eligible
unfoldable pub eligible : World → Account → Endpoint → Text → Bool
eligible w a endpoint model =
    model_eligible w a endpoint model && (if a.api_key then true else w.has_credential a)

-- An account id that the state does not know is read as undefined, on which the source throws;
-- the accounts that are filtered are the pool's own, so the default is never used.
abbrev pub cooling_until : Pool → Text → ℕ
cooling_until p id = elim (JsMap.get p.state id) [ none ↦ 0 | some e ↦ e.until ]

unfoldable pub drop_expired : ℕ → JsMap Sticky → JsMap Sticky
drop_expired at [] = []
drop_expired at ((k, s) ∷ m) =
    let rest = drop_expired at m in if leb s.until at then rest else (k, s) ∷ rest

-- pruneAffinity
unfoldable pub prune_affinity : ℕ → JsMap Sticky → JsMap Sticky
unfolding drop_expired
prune_affinity at m = JsMap.trim max_sticky (drop_expired at m)

-- The test of one account in `select`
unfoldable pub is_candidate : World → Pool → Endpoint → Text → List Text → Bool → ℕ → Account → Bool
is_candidate w p endpoint model exclude include_cooling at a =
    not (includes exclude a.id)
    && eligible w a endpoint model
    && (include_cooling || leb (cooling_until p a.id) at)

unfoldable pub preferred : JsMap Sticky → Text → ℕ → List Account → Option Account
preferred affinity key at candidates = elim (JsMap.get affinity key) [
  | none ↦ none
  | some s ↦ if ltb at s.until then find (λ a. text_eq a.id s.account_id) candidates else none
]

abbrev pub first : List Account → Option Account
first [] = none
first (a ∷ rest) = some a

-- select: the pool after its pruning, and the account chosen
unfoldable pub select :
    World
    → List Account
    → Pool
    → Endpoint
    → Text
    → Text
    → List Text
    → Bool
    → ℕ
    → Pool × Option Account
select w accounts p endpoint model key exclude include_cooling at =
    let affinity = prune_affinity at p.affinity in
    let candidates = keep (is_candidate w p endpoint model exclude include_cooling at) accounts in
    (
      record p { affinity = affinity },
      elim (preferred affinity key at candidates) [ some a ↦ some a | none ↦ first candidates ],
    )

-- The generation that a caller who passes none takes by default, and what an attempt remembers.
unfoldable pub generation_of : Pool → Text → Option ℕ
generation_of p id = elim (JsMap.get p.state id) [ none ↦ none | some e ↦ some e.generation ]

abbrev touch : JsMap Sticky → Text → Text → ℕ → JsMap Sticky
touch affinity key id at = JsMap.trim max_sticky (
    JsMap.set (JsMap.delete (prune_affinity at affinity) key) key
      (record { account_id = id; until = at + affinity_ms }))

-- markSuccess; `none` is the error on an account that the state does not know.
unfoldable pub mark_success : Pool → Account → Text → ℕ → ℕ → Option Pool
mark_success p a key generation at = elim (JsMap.get p.state a.id) [
  | none ↦ none
  | some current ↦
      if current.generation == generation
      then some (record {
        state =
            JsMap.set p.state a.id (record current { until = 0; failures = 0; diagnostic = none });
        affinity = touch p.affinity key a.id at;
      })
      else some p
]

-- `retryAfterMs` after `Number(…)`: absent (undefined, null, "" or no number), a number that is
-- not positive, a whole number of milliseconds, or infinite.
pub data RetryAfter : Type 0 where
  absent not_positive unbounded : RetryAfter
  millis : ℕ → RetryAfter

-- `delay`, where `failures` counts the one that has just happened
unfoldable pub delay_ms : RetryAfter → ℕ → ℕ
delay_ms absent failures = min (5000 * 2 ^ min (failures - 1) 4) max_cooldown_ms
delay_ms not_positive failures = 1000
delay_ms unbounded failures = max 1000 max_retry_after_ms
delay_ms (millis n) failures = max 1000 (min n max_retry_after_ms)

abbrev record_failure : Entry → RetryAfter → Option Text → ℕ → Entry
record_failure e retry diagnostic at =
    let resume = at + delay_ms retry (e.failures + 1) in
    record {
      until = max e.until resume;
      failures = e.failures + 1;
      generation = e.generation + 1;
      diagnostic = elim diagnostic [
        | none ↦ e.diagnostic
        | some d ↦ if leb e.until resume then some d else e.diagnostic
      ];
    }

-- markFailure
unfoldable pub mark_failure : Pool → Account → RetryAfter → Option Text → ℕ → Option Pool
mark_failure p a retry diagnostic at = elim (JsMap.get p.state a.id) [
  | none ↦ none
  | some e ↦
      some (record p { state = JsMap.set p.state a.id (record_failure e retry diagnostic at) })
]

-- markSessionFailure; the empty key is falsy.
unfoldable pub mark_session_failure : Pool → Text → Pool
mark_session_failure p [] = p
mark_session_failure p (c ∷ key) = record p { affinity = JsMap.delete p.affinity (c ∷ key) }

-- eligibleAccounts
unfoldable pub eligible_accounts : World → List Account → Endpoint → Text → List Text
eligible_accounts w accounts endpoint model =
    map (λ a. a.id) (keep (λ a. eligible w a endpoint model) accounts)

pub data Reason : Type 0 where
  is_eligible model_ineligible missing_credential excluded_after_failure cooldown : Reason

-- A row of `diagnostic`, without the slot number
unfoldable pub reason : World → Pool → Endpoint → Text → List Text → ℕ → Account → Reason
reason w p endpoint model exclude at a =
    if not (model_eligible w a endpoint model)
    then model_ineligible
    else if not a.api_key && not (w.has_credential a)
    then missing_credential
    else if includes exclude a.id
    then excluded_after_failure
    else if ltb 0 (cooling_until p a.id - at)
    then cooldown
    else is_eligible

-- `maxAttempts`, from `Number(config.max_attempts || maxAttempts)`
unfoldable pub max_attempts : ℕ → ℕ
max_attempts configured = max 1 (min configured 16)
