-- ===== src/AccountPool/Tests.antt =====
-- opencode-account-pool.mjs: runs of the pool, and the theorems at concrete inputs.
use tokligence_gateway.Prelude.{
  ℕ, ◌+◌, ◌≤◌, ◌≡◌, refl, ◌≢◌, ◌↔◌, inl, inr, true, false, List, [], ◌∷◌, Option, none, some, arith,
  Text, codes, text_eq, includes, keep, find, truthy, or_else, if_nullish, decimal, max,
}
use tokligence_gateway.Prelude.JsMap
use tokligence_gateway.FreeModels.{chat_allowed}
use tokligence_gateway.AccountPool.{
  Account, chat, World, Pool, Entry, absent, select, mark_success, mark_failure, create, eligible,
  model_eligible, is_candidate, preferred, prune_affinity, delay_ms, generation_of, cooling_until,
}
use tokligence_gateway.AccountPool.Config.{
  RawAccount, PoolProvider, configured_accounts, configure, accepted, shared_credential_file,
  distinct_files, oauth_file, PairwiseApart, configure-accepted_iff,
}
use tokligence_gateway.AccountPool.Selection.{IsCandidate, select-IsCandidate}
use tokligence_gateway.AccountPool.Cooldown.{
  doubled, mark_failure_lem, select-mark_failure, mark_success-mark_failure,
}
use tokligence_gateway.AccountPool.Affinity.{select-mark_success}
use tokligence_gateway.AccountPool.Reach.{Reach, start, next, fails, IsValid, Reach-IsValid}

abbrev account : Text → Account
account name = record {
  id = name;
  credential_file = some name;
  credential_file_env = none;
  token_url = none;
  client_id = none;
  refresh_skew_ms = none;
  api_key = false;
  api_key_env = [];
  discover_free_models = false;
  chat_models = codes "kimi" ∷ [];
  systemone_models = [];
}

abbrev world : World
world = record {
  env_set = λ name. false;
  has_credential = λ a. true;
  provider = record {
    discover_free_only = false;
    registry = record { snapshot = none; cached = none; in_flight = false };
  };
  clock = 0;
}

abbrev one : Account
one = account (codes "one")

abbrev two : Account
two = account (codes "two")

abbrev both : List Account
both = one ∷ two ∷ []

abbrev idle : Entry
idle = record { until = 0; failures = 0; generation = 0; diagnostic = none }

abbrev pool : Pool
pool = record { state = (codes "one", idle) ∷ (codes "two", idle) ∷ []; affinity = [] }

-- `one` failed at time 5, with no hint.
abbrev failed : Pool
failed = record {
  state =
      (codes "one", record { until = 5005; failures = 1; generation = 1; diagnostic = none })
      ∷ (codes "two", idle)
      ∷ [];
  affinity = [];
}

-- `two` served the session "s" at time 9.
abbrev served : Pool
served = record {
  state = pool.state;
  affinity = (codes "s", record { account_id = codes "two"; until = 3600009 }) ∷ [];
}

create-both : create both ≡ pool
unfolding create JsMap.set text_eq
create-both = refl

chosen_one : (select world both pool chat (codes "kimi") (codes "s") [] false 5).1 ≡ some one
unfolding select prune_affinity preferred is_candidate eligible model_eligible chat_allowed keep
    find JsMap.get text_eq includes JsMap.trim
chosen_one = refl

chosen_two : (select world both failed chat (codes "kimi") (codes "s") [] false 900).1 ≡ some two
unfolding select prune_affinity preferred is_candidate eligible model_eligible chat_allowed keep
    find JsMap.get text_eq includes JsMap.trim
chosen_two = refl

sticky_two : (select world both served chat (codes "kimi") (codes "s") [] false 900).1 ≡ some two
unfolding select prune_affinity preferred is_candidate eligible model_eligible chat_allowed keep
    find JsMap.get text_eq includes JsMap.trim
sticky_two = refl

one_fails : mark_failure pool one absent none 5 ≡ some failed
unfolding mark_failure delay_ms JsMap.get JsMap.set text_eq
one_fails = refl

two_serves : mark_success pool two (codes "s") 0 9 ≡ some served
unfolding mark_success prune_affinity JsMap.get JsMap.set JsMap.delete JsMap.trim text_eq
two_serves = refl

one_idle : JsMap.get pool.state one.id ≡ some idle
unfolding JsMap.get text_eq
one_idle = refl

generation_zero : generation_of pool (codes "one") ≡ some 0
unfolding generation_of JsMap.get text_eq
generation_zero = refl

generation_zero_two : generation_of pool (codes "two") ≡ some 0
unfolding generation_of JsMap.get text_eq
generation_zero_two = refl

two_able : eligible world two chat (codes "kimi") ≡ true
unfolding eligible model_eligible chat_allowed includes text_eq
two_able = refl

two_rested : cooling_until served (codes "two") ≤ 900
unfolding JsMap.get text_eq
two_rested = omega arith

two_fits : IsCandidate world both served chat (codes "kimi") [] false 900 two
unfolding includes
two_fits = record { listed = inr (inl refl); free = refl; able = two_able; rested = inr two_rested }

select-IsCandidate_example : IsCandidate world both pool chat (codes "kimi") [] false 5 one
select-IsCandidate_example =
    select-IsCandidate world both pool chat (codes "kimi") [] false 5 (codes "s") one chosen_one

mark_failure_lem_example :
    (5 + 1000 ≤ cooling_until failed one.id)
    × (cooling_until pool one.id ≤ cooling_until failed one.id)
    × (cooling_until failed one.id ≤ max (cooling_until pool one.id) (5 + 2592000000))
    × ((g : ℕ) → generation_of pool one.id ≡ some g → generation_of failed one.id ≡ some (g + 1))
    × ((id : Text) → id ≢ one.id → JsMap.get failed.state id ≡ JsMap.get pool.state id)
    × (failed.affinity ≡ pool.affinity)
mark_failure_lem_example = mark_failure_lem pool one absent none 5 failed one_fails

select-mark_failure_example : two.id ≢ one.id
select-mark_failure_example =
    select-mark_failure pool one absent none 5 world both chat (codes "kimi") (codes "s") [] 900
      5000 idle two failed one_fails one_idle (doubled 0 (omega arith)) (omega arith) chosen_two

mark_success-mark_failure_example : mark_success failed one (codes "s") 0 900 ≡ some failed
mark_success-mark_failure_example =
    mark_success-mark_failure pool one absent none 5 failed (codes "s") 0 900 generation_zero
      one_fails

select-mark_success_example :
    (b : Account) × ((select world both served chat (codes "kimi") (codes "s") [] false 900).1
      ≡ some b)
    × (b.id ≡ two.id)
select-mark_success_example =
    select-mark_success world both pool served two (codes "s") 0 9 900 chat (codes "kimi") [] false
      generation_zero_two two_serves (omega arith) two_fits

one_failed : Reach world both failed
one_failed = next start (fails {q = failed} one absent none 5 (inl refl) (rw create-both one_fails))

Reach-IsValid_example : IsValid both failed
Reach-IsValid_example = Reach-IsValid one_failed

abbrev raw : Option Text → RawAccount
raw file = record {
  id = none;
  credential_file = file;
  credential_file_env = none;
  token_url = none;
  client_id = none;
  refresh_skew_ms = none;
  discover_free_models = false;
  chat_models = [];
  systemone_models = [];
}

abbrev configured : List RawAccount → PoolProvider
configured accounts = record {
  credential_file = none;
  credential_file_env = none;
  token_url = none;
  client_id = none;
  refresh_skew_ms = none;
  models = [];
  accounts = accounts;
  api_keys = [];
}

shared :
    configure
      (λ name. none)
      (λ file. file)
      (configured (raw (some (codes "f")) ∷ raw (some (codes "f")) ∷ []))
    ≡ shared_credential_file
unfolding configure configured_accounts distinct_files oauth_file truthy if_nullish or_else includes
    text_eq decimal
shared = refl

configure-accepted_iff_example :
    (configure (λ name. none) (λ file. file) (configured (raw (some (codes "f")) ∷ []))
      ≡ accepted both)
    ↔ ((both ≡ configured_accounts (configured (raw (some (codes "f")) ∷ [])))
        × (2 ≤ 32)
        × PairwiseApart (λ name. none) (λ file. file) both)
configure-accepted_iff_example =
    configure-accepted_iff (λ name. none) (λ file. file) (configured (raw (some (codes "f")) ∷ []))
      both
