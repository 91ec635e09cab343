-- ===== src/Planner/Tests.antt =====
-- routing-planner.mjs: plans for one configuration, and the theorems at concrete inputs.
mod Policies
use tokligence_gateway.Prelude.{
  ℕ, zero, suc, ◌+◌, ◌-◌, ◌*◌, ◌/◌, max, min, ◌≤◌, ◌<◌, ◌≡◌, ◌≢◌, refl, ◌↔◌, ◌⊎◌, inl, inr, Bool,
  true, false, not, ◌&&◌, ◌||◌, List, [], ◌∷◌, ◌++◌, Option, none, some, arith, Text, codes,
  text_eq, In, length, take, keep, any, find, truthy, or_else, includes, strip_prefix, lower_case,
  to_lower, sort_by, insert_by, IsDescending, drop,
}
use mathlib.Core.List.{Perm}
use tokligence_gateway.Prelude.JsMap
use tokligence_gateway.Prelude.JsMap.{JsMap}
use tokligence_gateway.FreeModels.Costs.{Json, text}
use tokligence_gateway.Protocols.{
  Protocol, chat_completions, messages, protocol_eq, Features, Body, inspect_request_features,
  supports_features, mentions_image, is_image_word,
}
use tokligence_gateway.Routes.{
  Adapter, openai_compatible, other_adapter, chatgpt_responses, CostClass, free, subscription,
  Provider, Model, Reference, Profile, Role, Config, ClassRouting, provider_by_id, profile_by_model,
  role_by_model, provider_enabled, env_enabled, starts_with, match_configured_provider,
  default_provider, match_route,
}
use tokligence_gateway.Planner.{
  Runtime, World, Candidate, StickyRoute, CatalogRoute, no_overrides, circuit_open, cooldown_until,
  cooldown_key, protocol_name, candidate_supports, translation_for, lane_open,
  reference_capabilities, provider_capabilities, effective_features, request_token_estimate,
  fits_window, is_translating, is_translated, resolve_upstream_model,
}
use tokligence_gateway.Planner.Candidates.{
  admits, serves, collect, profile_candidate, profile_candidates, lane_candidate, profile_family,
  role_candidate, role_candidates, cheap_candidate, cheap_class_candidate, window_safe,
  catalog_candidates, diversify, recent_families,
}
use tokligence_gateway.Planner.Ordering.{
  reorder_by_quota, reorder_by_affinity, quota_score, to_front, move_sticky, is_sticky,
  affinity_key, has_lapsed,
}
use tokligence_gateway.Planner.Plan.{Request, Plan, Outcome, planned, make_plan, retry_seconds}
use tokligence_gateway.Planner.Profile.{
  profile_plan, profile_order, class_candidate, put_first, finish_profile, note_miss, differs,
}
use tokligence_gateway.Planner.Serving.{
  MayTry, Offers, profile_plan-MayTry, profile_plan-bounds, profile_plan_total, profile_plan-class,
}
use tokligence_gateway.Planner.Class.{IsCheap}
use tokligence_gateway.Planner.Offered.{admits-IsOffered}

abbrev small_model : Model
small_model = record {
  id = codes "small";
  context_window = some 1000;
  family = none;
  parallel_tools = none;
  tools = none;
  vision = none;
  reasoning = none;
  structured_output = none;
}

abbrev provider : Text → Adapter → CostClass → Provider
provider name adapter class = record {
  id = name;
  adapter = adapter;
  is_default = false;
  enabled_env = none;
  api_key_env = none;
  internal_api_key_env = [];
  credential_file = none;
  credential_file_env = none;
  pool_accounts = [];
  pool_keys = [];
  protocols = [];
  no_translation = false;
  models = small_model ∷ [];
  discover_free_only = false;
  tool_calling = true;
  can_reason = false;
  can_see = false;
  no_streaming = false;
  parallel_tools = false;
  structured_output = false;
  context_window = none;
  cost_class = some class;
  family = none;
}

abbrev paid : Provider
paid = provider (codes "paid") openai_compatible subscription

abbrev gratis : Provider
gratis = provider (codes "gratis") openai_compatible free

abbrev ref_of : Text → Reference
ref_of name = no_overrides name (codes "small") (some 1000)

abbrev mix : Profile
mix = record {
  id = codes "mix";
  candidates = ref_of (codes "paid") ∷ ref_of (codes "gratis") ∷ [];
  max_attempts = 2;
  context_window = some 500;
}

abbrev helper : Role
helper = record {
  id = codes "role/help";
  candidates = ref_of (codes "paid") ∷ [];
  max_attempts = 1;
  fallback = codes "mix";
  specialist = false;
  avoid_recent_families = false;
}

abbrev config : Config
config = record {
  providers = paid ∷ gratis ∷ [];
  routes = [];
  profiles = mix ∷ [];
  roles = helper ∷ [];
  aliases = [];
  class_routing =
      some
        (record { enabled = true; cheap_provider = codes "gratis"; cheap_model = codes "small" });
  canonical_models = [];
}

abbrev runtime : Runtime
runtime = record {
  cooldowns = [];
  affinity = [];
  quotas = [];
  histories = [];
  catalog = none;
  misses = [];
}

abbrev world : World
world = record {
  env = λ name. none;
  has_access = λ file. false;
  registry = λ id. record { snapshot = none; cached = none; in_flight = false };
  now = 5000;
  timeout_ms = 120000;
  affinity_ttl_ms = 3600000;
  history_ttl_ms = 3600000;
}

abbrev body : Body
body = record {
  stream = true;
  parallel_tool_calls = false;
  tools = some 1;
  response_format = false;
  text_format = false;
  output_config_format = false;
  reasoning = false;
  thinking = false;
  output_config_effort = false;
  content = text (codes "hello");
  bytes = 80;
}

abbrev request : Text → Option Text → Request
request model class = record {
  model = model;
  protocol = messages;
  body = body;
  request_class = class;
  agent_type = none;
  affinity_key = none;
  history_key = none;
}

abbrev asked : Request
asked = request (codes "mix") none

abbrev lane_of : Provider → Candidate
lane_of p = record {
  provider = p;
  model = codes "small";
  upstream_model = codes "small";
  protocol = messages;
  native = false;
  translated = true;
  family = none;
  specialist = false;
}

-- Anthropic messages go to both lanes by translation, the free one first.
the_order :
    profile_order world config runtime asked mix ≡ (runtime, lane_of gratis ∷ lane_of paid ∷ [])
unfolding profile_order profile_candidates collect profile_candidate admits serves circuit_open
    cooldown_until cooldown_key protocol_name candidate_supports translation_for lane_open
    reference_capabilities provider_capabilities effective_features request_token_estimate
    fits_window is_translating resolve_upstream_model reorder_by_quota reorder_by_affinity
    quota_score provider_by_id provider_enabled env_enabled inspect_request_features
    supports_features mentions_image is_image_word protocol_eq text_eq any find truthy or_else
    JsMap.get sort_by insert_by take drop lower_case to_lower strip_prefix starts_with
the_order = refl

abbrev the_plan : Plan
the_plan =
    make_plan world asked (codes "mix") (some (codes "mix")) (lane_of gratis ∷ lane_of paid ∷ [])

plan_of_mix : (profile_plan world config runtime asked mix).1 ≡ planned the_plan
unfolding profile_plan finish_profile note_miss class_candidate cheap_class_candidate put_first
    profile_order profile_candidates collect profile_candidate admits serves circuit_open
    cooldown_until cooldown_key protocol_name candidate_supports translation_for lane_open
    reference_capabilities provider_capabilities effective_features request_token_estimate
    fits_window is_translating resolve_upstream_model reorder_by_quota reorder_by_affinity
    quota_score provider_by_id provider_enabled env_enabled inspect_request_features
    supports_features mentions_image is_image_word protocol_eq text_eq any find truthy or_else
    JsMap.get sort_by insert_by take drop lower_case to_lower strip_prefix starts_with
plan_of_mix = refl

-- A subagent's request goes to the cheap model first, which is then not tried again.
abbrev subagent : Request
subagent = request (codes "mix") (some (codes "subagent"))

class_of_subagent :
    class_candidate world config (profile_order world config runtime subagent mix).0 subagent mix
    ≡ some (lane_of gratis)
unfolding class_candidate cheap_class_candidate cheap_candidate window_safe includes profile_order
    profile_candidates collect profile_candidate admits serves circuit_open cooldown_until
    cooldown_key protocol_name candidate_supports translation_for lane_open reference_capabilities
    provider_capabilities effective_features request_token_estimate fits_window is_translating
    resolve_upstream_model reorder_by_quota reorder_by_affinity quota_score provider_by_id
    provider_enabled env_enabled inspect_request_features supports_features mentions_image
    is_image_word protocol_eq text_eq any find truthy or_else JsMap.get sort_by insert_by take drop
    lower_case to_lower strip_prefix starts_with
class_of_subagent = refl

profile_plan-bounds_example :
    (the_plan.max_attempts ≡ 2)
    × (0 < the_plan.max_attempts)
    × (the_plan.max_attempts ≤ 3)
    × (class_candidate world config (profile_order world config runtime asked mix).0 asked mix
          ≡ none
        → the_plan.max_attempts ≤ 2)
    × (the_plan.deadline ≡ 125000)
profile_plan-bounds_example =
    profile_plan-bounds world config runtime asked mix the_plan plan_of_mix

profile_plan-class_example :
    IsCheap world config
      (profile_order world config runtime subagent mix).0
      messages
      (inspect_request_features messages body)
      body
      mix
      (some (codes "subagent"))
      (lane_of gratis)
    × ((plan : Plan) × (rest : List Candidate) × ((profile_plan world config runtime subagent mix).1
          ≡ planned plan)
        × (plan.candidates ≡ lane_of gratis ∷ rest)
        × ((d : Candidate)
            → (In d rest
                → In d (profile_order world config runtime subagent mix).1
                  × (differs (lane_of gratis) d ≡ true))
              × (In d (profile_order world config runtime subagent mix).1
                  → differs (lane_of gratis) d ≡ true
                  → In d rest)))
profile_plan-class_example =
    profile_plan-class world config runtime subagent mix (lane_of gratis) class_of_subagent

paid_offered : Offers world config runtime asked paid (ref_of (codes "paid"))
unfolding profile_order profile_candidates collect profile_candidate admits serves circuit_open
    cooldown_until cooldown_key protocol_name candidate_supports translation_for lane_open
    reference_capabilities provider_capabilities effective_features request_token_estimate
    fits_window is_translating resolve_upstream_model reorder_by_quota reorder_by_affinity
    quota_score provider_by_id provider_enabled env_enabled inspect_request_features
    supports_features mentions_image is_image_word protocol_eq text_eq any find truthy or_else
    JsMap.get sort_by insert_by take drop lower_case to_lower strip_prefix starts_with
paid_offered =
    admits-IsOffered world config runtime messages (inspect_request_features messages body) body
      paid (ref_of (codes "paid")) refl

paid_known : provider_by_id config (codes "paid") ≡ some paid
unfolding provider_by_id find text_eq
paid_known = refl

profile_plan_total_example :
    (plan : Plan) × ((profile_plan world config runtime asked mix).1 ≡ planned plan)
profile_plan_total_example =
    profile_plan_total world config runtime asked mix (ref_of (codes "paid")) paid (omega arith)
      (inl refl) paid_known paid_offered
