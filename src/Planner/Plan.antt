-- ===== src/Planner/Plan.antt =====
-- routing-planner.mjs: requests, plans and refusals.
use tokligence_gateway.Prelude.{
  ℕ, ◌+◌, ◌-◌, ◌/◌, max, min, Bool, true, false, List, [], ◌∷◌, Option, none, any, Text, text_eq,
  length, lower_case,
}
use tokligence_gateway.Protocols.{Protocol, Features, Body, inspect_request_features}
use tokligence_gateway.Routes.{
  Adapter, cline_oauth, opencode_native, opencode_zen, oauth_proxy, Provider, Model,
  provider_enabled,
}
use tokligence_gateway.Planner.{World, Candidate}

pub record Request : Type 0 where
  pub model : Text
  pub protocol : Protocol
  pub body : Body
  pub request_class : Option Text
  pub agent_type : Option Text
  pub affinity_key : Option Text
  -- `none` if it is undefined: the affinity key then stands for it
  pub history_key : Option (Option Text)

pub record Plan : Type 0 where
  pub requested_model : Text
  pub public_model : Text
  pub profile : Option Text
  pub required : Features
  pub deadline : ℕ
  pub max_attempts : ℕ
  pub candidates : List Candidate

pub data Code : Type 0 where
  missing_model native_bridge_disabled native_model_not_declared paid_route_disabled
        not_verified_free canonical_model_unavailable model_routes_cooling_down
        no_compatible_model_route specialist_protocol_unsupported specialist_service_unavailable
        specialist_protocol_misconfigured no_compatible_role_route model_cannot_serve_messages
        zen_unsupported_protocol zen_unavailable cline_chat_completions_only no_compatible_route :
      Code

pub record Refusal : Type 0 where
  pub status : ℕ
  pub code : Code
  pub retry_after : Option ℕ

-- `refused` is `{ error }`; `bare` is an error that is returned itself, without that wrapping.
-- `passed` is null: another lane of the proxy takes the request. `crashed` is a TypeError.
pub data Outcome : Type 0 where
  planned : Plan → Outcome
  refused : Refusal → Outcome
  bare : Refusal → Outcome
  passed crashed : Outcome

abbrev pub refusal : ℕ → Code → Refusal
refusal status code = record { status = status; code = code; retry_after = none }

abbrev pub refuse : ℕ → Code → Outcome
refuse status code = refused (refusal status code)

abbrev pub is_empty : Text → Bool
is_empty [] = true
is_empty (c ∷ t) = false

abbrev pub is_native : Adapter → Bool
is_native opencode_native = true
is_native _ = false

abbrev pub is_zen : Adapter → Bool
is_zen opencode_zen = true
is_zen _ = false

abbrev pub is_cline : Adapter → Bool
is_cline cline_oauth = true
is_cline _ = false

-- The lanes that own their compaction and session caches
abbrev pub owns_sessions : Adapter → Bool
owns_sessions oauth_proxy = true
owns_sessions cline_oauth = true
owns_sessions _ = false

abbrev pub has_model : List Model → Text → Bool
has_model models id = any (λ m. text_eq (lower_case m.id) (lower_case id)) models

abbrev pub least : List ℕ → ℕ → ℕ
least [] m = m
least (n ∷ ns) m = least ns (min n m)

-- `Math.max(1, Math.ceil((until - now) / 1000))`
unfoldable pub retry_seconds : ℕ → ℕ → ℕ
retry_seconds until now = max 1 ((until - now + 999) / 1000)

abbrev pub enabled : World → Provider → Bool
enabled w p = provider_enabled w.env w.has_access p

-- The fields that every plan has alike
abbrev pub make_plan : World → Request → Text → Option Text → List Candidate → Plan
make_plan w q public profile candidates = record {
  requested_model = q.model;
  public_model = public;
  profile = profile;
  required = inspect_request_features q.protocol q.body;
  deadline = w.now + w.timeout_ms;
  max_attempts = length candidates;
  candidates = candidates;
}
