-- ===== src/Planner.antt =====
-- routing-planner.mjs: which backends may serve a request, and in which order they are tried. This
-- file has the data and the tests on one provider; its children have the orders, the candidates of
-- a profile, a role and a catalog entry, and the plan itself.
pub mod Ordering
pub mod Candidates
pub mod Plan
pub mod Profile
pub mod Role
pub mod Direct
pub mod Build
pub mod Support
pub mod Offered
pub mod Runnable
pub mod Serving
pub mod Class
pub mod Catalog
pub mod Retry
pub mod Appended
pub mod Fallback
pub mod Termination
pub mod Evaluation
mod Tests
use tokligence_gateway.Prelude.{
  ℕ, zero, suc, ◌+◌, ◌*◌, ◌-◌, ◌/◌, Bool, true, false, not, ◌&&◌, ◌||◌, List, [], ◌∷◌, ◌++◌, Option,
  none, some, any, find, ltb, leb, Text, codes, text_eq, strip_prefix, lower_case, drop, length,
  if◌then◌else◌,
}
use tokligence_gateway.Prelude.JsMap
use tokligence_gateway.Prelude.JsMap.{JsMap}
use tokligence_gateway.Protocols.{
  Protocol, chat_completions, responses, messages, unknown, protocol_eq, Body, Features,
  Capabilities, supports_features,
}
use tokligence_gateway.FreeModels.{Registry}
use tokligence_gateway.Routes.{
  Adapter, middleware, openai_compatible, cline_oauth, opencode_native, opencode_zen,
  chatgpt_responses, oauth_proxy, agy_native, other_adapter, Provider, Model, Reference,
  starts_with,
}

pub record Quota : Type 0 where
  pub available : Bool
  -- in thousandths of a percent
  pub used : Option ℕ

pub record StickyRoute : Type 0 where
  pub provider : Text
  pub model : Text
  pub updated_at : ℕ

pub record History : Type 0 where
  pub families : List Text
  pub updated_at : ℕ

pub record CatalogRoute : Type 0 where
  pub reference : Reference
  pub supported_endpoints : List Text

-- `runtimeState`; of a catalog entry the planner reads its routes.
pub record Runtime : Type 0 where
  pub cooldowns : JsMap ℕ
  pub affinity : JsMap StickyRoute
  pub quotas : JsMap Quota
  pub histories : JsMap History
  pub catalog : Option (JsMap (List CatalogRoute))
  pub misses : List Text

-- What a plan rests on outside the configuration and the runtime state.
pub record World : Type 0 where
  pub env : Text → Option Text
  pub has_access : Text → Bool
  -- The discovery state of the provider with the id
  pub registry : Text → Registry
  pub now : ℕ
  pub timeout_ms : ℕ
  pub affinity_ttl_ms : ℕ
  pub history_ttl_ms : ℕ

-- `${protocol}`
unfoldable pub protocol_name : Protocol → Text
protocol_name chat_completions = codes "chat_completions"
protocol_name responses = codes "responses"
protocol_name messages = codes "messages"
protocol_name (unknown t) = t

unfoldable pub cooldown_key : Text → Text → Protocol → Text
cooldown_key provider model protocol =
    provider ++ codes ":" ++ model ++ codes ":" ++ protocol_name protocol

unfoldable pub cooldown_until : Runtime → Text → Text → Protocol → ℕ
cooldown_until r provider model protocol =
    elim (JsMap.get r.cooldowns (cooldown_key provider model protocol)) [ none ↦ 0 | some t ↦ t ]

unfoldable pub circuit_open : Runtime → Text → Text → Protocol → ℕ → Bool
circuit_open r provider model protocol now = ltb now (cooldown_until r provider model protocol)

abbrev pub declared_protocols : List Protocol → List Protocol
declared_protocols [] = chat_completions ∷ []
declared_protocols (p ∷ ps) = p ∷ ps

unfoldable pub provider_capabilities : Provider → Capabilities
provider_capabilities p = record {
  protocols = declared_protocols p.protocols;
  streaming = not p.no_streaming;
  tools = p.tool_calling;
  parallel_tools = p.parallel_tools;
  structured_output = p.structured_output;
  reasoning = p.can_reason;
  vision = p.can_see;
}

-- `Math.ceil(bytes / 4)`
unfoldable pub request_token_estimate : Body → ℕ
request_token_estimate b = (b.bytes + 3) / 4

-- TRANSLATING_ADAPTERS
unfoldable pub is_translating : Adapter → Bool
is_translating middleware = true
is_translating openai_compatible = true
is_translating cline_oauth = true
is_translating opencode_native = true
is_translating _ = false

abbrev pub is_specialist_adapter : Adapter → Bool
is_specialist_adapter chatgpt_responses = true
is_specialist_adapter _ = false

unfoldable pub resolve_upstream_model : Provider → Text → Text
resolve_upstream_model p requested =
    let prefix = p.id ++ codes "/" in
    let bare = drop (length prefix) requested in
    if starts_with (lower_case prefix) (lower_case requested)
    then (if any (λ m. text_eq m.id bare) p.models then bare else requested)
    else requested

abbrev overridden : Option Bool → Bool → Bool
overridden none b = b
overridden (some b') b = b'

-- The provider's capabilities, with what the reference says of its model
unfoldable pub reference_capabilities : Provider → Reference → Capabilities
reference_capabilities p r =
    let c = provider_capabilities p in
    record c {
      parallel_tools = overridden r.parallel_tools c.parallel_tools;
      tools = overridden r.tools c.tools;
      vision = overridden r.vision c.vision;
      reasoning = overridden r.reasoning c.reasoning;
      structured_output = overridden r.structured_output c.structured_output;
    }

-- A translated lane serves the request's protocol on top of chat completions, without thinking.
unfoldable pub effective_features : Capabilities → Features → Bool → Features
effective_features c required false = required
effective_features c required true = record required {
  protocol =
      if any (protocol_eq required.protocol) c.protocols then required.protocol else messages;
  reasoning = false;
}

abbrev with_protocol : Capabilities → Protocol → Bool → Capabilities
with_protocol c p false = c
with_protocol c p true = record c { protocols = c.protocols ++ p ∷ [] }

-- `a || b` on numbers that may be undefined: zero is falsy.
abbrev pub or_number : Option ℕ → Option ℕ → Option ℕ
or_number none b = b
or_number (some zero) b = b
or_number (some (suc n)) b = some (suc n)

-- `!limit || estimate <= Number(limit)`
unfoldable pub fits_window : Option ℕ → ℕ → Bool
fits_window none estimate = true
fits_window (some zero) estimate = true
fits_window (some (suc n)) estimate = leb estimate (suc n)

unfoldable pub candidate_supports : Provider → Reference → Features → Body → Bool → Bool
candidate_supports p r required body translated =
    let c = reference_capabilities p r in
    let effective = effective_features c required translated in
    if is_specialist_adapter p.adapter
    then false
    else supports_features (with_protocol c effective.protocol translated) effective
      && fits_window (or_number r.context_window p.context_window) (request_token_estimate body)

pub data Translation : Type 0 where
  native from_openai unserved : Translation

unfoldable pub translation_for : Provider → Protocol → Translation
translation_for p protocol =
    let protocols = declared_protocols p.protocols in
    if any (protocol_eq protocol) protocols
    then native
    else if p.no_translation
    then unserved
    else if protocol_eq protocol messages && any (protocol_eq chat_completions) protocols
    then from_openai
    else unserved

-- `translate === null || (translate && !TRANSLATING_ADAPTERS.has(provider.adapter))`, negated
unfoldable pub lane_open : Translation → Adapter → Bool
lane_open native a = true
lane_open from_openai a = is_translating a
lane_open unserved a = false

abbrev pub is_translated : Translation → Bool
is_translated from_openai = true
is_translated _ = false

pub record Candidate : Type 0 where
  pub provider : Provider
  pub model : Text
  pub upstream_model : Text
  pub protocol : Protocol
  pub native : Bool
  pub translated : Bool
  pub family : Option Text
  pub specialist : Bool

-- A model of the configuration, read as a reference to it
abbrev pub model_reference : Provider → Model → Reference
model_reference p m = record {
  provider = p.id;
  model = m.id;
  family = m.family;
  context_window = m.context_window;
  parallel_tools = m.parallel_tools;
  tools = m.tools;
  vision = m.vision;
  reasoning = m.reasoning;
  structured_output = m.structured_output;
}

-- A reference that overrides no capability
abbrev pub no_overrides : Text → Text → Option ℕ → Reference
no_overrides provider model window = record {
  provider = provider;
  model = model;
  family = none;
  context_window = window;
  parallel_tools = none;
  tools = none;
  vision = none;
  reasoning = none;
  structured_output = none;
}
