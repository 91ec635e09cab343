-- ===== src/Planner/Direct.antt =====
-- routing-planner.mjs: the plan of a model id that names no profile and no role: a catalog entry's,
-- or the one of the single backend that the id names.
use tokligence_gateway.Prelude.{
  ℕ, Bool, true, false, not, ◌&&◌, List, [], ◌∷◌, Option, none, some, any, Text, codes, text_eq,
  or_else, if◌then◌else◌, lower_case,
}
use tokligence_gateway.Prelude.JsMap
use tokligence_gateway.Protocols.{protocol_eq, inspect_request_features}
use tokligence_gateway.FreeModels.{is_discovered_free}
use tokligence_gateway.UpstreamModel.{normalize_upstream_model, strip_first}
use tokligence_gateway.Routes.{Config, Provider, Model, provider_by_id}
use tokligence_gateway.Planner.{
  Runtime, World, Candidate, CatalogRoute, from_openai, candidate_supports, translation_for,
  is_translating, declared_protocols, resolve_upstream_model, no_overrides, model_reference,
}
use tokligence_gateway.Planner.Candidates.{catalog_candidates, model_by_id}
use tokligence_gateway.Planner.Plan.{
  Request, Code, not_verified_free, canonical_model_unavailable, model_routes_cooling_down,
  no_compatible_model_route, model_cannot_serve_messages, zen_unsupported_protocol, zen_unavailable,
  cline_chat_completions_only, Outcome, planned, refused, passed, crashed, refuse, enabled,
  make_plan, is_zen, is_cline, owns_sessions, least, retry_seconds,
}

-- The catalog entry of a model id that names no profile and no role
pub data CatalogEntry : Type 0 where
  denied : ℕ → Code → CatalogEntry
  no_entry : CatalogEntry
  entry : List CatalogRoute → CatalogEntry

module _ (w : World) (config : Config) where
  unfoldable pub finish_catalog : Request → List Candidate → List ℕ → Outcome
  finish_catalog q [] [] = refuse 400 no_compatible_model_route
  finish_catalog q [] (t ∷ ts) = refused (record {
    status = 503;
    code = model_routes_cooling_down;
    retry_after = some (retry_seconds (least ts t) w.now);
  })
  finish_catalog q (c ∷ cs) cooling = planned (make_plan w q q.model none (c ∷ cs))

  -- The plan of a catalog entry: its order is the catalog's, free before subscription before paid.
  unfoldable pub catalog_plan : Runtime → Request → List CatalogRoute → Outcome
  catalog_plan r q routes =
      elim (catalog_candidates w config r q.protocol (inspect_request_features q.protocol q.body)
        q.body routes) [
          | none ↦ crashed
          | some (candidates, cooling) ↦ finish_catalog q candidates cooling
        ]

  -- A single backend that the model id itself names
  abbrev single : Request → Provider → Text → Text → Bool → Option Text → Outcome
  single q p model upstream translated family = planned (
      make_plan w q q.model none (
        record {
          provider = p;
          model = model;
          upstream_model = upstream;
          protocol = q.protocol;
          native = not translated;
          translated = translated;
          family = family;
          specialist = false;
        }
        ∷ []))

  abbrev model_or : Provider → Text → Model
  model_or p id = elim (model_by_id p id) [
    | none ↦ record {
      id = id;
      context_window = none;
      family = none;
      parallel_tools = none;
      tools = none;
      vision = none;
      reasoning = none;
      structured_output = none;
    }
    | some m ↦ m
  ]

  translated_direct : Request → Provider → Outcome
  translated_direct q p =
      let m = model_or p (normalize_upstream_model p.id (resolve_upstream_model p q.model)) in
      if not (enabled w p)
      then passed
      else if candidate_supports p (model_reference p m)
          (inspect_request_features q.protocol q.body) q.body true
      then single q p m.id m.id true (or_else m.family p.family)
      else refuse 400 model_cannot_serve_messages

  abbrev zen_prefixes : List Text
  zen_prefixes = codes "opencode-zen/" ∷ codes "zen/" ∷ codes "oc/" ∷ []

  abbrev text_or : Option Text → Text → Text
  text_or none t = t
  text_or (some s) t = s

  zen_direct : Request → Provider → Outcome
  zen_direct q p =
      if not (any (protocol_eq q.protocol) (declared_protocols p.protocols))
      then refuse 400 zen_unsupported_protocol
      else if not (enabled w p)
      then refuse 503 zen_unavailable
      else single q p q.model (text_or (strip_first zen_prefixes q.model) q.model) false none

  cline_direct : Request → Provider → Outcome
  cline_direct q p =
      if any (protocol_eq q.protocol) (declared_protocols p.protocols)
      then single q p q.model q.model false none
      else refuse 400 cline_chat_completions_only

  abbrev wants_translation : Request → Provider → Bool
  wants_translation q p = elim (translation_for p q.protocol) [
    | from_openai ↦ is_translating p.adapter
    | _ ↦ false
  ]

  -- A model id that is neither a profile, nor a role, nor in the catalog
  unfoldable pub direct_plan : Request → Option Provider → Outcome
  unfolding translated_direct zen_direct cline_direct
  direct_plan q none = passed
  direct_plan q (some p) =
      if wants_translation q p
      then translated_direct q p
      else if is_zen p.adapter
      then zen_direct q p
      else if is_cline p.adapter
      then cline_direct q p
      else passed

  abbrev catalog_get : Runtime → Text → Option (List CatalogRoute)
  catalog_get r model = elim r.catalog [ none ↦ none | some m ↦ JsMap.get m (lower_case model) ]

  -- Messages and chat completions, which a directly named free model serves
  abbrev free_route : Request → Provider → List CatalogRoute
  free_route q p =
      record {
        reference = no_overrides p.id q.model none;
        supported_endpoints = codes "/v1/messages" ∷ codes "/v1/chat/completions" ∷ [];
      }
      ∷ []

  listed_entry : Runtime → Request → Option (List CatalogRoute) → CatalogEntry
  listed_entry r q (some routes) = entry routes
  listed_entry r q none =
      if (elim r.catalog [ none ↦ false | some m ↦ true ])
        && any (λ id. text_eq (lower_case id) (lower_case q.model)) config.canonical_models
      then denied 503 canonical_model_unavailable
      else no_entry

  abbrev is_free : Request → Provider → Bool
  is_free q p = is_discovered_free (w.registry p.id) q.model w.now

  find_entry : Runtime → Request → Option Provider → CatalogEntry
  unfolding listed_entry
  find_entry r q none = listed_entry r q (catalog_get r q.model)
  find_entry r q (some p) = elim (catalog_get r q.model) [
    | some routes ↦ entry routes
    | none ↦
        if is_zen p.adapter && p.discover_free_only
        then (if is_free q p then entry (free_route q p) else denied 403 not_verified_free)
        else listed_entry r q none
  ]

  -- A sole route under the model's own id stays with a lane that owns its sessions.
  abbrev owned_route : Request → CatalogRoute → Bool
  owned_route q route =
      text_eq (lower_case route.reference.model) (lower_case q.model)
      && (elim (provider_by_id config route.reference.provider) [
        | none ↦ false
        | some p ↦ owns_sessions p.adapter
      ])

  follow_entry : Runtime → Request → Option Provider → CatalogEntry → Outcome
  follow_entry r q direct (denied status code) = refuse status code
  follow_entry r q direct no_entry = direct_plan q direct
  follow_entry r q direct (entry (route ∷ [])) =
      if owned_route q route then direct_plan q direct else catalog_plan r q (route ∷ [])
  follow_entry r q direct (entry routes) = catalog_plan r q routes

  unfoldable pub unprofiled_plan : Runtime → Request → Option Provider → Outcome
  unfolding find_entry follow_entry
  unprofiled_plan r q direct = follow_entry r q direct (find_entry r q direct)
