-- ===== src/Planner/Role.antt =====
-- routing-planner.mjs: the plan of a role, with its fallback profile behind it.
use tokligence_gateway.Prelude.{
  ◌+◌, Bool, true, false, not, List, [], ◌∷◌, ◌++◌, Option, none, some, any, Text, codes, text_eq,
  if◌then◌else◌, take,
}
use tokligence_gateway.Protocols.{
  Protocol, responses, unknown, protocol_eq, inspect_request_features,
}
use tokligence_gateway.Routes.{Config, Provider, Reference, Role, provider_by_id}
use tokligence_gateway.Planner.{Runtime, World, Candidate}
use tokligence_gateway.Planner.Ordering.{reorder_by_quota, reorder_by_affinity}
use tokligence_gateway.Planner.Candidates.{role_candidates, diversify, model_by_id}
use tokligence_gateway.Planner.Plan.{
  Request, specialist_protocol_unsupported, specialist_service_unavailable,
  specialist_protocol_misconfigured, no_compatible_role_route, Outcome, planned, refused, bare,
  crashed, refuse, enabled, make_plan,
}

-- The candidates that are left out of the fallback because they come earlier
abbrev pub same_lane : Candidate → Candidate → Bool
same_lane a b =
    text_eq (a.provider.id ++ codes ":" ++ a.upstream_model)
      (b.provider.id ++ codes ":" ++ b.upstream_model)

unfoldable pub add_new : List Candidate → Candidate → List Candidate
add_new ordered c = if any (same_lane c) ordered then ordered else ordered ++ c ∷ []

unfoldable pub append_new : List Candidate → List Candidate → List Candidate
append_new ordered [] = ordered
append_new ordered (c ∷ rest) = append_new (add_new ordered c) rest

-- The fallback keeps the protocol, the body and the two keys, and has no class of its own.
abbrev pub fallback_request : Request → Role → Request
fallback_request q role = record q {
  model = role.fallback;
  request_class = none;
  agent_type = none;
}

abbrev pub candidates_of : Outcome → List Candidate
candidates_of (planned plan) = plan.candidates
candidates_of _ = []

-- What is returned where nothing is left; an error of the fallback is returned bare. A fallback
-- that is itself bare has no candidates to iterate over.
abbrev pub nothing_left : Outcome → Outcome
nothing_left (refused e) = bare e
nothing_left _ = refuse 503 no_compatible_role_route

module _ (w : World) (config : Config) where
  -- A specialist role has one backend and no fallback.
  specialist_model : Request → Role → Reference → Provider → Outcome
  specialist_model q role ref p = elim (model_by_id p ref.model) [
    | none ↦ crashed
    | some m ↦ planned (record {
      requested_model = m.id;
      public_model = role.id;
      profile = some role.id;
      required = inspect_request_features q.protocol q.body;
      deadline = w.now + w.timeout_ms;
      max_attempts = 1;
      candidates =
          record {
            provider = p;
            model = m.id;
            upstream_model = m.id;
            protocol = q.protocol;
            native = true;
            translated = false;
            family = ref.family;
            specialist = true;
          }
          ∷ [];
    })
  ]

  abbrev is_known : Protocol → Bool
  is_known (unknown t) = false
  is_known _ = true

  unfoldable pub specialist_plan : Request → Role → Outcome
  unfolding specialist_model
  specialist_plan q role = at_first role.candidates
    where
      with_provider : Reference → Option Provider → Outcome
      with_provider ref none = refuse 503 specialist_service_unavailable
      with_provider ref (some p) =
          if not (enabled w p)
          then refuse 503 specialist_service_unavailable
          else if any (protocol_eq responses) p.protocols
          then specialist_model q role ref p
          else refuse 503 specialist_protocol_misconfigured

      at_first : List Reference → Outcome
      at_first [] = crashed
      at_first (ref ∷ rest) =
          if is_known q.protocol
          then with_provider ref (provider_by_id config ref.provider)
          else refuse 400 specialist_protocol_unsupported

  unfoldable pub role_order : Runtime → Request → Role → Runtime × List Candidate
  role_order r q role =
      let found =
        role_candidates w config r q.protocol (inspect_request_features q.protocol q.body) q.body
          role in
      let identity : Option Text = elim q.history_key [ none ↦ q.affinity_key | some k ↦ k ] in
      let diverse =
        diversify w config r q.protocol (inspect_request_features q.protocol q.body) q.body role
          identity found in
      let (r', ordered) =
        reorder_by_affinity r q.affinity_key role.id w.affinity_ttl_ms w.now
          (reorder_by_quota r diverse) in
      (r', take role.max_attempts ordered)

  unfoldable pub finish_role : Request → Role → Outcome → List Candidate → Outcome
  finish_role q role crashed cs = crashed
  finish_role q role (bare e) cs = crashed
  finish_role q role fallback [] = nothing_left fallback
  finish_role q role fallback (c ∷ cs) = planned (make_plan w q role.id (some role.id) (c ∷ cs))

  unfoldable pub role_plan :
      (Runtime → Request → Runtime × Outcome) → Runtime → Request → Role → Runtime × Outcome
  unfolding finish_role
  role_plan build r q role =
      if role.specialist
      then (r, specialist_plan q role)
      else let (r1, ordered) = role_order r q role in
        let (r2, fallback) = build r1 (fallback_request q role) in
        (r2, finish_role q role fallback (append_new ordered (candidates_of fallback)))
