-- ===== src/Planner/Candidates.antt =====
-- routing-planner.mjs: the backends that a profile, a role, a catalog entry and the class policy
-- offer for one request.
use tokligence_gateway.Prelude.{
  ℕ, ◌+◌, Bool, true, false, not, ◌&&◌, List, [], ◌∷◌, Option, none, some, find, keep, ltb, leb,
  Text, codes, text_eq, truthy, or_else, includes, if◌then◌else◌,
}
use tokligence_gateway.Prelude.JsMap
use tokligence_gateway.Protocols.{Protocol, Features, Body}
use tokligence_gateway.Routes.{
  Config, Provider, Model, Reference, Profile, Role, provider_by_id, provider_enabled,
}
use tokligence_gateway.UpstreamModel.{normalize_upstream_model}
use tokligence_gateway.Planner.{
  Runtime, World, Candidate, CatalogRoute, Translation, circuit_open, cooldown_until,
  candidate_supports, translation_for, lane_open, is_translated, resolve_upstream_model,
  model_reference, or_number,
}

-- A list of the results that there are
unfoldable pub collect : {A : Type 0} → (A → Option Candidate) → List A → List Candidate
collect f [] = []
collect f (a ∷ rest) =
    let later = collect f rest in elim (f a) [ none ↦ later | some c ↦ c ∷ later ]

abbrev pub model_by_id : Provider → Text → Option Model
model_by_id p id = find (λ m. text_eq m.id id) p.models

abbrev model_family : Provider → Text → Option Text
model_family p id = elim (model_by_id p id) [ none ↦ none | some m ↦ m.family ]

abbrev pub profile_family : Provider → Reference → Option Text
profile_family p ref = or_else ref.family (or_else (model_family p ref.model) p.family)

abbrev pub is_new_family : List Text → Candidate → Bool
is_new_family seen c = elim (truthy c.family) [ none ↦ false | some f ↦ not (includes seen f) ]

abbrev pub or_all : List Candidate → List Candidate → List Candidate
or_all all [] = all
or_all all (c ∷ cs) = c ∷ cs

abbrev pub new_families : List Text → List Candidate → List Candidate
new_families [] candidates = candidates
new_families (f ∷ fs) candidates = or_all candidates (keep (is_new_family (f ∷ fs)) candidates)

abbrev pub agent_known : Option Text → Bool
agent_known none = true
agent_known (some t) =
    includes (codes "Explore" ∷ codes "fork" ∷ codes "teammate" ∷ codes "custom" ∷ []) t

abbrev pub class_known : Option Text → Bool
class_known none = false
class_known (some t) = includes (codes "subagent" ∷ codes "workflow" ∷ codes "auxiliary" ∷ []) t

abbrev pub number_or_zero : Option ℕ → ℕ
number_or_zero none = 0
number_or_zero (some n) = n

-- The window of the cheap model is known and no smaller than the profile's.
unfoldable pub window_safe : Provider → Model → Profile → Bool
window_safe p m profile =
    let window = number_or_zero (or_number m.context_window p.context_window) in
    let floor = number_or_zero profile.context_window in
    ltb 0 floor && ltb 0 window && leb floor window

module _ (w : World) (config : Config) (r : Runtime) (protocol : Protocol) (required : Features)
    (body : Body) where
  abbrev pub enabled : Provider → Bool
  enabled p = provider_enabled w.env w.has_access p

  abbrev pub lane : Provider → Translation
  lane p = translation_for p protocol

  -- The tests on one lane, but for its cooldown
  unfoldable pub serves : Provider → Reference → Bool
  serves p ref =
      enabled p
      && lane_open (lane p) p.adapter
      && candidate_supports p ref required body (is_translated (lane p))

  unfoldable pub admits : Provider → Reference → Bool
  admits p ref = serves p ref && not (circuit_open r p.id ref.model protocol w.now)

  abbrev pub lane_candidate : Provider → Text → Text → Option Text → Candidate
  lane_candidate p model upstream family = record {
    provider = p;
    model = model;
    upstream_model = upstream;
    protocol = protocol;
    native = not (is_translated (lane p));
    translated = is_translated (lane p);
    family = family;
    specialist = false;
  }

  -- One turn of the loop over a profile's candidates
  unfoldable pub profile_candidate : Reference → Option Candidate
  profile_candidate ref = elim (provider_by_id config ref.provider) [
    | none ↦ none
    | some p ↦
        if admits p ref
        then some
            (lane_candidate p ref.model (resolve_upstream_model p ref.model) (profile_family p ref))
        else none
  ]

  unfoldable pub profile_candidates : Profile → List Candidate
  profile_candidates profile = collect profile_candidate profile.candidates

  -- One turn of the loop over a role's candidates
  unfoldable pub role_candidate : Reference → Option Candidate
  role_candidate ref = elim (provider_by_id config ref.provider) [
    | none ↦ none
    | some p ↦ elim (model_by_id p ref.model) [
      | none ↦ none
      | some m ↦
          if admits p ref
          then some (lane_candidate p m.id (resolve_upstream_model p m.id) ref.family)
          else none
    ]
  ]

  unfoldable pub role_candidates : Role → List Candidate
  role_candidates role = collect role_candidate role.candidates

  -- The families that the session has seen lately
  unfoldable pub recent_families : Option Text → List Text
  recent_families identity = elim (truthy identity) [
    | none ↦ []
    | some k ↦ elim (JsMap.get r.histories k) [
      | none ↦ []
      | some h ↦ if ltb w.now (h.updated_at + w.history_ttl_ms) then h.families else []
    ]
  ]

  -- Candidates of families not seen lately, if there are any
  unfoldable pub diversify : Role → Option Text → List Candidate → List Candidate
  diversify role identity candidates =
      if role.avoid_recent_families
      then new_families (recent_families identity) candidates
      else candidates

  -- The loop over a catalog entry's routes: the candidates, and when the cooling ones resume.
  -- `none` is the error on a provider that the configuration does not have.
  unfoldable pub catalog_candidates : List CatalogRoute → Option (List Candidate × List ℕ)
  catalog_candidates [] = some ([], [])
  catalog_candidates (route ∷ rest) =
      let later = catalog_candidates rest in
      let ref = route.reference in
      elim (provider_by_id config ref.provider) [
        | none ↦ none
        | some p ↦ elim later [
          | none ↦ none
          | some (candidates, cooling) ↦
              let until = cooldown_until r p.id ref.model protocol in
              if serves p ref
              then (if ltb w.now until
                  then some (candidates, until ∷ cooling)
                  else some (
                    lane_candidate p ref.model (normalize_upstream_model p.id ref.model) none
                        ∷ candidates,
                    cooling,
                  ))
              else some (candidates, cooling)
        ]
      ]

  -- The second half of cheapClassCandidate, once the provider and the model are there
  unfoldable pub cheap_candidate : Profile → Provider → Model → Option Candidate
  cheap_candidate profile p m =
      if window_safe p m profile && admits p (model_reference p m)
      then some (lane_candidate p m.id m.id (or_else m.family p.family))
      else none

  unfoldable pub cheap_class_candidate : Profile → Option Text → Option Text → Option Candidate
  cheap_class_candidate profile request_class agent_type = elim config.class_routing [
    | none ↦ none
    | some policy ↦
        if policy.enabled && class_known request_class && agent_known agent_type
        then elim (provider_by_id config policy.cheap_provider) [
          | none ↦ none
          | some p ↦ elim (model_by_id p policy.cheap_model) [
            | none ↦ none
            | some m ↦ cheap_candidate profile p m
          ]
        ]
        else none
  ]
