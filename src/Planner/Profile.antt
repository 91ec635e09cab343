-- ===== src/Planner/Profile.antt =====
-- routing-planner.mjs: the plan of a profile, with the class policy in front.
use tokligence_gateway.Prelude.{
  Bool, false, not, ◌&&◌, ◌||◌, List, [], ◌∷◌, ◌++◌, Option, none, some, keep, Text, codes, text_eq,
  includes, if◌then◌else◌, take,
}
use tokligence_gateway.Protocols.{inspect_request_features}
use tokligence_gateway.Routes.{Config, Profile}
use tokligence_gateway.Planner.{Runtime, World, Candidate}
use tokligence_gateway.Planner.Ordering.{reorder_by_quota, reorder_by_affinity}
use tokligence_gateway.Planner.Candidates.{profile_candidates, cheap_class_candidate, class_known}
use tokligence_gateway.Planner.Plan.{
  Request, no_compatible_route, Outcome, planned, refuse, make_plan,
}

abbrev pub differs : Candidate → Candidate → Bool
differs a b =
    not (text_eq b.provider.id a.provider.id) || not (text_eq b.upstream_model a.upstream_model)

-- The class policy's candidate goes first, once.
unfoldable pub put_first : Option Candidate → List Candidate → List Candidate
put_first none cs = cs
put_first (some c) cs = c ∷ keep (differs c) cs

module _ (w : World) (config : Config) where
  abbrev miss_key : Profile → Text → Text
  miss_key profile class = profile.id ++ codes ":" ++ class

  abbrev add_miss : List Text → Text → List Text
  add_miss misses key = if includes misses key then misses else misses ++ key ∷ []

  abbrev class_enabled : Bool
  class_enabled = elim config.class_routing [ none ↦ false | some policy ↦ policy.enabled ]

  unfoldable pub note_miss : Runtime → Profile → Option Text → Option Candidate → Runtime
  note_miss r profile class (some c) = r
  note_miss r profile none none = r
  note_miss r profile (some class) none =
      if class_enabled && class_known (some class)
      then record r { misses = add_miss r.misses (miss_key profile class) }
      else r

  unfoldable pub finish_profile : Request → Profile → Runtime → List Candidate → Runtime × Outcome
  finish_profile q profile r [] = (r, refuse 503 no_compatible_route)
  finish_profile q profile r (c ∷ cs) =
      (r, planned (make_plan w q profile.id (some profile.id) (c ∷ cs)))

  -- The candidates of a profile in the order in which they are tried, before the class policy
  unfoldable pub profile_order : Runtime → Request → Profile → Runtime × List Candidate
  profile_order r q profile =
      let found =
        profile_candidates w config r q.protocol (inspect_request_features q.protocol q.body) q.body
          profile in
      let (r', ordered) =
        reorder_by_affinity r q.affinity_key profile.id w.affinity_ttl_ms w.now
          (reorder_by_quota r found) in
      (r', take profile.max_attempts ordered)

  unfoldable pub class_candidate : Runtime → Request → Profile → Option Candidate
  class_candidate r q profile =
      cheap_class_candidate w config r q.protocol (inspect_request_features q.protocol q.body)
        q.body profile q.request_class q.agent_type

  unfoldable pub profile_plan : Runtime → Request → Profile → Runtime × Outcome
  unfolding finish_profile note_miss
  profile_plan r q profile =
      let (r', limited) = profile_order r q profile in
      let cheap = class_candidate r' q profile in
      finish_profile q profile (note_miss r' profile q.request_class cheap)
        (put_first cheap limited)
