-- ===== src/Planner/Build.antt =====
-- routing-planner.mjs: buildRoutePlan. A plan comes with the runtime state that it leaves: a lapsed
-- affinity is deleted, and a miss of the class policy is noted once.
use tokligence_gateway.Prelude.{
  ℕ, zero, suc, Bool, false, not, ◌&&◌, ◌||◌, Option, none, some, Text, codes, text_eq,
  if◌then◌else◌, lower_case,
}
use tokligence_gateway.Routes.{
  Config, Provider, provider_by_id, profile_by_model, role_by_model, match_configured_provider,
  starts_with,
}
use tokligence_gateway.Planner.{Runtime, World}
use tokligence_gateway.Planner.Plan.{
  Request, missing_model, native_bridge_disabled, native_model_not_declared, paid_route_disabled,
  Refusal, Outcome, refused, crashed, refusal, enabled, is_empty, is_native, has_model,
}
use tokligence_gateway.Planner.Profile.{profile_plan}
use tokligence_gateway.Planner.Role.{role_plan}
use tokligence_gateway.Planner.Direct.{unprofiled_plan}

module _ (w : World) (config : Config) where
  abbrev provider_of : Option Text → Option Provider
  provider_of none = none
  provider_of (some id) = provider_by_id config id

  abbrev pub direct_provider : Text → Option Provider
  direct_provider model = provider_of (match_configured_provider config model)

  -- The checks that come before all lanes
  bridge_refusal : Request → Option Provider → Option Refusal
  bridge_refusal q none = none
  bridge_refusal q (some p) =
      if is_native p.adapter
      then (if not (enabled w p)
          then some (refusal 503 native_bridge_disabled)
          else if has_model p.models q.model
          then none
          else some (refusal 400 native_model_not_declared))
      else none

  abbrev free_only : Bool
  free_only = elim (provider_by_id config (codes "opencode-zen")) [
    | none ↦ false
    | some p ↦ p.discover_free_only
  ]

  abbrev is_go : Option Provider → Bool
  is_go none = false
  is_go (some p) = text_eq p.id (codes "opencode-go")

  paid_refusal : Request → Option Provider → Option Refusal
  paid_refusal q direct =
      if free_only
        && (is_go direct
            || starts_with (codes "opencode-go/") (lower_case q.model)
            || starts_with (codes "go/") (lower_case q.model))
      then some (refusal 403 paid_route_disabled)
      else none

  -- What is answered before the model id is looked up
  unfoldable pub early_answer : Request → Option Refusal
  unfolding bridge_refusal paid_refusal
  early_answer q =
      let direct = direct_provider q.model in
      if is_empty q.model
      then some (refusal 400 missing_model)
      else elim (bridge_refusal q direct) [ some e ↦ some e | none ↦ paid_refusal q direct ]

  -- A profile comes before a role, and both before the catalog and the single backends.
  unfoldable pub by_name :
      (Runtime → Request → Runtime × Outcome) → Runtime → Request → Runtime × Outcome
  by_name build r q = elim (profile_by_model config q.model) [
    | some profile ↦ profile_plan w config r q profile
    | none ↦ elim (role_by_model config q.model) [
      | some role ↦ role_plan w config build r q role
      | none ↦ (r, unprofiled_plan w config r q (direct_provider q.model))
    ]
  ]

  -- buildRoutePlan; the fuel counts the roles that are followed to their fallbacks.
  unfoldable pub build_route_plan : ℕ → Runtime → Request → Runtime × Outcome
  build_route_plan zero r q = (r, crashed)
  build_route_plan (suc fuel) r q =
      let named = by_name (build_route_plan fuel) r q in
      elim (early_answer q) [ some e ↦ (r, refused e) | none ↦ named ]
