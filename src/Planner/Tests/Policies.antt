-- ===== src/Planner/Tests/Policies.antt =====
-- routing-planner.mjs: catalog entries, roles, orders and whole plans of the same configuration.
use tokligence_gateway.Prelude.{
  ℕ, ◌≤◌, ◌<◌, ◌≡◌, refl, ◌⊎◌, inl, inr, true, false, List, [], ◌∷◌, ◌++◌, none, some, ◌==◌, codes,
  text_eq, In, length, take, keep, any, find, truthy, or_else, strip_prefix, lower_case, to_lower,
  sort_by, insert_by, drop,
}
use mathlib.Core.List.{Perm}
use tokligence_gateway.Prelude.JsMap
use tokligence_gateway.Prelude.JsMap.{JsMap}
use tokligence_gateway.Protocols.{
  protocol_eq, inspect_request_features, supports_features, mentions_image, is_image_word,
}
use tokligence_gateway.Routes.{
  Role, provider_by_id, profile_by_model, role_by_model, provider_enabled, env_enabled, starts_with,
  match_configured_provider,
}
use tokligence_gateway.Planner.{
  Runtime, Candidate, StickyRoute, CatalogRoute, circuit_open, cooldown_until, cooldown_key,
  protocol_name, candidate_supports, translation_for, lane_open, reference_capabilities,
  provider_capabilities, effective_features, request_token_estimate, fits_window, is_translating,
  resolve_upstream_model,
}
use tokligence_gateway.Planner.Candidates.{
  admits, serves, collect, profile_candidate, profile_candidates, role_candidate, role_candidates,
  cheap_class_candidate, catalog_candidates, diversify,
}
use tokligence_gateway.Planner.Ordering.{
  reorder_by_quota, reorder_by_affinity, quota_score, is_sticky, affinity_key, has_lapsed,
}
use tokligence_gateway.Planner.Plan.{Request, Plan, Outcome, planned, make_plan, retry_seconds}
use tokligence_gateway.Planner.Profile.{
  profile_plan, profile_order, class_candidate, put_first, finish_profile, note_miss,
}
use tokligence_gateway.Planner.Serving.{MayTry}
use tokligence_gateway.Planner.Tests.{
  paid, gratis, ref_of, mix, helper, config, runtime, world, request, asked, lane_of,
}
use tokligence_gateway.Planner.Plan.{Refusal, refused, bare, model_routes_cooling_down}
use tokligence_gateway.Planner.Direct.{catalog_plan, finish_catalog}
use tokligence_gateway.Planner.Retry.{at_time, catalog_plan-retry}
use tokligence_gateway.Planner.Role.{
  role_plan, role_order, candidates_of, append_new, add_new, finish_role,
}
use tokligence_gateway.Planner.Fallback.{role_plan-fallback}
use tokligence_gateway.Planner.Build.{build_route_plan, by_name, early_answer}
use tokligence_gateway.Planner.Evaluation.{FallbacksAreProfiles, Plans}
use tokligence_gateway.Planner.Termination.{role_of, build_route_plan-fuel, build_route_plan-MayTry}
use tokligence_gateway.Planner.Ordering.{reorder_by_affinity_lem}
use tokligence_gateway.Planner.Ordering.Preference.{Precedes, reorder_by_quota_lem}
use tokligence_gateway.UpstreamModel.{normalize_upstream_model}

abbrev route : CatalogRoute
route = record {
  reference = ref_of (codes "paid");
  supported_endpoints = codes "/v1/messages" ∷ [];
}

-- The lane cools down for another 2.5 seconds.
abbrev cooling : Runtime
cooling = record runtime { cooldowns = (codes "paid:small:messages", 7500) ∷ [] }

abbrev wait : Refusal
wait = record { status = 503; code = model_routes_cooling_down; retry_after = some 3 }

refused_for_cooling : catalog_plan world config cooling asked (route ∷ []) ≡ refused wait
unfolding catalog_plan finish_catalog catalog_candidates retry_seconds profile_order
    profile_candidates collect profile_candidate admits serves circuit_open cooldown_until
    cooldown_key protocol_name candidate_supports translation_for lane_open reference_capabilities
    provider_capabilities effective_features request_token_estimate fits_window is_translating
    resolve_upstream_model reorder_by_quota reorder_by_affinity quota_score provider_by_id
    provider_enabled env_enabled inspect_request_features supports_features mentions_image
    is_image_word protocol_eq text_eq any find truthy or_else JsMap.get sort_by insert_by take drop
    lower_case to_lower strip_prefix starts_with
refused_for_cooling = refl

catalog_plan-retry_example :
    (1 ≤ 3)
    × ((plan : Plan) × (catalog_plan (at_time world 8000) config cooling asked (route ∷ [])
          ≡ planned plan))
catalog_plan-retry_example =
    catalog_plan-retry world config cooling asked (route ∷ []) wait 3 refused_for_cooling refl

abbrev listed_plan : Plan
listed_plan = make_plan world asked (codes "mix") none (lane_of paid ∷ [])

planned_from_catalog : catalog_plan world config runtime asked (route ∷ []) ≡ planned listed_plan
unfolding catalog_plan finish_catalog catalog_candidates normalize_upstream_model profile_order
    profile_candidates collect profile_candidate admits serves circuit_open cooldown_until
    cooldown_key protocol_name candidate_supports translation_for lane_open reference_capabilities
    provider_capabilities effective_features request_token_estimate fits_window is_translating
    resolve_upstream_model reorder_by_quota reorder_by_affinity quota_score provider_by_id
    provider_enabled env_enabled inspect_request_features supports_features mentions_image
    is_image_word protocol_eq text_eq any find truthy or_else JsMap.get sort_by insert_by take drop
    lower_case to_lower strip_prefix starts_with
planned_from_catalog = refl

abbrev to_helper : Request
to_helper = request (codes "role/help") none

fallbacks : FallbacksAreProfiles config
unfolding profile_by_model lower_case to_lower find text_eq
fallbacks role (inl e) general = (mix, rw e refl)
fallbacks role (inr other) general = absurd other

build_route_plan-fuel_example :
    Plans world config runtime to_helper (build_route_plan world config 5 runtime to_helper)
    × (build_route_plan world config 5 runtime to_helper
        ≡ build_route_plan world config 2 runtime to_helper)
build_route_plan-fuel_example = build_route_plan-fuel world config 3 runtime to_helper fallbacks

abbrev helper_plan : Plan
helper_plan =
    make_plan world to_helper (codes "role/help") (some (codes "role/help"))
      (lane_of paid ∷ lane_of gratis ∷ [])

planned_for_helper : (build_route_plan world config 2 runtime to_helper).1 ≡ planned helper_plan
unfolding build_route_plan by_name early_answer profile_by_model role_by_model
    match_configured_provider role_plan role_order role_candidates role_candidate diversify
    append_new add_new finish_role profile_plan finish_profile note_miss class_candidate
    cheap_class_candidate put_first profile_order profile_candidates collect profile_candidate
    admits serves circuit_open cooldown_until cooldown_key protocol_name candidate_supports
    translation_for lane_open reference_capabilities provider_capabilities effective_features
    request_token_estimate fits_window is_translating resolve_upstream_model reorder_by_quota
    reorder_by_affinity quota_score provider_by_id provider_enabled env_enabled
    inspect_request_features supports_features mentions_image is_image_word protocol_eq text_eq any
    find truthy or_else JsMap.get sort_by insert_by take drop lower_case to_lower strip_prefix
    starts_with
planned_for_helper = refl

helper_named : profile_by_model config (codes "role/help") ≡ none
unfolding profile_by_model lower_case to_lower find text_eq
helper_named = refl

mix_named : profile_by_model config helper.fallback ≡ some mix
unfolding profile_by_model lower_case to_lower find text_eq
mix_named = refl

helper_role : role_by_model config (codes "role/help") ≡ some helper
unfolding role_by_model lower_case to_lower find text_eq
helper_role = refl

build_route_plan-MayTry_example :
    (0 < 2)
    × ((c : Candidate)
        → In c helper_plan.candidates
        → MayTry world config runtime to_helper (helper.candidates ++ mix.candidates) c)
build_route_plan-MayTry_example =
    build_route_plan-MayTry world config runtime to_helper helper_plan
      (helper.candidates ++ mix.candidates)
      (role_of helper mix helper_named helper_role refl mix_named) planned_for_helper

-- A role whose fallback is refused, where its own lane is of no use either
abbrev useless : Role
useless = record helper { candidates = [] }

abbrev refuses : Runtime → Request → Runtime × Outcome
refuses r q = (r, refused wait)

useless_order : (role_order world config runtime to_helper useless).1 ≡ []
unfolding role_order role_candidates diversify profile_order profile_candidates collect
    provider_by_id inspect_request_features reorder_by_quota reorder_by_affinity truthy sort_by take
useless_order = refl

role_plan-fallback_example :
    (((0 < length (role_order world config runtime to_helper useless).1)
        ⊎ (0 < length (candidates_of (refused wait))))
      → (plan : Plan) × (extra : List Candidate) × ((role_plan world config refuses runtime
            to_helper useless).1
          ≡ planned plan)
        × (plan.candidates ≡ (role_order world config runtime to_helper useless).1 ++ extra)
        × ((c : Candidate) → In c extra → In c (candidates_of (refused wait))))
    × ((e : Refusal)
        → (role_order world config runtime to_helper useless).1 ≡ []
        → refused wait ≡ refused e
        → (role_plan world config refuses runtime to_helper useless).1 ≡ bare e)
role_plan-fallback_example =
    role_plan-fallback world config runtime to_helper refuses useless refl (λ e. cc) (λ e q. cc)

-- The error of the fallback comes back bare.
bare_error : (role_plan world config refuses runtime to_helper useless).1 ≡ bare wait
bare_error = role_plan-fallback_example.1 wait useless_order refl

reorder_by_quota_lem_example :
    Perm
      (reorder_by_quota runtime (lane_of paid ∷ lane_of gratis ∷ []))
      (lane_of paid ∷ lane_of gratis ∷ [])
    × ((before after : List Candidate) (c d : Candidate)
        → reorder_by_quota runtime (lane_of paid ∷ lane_of gratis ∷ []) ≡ before ++ d ∷ after
        → In c after
        → ¬ Precedes runtime c d)
    × ((n : ℕ)
        → keep
            (λ c. quota_score runtime c == n)
            (reorder_by_quota runtime (lane_of paid ∷ lane_of gratis ∷ []))
          ≡ keep (λ c. quota_score runtime c == n) (lane_of paid ∷ lane_of gratis ∷ []))
reorder_by_quota_lem_example = reorder_by_quota_lem runtime (lane_of paid ∷ lane_of gratis ∷ [])

abbrev sticky : StickyRoute
sticky = record { provider = codes "paid"; model = codes "small"; updated_at = 4000 }

abbrev remembered : Runtime
remembered = record runtime { affinity = (codes "s1:mix", sticky) ∷ [] }

remembered_route :
    JsMap.get remembered.affinity (affinity_key (codes "s1") (codes "mix")) ≡ some sticky
unfolding JsMap.get affinity_key text_eq
remembered_route = refl

session_named : truthy (some (codes "s1")) ≡ some (codes "s1")
unfolding truthy
session_named = refl

reorder_by_affinity_lem_example :
    ((has_lapsed sticky 3600000 5000 ≡ false)
      → (c : Candidate) → In c (lane_of gratis ∷ lane_of paid ∷ [])
      → is_sticky sticky c ≡ true
      → (d : Candidate) × (rest : List Candidate) × ((reorder_by_affinity remembered
            (some (codes "s1"))
            (codes "mix")
            3600000
            5000
            (lane_of gratis ∷ lane_of paid ∷ [])).1
          ≡ d ∷ rest)
        × (is_sticky sticky d ≡ true))
    × ((has_lapsed sticky 3600000 5000 ≡ true)
        → ((reorder_by_affinity remembered
              (some (codes "s1"))
              (codes "mix")
              3600000
              5000
              (lane_of gratis ∷ lane_of paid ∷ [])).1
            ≡ lane_of gratis ∷ lane_of paid ∷ [])
          × (JsMap.get
                (reorder_by_affinity remembered
                  (some (codes "s1"))
                  (codes "mix")
                  3600000
                  5000
                  (lane_of gratis ∷ lane_of paid ∷ [])).0.affinity
                (affinity_key (codes "s1") (codes "mix"))
              ≡ none))
reorder_by_affinity_lem_example =
    reorder_by_affinity_lem remembered (codes "s1") (codes "mix") 3600000 5000
      (lane_of gratis ∷ lane_of paid ∷ []) sticky session_named remembered_route
