-- ===== src/Planner/Evaluation.antt =====
-- routing-planner.mjs: what buildRoutePlan comes to, as a relation without a bound on the recursion.
use tokligence_gateway.Prelude.{
  ℕ, suc, ◌≡◌, refl, sym, subst, inl, inr, true, false, [], ◌∷◌, none, some, arith, In, find_sound,
  Bool-cases, Option-cases, Text,
}
use tokligence_gateway.Routes.{Config, Role, Profile, profile_by_model, role_by_model}
use tokligence_gateway.Planner.{Runtime, World}
use tokligence_gateway.Planner.Plan.{Request, Refusal, Outcome, refused}
use tokligence_gateway.Planner.Profile.{profile_plan}
use tokligence_gateway.Planner.Role.{
  role_plan, role_order, fallback_request, specialist_plan, finish_role, append_new, candidates_of,
}
use tokligence_gateway.Planner.Direct.{unprofiled_plan}
use tokligence_gateway.Planner.Build.{build_route_plan, by_name, early_answer, direct_provider}

-- The fallback of each role that is no specialist names a profile.
abbrev pub FallbacksAreProfiles : Config → Type 0
FallbacksAreProfiles config =
    (role : Role)
    → In role config.roles
    → role.specialist ≡ false
    → (p : Profile) × (profile_by_model config role.fallback ≡ some p)

pub role_by_model-In :
    (config : Config) (model : Text) (role : Role)
    → role_by_model config model ≡ some role
    → In role config.roles
unfolding role_by_model
role_by_model-In config [] role h = cc
role_by_model-In config (c ∷ t) role h = (find_sound _ config.roles role h).0

module _ (w : World) (config : Config) where
  pub by_name-profile :
      (build : Runtime → Request → Runtime × Outcome) (r : Runtime) (q : Request) (p : Profile)
      → profile_by_model config q.model ≡ some p
      → by_name w config build r q ≡ profile_plan w config r q p
  unfolding by_name
  by_name-profile build r q p h = ground arith

  pub by_name-role :
      (build : Runtime → Request → Runtime × Outcome) (r : Runtime) (q : Request) (role : Role)
      → profile_by_model config q.model ≡ none
      → role_by_model config q.model ≡ some role
      → by_name w config build r q ≡ role_plan w config build r q role
  unfolding by_name
  by_name-role build r q role h k = ground arith

  -- What planning comes to, with no bound on the fallbacks that are followed: the answer to a
  -- request that is refused early, the plan of a profile, of a specialist or of a single backend, or
  -- that of a role where its fallback comes to an outcome.
  pub data Plans : Runtime → Request → Runtime × Outcome → Type 0 where
    refused_early :
        (r : Runtime) (q : Request) (e : Refusal)
        → early_answer w config q ≡ some e
        → Plans r q (r, refused e)
    by_profile :
        (r : Runtime) (q : Request) (p : Profile)
        → early_answer w config q ≡ none
        → profile_by_model config q.model ≡ some p
        → Plans r q (profile_plan w config r q p)
    by_specialist :
        (r : Runtime) (q : Request) (role : Role)
        → early_answer w config q ≡ none
        → profile_by_model config q.model ≡ none
        → role_by_model config q.model ≡ some role
        → role.specialist ≡ true
        → Plans r q (r, specialist_plan w config q role)
    by_role :
        (r : Runtime) (q : Request) (role : Role) (fallback : Runtime × Outcome)
        → early_answer w config q ≡ none
        → profile_by_model config q.model ≡ none
        → role_by_model config q.model ≡ some role
        → role.specialist ≡ false
        → Plans (role_order w config r q role).0 (fallback_request q role) fallback
        → Plans r q (
          fallback.0,
          finish_role w config q role fallback.1
              (append_new (role_order w config r q role).1 (candidates_of fallback.1)),
        )
    by_backend :
        (r : Runtime) (q : Request)
        → early_answer w config q ≡ none
        → profile_by_model config q.model ≡ none
        → role_by_model config q.model ≡ none
        → Plans r q (r, unprofiled_plan w config r q (direct_provider w config q.model))

  pub build_route_plan-early :
      (n : ℕ) (r : Runtime) (q : Request) (e : Refusal)
      → early_answer w config q ≡ some e
      → Plans r q (build_route_plan w config (suc n) r q)
  unfolding build_route_plan
  build_route_plan-early n r q e h = rw (h, build_route_plan) (refused_early r q e h)

  pub build_route_plan-by_name :
      (n : ℕ) (r : Runtime) (q : Request)
      → early_answer w config q ≡ none
      → Plans r q (by_name w config (build_route_plan w config n) r q)
      → Plans r q (build_route_plan w config (suc n) r q)
  unfolding build_route_plan
  build_route_plan-by_name n r q h p = rw (h, build_route_plan) p

  build_route_plan-profile :
      (n : ℕ) (r : Runtime) (q : Request) (p : Profile)
      → profile_by_model config q.model ≡ some p
      → Plans r q (build_route_plan w config (suc n) r q)
  build_route_plan-profile n r q p found = elim (Option-cases (early_answer w config q)) [
    | inr (e, early) ↦ build_route_plan-early n r q e early
    | inl late ↦
        build_route_plan-by_name n r q late
          (subst (Plans r q) (sym (by_name-profile _ r q p found)) (by_profile r q p late found))
  ]

  role_plan-by_fallback :
      (build : Runtime → Request → Runtime × Outcome) (r : Runtime) (q : Request) (role : Role)
      (fallback : Runtime × Outcome)
      → role.specialist ≡ false
      → build (role_order w config r q role).0 (fallback_request q role) ≡ fallback
      → role_plan w config build r q role ≡ (
        fallback.0,
        finish_role w config q role fallback.1
            (append_new (role_order w config r q role).1 (candidates_of fallback.1)),
      )
  unfolding role_plan
  role_plan-by_fallback build r q role fallback general h = ground arith

  role_plan-Plans :
      (n : ℕ) (r : Runtime) (q : Request) (role : Role) (p : Profile)
      → early_answer w config q ≡ none
      → profile_by_model config q.model ≡ none
      → role_by_model config q.model ≡ some role
      → role.specialist ≡ false
      → profile_by_model config role.fallback ≡ some p
      → Plans r q (role_plan w config (build_route_plan w config (suc n)) r q role)
  role_plan-Plans n r q role p late no_profile found general named =
      subst (Plans r q)
        (sym (role_plan-by_fallback (build_route_plan w config (suc n)) r q role _ general refl))
        (by_role r q role _ late no_profile found general (
          build_route_plan-profile n (role_order w config r q role).0 (fallback_request q role) p
            named))

  role_plan-specialist :
      (build : Runtime → Request → Runtime × Outcome) (r : Runtime) (q : Request) (role : Role)
      → role.specialist ≡ true
      → role_plan w config build r q role ≡ (r, specialist_plan w config q role)
  unfolding role_plan
  role_plan-specialist build r q role special = ground arith

  by_name-backend :
      (build : Runtime → Request → Runtime × Outcome) (r : Runtime) (q : Request)
      → profile_by_model config q.model ≡ none
      → role_by_model config q.model ≡ none
      → by_name w config build r q
        ≡ (r, unprofiled_plan w config r q (direct_provider w config q.model))
  unfolding by_name
  by_name-backend build r q h k = ground arith

  pub by_name-Plans :
      (n : ℕ) (r : Runtime) (q : Request)
      → FallbacksAreProfiles config
      → early_answer w config q ≡ none
      → Plans r q (by_name w config (build_route_plan w config (suc n)) r q)
  by_name-Plans n r q valid late = elim (Option-cases (profile_by_model config q.model)) [
    | inr (p, found) ↦
        subst (Plans r q) (sym (by_name-profile _ r q p found)) (by_profile r q p late found)
    | inl no_profile ↦ elim (Option-cases (role_by_model config q.model)) [
      | inl no_role ↦
          subst (Plans r q) (sym (by_name-backend _ r q no_profile no_role))
            (by_backend r q late no_profile no_role)
      | inr (role, found) ↦
          subst (Plans r q) (sym (by_name-role _ r q role no_profile found))
            (elim (Bool-cases role.specialist) [
              | inl special ↦
                  subst (Plans r q) (sym (role_plan-specialist _ r q role special))
                    (by_specialist r q role late no_profile found special)
              | inr general ↦
                  let (p, named) =
                    valid role (role_by_model-In config q.model role found) general in
                  role_plan-Plans n r q role p late no_profile found general named
            ])
    ]
  ]
