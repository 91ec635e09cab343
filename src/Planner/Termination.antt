-- ===== src/Planner/Termination.antt =====
-- routing-planner.mjs: buildRoutePlan follows a role to its fallback and no further, since
-- route-config.mjs lets a role fall back only to a profile. What a plan promises as a whole.
use tokligence_gateway.Prelude.{
  ℕ, suc, ◌+◌, ◌<◌, ◌≡◌, sym, subst, ap, ◌∙◌, inl, inr, false, List, ◌++◌, none, some, arith, In,
  length, Bool-cases, Option-cases, Text,
}
use tokligence_gateway.Routes.{Config, Reference, Role, Profile, profile_by_model, role_by_model}
use tokligence_gateway.Planner.{Runtime, World, Candidate}
use tokligence_gateway.Planner.Plan.{Request, Plan, Outcome, planned}
use tokligence_gateway.Planner.Profile.{profile_plan}
use tokligence_gateway.Planner.Role.{role_plan, role_order, fallback_request}
use tokligence_gateway.Planner.Build.{build_route_plan, by_name, early_answer}
use tokligence_gateway.Planner.Evaluation.{
  FallbacksAreProfiles, Plans, role_by_model-In, by_name-profile, by_name-role, by_name-Plans,
  build_route_plan-early, build_route_plan-by_name,
}
use tokligence_gateway.Planner.Serving.{MayTry, profile_plan-MayTry, profile_plan-bounds}
use tokligence_gateway.Planner.Fallback.{role_plan-MayTry}

module _ (w : World) (config : Config) where
  build-profile :
      (n m : ℕ) (r : Runtime) (q : Request) (p : Profile)
      → profile_by_model config q.model ≡ some p
      → build_route_plan w config (suc n) r q ≡ build_route_plan w config (suc m) r q
  unfolding build_route_plan
  build-profile n m r q p h =
      let a = by_name-profile w config (build_route_plan w config n) r q p h in
      let b = by_name-profile w config (build_route_plan w config m) r q p h in ground arith

  -- A role asks for the plan of its fallback, and for nothing else.
  role_plan-cong :
      (build other : Runtime → Request → Runtime × Outcome) (r : Runtime) (q : Request)
      (role : Role)
      → (role.specialist ≡ false
          → (r1 : Runtime)
          → build r1 (fallback_request q role) ≡ other r1 (fallback_request q role))
      → role_plan w config build r q role ≡ role_plan w config other r q role
  unfolding role_plan
  role_plan-cong build other r q role same = elim (Bool-cases role.specialist) [
    | inl t ↦ ground arith
    | inr f ↦ let e = same f (role_order w config r q role).0 in ground arith
  ]

  by_name-fuel :
      (n m : ℕ) (r : Runtime) (q : Request)
      → FallbacksAreProfiles config
      → by_name w config (build_route_plan w config (suc n)) r q
        ≡ by_name w config (build_route_plan w config (suc m)) r q
  unfolding by_name
  by_name-fuel n m r q valid = elim (Option-cases (profile_by_model config q.model)) [
    | inr (p, found) ↦
        by_name-profile w config _ r q p found ∙ sym (by_name-profile w config _ r q p found)
    | inl no_profile ↦ elim (Option-cases (role_by_model config q.model)) [
      | inl no_role ↦ ground arith
      | inr (role, found) ↦
          by_name-role w config _ r q role no_profile found
          ∙ role_plan-cong _ _ r q role (λ general r1.
            let (p, named) = valid role (role_by_model-In config q.model role found) general in
            build-profile n m r1 (fallback_request q role) p named)
          ∙ sym (by_name-role w config _ r q role no_profile found)
    ]
  ]

  build_route_plan-Plans :
      (n : ℕ) (r : Runtime) (q : Request)
      → FallbacksAreProfiles config
      → Plans w config r q (build_route_plan w config (suc (suc n)) r q)
  build_route_plan-Plans n r q valid = elim (Option-cases (early_answer w config q)) [
    | inr (e, early) ↦ build_route_plan-early w config (suc n) r q e early
    | inl late ↦
        build_route_plan-by_name w config (suc n) r q late (by_name-Plans w config n r q valid late)
  ]

  -- Planning follows at most one fallback: where each role that is no specialist falls back to a
  -- profile, as the configuration has to say, two steps or more give what planning comes to with no
  -- bound on the fallbacks, so planning ends, and more steps give the same as two.
  pub build_route_plan-fuel :
      (n : ℕ) (r : Runtime) (q : Request)
      → FallbacksAreProfiles config
      → Plans w config r q (build_route_plan w config (2 + n) r q)
        × (build_route_plan w config (2 + n) r q ≡ build_route_plan w config 2 r q)
  build_route_plan-fuel n r q valid = (
    subst (λ k. Plans w config r q (build_route_plan w config k r q)) (omega arith)
        (build_route_plan-Plans n r q valid),
    let e = by_name-fuel n 0 r q valid in unfold build_route_plan in ground arith,
  )

  build-planned :
      (n : ℕ) (r : Runtime) (q : Request) (plan : Plan)
      → (build_route_plan w config (suc n) r q).1 ≡ planned plan
      → (by_name w config (build_route_plan w config n) r q).1 ≡ planned plan
  unfolding build_route_plan
  build-planned n r q plan h = elim (Option-cases (early_answer w config q)) [
    | inl nothing ↦ ground arith
    | inr (e, early) ↦ absurd (ground arith)
  ]

  profile-MayTry :
      (n : ℕ) (r : Runtime) (q : Request) (p : Profile) (plan : Plan)
      → profile_by_model config q.model ≡ some p
      → (build_route_plan w config (suc n) r q).1 ≡ planned plan
      → (plan.max_attempts ≡ length plan.candidates)
        × (0 < plan.max_attempts)
        × ((c : Candidate) → In c plan.candidates → MayTry w config r q p.candidates c)
  profile-MayTry n r q p plan found h =
      let planned_here : (profile_plan w config r q p).1 ≡ planned plan =
        ap (λ (x : Runtime × Outcome). x.1) (sym (by_name-profile w config _ r q p found))
        ∙ build-planned n r q plan h in
      let (all, positive, few, fewer, deadline) =
        profile_plan-bounds w config r q p plan planned_here in
      (all, positive, profile_plan-MayTry w config r q p plan planned_here)

  -- The model id names a profile with these references, or a role that is no specialist, and they
  -- are its own and, behind them, those of the profile that it falls back to.
  pub data Refers (model : Text) : List Reference → Type 0 where
    profile_of : (p : Profile) → profile_by_model config model ≡ some p → Refers model p.candidates
    role_of :
        (role : Role) (p : Profile)
        → profile_by_model config model ≡ none
        → role_by_model config model ≡ some role
        → role.specialist ≡ false
        → profile_by_model config role.fallback ≡ some p
        → Refers model (role.candidates ++ p.candidates)

  -- A plan for the id of a profile, or of a role that is no specialist and falls back to a profile,
  -- has at least one candidate, and each of them may be tried for the request: it comes from one of
  -- the references of the profile, or of the role or its fallback, or is the class policy's model;
  -- its provider, which that reference names, is enabled and not cooling down for the reference's
  -- model, has for it each feature and the window that the request needs, and speaks the protocol,
  -- or takes Anthropic messages by translation, without thinking, where that is allowed.
  pub build_route_plan-MayTry :
      (r : Runtime) (q : Request) (plan : Plan) (refs : List Reference)
      → Refers q.model refs
      → (build_route_plan w config 2 r q).1 ≡ planned plan
      → (0 < length plan.candidates)
        × ((c : Candidate) → In c plan.candidates → MayTry w config r q refs c)
  build_route_plan-MayTry r q plan _ (profile_of p found) h =
      let (all, positive, each) = profile-MayTry 1 r q p plan found h in (omega arith, each)
  build_route_plan-MayTry r q plan _ (role_of role p no_profile found general named) h =
      let (all, positive, each) =
        role_plan-MayTry w config r q (build_route_plan w config 1) role p.candidates plan general
          (λ r1 fallback c planned_there i.
            (profile-MayTry 0 r1 (fallback_request q role) p fallback named planned_there).2 c i)
          (ap (λ (x : Runtime × Outcome). x.1)
              (sym (by_name-role w config _ r q role no_profile found))
            ∙ build-planned 1 r q plan h) in
      (omega arith, each)
