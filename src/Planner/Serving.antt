-- ===== src/Planner/Serving.antt =====
-- routing-planner.mjs: what the plan of a profile promises.
use tokligence_gateway.Prelude.{
  suc, ◌+◌, ◌≤◌, ◌<◌, ◌≡◌, refl, sym, ap, inl, inr, ◌⊎◌, subst, true, List, [], ◌∷◌, Option, none,
  some, arith, In, In-take, In-keep, keep, keep_complete, length, length-keep-le, length-take-le,
  length-take-positive,
}
use tokligence_gateway.Protocols.{inspect_request_features}
use tokligence_gateway.Routes.{Config, Provider, Reference, Profile, provider_by_id}
use tokligence_gateway.Planner.{Runtime, World, Candidate}
use tokligence_gateway.Planner.Candidates.{profile_candidate, profile_candidates}
use tokligence_gateway.Planner.Ordering.Members.{reorder-In, reorder_by_affinity-cooldowns}
use tokligence_gateway.Planner.Offered.{IsOffered, translates, admits_complete}
use tokligence_gateway.Planner.Runnable.{
  IsRunnable, IsRunnable-cooldowns, IsRunnable-references, profile_candidates-IsRunnable,
  profile_candidate-offered, collect_complete,
}
use tokligence_gateway.Planner.Plan.{Request, Plan, planned, make_plan}
use tokligence_gateway.Planner.Profile.{
  profile_plan, profile_order, class_candidate, put_first, differs, finish_profile,
}
use tokligence_gateway.Planner.Class.{IsCheap, cheap_class_candidate-IsCheap}

module _ (w : World) (config : Config) (r : Runtime) (q : Request) where
  -- The candidate may be tried for the request, as one of the references or as the class policy's.
  abbrev pub MayTry : List Reference → Candidate → Type 0
  MayTry refs c =
      IsRunnable w config r q.protocol (inspect_request_features q.protocol q.body) q.body refs c

  order_In :
      (profile : Profile) (c : Candidate)
      → In c (profile_order w config r q profile).1
      → In c (
          profile_candidates w config r q.protocol
            (inspect_request_features q.protocol q.body)
            q.body
            profile)
  unfolding profile_order
  order_In profile c m =
      (reorder-In r q.affinity_key profile.id w.affinity_ttl_ms w.now
          (profile_candidates w config r q.protocol (inspect_request_features q.protocol q.body)
            q.body profile)
          c).0
        (In-take profile.max_attempts c _ m)

  -- Every candidate of a profile's order may be tried.
  order-MayTry :
      (profile : Profile) (c : Candidate)
      → In c (profile_order w config r q profile).1
      → MayTry profile.candidates c
  order-MayTry profile c m =
      profile_candidates-IsRunnable w config r q.protocol _ q.body profile c (order_In profile c m)

  put_first-In :
      (o : Option Candidate) (c : Candidate) (cs : List Candidate)
      → In c (put_first o cs)
      → (o ≡ some c) ⊎ In c cs
  unfolding put_first
  put_first-In none c cs m = inr m
  put_first-In (some d) c cs (inl e) = inl (ap some (sym e))
  put_first-In (some d) c cs (inr m) = inr (In-keep _ c cs m).0

  order-cooldowns :
      (profile : Profile) → (profile_order w config r q profile).0.cooldowns ≡ r.cooldowns
  unfolding profile_order
  order-cooldowns profile =
      reorder_by_affinity-cooldowns r q.affinity_key profile.id w.affinity_ttl_ms w.now _

  class_candidate-IsCheap :
      (r' : Runtime) (profile : Profile) (c : Candidate)
      → class_candidate w config r' q profile ≡ some c
      → IsCheap w config r' q.protocol
          (inspect_request_features q.protocol q.body)
          q.body
          profile
          q.request_class
          c
  unfolding class_candidate
  class_candidate-IsCheap r' profile c h =
      cheap_class_candidate-IsCheap w config r' q.protocol _ q.body profile q.request_class
        q.agent_type c h

  class_candidate-MayTry :
      (profile : Profile) (c : Candidate)
      → class_candidate w config (profile_order w config r q profile).0 q profile ≡ some c
      → MayTry profile.candidates c
  class_candidate-MayTry profile c h =
      let r' = (profile_order w config r q profile).0 in
      IsRunnable-cooldowns w config r r' q.protocol _ q.body profile.candidates c
        (order-cooldowns profile)
        (IsRunnable-references w config r' q.protocol _ q.body [] profile.candidates c
          (λ ref i. absurd i) (class_candidate-IsCheap r' profile c h).runnable)

  -- The candidates of a profile in the order in which they are tried
  abbrev pub tried : Profile → List Candidate
  tried profile =
      put_first (class_candidate w config (profile_order w config r q profile).0 q profile)
        (profile_order w config r q profile).1

  finish_profile-planned :
      (profile : Profile) (r1 : Runtime) (cs : List Candidate) (plan : Plan)
      → (finish_profile w config q profile r1 cs).1 ≡ planned plan
      → (plan ≡ make_plan w q profile.id (some profile.id) cs) × (0 < length cs)
  unfolding finish_profile
  finish_profile-planned profile r1 [] plan h = cc
  finish_profile-planned profile r1 (c ∷ cs) plan h = (cc, omega arith)

  finish_profile_total :
      (profile : Profile) (r1 : Runtime) (cs : List Candidate)
      → 0 < length cs
      → (finish_profile w config q profile r1 cs).1
        ≡ planned (make_plan w q profile.id (some profile.id) cs)
  unfolding finish_profile
  finish_profile_total profile r1 [] h = absurd (omega arith)
  finish_profile_total profile r1 (c ∷ cs) h = refl

  profile_plan-planned :
      (profile : Profile) (plan : Plan)
      → (profile_plan w config r q profile).1 ≡ planned plan
      → (plan ≡ make_plan w q profile.id (some profile.id) (tried profile))
        × (0 < length (tried profile))
  unfolding profile_plan
  profile_plan-planned profile plan h = finish_profile-planned profile _ (tried profile) plan h

  tried-MayTry :
      (profile : Profile) (c : Candidate) → In c (tried profile) → MayTry profile.candidates c
  tried-MayTry profile c m = elim (put_first-In _ c _ m) [
    | inl cheap ↦ class_candidate-MayTry profile c cheap
    | inr there ↦ order-MayTry profile c there
  ]

  -- If a profile gives a plan, each of its candidates is a provider of the configuration that is
  -- enabled and not cooling down for the model, and that is able to serve the request, by
  -- translation only where its adapter translates and the provider allows it.
  pub profile_plan-MayTry :
      (profile : Profile) (plan : Plan)
      → (profile_plan w config r q profile).1 ≡ planned plan
      → (c : Candidate) → In c plan.candidates
      → MayTry profile.candidates c
  profile_plan-MayTry profile plan h c m =
      tried-MayTry profile c
        (subst (In c) (ap (λ (x : Plan). x.candidates) (profile_plan-planned profile plan h).0) m)

  length-put_first :
      (o : Option Candidate) (cs : List Candidate)
      → (length cs ≤ length (put_first o cs) ⊎ (0 < length (put_first o cs)))
        × (length (put_first o cs) ≤ suc (length cs))
  unfolding put_first
  length-put_first none cs = (inl (omega arith), omega arith)
  length-put_first (some c) cs = (inr (omega arith), omega (arith, length-keep-le (differs c) cs))

  length-order :
      (profile : Profile) → length (profile_order w config r q profile).1 ≤ profile.max_attempts
  unfolding profile_order
  length-order profile = length-take-le profile.max_attempts _

  length-put_first-none :
      (o : Option Candidate) (cs : List Candidate) → o ≡ none → length (put_first o cs) ≤ length cs
  unfolding put_first
  length-put_first-none none cs h = omega arith
  length-put_first-none (some c) cs h = cc

  -- A plan of a profile has at least one candidate, and no more than the profile allows attempts, or
  -- one more where the class policy has a candidate. Its number of attempts is that of its
  -- candidates, and its deadline is the configured time from now.
  pub profile_plan-bounds :
      (profile : Profile) (plan : Plan)
      → (profile_plan w config r q profile).1 ≡ planned plan
      → (plan.max_attempts ≡ length plan.candidates)
        × (0 < plan.max_attempts)
        × (plan.max_attempts ≤ suc profile.max_attempts)
        × (class_candidate w config (profile_order w config r q profile).0 q profile ≡ none
            → plan.max_attempts ≤ profile.max_attempts)
        × (plan.deadline ≡ w.now + w.timeout_ms)
  profile_plan-bounds profile plan h =
      let (same, positive) = profile_plan-planned profile plan h in
      let short = length-order profile in
      let order = (profile_order w config r q profile).1 in
      let cheap = class_candidate w config (profile_order w config r q profile).0 q profile in
      let longer = (length-put_first cheap order).1 in
      rw same (
        refl,
        positive,
        omega arith,
        λ nothing. let no_longer = length-put_first-none cheap order nothing in omega arith,
        refl,
      )

  -- The provider may be tried for the reference's model.
  abbrev pub Offers : Provider → Reference → Type 0
  Offers p ref =
      IsOffered w config r q.protocol (inspect_request_features q.protocol q.body) q.body p ref
        (translates w config r q.protocol (inspect_request_features q.protocol q.body) q.body p)

  order_complete :
      (profile : Profile) (ref : Reference) (p : Provider)
      → 0 < profile.max_attempts
      → In ref profile.candidates
      → provider_by_id config ref.provider ≡ some p
      → Offers p ref
      → 0 < length (profile_order w config r q profile).1
  unfolding profile_order inspect_request_features profile_candidates
  order_complete profile ref p some_attempt m found o =
      let required = inspect_request_features q.protocol q.body in
      let t = admits_complete w config r q.protocol required q.body refl p ref o in
      let e = profile_candidate-offered w config r q.protocol required q.body ref p found t in
      let there =
        collect_complete (profile_candidate w config r q.protocol required q.body)
          profile.candidates ref _ m e in
      length-take-positive profile.max_attempts _ _
        ((reorder-In r q.affinity_key profile.id w.affinity_ttl_ms w.now _ _).1 there) some_attempt

  -- If one reference of a profile names a provider that may be tried for its model, and the profile
  -- allows an attempt, then the profile gives a plan and refuses nothing.
  pub profile_plan_total :
      (profile : Profile) (ref : Reference) (p : Provider)
      → 0 < profile.max_attempts
      → In ref profile.candidates
      → provider_by_id config ref.provider ≡ some p
      → Offers p ref
      → (plan : Plan) × ((profile_plan w config r q profile).1 ≡ planned plan)
  unfolding profile_plan
  profile_plan_total profile ref p some_attempt m found o =
      let positive = order_complete profile ref p some_attempt m found o in
      let cases =
        (length-put_first
          (class_candidate w config (profile_order w config r q profile).0 q profile)
          (profile_order w config r q profile).1).0 in
      (
        _,
        finish_profile_total profile _ (tried profile)
            (elim cases [ inl le ↦ omega arith | inr lt ↦ lt ]),
      )

  -- Where the class policy has a candidate, the profile gives a plan that tries it first and only
  -- once; it is the policy's model, which may be tried, and that model's window, as its provider
  -- declares it, holds what the profile's does. Behind it are exactly the profile's other candidates.
  pub profile_plan-class :
      (profile : Profile) (c : Candidate)
      → class_candidate w config (profile_order w config r q profile).0 q profile ≡ some c
      → IsCheap w config
          (profile_order w config r q profile).0
          q.protocol
          (inspect_request_features q.protocol q.body)
          q.body
          profile
          q.request_class
          c
        × ((plan : Plan) × (rest : List Candidate) × ((profile_plan w config r q profile).1
              ≡ planned plan)
            × (plan.candidates ≡ c ∷ rest)
            × ((d : Candidate)
                → (In d rest → In d (profile_order w config r q profile).1 × (differs c d ≡ true))
                  × (In d (profile_order w config r q profile).1 → differs c d ≡ true → In d rest)))
  unfolding profile_plan put_first
  profile_plan-class profile c h =
      let order = (profile_order w config r q profile).1 in
      let first : tried profile ≡ c ∷ keep (differs c) order = ap (λ o. put_first o order) h in
      let positive : 0 < length (tried profile) =
        subst (λ (cs : List Candidate). 0 < length cs) (sym first) (omega arith) in
      (
        class_candidate-IsCheap _ profile c h,
        (
          make_plan w q profile.id (some profile.id) (tried profile),
          keep (differs c) order,
          finish_profile_total profile _ (tried profile) positive,
          first,
          λ d. (In-keep (differs c) d order, keep_complete (differs c) d order),
        ),
      )
