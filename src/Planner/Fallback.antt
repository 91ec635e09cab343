-- ===== src/Planner/Fallback.antt =====
-- routing-planner.mjs: what the plan of a role promises, whose fallback is a profile.
use tokligence_gateway.Prelude.{
  ◌<◌, ◌≡◌, ◌≢◌, refl, sym, ◌∙◌, inl, inr, ◌⊎◌, false, List, [], ◌∷◌, ◌++◌, Option, some, arith, In,
  In-append_left, In-append_right, In-take, In-keep, keep, length, Bool-cases, Text,
}
use tokligence_gateway.Protocols.{inspect_request_features}
use tokligence_gateway.Routes.{Config, Reference, Role}
use tokligence_gateway.Planner.{Runtime, World, Candidate}
use tokligence_gateway.Planner.Candidates.{
  recent_families, new_families, is_new_family, diversify, or_all,
}
use tokligence_gateway.Planner.Ordering.Members.{reorder-In, reorder_by_affinity-cooldowns}
use tokligence_gateway.Planner.Runnable.{
  IsRunnable-cooldowns, IsRunnable-references, role_candidates-IsRunnable,
}
use tokligence_gateway.Planner.Plan.{
  Request, Plan, Refusal, Outcome, planned, refused, bare, passed, crashed, make_plan,
}
use tokligence_gateway.Planner.Role.{
  role_plan, role_order, append_new, finish_role, candidates_of, fallback_request,
}
use tokligence_gateway.Planner.Appended.{append_new-In, append_new-append, append_new-positive}
use tokligence_gateway.Planner.Serving.{MayTry}

or_all-In :
    (all some_of : List Candidate) (x : Candidate)
    → (In x some_of → In x all)
    → In x (or_all all some_of)
    → In x all
or_all-In all [] x sub m = m
or_all-In all (c ∷ cs) x sub m = sub m

new_families-In :
    (seen : List Text) (cs : List Candidate) (x : Candidate) → In x (new_families seen cs) → In x cs
new_families-In [] cs x m = m
new_families-In (f ∷ fs) cs x m =
    or_all-In cs (keep (is_new_family (f ∷ fs)) cs) x (λ i. (In-keep _ x cs i).0) m

module _ (w : World) (config : Config) (r : Runtime) (q : Request) where
  diversify-In :
      (role : Role) (identity : Option Text) (cs : List Candidate) (x : Candidate)
      → In x (
          diversify w config r q.protocol
            (inspect_request_features q.protocol q.body)
            q.body
            role
            identity
            cs)
      → In x cs
  unfolding diversify
  diversify-In role identity cs x m = elim (Bool-cases role.avoid_recent_families) [
    | inl t ↦
        new_families-In
          (recent_families w config r q.protocol (inspect_request_features q.protocol q.body) q.body
            identity)
          cs x (rw t at m)
    | inr f ↦ rw f at m
  ]

  order-cooldowns : (role : Role) → (role_order w config r q role).0.cooldowns ≡ r.cooldowns
  unfolding role_order
  order-cooldowns role =
      reorder_by_affinity-cooldowns r q.affinity_key role.id w.affinity_ttl_ms w.now _

  order-MayTry :
      (role : Role) (c : Candidate)
      → In c (role_order w config r q role).1
      → MayTry w config r q role.candidates c
  unfolding role_order
  order-MayTry role c m = role_candidates-IsRunnable w config r q.protocol _ q.body role c (
      diversify-In role _ _ c (
        (reorder-In r q.affinity_key role.id w.affinity_ttl_ms w.now _ c).0
          (In-take role.max_attempts c _ m)))

  finish_role-planned :
      (role : Role) (fallback : Outcome) (cs : List Candidate) (plan : Plan)
      → finish_role w config q role fallback cs ≡ planned plan
      → (plan ≡ make_plan w q role.id (some role.id) cs) × (0 < length cs)
  unfolding finish_role
  finish_role-planned role (planned p) [] plan h = cc
  finish_role-planned role (refused e) [] plan h = cc
  finish_role-planned role (bare e) cs plan h = cc
  finish_role-planned role passed [] plan h = cc
  finish_role-planned role crashed cs plan h = cc
  finish_role-planned role (planned p) (c ∷ cs) plan h = (cc, omega arith)
  finish_role-planned role (refused e) (c ∷ cs) plan h = (cc, omega arith)
  finish_role-planned role passed (c ∷ cs) plan h = (cc, omega arith)

  candidates_of-In :
      (o : Outcome) (c : Candidate)
      → In c (candidates_of o)
      → (plan : Plan) × (o ≡ planned plan) × In c plan.candidates
  candidates_of-In (planned plan) c m = (plan, refl, m)
  candidates_of-In (refused e) c m = absurd m
  candidates_of-In (bare e) c m = absurd m
  candidates_of-In passed c m = absurd m
  candidates_of-In crashed c m = absurd m

  -- Of a role that is no specialist: its own candidates, and behind them its fallback's others
  pub role_plan-general :
      (build : Runtime → Request → Runtime × Outcome) (role : Role)
      → role.specialist ≡ false
      → (role_plan w config build r q role).1
        ≡ finish_role w config q role
            (build (role_order w config r q role).0 (fallback_request q role)).1
            (append_new
              (role_order w config r q role).1
              (candidates_of (build (role_order w config r q role).0 (fallback_request q role)).1))
  unfolding role_plan
  role_plan-general build role general = ground arith

  -- What a role tries may be tried, if what its fallback tries may be.
  pub role_plan-MayTry :
      (build : Runtime → Request → Runtime × Outcome) (role : Role) (refs : List Reference)
      (plan : Plan)
      → role.specialist ≡ false
      → ((r1 : Runtime) (fallback : Plan) (c : Candidate)
          → (build r1 (fallback_request q role)).1 ≡ planned fallback
          → In c fallback.candidates
          → MayTry w config r1 (fallback_request q role) refs c)
      → (role_plan w config build r q role).1 ≡ planned plan
      → (plan.max_attempts ≡ length plan.candidates)
        × (0 < plan.max_attempts)
        × ((c : Candidate) → In c plan.candidates → MayTry w config r q (role.candidates ++ refs) c)
  role_plan-MayTry build role refs plan general ih h =
      let r1 = (role_order w config r q role).0 in
      let ordered = (role_order w config r q role).1 in
      let fallback = (build r1 (fallback_request q role)).1 in
      let (same, positive) =
        finish_role-planned role fallback (append_new ordered (candidates_of fallback)) plan
          (sym (role_plan-general build role general) ∙ h) in
      rw same (
        refl,
        positive,
        λ c m. elim (append_new-In (candidates_of fallback) ordered c m) [
          | inl own ↦
              IsRunnable-references w config r q.protocol _ q.body role.candidates _ c
                (λ ref j. In-append_left ref role.candidates refs j) (order-MayTry role c own)
          | inr other ↦
              let (from, e, i) = candidates_of-In fallback c other in
              IsRunnable-references w config r q.protocol _ q.body refs _ c
                (λ ref j. In-append_right ref role.candidates refs j)
                (IsRunnable-cooldowns w config r r1 q.protocol _ q.body refs c
                  (order-cooldowns role) (ih r1 from c e i))
        ],
      )

  finish_role-nonempty :
      (role : Role) (fallback : Outcome) (cs : List Candidate)
      → fallback ≢ crashed
      → ((e : Refusal) → fallback ≢ bare e)
      → 0 < length cs
      → finish_role w config q role fallback cs ≡ planned (make_plan w q role.id (some role.id) cs)
  unfolding finish_role
  finish_role-nonempty role fallback [] sound wrapped positive = absurd (omega arith)
  finish_role-nonempty role (planned p) (c ∷ cs) sound wrapped positive = refl
  finish_role-nonempty role (refused e) (c ∷ cs) sound wrapped positive = refl
  finish_role-nonempty role (bare e) (c ∷ cs) sound wrapped positive = absurd (wrapped e refl)
  finish_role-nonempty role passed (c ∷ cs) sound wrapped positive = refl
  finish_role-nonempty role crashed (c ∷ cs) sound wrapped positive = absurd (sound refl)

  finish_role-empty :
      (role : Role) (e : Refusal)
      → finish_role w config q role (refused e) (append_new [] (candidates_of (refused e))) ≡ bare e
  unfolding finish_role append_new
  finish_role-empty role e = refl

  -- A role that is no specialist gives a plan if it or its fallback has a candidate, and tries its
  -- own candidates first, in their order, and then only candidates of the fallback. If neither has
  -- one and the fallback is refused, what comes back is the fallback's error without the wrapping
  -- that marks a refusal.
  pub role_plan-fallback :
      (build : Runtime → Request → Runtime × Outcome) (role : Role)
      → role.specialist ≡ false
      → (build (role_order w config r q role).0 (fallback_request q role)).1 ≢ crashed
      → ((e : Refusal)
          → (build (role_order w config r q role).0 (fallback_request q role)).1 ≢ bare e)
      → ((0 < length (role_order w config r q role).1
            ⊎ 0
              < length (
                  candidates_of
                    (build (role_order w config r q role).0 (fallback_request q role)).1))
          → (plan : Plan) × (extra : List Candidate) × ((role_plan w config build r q role).1
              ≡ planned plan)
            × (plan.candidates ≡ (role_order w config r q role).1 ++ extra)
            × ((c : Candidate)
                → In c extra
                → In c (
                    candidates_of
                      (build (role_order w config r q role).0 (fallback_request q role)).1)))
        × ((e : Refusal)
            → (role_order w config r q role).1 ≡ []
            → (build (role_order w config r q role).0 (fallback_request q role)).1 ≡ refused e
            → (role_plan w config build r q role).1 ≡ bare e)
  role_plan-fallback build role general sound wrapped =
      let fallback = (build (role_order w config r q role).0 (fallback_request q role)).1 in
      let own = (role_order w config r q role).1 in
      let (extra, same, from) = append_new-append (candidates_of fallback) own in
      (
        λ some_candidate. (
          make_plan w q role.id (some role.id) (append_new own (candidates_of fallback)),
          extra,
          role_plan-general build role general
              ∙ finish_role-nonempty role fallback _ sound wrapped
                  (append_new-positive (candidates_of fallback) own some_candidate),
          same,
          from,
        ),
        λ e none_own no_fallback.
            role_plan-general build role general
            ∙ (rw (no_fallback, none_own) (finish_role-empty role e)),
      )
