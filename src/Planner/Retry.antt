-- ===== src/Planner/Retry.antt =====
-- routing-planner.mjs: the plan of a catalog entry, and when a client that was told to retry gets one.
use tokligence_gateway.Prelude.{
  ℕ, ◌+◌, ◌*◌, min, ◌≤◌, ◌<◌, ◌≡◌, refl, sym, ◌∙◌, inl, inr, ◌⊎◌, subst, true, List, [], ◌∷◌,
  Option, none, some, arith, In, Option-cases, length, map, ap,
}
use tokligence_gateway.Protocols.{inspect_request_features}
use tokligence_gateway.Routes.{Config, Provider, Reference}
use tokligence_gateway.Planner.{Runtime, World, Candidate, CatalogRoute}
use tokligence_gateway.Planner.Candidates.{serves, catalog_candidates}
use tokligence_gateway.Planner.Runnable.{IsRunnable}
use tokligence_gateway.Planner.Plan.{
  Request, Plan, Refusal, planned, refused, retry_seconds, least, make_plan,
}
use tokligence_gateway.Planner.Direct.{catalog_plan, finish_catalog}
use tokligence_gateway.Planner.Catalog.{
  Found, catalog_candidates-IsCooling, candidates-IsRunnable, candidates_complete,
  catalog_candidates-cons, cons-catalog_candidates,
}

abbrev pub at_time : World → ℕ → World
at_time w n = record w { now = n }

min-cases : (a b : ℕ) → (min a b ≡ a) ⊎ (min a b ≡ b)
min-cases a b = omega arith

In-least : (ts : List ℕ) (t : ℕ) → In (least ts t) (t ∷ ts)
In-least [] t = inl refl
In-least (u ∷ us) t = elim (In-least us (min u t)) [
  | inl e ↦ elim (min-cases u t) [ inl m ↦ inr (inl (e ∙ m)) | inr m ↦ inl (e ∙ m) ]
  | inr i ↦ inr (inr i)
]

-- After the seconds that are named, the time has come.
retry_seconds-reaches : (until now : ℕ) → until ≤ now + 1000 * retry_seconds until now
unfolding retry_seconds
retry_seconds-reaches until now = omega arith

retry_seconds-positive : (until now : ℕ) → 1 ≤ retry_seconds until now
unfolding retry_seconds
retry_seconds-positive until now = omega arith

reference-In :
    (route : CatalogRoute) (routes : List CatalogRoute)
    → In route routes
    → In route.reference (map (λ (x : CatalogRoute). x.reference) routes)
reference-In route [] i = absurd i
reference-In route (x ∷ xs) (inl e) = inl (ap (λ (y : CatalogRoute). y.reference) e)
reference-In route (x ∷ xs) (inr i) = inr (reference-In route xs i)

module _ (w : World) (config : Config) (r : Runtime) (q : Request) where
  abbrev found_at : ℕ → List CatalogRoute → Option Found
  found_at n routes =
      catalog_candidates (at_time w n) config r q.protocol
        (inspect_request_features q.protocol q.body) q.body routes

  found_at_total :
      (n m : ℕ) (routes : List CatalogRoute) (found : Found)
      → found_at n routes ≡ some found
      → (later : Found) × (found_at m routes ≡ some later)
  unfolding catalog_candidates
  found_at_total n m [] found h = (_, refl)
  found_at_total n m (route ∷ rest) found h =
      let (p, later, known, some_later, e) =
        catalog_candidates-cons _ config r _ _ _ route rest found h in
      let (other, ih) = found_at_total n m rest later some_later in
      (
        _,
        cons-catalog_candidates (at_time w m) config r q.protocol _ q.body route rest p other known
            ih,
      )

  serves-at_time :
      (n m : ℕ) (p : Provider) (ref : Reference)
      → serves
          (at_time w n)
          config
          r
          q.protocol
          (inspect_request_features q.protocol q.body)
          q.body
          p
          ref
        ≡ true
      → serves
          (at_time w m)
          config
          r
          q.protocol
          (inspect_request_features q.protocol q.body)
          q.body
          p
          ref
        ≡ true
  unfolding serves
  serves-at_time n m p ref h = h

  -- Once a lane that was cooling down has resumed, the entry has a candidate.
  resumed :
      (n m : ℕ) (routes : List CatalogRoute) (found later : Found) (t : ℕ)
      → found_at n routes ≡ some found
      → found_at m routes ≡ some later
      → In t found.1
      → t ≤ m
      → 0 < length later.0
  resumed n m routes found later t h h' i le =
      let c =
        catalog_candidates-IsCooling (at_time w n) config r q.protocol
          (inspect_request_features q.protocol q.body) q.body routes found t h i in
      candidates_complete (at_time w m) config r q.protocol
        (inspect_request_features q.protocol q.body) q.body routes later c.route c.provider h'
        c.listed c.known (serves-at_time n m c.provider c.route.reference c.served)
        (rw (c.resumes) le)

  catalog_plan-found :
      (n : ℕ) (routes : List CatalogRoute) (found : Found)
      → found_at n routes ≡ some found
      → catalog_plan (at_time w n) config r q routes
        ≡ finish_catalog (at_time w n) config q found.0 found.1
  unfolding catalog_plan
  catalog_plan-found n routes found h = ground arith

  finish_catalog_total :
      (n : ℕ) (cs : List Candidate) (cooling : List ℕ)
      → 0 < length cs
      → (plan : Plan) × (finish_catalog (at_time w n) config q cs cooling ≡ planned plan)
  unfolding finish_catalog
  finish_catalog_total n [] cooling h = absurd (omega arith)
  finish_catalog_total n (c ∷ cs) cooling h = (_, refl)

  finish_catalog-refused :
      (cs : List Candidate) (cooling : List ℕ) (e : Refusal) (seconds : ℕ)
      → finish_catalog w config q cs cooling ≡ refused e
      → e.retry_after ≡ some seconds
      → (t : ℕ) × In t cooling × (seconds ≡ retry_seconds t w.now)
  unfolding finish_catalog
  finish_catalog-refused [] [] e seconds h named = cc
  finish_catalog-refused [] (t ∷ ts) e seconds h named = (least ts t, In-least ts t, cc)
  finish_catalog-refused (c ∷ cs) cooling e seconds h named = cc

  finish_catalog-planned :
      (cs : List Candidate) (cooling : List ℕ) (plan : Plan)
      → finish_catalog w config q cs cooling ≡ planned plan
      → (plan ≡ make_plan w q q.model none cs) × (0 < length cs)
  unfolding finish_catalog
  finish_catalog-planned [] [] plan h = cc
  finish_catalog-planned [] (t ∷ ts) plan h = cc
  finish_catalog-planned (c ∷ cs) cooling plan h = (cc, omega arith)

  -- A catalog entry that is refused for cooling lanes names at least one second to wait, and gives a
  -- plan once so many seconds have passed, if the runtime state is still the same.
  pub catalog_plan-retry :
      (routes : List CatalogRoute) (e : Refusal) (seconds : ℕ)
      → catalog_plan w config r q routes ≡ refused e
      → e.retry_after ≡ some seconds
      → (1 ≤ seconds)
        × ((plan : Plan) × (catalog_plan (at_time w (w.now + 1000 * seconds)) config r q routes
              ≡ planned plan))
  catalog_plan-retry routes e seconds h named = elim (Option-cases (found_at w.now routes)) [
    | inl nothing ↦ absurd (unfold catalog_plan in ground arith)
    | inr (found, some_found) ↦
        let n = w.now + 1000 * seconds in
        let (t, m, same) =
          finish_catalog-refused found.0 found.1 e seconds
            (sym (catalog_plan-found w.now routes found some_found) ∙ h) named in
        let (later, some_later) = found_at_total w.now n routes found some_found in
        let in_time : t ≤ n =
          subst (λ x. t ≤ w.now + 1000 * x) (sym same) (retry_seconds-reaches t w.now) in
        let (plan, done) =
          finish_catalog_total n later.0 later.1
            (resumed w.now n routes found later t some_found some_later m in_time) in
        (
          subst (λ x. 1 ≤ x) (sym same) (retry_seconds-positive t w.now),
          (plan, catalog_plan-found n routes later some_later ∙ done),
        )
  ]

  -- A plan of a catalog entry tries only lanes that may be tried, of the entry's routes, and at least
  -- one.
  pub catalog_plan-MayTry :
      (routes : List CatalogRoute) (plan : Plan)
      → catalog_plan w config r q routes ≡ planned plan
      → (plan.max_attempts ≡ length plan.candidates)
        × (0 < plan.max_attempts)
        × ((c : Candidate)
            → In c plan.candidates
            → IsRunnable w config r q.protocol
                (inspect_request_features q.protocol q.body)
                q.body
                (map (λ (x : CatalogRoute). x.reference) routes)
                c)
  catalog_plan-MayTry routes plan h = elim (Option-cases (found_at w.now routes)) [
    | inl nothing ↦ absurd (unfold catalog_plan in ground arith)
    | inr (found, some_found) ↦
        let (same, positive) =
          finish_catalog-planned found.0 found.1 plan
            (sym (catalog_plan-found w.now routes found some_found) ∙ h) in
        rw same (
          refl,
          positive,
          λ c m.
              candidates-IsRunnable w config r q.protocol _ q.body _ routes found c
                (λ route. reference-In route routes) some_found m,
        )
  ]
