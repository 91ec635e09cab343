-- ===== src/Planner/Catalog.antt =====
-- routing-planner.mjs: what the plan of a catalog entry promises, and what a refusal with a time to
-- retry after promises.
use tokligence_gateway.Prelude.{
  ℕ, ◌≤◌, ◌<◌, ◌≡◌, refl, sym, ◌∙◌, inl, inr, subst, true, false, List, [], ◌∷◌, none, some, arith,
  In, Bool-cases, Option-cases, some-injective, if◌then◌else◌, ltb, length,
}
use tokligence_gateway.Protocols.{Protocol, Features, Body}
use tokligence_gateway.Routes.{Reference, Config, Provider, provider_by_id}
use tokligence_gateway.UpstreamModel.{normalize_upstream_model}
use tokligence_gateway.Planner.{
  Runtime, World, Candidate, CatalogRoute, cooldown_until, circuit_open,
}
use tokligence_gateway.Planner.Candidates.{serves, admits, catalog_candidates, lane_candidate}
use tokligence_gateway.Planner.Runnable.{IsRunnable, referred, lane-IsRunnable, provider_by_id-In}

-- The candidates, and when the lanes that are cooling down resume
abbrev pub Found : Type 0
Found = List Candidate × List ℕ

module _ (w : World) (config : Config) (r : Runtime) (protocol : Protocol) (required : Features)
    (body : Body) where
  -- What one route adds to what the later ones give
  abbrev pub add_route : CatalogRoute → Provider → Found → Found
  add_route route p later =
      if serves w config r protocol required body p route.reference
      then (if ltb w.now (cooldown_until r p.id route.reference.model protocol)
          then (later.0, cooldown_until r p.id route.reference.model protocol ∷ later.1)
          else (
            lane_candidate w config r protocol required body p route.reference.model
                  (normalize_upstream_model p.id route.reference.model) none
                ∷ later.0,
            later.1,
          ))
      else later

  pub catalog_candidates-cons :
      (route : CatalogRoute) (rest : List CatalogRoute) (found : Found)
      → catalog_candidates w config r protocol required body (route ∷ rest) ≡ some found
      → (p : Provider) × (later : Found) × (provider_by_id config route.reference.provider ≡ some p)
        × (catalog_candidates w config r protocol required body rest ≡ some later)
        × (found ≡ add_route route p later)
  unfolding catalog_candidates
  catalog_candidates-cons route rest found h =
      elim (Option-cases (provider_by_id config route.reference.provider)) [
        | inl nothing ↦ absurd (ground arith)
        | inr (p, known) ↦
            elim (Option-cases (catalog_candidates w config r protocol required body rest)) [
              | inl nothing ↦ absurd (ground arith)
              | inr (later, some_later) ↦ (p, later, known, some_later, ground arith)
            ]
      ]

  pub cons-catalog_candidates :
      (route : CatalogRoute) (rest : List CatalogRoute) (p : Provider) (later : Found)
      → provider_by_id config route.reference.provider ≡ some p
      → catalog_candidates w config r protocol required body rest ≡ some later
      → catalog_candidates w config r protocol required body (route ∷ rest)
        ≡ some (add_route route p later)
  unfolding catalog_candidates
  cons-catalog_candidates route rest p later known some_later = ground arith

  -- A route of the list is served by a provider that is cooling down until the time.
  pub record IsCooling (routes : List CatalogRoute) (until : ℕ) : Type 0 where
    pub route : CatalogRoute
    pub listed : In route routes
    pub provider : Provider
    pub known : provider_by_id config route.reference.provider ≡ some provider
    pub served : serves w config r protocol required body provider route.reference ≡ true
    pub resumes : cooldown_until r provider.id route.reference.model protocol ≡ until

  later_route :
      (route : CatalogRoute) (rest : List CatalogRoute) (until : ℕ)
      → IsCooling rest until
      → IsCooling (route ∷ rest) until
  later_route route rest until c = record {
    route = c.route;
    listed = inr c.listed;
    provider = c.provider;
    known = c.known;
    served = c.served;
    resumes = c.resumes;
  }

  add_route-IsCooling :
      (route : CatalogRoute) (rest : List CatalogRoute) (p : Provider) (later : Found) (until : ℕ)
      → provider_by_id config route.reference.provider ≡ some p
      → ((t : ℕ) → In t later.1 → IsCooling rest t)
      → In until (add_route route p later).1
      → IsCooling (route ∷ rest) until
  add_route-IsCooling route rest p later until known ih m =
      elim (Bool-cases (serves w config r protocol required body p route.reference)) [
        | inr f ↦ later_route route rest until (ih until (rw f at m))
        | inl t ↦
            elim (Bool-cases (ltb w.now (cooldown_until r p.id route.reference.model protocol))) [
              | inr f ↦ later_route route rest until (ih until (rw (t, f) at m))
              | inl l ↦ at_head t (rw (t, l) at m)
            ]
      ]
    where
      at_head :
          serves w config r protocol required body p route.reference ≡ true
          → In until (cooldown_until r p.id route.reference.model protocol ∷ later.1)
          → IsCooling (route ∷ rest) until
      at_head t (inl e) = record {
        route = route;
        listed = inl refl;
        provider = p;
        known = known;
        served = t;
        resumes = sym e;
      }
      at_head t (inr i) = later_route route rest until (ih until i)

  pub catalog_candidates-IsCooling :
      (routes : List CatalogRoute) (found : Found) (until : ℕ)
      → catalog_candidates w config r protocol required body routes ≡ some found
      → In until found.1
      → IsCooling routes until
  unfolding catalog_candidates
  catalog_candidates-IsCooling [] found until h m =
      let e : ([], []) ≡ found = some-injective h in
      absurd (subst (λ (x : Found). In until x.1) (sym e) m)
  catalog_candidates-IsCooling (route ∷ rest) found until h m =
      let (p, later, known, some_later, e) = catalog_candidates-cons route rest found h in
      add_route-IsCooling route rest p later until known
        (λ t i. catalog_candidates-IsCooling rest later t some_later i)
        (subst (λ (x : Found). In until x.1) e m)

  add_route-IsRunnable :
      (refs : List Reference) (route : CatalogRoute) (p : Provider) (later : Found) (c : Candidate)
      → In route.reference refs
      → provider_by_id config route.reference.provider ≡ some p
      → (In c later.0 → IsRunnable w config r protocol required body refs c)
      → In c (add_route route p later).0
      → IsRunnable w config r protocol required body refs c
  add_route-IsRunnable refs route p later c listed known ih m =
      elim (Bool-cases (serves w config r protocol required body p route.reference)) [
        | inr f ↦ ih (rw f at m)
        | inl t ↦
            elim (Bool-cases (ltb w.now (cooldown_until r p.id route.reference.model protocol))) [
              | inl l ↦ ih (rw (t, l) at m)
              | inr f ↦ elim (subst (λ (x : Found). In c x.0) (idle t f) m) [
                | inl e ↦ subst (IsRunnable w config r protocol required body refs) (sym e) (
                    lane-IsRunnable w config r protocol required body refs p route.reference.model _
                      none route.reference (referred route.reference listed known) refl
                      (provider_by_id-In w config r protocol required body route.reference.provider
                        p known).0
                      (unfold admits circuit_open in ground arith))
                | inr i ↦ ih i
              ]
            ]
      ]
    where
      idle :
          serves w config r protocol required body p route.reference ≡ true
          → ltb w.now (cooldown_until r p.id route.reference.model protocol) ≡ false
          → add_route route p later ≡ (
            lane_candidate w config r protocol required body p route.reference.model
                  (normalize_upstream_model p.id route.reference.model)
                  none
                ∷ later.0,
            later.1,
          )
      idle t f = rw t (rw f)

  pub candidates-IsRunnable :
      (refs : List Reference) (routes : List CatalogRoute) (found : Found) (c : Candidate)
      → ((route : CatalogRoute) → In route routes → In route.reference refs)
      → catalog_candidates w config r protocol required body routes ≡ some found
      → In c found.0
      → IsRunnable w config r protocol required body refs c
  unfolding catalog_candidates
  candidates-IsRunnable refs [] found c listed h m =
      let e : ([], []) ≡ found = some-injective h in
      absurd (subst (λ (x : Found). In c x.0) (sym e) m)
  candidates-IsRunnable refs (route ∷ rest) found c listed h m =
      let (p, later, known, some_later, e) = catalog_candidates-cons route rest found h in
      add_route-IsRunnable refs route p later c (listed route (inl refl)) known
        (candidates-IsRunnable refs rest later c (λ x i. listed x (inr i)) some_later)
        (subst (λ (x : Found). In c x.0) e m)

  length-add_route :
      (route : CatalogRoute) (p : Provider) (later : Found)
      → length later.0 ≤ length (add_route route p later).0
  length-add_route route p later = ground arith

  -- A route whose provider serves it and is not cooling down gives a candidate.
  pub candidates_complete :
      (routes : List CatalogRoute) (found : Found) (route : CatalogRoute) (p : Provider)
      → catalog_candidates w config r protocol required body routes ≡ some found
      → In route routes
      → provider_by_id config route.reference.provider ≡ some p
      → serves w config r protocol required body p route.reference ≡ true
      → cooldown_until r p.id route.reference.model protocol ≤ w.now
      → 0 < length found.0
  candidates_complete [] found route p h m known t rested = absurd m
  candidates_complete (x ∷ rest) found route p h (inl e) known t rested =
      let (p', later, known', some_later, built) = catalog_candidates-cons x rest found h in
      let there : provider_by_id config route.reference.provider ≡ some p' = rw e known' in
      let same : p ≡ p' = some-injective (sym known ∙ there) in
      let served : serves w config r protocol required body p' x.reference ≡ true =
        rw (← same, ← e) t in
      let idle : cooldown_until r p'.id x.reference.model protocol ≤ w.now =
        rw (← same, ← e) rested in
      rw built (ground arith)
  candidates_complete (x ∷ rest) found route p h (inr m) known t rested =
      let (p', later, known', some_later, built) = catalog_candidates-cons x rest found h in
      let longer = length-add_route x p' later in
      let ih = candidates_complete rest later route p some_later m known t rested in
      rw built (omega arith)
