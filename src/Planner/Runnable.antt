-- ===== src/Planner/Runnable.antt =====
-- routing-planner.mjs: every candidate that the loops over a profile's and a role's references give
-- may be tried, and each reference that may be tried gives one.
use tokligence_gateway.Prelude.{
  ◌≡◌, refl, sym, ap, ◌∙◌, inl, inr, subst, true, not, List, [], ◌∷◌, Option, none, some, arith, In,
  Bool-cases, Option-cases, some-injective, Text, text_eq→eq, find_sound,
}
use tokligence_gateway.Protocols.{Protocol, Features, Body}
use tokligence_gateway.Routes.{
  Config, Provider, Model, ClassRouting, Reference, Profile, Role, provider_by_id,
}
use tokligence_gateway.Planner.{
  Runtime, World, Candidate, model_reference, cooldown_until, resolve_upstream_model,
}
use tokligence_gateway.Planner.Candidates.{
  admits, collect, lane_candidate, profile_family, profile_candidate, profile_candidates,
  role_candidate, role_candidates, model_by_id,
}
use tokligence_gateway.Planner.Offered.{IsOffered, admits-IsOffered}

collect-none :
    {A : Type 0} (f : A → Option Candidate) (x : A) (xs : List A)
    → f x ≡ none
    → collect f (x ∷ xs) ≡ collect f xs
unfolding collect
collect-none f x xs h = ground arith

collect-some :
    {A : Type 0} (f : A → Option Candidate) (x : A) (xs : List A) (c : Candidate)
    → f x ≡ some c
    → collect f (x ∷ xs) ≡ c ∷ collect f xs
unfolding collect
collect-some f x xs c h = ground arith

-- A candidate that is collected comes from a member of the list.
pub collect-In :
    {A : Type 0} (f : A → Option Candidate) (xs : List A) (c : Candidate)
    → In c (collect f xs)
    → (x : A) × In x xs × (f x ≡ some c)
unfolding collect
collect-In f [] c m = absurd m
collect-In f (x ∷ xs) c m = elim (Option-cases (f x)) [
  | inl nothing ↦
      let (y, i, e) = collect-In f xs c (rw (collect-none f x xs nothing) at m) in (y, inr i, e)
  | inr (d, found) ↦ elim (subst (λ ys. In c ys) (collect-some f x xs d found) m) [
    | inl e ↦ (x, inl refl, found ∙ ap some (sym e))
    | inr i ↦ let (y, j, e) = collect-In f xs c i in (y, inr j, e)
  ]
]

pub collect_complete :
    {A : Type 0} (f : A → Option Candidate) (xs : List A) (x : A) (c : Candidate)
    → In x xs
    → f x ≡ some c
    → In c (collect f xs)
unfolding collect
collect_complete f [] x c m e = absurd m
collect_complete f (y ∷ ys) x c (inl s) e =
    subst (λ cs. In c cs) (sym (collect-some f y ys c (ap f (sym s) ∙ e))) (inl refl)
collect_complete f (y ∷ ys) x c (inr m) e = elim (Option-cases (f y)) [
  | inl nothing ↦
      subst (λ cs. In c cs) (sym (collect-none f y ys nothing)) (collect_complete f ys x c m e)
  | inr (d, found) ↦
      subst (λ cs. In c cs) (sym (collect-some f y ys d found))
        (inr (collect_complete f ys x c m e))
]

module _ (config : Config) where
  -- Where a provider's reference comes from: it is one of a list and names the provider, or it is
  -- the class policy's model as the provider declares it.
  pub data IsSource (refs : List Reference) (p : Provider) : Reference → Type 0 where
    referred :
        (ref : Reference)
        → In ref refs
        → provider_by_id config ref.provider ≡ some p
        → IsSource refs p ref
    class_model :
        (policy : ClassRouting) (m : Model)
        → config.class_routing ≡ some policy
        → policy.enabled ≡ true
        → provider_by_id config policy.cheap_provider ≡ some p
        → model_by_id p policy.cheap_model ≡ some m
        → IsSource refs p (model_reference p m)

module _ (w : World) (config : Config) (r : Runtime) (protocol : Protocol) (required : Features)
    (body : Body) where
  -- The candidate is a provider of the configuration that may be tried for the reference that it
  -- comes from, one of the list or the class policy's, and it is for that reference's model.
  pub record IsRunnable (refs : List Reference) (c : Candidate) : Type 0 where
    pub known : In c.provider config.providers
    pub asked : c.protocol ≡ protocol
    pub natively : c.native ≡ not c.translated
    pub ref : Reference
    pub source : IsSource config refs c.provider ref
    pub for_model : ref.model ≡ c.model
    pub offered : IsOffered w config r protocol required body c.provider ref c.translated

  pub lane-IsRunnable :
      (refs : List Reference) (p : Provider) (model upstream : Text) (family : Option Text)
      (ref : Reference)
      → IsSource config refs p ref
      → model ≡ ref.model
      → In p config.providers
      → admits w config r protocol required body p ref ≡ true
      → IsRunnable refs (lane_candidate w config r protocol required body p model upstream family)
  lane-IsRunnable refs p model upstream family ref s e m t = record {
    known = m;
    asked = refl;
    natively = refl;
    ref = ref;
    source = s;
    for_model = sym e;
    offered = admits-IsOffered w config r protocol required body p ref t;
  }

  pub provider_by_id-In :
      (id : Text) (p : Provider)
      → provider_by_id config id ≡ some p
      → In p config.providers × (p.id ≡ id)
  unfolding provider_by_id
  provider_by_id-In id p h =
      let (m, e) = find_sound _ config.providers p h in (m, text_eq→eq p.id id e)

  pub profile_candidate-offered :
      (ref : Reference) (p : Provider)
      → provider_by_id config ref.provider ≡ some p
      → admits w config r protocol required body p ref ≡ true
      → profile_candidate w config r protocol required body ref
        ≡ some (
            lane_candidate w config r protocol required body p ref.model
              (resolve_upstream_model p ref.model)
              (profile_family p ref))
  unfolding profile_candidate
  profile_candidate-offered ref p found t = ground arith

  pub role_candidate-offered :
      (ref : Reference) (p : Provider) (m : Model)
      → provider_by_id config ref.provider ≡ some p
      → model_by_id p ref.model ≡ some m
      → admits w config r protocol required body p ref ≡ true
      → role_candidate w config r protocol required body ref
        ≡ some (
            lane_candidate w config r protocol required body p m.id
              (resolve_upstream_model p m.id)
              ref.family)
  unfolding role_candidate
  role_candidate-offered ref p m found known t = ground arith

  pub profile_candidate-IsRunnable :
      (refs : List Reference) (ref : Reference) (c : Candidate)
      → In ref refs
      → profile_candidate w config r protocol required body ref ≡ some c
      → IsRunnable refs c
  unfolding profile_candidate
  profile_candidate-IsRunnable refs ref c i h =
      elim (Option-cases (provider_by_id config ref.provider)) [
        | inl nothing ↦ absurd (ground arith)
        | inr (p, found) ↦ elim (Bool-cases (admits w config r protocol required body p ref)) [
          | inl t ↦
              subst (IsRunnable refs)
                (some-injective (sym (profile_candidate-offered ref p found t) ∙ h))
                (lane-IsRunnable refs p ref.model _ _ ref (referred ref i found) refl
                  (provider_by_id-In ref.provider p found).0 t)
          | inr f ↦ absurd (ground arith)
        ]
      ]

  pub role_candidate-IsRunnable :
      (refs : List Reference) (ref : Reference) (c : Candidate)
      → In ref refs
      → role_candidate w config r protocol required body ref ≡ some c
      → IsRunnable refs c
  unfolding role_candidate
  role_candidate-IsRunnable refs ref c i h =
      elim (Option-cases (provider_by_id config ref.provider)) [
        | inl nothing ↦ absurd (ground arith)
        | inr (p, found) ↦ elim (Option-cases (model_by_id p ref.model)) [
          | inl nothing ↦ absurd (ground arith)
          | inr (m, known) ↦ elim (Bool-cases (admits w config r protocol required body p ref)) [
            | inl t ↦
                subst (IsRunnable refs)
                  (some-injective (sym (role_candidate-offered ref p m found known t) ∙ h))
                  (lane-IsRunnable refs p m.id _ _ ref (referred ref i found)
                    (text_eq→eq m.id ref.model (find_sound _ p.models m known).1)
                    (provider_by_id-In ref.provider p found).0 t)
            | inr f ↦ absurd (ground arith)
          ]
        ]
      ]

  -- Every candidate that a profile's references give may be tried.
  pub profile_candidates-IsRunnable :
      (profile : Profile) (c : Candidate)
      → In c (profile_candidates w config r protocol required body profile)
      → IsRunnable profile.candidates c
  unfolding profile_candidates
  profile_candidates-IsRunnable profile c m =
      let (ref, i, e) = collect-In _ profile.candidates c m in
      profile_candidate-IsRunnable profile.candidates ref c i e

  pub role_candidates-IsRunnable :
      (role : Role) (c : Candidate)
      → In c (role_candidates w config r protocol required body role)
      → IsRunnable role.candidates c
  unfolding role_candidates
  role_candidates-IsRunnable role c m =
      let (ref, i, e) = collect-In _ role.candidates c m in
      role_candidate-IsRunnable role.candidates ref c i e

-- Of the runtime state, whether a candidate may be tried rests on the cooldowns alone.
pub IsRunnable-cooldowns :
    (w : World) (config : Config) (r r' : Runtime) (protocol : Protocol) (required : Features)
    (body : Body) (refs : List Reference) (c : Candidate)
    → r'.cooldowns ≡ r.cooldowns
    → IsRunnable w config r' protocol required body refs c
    → IsRunnable w config r protocol required body refs c
unfolding cooldown_until
IsRunnable-cooldowns w config r r' protocol required body refs c same run =
    let o = run.offered in
    record {
      known = run.known;
      asked = run.asked;
      natively = run.natively;
      ref = run.ref;
      source = run.source;
      for_model = run.for_model;
      offered = record {
        is_enabled = o.is_enabled;
        carries = o.carries;
        able = o.able;
        rested = rw (← same) o.rested;
      };
    }

-- A list with more references may have more sources.
pub IsRunnable-references :
    (w : World) (config : Config) (r : Runtime) (protocol : Protocol) (required : Features)
    (body : Body) (refs more : List Reference) (c : Candidate)
    → ((ref : Reference) → In ref refs → In ref more)
    → IsRunnable w config r protocol required body refs c
    → IsRunnable w config r protocol required body more c
IsRunnable-references w config r protocol required body refs more c sub run = record {
  known = run.known;
  asked = run.asked;
  natively = run.natively;
  ref = run.ref;
  source = widen run.source;
  for_model = run.for_model;
  offered = run.offered;
}
  where
    widen :
        {p : Provider} {ref : Reference} → IsSource config refs p ref → IsSource config more p ref
    widen (referred ref i e) = referred ref (sub ref i) e
    widen (class_model policy m set on found known) = class_model policy m set on found known
