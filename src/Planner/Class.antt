-- ===== src/Planner/Class.antt =====
-- routing-planner.mjs: cheapClassCandidate, the model that the class policy puts in front.
use tokligence_gateway.Prelude.{
  ℕ, ◌≤◌, ◌<◌, ◌≡◌, refl, sym, inl, inr, ◌&&◌, subst, true, [], Option, some, arith, find_sound,
  Bool-cases, Option-cases, Text, text_eq→eq, or_else,
}
use tokligence_gateway.Protocols.{Protocol, Features, Body}
use tokligence_gateway.Routes.{Config, Provider, Model, ClassRouting, Profile, provider_by_id}
use tokligence_gateway.Planner.{Runtime, World, Candidate, model_reference, or_number}
use tokligence_gateway.Planner.Candidates.{
  admits, lane_candidate, model_by_id, window_safe, cheap_candidate, cheap_class_candidate,
  agent_known, class_known, number_or_zero,
}
use tokligence_gateway.Planner.Runnable.{
  IsRunnable, class_model, lane-IsRunnable, provider_by_id-In,
}

-- The window that a model has, or else its provider, and zero where neither says.
abbrev pub window_of : Provider → Model → ℕ
window_of p m = number_or_zero (or_number m.context_window p.context_window)

module _ (w : World) (config : Config) (r : Runtime) (protocol : Protocol) (required : Features)
    (body : Body) where
  -- The candidate is the policy's model, which may be tried, as its provider declares it, and the
  -- profile's own window is known and fits into that model's.
  pub record IsCheap (profile : Profile) (request_class : Option Text) (c : Candidate)
      : Type 0 where
    pub policy : ClassRouting
    pub set : config.class_routing ≡ some policy
    pub is_on : policy.enabled ≡ true
    pub classed : class_known request_class ≡ true
    pub of_provider : c.provider.id ≡ policy.cheap_provider
    pub of_model : c.model ≡ policy.cheap_model
    pub model : Model
    pub found : model_by_id c.provider c.model ≡ some model
    pub known_floor : 0 < number_or_zero profile.context_window
    pub fits : number_or_zero profile.context_window ≤ window_of c.provider model
    pub runnable : IsRunnable w config r protocol required body [] c

  cheap_candidate-some :
      (profile : Profile) (p : Provider) (m : Model) (c : Candidate)
      → cheap_candidate w config r protocol required body profile p m ≡ some c
      → (window_safe p m profile ≡ true)
        × (admits w config r protocol required body p (model_reference p m) ≡ true)
        × (lane_candidate w config r protocol required body p m.id m.id (or_else m.family p.family)
            ≡ c)
  unfolding cheap_candidate
  cheap_candidate-some profile p m c h = elim (Bool-cases (window_safe p m profile)) [
    | inl safe ↦
        elim (Bool-cases (admits w config r protocol required body p (model_reference p m))) [
          | inl t ↦ (safe, t, ground arith)
          | inr f ↦ absurd (ground arith)
        ]
    | inr f ↦ absurd (ground arith)
  ]

  at_model :
      (profile : Profile) (request_class : Option Text) (c : Candidate) (policy : ClassRouting)
      (p : Provider) (m : Model)
      → config.class_routing ≡ some policy
      → policy.enabled ≡ true
      → class_known request_class ≡ true
      → provider_by_id config policy.cheap_provider ≡ some p
      → model_by_id p policy.cheap_model ≡ some m
      → cheap_candidate w config r protocol required body profile p m ≡ some c
      → IsCheap profile request_class c
  unfolding window_safe
  at_model profile request_class c policy p m set on known_class found known h =
      let (safe, t, e) = cheap_candidate-some profile p m c h in
      let (there, own) =
        provider_by_id-In w config r protocol required body policy.cheap_provider p found in
      let same : m.id ≡ policy.cheap_model =
        text_eq→eq m.id policy.cheap_model (find_sound _ p.models m known).1 in
      subst (IsCheap profile request_class) e (record {
        policy = policy;
        set = set;
        is_on = on;
        classed = known_class;
        of_provider = own;
        of_model = same;
        model = m;
        found = subst (λ t. model_by_id p t ≡ some m) (sym same) known;
        known_floor = ground arith;
        fits = ground arith;
        runnable =
            lane-IsRunnable w config r protocol required body [] p m.id m.id _ (model_reference p m)
              (class_model policy m set on found known) refl there t;
      })

  -- What the class policy puts in front is its own model, for a request of a class it knows, and
  -- may be tried; the window of the profile fits into its window.
  pub cheap_class_candidate-IsCheap :
      (profile : Profile) (request_class agent_type : Option Text) (c : Candidate)
      → cheap_class_candidate w config r protocol required body profile request_class agent_type
        ≡ some c
      → IsCheap profile request_class c
  unfolding cheap_class_candidate
  cheap_class_candidate-IsCheap profile request_class agent_type c h =
      elim (Option-cases config.class_routing) [
        | inl nothing ↦ absurd (ground arith)
        | inr (policy, set) ↦
            elim (Bool-cases
              (policy.enabled && class_known request_class && agent_known agent_type)) [
                | inl t ↦ elim (Option-cases (provider_by_id config policy.cheap_provider)) [
                  | inl nothing ↦ absurd (ground arith)
                  | inr (p, found) ↦ elim (Option-cases (model_by_id p policy.cheap_model)) [
                    | inl nothing ↦ absurd (ground arith)
                    | inr (m, known) ↦
                        at_model profile request_class c policy p m set (ground arith)
                          (ground arith) found known (ground arith)
                  ]
                ]
                | inr f ↦ absurd (ground arith)
              ]
      ]
