-- ===== src/Planner/Support.antt =====
-- routing-planner.mjs: what it means that a lane can serve a request, and that the planner's tests
-- decide it.
use tokligence_gateway.Prelude.{
  ℕ, zero, suc, ◌+◌, ◌*◌, ◌/◌, ◌≤◌, ◌≡◌, refl, ◌≢◌, ◌↔◌, inl, inr, Bool, true, false, not, ◌&&◌,
  ◌||◌, List, [], ◌∷◌, ◌++◌, Option, none, some, arith, any, In, Bool-cases,
}
use tokligence_gateway.Protocols.{
  Protocol, protocol_eq, protocol_eq→eq, protocol_eq_refl, Features, Body, Capabilities,
  supports_features,
}
use tokligence_gateway.Routes.{Adapter, chatgpt_responses, Provider, Reference}
use tokligence_gateway.Planner.{
  declared_protocols, candidate_supports, reference_capabilities, effective_features, or_number,
  fits_window, request_token_estimate, is_specialist_adapter, provider_capabilities,
}

-- The provider declares the protocol, or declares none and it is chat completions.
abbrev pub Speaks : Provider → Protocol → Type 0
Speaks p protocol = In protocol (declared_protocols p.protocols)

-- What the model behind a reference can do
abbrev pub Can : Provider → Reference → Capabilities
Can p r = reference_capabilities p r

-- The lane serves the request: natively, or Anthropic messages by translation onto chat
-- completions, which an adapter of the kind that translates has to do, and which drops thinking.
-- It has each feature that the request asks for, the estimate fits its context window if it has
-- one, and it is no specialist service.
pub record IsAble (p : Provider) (r : Reference) (required : Features) (body : Body)
    (translated : Bool) : Type 0 where
  pub speaks : translated ≡ false → Speaks p required.protocol
  pub general : p.adapter ≢ chatgpt_responses
  pub streaming : required.streaming ≡ true → (Can p r).streaming ≡ true
  pub tools : required.tools ≡ true → (Can p r).tools ≡ true
  pub parallel_tools : required.parallel_tools ≡ true → (Can p r).parallel_tools ≡ true
  pub structured_output : required.structured_output ≡ true → (Can p r).structured_output ≡ true
  pub vision : required.vision ≡ true → (Can p r).vision ≡ true
  pub reasoning : translated ≡ false → required.reasoning ≡ true → (Can p r).reasoning ≡ true
  pub window :
      (n : ℕ) → or_number r.context_window p.context_window ≡ some (suc n) → body.bytes ≤ 4 * suc n

pub any-In :
    (protocol : Protocol) (ps : List Protocol)
    → any (protocol_eq protocol) ps ≡ true
    → In protocol ps
unfolding any
any-In protocol [] h = cc
any-In protocol (p ∷ ps) h = elim (Bool-cases (protocol_eq protocol p)) [
  | inl t ↦ inl (protocol_eq→eq protocol p t)
  | inr f ↦ inr (any-In protocol ps (ground arith))
]

pub In-any :
    (protocol : Protocol) (ps : List Protocol)
    → In protocol ps
    → any (protocol_eq protocol) ps ≡ true
unfolding any
In-any protocol [] h = absurd h
In-any protocol (p ∷ ps) (inl e) = rw e (ground (arith, protocol_eq_refl p))
In-any protocol (p ∷ ps) (inr m) = ground (arith, In-any protocol ps m)

In-append_self :
    (protocol : Protocol) (ps : List Protocol)
    → any (protocol_eq protocol) (ps ++ protocol ∷ []) ≡ true
unfolding any
In-append_self protocol [] = ground (arith, protocol_eq_refl protocol)
In-append_self protocol (p ∷ ps) = ground (arith, In-append_self protocol ps)

not_specialist : (a : Adapter) → is_specialist_adapter a ≡ false → a ≢ chatgpt_responses
not_specialist chatgpt_responses h = cc
not_specialist _ h = λ e. cc

specialist_false : (a : Adapter) → a ≢ chatgpt_responses → is_specialist_adapter a ≡ false
specialist_false chatgpt_responses h = absurd (h refl)
specialist_false _ h = refl

fits_window_sound :
    (limit : Option ℕ) (bytes n : ℕ)
    → fits_window limit ((bytes + 3) / 4) ≡ true
    → limit ≡ some (suc n)
    → bytes ≤ 4 * suc n
unfolding fits_window
fits_window_sound none b n h e = cc
fits_window_sound (some zero) b n h e = ground arith
fits_window_sound (some (suc m)) b n h e =
    let same : m ≡ n = ground arith in let le : (b + 3) / 4 ≤ suc m = ground arith in omega arith

fits_window_complete :
    (limit : Option ℕ) (bytes : ℕ)
    → ((n : ℕ) → limit ≡ some (suc n) → bytes ≤ 4 * suc n)
    → fits_window limit ((bytes + 3) / 4) ≡ true
unfolding fits_window
fits_window_complete none b h = refl
fits_window_complete (some zero) b h = refl
fits_window_complete (some (suc n)) b h =
    let le : b ≤ 4 * suc n = h n refl in let low : (b + 3) / 4 ≤ suc n = omega arith in ground arith

candidate_supports-IsAble :
    (p : Provider) (r : Reference) (required : Features) (body : Body) (translated : Bool)
    → candidate_supports p r required body translated ≡ true
    → IsAble p r required body translated
candidate_supports-IsAble p r required body false h = record {
  speaks = λ t. any-In required.protocol (declared_protocols p.protocols) (
      unfold candidate_supports supports_features effective_features reference_capabilities
        provider_capabilities in
      ground arith);
  general = not_specialist p.adapter (unfold candidate_supports in ground arith);
  streaming = λ x. unfold candidate_supports supports_features effective_features in ground arith;
  tools = λ x. unfold candidate_supports supports_features effective_features in ground arith;
  parallel_tools =
      λ x. unfold candidate_supports supports_features effective_features in ground arith;
  structured_output =
      λ x. unfold candidate_supports supports_features effective_features in ground arith;
  vision = λ x. unfold candidate_supports supports_features effective_features in ground arith;
  reasoning = λ t x. unfold candidate_supports supports_features effective_features in ground arith;
  window = λ n e.
      fits_window_sound (or_number r.context_window p.context_window) body.bytes n
        (unfold candidate_supports request_token_estimate in ground arith) e;
}
candidate_supports-IsAble p r required body true h = record {
  speaks = λ t. cc;
  general = not_specialist p.adapter (unfold candidate_supports in ground arith);
  streaming = λ x. unfold candidate_supports supports_features effective_features in ground arith;
  tools = λ x. unfold candidate_supports supports_features effective_features in ground arith;
  parallel_tools =
      λ x. unfold candidate_supports supports_features effective_features in ground arith;
  structured_output =
      λ x. unfold candidate_supports supports_features effective_features in ground arith;
  vision = λ x. unfold candidate_supports supports_features effective_features in ground arith;
  reasoning = λ t x. cc;
  window = λ n e.
      fits_window_sound (or_number r.context_window p.context_window) body.bytes n
        (unfold candidate_supports request_token_estimate in ground arith) e;
}

covered : (required has : Bool) → (required ≡ true → has ≡ true) → (not required || has) ≡ true
covered true has h = h refl
covered false has h = refl

and_intro : (a b : Bool) → a ≡ true → b ≡ true → (a && b) ≡ true
and_intro true b p q = q
and_intro false b p q = p

supports_features-intro :
    (caps : Capabilities) (f : Features)
    → any (protocol_eq f.protocol) caps.protocols ≡ true
    → (f.streaming ≡ true → caps.streaming ≡ true)
    → (f.tools ≡ true → caps.tools ≡ true)
    → (f.parallel_tools ≡ true → caps.parallel_tools ≡ true)
    → (f.structured_output ≡ true → caps.structured_output ≡ true)
    → (f.reasoning ≡ true → caps.reasoning ≡ true)
    → (f.vision ≡ true → caps.vision ≡ true)
    → supports_features caps f ≡ true
unfolding supports_features
supports_features-intro caps f named streaming tools parallel structured reasoning vision =
    let a = and_intro _ _ named (covered _ _ streaming) in
    let b = and_intro _ _ a (covered _ _ tools) in
    let c = and_intro _ _ b (covered _ _ parallel) in
    let d = and_intro _ _ c (covered _ _ structured) in
    let e = and_intro _ _ d (covered _ _ reasoning) in and_intro _ _ e (covered _ _ vision)

supports_complete :
    (p : Provider) (r : Reference) (required : Features) (body : Body) (translated : Bool)
    → IsAble p r required body translated
    → candidate_supports p r required body translated ≡ true
unfolding candidate_supports effective_features request_token_estimate
supports_complete p r required body false a = rw (specialist_false p.adapter a.general) (
    and_intro _ _
      (supports_features-intro (Can p r) required
        (unfold reference_capabilities provider_capabilities in
          In-any required.protocol (declared_protocols p.protocols) (a.speaks refl))
        a.streaming a.tools a.parallel_tools a.structured_output (a.reasoning refl) a.vision)
      (fits_window_complete (or_number r.context_window p.context_window) body.bytes a.window))
supports_complete p r required body true a = rw (specialist_false p.adapter a.general) (
    and_intro _ _
      (supports_features-intro _ _ (In-append_self _ (Can p r).protocols) a.streaming a.tools
        a.parallel_tools a.structured_output (λ e. cc) a.vision)
      (fits_window_complete (or_number r.context_window p.context_window) body.bytes a.window))

-- The planner's test on a lane accepts exactly the lanes that are able to serve the request.
pub candidate_supports_iff :
    (p : Provider) (r : Reference) (required : Features) (body : Body) (translated : Bool)
    → (candidate_supports p r required body translated ≡ true) ↔ IsAble p r required body translated
candidate_supports_iff p r required body translated = (
  candidate_supports-IsAble p r required body translated,
  supports_complete p r required body translated,
)
