-- ===== src/Planner/Offered.antt =====
-- routing-planner.mjs: when a provider is offered for a request, and that the loops over the
-- references of a profile and of a role offer the providers that they should.
use tokligence_gateway.Prelude.{◌≤◌, ◌≡◌, inl, inr, Bool, true, false, arith, Bool-cases}
use tokligence_gateway.Protocols.{
  Protocol, chat_completions, messages, protocol_eq→eq, Features, Body,
}
use tokligence_gateway.Routes.{Config, Provider, Reference}
use tokligence_gateway.Planner.{
  Runtime, World, native, translation_for, lane_open, is_translated, is_translating, cooldown_until,
  circuit_open, declared_protocols,
}
use tokligence_gateway.Planner.Candidates.{serves, admits}
use tokligence_gateway.Planner.Plan.{enabled}
use tokligence_gateway.Planner.Support.{Speaks, IsAble, candidate_supports_iff, any-In, In-any}

-- What a lane for Anthropic messages by translation needs of its provider
pub record Carries (p : Provider) (protocol : Protocol) : Type 0 where
  pub asked : protocol ≡ messages
  pub speaks_chat : Speaks p chat_completions
  pub translates : is_translating p.adapter ≡ true
  pub allowed : p.no_translation ≡ false

lane-native :
    (p : Provider) (protocol : Protocol) → Speaks p protocol → translation_for p protocol ≡ native
unfolding translation_for
lane-native p protocol h = ground (arith, In-any protocol (declared_protocols p.protocols) h)

lane-Carries :
    (p : Provider) (protocol : Protocol)
    → is_translated (translation_for p protocol) ≡ true
    → lane_open (translation_for p protocol) p.adapter ≡ true
    → Carries p protocol
unfolding translation_for lane_open
lane-Carries p protocol h o = record {
  asked = protocol_eq→eq protocol messages (ground arith);
  speaks_chat = any-In chat_completions (declared_protocols p.protocols) (ground arith);
  translates = ground arith;
  allowed = ground arith;
}

native-lane_open :
    (p : Provider) (protocol : Protocol)
    → translation_for p protocol ≡ native
    → lane_open (translation_for p protocol) p.adapter ≡ true
unfolding lane_open
native-lane_open p protocol e = rw e

Carries-lane_open :
    (p : Provider) (protocol : Protocol)
    → Carries p protocol
    → is_translated (translation_for p protocol) ≡ true
    → lane_open (translation_for p protocol) p.adapter ≡ true
unfolding translation_for lane_open
Carries-lane_open p protocol h t =
    let e : is_translating p.adapter ≡ true = h.translates in ground arith

module _ (w : World) (config : Config) (r : Runtime) (protocol : Protocol) (required : Features)
    (body : Body) where
  -- The provider may be tried for the model of a reference: it is enabled and not cooling down, and
  -- serves the request, by translation only where that is allowed.
  pub record IsOffered (p : Provider) (ref : Reference) (translated : Bool) : Type 0 where
    pub is_enabled : enabled w p ≡ true
    pub carries : translated ≡ true → Carries p protocol
    pub able : IsAble p ref required body translated
    pub rested : cooldown_until r p.id ref.model protocol ≤ w.now

  abbrev pub translates : Provider → Bool
  translates p = is_translated (translation_for p protocol)

  pub admits-IsOffered :
      (p : Provider) (ref : Reference)
      → admits w config r protocol required body p ref ≡ true
      → IsOffered p ref (translates p)
  unfolding admits serves circuit_open
  admits-IsOffered p ref h = record {
    is_enabled = ground arith;
    carries = λ t. lane-Carries p protocol t (ground arith);
    able = (candidate_supports_iff p ref required body (translates p)).0 (ground arith);
    rested = ground arith;
  }

  lane_open_complete :
      (p : Provider)
      → (translates p ≡ false → Speaks p protocol)
      → (translates p ≡ true → Carries p protocol)
      → lane_open (translation_for p protocol) p.adapter ≡ true
  lane_open_complete p s c = elim (Bool-cases (translates p)) [
    | inl t ↦ Carries-lane_open p protocol (c t) t
    | inr f ↦ native-lane_open p protocol (lane-native p protocol (s f))
  ]

  pub admits_complete :
      required.protocol ≡ protocol
      → (p : Provider) (ref : Reference) → IsOffered p ref (translates p)
      → admits w config r protocol required body p ref ≡ true
  unfolding admits serves circuit_open
  admits_complete same p ref o =
      let lane = lane_open_complete p (λ f. rw (← same) (o.able.speaks f)) o.carries in
      let able = (candidate_supports_iff p ref required body (translates p)).1 o.able in
      let on = o.is_enabled in let rest = o.rested in ground arith
