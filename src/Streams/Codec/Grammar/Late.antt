-- ===== src/Streams/Codec/Grammar/Late.antt =====
-- anthropic-openai-codec.mjs: what is sent for a stream in which the pieces of tool calls mix is no
-- Anthropic message.
use tokligence_gateway.Prelude.{
  ◌↔◌, ◌≡◌, refl, ◌∙◌, inl, inr, subst, true, false, ◌&&◌, List, [], ◌∷◌, Option, none, some, arith,
  Bool-cases, Option-cases,
}
use tokligence_gateway.Streams.Codec.{
  Choice, Payload, done, malformed, scalar, frame, Event, Options, Codec, fresh, Pushed, returned,
  no_value, raised, on_reasoning, on_content, on_choice, on_choices, is_unlisted, start, on_frame,
  push, Outcome, completed, failed, after_events, translate, with_usage, and_then,
}
use tokligence_gateway.Streams.Codec.Grammar.{
  before, after, Phase, accepts, Track, track_choice, track, is_orderly, accepts-append, IsSound,
}
use tokligence_gateway.Streams.Codec.Grammar.Blocks.{on_content-IsSound, on_reasoning-IsSound}
use tokligence_gateway.Streams.Codec.Grammar.Pushes.{
  IsReady, at, start-IsSound, with_usage-IsSound, Goes, push-Goes,
}
use tokligence_gateway.Streams.Codec.Grammar.Message.{
  IsMessage, untracked, fresh-IsReady, translate-IsMessage,
}
use tokligence_gateway.Streams.Codec.Grammar.Off.{accepts-none, on_calls_late}

-- What a push sends does not go on from the phase.
Rejects : Phase → Pushed → Type 0
Rejects p (returned d es) = accepts p es ≡ none
Rejects p (no_value d) = ⊥
Rejects p (raised d fault) = Unit

on_choices_late :
    (o : Options) (p : Phase) (t : Track) (c : Codec) (ch : Option Choice)
    → IsSound p t c
    → track_choice o.keep_reasoning t ch ≡ none
    → Rejects p (on_choices o c ch)
unfolding on_choices on_choice track_choice
on_choices_late o p t c none h late = absurd (ground arith)
on_choices_late o p t c (some ch) h late =
    let r = on_reasoning o.keep_reasoning c ch.reasoning in
    let s = on_content r ch.content in
    let off = on_calls_late p _ s ch.calls late (
      on_content-IsSound p _ r ch.content
        (on_reasoning-IsSound p o.keep_reasoning t c ch.reasoning h)) in
    elim (Bool-cases (o.strict && is_unlisted ch.finish)) [
      | inl bad ↦ rw (bad, on_choice) (unfold Rejects in tt)
      | inr fine ↦ rw (fine, on_choice) (unfold Rejects in off)
    ]

push_late :
    (o : Options) (t : Track) (c : Codec) (p : Payload)
    → IsReady t c
    → track o.keep_reasoning t p ≡ none
    → Rejects (at c) (push o c p)
unfolding push track on_frame
push_late o t c done r late = absurd (ground arith)
push_late o t c malformed r late = absurd (ground arith)
push_late o t c scalar r late = absurd (ground arith)
push_late o t c (frame f) r late = elim (Bool-cases f.is_error) [
  | inl bad ↦ rw (bad, on_frame) (unfold Rejects in tt)
  | inr fine ↦
      rw (fine, on_frame)
        (on_choices_late o (at c) t (with_usage (start c) f.usage) f.choice
          (with_usage-IsSound (at c) t (start c) f.usage (start-IsSound t c.started c refl r)) late)
]

-- A whole stream that is no message
IsNoMessage : Phase → Outcome → Type 0
IsNoMessage p (completed es) = accepts p es ≡ none
IsNoMessage p (failed es fault) = Unit

and_then_late :
    (p : Phase) (m : Pushed) (f : Codec → Outcome) → Rejects p m → IsNoMessage p (and_then m f)
unfolding Rejects IsNoMessage
and_then_late p (returned d es) f h = go (f d)
  where
    go : (m : Outcome) → IsNoMessage p (after_events es m)
    go (completed fs) = accepts-none p es fs h
    go (failed fs fault) = tt
and_then_late p (no_value d) f h = absurd h
and_then_late p (raised d fault) f h = tt

IsNoMessage-after_events :
    (p q : Phase) (es : List Event) (m : Outcome)
    → accepts p es ≡ some q
    → IsNoMessage q m
    → IsNoMessage p (after_events es m)
unfolding IsNoMessage
IsNoMessage-after_events p q es (completed fs) h m = accepts-append p es fs q h ∙ m
IsNoMessage-after_events p q es (failed fs fault) h m = tt

and_then-IsNoMessage :
    (p : Phase) (u : Track) (m : Pushed) (f : Codec → Outcome)
    → Goes p u m
    → ((d : Codec) → IsReady u d → IsNoMessage (at d) (f d))
    → IsNoMessage p (and_then m f)
unfolding Goes IsNoMessage
and_then-IsNoMessage p u (returned d es) f g later =
    IsNoMessage-after_events p (at d) es (f d) g.0 (later d g.1)
and_then-IsNoMessage p u (no_value d) f g later = tt
and_then-IsNoMessage p u (raised d fault) f g later = tt

translate_late :
    (o : Options) (t : Track) (c : Codec) (ps : List Payload)
    → IsReady t c
    → is_orderly o.keep_reasoning t ps ≡ false
    → IsNoMessage (at c) (translate o c ps)
unfolding translate is_orderly
translate_late o t c [] r h = absurd (ground arith)
translate_late o t c (p ∷ ps) r h = elim (Option-cases (track o.keep_reasoning t p)) [
  | inl late ↦ and_then_late (at c) (push o c p) (λ d. translate o d ps) (push_late o t c p r late)
  | inr (u, next) ↦
      and_then-IsNoMessage (at c) u (push o c p) (λ d. translate o d ps)
        (push-Goes o t u c p r next) (λ d ready. translate_late o u d ps ready (ground arith))
]

-- A stream that is translated to its end gives an Anthropic message exactly if each of its tool
-- calls comes in one piece: where the arguments of one tool come after those of another have begun,
-- or after text, a client is sent a part of a block that has been closed.
pub translate-completed_iff :
    (o : Options) (ps : List Payload) (es : List Event)
    → translate o fresh ps ≡ completed es
    → (accepts before es ≡ some after) ↔ (is_orderly o.keep_reasoning untracked ps ≡ true)
translate-completed_iff o ps es whole = (
  λ message. elim (Bool-cases (is_orderly o.keep_reasoning untracked ps)) [
    | inl orderly ↦ orderly
    | inr late ↦
        let off : accepts before es ≡ none =
          unfold IsNoMessage in
          subst (IsNoMessage before) whole
            (translate_late o untracked fresh ps fresh-IsReady late) in
        cc
  ],
  λ orderly. subst (IsMessage before) whole (translate-IsMessage o ps orderly),
)
