-- ===== src/Streams/Codec/Grammar/Pushes.antt =====
-- anthropic-openai-codec.mjs: what a push sends follows the order of events of a message, for orderly
-- tool calls.
use tokligence_gateway.Prelude.{
  ℕ, ◌≡◌, refl, sym, ap, ◌∙◌, inl, inr, subst, Bool, true, false, ◌&&◌, [], Option, none, some,
  arith, Bool-cases, some-injective,
}
use tokligence_gateway.Streams.Codec.{
  Choice, Payload, done, malformed, scalar, frame, Frame, message_start, Kind, Options, Codec,
  Pushed, returned, no_value, raised, drained, on_reasoning, on_content, on_calls, on_choice,
  on_choices, is_unlisted, start, start_unless, on_frame, push, with_usage,
}
use tokligence_gateway.Streams.Codec.Grammar.{
  before, between, Phase, accept, accepts, Track, track_calls, interrupt, track_choice, track,
  phase_of, keys, IsOpen, IsNumbered, IsSound, emit-follows,
}
use tokligence_gateway.Streams.Codec.Grammar.Blocks.{on_content-IsSound, on_reasoning-IsSound}
use tokligence_gateway.Streams.Codec.Grammar.Calls.{on_calls-IsSound}
use tokligence_gateway.Streams.Codec.Grammar.Started.{
  start-started, with_usage-started, on_content-started, on_reasoning-started, on_calls-started,
}

-- Between two pushes: the buffer is empty, and before the start nothing is open or numbered.
pub record IsReady (t : Track) (c : Codec) : Type 0 where
  pub drained_all : c.events ≡ []
  pub seen : keys c.tool_blocks ≡ t.seen
  pub current : IsOpen t.current c.opened c.next_block c.tool_blocks
  pub numbered : IsNumbered c.next_block c.tool_blocks
  pub unopened : c.started ≡ false → (c.opened ≡ none) × (c.next_block ≡ 0)

abbrev pub phase_if : Bool → Option (Kind × ℕ) → ℕ → Phase
phase_if true o n = phase_of o n
phase_if false o n = before

abbrev pub at : Codec → Phase
at c = phase_if c.started c.opened c.next_block

pub start-IsSound :
    (t : Track) (b : Bool) (c : Codec)
    → c.started ≡ b
    → IsReady t c
    → IsSound (phase_if b c.opened c.next_block) t (start_unless b c)
unfolding start_unless accepts accept
start-IsSound t true c e r = record {
  follows = ap (accepts (phase_of c.opened c.next_block)) r.drained_all;
  seen = r.seen;
  current = r.current;
  numbered = r.numbered;
}
start-IsSound t false c e r =
    let (shut, first) = r.unopened e in
    record {
      follows =
          emit-follows before before (between 0) c.events message_start
            (ap (accepts before) r.drained_all) refl
          ∙ ap some (sym (ap (λ o. phase_of o c.next_block) shut ∙ ap between first));
      seen = r.seen;
      current = r.current;
      numbered = r.numbered;
    }

pub with_usage-IsSound :
    (p : Phase) (t : Track) (c : Codec) (u : Option (ℕ × ℕ))
    → IsSound p t c
    → IsSound p t (with_usage c u)
with_usage-IsSound p t c none h = h
with_usage-IsSound p t c (some (i, n)) h = record {
  follows = h.follows;
  seen = h.seen;
  current = h.current;
  numbered = h.numbered;
}

-- What a push sends goes on from the phase, and the codec is ready again.
unfoldable pub Goes : Phase → Track → Pushed → Type 0
Goes p u (returned d es) = (accepts p es ≡ some (at d)) × IsReady u d
Goes p u (no_value d) = (p ≡ at d) × IsReady u d
Goes p u (raised d fault) = Unit

pub drained-Goes :
    (p : Phase) (t : Track) (c : Codec) → c.started ≡ true → IsSound p t c → Goes p t (drained c)
unfolding Goes
drained-Goes p t c e h = (
  h.follows ∙ ap (λ b. some (phase_if b c.opened c.next_block)) (sym e),
  record {
    drained_all = refl;
    seen = h.seen;
    current = h.current;
    numbered = h.numbered;
    unopened = λ f. cc;
  },
)

on_choice-Goes :
    (o : Options) (p : Phase) (t u : Track) (c : Codec) (ch : Choice)
    → c.started ≡ true
    → IsSound p t c
    → track_calls (interrupt true ch.content (interrupt o.keep_reasoning ch.reasoning t)) ch.calls
      ≡ some u
    → Goes p u (on_choice o c ch)
unfolding on_choice
on_choice-Goes o p t u c ch e h next =
    let r = on_reasoning o.keep_reasoning c ch.reasoning in
    let s = on_content r ch.content in
    let d = on_calls s ch.calls in
    let sound = on_calls-IsSound p _ u s ch.calls next (
      on_content-IsSound p _ r ch.content
        (on_reasoning-IsSound p o.keep_reasoning t c ch.reasoning h)) in
    let begun : d.started ≡ true =
      on_calls-started s ch.calls
      ∙ on_content-started r ch.content
      ∙ on_reasoning-started o.keep_reasoning c ch.reasoning
      ∙ e in
    elim (Bool-cases (o.strict && is_unlisted ch.finish)) [
      | inl bad ↦ rw (bad, on_choice) (unfold Goes in tt)
      | inr fine ↦
          rw (fine, on_choice)
            (drained-Goes p u _ begun (record {
              follows = sound.follows;
              seen = sound.seen;
              current = sound.current;
              numbered = sound.numbered;
            }))
    ]

on_choices-Goes :
    (o : Options) (p : Phase) (t u : Track) (c : Codec) (ch : Option Choice)
    → c.started ≡ true
    → IsSound p t c
    → track_choice o.keep_reasoning t ch ≡ some u
    → Goes p u (on_choices o c ch)
unfolding on_choices track_choice
on_choices-Goes o p t u c none e h next =
    subst (λ u. Goes p u (drained c)) (ground arith) (drained-Goes p t c e h)
on_choices-Goes o p t u c (some ch) e h next = on_choice-Goes o p t u c ch e h next

on_frame-Goes :
    (o : Options) (t u : Track) (c : Codec) (f : Frame)
    → IsReady t c
    → track_choice o.keep_reasoning t f.choice ≡ some u
    → Goes (at c) u (on_frame o c f)
unfolding on_frame
on_frame-Goes o t u c f r next = elim (Bool-cases f.is_error) [
  | inl bad ↦ rw (bad, on_frame) (unfold Goes in tt)
  | inr fine ↦
      rw (fine, on_frame)
        (on_choices-Goes o (at c) t u (with_usage (start c) f.usage) f.choice
          (with_usage-started (start c) f.usage ∙ start-started c.started c refl)
          (with_usage-IsSound (at c) t (start c) f.usage (start-IsSound t c.started c refl r)) next)
]

-- A payload without a frame sends nothing.
quiet-Goes : (t u : Track) (c : Codec) → some t ≡ some u → IsReady t c → Goes (at c) u (drained c)
unfolding Goes accepts
quiet-Goes t u c next r =
    let same : t ≡ u = ground arith in
    (
      ap (accepts (at c)) r.drained_all,
      subst (λ t. IsReady t (record c { events = [] })) same
          (record {
            drained_all = refl;
            seen = r.seen;
            current = r.current;
            numbered = r.numbered;
            unopened = r.unopened;
          }),
    )

pub push-Goes :
    (o : Options) (t u : Track) (c : Codec) (p : Payload)
    → IsReady t c
    → track o.keep_reasoning t p ≡ some u
    → Goes (at c) u (push o c p)
unfolding push track
push-Goes o t u c done r next =
    quiet-Goes t u (record c { terminal_done = true }) next
      (record {
        drained_all = r.drained_all;
        seen = r.seen;
        current = r.current;
        numbered = r.numbered;
        unopened = r.unopened;
      })
push-Goes o t u c malformed r next = elim (Bool-cases o.strict) [
  | inl b ↦ rw (b, push) (unfold Goes in tt)
  | inr b ↦ rw (b, push) (unfold Goes in (refl, subst (λ t. IsReady t c) (some-injective next) r))
]
push-Goes o t u c scalar r next = elim (Bool-cases o.strict) [
  | inl b ↦ rw (b, push) (unfold Goes in tt)
  | inr b ↦ rw (b, push) (quiet-Goes t u c next r)
]
push-Goes o t u c (frame f) r next = on_frame-Goes o t u c f r next
