-- ===== src/Streams/Codec/Grammar/Message.antt =====
-- anthropic-openai-codec.mjs: what is sent for a stream of orderly tool calls is a whole message.
use tokligence_gateway.Prelude.{
  ◌≡◌, refl, ◌∙◌, inl, inr, true, not, ◌&&◌, List, [], ◌∷◌, none, some, arith, Bool-cases,
  Option-cases,
}
use tokligence_gateway.Streams.Codec.{
  Payload, Event, message_stop, message_delta, Options, Codec, fresh, Pushed, returned, no_value,
  raised, close_open, start, push, end, Outcome, completed, failed, after_events, translate,
  last_of, and_then, stop_reason, is_none, may_be_empty,
}
use tokligence_gateway.Streams.Codec.Grammar.{
  before, closing, after, between, Phase, accept, accepts, Track, track, is_orderly, accepts-append,
  emit-follows,
}
use tokligence_gateway.Streams.Codec.Grammar.Blocks.{close_kind-Holds}
use tokligence_gateway.Streams.Codec.Grammar.Pushes.{IsReady, at, start-IsSound, Goes, push-Goes}

-- What is sent: a whole message, or the beginning of one
abbrev pub IsMessage : Phase → Outcome → Type 0
IsMessage p (completed es) = accepts p es ≡ some after
IsMessage p (failed es fault) = (q : Phase) × (accepts p es ≡ some q)

end-IsMessage :
    (o : Options) (t : Track) (c : Codec) → IsReady t c → IsMessage (at c) (last_of (end o c))
unfolding end
end-IsMessage o t c r =
    let d = close_open (start c) in
    let closed =
      close_kind-Holds (at c) t.seen t.current (start c) (start c).opened
        (start-IsSound t c.started c refl r) in
    let told =
      emit-follows (at c) (between d.next_block) closing d.events
        (message_delta (stop_reason c.finish_reason) c.usage) closed.follows
        (unfold accept in refl) in
    let whole = emit-follows (at c) closing after _ message_stop told (unfold accept in refl) in
    elim (Bool-cases (o.strict && is_none c.finish_reason && not c.terminal_done)) [
      | inl cut ↦ rw (cut, end) (at c, unfold accepts in refl)
      | inr fine ↦
          elim (Bool-cases (o.strict && not c.semantic && not (may_be_empty c.finish_reason))) [
            | inl empty ↦ rw (fine, empty, end) (at c, unfold accepts in refl)
            | inr full ↦ rw (fine, full, end) whole
          ]
    ]

IsMessage-after_events :
    (p q : Phase) (es : List Event) (m : Outcome)
    → accepts p es ≡ some q
    → IsMessage q m
    → IsMessage p (after_events es m)
IsMessage-after_events p q es (completed fs) h m = accepts-append p es fs q h ∙ m
IsMessage-after_events p q es (failed fs fault) h (r, m) = (r, accepts-append p es fs q h ∙ m)

and_then-IsMessage :
    (p : Phase) (u : Track) (m : Pushed) (f : Codec → Outcome)
    → Goes p u m
    → ((d : Codec) → IsReady u d → IsMessage (at d) (f d))
    → IsMessage p (and_then m f)
unfolding Goes accepts
and_then-IsMessage p u (returned d es) f g later =
    IsMessage-after_events p (at d) es (f d) g.0 (later d g.1)
and_then-IsMessage p u (no_value d) f g later = (p, refl)
and_then-IsMessage p u (raised d fault) f g later = (p, refl)

translate-IsReady :
    (o : Options) (t : Track) (c : Codec) (ps : List Payload)
    → IsReady t c
    → is_orderly o.keep_reasoning t ps ≡ true
    → IsMessage (at c) (translate o c ps)
unfolding translate is_orderly
translate-IsReady o t c [] r h = end-IsMessage o t c r
translate-IsReady o t c (p ∷ ps) r h = elim (Option-cases (track o.keep_reasoning t p)) [
  | inl late ↦ absurd (ground arith)
  | inr (u, next) ↦
      and_then-IsMessage (at c) u (push o c p) (λ d. translate o d ps) (push-Goes o t u c p r next)
        (λ d ready. translate-IsReady o u d ps ready (ground arith))
]

abbrev pub untracked : Track
untracked = record { seen = []; current = none }

pub fresh-IsReady : IsReady untracked fresh
fresh-IsReady = record {
  drained_all = refl;
  seen = refl;
  current = tt;
  numbered = tt;
  unopened = λ _. (refl, refl);
}

-- For a stream in which each tool call comes in one piece, what is sent is a whole Anthropic message:
-- its start, blocks numbered from 0 of which each is opened, filled with what is of its kind, and
-- closed before the next one, and its end. Where a fault stops the stream, what has been sent by
-- then is the beginning of such a message.
pub translate-IsMessage :
    (o : Options) (ps : List Payload)
    → is_orderly o.keep_reasoning untracked ps ≡ true
    → IsMessage before (translate o fresh ps)
translate-IsMessage o ps h = translate-IsReady o untracked fresh ps fresh-IsReady h
