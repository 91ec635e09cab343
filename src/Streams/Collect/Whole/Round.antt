-- ===== src/Streams/Collect/Whole/Round.antt =====
-- anthropic-openai-codec.mjs: what collectAnthropicStream makes of the events that
-- createAnthropicStreamCodec sends is what the frames have said.
use mathlib.Core.List.{append_assoc, append-nil}
use tokligence_gateway.Prelude.{
  ℕ, ◌≡◌, refl, sym, ap, ◌∙◌, subst, inl, inr, Bool, true, false, not, ◌&&◌, List, [], ◌∷◌, ◌++◌,
  Option, none, some, Text, keep, map, if◌then◌else◌, Bool-cases,
}
use tokligence_gateway.Streams.Codec.{
  Choice, Payload, done, malformed, scalar, frame, Event, message_start, message_stop,
  message_delta, Options, Codec, fresh, Pushed, returned, no_value, raised, emit, drained,
  close_open, on_reasoning, on_content, on_calls, on_choice, on_choices, is_unlisted, or_finish,
  start, start_unless, on_frame, push, end, Outcome, completed, failed, after_events, translate,
  last_of, with_usage, and_then, stop_reason, is_none, may_be_empty,
}
use tokligence_gateway.Streams.Collect.{
  Collected, collect_event, collect_events, nothing_yet, collect, part_of, is_filled, sort_entries,
}
use tokligence_gateway.Streams.Collect.Whole.{
  said, thought, said-keep, thought-keep, sort_entries-IsFrom,
}
use tokligence_gateway.Streams.Collect.Whole.Stream.{Fits, Ends}
use tokligence_gateway.Streams.Collect.Whole.Keeping.{
  collect_events-append, Keeps, emitted, close_kind-Keeps, on_calls-Keeps, on_content-Keeps,
  on_reasoning-Keeps,
}

said_choice : Option Choice → Text
said_choice none = []
said_choice (some ch) = ch.content

thought_choice : Bool → Option Choice → Text
thought_choice kept none = []
thought_choice kept (some ch) = if kept then ch.reasoning else []

said_payload : Payload → Text
said_payload (frame f) = said_choice f.choice
said_payload _ = []

thought_payload : Bool → Payload → Text
thought_payload kept (frame f) = thought_choice kept f.choice
thought_payload kept _ = []

-- The text of the frames of a stream
unfoldable pub said_by : List Payload → Text
unfolding said_choice said_payload
said_by [] = []
said_by (p ∷ ps) = said_payload p ++ said_by ps

-- The reasoning of the frames, if it is kept
unfoldable pub thought_by : Bool → List Payload → Text
unfolding thought_choice thought_payload
thought_by kept [] = []
thought_by kept (p ∷ ps) = thought_payload kept p ++ thought_by kept ps

IsAt : Collected → Text → Text → Codec → Type 0
IsAt m s q c = (c.events ≡ []) × Fits c.next_block c.opened s q m.blocks

Went : Collected → Text → Text → Pushed → Type 0
Went m s q (returned d es) = IsAt (collect_events m es) s q d
Went m s q (no_value d) = IsAt m s q d
Went m s q (raised d fault) = Unit

module _ (m : Collected) (s q : Text) where
  start_unless-Keeps :
      (b : Bool) (c : Codec)
      → IsAt m s q c
      → Keeps m (start_unless b c).opened s q (start_unless b c)
  unfolding IsAt Keeps start_unless collect_events collect_event
  start_unless-Keeps true c (e, h) =
      subst (λ es. Fits c.next_block c.opened s q (collect_events m es).blocks) (sym e) h
  start_unless-Keeps false c (e, h) =
      subst
        (λ es. Fits c.next_block c.opened s q (collect_events m (es ++ message_start ∷ [])).blocks)
        (sym e) h

  with_usage-Keeps :
      (c : Codec) (u : Option (ℕ × ℕ))
      → Keeps m c.opened s q c
      → Keeps m (with_usage c u).opened s q (with_usage c u)
  unfolding Keeps
  with_usage-Keeps c none h = h
  with_usage-Keeps c (some (i, n)) h = h

  drained-Went : (c : Codec) → Keeps m c.opened s q c → Went m s q (drained c)
  unfolding Went IsAt Keeps
  drained-Went c h = (refl, h)

  quiet-Went : (c : Codec) → IsAt m s q c → Went m s q (drained c)
  unfolding Went IsAt collect_events
  quiet-Went c (e, h) =
      (refl, subst (λ es. Fits c.next_block c.opened s q (collect_events m es).blocks) (sym e) h)

kept_text : (b : Bool) (q r : Text) → (if b then q ++ r else q) ≡ q ++ (if b then r else [])
kept_text true q r = refl
kept_text false q r = sym (append-nil q)

on_choices-Went :
    (o : Options) (m : Collected) (s q : Text) (c : Codec) (ch : Option Choice)
    → Keeps m c.opened s q c
    → Went m (s ++ said_choice ch) (q ++ thought_choice o.keep_reasoning ch) (on_choices o c ch)
unfolding on_choices on_choice said_choice thought_choice Keeps
on_choices-Went o m s q c none h =
    subst (λ s. Went m s (q ++ []) (drained c)) (sym (append-nil s))
      (subst (λ q. Went m s q (drained c)) (sym (append-nil q)) (drained-Went m s q c h))
on_choices-Went o m s q c (some ch) h =
    let r = on_reasoning o.keep_reasoning c ch.reasoning in
    let t = on_content r ch.content in
    let d = on_calls t ch.calls in
    let q' : Text = if o.keep_reasoning then q ++ ch.reasoning else q in
    let kept = on_calls-Keeps m (s ++ ch.content) q' t ch.calls (
      on_content-Keeps m s q' r ch.content
        (on_reasoning-Keeps m s q o.keep_reasoning c ch.reasoning h)) in
    let same : q' ≡ q ++ (if o.keep_reasoning then ch.reasoning else []) =
      kept_text o.keep_reasoning q ch.reasoning in
    let e : Codec = record d { finish_reason = or_finish ch.finish d.finish_reason } in
    elim (Bool-cases (o.strict && is_unlisted ch.finish)) [
      | inl bad ↦ rw (bad, on_choice) (unfold Went in tt)
      | inr fine ↦
          rw (fine, on_choice)
            (subst (λ q. Went m (s ++ ch.content) q (drained e)) same
              (drained-Went m (s ++ ch.content) q' e kept))
    ]

Went-nil : (m : Collected) (s q : Text) (p : Pushed) → Went m s q p → Went m (s ++ []) (q ++ []) p
Went-nil m s q p h =
    subst (λ s. Went m s (q ++ []) p) (sym (append-nil s))
      (subst (λ q. Went m s q p) (sym (append-nil q)) h)

push-Went :
    (o : Options) (m : Collected) (s q : Text) (c : Codec) (p : Payload)
    → IsAt m s q c
    → Went m (s ++ said_payload p) (q ++ thought_payload o.keep_reasoning p) (push o c p)
unfolding push said_payload thought_payload on_frame
push-Went o m s q c done h =
    Went-nil m s q _ (quiet-Went m s q (record c { terminal_done = true }) (unfold IsAt in h))
push-Went o m s q c malformed h = elim (Bool-cases o.strict) [
  | inl b ↦ rw (b, push) (unfold Went in tt)
  | inr b ↦ rw (b, push) (Went-nil m s q _ (unfold Went in h))
]
push-Went o m s q c scalar h = elim (Bool-cases o.strict) [
  | inl b ↦ rw (b, push) (unfold Went in tt)
  | inr b ↦ rw (b, push) (Went-nil m s q _ (quiet-Went m s q c h))
]
push-Went o m s q c (frame f) h = elim (Bool-cases f.is_error) [
  | inl bad ↦ rw (bad, on_frame) (unfold Went in tt)
  | inr fine ↦
      rw (fine, on_frame)
        (on_choices-Went o m s q (with_usage (start c) f.usage) f.choice
          (with_usage-Keeps m s q (start c) f.usage (start_unless-Keeps m s q c.started c h)))
]

-- What a whole stream makes of a message
Says : Collected → Text → Text → Outcome → Type 0
Says m s q (completed es) = (n : ℕ) × Fits n none s q (collect_events m es).blocks
Says m s q (failed es fault) = Unit

end-Says :
    (o : Options) (m : Collected) (s q : Text) (c : Codec)
    → IsAt m s q c
    → Says m s q (last_of (end o c))
unfolding end Says Keeps collect_event
end-Says o m s q c h =
    let d = close_open (start c) in
    let closed =
      close_kind-Keeps m s q (start c) (start c).opened (start_unless-Keeps m s q c.started c h) in
    let told = emit d (message_delta (stop_reason c.finish_reason) c.usage) in
    let whole =
      emitted m told message_stop
      ∙ emitted m d (message_delta (stop_reason c.finish_reason) c.usage) in
    elim (Bool-cases (o.strict && is_none c.finish_reason && not c.terminal_done)) [
      | inl cut ↦ rw (cut, end) tt
      | inr fine ↦
          elim (Bool-cases (o.strict && not c.semantic && not (may_be_empty c.finish_reason))) [
            | inl empty ↦ rw (fine, empty, end) tt
            | inr full ↦
                rw (fine, full, end)
                  (
                    d.next_block,
                    subst (λ (m : Collected). Fits d.next_block none s q m.blocks) (sym whole)
                        closed,
                  )
          ]
    ]

Says-after_events :
    (m : Collected) (s q : Text) (es : List Event) (r : Outcome)
    → Says (collect_events m es) s q r
    → Says m s q (after_events es r)
unfolding Says
Says-after_events m s q es (completed fs) (n, h) =
    (n, subst (λ (m : Collected). Fits n none s q m.blocks) (sym (collect_events-append m es fs)) h)
Says-after_events m s q es (failed fs fault) h = tt

and_then-Says :
    (m : Collected) (s q t r : Text) (p : Pushed) (f : Codec → Outcome)
    → Went m s q p
    → ((m : Collected) (d : Codec) → IsAt m s q d → Says m t r (f d))
    → Says m t r (and_then p f)
unfolding Went
and_then-Says m s q t r (returned d es) f h later =
    Says-after_events m t r es (f d) (later (collect_events m es) d h)
and_then-Says m s q t r (no_value d) f h later = unfold Says in tt
and_then-Says m s q t r (raised d fault) f h later = unfold Says in tt

translate-Says :
    (o : Options) (m : Collected) (s q : Text) (c : Codec) (ps : List Payload)
    → IsAt m s q c
    → Says m (s ++ said_by ps) (q ++ thought_by o.keep_reasoning ps) (translate o c ps)
unfolding translate said_by thought_by
translate-Says o m s q c [] h =
    subst (λ s. Says m s (q ++ []) (translate o c [])) (sym (append-nil s))
      (subst (λ q. Says m s q (translate o c [])) (sym (append-nil q)) (end-Says o m s q c h))
translate-Says o m s q c (p ∷ ps) h =
    let s' = s ++ said_payload p in
    let q' = q ++ thought_payload o.keep_reasoning p in
    subst
      (λ s.
        Says m s (q ++ (thought_payload o.keep_reasoning p ++ thought_by o.keep_reasoning ps))
          (translate o c (p ∷ ps)))
      (append_assoc s (said_payload p) (said_by ps))
      (subst (λ q. Says m (s' ++ said_by ps) q (translate o c (p ∷ ps)))
        (append_assoc q (thought_payload o.keep_reasoning p) (thought_by o.keep_reasoning ps))
        (and_then-Says m s' q' (s' ++ said_by ps) (q' ++ thought_by o.keep_reasoning ps)
          (push o c p) (λ d. translate o d ps) (push-Went o m s q c p h)
          (λ m d ready. translate-Says o m s' q' d ps ready)))

collected-said :
    (m : Collected) (n : ℕ) (s q : Text)
    → Fits n none s q m.blocks
    → (said (keep is_filled (map part_of (sort_entries m.blocks))) ≡ s)
      × (thought (keep is_filled (map part_of (sort_entries m.blocks))) ≡ q)
collected-said m n s q h =
    let sorted = sort_entries-IsFrom 0 n m.blocks h.numbered in
    (
      said-keep _ ∙ ap (λ bs. said (map part_of bs)) sorted ∙ h.speaks,
      thought-keep _ ∙ ap (λ bs. thought (map part_of bs)) sorted ∙ h.thinks,
    )

-- Where a stream is translated to its end, the message that a caller gets who has not asked for a
-- stream says what the frames have said: the text parts
-- of the message that is collected, one after the other, are the contents of the frames, and its
-- thinking parts are their reasoning, if that is kept.
pub collect-translate :
    (o : Options) (ps : List Payload) (es : List Event)
    → translate o fresh ps ≡ completed es
    → (said (collect es).0 ≡ said_by ps) × (thought (collect es).0 ≡ thought_by o.keep_reasoning ps)
unfolding collect Says IsAt said thought
collect-translate o ps es whole =
    let start' : IsAt nothing_yet [] [] fresh = (
      refl,
      record { numbered = refl; speaks = refl; thinks = refl; ending = unfold Ends in tt },
    ) in
    let (n, h) =
      subst (Says nothing_yet (said_by ps) (thought_by o.keep_reasoning ps)) whole
        (translate-Says o nothing_yet [] [] fresh ps start') in
    collected-said (collect_events nothing_yet es) n (said_by ps) (thought_by o.keep_reasoning ps) h
