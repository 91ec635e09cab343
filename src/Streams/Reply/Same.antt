-- ===== src/Streams/Reply/Same.antt =====
-- anthropic-openai-codec.mjs: a completion gives the same message as a reply and as a stream.
use mathlib.Core.List.{append_assoc}
use tokligence_gateway.Prelude.{
  ℕ, ◌≡◌, refl, sym, ap, ◌∙◌, subst, inl, inr, Bool, true, false, not, ◌&&◌, List, [], ◌∷◌, ◌++◌,
  map, keep, Option, none, some, Text, Bool-cases,
}
use tokligence_gateway.Streams.Codec.{
  Finish, Call, Choice, Frame, frame, done, Event, message_stop, block_stop, message_delta, Kind,
  text, tool, Options, Codec, fresh, Outcome, completed, failed, emit, close_kind, start_block,
  open_text_from, on_reasoning, on_content, on_calls, on_choice, on_choices, start_unless,
  with_usage, or_finish, is_unlisted, on_frame, push, may_be_empty, stop_reason, is_none, end,
  last_of, after_events, and_then, translate,
}
use tokligence_gateway.Streams.Codec.Grammar.{keys}
use tokligence_gateway.Streams.Codec.Grammar.Blocks.{close_kind-same}
use tokligence_gateway.Streams.Codec.Grammar.Started.{
  start-started, with_usage-started, on_content-started, on_reasoning-started, on_calls-started,
}
use tokligence_gateway.Streams.Collect.{
  Collected, collect_event, collect_events, Part, text_part, thinking_part, part_of, is_filled,
  nothing_yet, collect,
}
use tokligence_gateway.Streams.Collect.Whole.{IsFrom, sort_entries-IsFrom}
use tokligence_gateway.Streams.Collect.Whole.Keeping.{collect_events-append}
use tokligence_gateway.Streams.Reply.{
  call_part, thinking_of, text_of, stop_of, openai_to_anthropic_message,
}
use tokligence_gateway.Streams.Reply.Parts.{
  Builds, on_reasoning-Builds, on_reasoning-opened, on_content-Builds, are_given, on_calls-Builds,
}

-- The end of a stream adds no part.
end_lem :
    (m : Collected) (c : Codec) (o : Option (Kind × ℕ)) (f : Option Finish) (u : ℕ × ℕ)
    → c.events ≡ []
    → collect_events m
        (emit (emit (close_kind c o) (message_delta (stop_reason f) u)) message_stop).events
      ≡ record m { stop_reason = some (stop_reason f); usage = u }
unfolding close_kind collect_events collect_event
end_lem m c none f u h =
    ap (λ es. collect_events m ((es ++ message_delta (stop_reason f) u ∷ []) ++ message_stop ∷ []))
      h
end_lem m c (some (k, b)) f u h =
    ap
      (λ es.
        collect_events m (
          ((es ++ block_stop b ∷ []) ++ message_delta (stop_reason f) u ∷ []) ++ message_stop ∷ []))
      h

calls-filled : (calls : List Call) → keep is_filled (map call_part calls) ≡ map call_part calls
unfolding keep
calls-filled [] = refl
calls-filled (call ∷ calls) = ap (call_part call ∷◌) (calls-filled calls)

text-filled :
    (t : Text) (calls : List Call)
    → keep is_filled (text_of t ++ map call_part calls) ≡ text_of t ++ map call_part calls
unfolding keep
text-filled [] calls = calls-filled calls
text-filled (x ∷ t) calls = ap (text_part (x ∷ t) ∷◌) (calls-filled calls)

-- No part of a reply is empty.
reply-filled :
    (kept : Bool) (r t : Text) (calls : List Call)
    → keep is_filled (thinking_of kept r ++ (text_of t ++ map call_part calls))
      ≡ thinking_of kept r ++ (text_of t ++ map call_part calls)
unfolding keep
reply-filled true [] t calls = text-filled t calls
reply-filled false [] t calls = text-filled t calls
reply-filled false (x ∷ r) t calls = text-filled t calls
reply-filled true (x ∷ r) t calls = ap (thinking_part (x ∷ r) ∷◌) (text-filled t calls)

Ends : Collected → Option Finish → Outcome → Type 0
Ends m f (completed es) =
    ((collect_events m es).blocks ≡ m.blocks)
    × ((collect_events m es).stop_reason ≡ some (stop_reason f))
Ends m f (failed es fault) = Unit

started_already : (b : Bool) (c : Codec) → b ≡ true → start_unless b c ≡ c
unfolding start_unless
started_already true c h = refl
started_already false c h = cc

end-Ends :
    (o : Options) (m : Collected) (c : Codec)
    → c.events ≡ []
    → c.started ≡ true
    → Ends m c.finish_reason (last_of (end o c))
unfolding end Ends
end-Ends o m c h begun =
    let s = start_unless c.started c in
    let all =
      end_lem m s s.opened c.finish_reason c.usage
        (ap (λ (c : Codec). c.events) (started_already c.started c begun) ∙ h) in
    elim (Bool-cases (o.strict && is_none c.finish_reason && not c.terminal_done)) [
      | inl cut ↦ rw (cut, end) tt
      | inr fine ↦
          elim (Bool-cases (o.strict && not c.semantic && not (may_be_empty c.finish_reason))) [
            | inl empty ↦ rw (fine, empty, end) tt
            | inr full ↦
                rw (fine, full, end)
                  (ap (λ (m : Collected). m.blocks) all, ap (λ (m : Collected). m.stop_reason) all)
          ]
    ]

after_none :
    (m : Collected) (f : Option Finish) (r : Outcome) → Ends m f r → Ends m f (after_events [] r)
unfolding Ends
after_none m f (completed es) h = h
after_none m f (failed es fault) h = tt

done-Ends :
    (o : Options) (m : Collected) (c : Codec)
    → c.events ≡ []
    → c.started ≡ true
    → Ends m c.finish_reason (translate o c (done ∷ []))
unfolding translate push
done-Ends o m c h begun =
    let c' : Codec = record c { terminal_done = true; events = [] } in
    subst (λ es. Ends m c.finish_reason (after_events es (last_of (end o c')))) (sym h)
      (after_none m c.finish_reason (last_of (end o c')) (end-Ends o m c' refl begun))

-- A whole stream makes a message of these parts.
Makes : List Part → Option Finish → Outcome → Type 0
Makes ps f (completed es) =
    (n : ℕ) × IsFrom 0 (collect_events nothing_yet es).blocks n
    × (map part_of (collect_events nothing_yet es).blocks ≡ ps)
    × ((collect_events nothing_yet es).stop_reason ≡ some (stop_reason f))
Makes ps f (failed es fault) = Unit

after-Makes :
    (ps : List Part) (f : Option Finish) (c : Codec) (r : Outcome)
    → Builds ps c
    → Ends (collect_events nothing_yet c.events) f r
    → Makes ps f (after_events c.events r)
unfolding Ends Makes
after-Makes ps f c (failed es fault) b h = tt
after-Makes ps f c (completed es) b (same, stops) =
    let whole = collect_events-append nothing_yet c.events es in
    let blocks = ap (λ (m : Collected). m.blocks) whole ∙ same in
    (
      c.next_block,
      subst (λ bs. IsFrom 0 bs c.next_block) (sym blocks) b.numbered,
      ap (map part_of) blocks ∙ b.parts,
      ap (λ (m : Collected). m.stop_reason) whole ∙ stops,
    )

on_reasoning-tool_blocks :
    (kept : Bool) (c : Codec) (t : Text) → (on_reasoning kept c t).tool_blocks ≡ c.tool_blocks
unfolding on_reasoning
on_reasoning-tool_blocks true c [] = refl
on_reasoning-tool_blocks false c [] = refl
on_reasoning-tool_blocks false c (x ∷ t) = refl
on_reasoning-tool_blocks true c (x ∷ t) =
    let (_, same) = close_kind-same (record c { semantic = true }) c.opened in same

open_text_from-tool_blocks :
    (c : Codec) (o : Option (Kind × ℕ)) → (open_text_from c o).tool_blocks ≡ c.tool_blocks
unfolding open_text_from start_block
open_text_from-tool_blocks c none = let (_, same) = close_kind-same c none in same
open_text_from-tool_blocks c (some (text, b)) = refl
open_text_from-tool_blocks c (some (tool, b)) =
    let (_, same) = close_kind-same c (some (tool, b)) in same

on_content-tool_blocks : (c : Codec) (t : Text) → (on_content c t).tool_blocks ≡ c.tool_blocks
unfolding on_content
on_content-tool_blocks c [] = refl
on_content-tool_blocks c (x ∷ t) =
    open_text_from-tool_blocks (record c { semantic = true }) c.opened

on_choice-Makes :
    (o : Options) (c : Codec) (ch : Choice) (f : Finish)
    → ch.finish ≡ some f
    → Builds [] c
    → c.started ≡ true
    → c.opened ≡ none
    → are_given (keys c.tool_blocks) ch.calls ≡ true
    → Makes
        (thinking_of o.keep_reasoning ch.reasoning
          ++ (text_of ch.content ++ map call_part ch.calls))
        (some f)
        (and_then (on_choice o c ch) (λ d. translate o d (done ∷ [])))
unfolding on_choice
on_choice-Makes o c ch f e b begun shut given =
    let kept = o.keep_reasoning in
    let r = on_reasoning kept c ch.reasoning in
    let t = on_content r ch.content in
    let d = on_calls t ch.calls in
    let blocks =
      on_content-tool_blocks r ch.content ∙ on_reasoning-tool_blocks kept c ch.reasoning in
    let built =
      on_calls-Builds (thinking_of kept ch.reasoning ++ text_of ch.content) t ch.calls
        (ap (λ m. are_given (keys m) ch.calls) blocks ∙ given)
        (on_content-Builds (thinking_of kept ch.reasoning) r ch.content
          (on_reasoning-opened kept c ch.reasoning shut)
          (on_reasoning-Builds kept [] c ch.reasoning b)) in
    let begun' : d.started ≡ true =
      on_calls-started t ch.calls
      ∙ on_content-started r ch.content
      ∙ on_reasoning-started kept c ch.reasoning
      ∙ begun in
    let d' : Codec = record d {
      finish_reason = or_finish ch.finish d.finish_reason;
      events = [];
    } in
    let ending = done-Ends o (collect_events nothing_yet d.events) d' refl begun' in
    elim (Bool-cases (o.strict && is_unlisted ch.finish)) [
      | inl bad ↦ rw (bad, on_choice) (unfold Makes in tt)
      | inr fine ↦
          rw (fine, on_choice)
            (after-Makes _ (some f) d (translate o d' (done ∷ []))
              (subst (λ ps. Builds ps d)
                (append_assoc (thinking_of kept ch.reasoning) (text_of ch.content)
                  (map call_part ch.calls))
                built)
              (subst
                (λ g. Ends (collect_events nothing_yet d.events) g (translate o d' (done ∷ [])))
                (ap (λ g. or_finish g d.finish_reason) e) ending))
    ]

abbrev pub whole_frame : Choice → Option (ℕ × ℕ) → Frame
whole_frame ch usage = record { is_error = false; usage = usage; choice = some ch }

started-Builds : (u : Option (ℕ × ℕ)) → Builds [] (with_usage (start_unless false fresh) u)
unfolding start_unless collect_events collect_event
started-Builds none = record { numbered = refl; parts = refl }
started-Builds (some (i, n)) = record { numbered = refl; parts = refl }

started-new :
    (u : Option (ℕ × ℕ))
    → ((with_usage (start_unless false fresh) u).opened ≡ none)
      × ((with_usage (start_unless false fresh) u).tool_blocks ≡ [])
unfolding start_unless
started-new none = (refl, refl)
started-new (some (i, n)) = (refl, refl)

-- A completion that comes as one frame of a stream and is translated to its end, with a reason to
-- finish and calls that have ids, names and indices of their own, gives a caller who has not asked for a stream the same content and
-- the same reason to stop as it does as a reply.
pub collect-openai_to_anthropic_message :
    (o : Options) (ch : Choice) (f : Finish) (usage : Option (ℕ × ℕ)) (es : List Event)
    → ch.finish ≡ some f
    → are_given [] ch.calls ≡ true
    → translate o fresh (frame (whole_frame ch usage) ∷ (done ∷ [])) ≡ completed es
    → ((collect es).0 ≡ (openai_to_anthropic_message o.keep_reasoning ch usage).0)
      × ((collect es).1 ≡ (openai_to_anthropic_message o.keep_reasoning ch usage).1)
unfolding translate push on_frame on_choices collect openai_to_anthropic_message stop_of Makes
collect-openai_to_anthropic_message o ch f usage es e given whole =
    let c = with_usage (start_unless false fresh) usage in
    let (shut, unused) = started-new usage in
    let (n, numbered', parts', stops) =
      subst
        (Makes
          (thinking_of o.keep_reasoning ch.reasoning
            ++ (text_of ch.content ++ map call_part ch.calls))
          (some f))
        whole
        (on_choice-Makes o c ch f e (started-Builds usage)
          (with_usage-started (start_unless false fresh) usage ∙ start-started false fresh refl)
          shut (ap (λ m. are_given (keys m) ch.calls) unused ∙ given)) in
    (
      ap (λ bs. keep is_filled (map part_of bs)) (sort_entries-IsFrom 0 n _ numbered')
          ∙ ap (keep is_filled) parts'
          ∙ reply-filled o.keep_reasoning ch.reasoning ch.content ch.calls,
      rw e stops,
    )
