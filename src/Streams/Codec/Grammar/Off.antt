-- ===== src/Streams/Codec/Grammar/Off.antt =====
-- anthropic-openai-codec.mjs: tool calls of which the pieces mix send an event that is out of order.
use tokligence_gateway.Prelude.{
  ℕ, ◌<◌, ◌≡◌, refl, ap, ◌∙◌, inl, inr, subst, false, not, ◌||◌, List, [], ◌∷◌, ◌++◌, Option, none,
  some, arith, Text, ◌==◌, Bool-cases, Option-cases,
}
use tokligence_gateway.Streams.Codec.{
  Call, json_delta, Event, block_delta, Kind, text, tool, Codec, close_kind, start_block,
  open_tool_at, block_at, is_empty, is_given, add_arguments, call_at, on_call, on_calls,
}
use tokligence_gateway.Streams.Codec.Grammar.{
  Phase, accept, accepts, Track, is_in, is_current, track_call, track_calls, accepts-append,
  phase_of, IsOpen, IsNumbered, IsSound,
}
use tokligence_gateway.Streams.Codec.Grammar.Calls.{is_in-keys-none, call_at-IsSound}

block_at-lt : (i b n : ℕ) (m : List (ℕ × ℕ)) → IsNumbered n m → block_at i m ≡ some b → b < n
unfolding block_at
block_at-lt i b n [] k h = cc
block_at-lt i b n ((j, a) ∷ m) (lt, k) h = ground (arith, block_at-lt i b a m k)

-- No two tools have the same block.
block_at-injective :
    (i j b n : ℕ) (m : List (ℕ × ℕ))
    → IsNumbered n m
    → block_at i m ≡ some b
    → block_at j m ≡ some b
    → i ≡ j
unfolding block_at
block_at-injective i j b n [] k h g = cc
block_at-injective i j b n ((l, a) ∷ m) (lt, k) h g =
    ground (arith, block_at-lt i a a m k, block_at-lt j a a m k, block_at-injective i j b a m k)

-- Arguments of a tool that is not open do not belong where the stream is.
late_delta :
    (i b n : ℕ) (k : Option ℕ) (o : Option (Kind × ℕ)) (m : List (ℕ × ℕ)) (s : Text)
    → is_current i k ≡ false
    → block_at i m ≡ some b
    → IsOpen k o n m
    → IsNumbered n m
    → accept (phase_of o n) (block_delta b (json_delta s)) ≡ none
unfolding accept
late_delta i b n none none m s h e open' num = refl
late_delta i b n none (some (text, a)) m s h e open' num = refl
late_delta i b n none (some (tool, a)) m s h e open' num = absurd open'
late_delta i b n (some j) none m s h e open' num = absurd open'
late_delta i b n (some j) (some (text, a)) m s h e open' num = absurd open'
late_delta i b n (some j) (some (tool, a)) m s h e (_, found) num = elim (Bool-cases (a == b)) [
  | inr apart ↦ rw apart refl
  | inl same ↦
      let eq : a ≡ b = ground arith in
      let one = block_at-injective i j b n m num e (found ∙ ap some eq) in absurd (ground arith)
]

pub accepts-none :
    (p : Phase) (es fs : List Event) → accepts p es ≡ none → accepts p (es ++ fs) ≡ none
unfolding accepts
accepts-none p [] fs h = absurd (ground arith)
accepts-none p (e ∷ es) fs h = elim (Option-cases (accept p e)) [
  | inl stuck ↦ rw (stuck, accepts) refl
  | inr (q, next) ↦ rw (next, accepts) (accepts-none q es fs (ground arith))
]

abbrev IsOff : Phase → Codec → Type 0
IsOff p c = accepts p c.events ≡ none

close_kind-IsOff :
    (p : Phase) (c : Codec) (o : Option (Kind × ℕ)) → IsOff p c → IsOff p (close_kind c o)
unfolding close_kind
close_kind-IsOff p c none h = h
close_kind-IsOff p c (some (k, b)) h = accepts-none p c.events _ h

open_tool_at-IsOff :
    (p : Phase) (c : Codec) (call : Call) (o : Option ℕ)
    → IsOff p c
    → IsOff p (open_tool_at c call o).0
unfolding open_tool_at start_block
open_tool_at-IsOff p c call none h = accepts-none p _ _ (close_kind-IsOff p c c.opened h)
open_tool_at-IsOff p c call (some b) h = h

add_arguments-IsOff :
    (p : Phase) (d : Codec × ℕ) (s : Text) → IsOff p d.0 → IsOff p (add_arguments d s)
unfolding add_arguments
add_arguments-IsOff p (c, b) [] h = h
add_arguments-IsOff p (c, b) (x ∷ s) h = accepts-none p c.events _ h

on_calls-IsOff :
    (p : Phase) (c : Codec) (calls : List Call) → IsOff p c → IsOff p (on_calls c calls)
unfolding on_calls on_call
on_calls-IsOff p c [] h = h
on_calls-IsOff p c (call ∷ calls) h = on_calls-IsOff p (on_call c call) calls (
    add_arguments-IsOff p (open_tool_at _ call (block_at call.index c.tool_blocks)) call.arguments
      (open_tool_at-IsOff p _ call (block_at call.index c.tool_blocks) h))

add_arguments_late :
    (p : Phase) (t : Track) (c : Codec) (b i : ℕ) (s : Text)
    → is_empty s ≡ false
    → is_current i t.current ≡ false
    → block_at i c.tool_blocks ≡ some b
    → IsSound p t c
    → IsOff p (add_arguments (c, b) s)
unfolding add_arguments accepts
add_arguments_late p t c b i [] full cur e h = cc
add_arguments_late p t c b i (x ∷ s) full cur e h =
    accepts-append p c.events _ _ h.follows
    ∙ rw
        (
          late_delta i b c.next_block t.current c.opened c.tool_blocks (x ∷ s) cur e h.current
              h.numbered,
          accepts,
        )
        refl

call_at_late :
    (p : Phase) (t : Track) (c : Codec) (call : Call) (o : Option ℕ)
    → block_at call.index c.tool_blocks ≡ o
    → track_call t call ≡ none
    → IsSound p t c
    → IsOff p (call_at c call o)
unfolding track_call
call_at_late p t c call none e late h =
    let unseen : is_in call.index t.seen ≡ false =
      subst (λ s. is_in call.index s ≡ false) h.seen (is_in-keys-none call.index c.tool_blocks e) in
    absurd (ground arith)
call_at_late p t c call (some b) e late h =
    let full : is_empty call.arguments ≡ false = ground arith in
    let cur : is_current call.index t.current ≡ false = ground arith in
    unfold open_tool_at in add_arguments_late p t c b call.index call.arguments full cur e h

pub on_calls_late :
    (p : Phase) (t : Track) (c : Codec) (calls : List Call)
    → track_calls t calls ≡ none
    → IsSound p t c
    → IsOff p (on_calls c calls)
unfolding on_calls on_call track_calls
on_calls_late p t c [] late h = absurd (ground arith)
on_calls_late p t c (call ∷ calls) late h =
    let c' = record c {
      semantic =
          c.semantic || (is_given call.name || is_given call.id || not (is_empty call.arguments));
    } in
    let ready : IsSound p t c' = record {
      follows = h.follows;
      seen = h.seen;
      current = h.current;
      numbered = h.numbered;
    } in
    elim (Option-cases (track_call t call)) [
      | inl first ↦ on_calls-IsOff p (on_call c call) calls (
          unfold on_call in
          call_at_late p t c' call (block_at call.index c.tool_blocks) refl first ready)
      | inr (v, first) ↦ on_calls_late p v (on_call c call) calls (ground arith) (
          unfold on_call in
          call_at-IsSound p t v c' call (block_at call.index c.tool_blocks) refl first ready)
    ]
