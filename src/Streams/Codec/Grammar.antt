-- ===== src/Streams/Codec/Grammar.antt =====
-- anthropic-openai-codec.mjs: the order of events that a client of Anthropic streams relies on, and
-- the streams of chat completions for which createAnthropicStreamCodec keeps it.
pub mod Blocks
pub mod Calls
pub mod Started
pub mod Pushes
pub mod Message
pub mod Off
pub mod Late
use tokligence_gateway.Prelude.{
  ℕ, suc, ◌+◌, ◌<◌, ◌≢◌, ◌≡◌, refl, sym, ap, ◌∙◌, inl, inr, subst, Bool, true, false, not, ◌&&◌,
  ◌||◌, List, [], ◌∷◌, ◌++◌, Option, none, some, arith, Text, codes, ◌==◌, if◌then◌else◌,
  Bool-cases, Option-cases, some-injective,
}
use tokligence_gateway.Streams.Codec.{
  Call, Choice, Payload, done, malformed, scalar, frame, Frame, Opening, text_block, thinking_block,
  tool_block, Delta, text_delta, thinking_delta, json_delta, Event, message_start, message_stop,
  block_start, block_delta, block_stop, message_delta, Kind, text, tool, Options, Codec, fresh,
  Pushed, returned, no_value, raised, emit, drained, close_open, close_kind, start_block, open_text,
  open_text_from, open_tool_at, open_block, block_at, on_reasoning, on_content, is_empty,
  add_arguments, call_at, on_call, on_calls, on_choice, on_choices, is_unlisted, start,
  start_unless, on_frame, push, end, Outcome, completed, failed, after_events, translate, last_of,
  with_usage, and_then, stop_reason, is_none, may_be_empty,
}

-- Where a stream of events is: before the message, between two blocks of which the number is the
-- next, inside a block, before the end, or at it
pub data Phase : Type 0 where
  before closing after : Phase
  between : ℕ → Phase
  in_text in_tool in_thinking : ℕ → Phase

abbrev pub entered : ℕ → Opening → Phase
entered n text_block = in_text n
entered n thinking_block = in_thinking n
entered n (tool_block id name) = in_tool n

abbrev pub when : Bool → Phase → Option Phase
when true q = some q
when false q = none

-- The event that may come next, and where it leads: blocks are numbered from 0, one after the
-- other, and what is in a block names its number and is of its kind.
unfoldable pub accept : Phase → Event → Option Phase
accept before message_start = some (between 0)
accept (between n) (block_start m o) = when (n == m) (entered n o)
accept (between n) (message_delta r u) = some closing
accept (in_text n) (block_delta m (text_delta t)) = when (n == m) (in_text n)
accept (in_text n) (block_stop m) = when (n == m) (between (suc n))
accept (in_tool n) (block_delta m (json_delta t)) = when (n == m) (in_tool n)
accept (in_tool n) (block_stop m) = when (n == m) (between (suc n))
accept (in_thinking n) (block_delta m (thinking_delta t)) = when (n == m) (in_thinking n)
accept (in_thinking n) (block_stop m) = when (n == m) (between (suc n))
accept closing message_stop = some after
accept _ _ = none

unfoldable pub accepts : Phase → List Event → Option Phase
accepts p [] = some p
accepts p (e ∷ es) = elim (accept p e) [ none ↦ none | some q ↦ accepts q es ]

-- The tool calls of a stream so far: their indices, and the one that is going on
pub record Track : Type 0 where
  pub seen : List ℕ
  pub current : Option ℕ

abbrev pub is_in : ℕ → List ℕ → Bool
is_in i [] = false
is_in i (j ∷ js) = if j == i then true else is_in i js

abbrev pub is_current : ℕ → Option ℕ → Bool
is_current i none = false
is_current i (some j) = j == i

-- The arguments of a call may not come after those of another one, or after text, has come between.
unfoldable pub track_call : Track → Call → Option Track
track_call t call =
    if not (is_in call.index t.seen)
    then some (record { seen = call.index ∷ t.seen; current = some call.index })
    else if is_current call.index t.current || is_empty call.arguments
    then some t
    else none

unfoldable pub track_calls : Track → List Call → Option Track
track_calls t [] = some t
track_calls t (call ∷ calls) = elim (track_call t call) [
  | none ↦ none
  | some u ↦ track_calls u calls
]

abbrev pub interrupt : Bool → Text → Track → Track
interrupt true (x ∷ s) t = record t { current = none }
interrupt _ _ t = t

unfoldable pub track_choice : Bool → Track → Option Choice → Option Track
track_choice kept t none = some t
track_choice kept t (some ch) =
    track_calls (interrupt true ch.content (interrupt kept ch.reasoning t)) ch.calls

unfoldable pub track : Bool → Track → Payload → Option Track
track kept t (frame f) = track_choice kept t f.choice
track kept t _ = some t

-- Each tool call of the stream comes in one piece.
unfoldable pub is_orderly : Bool → Track → List Payload → Bool
is_orderly kept t [] = true
is_orderly kept t (p ∷ ps) = elim (track kept t p) [ none ↦ false | some u ↦ is_orderly kept u ps ]

accepts-append :
    (p : Phase) (es fs : List Event) (q : Phase)
    → accepts p es ≡ some q
    → accepts p (es ++ fs) ≡ accepts q fs
unfolding accepts
accepts-append p [] fs q h = ground arith
accepts-append p (e ∷ es) fs q h = elim (Option-cases (accept p e)) [
  | inl nothing ↦ absurd (ground arith)
  | inr (r, next) ↦ rw (next, accepts) (accepts-append r es fs q (ground arith))
]

abbrev phase_of : Option (Kind × ℕ) → ℕ → Phase
phase_of none n = between n
phase_of (some (text, b)) n = in_text b
phase_of (some (tool, b)) n = in_tool b

abbrev pub keys : List (ℕ × ℕ) → List ℕ
keys [] = []
keys ((i, b) ∷ m) = i ∷ keys m

abbrev IsOpen : Option ℕ → Option (Kind × ℕ) → ℕ → List (ℕ × ℕ) → Type 0
IsOpen none none n m = Unit
IsOpen none (some (text, b)) n m = n ≡ suc b
IsOpen (some i) (some (tool, b)) n m = (n ≡ suc b) × (block_at i m ≡ some b)
IsOpen _ _ n m = ⊥

-- The blocks of the tools, the last one first, have falling numbers.
abbrev IsNumbered : ℕ → List (ℕ × ℕ) → Type 0
IsNumbered n [] = Unit
IsNumbered n ((i, b) ∷ m) = (b < n) × IsNumbered b m

IsNumbered-suc : (n : ℕ) (m : List (ℕ × ℕ)) → IsNumbered n m → IsNumbered (suc n) m
IsNumbered-suc n [] h = tt
IsNumbered-suc n ((i, b) ∷ m) (lt, h) = (omega arith, h)

-- The events in the buffer, from the phase on, lead to what is open, and the tools are those seen.
record Holds (p : Phase) (t : Track) (o : Option (Kind × ℕ)) (c : Codec) : Type 0 where
  follows : accepts p c.events ≡ some (phase_of o c.next_block)
  seen : keys c.tool_blocks ≡ t.seen
  current : IsOpen t.current o c.next_block c.tool_blocks
  numbered : IsNumbered c.next_block c.tool_blocks

abbrev IsSound : Phase → Track → Codec → Type 0
IsSound p t c = Holds p t c.opened c

abbrev stopped : Track → Track
stopped t = record t { current = none }

emit-follows :
    (p q r : Phase) (es : List Event) (e : Event)
    → accepts p es ≡ some q
    → accept q e ≡ some r
    → accepts p (es ++ e ∷ []) ≡ some r
unfolding accepts
emit-follows p q r es e h next = accepts-append p es (e ∷ []) q h ∙ rw (next, accepts) refl
