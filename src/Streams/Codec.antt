-- ===== src/Streams/Codec.antt =====
-- anthropic-openai-codec.mjs: createAnthropicStreamCodec, which turns the frames of a stream of chat
-- completions into Anthropic events. JSON.parse is outside: a payload is what it makes of the text.
-- The events stand for the lines that are sent; id and model of the message are left out.
pub mod Grammar
use tokligence_gateway.Prelude.{
  ℕ, suc, ◌+◌, Bool, true, false, not, ◌&&◌, ◌||◌, List, [], ◌∷◌, ◌++◌, Option, none, some, Text,
  codes, decimal, ◌==◌, if◌then◌else◌,
}
pub use tokligence_gateway.Streams.Frames.{
  Finish, stop, length_reached, tool_calls, function_call, content_filter, unlisted, Call, Choice,
  Frame, Payload, done, malformed, scalar, frame, Opening, text_block, thinking_block, tool_block,
  Delta, text_delta, thinking_delta, json_delta, StopReason, end_turn, max_tokens, tool_use, Event,
  message_start, message_stop, block_start, block_delta, block_stop, message_delta,
}

pub data Kind : Type 0 where
  text tool : Kind

pub record Options : Type 0 where
  pub strict : Bool
  pub keep_reasoning : Bool

-- `opened` is `openKind` with `openBlock`.
pub record Codec : Type 0 where
  pub started : Bool
  pub finished : Bool
  pub next_block : ℕ
  pub opened : Option (Kind × ℕ)
  pub tool_blocks : List (ℕ × ℕ)
  pub events : List Event
  pub usage : ℕ × ℕ
  pub finish_reason : Option Finish
  pub terminal_done : Bool
  pub semantic : Bool

abbrev pub fresh : Codec
fresh = record {
  started = false;
  finished = false;
  next_block = 0;
  opened = none;
  tool_blocks = [];
  events = [];
  usage = (0, 0);
  finish_reason = none;
  terminal_done = false;
  semantic = false;
}

-- `no_events` is the TypeError of a caller that reads the events of `push` where it returns nothing.
pub data Fault : Type 0 where
  bad_data embedded_error unsuccessful_finish no_terminal no_message no_events : Fault

-- What `push` and `end` do: return the events that are drained, return nothing, or throw.
pub data Pushed : Type 0 where
  returned : Codec → List Event → Pushed
  no_value : Codec → Pushed
  raised : Codec → Fault → Pushed

abbrev pub emit : Codec → Event → Codec
emit c e = record c { events = c.events ++ e ∷ [] }

abbrev pub drained : Codec → Pushed
drained c = returned (record c { events = [] }) c.events

unfoldable pub close_kind : Codec → Option (Kind × ℕ) → Codec
close_kind c none = c
close_kind c (some (k, b)) = emit (record c { opened = none }) (block_stop b)

abbrev pub close_open : Codec → Codec
close_open c = close_kind c c.opened

-- A new block, and the kind that is open with it
unfoldable pub start_block : Codec → Kind → Opening → Codec
start_block c k o =
    let b = c.next_block in
    emit (record c { next_block = suc b; opened = some (k, b) }) (block_start b o)

unfoldable pub open_text_from : Codec → Option (Kind × ℕ) → Codec
open_text_from c (some (text, b)) = c
open_text_from c o = start_block (close_kind c o) text text_block

abbrev pub open_text : Codec → Codec
open_text c = open_text_from c c.opened

abbrev pub open_block : Codec → ℕ
open_block c = elim c.opened [ none ↦ 0 | some (k, b) ↦ b ]

unfoldable pub block_at : ℕ → List (ℕ × ℕ) → Option ℕ
block_at i [] = none
block_at i ((j, b) ∷ m) = if j == i then some b else block_at i m

abbrev pub or_text : Option Text → Text → Text
or_text none t = t
or_text (some s) t = s

unfoldable pub open_tool_at : Codec → Call → Option ℕ → Codec × ℕ
open_tool_at c call (some b) = (c, b)
open_tool_at c call none =
    let d = close_open c in
    let b = d.next_block in
    let id = or_text call.id (codes "call_" ++ decimal call.index) in
    (
      start_block (record d { tool_blocks = (call.index, b) ∷ d.tool_blocks }) tool
          (tool_block id (or_text call.name (codes "tool"))),
      b,
    )

unfoldable pub on_reasoning : Bool → Codec → Text → Codec
on_reasoning kept c [] = c
on_reasoning false c (x ∷ t) = record c { semantic = true }
on_reasoning true c (x ∷ t) =
    let d = close_open (record c { semantic = true }) in
    let b = d.next_block in
    let e = emit (record d { next_block = suc b }) (block_start b thinking_block) in
    emit (emit e (block_delta b (thinking_delta (x ∷ t)))) (block_stop b)

unfoldable pub on_content : Codec → Text → Codec
on_content c [] = c
on_content c (x ∷ t) =
    let d = open_text (record c { semantic = true }) in
    emit d (block_delta (open_block d) (text_delta (x ∷ t)))

abbrev pub is_given : Option Text → Bool
is_given none = false
is_given (some t) = true

abbrev pub is_empty : Text → Bool
is_empty [] = true
is_empty (x ∷ t) = false

unfoldable pub add_arguments : Codec × ℕ → Text → Codec
add_arguments (c, b) [] = c
add_arguments (c, b) (x ∷ t) = emit c (block_delta b (json_delta (x ∷ t)))

abbrev pub call_at : Codec → Call → Option ℕ → Codec
call_at c call o = add_arguments (open_tool_at c call o) call.arguments

unfoldable pub on_call : Codec → Call → Codec
on_call c call =
    let real = is_given call.name || is_given call.id || not (is_empty call.arguments) in
    call_at (record c { semantic = c.semantic || real }) call (block_at call.index c.tool_blocks)

unfoldable pub on_calls : Codec → List Call → Codec
on_calls c [] = c
on_calls c (call ∷ calls) = on_calls (on_call c call) calls

abbrev pub is_unlisted : Option Finish → Bool
is_unlisted (some (unlisted t)) = true
is_unlisted _ = false

abbrev pub or_finish : Option Finish → Option Finish → Option Finish
or_finish none old = old
or_finish (some f) old = some f

unfoldable pub on_choice : Options → Codec → Choice → Pushed
on_choice o c ch =
    let d =
      on_calls (on_content (on_reasoning o.keep_reasoning c ch.reasoning) ch.content) ch.calls in
    if o.strict && is_unlisted ch.finish
    then raised d unsuccessful_finish
    else drained (record d { finish_reason = or_finish ch.finish d.finish_reason })

unfoldable pub on_choices : Options → Codec → Option Choice → Pushed
on_choices o c none = drained c
on_choices o c (some ch) = on_choice o c ch

unfoldable pub start_unless : Bool → Codec → Codec
start_unless true c = c
start_unless false c = emit (record c { started = true }) message_start

abbrev pub start : Codec → Codec
start c = start_unless c.started c

abbrev pub or_count : ℕ → ℕ → ℕ
or_count n old = if n == 0 then old else n

abbrev pub with_usage : Codec → Option (ℕ × ℕ) → Codec
with_usage c none = c
with_usage c (some (i, o)) = record c { usage = (or_count i c.usage.0, or_count o c.usage.1) }

unfoldable pub on_frame : Options → Codec → Frame → Pushed
on_frame o c f =
    let d = with_usage (start c) f.usage in
    if f.is_error then raised c embedded_error else on_choices o d f.choice

unfoldable pub push : Options → Codec → Payload → Pushed
push o c done = drained (record c { terminal_done = true })
push o c malformed = if o.strict then raised c bad_data else no_value c
push o c scalar = if o.strict then raised c bad_data else drained c
push o c (frame f) = on_frame o c f

abbrev pub may_be_empty : Option Finish → Bool
may_be_empty (some content_filter) = true
may_be_empty (some length_reached) = true
may_be_empty _ = false

-- STOP_REASONS
abbrev pub stop_reason : Option Finish → StopReason
stop_reason (some length_reached) = max_tokens
stop_reason (some tool_calls) = tool_use
stop_reason _ = end_turn

abbrev pub is_none {ℓ} : {A : Type ℓ} → Option A → Bool
is_none none = true
is_none (some a) = false

unfoldable pub end : Options → Codec → Pushed
end o c =
    let d = close_open (start c) in
    let e = emit (emit d (message_delta (stop_reason c.finish_reason) c.usage)) message_stop in
    if o.strict && is_none c.finish_reason && not c.terminal_done
    then raised c no_terminal
    else if o.strict && not c.semantic && not (may_be_empty c.finish_reason)
    then raised c no_message
    else drained (record e { finished = true })

-- What is sent for a stream: all of it, or what has been sent when a fault ends it
pub data Outcome : Type 0 where
  completed : List Event → Outcome
  failed : List Event → Fault → Outcome

abbrev pub after_events : List Event → Outcome → Outcome
after_events es (completed fs) = completed (es ++ fs)
after_events es (failed fs fault) = failed (es ++ fs) fault

abbrev pub last_of : Pushed → Outcome
last_of (returned c es) = completed es
last_of (no_value c) = failed [] no_events
last_of (raised c fault) = failed [] fault

abbrev pub and_then : Pushed → (Codec → Outcome) → Outcome
and_then (returned c es) f = after_events es (f c)
and_then (no_value c) f = failed [] no_events
and_then (raised c fault) f = failed [] fault

-- The loop of respondWithCodec over the payloads of a stream
unfoldable pub translate : Options → Codec → List Payload → Outcome
translate o c [] = last_of (end o c)
translate o c (p ∷ ps) = and_then (push o c p) (λ d. translate o d ps)
