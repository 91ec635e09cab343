-- ===== src/Streams/Tests.antt =====
-- anthropic-openai-codec.mjs, request-executor.mjs: the streams at concrete inputs.
use tokligence_gateway.Prelude.{
  ℕ, ◌≡◌, ◌↔◌, refl, Bool, true, false, List, [], ◌∷◌, Option, none, some, Text, codes, text_eq,
  any, strip_prefix, trim_text, drop_end, skip_spaces, is_space, if◌then◌else◌,
}
use tokligence_gateway.Streams.Reader.{
  read_lines, cut_line, payload, push_all, payloads_of, lines, concat, push_all-concat,
}
use tokligence_gateway.Streams.Codec.{
  Choice, Call, Payload, done, frame, tool_calls, Options, Event, Outcome, translate, fresh,
  completed, failed, push, on_frame, start_unless, on_choices, on_choice, on_reasoning, on_content,
  open_text_from, close_kind, start_block, on_calls, on_call, open_tool_at, block_at, add_arguments,
  end,
}
use tokligence_gateway.Streams.Codec.Grammar.{
  accepts, accept, before, after, is_orderly, track, track_choice, track_calls, track_call,
}
use tokligence_gateway.Streams.Codec.Grammar.Message.{IsMessage, untracked, translate-IsMessage}
use tokligence_gateway.Streams.Codec.Grammar.Late.{translate-completed_iff}
use tokligence_gateway.Streams.Collect.{collect}
use tokligence_gateway.Streams.Collect.Whole.{said, thought}
use tokligence_gateway.Streams.Collect.Whole.Round.{said_by, thought_by, collect-translate}
use tokligence_gateway.Streams.Preflight.{
  Seen, Limits, Verdict, settled, Signal, chunk, preflight, on_signal, take_text, inspect_all,
  inspect, on_parsed, on_seen, on_finish, speaks, after_chunk,
}
use tokligence_gateway.Streams.Reader as Reader
use tokligence_gateway.Streams.Reply.{openai_to_anthropic_message}
use tokligence_gateway.Streams.Reply.Same.{whole_frame, collect-openai_to_anthropic_message}
use tokligence_gateway.Streams.Preflight as Preflight
use tokligence_gateway.Streams.Preflight.Quiet.{quiet}
use tokligence_gateway.Streams.Preflight.Verdicts.{preflight-quiet}

abbrev two_chunks : List Text
two_chunks = codes "data: {\"a\"" ∷ (codes ":1}\n\ndata:" ∷ codes " [DONE]\n" ∷ [])

push_all-concat_example :
    push_all [] two_chunks
    ≡ (payloads_of (lines (concat two_chunks)).0, (lines (concat two_chunks)).1)
push_all-concat_example = push_all-concat two_chunks

abbrev strict : Options
strict = record { strict = true; keep_reasoning = true }

abbrev said_frame : Text → Text → Payload
said_frame reasoning content = frame (record {
  is_error = false;
  usage = none;
  choice = some (record { reasoning = reasoning; content = content; calls = []; finish = none });
})

abbrev call_frame : List Call → Payload
call_frame calls = frame (record {
  is_error = false;
  usage = some (7, 5);
  choice = some (record { reasoning = []; content = []; calls = calls; finish = some tool_calls });
})

abbrev a_call : ℕ → Text → Call
a_call i t = record { index = i; id = none; name = some (codes "read"); arguments = t }

abbrev full_call : ℕ → Call
full_call i = record {
  index = i;
  id = some (codes "c");
  name = some (codes "read");
  arguments = codes "{}";
}

-- Reasoning, text, and two tool calls in one frame
abbrev whole_calls : List Payload
whole_calls =
    said_frame (codes "hm") []
    ∷ (said_frame [] (codes "ok")
        ∷ (call_frame (a_call 0 (codes "{}") ∷ (a_call 1 (codes "{}") ∷ [])) ∷ (done ∷ [])))

whole_orderly : is_orderly true untracked whole_calls ≡ true
unfolding is_orderly track track_choice track_calls track_call
whole_orderly = refl

translate-IsMessage_example : IsMessage before (translate strict fresh whole_calls)
translate-IsMessage_example = translate-IsMessage strict whole_calls whole_orderly

abbrev events_of : Outcome → List Event
events_of (completed es) = es
events_of (failed es fault) = es

abbrev sent : List Payload → List Event
sent ps = events_of (translate strict fresh ps)

whole_completed : translate strict fresh whole_calls ≡ completed (sent whole_calls)
unfolding translate push on_frame start_unless on_choices on_choice on_reasoning on_content
    open_text_from close_kind start_block on_calls on_call open_tool_at block_at add_arguments end
whole_completed = refl

translate-completed_iff_example :
    (accepts before (sent whole_calls) ≡ some after)
    ↔ (is_orderly true untracked whole_calls ≡ true)
translate-completed_iff_example =
    translate-completed_iff strict whole_calls (sent whole_calls) whole_completed

-- Two calls of which the pieces mix: the second piece of the first call comes after the second call.
abbrev mixed_calls : List Payload
mixed_calls =
    call_frame (a_call 0 (codes "{") ∷ (a_call 1 (codes "{}") ∷ (a_call 0 (codes "}") ∷ [])))
    ∷ (done ∷ [])

mixed_rejected : accepts before (sent mixed_calls) ≡ none
unfolding translate push on_frame start_unless on_choices on_choice on_reasoning on_content
    open_text_from close_kind start_block on_calls on_call open_tool_at block_at add_arguments end
    accepts accept
mixed_rejected = refl

collect-translate_example :
    (said (collect (sent whole_calls)).0 ≡ said_by whole_calls)
    × (thought (collect (sent whole_calls)).0 ≡ thought_by true whole_calls)
collect-translate_example = collect-translate strict whole_calls (sent whole_calls) whole_completed

abbrev parse_hi : Text → Option Seen
parse_hi t =
    if text_eq t (codes "hi")
    then some (record {
      is_error = false;
      content = [];
      reasoning = [];
      reasoning_content = [];
      calls = [];
      finish = none;
    })
    else none

abbrev streaming : Limits
streaming = record { limit = 100; allow_retry = false; wait = false }

-- A frame that says nothing, and then a line that is no JSON
abbrev silent_failure : List (Bool × Signal)
silent_failure =
    (false, chunk 9 (codes "data: hi\n")) ∷ ((false, chunk 11 (codes "data: oops\n")) ∷ [])

abbrev retried : Verdict
retried = record {
  retryable = true;
  semantic = false;
  complete = false;
  failed = true;
  prefix = codes "data: hi\ndata: oops\n";
  ended = false;
}

silent_failure_settled :
    preflight parse_hi streaming Preflight.fresh silent_failure ≡ settled retried
unfolding preflight on_signal take_text inspect_all inspect on_parsed on_seen on_finish speaks
    after_chunk Reader.push read_lines cut_line payload strip_prefix trim_text drop_end skip_spaces
    is_space text_eq any
silent_failure_settled = refl

preflight-quiet_example :
    quiet parse_hi (payloads_of (lines (codes "data: hi\ndata: oops\n")).0) ≡ true
preflight-quiet_example =
    preflight-quiet parse_hi streaming silent_failure retried refl refl silent_failure_settled refl

-- A completion with reasoning, a text and two calls, in one frame
abbrev completion : Choice
completion = record {
  reasoning = codes "hm";
  content = codes "ok";
  calls = full_call 0 ∷ (full_call 1 ∷ []);
  finish = some tool_calls;
}

abbrev one_frame : List Payload
one_frame = frame (whole_frame completion none) ∷ (done ∷ [])

one_frame_completed : translate strict fresh one_frame ≡ completed (sent one_frame)
unfolding translate push on_frame start_unless on_choices on_choice on_reasoning on_content
    open_text_from close_kind start_block on_calls on_call open_tool_at block_at add_arguments end
one_frame_completed = refl

collect-openai_to_anthropic_message_example :
    ((collect (sent one_frame)).0 ≡ (openai_to_anthropic_message true completion none).0)
    × ((collect (sent one_frame)).1 ≡ (openai_to_anthropic_message true completion none).1)
collect-openai_to_anthropic_message_example =
    collect-openai_to_anthropic_message strict completion tool_calls none (sent one_frame) refl refl
      one_frame_completed
