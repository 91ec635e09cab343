-- ===== src/Streams/Preflight.antt =====
-- request-executor.mjs: preflightOpenCodeStream, which holds a stream back until it has said
-- something, so that another account can be tried while nothing has been seen of it. JSON.parse is a
-- parameter; the decoding of bytes is outside, and so are the handlers that are taken off.
pub mod Quiet
pub mod Verdicts
use tokligence_gateway.Prelude.{
  ℕ, ◌+◌, Bool, true, false, not, ◌&&◌, ◌||◌, List, [], ◌∷◌, ◌++◌, Option, none, some, Text, codes,
  text_eq, ltb, any, length, if◌then◌else◌,
}
use tokligence_gateway.Streams.Reader.{push}
use tokligence_gateway.Streams.Codec.{
  Finish, stop, length_reached, tool_calls, function_call, content_filter, unlisted, Call, is_given,
  is_empty,
}

-- What is read of a frame: its error, and the delta and the finish reason of its first choice
pub record Seen : Type 0 where
  pub is_error : Bool
  pub content : Text
  pub reasoning : Text
  pub reasoning_content : Text
  pub calls : List Call
  pub finish : Option Finish

pub record Limits : Type 0 where
  pub limit : ℕ
  -- `allowRetryAfterSemantic` and `waitForCompletion`
  pub allow_retry : Bool
  pub wait : Bool

pub record Watch : Type 0 where
  pub buffer : Text
  pub prefix : Text
  pub bytes : ℕ
  pub semantic : Bool
  pub complete : Bool
  pub finish_seen : Bool

abbrev pub fresh : Watch
fresh = record {
  buffer = [];
  prefix = [];
  bytes = 0;
  semantic = false;
  complete = false;
  finish_seen = false;
}

-- What the promise is resolved with
pub record Verdict : Type 0 where
  pub retryable : Bool
  pub semantic : Bool
  pub complete : Bool
  pub failed : Bool
  pub prefix : Text
  pub ended : Bool

pub data Watched : Type 0 where
  watching : Watch → Watched
  settled : Verdict → Watched

-- A chunk with its bytes and what is decoded of it, the end with the last of the decoded text and
-- its bytes, an error, an abort, or the time is up
pub data Signal : Type 0 where
  chunk : ℕ → Text → Signal
  closed : ℕ → Text → Signal
  broken aborted timed_out : Signal

abbrev pub call_speaks : Call → Bool
call_speaks call = is_given call.id || is_given call.name || not (is_empty call.arguments)

unfoldable pub speaks : Seen → Bool
speaks f =
    not (is_empty f.content)
    || not (is_empty f.reasoning)
    || not (is_empty f.reasoning_content)
    || any call_speaks f.calls

abbrev pub is_filter : Option Finish → Bool
is_filter (some content_filter) = true
is_filter _ = false

-- The finish reason of a frame: the watch after it, and whether it is an error
unfoldable pub on_finish : Limits → Watch → Option Finish → Watch × Bool
on_finish x w none = (w, false)
on_finish x w (some (unlisted t)) = (w, true)
on_finish x w f = if x.wait && not w.semantic && not (is_filter f) then (w, true) else (
  record w {
    finish_seen = true;
    complete = w.complete || not x.wait;
    semantic = w.semantic || not x.wait;
  },
  false,
)

unfoldable pub on_seen : Limits → Watch → Seen → Watch × Bool
on_seen x w f =
    if f.is_error
    then (w, true)
    else on_finish x
        (record w { semantic = w.semantic || speaks f || (x.wait && is_filter f.finish) }) f.finish

abbrev pub verdict : Limits → Watch → Bool → Bool → Bool → Verdict
verdict x w can_retry failed ended = record {
  retryable = can_retry;
  semantic = w.semantic;
  complete = w.complete;
  failed = failed;
  prefix = w.prefix;
  ended = ended;
}

-- A failure: another account may be tried unless something has been said, or the request is over.
abbrev pub fault : Limits → Bool → Watch → Bool → Watched
fault x is_aborted w ended =
    settled (verdict x w ((x.allow_retry || not w.semantic) && not is_aborted) true ended)

abbrev pub is_done : Limits → Watch → Bool
is_done x w = w.complete && (not x.wait || w.finish_seen)

abbrev pub go_on : Watched → (Watch → Watched) → Watched
go_on (settled v) f = settled v
go_on (watching w) f = f w

module _ (parse : Text → Option Seen) where
  unfoldable pub on_parsed : Limits → Watch → Option Seen → Watch × Bool
  on_parsed x w none = (w, true)
  on_parsed x w (some f) = on_seen x w f

  -- `inspect`
  unfoldable pub inspect : Limits → Watch → Text → Watch × Bool
  inspect x w payload =
      if text_eq payload (codes "[DONE]")
      then (if x.wait && not w.semantic then (w, true) else (record w { complete = true }, false))
      else on_parsed x w (parse payload)

  -- The payloads up to the first that is an error
  unfoldable pub inspect_all : Limits → Watch → List Text → Watch × Bool
  inspect_all x w [] = (w, false)
  inspect_all x w (p ∷ ps) =
      let (w', is_fault) = inspect x w p in
      let rest = inspect_all x w' ps in if is_fault then (w', true) else rest

  -- A text that has been decoded: the watch after it, and whether there is an error in it
  unfoldable pub take_text : Limits → Watch → ℕ → Text → Watch × Bool
  take_text x w size text =
      let (payloads, left) = push w.buffer text in
      inspect_all x (record w { buffer = left; prefix = w.prefix ++ text; bytes = w.bytes + size })
        payloads

  unfoldable pub after_chunk : Limits → Bool → Watch × Bool → Watched
  after_chunk x is_aborted (w, true) = fault x is_aborted w false
  after_chunk x is_aborted (w, false) =
      if is_done x w
      then settled (verdict x w false false false)
      else if w.semantic && not x.wait
      then settled (verdict x w false false false)
      else watching w

  unfoldable pub after_end : Limits → Bool → Watch × Bool → Watched
  after_end x is_aborted (w, true) = fault x is_aborted w true
  after_end x is_aborted (w, false) = settled (
      verdict x w ((x.allow_retry || not w.semantic) && not is_aborted)
        (not (w.complete && w.semantic && (not x.wait || w.finish_seen))) true)

  -- A handler, with `signal.aborted`
  unfoldable pub on_signal : Limits → Bool → Watch → Signal → Watched
  on_signal x is_aborted w (chunk size text) =
      if ltb x.limit (w.bytes + size)
      then fault x is_aborted w false
      else after_chunk x is_aborted (take_text x w size text)
  on_signal x is_aborted w (closed size []) = after_end x is_aborted (w, false)
  on_signal x is_aborted w (closed size (c ∷ text)) =
      if ltb x.limit (w.bytes + size)
      then fault x is_aborted w true
      else after_end x is_aborted (take_text x w size (c ∷ text))
  on_signal x is_aborted w broken = fault x is_aborted w true
  on_signal x is_aborted w aborted = settled (verdict x w false true true)
  on_signal x is_aborted w timed_out =
      settled (verdict x w (not w.semantic && not is_aborted) true false)

  -- The signals up to the one that settles it
  unfoldable pub preflight : Limits → Watch → List (Bool × Signal) → Watched
  preflight x w [] = watching w
  preflight x w ((is_aborted, s) ∷ signals) =
      go_on (on_signal x is_aborted w s) (λ w'. preflight x w' signals)
