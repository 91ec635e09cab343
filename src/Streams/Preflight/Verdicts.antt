-- ===== src/Streams/Preflight/Verdicts.antt =====
-- request-executor.mjs: when preflightOpenCodeStream lets another account be tried.
use mathlib.Core.List.{append-nil}
use tokligence_gateway.Prelude.{
  ℕ, ◌+◌, ◌≡◌, refl, sym, ap, ◌∙◌, subst, inl, inr, Bool, true, false, not, ◌&&◌, List, [], ◌∷◌,
  ◌++◌, Option, arith, Text, ltb, Bool-cases,
}
use tokligence_gateway.Streams.Reader.{
  push, lines, payloads_of, lines-append, push-lines, payloads_of-append,
}
use tokligence_gateway.Streams.Preflight.{
  Seen, Limits, Watch, fresh, Verdict, Watched, watching, settled, Signal, chunk, closed, broken,
  aborted, timed_out, fault, is_done, take_text, after_chunk, after_end, on_signal, go_on,
  preflight,
}
use tokligence_gateway.Streams.Preflight.Quiet.{
  quiet, clean, quiet-append, inspect-quiet, Same, inspect_all-Same,
}

-- The buffer is what is after the last line, and a watch that has heard nothing has read clean frames.
record IsHeld (parse : Text → Option Seen) (w : Watch) : Type 0 where
  rest : w.buffer ≡ (lines w.prefix).1
  unheard : w.semantic ≡ false → clean parse (payloads_of (lines w.prefix).0) ≡ true

clean-append :
    (parse : Text → Option Seen) (ps qs : List Text)
    → clean parse ps ≡ true
    → clean parse qs ≡ true
    → clean parse (ps ++ qs) ≡ true
unfolding clean
clean-append parse [] qs h g = g
clean-append parse (p ∷ ps) qs h g = ground (arith, clean-append parse ps qs)

clean-quiet :
    (parse : Text → Option Seen) (ps : List Text) → clean parse ps ≡ true → quiet parse ps ≡ true
clean-quiet parse ps h =
    ap (quiet parse) (sym (append-nil ps)) ∙ quiet-append parse ps [] h (unfold quiet in refl)

-- A text that comes after another one adds the payloads that are read of it.
push-more :
    (t u b : Text)
    → b ≡ (lines t).1
    → (payloads_of (lines (t ++ u)).0 ≡ payloads_of (lines t).0 ++ (push b u).0)
      × ((push b u).1 ≡ (lines (t ++ u)).1)
push-more t u b e =
    rw (e, lines-append t u, push-lines (lines t).1 u) (payloads_of-append (lines t).0 _, refl)

module _ (parse : Text → Option Seen) (x : Limits) (streams : x.wait ≡ false) where
  take_text-quiet :
      (w : Watch) (size : ℕ) (text : Text)
      → IsHeld parse w
      → (take_text parse x w size text).0.semantic ≡ false
      → quiet parse (payloads_of (lines (take_text parse x w size text).0.prefix).0) ≡ true
  unfolding take_text Same
  take_text-quiet w size text held unheard =
      let (payloads, left) = push w.buffer text in
      let w' : Watch = record w {
        buffer = left;
        prefix = w.prefix ++ text;
        bytes = w.bytes + size;
      } in
      let (same_buffer, same_prefix) = inspect_all-Same parse x w' payloads in
      let (was, now, all) = inspect-quiet parse x w' payloads streams unheard in
      let (more, _) = push-more w.prefix text w.buffer held.rest in
      rw (same_prefix, more) (quiet-append parse _ payloads (held.unheard was) now)

  take_text-IsHeld :
      (w : Watch) (size : ℕ) (text : Text)
      → IsHeld parse w
      → (take_text parse x w size text).1 ≡ false
      → IsHeld parse (take_text parse x w size text).0
  unfolding take_text Same
  take_text-IsHeld w size text held good =
      let (payloads, left) = push w.buffer text in
      let w' : Watch = record w {
        buffer = left;
        prefix = w.prefix ++ text;
        bytes = w.bytes + size;
      } in
      let (same_buffer, same_prefix) = inspect_all-Same parse x w' payloads in
      let (more, rest) = push-more w.prefix text w.buffer held.rest in
      record {
        rest = same_buffer ∙ rest ∙ ap (λ t. (lines t).1) (sym same_prefix);
        unheard = λ unheard.
            let (was, now, all) = inspect-quiet parse x w' payloads streams unheard in
            rw (same_prefix, more) (clean-append parse _ payloads (held.unheard was) (all good));
      }

  held-quiet :
      (w : Watch)
      → IsHeld parse w
      → w.semantic ≡ false
      → quiet parse (payloads_of (lines w.prefix).0) ≡ true
  held-quiet w held h = clean-quiet parse _ (held.unheard h)

  -- What settles, and may be retried, is quiet; what goes on is held.
  IsFair : Watched → Type 0
  IsFair (watching w) = IsHeld parse w
  IsFair (settled v) = v.retryable ≡ true → quiet parse (payloads_of (lines v.prefix).0) ≡ true

  module _ (once : x.allow_retry ≡ false) where
    fault-IsFair :
        (is_aborted : Bool) (w : Watch) (ended : Bool)
        → (w.semantic ≡ false → quiet parse (payloads_of (lines w.prefix).0) ≡ true)
        → IsFair (fault x is_aborted w ended)
    unfolding IsFair
    fault-IsFair is_aborted w ended h = λ r. h (ground arith)

    after_chunk-IsFair :
        (is_aborted : Bool) (r : Watch × Bool)
        → (r.0.semantic ≡ false → quiet parse (payloads_of (lines r.0.prefix).0) ≡ true)
        → (r.1 ≡ false → IsHeld parse r.0)
        → IsFair (after_chunk parse x is_aborted r)
    unfolding after_chunk
    after_chunk-IsFair is_aborted (w, true) h held = fault-IsFair is_aborted w false h
    after_chunk-IsFair is_aborted (w, false) h held = elim (Bool-cases (is_done x w)) [
      | inl over ↦ rw (over, after_chunk) (unfold IsFair in λ r. cc)
      | inr going ↦ elim (Bool-cases (w.semantic && not x.wait)) [
        | inl heard ↦ rw (going, heard, after_chunk) (unfold IsFair in λ r. cc)
        | inr unheard ↦ rw (going, unheard, after_chunk) (unfold IsFair in held refl)
      ]
    ]

    after_end-IsFair :
        (is_aborted : Bool) (r : Watch × Bool)
        → (r.0.semantic ≡ false → quiet parse (payloads_of (lines r.0.prefix).0) ≡ true)
        → IsFair (after_end parse x is_aborted r)
    unfolding after_end IsFair
    after_end-IsFair is_aborted (w, true) h = fault-IsFair is_aborted w true h
    after_end-IsFair is_aborted (w, false) h = λ r. h (ground arith)

    on_signal-IsFair :
        (is_aborted : Bool) (w : Watch) (s : Signal)
        → IsHeld parse w
        → IsFair (on_signal parse x is_aborted w s)
    unfolding on_signal
    on_signal-IsFair is_aborted w (chunk size text) held =
        elim (Bool-cases (ltb x.limit (w.bytes + size))) [
          | inl much ↦ rw (much, on_signal) (fault-IsFair is_aborted w false (held-quiet w held))
          | inr fits ↦
              rw (fits, on_signal)
                (after_chunk-IsFair is_aborted (take_text parse x w size text)
                  (take_text-quiet w size text held) (take_text-IsHeld w size text held))
        ]
    on_signal-IsFair is_aborted w (closed size []) held =
        after_end-IsFair is_aborted (w, false) (held-quiet w held)
    on_signal-IsFair is_aborted w (closed size (c ∷ text)) held =
        elim (Bool-cases (ltb x.limit (w.bytes + size))) [
          | inl much ↦ rw (much, on_signal) (fault-IsFair is_aborted w true (held-quiet w held))
          | inr fits ↦
              rw (fits, on_signal)
                (after_end-IsFair is_aborted (take_text parse x w size (c ∷ text))
                  (take_text-quiet w size (c ∷ text) held))
        ]
    on_signal-IsFair is_aborted w broken held = fault-IsFair is_aborted w true (held-quiet w held)
    on_signal-IsFair is_aborted w aborted held = unfold IsFair in λ r. cc
    on_signal-IsFair is_aborted w timed_out held =
        unfold IsFair in λ r. held-quiet w held (ground arith)

    go_on-IsFair :
        (m : Watched) (f : Watch → Watched)
        → IsFair m
        → ((w : Watch) → IsHeld parse w → IsFair (f w))
        → IsFair (go_on m f)
    go_on-IsFair (settled v) f fair h = fair
    go_on-IsFair (watching w) f fair h = h w (unfold IsFair in fair)

    preflight-IsFair :
        (w : Watch) (signals : List (Bool × Signal))
        → IsHeld parse w
        → IsFair (preflight parse x w signals)
    unfolding preflight
    preflight-IsFair w [] held = unfold IsFair in held
    preflight-IsFair w ((is_aborted, s) ∷ signals) held =
        go_on-IsFair (on_signal parse x is_aborted w s) (λ w'. preflight parse x w' signals)
          (on_signal-IsFair is_aborted w s held) (λ w' held'. preflight-IsFair w' signals held')

-- A stream that is passed on as it comes, and may not be repeated once something has been said, is
-- given to another account only if nothing of it has been said: in the payloads of the text that has
-- been read no frame before the first error, or a finish that is none, says or finishes anything.
pub preflight-quiet :
    (parse : Text → Option Seen) (x : Limits) (signals : List (Bool × Signal)) (v : Verdict)
    → x.wait ≡ false
    → x.allow_retry ≡ false
    → preflight parse x fresh signals ≡ settled v
    → v.retryable ≡ true
    → quiet parse (payloads_of (lines v.prefix).0) ≡ true
unfolding IsFair
preflight-quiet parse x signals v streams once e r =
    subst (IsFair parse x streams) e
      (preflight-IsFair parse x streams once fresh signals (record {
        rest = unfold lines in refl;
        unheard = λ _. unfold lines payloads_of clean in refl;
      }))
      r
