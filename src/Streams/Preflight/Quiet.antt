-- ===== src/Streams/Preflight/Quiet.antt =====
-- request-executor.mjs: frames of which a client sees nothing, and what preflightOpenCodeStream makes
-- of them.
use tokligence_gateway.Prelude.{
  any, all, ◌≡◌, refl, sym, ap, ◌∙◌, inl, inr, Bool, true, false, not, ◌&&◌, ◌||◌, List, [], ◌∷◌,
  ◌++◌, Option, none, some, arith, Text, codes, text_eq, if◌then◌else◌, Bool-cases,
}
use tokligence_gateway.Streams.Codec.{Call, is_given, is_empty, Finish, unlisted}
use tokligence_gateway.Streams.Preflight.{
  call_speaks, Seen, Limits, Watch, speaks, is_filter, on_finish, on_seen, on_parsed, inspect,
  inspect_all,
}

-- A frame that ends the preflight as an error
abbrev pub is_bad_finish : Option Finish → Bool
is_bad_finish (some (unlisted t)) = true
is_bad_finish _ = false

abbrev pub is_finish : Option Finish → Bool
is_finish none = false
is_finish (some f) = true

-- A frame without content, reasoning or a part of a tool call that has something in it
abbrev pub is_silent_call : Call → Bool
is_silent_call call = not (is_given call.id) && not (is_given call.name) && is_empty call.arguments

unfoldable pub is_silent : Seen → Bool
is_silent f =
    is_empty f.content
    && is_empty f.reasoning
    && is_empty f.reasoning_content
    && all is_silent_call f.calls

any-silent : (calls : List Call) → any call_speaks calls ≡ not (all is_silent_call calls)
unfolding any all
any-silent [] = refl
any-silent (call ∷ calls) = ground (arith, any-silent calls)

speaks-silent : (f : Seen) → speaks f ≡ not (is_silent f)
unfolding speaks is_silent
speaks-silent f = ground (arith, any-silent f.calls)

-- What a frame says for the client is nothing: up to the first error nothing is said or finished.
unfoldable pub quiet_seen : Option Seen → Bool → Bool
quiet_seen none later = true
quiet_seen (some f) later =
    f.is_error || (is_silent f && (is_bad_finish f.finish || (not (is_finish f.finish) && later)))

unfoldable pub quiet : (Text → Option Seen) → List Text → Bool
quiet parse [] = true
quiet parse (p ∷ ps) =
    let later = quiet parse ps in
    if text_eq p (codes "[DONE]") then later else quiet_seen (parse p) later

-- Frames of which none is an error either
unfoldable pub clean_seen : Option Seen → Bool
clean_seen none = false
clean_seen (some f) = not f.is_error && is_silent f && not (is_finish f.finish)

unfoldable pub clean : (Text → Option Seen) → List Text → Bool
clean parse [] = true
clean parse (p ∷ ps) =
    let later = clean parse ps in
    if text_eq p (codes "[DONE]") then later else clean_seen (parse p) && later

quiet_clean : (o : Option Seen) (later : Bool) → clean_seen o ≡ true → quiet_seen o later ≡ later
unfolding quiet_seen clean_seen
quiet_clean none later h = cc
quiet_clean (some f) later h = ground arith

pub quiet-append :
    (parse : Text → Option Seen) (ps qs : List Text)
    → clean parse ps ≡ true
    → quiet parse qs ≡ true
    → quiet parse (ps ++ qs) ≡ true
unfolding quiet clean
quiet-append parse [] qs h g = g
quiet-append parse (p ∷ ps) qs h g =
    ground (arith, quiet-append parse ps qs, quiet_clean (parse p) (quiet parse (ps ++ qs)))

on_finish_lem :
    (x : Limits) (w : Watch) (o : Option Finish)
    → x.wait ≡ false
    → ((on_finish x w o).0.semantic ≡ (w.semantic || (is_finish o && not (is_bad_finish o))))
      × ((on_finish x w o).1 ≡ is_bad_finish o)
unfolding on_finish
on_finish_lem x w v2 e = ground arith

-- Where the client is to be streamed to, a watch that has heard nothing has read quiet frames only.
on_seen-quiet :
    (x : Limits) (w : Watch) (o : Option Seen) (parse : Text → Option Seen)
    → x.wait ≡ false
    → (on_parsed parse x w o).0.semantic ≡ false
    → (w.semantic ≡ false)
      × ((on_parsed parse x w o).1 ≡ true → (later : Bool) → quiet_seen o later ≡ true)
      × ((on_parsed parse x w o).1 ≡ false → clean_seen o ≡ true)
unfolding on_parsed on_seen quiet_seen clean_seen
on_seen-quiet x w none parse e h = (h, λ _ later. refl, λ k. cc)
on_seen-quiet x w (some f) parse e h = elim (Bool-cases f.is_error) [
  | inl bad ↦ (ground arith, λ _ later. ground arith, λ k. absurd (ground arith))
  | inr fine ↦
      let w' : Watch = record w {
        semantic = w.semantic || speaks f || (x.wait && is_filter f.finish);
      } in
      let (flag, over) = on_finish_lem x w' f.finish e in
      let same : on_seen x w f ≡ on_finish x w' f.finish = ground arith in
      let h' = ap (λ (r : Watch × Bool). r.0.semantic) (sym same) ∙ h in
      let e' = ap (λ (r : Watch × Bool). r.1) same in
      (
        ground arith,
        λ k later. ground (arith, speaks-silent f),
        λ k. ground (arith, speaks-silent f),
      )
]

abbrev is_marker : Text → Bool
is_marker p = text_eq p (codes "[DONE]")

inspect_one :
    (parse : Text → Option Seen) (x : Limits) (w : Watch) (p : Text)
    → x.wait ≡ false
    → (inspect parse x w p).0.semantic ≡ false
    → (w.semantic ≡ false)
      × ((inspect parse x w p).1 ≡ true
          → (later : Bool) → (if is_marker p then later else quiet_seen (parse p) later) ≡ true)
      × ((inspect parse x w p).1 ≡ false
          → (later : Bool) → (if is_marker p then later else clean_seen (parse p) && later) ≡ later)
unfolding inspect
inspect_one parse x w p e h = elim (Bool-cases (is_marker p)) [
  | inl marker ↦ (ground arith, λ k later. absurd (ground arith), λ k later. rw marker refl)
  | inr other ↦
      let same : inspect parse x w p ≡ on_parsed parse x w (parse p) = rw (other, inspect) refl in
      let h' = ap (λ (r : Watch × Bool). r.0.semantic) (sym same) ∙ h in
      let (was, bad, good) = on_seen-quiet x w (parse p) parse e h' in
      (
        was,
        λ k later. rw other (bad (ap (λ (r : Watch × Bool). r.1) (sym same) ∙ k) later),
        λ k later. rw other (rw (good (ap (λ (r : Watch × Bool). r.1) (sym same) ∙ k)) refl),
      )
]

pub inspect-quiet :
    (parse : Text → Option Seen) (x : Limits) (w : Watch) (ps : List Text)
    → x.wait ≡ false
    → (inspect_all parse x w ps).0.semantic ≡ false
    → (w.semantic ≡ false)
      × (quiet parse ps ≡ true)
      × ((inspect_all parse x w ps).1 ≡ false → clean parse ps ≡ true)
unfolding inspect_all quiet clean
inspect-quiet parse x w [] e h = (h, refl, λ _. refl)
inspect-quiet parse x w (p ∷ ps) e h = elim (Bool-cases (inspect parse x w p).1) [
  | inl bad ↦
      let (was, stop', go) = inspect_one parse x w p e (ground arith) in
      (was, stop' bad (quiet parse ps), λ k. absurd (ground arith))
  | inr good ↦
      let w' = (inspect parse x w p).0 in
      let same : inspect_all parse x w (p ∷ ps) ≡ inspect_all parse x w' ps =
        rw (good, inspect_all) refl in
      let (now, later, all) =
        inspect-quiet parse x w' ps e (ap (λ (r : Watch × Bool). r.0.semantic) (sym same) ∙ h) in
      let (was, stop', go) = inspect_one parse x w p e now in
      (
        was,
        ground (arith, go good true, quiet_clean (parse p) (quiet parse ps)),
        λ k. go good (clean parse ps) ∙ all (ap (λ (r : Watch × Bool). r.1) (sym same) ∙ k),
      )
]

-- What a payload changes is neither the text nor the buffer.
unfoldable pub Same : Watch → Watch → Type 0
Same v w = (v.buffer ≡ w.buffer) × (v.prefix ≡ w.prefix)

on_finish-Same : (x : Limits) (w : Watch) (o : Option Finish) → Same (on_finish x w o).0 w
unfolding on_finish Same
on_finish-Same x w v2 = ground arith

on_parsed-Same :
    (parse : Text → Option Seen) (x : Limits) (w : Watch) (o : Option Seen)
    → Same (on_parsed parse x w o).0 w
unfolding on_parsed on_seen Same
on_parsed-Same parse x w none = (refl, refl)
on_parsed-Same parse x w (some f) =
    let w' : Watch = record w {
      semantic = w.semantic || speaks f || (x.wait && is_filter f.finish);
    } in
    let (b, q) = on_finish-Same x w' f.finish in
    elim (Bool-cases f.is_error) [ inl bad ↦ ground arith | inr fine ↦ ground arith ]

inspect-Same :
    (parse : Text → Option Seen) (x : Limits) (w : Watch) (p : Text)
    → Same (inspect parse x w p).0 w
unfolding inspect Same
inspect-Same parse x w p = elim (Bool-cases (is_marker p)) [
  | inl marker ↦ ground arith
  | inr other ↦ rw (other, inspect) (on_parsed-Same parse x w (parse p))
]

pub inspect_all-Same :
    (parse : Text → Option Seen) (x : Limits) (w : Watch) (ps : List Text)
    → Same (inspect_all parse x w ps).0 w
unfolding inspect_all Same
inspect_all-Same parse x w [] = (refl, refl)
inspect_all-Same parse x w (p ∷ ps) =
    let (b, q) = inspect-Same parse x w p in
    let (b', q') = inspect_all-Same parse x (inspect parse x w p).0 ps in
    elim (Bool-cases (inspect parse x w p).1) [
      | inl bad ↦ rw (bad, inspect_all) (b, q)
      | inr good ↦ rw (good, inspect_all) (b' ∙ b, q' ∙ q)
    ]
