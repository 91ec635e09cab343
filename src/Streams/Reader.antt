-- ===== src/Streams/Reader.antt =====
-- anthropic-openai-codec.mjs: createSseChunkReader, which takes a stream apart into the payloads of
-- its `data:` lines, however the stream is cut into chunks.
use mathlib.Core.List.{append_assoc, append-nil}
use tokligence_gateway.Prelude.{
  ℕ, zero, suc, ◌≤◌, ◌<◌, ◌≡◌, refl, inl, inr, false, List, [], ◌∷◌, ◌++◌, Option, none, some,
  arith, length, Text, codes, strip_prefix, trim_text, ◌==◌, if◌then◌else◌, Option-cases,
  Bool-cases,
}

abbrev pub with_code : ℕ → Option (Text × Text) → Option (Text × Text)
with_code c none = none
with_code c (some (line, rest)) = some (c ∷ line, rest)

-- The line before the first line feed, and what is after that
unfoldable pub cut_line : Text → Option (Text × Text)
cut_line [] = none
cut_line (c ∷ t) = let later = with_code c (cut_line t) in if c == 10 then some ([], t) else later

-- What a line gives: a line that is not of data gives nothing, nor does one without any.
unfoldable pub payload : Text → List Text
payload line = elim (strip_prefix (codes "data:") (trim_text line)) [
  | none ↦ []
  | some rest ↦ elim (trim_text rest) [ [] ↦ [] | c ∷ t ↦ (c ∷ t) ∷ [] ]
]

-- The loop over the lines of the buffer, on fuel
unfoldable pub read_lines : ℕ → Text → List Text × Text
read_lines zero buffer = ([], buffer)
read_lines (suc f) buffer = elim (cut_line buffer) [
  | none ↦ ([], buffer)
  | some (line, rest) ↦ let (payloads, left) = read_lines f rest in (payload line ++ payloads, left)
]

-- `push`: the payloads, and the buffer that is left
unfoldable pub push : Text → Text → List Text × Text
push buffer text = read_lines (length (buffer ++ text)) (buffer ++ text)

unfoldable pub push_all : Text → List Text → List Text × Text
push_all buffer [] = ([], buffer)
push_all buffer (chunk ∷ chunks) =
    let (payloads, left) = push buffer chunk in
    let (more, rest) = push_all left chunks in (payloads ++ more, rest)

abbrev pub add_code : ℕ → List Text × Text → List Text × Text
add_code c ([], rest) = ([], c ∷ rest)
add_code c (l ∷ ls, rest) = ((c ∷ l) ∷ ls, rest)

-- The lines of a text that a line feed ends, and what is after the last of them
unfoldable pub lines : Text → List Text × Text
lines [] = ([], [])
lines (c ∷ t) = let found = lines t in if c == 10 then ([] ∷ found.0, found.1) else add_code c found

unfoldable pub payloads_of : List Text → List Text
payloads_of [] = []
payloads_of (l ∷ ls) = payload l ++ payloads_of ls

-- A text without a line feed is no line yet.
lines-cut_none : (t : Text) → cut_line t ≡ none → lines t ≡ ([], t)
unfolding cut_line lines
lines-cut_none [] h = refl
lines-cut_none (c ∷ t) h = elim (Option-cases (cut_line t)) [
  | inl nothing ↦ ground (arith, lines-cut_none t nothing)
  | inr ((l, r), found) ↦ absurd (ground arith)
]

lines-cut_some :
    (t l r : Text)
    → cut_line t ≡ some (l, r)
    → (lines t ≡ (l ∷ (lines r).0, (lines r).1)) × (length r < length t)
unfolding cut_line lines
lines-cut_some [] l r h = cc
lines-cut_some (c ∷ t) l r h = elim (Bool-cases (c == 10)) [
  | inl here ↦
      let rest : t ≡ r = ground arith in
      let empty : [] ≡ l = ground arith in rw (here, ← rest, ← empty) (refl, omega arith)
  | inr later ↦ elim (Option-cases (cut_line t)) [
    | inl nothing ↦ absurd (ground arith)
    | inr ((l', r'), found) ↦
        let (same, shorter) = lines-cut_some t l' r' found in
        let rest : r' ≡ r = ground arith in
        let first : c ∷ l' ≡ l = ground arith in
        rw (later, ← rest, ← first) (rw same refl, omega arith)
  ]
]

read_lines-lines :
    (f : ℕ) (t : Text) → length t ≤ f → read_lines f t ≡ (payloads_of (lines t).0, (lines t).1)
unfolding read_lines payloads_of lines
read_lines-lines zero [] h = refl
read_lines-lines zero (c ∷ t) h = absurd (omega arith)
read_lines-lines (suc f) t h = elim (Option-cases (cut_line t)) [
  | inl nothing ↦ rw (nothing, read_lines) (rw (lines-cut_none t nothing) refl)
  | inr ((l, r), found) ↦
      let (same, shorter) = lines-cut_some t l r found in
      rw (found, read_lines) (rw (same, read_lines-lines f r (omega arith)) refl)
]

pub push-lines : (b t : Text) → push b t ≡ (payloads_of (lines (b ++ t)).0, (lines (b ++ t)).1)
unfolding push
push-lines b t = read_lines-lines (length (b ++ t)) (b ++ t) (omega arith)

add_code-append :
    (c : ℕ) (p : List Text × Text) (q : Text → List Text × Text)
    → q (c ∷ p.1) ≡ add_code c (q p.1)
    → add_code c (p.0 ++ (q p.1).0, (q p.1).1)
      ≡ ((add_code c p).0 ++ (q (add_code c p).1).0, (q (add_code c p).1).1)
add_code-append c ([], r) q h = rw h refl
add_code-append c (l ∷ ls, r) q h = refl

-- The lines of a text that goes on: those that are there, and those of the rest with what follows.
pub lines-append :
    (s t : Text)
    → lines (s ++ t) ≡ ((lines s).0 ++ (lines ((lines s).1 ++ t)).0, (lines ((lines s).1 ++ t)).1)
unfolding lines
lines-append [] t = refl
lines-append (c ∷ s) t = elim (Bool-cases (c == 10)) [
  | inl e ↦ rw e (rw (lines-append s t) refl)
  | inr e ↦
      rw e (rw (lines-append s t) (add_code-append c (lines s) (λ r. lines (r ++ t)) (rw e refl)))
]

pub payloads_of-append :
    (ls ms : List Text) → payloads_of (ls ++ ms) ≡ payloads_of ls ++ payloads_of ms
unfolding payloads_of
payloads_of-append [] ms = refl
payloads_of-append (l ∷ ls) ms = simp (payloads_of-append ls ms, append_assoc)

unfoldable pub concat : List Text → Text
concat [] = []
concat (t ∷ ts) = t ++ concat ts

add_code-left :
    (c : ℕ) (p : List Text × Text)
    → (c == 10) ≡ false
    → lines p.1 ≡ ([], p.1)
    → lines (add_code c p).1 ≡ ([], (add_code c p).1)
unfolding lines
add_code-left c ([], r) e h = rw e (rw h refl)
add_code-left c (l ∷ ls, r) e h = h

-- What is left of a text has no line feed.
lines-left : (t : Text) → lines (lines t).1 ≡ ([], (lines t).1)
unfolding lines
lines-left [] = refl
lines-left (c ∷ t) = elim (Bool-cases (c == 10)) [
  | inl e ↦ rw e (lines-left t)
  | inr e ↦ rw e (add_code-left c (lines t) e (lines-left t))
]

push_all-lines :
    (b : Text) (chunks : List Text)
    → lines b ≡ ([], b)
    → push_all b chunks
      ≡ (payloads_of (lines (b ++ concat chunks)).0, (lines (b ++ concat chunks)).1)
unfolding push_all concat payloads_of
push_all-lines b [] h = rw (append-nil b) (rw h refl)
push_all-lines b (chunk ∷ chunks) h =
    let later = push_all-lines (lines (b ++ chunk)).1 chunks (lines-left (b ++ chunk)) in
    rw (push-lines b chunk) (
      rw later (
        rw (← append_assoc b chunk (concat chunks)) (
          rw (lines-append (b ++ chunk) (concat chunks)) (
            rw
              (payloads_of-append (lines (b ++ chunk)).0
                (lines ((lines (b ++ chunk)).1 ++ concat chunks)).0)
              refl))))

-- However a stream is cut into chunks, it gives the payloads of the lines of the whole stream, each
-- line that a line feed ends in its turn, and leaves in the buffer what is after the last of them.
pub push_all-concat :
    (chunks : List Text)
    → push_all [] chunks ≡ (payloads_of (lines (concat chunks)).0, (lines (concat chunks)).1)
push_all-concat chunks = push_all-lines [] chunks (unfold lines in refl)
