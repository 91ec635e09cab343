-- ===== src/Routes/Wildcard.antt =====
-- route-config.mjs and preferences.mjs: the patterns of aliases, in which `*` stands for any text.
-- Both build a regular expression `^…$` with `.*` for each star, and the rest taken literally.
use tokligence_gateway.Prelude.{
  ℕ, ◌≡◌, refl, ◌↔◌, ◌≢◌, inl, inr, Bool, true, false, not, ◌&&◌, ◌||◌, [], ◌∷◌, ◌++◌, arith,
  length, keep, Text, lower_case, ◌==◌, ==_iff, ap, if◌then◌else◌, Bool-cases,
}

-- What `.` does not match: the line terminators.
unfoldable pub is_terminator : ℕ → Bool
is_terminator c = c == 10 || c == 13 || c == 8232 || c == 8233

-- `.*` before what `k` matches
unfoldable pub star : (Text → Bool) → Text → Bool
star k [] = k []
star k (c ∷ t) = k (c ∷ t) || (not (is_terminator c) && star k t)

abbrev heads : ℕ → (Text → Bool) → Text → Bool
heads p k [] = false
heads p k (c ∷ t) = p == c && k t

unfoldable pub glob : Text → Text → Bool
glob [] [] = true
glob [] (c ∷ t) = false
glob (p ∷ ps) t = if p == b'*' then star (glob ps) t else heads p (glob ps) t

-- `wildcardRe(pattern).test(lower)`
unfoldable pub matches_wildcard : Text → Text → Bool
matches_wildcard pattern lower = glob (lower_case pattern) lower

-- `pattern.replaceAll("*", "").length`
unfoldable pub specificity : Text → ℕ
specificity pattern = length (keep (λ c. not (c == b'*')) pattern)

-- No line terminator is in the text.
abbrev pub OneLine : Text → Type 0
OneLine [] = Unit
OneLine (c ∷ t) = (is_terminator c ≡ false) × OneLine t

-- The text is the pattern with a text of one line in place of each star.
pub data Matches : Text → Text → Type 0 where
  both_end : Matches [] []
  same : {c : ℕ} {ps t : Text} → c ≢ b'*' → Matches ps t → Matches (c ∷ ps) (c ∷ t)
  fill :
      {p : ℕ} {ps t : Text} (u rest : Text)
      → p ≡ b'*'
      → t ≡ u ++ rest
      → OneLine u
      → Matches ps rest
      → Matches (p ∷ ps) t

star_sound :
    (k : Text → Bool) (t : Text)
    → star k t ≡ true
    → (u : Text) × (rest : Text) × (t ≡ u ++ rest) × OneLine u × (k rest ≡ true)
unfolding star
star_sound k [] h = ([], [], refl, tt, h)
star_sound k (c ∷ t) h = elim (Bool-cases (k (c ∷ t))) [
  | inl here ↦ ([], c ∷ t, refl, tt, here)
  | inr no_match ↦
      let (u, rest, e, l, m) = star_sound k t (ground arith) in
      (c ∷ u, rest, ap (λ (x : Text). c ∷ x) e, (ground arith, l), m)
]

star_complete :
    (k : Text → Bool) (u rest : Text) → OneLine u → k rest ≡ true → star k (u ++ rest) ≡ true
unfolding star
star_complete k [] [] l h = h
star_complete k [] (c ∷ t) l h = rw h
star_complete k (c ∷ u) rest l h = ground (arith, star_complete k u rest l.1)

glob_sound : (p t : Text) → glob p t ≡ true → Matches p t
unfolding glob
glob_sound [] [] h = both_end
glob_sound [] (c ∷ t) h = cc
glob_sound (p ∷ ps) t h = elim (Bool-cases (p == b'*')) [
  | inl is_star ↦
      let (u, rest, e, l, m) = star_sound (glob ps) t (ground arith) in
      fill u rest ((==_iff p b'*').0 is_star) e l (glob_sound ps rest m)
  | inr plain ↦ heads_sound t (λ x m. glob_sound ps x m) (ground arith) (ground arith)
]
  where
    heads_sound :
        (x : Text)
        → ((y : Text) → glob ps y ≡ true → Matches ps y)
        → p ≢ b'*'
        → heads p (glob ps) x ≡ true
        → Matches (p ∷ ps) x
    heads_sound [] ih q m = cc
    heads_sound (c ∷ y) ih q m =
        let e : p ≡ c = ground arith in rw (← e) (same q (ih y (ground arith)))

glob_complete : {p t : Text} → Matches p t → glob p t ≡ true
unfolding glob
glob_complete both_end = refl
glob_complete (same {c} {ps} {t} q m) = ground (arith, glob_complete m)
glob_complete (fill {p} {ps} {t} u rest e shape l m) =
    rw shape (ground (arith, star_complete (glob ps) u rest l (glob_complete m)))

-- The test of a pattern accepts a text exactly when the text is the pattern, folded to lower case,
-- with a text of one line in place of each star.
pub matches_wildcard_iff :
    (pattern lower : Text)
    → (matches_wildcard pattern lower ≡ true) ↔ Matches (lower_case pattern) lower
unfolding matches_wildcard
matches_wildcard_iff pattern lower = (glob_sound _ _, glob_complete)
