-- ===== src/Prelude/Strings.antt =====
-- JavaScript strings as lists of code units: equality, prefixes, slices and case folding.
use Prim.Native.Char.{code}
use Prim.Native.Nat.{ℕ, zero, suc, ◌+◌, ◌/◌, ◌%◌}
use Prim.Native.String.{String}
use mathlib.Core.Path.{◌≡◌, refl}
use mathlib.Core.Logic.{◌↔◌}
use mathlib.Core.Bool.{Bool, true, false, ◌&&◌, ◌||◌}
use mathlib.Core.Option.{Option, none, some}
use mathlib.Core.List.{List, [], ◌∷◌, ◌++◌, map}
use native.Mathlib.Omega.{arith}
use tokligence_gateway.Prelude.Tests.{ltb, leb, ◌==◌, if◌then◌else◌}

abbrev pub Text : Type 0
Text = List ℕ

-- The code units of an ASCII literal.
abbrev pub codes : String → Text
codes String.[] = []
codes (String.◌∷◌ c s) = code c ∷ codes s

-- `a === b`
unfoldable pub text_eq : Text → Text → Bool
text_eq [] [] = true
text_eq (x ∷ xs) (y ∷ ys) = x == y && text_eq xs ys
text_eq _ _ = false

pub text_eq→eq : (a b : Text) → text_eq a b ≡ true → a ≡ b
unfolding text_eq
text_eq→eq [] [] h = refl
text_eq→eq [] (y ∷ ys) h = cc
text_eq→eq (x ∷ xs) [] h = cc
text_eq→eq (x ∷ xs) (y ∷ ys) h = ground (arith, text_eq→eq xs ys)

pub text_eq_refl : (a : Text) → text_eq a a ≡ true
unfolding text_eq
text_eq_refl [] = refl
text_eq_refl (x ∷ xs) = ground (arith, text_eq_refl xs)

pub text_eq_iff : (a b : Text) → (text_eq a b ≡ true) ↔ (a ≡ b)
text_eq_iff a b = (text_eq→eq a b, λ e. rw e (text_eq_refl b))

-- `texts.includes(t)`
unfoldable pub includes : List Text → Text → Bool
includes [] t = false
includes (s ∷ ss) t = if text_eq s t then true else includes ss t

-- Truthiness of a string that may be undefined: the empty string is falsy.
unfoldable pub truthy : Option Text → Option Text
truthy none = none
truthy (some []) = none
truthy (some (c ∷ s)) = some (c ∷ s)

-- `a || b` on such values
unfoldable pub or_else : Option Text → Option Text → Option Text
unfolding truthy
or_else a b = elim (truthy a) [ none ↦ b | some t ↦ some t ]

-- `a ?? b`
unfoldable pub if_nullish {ℓ} : {A : Type ℓ} → Option A → Option A → Option A
if_nullish none b = b
if_nullish (some a) b = some a

-- The decimal digits of a number, as `${n}` prints them; the fuel bounds the number of digits.
decimal_from : ℕ → ℕ → Text → Text
decimal_from zero n shown = shown
decimal_from (suc f) n shown =
    let rest = decimal_from f (n / 10) ((48 + n % 10) ∷ shown) in
    if ltb n 10 then (48 + n) ∷ shown else rest

unfoldable pub decimal : ℕ → Text
unfolding decimal_from
decimal n = decimal_from (suc n) n []

-- `t.startsWith(prefix)` with what follows the prefix, `t.slice(prefix.length)`
unfoldable pub strip_prefix : Text → Text → Option Text
strip_prefix [] t = some t
strip_prefix (p ∷ ps) [] = none
strip_prefix (p ∷ ps) (c ∷ t) = if p == c then strip_prefix ps t else none

-- `t.toLowerCase()` on one code unit. Beyond ASCII only U+212A folds into an ASCII letter by
-- itself, so a comparison with an ASCII text reads the same.
unfoldable pub to_lower : ℕ → ℕ
to_lower c = if leb 65 c && leb c 90 then c + 32 else if c == 8490 then 107 else c

unfoldable pub lower_case : Text → Text
unfolding to_lower
lower_case t = map to_lower t

pub strip_prefix-eq-some : (p t r : Text) → strip_prefix p t ≡ some r → t ≡ p ++ r
unfolding strip_prefix
strip_prefix-eq-some [] t r h = ground arith
strip_prefix-eq-some (p ∷ ps) [] r h = cc
strip_prefix-eq-some (p ∷ ps) (c ∷ t) r h = ground (arith, strip_prefix-eq-some ps t r)

pub strip_prefix-append : (p r : Text) → strip_prefix p (p ++ r) ≡ some r
unfolding strip_prefix
strip_prefix-append [] r = refl
strip_prefix-append (p ∷ ps) r = ground (arith, strip_prefix-append ps r)

-- What `trim` takes for white space: spaces and line terminators
unfoldable pub is_space : ℕ → Bool
is_space c =
    c == 32
    || (leb 9 c && leb c 13)
    || c == 160
    || c == 5760
    || (leb 8192 c && leb c 8202)
    || c == 8232
    || c == 8233
    || c == 8239
    || c == 8287
    || c == 12288
    || c == 65279

unfoldable pub skip_spaces : Text → Text
skip_spaces [] = []
skip_spaces (c ∷ t) = let rest = skip_spaces t in if is_space c then rest else c ∷ t

-- The spaces at the end are left out.
unfoldable pub drop_end : Text → Text
drop_end [] = []
drop_end (c ∷ t) = keep_unless (drop_end t)
  where
    keep_unless : Text → Text
    keep_unless [] = if is_space c then [] else c ∷ []
    keep_unless (d ∷ u) = c ∷ d ∷ u

-- `t.trim()`
unfoldable pub trim_text : Text → Text
trim_text t = drop_end (skip_spaces t)
