-- ===== src/QuotaCache/Values.antt =====
-- quota-cache.mjs: the values, and what is left of them when a window is over or they are old. A date is
-- what Date.parse reads of it, and a field that is null is left out.
use tokligence_gateway.Prelude.{
  ℕ, ◌-◌, ◌*◌, Bool, true, false, not, ◌&&◌, ◌||◌, List, [], ◌∷◌, map, Option, none, some, Text,
  codes, text_eq, includes, ltb, leb, keep, any, if◌then◌else◌,
}

pub data Reset : Type 0 where
  absent : Reset
  seconds date : ℕ → Reset

pub record Signal : Type 0 where
  pub status : Text
  pub percent : Option ℕ
  pub remaining : Option ℕ
  pub reset : Reset
  pub note : Text
  -- `none` where it is no date, or 0
  pub observed : Option ℕ
  pub windows : List Text

pub record Window : Type 0 where
  pub used : Option ℕ
  pub reset : Reset
  pub status : Text

pub record Rate : Type 0 where
  pub status : Text
  pub remaining : Option ℕ

pub record Result : Type 0 where
  pub available : Bool
  pub source : Text
  pub status : Text
  pub used : Option ℕ
  pub limit : Option ℕ
  pub percent : Option ℕ
  pub cached_age : Option ℕ
  pub signals : List Signal
  pub accounts : List (List Window)
  pub rate : Option Rate

pub data Provider : Type 0 where
  codex_oauth mistral : Provider

abbrev pub passed : ℕ → ℕ → Bool
passed ms time = ltb 0 ms && leb ms time

unfoldable pub reset_expired : Reset → ℕ → Bool
reset_expired absent time = false
reset_expired (seconds n) time = passed (n * 1000) time
reset_expired (date ms) time = passed ms time

abbrev pub window_expired : ℕ → Window → Bool
window_expired time w = reset_expired w.reset time

abbrev pub signal_expired : ℕ → Signal → Bool
signal_expired time s = reset_expired s.reset time

unfoldable pub has_expired_window : Result → ℕ → Bool
has_expired_window r time =
    any (signal_expired time) r.signals || any (any (window_expired time)) r.accounts

abbrev pub unavailable : Text
unavailable = codes "unavailable"

abbrev pub clear_signal : ℕ → Signal → Signal
clear_signal time s =
    if signal_expired time s
    then record s {
      status = unavailable;
      percent = none;
      remaining = none;
      reset = absent;
      note = codes "Quota window has reset; awaiting a fresh observation";
    }
    else s

abbrev pub clear_window : ℕ → Window → Window
clear_window time w =
    if window_expired time w
    then record w { used = none; reset = absent; status = unavailable }
    else w

unfoldable pub clear_expired_windows : Result → ℕ → Result
clear_expired_windows r time = record r {
  signals = map (clear_signal time) r.signals;
  accounts = map (map (clear_window time)) r.accounts;
}

abbrev pub credential_notes : List Text
credential_notes =
    codes "Mistral session credentials are missing, unsafe or invalid"
    ∷ (codes "Mistral session expired or rejected" ∷ [])

abbrev pub is_lasting : Text → Bool
is_lasting note =
    includes (codes "No private Mistral session file configured" ∷ credential_notes) note

unfoldable pub is_transient_failure : Provider → Result → Bool
is_transient_failure mistral r =
    any (λ s. text_eq s.status unavailable && not (is_lasting s.note)) r.signals
is_transient_failure codex_oauth r = not r.available

unfoldable pub is_credential_failure : Result → Bool
is_credential_failure r = any (λ s. includes credential_notes s.note) r.signals

abbrev pub observed_or : Option ℕ → ℕ → ℕ
observed_or none fallback = fallback
observed_or (some t) fallback = t

abbrev pub is_given {ℓ} : {A : Type ℓ} → Option A → Bool
is_given none = false
is_given (some x) = true

abbrev pub is_recent : ℕ → ℕ → ℕ → Signal → Bool
is_recent time stale fallback s =
    is_given s.percent
    && not (signal_expired time s)
    && leb (time - observed_or s.observed fallback) stale

abbrev pub filled_or {ℓ} : {A : Type ℓ} → List A → List A → List A
filled_or [] ys = ys
filled_or (x ∷ xs) ys = x ∷ xs

unfoldable pub retain_recent_signals : Result → Result → ℕ → ℕ → ℕ → Result
retain_recent_signals previous current time stale fallback = record current {
  signals =
      filled_or
        (map (λ (s : Signal). record s { status = codes "stale" })
          (keep (is_recent time stale fallback) previous.signals))
        current.signals;
}

-- A signal, a window and a rate of a value that is stale, and no older than `staleMs` if `recent`
abbrev pub age_signal : Bool → ℕ → Signal → Signal
age_signal recent time s =
    let reset = signal_expired time s in
    let shown = recent && not reset in
    record s {
      status = if shown then codes "stale" else unavailable;
      percent = if shown then s.percent else none;
      remaining = if shown then s.remaining else none;
      windows = if shown then s.windows else [];
      reset = if reset then absent else s.reset;
    }

abbrev pub age_window : Bool → ℕ → Window → Window
age_window recent time w =
    if recent && not (window_expired time w) then w else record w { used = none; reset = absent }

abbrev pub age_rate : Bool → Option Rate → Option Rate
age_rate recent none = none
age_rate recent (some r) = some (record {
  status = if recent then codes "stale" else unavailable;
  remaining = if recent then r.remaining else none;
})

unfoldable pub age_as_stale : Result → ℕ → ℕ → ℕ → Result
age_as_stale r age stale time =
    let recent = leb age stale in
    record {
      status = if recent then codes "stale" else unavailable;
      cached_age = some age;
      available = recent && r.available;
      source = if recent then r.source else unavailable;
      used = if recent then r.used else none;
      limit = if recent then r.limit else none;
      percent = if recent then r.percent else none;
      signals = map (age_signal recent time) r.signals;
      accounts = map (map (age_window recent time)) r.accounts;
      rate = age_rate recent r.rate;
    }

abbrev pub nothing_known : Result
nothing_known = record {
  available = false;
  source = unavailable;
  status = unavailable;
  used = none;
  limit = none;
  percent = none;
  cached_age = none;
  signals = [];
  accounts = [];
  rate = none;
}
