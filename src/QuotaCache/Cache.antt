-- ===== src/QuotaCache/Cache.antt =====
-- quota-cache.mjs: createQuotaCache for one provider. The probe is outside: it answers or fails at some
-- time after it was started. Differences of times stop at 0.
use tokligence_gateway.Prelude.{
  ℕ, ◌-◌, Bool, true, false, not, ◌&&◌, Option, none, some, ltb, if◌then◌else◌,
}
use tokligence_gateway.QuotaCache.Values.{
  codex_oauth, mistral, Result, Provider, has_expired_window, clear_expired_windows,
  is_transient_failure, is_credential_failure, retain_recent_signals, age_as_stale, nothing_known,
}

pub record Limits : Type 0 where
  pub ttl : ℕ
  pub stale : ℕ
  pub backoff : ℕ

-- `flight` is whether a probe is under way.
pub record Entry : Type 0 where
  pub value : Option Result
  pub at : ℕ
  pub failed_at : Option ℕ
  pub primary_fresh : Bool
  pub flight : Bool

abbrev pub fresh : Entry
fresh = record { value = none; at = 0; failed_at = none; primary_fresh = false; flight = false }

abbrev pub aged : Limits → Entry → Result → ℕ → Result
aged x e v time = age_as_stale v (time - e.at) x.stale time

-- What a call does at a time: answer at once, wait for the probe that is under way, or start one
pub data Got : Type 0 where
  served : Result → Entry → Got
  waits : Got
  launched : Entry → Got

-- The value, if it is within its time to live and none of its windows is over
unfoldable pub live_value : Limits → ℕ → ℕ → Option Result → Option Result
live_value x at time none = none
live_value x at time (some v) =
    if ltb (time - at) x.ttl && not (has_expired_window v time) then some v else none

abbrev pub is_backing_off : Limits → Option ℕ → ℕ → Bool
is_backing_off x none time = false
is_backing_off x (some t) time = ltb (time - t) x.backoff

unfoldable pub held_value : Limits → Entry → Result → ℕ → Bool → Got
held_value x e v time true =
    let cleared = clear_expired_windows v time in served cleared (record e { value = some cleared })
held_value x e v time false = served (aged x e v time) e

-- The answer while the provider is not to be asked again
unfoldable pub held : Limits → Entry → Option Result → ℕ → Got
held x e none time = served nothing_known e
held x e (some v) time = held_value x e v time e.primary_fresh

-- With the live value, whether a probe is under way, and whether the provider is not to be asked
unfoldable pub get_by : Limits → Entry → ℕ → Option Result → Bool → Bool → Got
get_by x e time (some v) flight resting = served v e
get_by x e time none true resting = waits
get_by x e time none false true = held x e e.value time
get_by x e time none false false = launched (record e { flight = true })

abbrev pub get : Limits → Entry → ℕ → Got
get x e time =
    get_by x e time (live_value x e.at time e.value) e.flight (is_backing_off x e.failed_at time)

abbrev pub keeping : Entry → Result → ℕ → Entry × Result
keeping e v time =
    let cleared = clear_expired_windows v time in
    (record e { value = some cleared; at = time }, cleared)

-- A value that says that the credentials are no good
unfoldable pub on_credential : Limits → Entry → Option Result → Result → ℕ → Entry × Result
on_credential x e old v time = if v.available then keeping e v time else elim old [
  | none ↦ (record e { value = none; at = 0 }, v)
  | some w ↦ (
    record e { value = some (record w { signals = v.signals }) },
    record (aged x e w time) { signals = v.signals },
  )
]

abbrev pub with_recent : Limits → Entry → Option Result → Result → ℕ → Result
with_recent x e none latest time = latest
with_recent x e (some w) latest time = retain_recent_signals w latest time x.stale e.at

unfoldable pub on_mistral : Limits → Entry → Option Result → Result → ℕ → Entry × Result
on_mistral x e old v time =
    let latest = clear_expired_windows v time in
    let joined = with_recent x e old latest time in
    if v.available
    then (record e { value = some joined; at = time; primary_fresh = true }, joined)
    else elim old [
      | none ↦ (record e { value = some latest; at = time; primary_fresh = true }, latest)
      | some w ↦
          let stale = aged x e w time in
          (
            record e { value = some (record w { signals = stale.signals }); primary_fresh = false },
            stale,
          )
    ]

unfoldable pub on_transient : Limits → Provider → Entry → Result → ℕ → Entry × Result
on_transient x mistral e v time = on_mistral x e e.value v time
on_transient x codex_oauth e v time =
    (record e { primary_fresh = false }, elim e.value [ none ↦ v | some w ↦ aged x e w time ])

-- The probe has answered.
unfoldable pub on_value : Limits → Provider → Entry → Result → ℕ → Entry × Result
on_value x p e v time =
    if is_credential_failure v
    then on_credential x (record e { failed_at = some time }) e.value v time
    else if is_transient_failure p v
    then on_transient x p (record e { failed_at = some time }) v time
    else keeping (record e { failed_at = none; primary_fresh = false }) v time

-- What the calls that have waited get, and the entry that is left; `none` is a probe that has failed.
unfoldable pub settle : Limits → Provider → Entry → Option Result → ℕ → Entry × Result
settle x p e (some v) time = on_value x p (record e { flight = false }) v time
settle x p e none time = (
  record e { failed_at = some time; flight = false },
  elim e.value [ none ↦ nothing_known | some w ↦ aged x e w time ],
)

-- `none` is an entry that is deleted.
unfoldable pub invalidate : Bool → Option Entry → ℕ → Option Entry
invalidate false e time = none
invalidate true none time = some (record fresh { failed_at = some time })
invalidate true (some e) time = some (record e { value = none; at = 0; failed_at = some time })
