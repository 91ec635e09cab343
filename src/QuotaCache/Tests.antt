-- ===== src/QuotaCache/Tests.antt =====
-- quota-cache.mjs: the cache at concrete inputs.
use tokligence_gateway.Prelude.{◌≡◌, ◌≤◌, refl, true, false, [], ◌∷◌, none, some, codes, any, all}
use tokligence_gateway.QuotaCache.Values.{
  Result, Signal, seconds, mistral, nothing_known, has_expired_window, clear_expired_windows,
  reset_expired,
}
use tokligence_gateway.QuotaCache.Cache.{
  Limits, Entry, fresh, live_value, served, held_value, held, get_by, get, settle,
}
use tokligence_gateway.QuotaCache.Served.{IsTimely, get-served}
use tokligence_gateway.QuotaCache.Probes.{probes, is_failure, probes-le, settle-probes}

abbrev limits : Limits
limits = record { ttl = 300000; stale = 900000; backoff = 300000 }

abbrev monthly : Signal
monthly = record {
  status = codes "live";
  percent = some 40;
  remaining = some 60;
  reset = seconds 2000;
  note = codes "month";
  observed = none;
  windows = [];
}

abbrev reading : Result
reading = record nothing_known { available = true; signals = monthly ∷ [] }

abbrev known : Entry
known = record fresh { value = some reading; at = 1000000 }

-- The window is over at 2000000.
live_now : get limits known 1200000 ≡ served reading known
unfolding get_by live_value has_expired_window reset_expired any
live_now = refl

get-served_example :
    (has_expired_window reading 1200000 ≡ false) × IsTimely limits known 1200000 reading
get-served_example = get-served limits known known 1200000 reading live_now

probes-le_example : probes limits known (2100000 ∷ (2100001 ∷ [])) ≤ 1
probes-le_example = probes-le limits known (2100000 ∷ (2100001 ∷ []))

settle-probes_example :
    probes limits (settle limits mistral known none 2100000).0 (2200000 ∷ (2300000 ∷ [])) ≡ 0
settle-probes_example =
    settle-probes limits mistral known none 2100000 (2200000 ∷ (2300000 ∷ []))
      (unfold is_failure in refl) (unfold all in refl)

-- A value that its probe has vouched for in part is still served as it was, without a sign of its
-- age, after probes that have failed for longer than `staleMs`.
abbrev vouched : Entry
vouched = record known { primary_fresh = true }

unaged :
    get limits
      (settle limits mistral
        (record vouched { value = some (record reading { signals = [] }) })
        none
        9000000).0
      9100000
    ≡ served
        (record reading { signals = [] })
        (record vouched {
          value = some (record reading { signals = [] });
          failed_at = some 9000000;
        })
unfolding get_by live_value has_expired_window reset_expired any settle held held_value
    clear_expired_windows
unaged = refl
