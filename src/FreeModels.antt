-- ===== src/FreeModels.antt =====
-- opencode-free-models.mjs: which OpenCode models are verified free, and the discovery that
-- verifies them. The three weak maps hold one entry for each provider: the state of one provider
-- is a `Registry`. A discovery is split where it waits for the two catalogs: `discover` runs up to
-- the wait, `complete` from the answers on.
pub mod Costs
pub mod Freshness
pub mod Laws
pub mod Listing
mod Tests
use tokligence_gateway.Prelude.{
  ℕ, ◌+◌, ◌*◌, Bool, true, false, ◌&&◌, List, [], Option, none, some, map, ltb, Text, codes,
  strip_prefix, includes, if◌then◌else◌,
}

abbrev pub discovery_interval_ms : ℕ
discovery_interval_ms = 60 * 1000

abbrev pub discovery_failure_retry_ms : ℕ
discovery_failure_retry_ms = 10 * 1000

abbrev pub max_age_ms : ℕ
max_age_ms = discovery_interval_ms + 15 * 1000

-- `String(id).replace(/^(?:opencode-zen|zen)\//, "")`
unfoldable pub bare_id : Text → Text
bare_id id = elim (strip_prefix (codes "opencode-zen/") id) [
  | some rest ↦ rest
  | none ↦ elim (strip_prefix (codes "zen/") id) [ some rest ↦ rest | none ↦ id ]
]

pub record Snapshot : Type 0 where
  pub ids : List Text
  pub at : ℕ

-- What a discovery ended with: the free models, or the error that it threw.
pub data Fetched : Type 0 where
  models : List Text → Fetched
  failed : Text → Fetched

pub record Cached : Type 0 where
  pub at : ℕ
  pub result : Fetched

pub record Registry : Type 0 where
  pub snapshot : Option Snapshot
  pub cached : Option Cached
  pub in_flight : Bool

-- setOpenCodeFreeModels
unfoldable pub set_free_models : Registry → List Text → ℕ → Registry
set_free_models r ids now = record r {
  snapshot = some (record { ids = map bare_id ids; at = now });
}

-- isDiscoveredOpenCodeFree
unfoldable pub is_discovered_free : Registry → Text → ℕ → Bool
is_discovered_free r model now = elim r.snapshot [
  | none ↦ false
  | some s ↦ ltb now (s.at + max_age_ms) && includes s.ids (bare_id model)
]

-- What a call of discoverOpenCodeFreeModels does before its first wait.
pub data Reply : Type 0 where
  returned : List Text → Reply
  threw : Text → Reply
  joined started : Reply

abbrev pub replay : Fetched → Reply
replay (models ids) = returned ids
replay (failed e) = threw e

abbrev pub cache_life : Fetched → ℕ
cache_life (models ids) = discovery_interval_ms
cache_life (failed e) = discovery_failure_retry_ms

abbrev pub fetched_ids : Fetched → List Text
fetched_ids (models ids) = ids
fetched_ids (failed e) = []

-- The rest of a discovery: the snapshot is replaced, also by an empty one after a failure.
unfoldable pub complete : Registry → Fetched → ℕ → Registry
complete r result finished_at = record (set_free_models r (fetched_ids result) finished_at) {
  cached = some (record { at = finished_at; result = result });
  in_flight = false;
}

-- `new URL(…)` throws before the first wait if the provider's base URL is none: the discovery
-- then fails at once, and its promise is put among those in flight after it has been taken out.
unfoldable pub launch : Registry → Option Text → ℕ → Registry × Reply
launch r none now = (record r { in_flight = true }, started)
launch r (some e) now = (record (complete r (failed e) now) { in_flight = true }, threw e)

-- discoverOpenCodeFreeModels
unfoldable pub discover : Registry → Option Text → ℕ → Registry × Reply
unfolding launch
discover r bad_url now =
    let fresh = if r.in_flight then (r, joined) else launch r bad_url now in
    elim r.cached [
      | none ↦ fresh
      | some c ↦ if ltb now (c.at + cache_life c.result) then (r, replay c.result) else fresh
    ]

pub record ChatProvider : Type 0 where
  pub discover_free_only : Bool
  pub registry : Registry

-- openCodeChatAllowed
unfoldable pub chat_allowed : ChatProvider → Bool → List Text → Text → ℕ → Bool
chat_allowed provider discover_free_models chat_models model now =
    if provider.discover_free_only
    then discover_free_models && is_discovered_free provider.registry model now
    else includes chat_models model
