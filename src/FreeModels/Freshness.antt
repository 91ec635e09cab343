-- ===== src/FreeModels/Freshness.antt =====
-- opencode-free-models.mjs: how long a verified list counts, what a failure revokes, and that
-- discoveries do not pile up.
use tokligence_gateway.Prelude.{
  ℕ, ◌+◌, ◌≤◌, ◌<◌, ◌≡◌, refl, ◌⊎◌, Bool, true, false, List, Option, none, some, arith, Text,
  includes, Option-cases, Bool-cases, inl, inr, ltb,
}
use tokligence_gateway.FreeModels.{
  Fetched, models, failed, Registry, is_discovered_free, set_free_models, complete, discover,
  replay, cache_life, joined, chat_allowed,
}

-- A discovery that fails revokes at once: no model counts as free, at any time, so a provider that
-- serves discovered free models alone admits no chat model on any account.
pub chat_allowed_after_failure :
    (r : Registry) (e : Text) (t now : ℕ) (account_discovers : Bool) (chat_models : List Text)
    (model : Text)
    → chat_allowed
        (record { discover_free_only = true; registry = complete r (failed e) t })
        account_discovers
        chat_models
        model
        now
      ≡ false
unfolding chat_allowed is_discovered_free complete set_free_models includes
chat_allowed_after_failure r e t now account_discovers chat_models model = ground arith

-- A call inside the cache's life, one minute after a success and ten seconds after a failure,
-- repeats the result or the error, and starts nothing.
pub discover-replay :
    (r : Registry) (f : Fetched) (t : ℕ) (bad_url : Option Text) (now : ℕ)
    → now < t + cache_life f
    → discover (complete r f t) bad_url now ≡ (complete r f t, replay f)
unfolding discover complete set_free_models
discover-replay r (models ids) t bad_url now h = ground arith
discover-replay r (failed e) t bad_url now h = ground arith

-- While a discovery is in flight no call starts another, and none changes the state.
pub discover_in_flight :
    (r : Registry) (bad_url : Option Text) (now : ℕ)
    → r.in_flight ≡ true
    → ((discover r bad_url now).0 ≡ r)
      × (((discover r bad_url now).1 ≡ joined)
          ⊎ ((f : Fetched) × ((discover r bad_url now).1 ≡ replay f)))
unfolding discover
discover_in_flight r bad_url now h = elim (Option-cases r.cached) [
  | inl nothing ↦ rw nothing (rw h (refl, inl refl))
  | inr (c, known) ↦ rw known (elim (Bool-cases (ltb now (c.at + cache_life c.result))) [
    | inl live ↦ rw live (refl, inr (c.result, refl))
    | inr stale ↦ rw stale (rw h (refl, inl refl))
  ])
]

-- A provider whose base URL is no URL is stuck after its first discovery: the rejected promise
-- stays among those in flight, so from ten seconds on every later call joins it, whatever the
-- URL is then, changes nothing and starts no discovery.
pub discover_stuck :
    (r : Registry) (e : Text) (t : ℕ) (mended : Option Text) (now : ℕ)
    → r.in_flight ≡ false
    → r.cached ≡ none
    → t + 10000 ≤ now
    → discover (discover r (some e) t).0 mended now ≡ ((discover r (some e) t).0, joined)
unfolding discover complete set_free_models
discover_stuck r e t mended now idle fresh h = ground arith
