-- ===== src/QuotaCache/Served.antt =====
-- quota-cache.mjs: what a call of the cache answers at once, and when it asks the provider.
use tokligence_gateway.Prelude.{
  ℕ, ◌-◌, ◌≡◌, ◌⊎◌, refl, subst, inl, inr, Bool, true, false, not, ◌&&◌, List, [], ◌∷◌, map, Option,
  none, some, arith, ltb, leb, any, all, Bool-cases, Text,
}
use tokligence_gateway.QuotaCache.Values.{
  Signal, Window, Rate, Result, reset_expired, window_expired, signal_expired, has_expired_window,
  clear_signal, clear_window, clear_expired_windows, age_signal, age_window, age_rate, age_as_stale,
  is_given,
}
use tokligence_gateway.QuotaCache.Cache.{
  aged, Limits, Entry, Got, served, live_value, is_backing_off, held_value, held, get_by, get,
}

any-map-none :
    {A B : Type 0} (p : B → Bool) (f : A → B) (xs : List A)
    → ((a : A) → p (f a) ≡ false)
    → any p (map f xs) ≡ false
unfolding any
any-map-none p f [] h = refl
any-map-none p f (x ∷ xs) h = rw (h x) (any-map-none p f xs h)

all-map :
    {A B : Type 0} (p : B → Bool) (f : A → B) (xs : List A)
    → ((a : A) → p (f a) ≡ true)
    → all p (map f xs) ≡ true
unfolding all
all-map p f [] h = refl
all-map p f (x ∷ xs) h = rw (h x) (all-map p f xs h)

-- Nothing that has been cleared has a window that is over.
clear_signal-expired : (time : ℕ) (s : Signal) → signal_expired time (clear_signal time s) ≡ false
unfolding reset_expired
clear_signal-expired time s = elim (Bool-cases (signal_expired time s)) [
  | inl over ↦ rw (over, reset_expired) refl
  | inr going ↦ rw going going
]

clear_window-expired : (time : ℕ) (w : Window) → window_expired time (clear_window time w) ≡ false
unfolding reset_expired
clear_window-expired time w = elim (Bool-cases (window_expired time w)) [
  | inl over ↦ rw (over, reset_expired) refl
  | inr going ↦ rw going going
]

clear_expired_windows-lem :
    (r : Result) (time : ℕ) → has_expired_window (clear_expired_windows r time) time ≡ false
unfolding has_expired_window clear_expired_windows
clear_expired_windows-lem r time =
    rw
      (any-map-none (signal_expired time) (clear_signal time) r.signals (clear_signal-expired time))
      (any-map-none (any (window_expired time)) (map (clear_window time)) r.accounts (λ ws.
        any-map-none (window_expired time) (clear_window time) ws (clear_window-expired time)))

age_signal-expired :
    (recent : Bool) (time : ℕ) (s : Signal) → signal_expired time (age_signal recent time s) ≡ false
unfolding reset_expired
age_signal-expired recent time s = elim (Bool-cases (signal_expired time s)) [
  | inl over ↦ rw (over, reset_expired) refl
  | inr going ↦ rw going going
]

age_window-expired :
    (recent : Bool) (time : ℕ) (w : Window) → window_expired time (age_window recent time w) ≡ false
unfolding reset_expired
age_window-expired false time w = refl
age_window-expired true time w = elim (Bool-cases (window_expired time w)) [
  | inl over ↦ rw (over, reset_expired) refl
  | inr going ↦ rw going going
]

age_as_stale-expired :
    (r : Result) (age stale time : ℕ)
    → has_expired_window (age_as_stale r age stale time) time ≡ false
unfolding has_expired_window age_as_stale
age_as_stale-expired r age stale time =
    rw
      (any-map-none (signal_expired time) (age_signal (leb age stale) time) r.signals
        (age_signal-expired (leb age stale) time))
      (any-map-none (any (window_expired time)) (map (age_window (leb age stale) time)) r.accounts
        (λ ws.
          any-map-none (window_expired time) (age_window (leb age stale) time) ws
            (age_window-expired (leb age stale) time)))

abbrev is_none_left : List Text → Bool
is_none_left [] = true
is_none_left (w ∷ ws) = false

abbrev bare_signal : Signal → Bool
bare_signal s = not (is_given s.percent) && not (is_given s.remaining) && is_none_left s.windows

abbrev bare_window : Window → Bool
bare_window w = not (is_given w.used)

unfoldable bare_rate : Option Rate → Bool
bare_rate none = true
bare_rate (some r) = not (is_given r.remaining)

-- A value without any figure: its own, those of its signals, with their windows, those of its
-- accounts' windows, and what is left of the observed rate
unfoldable pub is_bare : Result → Bool
unfolding bare_rate
is_bare r =
    not (is_given r.used)
    && not (is_given r.limit)
    && not (is_given r.percent)
    && all bare_signal r.signals
    && all (all bare_window) r.accounts
    && bare_rate r.rate

age_rate-bare : (o : Option Rate) → bare_rate (age_rate false o) ≡ true
unfolding bare_rate
age_rate-bare none = refl
age_rate-bare (some r) = refl

age_as_stale-is_bare :
    (r : Result) (age stale time : ℕ)
    → leb age stale ≡ false
    → is_bare (age_as_stale r age stale time) ≡ true
unfolding is_bare age_as_stale
age_as_stale-is_bare r age stale time old =
    let signals = all-map bare_signal (age_signal false time) r.signals (λ s. refl) in
    let accounts =
      all-map (all bare_window) (map (age_window false time)) r.accounts
        (λ ws. all-map bare_window (age_window false time) ws (λ w. refl)) in
    rw (old, signals) (rw accounts (age_rate-bare r.rate))

-- The value is younger than the time to live, or one that its probe has vouched for in part, or no
-- older than `staleMs`; otherwise it has no figures.
pub IsTimely : Limits → Entry → ℕ → Result → Type 0
IsTimely x e time r =
    (ltb (time - e.at) x.ttl ≡ true)
    ⊎ ((e.primary_fresh ≡ true) ⊎ ((leb (time - e.at) x.stale ≡ true) ⊎ (is_bare r ≡ true)))

abbrev IsFine : Limits → Entry → ℕ → Got → Type 0
IsFine x e time (served r e') = (has_expired_window r time ≡ false) × IsTimely x e time r
IsFine x e time _ = Unit

aged-IsFine :
    (x : Limits) (e : Entry) (time : ℕ) (v : Result) → IsFine x e time (served (aged x e v time) e)
unfolding IsTimely
aged-IsFine x e time v = (
  age_as_stale-expired v (time - e.at) x.stale time,
  elim (Bool-cases (leb (time - e.at) x.stale)) [
    | inl recent ↦ inr (inr (inl recent))
    | inr old ↦ inr (inr (inr (age_as_stale-is_bare v (time - e.at) x.stale time old)))
  ],
)

live-IsFine :
    (x : Limits) (e : Entry) (time : ℕ) (o : Option Result) (v : Result)
    → live_value x e.at time o ≡ some v
    → IsFine x e time (served v e)
unfolding live_value IsTimely
live-IsFine x e time none v h = cc
live-IsFine x e time (some w) v h =
    elim (Bool-cases (ltb (time - e.at) x.ttl && not (has_expired_window w time))) [
      | inr dead ↦ absurd (ground arith)
      | inl live ↦
          let same : w ≡ v = ground arith in
          (subst (λ v. has_expired_window v time ≡ false) same (ground arith), inl (ground arith))
    ]

held_value-IsFine :
    (x : Limits) (e : Entry) (v : Result) (time : ℕ) (b : Bool)
    → e.primary_fresh ≡ b
    → IsFine x e time (held_value x e v time b)
unfolding held_value IsTimely
held_value-IsFine x e v time true h = (clear_expired_windows-lem v time, inr (inl h))
held_value-IsFine x e v time false h = aged-IsFine x e time v

held-IsFine :
    (x : Limits) (e : Entry) (o : Option Result) (time : ℕ) → IsFine x e time (held x e o time)
unfolding held IsTimely has_expired_window any is_bare bare_rate all
held-IsFine x e none time = (refl, inr (inr (inr refl)))
held-IsFine x e (some v) time = held_value-IsFine x e v time e.primary_fresh refl

get_by-IsFine :
    (x : Limits) (e : Entry) (time : ℕ) (o : Option Result) (flight resting : Bool)
    → live_value x e.at time e.value ≡ o
    → IsFine x e time (get_by x e time o flight resting)
unfolding get_by
get_by-IsFine x e time (some v) flight resting h = live-IsFine x e time e.value v h
get_by-IsFine x e time none true resting h = tt
get_by-IsFine x e time none false true h = held-IsFine x e e.value time
get_by-IsFine x e time none false false h = tt

-- What a call answers without asking the provider never shows a window that is over at that time,
-- and is timely: it is within its time to live, or one for which `primaryFresh` is set, or no older
-- than `staleMs`, or has no figures: no use, limit or percentage, no signal with a percentage, a
-- remainder or windows, no account's window with a use, and no remainder of an observed rate.
pub get-served :
    (x : Limits) (e e' : Entry) (time : ℕ) (r : Result)
    → get x e time ≡ served r e'
    → (has_expired_window r time ≡ false) × IsTimely x e time r
get-served x e e' time r h = subst (IsFine x e time) h (
    get_by-IsFine x e time (live_value x e.at time e.value) e.flight
      (is_backing_off x e.failed_at time) refl)
