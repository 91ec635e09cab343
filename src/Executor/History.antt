-- ===== src/Executor/History.antt =====
-- request-executor.mjs: recordModelFamily, the families that have served a session lately. A role
-- that avoids them asks for them in routing-planner.mjs.
use tokligence_gateway.Prelude.{
  ℕ, zero, suc, ◌+◌, ◌-◌, ◌≤◌, ◌<◌, ◌≡◌, refl, sym, inl, subst, not, List, [], ◌∷◌, ◌++◌, Option,
  none, some, arith, keep, drop, length, length-append, In, In-append_right, Text, text_eq, truthy,
  ltb, if◌then◌else◌,
}
use tokligence_gateway.Prelude.JsMap
use tokligence_gateway.Prelude.JsMap.{JsMap, get-trim-set-delete, length-trim-le}
use tokligence_gateway.Planner.{Runtime, History}

abbrev pub max_sessions : ℕ
max_sessions = 1000

abbrev pub max_families : ℕ
max_families = 16

-- `xs.slice(-n)`
unfoldable pub last_of {ℓ} : {A : Type ℓ} → ℕ → List A → List A
last_of n xs = drop (length xs - n) xs

-- The families of a history that has not lapsed
unfoldable pub live_families : JsMap History → Text → ℕ → ℕ → List Text
live_families histories key ttl now = elim (JsMap.get histories key) [
  | none ↦ []
  | some h ↦ if ltb now (h.updated_at + ttl) then h.families else []
]

unfoldable pub next_families : List Text → Text → List Text
next_families families family =
    last_of max_families (keep (λ f. not (text_eq f family)) families ++ family ∷ [])

unfoldable pub record_family : Runtime → Text → Text → ℕ → ℕ → Runtime
record_family r key family ttl now = record r {
  histories = JsMap.trim max_sessions (
      JsMap.set (JsMap.delete r.histories key) key (record {
        families = next_families (live_families r.histories key ttl now) family;
        updated_at = now;
      }));
}

-- recordModelFamily: without a key or a family nothing is recorded.
unfoldable pub record_model_family : Runtime → Option Text → Option Text → ℕ → ℕ → Runtime
record_model_family r key family ttl now = elim (truthy key) [
  | none ↦ r
  | some k ↦ elim (truthy family) [ none ↦ r | some f ↦ record_family r k f ttl now ]
]

length-drop : {A : Type 0} (n : ℕ) (xs : List A) → length (drop n xs) ≡ length xs - n
unfolding drop
length-drop zero xs = omega arith
length-drop (suc n) [] = omega arith
length-drop (suc n) (x ∷ xs) = omega (arith, length-drop n xs)

-- The last element stays in a list that keeps at least one.
In-drop_last :
    {A : Type 0} (n : ℕ) (xs : List A) (x : A) → n ≤ length xs → In x (drop n (xs ++ x ∷ []))
unfolding drop
In-drop_last zero xs x h = In-append_right x xs (x ∷ []) (inl refl)
In-drop_last (suc n) [] x h = absurd (omega arith)
In-drop_last (suc n) (y ∷ xs) x h = In-drop_last n xs x (omega arith)

In-next_families :
    (families : List Text) (family : Text) → In family (next_families families family)
unfolding next_families last_of
In-next_families families family =
    let kept = keep (λ f. not (text_eq f family)) families in
    let size = length-append kept (family ∷ []) in
    In-drop_last (length (kept ++ family ∷ []) - 16) kept family (omega arith)

length-next_families-le :
    (families : List Text) (family : Text) → length (next_families families family) ≤ 16
unfolding next_families last_of
length-next_families-le families family =
    let kept = keep (λ f. not (text_eq f family)) families in
    let size = length-drop (length (kept ++ family ∷ []) - 16) (kept ++ family ∷ []) in omega arith

get-record_family :
    (r : Runtime) (key family : Text) (ttl now : ℕ)
    → JsMap.get (record_family r key family ttl now).histories key
      ≡ some (record {
        families = next_families (live_families r.histories key ttl now) family;
        updated_at = now;
      })
unfolding record_family
get-record_family r key family ttl now = get-trim-set-delete 1000 r.histories key _ (omega arith)

-- A family that is recorded for a session is among the session's live families until its time has
-- passed. There are at most 16 of them, and at most 1000 sessions are kept.
pub record_family_lem :
    (r : Runtime) (key family : Text) (ttl now later : ℕ)
    → later < now + ttl
    → In family (live_families (record_family r key family ttl now).histories key ttl later)
      × (length (live_families (record_family r key family ttl now).histories key ttl later) ≤ 16)
      × (length (record_family r key family ttl now).histories ≤ 1000)
record_family_lem r key family ttl now later in_time =
    let families = next_families (live_families r.histories key ttl now) family in
    let alive : live_families (record_family r key family ttl now).histories key ttl later
        ≡ families =
      unfold live_families in ground (arith, get-record_family r key family ttl now) in
    (
      subst (In family) (sym alive) (In-next_families _ family),
      subst (λ (xs : List Text). length xs ≤ 16) (sym alive) (length-next_families-le _ family),
      unfold record_family in length-trim-le 1000 _,
    )
