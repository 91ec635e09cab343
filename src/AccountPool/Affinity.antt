-- ===== src/AccountPool/Affinity.antt =====
-- opencode-account-pool.mjs: a session stays with the account that served it.
use tokligence_gateway.Prelude.{
  ℕ, ◌+◌, ◌<◌, ◌≡◌, refl, ap, inl, inr, Bool, List, [], ◌∷◌, ◌++◌, none, some, arith, length, ltb,
  leb, Text, text_eq, text_eq_iff, text_eq_refl, Option-cases, Bool-cases, find, find_sound,
  find-none,
}
use tokligence_gateway.Prelude.JsMap
use tokligence_gateway.Prelude.JsMap.{
  JsMap, get-set, get-delete, get-append, set_absent, length-trim-le, length-delete-le,
}
use tokligence_gateway.AccountPool.{
  Account, Endpoint, World, Pool, Sticky, max_sticky, affinity_ms, drop_expired, prune_affinity,
  preferred, select, mark_success, generation_of,
}
use tokligence_gateway.AccountPool.Selection.{IsCandidate, candidates, Fit-is_candidate}

-- The map ends with the entry of `k`, and has no other.
record EndsWith (m : JsMap Sticky) (k : Text) (s : Sticky) : Type 0 where
  before : JsMap Sticky
  shape : m ≡ before ++ (k, s) ∷ []
  absent : JsMap.get before k ≡ none

trim-EndsWith_append :
    (n : ℕ) (b : JsMap Sticky) (k : Text) (s : Sticky)
    → JsMap.get b k ≡ none
    → 0 < n
    → EndsWith (JsMap.trim n (b ++ (k, s) ∷ [])) k s
unfolding JsMap.trim JsMap.get
trim-EndsWith_append n [] k s h pos = record { before = []; shape = ground arith; absent = refl }
trim-EndsWith_append n ((j, t) ∷ b) k s h pos =
    elim (Bool-cases (ltb n (length (((j, t) ∷ b) ++ (k, s) ∷ [])))) [
      | inl long ↦ rw long (trim-EndsWith_append n b k s (ground arith) pos)
      | inr short ↦ rw short (record { before = (j, t) ∷ b; shape = refl; absent = h })
    ]

drop_expired-EndsWith_append :
    (at : ℕ) (b : JsMap Sticky) (k : Text) (s : Sticky)
    → JsMap.get b k ≡ none
    → at < s.until
    → EndsWith (drop_expired at (b ++ (k, s) ∷ [])) k s
unfolding drop_expired JsMap.get
drop_expired-EndsWith_append at [] k s h live = record {
  before = [];
  shape = ground arith;
  absent = refl;
}
drop_expired-EndsWith_append at ((j, t) ∷ b) k s h live =
    let e = drop_expired-EndsWith_append at b k s (ground arith) live in
    elim (Bool-cases (leb t.until at)) [
      | inl over ↦ rw over e
      | inr on ↦ rw on (record {
        before = (j, t) ∷ e.before;
        shape = ap (λ x. (j, t) ∷ x) e.shape;
        absent = ground (arith, e.absent);
      })
    ]

prune_affinity-EndsWith :
    (at : ℕ) (m : JsMap Sticky) (k : Text) (s : Sticky)
    → EndsWith m k s
    → at < s.until
    → EndsWith (prune_affinity at m) k s
unfolding prune_affinity
prune_affinity-EndsWith at m k s e live =
    let d = drop_expired-EndsWith_append at e.before k s e.absent live in
    rw (e.shape, d.shape) (trim-EndsWith_append max_sticky d.before k s d.absent (omega arith))

EndsWith-get : (m : JsMap Sticky) (k : Text) (s : Sticky) → EndsWith m k s → JsMap.get m k ≡ some s
EndsWith-get m k s e = rw e.shape (get-append e.before k s e.absent)

delete_absent : (m : JsMap Sticky) (k : Text) → JsMap.get (JsMap.delete m k) k ≡ none
delete_absent m k = rw (get-delete m k k, text_eq_refl k)

mark_success-EndsWith :
    (p q : Pool) (a : Account) (key : Text) (generation at : ℕ)
    → generation_of p a.id ≡ some generation
    → mark_success p a key generation at ≡ some q
    → EndsWith q.affinity key (record { account_id = a.id; until = at + affinity_ms })
mark_success-EndsWith p q a key generation at current h =
    let pruned = JsMap.delete (prune_affinity at p.affinity) key in
    let s : Sticky = record { account_id = a.id; until = at + affinity_ms } in
    let same : q.affinity ≡ JsMap.trim max_sticky (JsMap.set pruned key s) =
      unfold mark_success generation_of in ground arith in
    let gone = delete_absent (prune_affinity at p.affinity) key in
    rw (same, set_absent pruned key s gone)
      (trim-EndsWith_append max_sticky pruned key s gone (omega arith))

-- An account that has served a session is preferred for that session for an hour: as long as it may
-- be chosen, `select` answers with it, whatever other accounts may be chosen too.
pub select-mark_success :
    (w : World) (accounts : List Account) (p q : Pool) (a : Account) (key : Text)
    (generation at later : ℕ) (endpoint : Endpoint) (model : Text) (exclude : List Text)
    (include_cooling : Bool)
    → generation_of p a.id ≡ some generation
    → mark_success p a key generation at ≡ some q
    → later < at + 3600000
    → IsCandidate w accounts q endpoint model exclude include_cooling later a
    → (b : Account) × ((select w accounts q endpoint model key exclude include_cooling later).1
        ≡ some b)
      × (b.id ≡ a.id)
select-mark_success w accounts p q a key generation at later endpoint model exclude include_cooling
      current h soon fit =
    let s : Sticky = record { account_id = a.id; until = at + affinity_ms } in
    let kept =
      prune_affinity-EndsWith later q.affinity key s
        (mark_success-EndsWith p q a key generation at current h) soon in
    let known = EndsWith-get (prune_affinity later q.affinity) key s kept in
    let all = candidates w accounts q endpoint model exclude include_cooling later in
    let listed = Fit-is_candidate w accounts q endpoint model exclude include_cooling later a fit in
    elim (Option-cases (find (λ (x : Account). text_eq x.id a.id) all)) [
      | inl nothing ↦
          let differs = find-none (λ (x : Account). text_eq x.id a.id) all a nothing listed in
          absurd (ground (arith, text_eq_refl a.id))
      | inr (b, found) ↦ (
        b,
        unfold select preferred in ground arith,
        (text_eq_iff b.id a.id).0 (find_sound (λ (x : Account). text_eq x.id a.id) all b found).1,
      )
    ]
