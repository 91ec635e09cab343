-- ===== src/FreeModels/Listing.antt =====
-- opencode-free-models.mjs: freeOpenCodeModels lists exactly the models that are verified free.
use tokligence_gateway.Prelude.{
  ◌≡◌, refl, ◌≢◌, ◌↔◌, inl, inr, true, false, List, [], ◌∷◌, ◌++◌, Option, none, some, arith, Text,
  codes, text_eq_iff, strip_prefix, strip_prefix-eq-some, strip_prefix-append, In, In-append,
  In-append_left, In-append_right, Option-cases, Bool-cases, ap, some-injective, subst,
}
use tokligence_gateway.Prelude.JsMap
use tokligence_gateway.Prelude.JsMap.{JsMap}
use tokligence_gateway.FreeModels.Costs.{
  Json, is_truthy, zero_value, member, Entry, Metadata, FreeModel, is_jev, is_deprecated,
  priced_zero, passes, free_entry, free_entries, free_models,
}
use tokligence_gateway.FreeModels.Laws.{Leaf, all_zero_iff}

abbrev pub AllZero : Json → Type 0
AllZero j = (v : Json) → Leaf v j → zero_value v ≡ true

-- The model has a name, no price is other than zero, and it is neither a Jev model nor deprecated.
pub record IsVerifiedFree (id : Text) (pricing : Option Json) (m : Metadata) : Type 0 where
  pub named : id ≢ []
  pub not_jev : (rest : Text) → id ≢ codes "jev-" ++ rest
  pub not_deprecated : m.status ≢ some (codes "deprecated")
  pub input : zero_value (member m.cost (codes "input")) ≡ true
  pub output : zero_value (member m.cost (codes "output")) ≡ true
  pub cost : AllZero m.cost
  pub listed : (p : Json) → pricing ≡ some p → is_truthy (some p) ≡ true → AllZero p

is_jev-false : (id : Text) → is_jev id ≡ false → (rest : Text) → id ≢ codes "jev-" ++ rest
unfolding is_jev
is_jev-false id h rest e =
    let found : strip_prefix (codes "jev-") id ≡ some rest =
      rw e (strip_prefix-append (codes "jev-") rest) in
    ground arith

not-jev : (id : Text) → ((rest : Text) → id ≢ codes "jev-" ++ rest) → is_jev id ≡ false
unfolding is_jev
not-jev id h = elim (Option-cases (strip_prefix (codes "jev-") id)) [
  | inl e ↦ ground arith
  | inr (rest, e) ↦ absurd (h rest (strip_prefix-eq-some (codes "jev-") id rest e))
]

is_deprecated-false : (s : Option Text) → is_deprecated s ≡ false → s ≢ some (codes "deprecated")
unfolding is_deprecated
is_deprecated-false none h = λ e. cc
is_deprecated-false (some s) h = λ e.
    let same : s ≡ codes "deprecated" = cc in ground (arith, text_eq_iff s (codes "deprecated"))

not-deprecated : (s : Option Text) → s ≢ some (codes "deprecated") → is_deprecated s ≡ false
unfolding is_deprecated
not-deprecated none h = refl
not-deprecated (some s) h = elim (Bool-cases (is_deprecated (some s))) [
  | inl t ↦ absurd (h (ap some ((text_eq_iff s _).0 t)))
  | inr f ↦ f
]

priced_zero_sound :
    (o : Option Json)
    → priced_zero o ≡ true
    → (p : Json) → o ≡ some p
    → is_truthy (some p) ≡ true
    → AllZero p
unfolding priced_zero
priced_zero_sound none h p e t = cc
priced_zero_sound (some q) h p e t =
    let same : q ≡ p = some-injective e in
    let said : is_truthy (some q) ≡ true = rw same t in
    subst AllZero same ((all_zero_iff q).0 (ground arith))

priced_zero_complete :
    (o : Option Json)
    → ((p : Json) → o ≡ some p → is_truthy (some p) ≡ true → AllZero p)
    → priced_zero o ≡ true
unfolding priced_zero
priced_zero_complete none h = refl
priced_zero_complete (some q) h = elim (Bool-cases (is_truthy (some q))) [
  | inl t ↦ let zero = (all_zero_iff q).1 (h q refl t) in ground arith
  | inr f ↦ ground arith
]

named_sound : (id : Text) (o : Option Json) (m : Metadata) → passes id o m ≡ true → id ≢ []
unfolding passes
named_sound [] o m h e = absurd (ground arith)
named_sound (c ∷ t) o m h e = cc

passes_sound :
    (id : Text) (o : Option Json) (m : Metadata) → passes id o m ≡ true → IsVerifiedFree id o m
passes_sound id o m h = record {
  named = named_sound id o m h;
  not_jev = is_jev-false id (unfold passes in ground arith);
  not_deprecated = is_deprecated-false m.status (unfold passes in ground arith);
  input = unfold passes in ground arith;
  output = unfold passes in ground arith;
  cost = (all_zero_iff m.cost).0 (unfold passes in ground arith);
  listed = priced_zero_sound o (unfold passes in ground arith);
}

passes_complete :
    (id : Text) (o : Option Json) (m : Metadata) → IsVerifiedFree id o m → passes id o m ≡ true
passes_complete [] o m v = absurd (v.named refl)
passes_complete (k ∷ id) o m v =
    let a = not-jev (k ∷ id) v.not_jev in
    let b = not-deprecated m.status v.not_deprecated in
    let c = (all_zero_iff m.cost).1 v.cost in
    let d = priced_zero_complete o v.listed in
    let i = v.input in let o' = v.output in unfold passes in ground arith

module _ (metadata : JsMap Metadata) where
  -- `f` stands for the entry `e`: it has its id, and models.dev knows it as a free model.
  pub record IsListed (f : FreeModel) (e : Entry) : Type 0 where
    pub id : e.id ≡ some f.id
    pub model : Metadata
    pub known : JsMap.get metadata f.id ≡ some model
    pub named : f.name ≡ model.name
    pub window : f.context_window ≡ model.context
    pub free : IsVerifiedFree f.id e.pricing model

  listed_entry :
      (f : FreeModel) (e : Entry) (id : Text) (m : Metadata)
      → e.id ≡ some id
      → JsMap.get metadata id ≡ some m
      → passes id e.pricing m ≡ true
      → In f (record { id = id; name = m.name; context_window = m.context } ∷ [])
      → IsListed f e
  listed_entry f e id m known found free (inl s) =
      let same : f.id ≡ id = ap (λ x. x.id) s in
      record {
        id = rw same known;
        model = m;
        known = rw same found;
        named = ap (λ x. x.name) s;
        window = ap (λ x. x.context_window) s;
        free = rw same (passes_sound id e.pricing m free);
      }
  listed_entry f e id m known found free (inr s) = absurd s

  free_entry-sound : (f : FreeModel) (e : Entry) → In f (free_entry metadata e) → IsListed f e
  unfolding free_entry
  free_entry-sound f e h = elim (Option-cases e.id) [
    | inl gone ↦ absurd (rw (gone, free_entry) at h)
    | inr (id, known) ↦ elim (Option-cases (JsMap.get metadata id)) [
      | inl missing ↦ absurd (rw missing at (rw (known, free_entry) at h))
      | inr (m, found) ↦ elim (Bool-cases (passes id e.pricing m)) [
        | inl free ↦
            listed_entry f e id m known found free
              (rw free at (rw found at (rw (known, free_entry) at h)))
        | inr paid ↦ absurd (rw paid at (rw found at (rw (known, free_entry) at h)))
      ]
    ]
  ]

  free_entry_complete : (f : FreeModel) (e : Entry) → IsListed f e → In f (free_entry metadata e)
  unfolding free_entry
  free_entry_complete f e l =
      rw (l.id, free_entry)
        (rw l.known
          (rw (passes_complete f.id e.pricing l.model l.free) (inl (cc (l.named, l.window)))))

  free_entries_sound :
      (f : FreeModel) (es : List Entry)
      → In f (free_entries metadata es)
      → (e : Entry) × In e es × IsListed f e
  unfolding free_entries
  free_entries_sound f [] h = absurd h
  free_entries_sound f (e ∷ es) h = elim (In-append f (free_entry metadata e) _ h) [
    | inl here ↦ (e, inl refl, free_entry-sound f e here)
    | inr later ↦ let (e', m, l) = free_entries_sound f es later in (e', inr m, l)
  ]

  free_entries_complete :
      (f : FreeModel) (es : List Entry) (e : Entry)
      → In e es
      → IsListed f e
      → In f (free_entries metadata es)
  unfolding free_entries
  free_entries_complete f [] e m l = absurd m
  free_entries_complete f (e' ∷ es) e (inl s) l =
      In-append_left f (free_entry metadata e') (free_entries metadata es)
        (rw (← s) (free_entry_complete f e l))
  free_entries_complete f (e' ∷ es) e (inr m) l =
      In-append_right f _ _ (free_entries_complete f es e m l)

-- A model is in the list exactly when some entry of the endpoint's list has its id, models.dev
-- knows that id, and the model is verified free: its id is not empty, the cost of its input and of
-- its output and every other leaf of the cost, at any depth, is zero, and so is every leaf of the
-- entry's own pricing unless that is falsy; it is not a Jev model and not deprecated.
pub free_models_iff :
    (entries : List Entry) (metadata : JsMap Metadata) (found : List FreeModel) (f : FreeModel)
    → free_models (some entries) (some metadata) ≡ some found
    → In f found ↔ ((e : Entry) × In e entries × IsListed metadata f e)
unfolding free_models
free_models_iff entries metadata found f h =
    let same : free_entries metadata entries ≡ found = cc in
    rw (← same) (
      free_entries_sound metadata f entries,
      λ x. free_entries_complete metadata f entries x.0 x.1 x.2,
    )
