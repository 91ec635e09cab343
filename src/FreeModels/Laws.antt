-- ===== src/FreeModels/Laws.antt =====
-- opencode-free-models.mjs: the recursive price check.
use tokligence_gateway.Prelude.{◌≡◌, refl, ◌↔◌, Bool, true, arith, Text}
use tokligence_gateway.FreeModels.Costs.{
  Json, null, bool, number, text, array, object, Items, nil, cons, Fields, end, field, zero_value,
  all_zero, all_zero_items, all_zero_fields,
}

-- `v` stands in `j` as a value that is no array and no object.
mutual
  pub data Leaf (v : Json) : Json → Type 0 where
    a_null : v ≡ null → Leaf v null
    a_bool : {b : Bool} → v ≡ bool b → Leaf v (bool b)
    a_number : {z : Bool} → v ≡ number z → Leaf v (number z)
    a_text : {t : Text} → v ≡ text t → Leaf v (text t)
    in_array : {xs : Items} → LeafItems v xs → Leaf v (array xs)
    in_object : {fs : Fields} → LeafFields v fs → Leaf v (object fs)

  pub data LeafItems (v : Json) : Items → Type 0 where
    here_item : {x : Json} {xs : Items} → Leaf v x → LeafItems v (cons x xs)
    later_item : {x : Json} {xs : Items} → LeafItems v xs → LeafItems v (cons x xs)

  pub data LeafFields (v : Json) : Fields → Type 0 where
    here_field : {k : Text} {x : Json} {fs : Fields} → Leaf v x → LeafFields v (field k x fs)
    later_field :
        {k : Text} {x : Json} {fs : Fields} → LeafFields v fs → LeafFields v (field k x fs)

mutual
  unfolding all_zero

  Leaf-zero : {v j : Json} → Leaf v j → all_zero j ≡ true → zero_value v ≡ true
  Leaf-zero (a_null e) h = rw e h
  Leaf-zero (a_bool e) h = rw e h
  Leaf-zero (a_number e) h = rw e h
  Leaf-zero (a_text e) h = rw e h
  Leaf-zero (in_array l) h = leaf_zero_items l h
  Leaf-zero (in_object l) h = leaf_zero_fields l h

  leaf_zero_items :
      {v : Json} {xs : Items} → LeafItems v xs → all_zero_items xs ≡ true → zero_value v ≡ true
  leaf_zero_items (here_item l) h = Leaf-zero l (ground arith)
  leaf_zero_items (later_item l) h = leaf_zero_items l (ground arith)

  leaf_zero_fields :
      {v : Json} {fs : Fields} → LeafFields v fs → all_zero_fields fs ≡ true → zero_value v ≡ true
  leaf_zero_fields (here_field l) h = Leaf-zero l (ground arith)
  leaf_zero_fields (later_field l) h = leaf_zero_fields l (ground arith)

mutual
  unfolding all_zero

  zero_leaves : (j : Json) → ((v : Json) → Leaf v j → zero_value v ≡ true) → all_zero j ≡ true
  zero_leaves null h = h null (a_null refl)
  zero_leaves (bool b) h = h (bool b) (a_bool refl)
  zero_leaves (number z) h = h (number z) (a_number refl)
  zero_leaves (text t) h = h (text t) (a_text refl)
  zero_leaves (array xs) h = zero_leaves_items xs (λ v l. h v (in_array l))
  zero_leaves (object fs) h = zero_leaves_fields fs (λ v l. h v (in_object l))

  zero_leaves_items :
      (xs : Items) → ((v : Json) → LeafItems v xs → zero_value v ≡ true) → all_zero_items xs ≡ true
  zero_leaves_items nil h = refl
  zero_leaves_items (cons x xs) h =
      rw (zero_leaves x (λ v l. h v (here_item l)))
        (zero_leaves_items xs (λ v l. h v (later_item l)))

  zero_leaves_fields :
      (fs : Fields)
      → ((v : Json) → LeafFields v fs → zero_value v ≡ true)
      → all_zero_fields fs ≡ true
  zero_leaves_fields end h = refl
  zero_leaves_fields (field k x fs) h =
      rw (zero_leaves x (λ v l. h v (here_field l)))
        (zero_leaves_fields fs (λ v l. h v (later_field l)))

-- The recursive price check accepts a price object exactly when every value that stands in it, at
-- any depth, reads as a finite zero.
pub all_zero_iff : (j : Json) → (all_zero j ≡ true) ↔ ((v : Json) → Leaf v j → zero_value v ≡ true)
all_zero_iff j = (λ h v l. Leaf-zero l h, zero_leaves j)
