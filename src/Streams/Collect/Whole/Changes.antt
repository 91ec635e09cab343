-- ===== src/Streams/Collect/Whole/Changes.antt =====
-- anthropic-openai-codec.mjs: what a delta changes of what the blocks of a message say.
use tokligence_gateway.Prelude.{
  ℕ, suc, ◌≡◌, ◌≤◌, refl, sym, ap, ◌∙◌, inl, inr, [], ◌∷◌, ◌++◌, arith, Text, ◌==◌, map, Bool-cases,
}
use tokligence_gateway.Streams.Codec.{Opening, json_delta}
use tokligence_gateway.Streams.Collect.{Block, Blocks, change, add_delta, part_from, part_of}
use tokligence_gateway.Streams.Collect.Whole.{said, thought, said-append, thought-append, IsFrom}

IsFrom-last :
    (k n b : ℕ) (bs : Blocks) (x : Block) → IsFrom k (bs ++ (b, x) ∷ []) n → (n ≡ suc b) × (k ≤ b)
IsFrom-last k n b [] x (e, h) = (omega arith, omega arith)
IsFrom-last k n b ((j, y) ∷ bs) x (e, h) =
    let (last, le) = IsFrom-last (suc k) n b bs x h in (last, omega arith)

pub change-last :
    (k n b : ℕ) (f : Block → Block) (bs : Blocks) (x : Block)
    → IsFrom k (bs ++ (b, x) ∷ []) n
    → change b f (bs ++ (b, x) ∷ []) ≡ bs ++ (b, f x) ∷ []
unfolding change
change-last k n b f [] x h = ground arith
change-last k n b f ((j, y) ∷ bs) x (e, h) =
    let (last, le) = IsFrom-last (suc k) n b bs x h in
    elim (Bool-cases (j == b)) [
      | inl same ↦ absurd (ground arith)
      | inr other ↦ rw (other, change) (ap ((j, y) ∷◌) (change-last (suc k) n b f bs x h))
    ]

-- Arguments of a tool change nothing that is said or thought.
said_json :
    (o : Opening) (x : Block) (t : Text) (bs : Blocks)
    → (said (part_from o (add_delta (json_delta t) x) ∷ map part_of bs)
        ≡ said (part_from o x ∷ map part_of bs))
      × (thought (part_from o (add_delta (json_delta t) x) ∷ map part_of bs)
          ≡ thought (part_from o x ∷ map part_of bs))
unfolding said thought add_delta
said_json v0 x t bs = ground arith

said-cons :
    (e : ℕ × Block) (xs bs : Blocks)
    → said (map part_of xs) ≡ said (map part_of bs)
    → thought (map part_of xs) ≡ thought (map part_of bs)
    → (said (part_of e ∷ map part_of xs) ≡ said (part_of e ∷ map part_of bs))
      × (thought (part_of e ∷ map part_of xs) ≡ thought (part_of e ∷ map part_of bs))
said-cons e xs bs h g = (
  said-append (part_of e ∷ []) (map part_of xs)
      ∙ ap (λ r. said (part_of e ∷ []) ++ r) h
      ∙ sym (said-append (part_of e ∷ []) (map part_of bs)),
  thought-append (part_of e ∷ []) (map part_of xs)
      ∙ ap (λ r. thought (part_of e ∷ []) ++ r) g
      ∙ sym (thought-append (part_of e ∷ []) (map part_of bs)),
)

pub said-change_json :
    (i : ℕ) (t : Text) (bs : Blocks)
    → (said (map part_of (change i (add_delta (json_delta t)) bs)) ≡ said (map part_of bs))
      × (thought (map part_of (change i (add_delta (json_delta t)) bs)) ≡ thought (map part_of bs))
unfolding change
said-change_json i t [] = (refl, refl)
said-change_json i t ((j, y) ∷ bs) = elim (Bool-cases (j == i)) [
  | inl same ↦ rw (same, change) (unfold add_delta in said_json y.opening y t bs)
  | inr other ↦
      let (h, g) = said-change_json i t bs in
      rw (other, change) (said-cons (j, y) (change i (add_delta (json_delta t)) bs) bs h g)
]
