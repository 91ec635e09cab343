-- ===== src/Streams/Collect/Whole.antt =====
-- anthropic-openai-codec.mjs: what the blocks of a message say, and how an event changes it.
pub mod Changes
pub mod Stream
pub mod Keeping
pub mod Round
use mathlib.Core.List.{append_assoc, append-nil}
use tokligence_gateway.Prelude.{
  ℕ, suc, ◌+◌, ◌≡◌, ◌<◌, ◌≤◌, refl, sym, ap, ◌∙◌, subst, inl, inr, Bool, true, false, List, [], ◌∷◌,
  ◌++◌, Option, none, some, arith, Text, leb, ◌==◌, keep, map, if◌then◌else◌, Bool-cases,
}
use tokligence_gateway.Streams.Codec.{
  Opening, text_block, thinking_block, tool_block, Delta, text_delta, thinking_delta, json_delta,
  Event, Kind, text, tool,
}
use tokligence_gateway.Streams.Collect.{
  Block, Blocks, put_block, change, add_delta, Collected, opened_block, collect_event,
  collect_events, insert_entry, sort_entries, Part, text_part, thinking_part, tool_part, part_from,
  part_of, is_filled,
}

-- The text of the text parts, one after the other
unfoldable pub said : List Part → Text
said [] = []
said (text_part t ∷ ps) = t ++ said ps
said (_ ∷ ps) = said ps

unfoldable pub thought : List Part → Text
thought [] = []
thought (thinking_part t ∷ ps) = t ++ thought ps
thought (_ ∷ ps) = thought ps

pub said-keep : (ps : List Part) → said (keep is_filled ps) ≡ said ps
unfolding said keep
said-keep [] = refl
said-keep (text_part [] ∷ ps) = said-keep ps
said-keep (text_part (c ∷ t) ∷ ps) = ap (λ (r : Text). (c ∷ t) ++ r) (said-keep ps)
said-keep (thinking_part t ∷ ps) = said-keep ps
said-keep (tool_part i n j ∷ ps) = said-keep ps

pub thought-keep : (ps : List Part) → thought (keep is_filled ps) ≡ thought ps
unfolding thought keep
thought-keep [] = refl
thought-keep (text_part [] ∷ ps) = thought-keep ps
thought-keep (text_part (c ∷ t) ∷ ps) = thought-keep ps
thought-keep (thinking_part t ∷ ps) = ap (λ (r : Text). t ++ r) (thought-keep ps)
thought-keep (tool_part i n j ∷ ps) = thought-keep ps

pub said-append : (ps qs : List Part) → said (ps ++ qs) ≡ said ps ++ said qs
unfolding said
said-append [] qs = refl
said-append (text_part t ∷ ps) qs =
    rw (said-append ps qs) (sym (append_assoc t (said ps) (said qs)))
said-append (thinking_part t ∷ ps) qs = said-append ps qs
said-append (tool_part i n j ∷ ps) qs = said-append ps qs

pub thought-append : (ps qs : List Part) → thought (ps ++ qs) ≡ thought ps ++ thought qs
unfolding thought
thought-append [] qs = refl
thought-append (text_part t ∷ ps) qs = thought-append ps qs
thought-append (thinking_part t ∷ ps) qs =
    rw (thought-append ps qs) (sym (append_assoc t (thought ps) (thought qs)))
thought-append (tool_part i n j ∷ ps) qs = thought-append ps qs

-- The blocks are numbered one after the other.
abbrev pub IsFrom : ℕ → Blocks → ℕ → Type 0
IsFrom k [] n = k ≡ n
IsFrom k ((i, x) ∷ bs) n = (i ≡ k) × IsFrom (suc k) bs n

pub IsFrom-le : (k n : ℕ) (bs : Blocks) → IsFrom k bs n → k ≤ n
IsFrom-le k n [] h = omega arith
IsFrom-le k n ((i, x) ∷ bs) (e, h) = omega (arith, IsFrom-le (suc k) n bs h)

pub put_block-new :
    (k n : ℕ) (bs : Blocks) (x : Block) → IsFrom k bs n → put_block bs n x ≡ bs ++ (n, x) ∷ []
unfolding put_block
put_block-new k n [] x h = refl
put_block-new k n ((i, y) ∷ bs) x (e, h) =
    ground (arith, IsFrom-le (suc k) n bs h, put_block-new (suc k) n bs x h)

pub IsFrom-append :
    (k n : ℕ) (bs : Blocks) (x : Block) → IsFrom k bs n → IsFrom k (bs ++ (n, x) ∷ []) (suc n)
IsFrom-append k n [] x h = (sym h, omega arith)
IsFrom-append k n ((i, y) ∷ bs) x (e, h) = (e, IsFrom-append (suc k) n bs x h)

pub IsFrom-change :
    (k n i : ℕ) (f : Block → Block) (bs : Blocks) → IsFrom k bs n → IsFrom k (change i f bs) n
unfolding change
IsFrom-change k n i f [] h = h
IsFrom-change k n i f ((j, y) ∷ bs) (e, h) = elim (Bool-cases (j == i)) [
  | inl same ↦ rw (same, change) (e, h)
  | inr other ↦ rw (other, change) (e, IsFrom-change (suc k) n i f bs h)
]

insert_entry-first :
    (k n i : ℕ) (x : Block) (bs : Blocks)
    → i < k
    → IsFrom k bs n
    → insert_entry (i, x) bs ≡ (i, x) ∷ bs
unfolding insert_entry
insert_entry-first k n i x [] lt h = refl
insert_entry-first k n i x ((j, y) ∷ bs) lt (e, h) = ground arith

-- They are in the order of their numbers already.
pub sort_entries-IsFrom : (k n : ℕ) (bs : Blocks) → IsFrom k bs n → sort_entries bs ≡ bs
unfolding sort_entries
sort_entries-IsFrom k n [] h = refl
sort_entries-IsFrom k n ((i, x) ∷ bs) (e, h) =
    rw (sort_entries-IsFrom (suc k) n bs h) (insert_entry-first (suc k) n i x bs (omega arith) h)
