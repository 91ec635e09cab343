-- ===== src/Streams/Collect/Whole/Stream.antt =====
-- anthropic-openai-codec.mjs: what an event of createAnthropicStreamCodec adds to the message that
-- collectAnthropicStream makes.
use mathlib.Core.List.{append_assoc, append-nil, map-append}
use tokligence_gateway.Prelude.{
  arith, ℕ, suc, ◌≡◌, refl, sym, ap, ◌∙◌, subst, inl, inr, [], ◌∷◌, ◌++◌, Option, none, some, Text,
  ◌==◌, map, Bool-cases,
}
use tokligence_gateway.Streams.Codec.{
  Opening, text_block, thinking_block, tool_block, text_delta, thinking_delta, json_delta, Kind,
  text, tool,
}
use tokligence_gateway.Streams.Collect.{
  Block, Blocks, put_block, change, add_delta, opened_block, part_from, part_of,
}
use tokligence_gateway.Streams.Collect.Whole.{
  said, thought, said-append, thought-append, IsFrom, put_block-new, IsFrom-append, IsFrom-change,
}
use tokligence_gateway.Streams.Collect.Whole.Changes.{change-last, said-change_json}

unfoldable pub Ends : Option (Kind × ℕ) → Blocks → Type 0
Ends (some (text, b)) bs =
    (front : Blocks) × (x : Block) × (bs ≡ front ++ (b, x) ∷ []) × (x.opening ≡ text_block)
Ends _ bs = Unit

-- The blocks are as many as have been opened, say and think what has come, and an open text is the
-- last of them.
pub record Fits (n : ℕ) (o : Option (Kind × ℕ)) (s q : Text) (bs : Blocks) : Type 0 where
  pub numbered : IsFrom 0 bs n
  pub speaks : said (map part_of bs) ≡ s
  pub thinks : thought (map part_of bs) ≡ q
  pub ending : Ends o bs

said-new : (n : ℕ) (p : Opening) → said (part_of (n, opened_block p) ∷ []) ≡ []
unfolding said
said-new n v1 = ground arith

thought-new : (n : ℕ) (p : Opening) → thought (part_of (n, opened_block p) ∷ []) ≡ []
unfolding thought
thought-new n v1 = ground arith

said-snoc :
    (bs : Blocks) (e : ℕ × Block)
    → said (map part_of (bs ++ e ∷ [])) ≡ said (map part_of bs) ++ said (part_of e ∷ [])
said-snoc bs e =
    ap said (map-append part_of bs (e ∷ [])) ∙ said-append (map part_of bs) (part_of e ∷ [])

thought-snoc :
    (bs : Blocks) (e : ℕ × Block)
    → thought (map part_of (bs ++ e ∷ [])) ≡ thought (map part_of bs) ++ thought (part_of e ∷ [])
thought-snoc bs e =
    ap thought (map-append part_of bs (e ∷ [])) ∙ thought-append (map part_of bs) (part_of e ∷ [])

Ends-change :
    (i b : ℕ) (t : Text) (front : Blocks) (x : Block)
    → x.opening ≡ text_block
    → Ends (some (text, b)) (change i (add_delta (json_delta t)) (front ++ (b, x) ∷ []))
unfolding change add_delta Ends
Ends-change i b t [] x e = elim (Bool-cases (b == i)) [
  | inl same ↦ ([], record x { json = x.json ++ t }, rw (same, change) refl, e)
  | inr other ↦ ([], x, rw (other, change) refl, e)
]
Ends-change i b t ((j, y) ∷ front) x e = elim (Bool-cases (j == i)) [
  | inl same ↦ ((j, record y { json = y.json ++ t }) ∷ front, x, rw (same, change) refl, e)
  | inr other ↦
      let (front', x', h, k) = Ends-change i b t front x e in
      ((j, y) ∷ front', x', rw (other, change) (ap ((j, y) ∷◌) h), k)
]

Ends-json :
    (o : Option (Kind × ℕ)) (i : ℕ) (t : Text) (bs : Blocks)
    → Ends o bs
    → Ends o (change i (add_delta (json_delta t)) bs)
unfolding Ends
Ends-json none i t bs h = tt
Ends-json (some (tool, b)) i t bs h = tt
Ends-json (some (text, b)) i t bs (front, x, same, e) =
    subst (λ bs. Ends (some (text, b)) (change i (add_delta (json_delta t)) bs)) (sym same)
      (Ends-change i b t front x e)

said_text :
    (b : ℕ) (x : Block)
    → x.opening ≡ text_block
    → (said (part_of (b, x) ∷ []) ≡ x.text) × (thought (part_of (b, x) ∷ []) ≡ [])
unfolding said thought
said_text b x e = (
  ap (λ o. said (part_from o x ∷ [])) e ∙ append-nil x.text,
  ap (λ o. thought (part_from o x ∷ [])) e,
)

module _ (n : ℕ) (s q : Text) (bs : Blocks) where
  -- A new block at the end says nothing yet.
  pub Fits-put :
      (o : Option (Kind × ℕ)) (p : Opening)
      → Fits n o s q bs
      → Fits (suc n) none s q (put_block bs n (opened_block p))
  unfolding Ends
  Fits-put o p h = rw (put_block-new 0 n bs (opened_block p) h.numbered) (record {
    numbered = IsFrom-append 0 n bs _ h.numbered;
    speaks = said-snoc bs (n, opened_block p) ∙ rw (said-new n p) (append-nil _ ∙ h.speaks);
    thinks = thought-snoc bs (n, opened_block p) ∙ rw (thought-new n p) (append-nil _ ∙ h.thinks);
    ending = tt;
  })

  pub Fits-text :
      (o : Option (Kind × ℕ))
      → Fits n o s q bs
      → Fits (suc n) (some (text, n)) s q (put_block bs n (opened_block text_block))
  unfolding Ends
  Fits-text o h =
      let f = Fits-put o text_block h in
      record {
        numbered = f.numbered;
        speaks = f.speaks;
        thinks = f.thinks;
        ending = (
          bs,
          opened_block text_block,
          put_block-new 0 n bs (opened_block text_block) h.numbered,
          refl,
        );
      }

  pub Fits-tool :
      (o : Option (Kind × ℕ)) (i k : Text)
      → Fits n o s q bs
      → Fits (suc n) (some (tool, n)) s q (put_block bs n (opened_block (tool_block i k)))
  unfolding Ends
  Fits-tool o i k h =
      let f = Fits-put o (tool_block i k) h in
      record { numbered = f.numbered; speaks = f.speaks; thinks = f.thinks; ending = tt }

  pub Fits-json :
      (o : Option (Kind × ℕ)) (i : ℕ) (t : Text)
      → Fits n o s q bs
      → Fits n o s q (change i (add_delta (json_delta t)) bs)
  Fits-json o i t h =
      let (same, also) = said-change_json i t bs in
      record {
        numbered = IsFrom-change 0 n i (add_delta (json_delta t)) bs h.numbered;
        speaks = same ∙ h.speaks;
        thinks = also ∙ h.thinks;
        ending = Ends-json o i t bs h.ending;
      }

  pub Fits-text_delta :
      (b : ℕ) (t : Text)
      → Fits n (some (text, b)) s q bs
      → Fits n (some (text, b)) (s ++ t) q (change b (add_delta (text_delta t)) bs)
  unfolding add_delta Ends
  Fits-text_delta b t h =
      let (front, x, same, e) = h.ending in
      let x' : Block = record x { text = x.text ++ t } in
      let (now, _) = said_text b x' e in
      let (then', quiet) = said_text b x e in
      let (_, still) = said_text b x' e in
      let changed : change b (add_delta (text_delta t)) bs ≡ front ++ (b, x') ∷ [] =
        ap (change b (add_delta (text_delta t))) same
        ∙ change-last 0 n b (add_delta (text_delta t)) front x
            (subst (λ bs. IsFrom 0 bs n) same h.numbered) in
      let before' =
        sym (ap (λ bs. said (map part_of bs)) same ∙ said-snoc front (b, x)) ∙ h.speaks in
      let before_q =
        sym (ap (λ bs. thought (map part_of bs)) same ∙ thought-snoc front (b, x)) ∙ h.thinks in
      record {
        numbered = IsFrom-change 0 n b (add_delta (text_delta t)) bs h.numbered;
        speaks =
            ap (λ bs. said (map part_of bs)) changed
            ∙ said-snoc front (b, x')
            ∙ ap (λ r. said (map part_of front) ++ r) now
            ∙ sym (append_assoc (said (map part_of front)) x.text t)
            ∙ ap (λ (r : Text). (said (map part_of front) ++ r) ++ t) (sym then')
            ∙ ap (λ (r : Text). r ++ t) before';
        thinks =
            ap (λ bs. thought (map part_of bs)) changed
            ∙ thought-snoc front (b, x')
            ∙ ap (λ r. thought (map part_of front) ++ r) (still ∙ sym quiet)
            ∙ before_q;
        ending = (front, x', changed, e);
      }

  -- A block of reasoning, opened and filled
  pub Fits-thinking :
      (o : Option (Kind × ℕ)) (t : Text)
      → Fits n o s q bs
      → Fits
          (suc n)
          none
          s
          (q ++ t)
          (change n (add_delta (thinking_delta t)) (put_block bs n (opened_block thinking_block)))
  unfolding add_delta Ends said thought
  Fits-thinking o t h =
      let x = opened_block thinking_block in
      let x' : Block = record x { thinking = t } in
      let numbered = IsFrom-append 0 n bs x h.numbered in
      let changed : change n (add_delta (thinking_delta t)) (put_block bs n x)
          ≡ bs ++ (n, x') ∷ [] =
        ap (change n (add_delta (thinking_delta t))) (put_block-new 0 n bs x h.numbered)
        ∙ change-last 0 (suc n) n (add_delta (thinking_delta t)) bs x numbered in
      subst (Fits (suc n) none s (q ++ t)) (sym changed) (record {
        numbered = IsFrom-append 0 n bs x' h.numbered;
        speaks = said-snoc bs (n, x') ∙ append-nil _ ∙ h.speaks;
        thinks =
            thought-snoc bs (n, x')
            ∙ ap (λ r. thought (map part_of bs) ++ r) (append-nil t)
            ∙ ap (λ (r : Text). r ++ t) h.thinks;
        ending = tt;
      })
