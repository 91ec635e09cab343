-- ===== src/Messages/Kept/Blocks.antt =====
-- anthropic-openai-codec.mjs: a block that validateNativeAnthropicRequest lets pass, in anthropicToOpenAI.
use mathlib.Core.List.{append-nil}
use tokligence_gateway.Prelude.{
  ◌≡◌, refl, ap, inl, inr, Bool, true, false, not, ◌&&◌, ◌||◌, [], ◌∷◌, map, Option, none, some,
  arith, Text, codes, text_eq, Bool-cases,
}
use tokligence_gateway.Prelude.Json.{
  Json, null, bool, number, text, array, object, get, is_truthy, is_string, is_named, is_word,
}
use tokligence_gateway.Messages.Validate.{
  tool_result, is_type, refuse_if, is_plain, Invalid, signed_thinking, tool_use, result_id,
  error_flag, text_only_if, is_unsigned, is_flag, is_given_object, thinking_error, tool_use_error,
  tool_result_error, block_error,
}
use tokligence_gateway.Messages.Translate.{
  text_plain, Parts, or_empty, a_part, a_call, a_result, thinking_parts, id_or, or_object,
  result_of, call_of, block_parts, reasoning_of,
}
use tokligence_gateway.Messages.Kept.{
  string_of, said_in, thought_in, called_in, answered_in, said_plain, asked, Carries, is_word-apart,
  or_empty-string, text_of-content,
}

-- The block becomes parts that carry all of it.
unfoldable pub Passes : Bool → Json → Type 0
Passes preserve b =
    (p : Parts) × (block_parts preserve b ≡ some p)
    × Carries (said_in b) (thought_in b) (called_in b) (answered_in preserve b) p

pub refuse_if-none :
    (bad : Bool) (e : Invalid) (rest : Option Invalid)
    → refuse_if bad e rest ≡ none
    → (bad ≡ false) × (rest ≡ none)
refuse_if-none true e rest h = cc
refuse_if-none false e rest h = (refl, h)

module _ (preserve : Bool) (b : Json) where
  other : (u w : Text) → is_type u b ≡ true → text_eq u w ≡ false → is_type w b ≡ false
  other u w h e = is_word-apart u w (get b (codes "type")) h e

  text-Passes :
      is_type (codes "text") b ≡ true → is_string (get b (codes "text")) ≡ true → Passes preserve b
  unfolding Passes block_parts said_in thought_in called_in answered_in said_plain reasoning_of
      text_eq
  text-Passes h s =
      let a = other (codes "text") (codes "thinking") h refl in
      let c = other (codes "text") (codes "tool_use") h refl in
      let d = other (codes "text") (codes "tool_result") h refl in
      (
        a_part (text_plain (or_empty (get b (codes "text")))),
        rw h refl,
        record {
          says = rw h (ap (λ (v : Json). v ∷ []) (or_empty-string (get b (codes "text")) s));
          thinks = rw a refl;
          calls = rw c refl;
          answers = rw d refl;
        },
      )

  thinking_parts-string :
      (v : Option Json) → is_string v ≡ true → reasoning_of (thinking_parts v).plain ≡ string_of v
  unfolding reasoning_of thinking_parts
  thinking_parts-string (some (text [])) h = refl
  thinking_parts-string (some (text (c ∷ t))) h = append-nil (c ∷ t)
  thinking_parts-string none h = cc
  thinking_parts-string (some null) h = cc
  thinking_parts-string (some (bool v)) h = cc
  thinking_parts-string (some (number v)) h = cc
  thinking_parts-string (some (array v)) h = cc
  thinking_parts-string (some (object v)) h = cc

  -- Thinking adds nothing but a part of the plain ones, which is not visible.
  thinking_parts-only :
      (v : Option Json)
      → (said_plain (thinking_parts v).plain ≡ [])
        × (map asked (thinking_parts v).calls ≡ [])
        × ((thinking_parts v).results ≡ [])
  unfolding said_plain thinking_parts
  thinking_parts-only v0 = ground arith

  unsigned : (v : Option Json) → is_unsigned v ≡ true → is_named v ≡ false
  unsigned v h = ground arith

  named : (v w : Option Json) → is_named v ≡ true → some (id_or v w) ≡ v
  unfolding is_truthy
  named v w h = ground arith

  given : (v : Option Json) → is_given_object v ≡ true → some (or_object v) ≡ v
  given v h = ground arith

  thinking-Passes :
      is_type (codes "thinking") b ≡ true
      → is_string (get b (codes "text")) ≡ false
      → is_string (get b (codes "thinking")) ≡ true
      → is_unsigned (get b (codes "signature")) ≡ true
      → Passes preserve b
  unfolding Passes block_parts said_in thought_in called_in answered_in said_plain reasoning_of
      text_eq
  thinking-Passes h n s u =
      let a = other (codes "thinking") (codes "text") h refl in
      let i = other (codes "thinking") (codes "image") h refl in
      let c = other (codes "thinking") (codes "tool_use") h refl in
      let d = other (codes "thinking") (codes "tool_result") h refl in
      let quiet : is_named (get b (codes "signature")) ≡ false =
        unsigned (get b (codes "signature")) u in
      let (silent, uncalled, unanswered) = thinking_parts-only (get b (codes "thinking")) in
      (
        thinking_parts (get b (codes "thinking")),
        rw (a, n, i, h, quiet) refl,
        record {
          says = rw a silent;
          thinks = rw h (thinking_parts-string (get b (codes "thinking")) s);
          calls = rw c uncalled;
          answers = rw d unanswered;
        },
      )

  tool_use-Passes :
      is_type (codes "tool_use") b ≡ true
      → is_string (get b (codes "text")) ≡ false
      → is_named (get b (codes "id")) ≡ true
      → is_given_object (get b (codes "input")) ≡ true
      → Passes preserve b
  unfolding Passes block_parts said_in thought_in called_in answered_in said_plain reasoning_of
      text_eq
  tool_use-Passes h n s u =
      let a = other (codes "tool_use") (codes "text") h refl in
      let i = other (codes "tool_use") (codes "image") h refl in
      let t = other (codes "tool_use") (codes "thinking") h refl in
      let d = other (codes "tool_use") (codes "tool_result") h refl in
      (
        a_call (call_of b),
        rw (a, n, i, t, h) refl,
        record {
          says = rw a refl;
          thinks = rw t refl;
          calls =
              rw
                (
                  h,
                  named (get b (codes "id")) (get b (codes "name")) s,
                  given (get b (codes "input")) u,
                )
                refl;
          answers = rw d refl;
        },
      )

  tool_result-Passes :
      is_type (codes "tool_result") b ≡ true
      → is_string (get b (codes "text")) ≡ false
      → text_only_if tool_result (get b (codes "content")) ≡ none
      → Passes preserve b
  unfolding Passes block_parts said_in thought_in called_in answered_in said_plain reasoning_of
      result_of text_eq
  tool_result-Passes h n s =
      let a = other (codes "tool_result") (codes "text") h refl in
      let i = other (codes "tool_result") (codes "image") h refl in
      let t = other (codes "tool_result") (codes "thinking") h refl in
      let c = other (codes "tool_result") (codes "tool_use") h refl in
      (
        a_result (result_of preserve b),
        rw (a, n, i, t, c, h) refl,
        record {
          says = rw a refl;
          thinks = rw t refl;
          calls = rw c refl;
          answers = rw (h, text_of-content tool_result (get b (codes "content")) s) refl;
        },
      )

  thinking_error_lem :
      thinking_error b ≡ none
      → (is_string (get b (codes "thinking")) ≡ true)
        × (is_unsigned (get b (codes "signature")) ≡ true)
  unfolding thinking_error
  thinking_error_lem h =
      let (fine, _) =
        refuse_if-none
          (not (is_string (get b (codes "thinking")))
            || not (is_unsigned (get b (codes "signature"))))
          signed_thinking none h in
      (ground arith, ground arith)

  tool_use_error_lem :
      tool_use_error b ≡ none
      → (is_named (get b (codes "id")) ≡ true) × (is_given_object (get b (codes "input")) ≡ true)
  unfolding tool_use_error
  tool_use_error_lem h =
      let (fine, _) =
        refuse_if-none
          (not (is_named (get b (codes "id")))
            || not (is_string (get b (codes "name")))
            || not (is_given_object (get b (codes "input"))))
          tool_use none h in
      (ground arith, ground arith)

  tool_result_error_lem :
      tool_result_error b ≡ none → text_only_if tool_result (get b (codes "content")) ≡ none
  unfolding tool_result_error
  tool_result_error_lem h =
      let (_, rest) =
        refuse_if-none (not (is_named (get b (codes "tool_use_id")))) result_id
          (refuse_if (not (is_flag (get b (codes "is_error")))) error_flag
            (text_only_if tool_result (get b (codes "content"))))
          h in
      let (_, plain) =
        refuse_if-none (not (is_flag (get b (codes "is_error")))) error_flag
          (text_only_if tool_result (get b (codes "content"))) rest in
      plain

  -- The blocks of a type of its own
  typed-Passes :
      (role : Option Json)
      → is_string (get b (codes "text")) ≡ false
      → is_type (codes "text") b ≡ false
      → block_error role b ≡ none
      → Passes preserve b
  unfolding block_error
  typed-Passes role n t h =
      elim (Bool-cases (is_type (codes "thinking") b && is_word (codes "assistant") role)) [
        | inl thought ↦
            let (s, u) = thinking_error_lem (ground arith) in thinking-Passes (ground arith) n s u
        | inr unthought ↦
            elim (Bool-cases (is_type (codes "tool_use") b && is_word (codes "assistant") role)) [
              | inl used ↦
                  let (s, u) = tool_use_error_lem (ground arith) in
                  tool_use-Passes (ground arith) n s u
              | inr unused ↦
                  elim (Bool-cases
                    (is_type (codes "tool_result") b && is_word (codes "user") role)) [
                      | inl answered ↦
                          tool_result-Passes (ground arith) n (tool_result_error_lem (ground arith))
                      | inr unanswered ↦ absurd (ground arith)
                    ]
            ]
      ]

  pub block-Passes : (role : Option Json) → block_error role b ≡ none → Passes preserve b
  unfolding block_error is_plain
  block-Passes role h = elim (Bool-cases (is_type (codes "text") b)) [
    | inl t ↦ text-Passes t (ground arith)
    | inr t ↦ elim (Bool-cases (is_string (get b (codes "text")))) [
      | inl swallowed ↦ absurd (ground arith)
      | inr n ↦ typed-Passes role n t h
    ]
  ]
