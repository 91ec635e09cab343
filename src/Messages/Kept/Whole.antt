-- ===== src/Messages/Kept/Whole.antt =====
-- anthropic-openai-codec.mjs: a whole request that validateNativeAnthropicRequest lets pass, in
-- anthropicToOpenAI.
use mathlib.Core.List.{append-nil}
use tokligence_gateway.Prelude.{
  ◌≡◌, refl, ap, ◌∙◌, inl, inr, Bool, true, not, ◌||◌, List, [], ◌∷◌, ◌++◌, map, Option, none, some,
  arith, Text, codes, text_eq, trim_text, any, Option-cases,
}
use tokligence_gateway.Prelude.Json.{
  Json, null, bool, number, text, array, object, Items, nil, cons, get, is_truthy, is_object,
  is_word,
}
use tokligence_gateway.Messages.Validate.{
  Invalid, unknown_role, system_prompt, first_of, one_of, choice_error, text_only_if, block_error,
  blocks_error, content_error, message_error, messages_error, list_error, validate,
}
use tokligence_gateway.Messages.Translate.{
  Plain, ToolCall, ToolResult, Parts, Sent, instruction, spoken, result, text_of, no_parts, add,
  parts_of, reasoning_of, visible, role_or, make_reply, reply_of, sent_parts, sent_content,
  sent_message, sent_messages, items, instructions, messages,
}
use tokligence_gateway.Messages.Request.{Request, request_of, anthropic_to_openai}
use tokligence_gateway.Messages.Kept.{content_text, said_plain, text_of-content}
use tokligence_gateway.Messages.Kept.Blocks.{Passes, refuse_if-none, block-Passes}
use tokligence_gateway.Messages.Kept.Reading.{
  Reading, empty, both, of_block, of_blocks, of_content, of_messages, of_reply, of_sent, reading,
  both-empty, reading-append, said_plain-visible, of_parts, of_parts-block, of_parts-both,
}

blocks_lem :
    (preserve : Bool) (role : Option Json) (bs : Items)
    → blocks_error role bs ≡ none
    → (p : Parts) × (parts_of preserve bs ≡ some p) × (of_parts role p ≡ of_blocks preserve role bs)
unfolding blocks_error parts_of of_blocks said_plain reasoning_of Passes
blocks_lem preserve role nil h = (no_parts, refl, refl)
blocks_lem preserve role (cons b bs) h = elim (Option-cases (block_error role b)) [
  | inr (e, bad) ↦ absurd (ground arith)
  | inl fine ↦
      let (p, made, c) = block-Passes preserve b role fine in
      let (q, more, d) = blocks_lem preserve role bs (ground arith) in
      (
        add p q,
        rw (made, more) refl,
        of_parts-both role p q
            ∙ ap (λ r. both r (of_parts role q)) (of_parts-block preserve role b p c)
            ∙ ap (both (of_block preserve role b)) d,
      )
]

reading-made :
    (role : Option Json) (plain : List Plain) (calls : List ToolCall)
    → some (role_or role) ≡ role
    → reading (make_reply role plain calls)
      ≡ of_parts role (record { plain = plain; calls = calls; results = [] })
unfolding reading
reading-made role plain calls h =
    both-empty (
      of_reply (record {
        role = role_or role;
        content = visible plain;
        reasoning = reasoning_of plain;
        calls = calls;
      }))
    ∙ rw (said_plain-visible plain, h) refl

reading-reply :
    (role : Option Json) (plain : List Plain) (calls : List ToolCall)
    → some (role_or role) ≡ role
    → reading (reply_of role plain calls)
      ≡ of_parts role (record { plain = plain; calls = calls; results = [] })
unfolding reading reply_of said_plain reasoning_of
reading-reply role [] [] h = refl
reading-reply role [] (c ∷ cs) h = reading-made role [] (c ∷ cs) h
reading-reply role (p ∷ ps) calls h = reading-made role (p ∷ ps) calls h

-- A role that is let pass is its own name.
known_role :
    (role : Option Json)
    → one_of (codes "user" ∷ (codes "assistant" ∷ (codes "system" ∷ []))) role ≡ true
    → some (role_or role) ≡ role
unfolding one_of any is_word text_eq is_truthy
known_role role h = ground arith

reading-results : (rs : List ToolResult) → reading (map result rs) ≡ record empty { answered = rs }
unfolding reading
reading-results [] = refl
reading-results (r ∷ rs) = rw (reading-results rs) refl

reading-parts :
    (role : Option Json) (p : Parts)
    → some (role_or role) ≡ role
    → reading (map result p.results ++ reply_of role p.plain p.calls) ≡ of_parts role p
reading-parts role p h =
    reading-append (map result p.results) (reply_of role p.plain p.calls)
    ∙ rw (reading-results p.results, reading-reply role p.plain p.calls h)
        (rw (append-nil p.results) refl)

content_lem :
    (preserve : Bool) (role v : Option Json)
    → some (role_or role) ≡ role
    → content_error role v ≡ none
    → (ms : List Sent) × (sent_content preserve role v ≡ some ms)
      × (reading ms ≡ of_content preserve role v)
unfolding content_error sent_content of_content reading sent_parts
content_lem preserve role none known h = cc
content_lem preserve role (some (text t)) known h = (spoken role (text t) ∷ [], refl, refl)
content_lem preserve role (some null) known h = cc
content_lem preserve role (some (bool v)) known h = cc
content_lem preserve role (some (number v)) known h = cc
content_lem preserve role (some (object v)) known h = cc
content_lem preserve role (some (array bs)) known h =
    let (p, made, same) = blocks_lem preserve role bs h in
    (
      map result p.results ++ reply_of role p.plain p.calls,
      rw made refl,
      reading-parts role p known ∙ same,
    )

message_lem :
    (preserve : Bool) (m : Json)
    → message_error m ≡ none
    → (ms : List Sent) × (sent_message preserve m ≡ some ms)
      × (reading ms ≡ of_content preserve (get m (codes "role")) (get m (codes "content")))
unfolding message_error sent_message
message_lem preserve m h =
    let (known, fine) =
      refuse_if-none
        (not (is_object m)
          || not (
              one_of (codes "user" ∷ (codes "assistant" ∷ (codes "system" ∷ [])))
                (get m (codes "role"))))
        unknown_role (content_error (get m (codes "role")) (get m (codes "content"))) h in
    content_lem preserve (get m (codes "role")) (get m (codes "content"))
      (known_role (get m (codes "role")) (ground arith)) fine

messages_lem :
    (preserve : Bool) (ms : Items)
    → messages_error ms ≡ none
    → (sent : List Sent) × (sent_messages preserve ms ≡ some sent)
      × (reading sent ≡ of_messages preserve ms)
unfolding messages_error sent_messages of_messages reading
messages_lem preserve nil h = ([], refl, refl)
messages_lem preserve (cons m ms) h = elim (Option-cases (message_error m)) [
  | inr (e, bad) ↦ absurd (ground arith)
  | inl fine ↦
      let (xs, made, same) = message_lem preserve m fine in
      let (ys, more, rest) = messages_lem preserve ms (ground arith) in
      (xs ++ ys, rw (made, more) refl, reading-append xs ys ∙ rw (same, rest) refl)
]

-- The reading of a request: its system prompt, and its messages
unfoldable pub of_request : Bool → Json → Reading
of_request preserve request =
    both (record empty { instructed = trim_text (content_text (get request (codes "system"))) })
      (of_messages preserve (items (get request (codes "messages"))))

reading-instructions : (t : Text) → reading (instructions t) ≡ record empty { instructed = t }
unfolding reading
reading-instructions [] = refl
reading-instructions (c ∷ t) = both-empty (of_sent (instruction (c ∷ t)))

first_of-none : (a b : Option Invalid) → first_of a b ≡ none → (a ≡ none) × (b ≡ none)
first_of-none none b h = (refl, h)
first_of-none (some e) b h = cc

list_error_lem : (v : Option Json) → list_error v ≡ none → messages_error (items v) ≡ none
unfolding list_error
list_error_lem v h = ground arith

validate_lem :
    (request : Json)
    → validate request ≡ none
    → (text_only_if system_prompt (get request (codes "system")) ≡ none)
      × (messages_error (items (get request (codes "messages"))) ≡ none)
unfolding validate
validate_lem request h =
    let (_, rest) =
      first_of-none (choice_error request (get request (codes "tool_choice")))
        (first_of (text_only_if system_prompt (get request (codes "system")))
          (list_error (get request (codes "messages"))))
        h in
    let (system, listed) =
      first_of-none (text_only_if system_prompt (get request (codes "system")))
        (list_error (get request (codes "messages"))) rest in
    (system, list_error_lem (get request (codes "messages")) listed)

-- A request that the check of the native lane lets pass is translated, and nothing of it is lost:
-- the messages that are sent have the instruction of its system prompt, and of its messages, each in
-- its order, the texts with the roles that say them, the thinking, the tool calls with their ids,
-- names and inputs, and the results of tools with the calls that they answer and, if that is asked
-- for, whether they are errors.
pub anthropic_to_openai-validate :
    (force preserve : Bool) (request : Json)
    → validate request ≡ none
    → (r : Request) × (anthropic_to_openai force preserve request ≡ some r)
      × (reading r.messages ≡ of_request preserve request)
unfolding messages of_request anthropic_to_openai
anthropic_to_openai-validate force preserve request h =
    let (system, listed) = validate_lem request h in
    let (sent, made, same) =
      messages_lem preserve (items (get request (codes "messages"))) listed in
    let prompt = instructions (trim_text (text_of (get request (codes "system")))) in
    (
      request_of force request (prompt ++ sent),
      rw made refl,
      reading-append prompt sent
          ∙ rw
              (
                reading-instructions (trim_text (text_of (get request (codes "system")))),
                same,
                text_of-content system_prompt (get request (codes "system")) system,
              )
              refl,
    )
