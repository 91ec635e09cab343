-- ===== src/Messages/Kept/Reading.antt =====
-- anthropic-openai-codec.mjs: what a request in the Anthropic protocol says, and what the messages
-- that are sent for it say.
use mathlib.Core.List.{append_assoc, append-nil, map-append}
use tokligence_gateway.Prelude.{
  ◌≡◌, refl, sym, ap, ◌∙◌, Bool, List, [], ◌∷◌, ◌++◌, map, Option, some, Text, codes,
}
use tokligence_gateway.Prelude.Json.{Json, text, array, Items, nil, cons, get}
use tokligence_gateway.Messages.Translate.{
  Plain, text_plain, image_plain, reasoning_plain, ToolResult, Parts, Reply, Sent, instruction,
  spoken, result, reply, add, reasoning_of, visible,
}
use tokligence_gateway.Messages.Kept.{
  Asked, said_in, thought_in, called_in, answered_in, said_plain, asked, Carries,
}

-- What a request says, thinks, calls and answers; what is said and called has the role that does it.
pub record Reading : Type 0 where
  pub instructed : Text
  pub said : List (Option Json × Json)
  pub thought : Text
  pub called : List (Option Json × Asked)
  pub answered : List ToolResult

abbrev pub empty : Reading
empty = record { instructed = []; said = []; thought = []; called = []; answered = [] }

abbrev pub both : Reading → Reading → Reading
both r s = record {
  instructed = r.instructed ++ s.instructed;
  said = r.said ++ s.said;
  thought = r.thought ++ s.thought;
  called = r.called ++ s.called;
  answered = r.answered ++ s.answered;
}

abbrev pub by_role {ℓ} : {A : Type ℓ} → Option Json → List A → List (Option Json × A)
by_role role xs = map (λ x. (role, x)) xs

abbrev pub of_block : Bool → Option Json → Json → Reading
of_block preserve role b = record {
  instructed = [];
  said = by_role role (said_in b);
  thought = thought_in b;
  called = by_role role (called_in b);
  answered = answered_in preserve b;
}

unfoldable pub of_blocks : Bool → Option Json → Items → Reading
of_blocks preserve role nil = empty
of_blocks preserve role (cons b bs) = both (of_block preserve role b) (of_blocks preserve role bs)

unfoldable pub of_content : Bool → Option Json → Option Json → Reading
of_content preserve role (some (text t)) = record empty { said = (role, text t) ∷ [] }
of_content preserve role (some (array bs)) = of_blocks preserve role bs
of_content preserve role _ = empty

-- The reading of the messages of a request
unfoldable pub of_messages : Bool → Items → Reading
of_messages preserve nil = empty
of_messages preserve (cons m ms) =
    both (of_content preserve (get m (codes "role")) (get m (codes "content")))
      (of_messages preserve ms)

abbrev pub of_reply : Reply → Reading
of_reply r = record {
  instructed = [];
  said = by_role (some r.role) (said_plain r.content);
  thought = r.reasoning;
  called = by_role (some r.role) (map asked r.calls);
  answered = [];
}

abbrev pub of_sent : Sent → Reading
of_sent (instruction t) = record empty { instructed = t }
of_sent (spoken role v) = record empty { said = (role, v) ∷ [] }
of_sent (result r) = record empty { answered = r ∷ [] }
of_sent (reply r) = of_reply r

-- The reading of the messages that are sent
unfoldable pub reading : List Sent → Reading
reading [] = empty
reading (m ∷ ms) = both (of_sent m) (reading ms)

both_assoc : (r s t : Reading) → both (both r s) t ≡ both r (both s t)
both_assoc r s t = simp append_assoc

pub both-empty : (r : Reading) → both r empty ≡ r
both-empty r = simp append-nil

pub reading-append : (xs ys : List Sent) → reading (xs ++ ys) ≡ both (reading xs) (reading ys)
unfolding reading
reading-append [] ys = refl
reading-append (x ∷ xs) ys =
    ap (both (of_sent x)) (reading-append xs ys)
    ∙ sym (both_assoc (of_sent x) (reading xs) (reading ys))

said_plain-append : (ps qs : List Plain) → said_plain (ps ++ qs) ≡ said_plain ps ++ said_plain qs
unfolding said_plain
said_plain-append [] qs = refl
said_plain-append (text_plain v ∷ ps) qs = ap (v ∷◌) (said_plain-append ps qs)
said_plain-append (image_plain v ∷ ps) qs = said_plain-append ps qs
said_plain-append (reasoning_plain t ∷ ps) qs = said_plain-append ps qs

reasoning_of-append :
    (ps qs : List Plain) → reasoning_of (ps ++ qs) ≡ reasoning_of ps ++ reasoning_of qs
unfolding reasoning_of
reasoning_of-append [] qs = refl
reasoning_of-append (text_plain v ∷ ps) qs = reasoning_of-append ps qs
reasoning_of-append (image_plain v ∷ ps) qs = reasoning_of-append ps qs
reasoning_of-append (reasoning_plain t ∷ ps) qs =
    ap (λ (r : Text). t ++ r) (reasoning_of-append ps qs)
    ∙ sym (append_assoc t (reasoning_of ps) (reasoning_of qs))

pub said_plain-visible : (ps : List Plain) → said_plain (visible ps) ≡ said_plain ps
unfolding said_plain visible
said_plain-visible [] = refl
said_plain-visible (text_plain v ∷ ps) = ap (v ∷◌) (said_plain-visible ps)
said_plain-visible (image_plain v ∷ ps) = said_plain-visible ps
said_plain-visible (reasoning_plain t ∷ ps) = said_plain-visible ps

abbrev pub of_parts : Option Json → Parts → Reading
of_parts role p = record {
  instructed = [];
  said = by_role role (said_plain p.plain);
  thought = reasoning_of p.plain;
  called = by_role role (map asked p.calls);
  answered = p.results;
}

pub of_parts-block :
    (preserve : Bool) (role : Option Json) (b : Json) (p : Parts)
    → Carries (said_in b) (thought_in b) (called_in b) (answered_in preserve b) p
    → of_parts role p ≡ of_block preserve role b
of_parts-block preserve role b p c = rw (c.says, c.thinks, c.calls, c.answers) refl

pub of_parts-both :
    (role : Option Json) (p q : Parts)
    → of_parts role (add p q) ≡ both (of_parts role p) (of_parts role q)
of_parts-both role p q = simp (said_plain-append, reasoning_of-append, map-append)
