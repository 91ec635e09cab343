-- ===== src/Streams/Reply/Parts.antt =====
-- anthropic-openai-codec.mjs: the parts of the message that the events of a stream make, step by step.
use mathlib.Core.List.{append_assoc, append-nil, map-append}
use tokligence_gateway.Prelude.{
  ℕ, suc, ◌≡◌, refl, sym, ap, ◌∙◌, subst, Bool, true, false, not, ◌&&◌, ◌||◌, List, [], ◌∷◌, ◌++◌,
  map, Option, none, some, arith, Text, codes, decimal,
}
use tokligence_gateway.Streams.Codec.{
  Call, Opening, text_block, thinking_block, tool_block, Delta, text_delta, thinking_delta,
  json_delta, Event, block_start, block_delta, block_stop, Kind, text, tool, Codec, emit,
  close_kind, close_open, start_block, open_text_from, open_block, block_at, open_tool_at, or_text,
  on_reasoning, on_content, is_given, is_empty, add_arguments, call_at, on_call, on_calls,
}
use tokligence_gateway.Streams.Codec.Grammar.{is_in, keys}
use tokligence_gateway.Streams.Codec.Grammar.Blocks.{close_kind-opened, close_kind-same}
use tokligence_gateway.Streams.Collect.{
  Blocks, put_block, change, add_delta, Collected, opened_block, collect_event, collect_events,
  Part, text_part, thinking_part, tool_part, part_of, nothing_yet,
}
use tokligence_gateway.Streams.Collect.Whole.{IsFrom, put_block-new, IsFrom-append}
use tokligence_gateway.Streams.Collect.Whole.Changes.{change-last}
use tokligence_gateway.Streams.Collect.Whole.Keeping.{emitted}
use tokligence_gateway.Streams.Reply.{call_part, thinking_of, text_of}

-- The blocks after the events in the buffer are as many as have been opened, and make these parts.
pub record Builds (ps : List Part) (c : Codec) : Type 0 where
  pub numbered : IsFrom 0 (collect_events nothing_yet c.events).blocks c.next_block
  pub parts : map part_of (collect_events nothing_yet c.events).blocks ≡ ps

-- A new block at the end, empty or with its content
opened_blocks :
    (n : ℕ) (bs : Blocks) (o : Opening)
    → IsFrom 0 bs n
    → IsFrom 0 (put_block bs n (opened_block o)) (suc n)
      × (map part_of (put_block bs n (opened_block o))
          ≡ map part_of bs ++ part_of (n, opened_block o) ∷ [])
opened_blocks n bs o h =
    rw (put_block-new 0 n bs (opened_block o) h)
      (IsFrom-append 0 n bs (opened_block o) h, map-append part_of bs ((n, opened_block o) ∷ []))

filled_blocks :
    (n : ℕ) (bs : Blocks) (o : Opening) (d : Delta)
    → IsFrom 0 bs n
    → IsFrom 0 (change n (add_delta d) (put_block bs n (opened_block o))) (suc n)
      × (map part_of (change n (add_delta d) (put_block bs n (opened_block o)))
          ≡ map part_of bs ++ part_of (n, add_delta d (opened_block o)) ∷ [])
filled_blocks n bs o d h =
    rw
      (
        put_block-new 0 n bs (opened_block o) h,
        change-last 0 (suc n) n (add_delta d) bs (opened_block o)
            (IsFrom-append 0 n bs (opened_block o) h),
      )
      (
        IsFrom-append 0 n bs (add_delta d (opened_block o)) h,
        map-append part_of bs ((n, add_delta d (opened_block o)) ∷ []),
      )

-- An event that leaves the blocks as they are
same_blocks :
    (ps : List Part) (c : Codec) (e : Event)
    → ((m : Collected) → (collect_event m e).blocks ≡ m.blocks)
    → Builds ps c
    → Builds ps (emit c e)
same_blocks ps c e h b =
    let same =
      ap (λ (m : Collected). m.blocks) (emitted nothing_yet c e)
      ∙ h (collect_events nothing_yet c.events) in
    record {
      numbered = subst (λ bs. IsFrom 0 bs c.next_block) (sym same) b.numbered;
      parts = ap (map part_of) same ∙ b.parts;
    }

close_kind-Builds :
    (ps : List Part) (c : Codec) (o : Option (Kind × ℕ)) → Builds ps c → Builds ps (close_kind c o)
unfolding close_kind
close_kind-Builds ps c none b = b
close_kind-Builds ps c (some (k, n)) b =
    same_blocks ps (record c { opened = none }) (block_stop n) (λ m. unfold collect_event in refl)
      (record { numbered = b.numbered; parts = b.parts })

start_block-Builds :
    (ps : List Part) (c : Codec) (k : Kind) (o : Opening)
    → Builds ps c
    → Builds (ps ++ part_of (c.next_block, opened_block o) ∷ []) (start_block c k o)
unfolding start_block collect_event
start_block-Builds ps c k o b =
    let n = c.next_block in
    let c' : Codec = record c { next_block = suc n; opened = some (k, n) } in
    let same = ap (λ (m : Collected). m.blocks) (emitted nothing_yet c' (block_start n o)) in
    let (numbered', parts') =
      opened_blocks n (collect_events nothing_yet c.events).blocks o b.numbered in
    record {
      numbered = subst (λ bs. IsFrom 0 bs (suc n)) (sym same) numbered';
      parts =
          ap (map part_of) same
          ∙ parts'
          ∙ ap (λ ps. ps ++ part_of (n, opened_block o) ∷ []) b.parts;
    }

-- A block that is opened and filled
filled-Builds :
    (ps : List Part) (c c' : Codec) (o : Opening) (d : Delta)
    → c'.events ≡ c.events
    → c'.next_block ≡ suc c.next_block
    → Builds ps c
    → Builds
        (ps ++ part_of (c.next_block, add_delta d (opened_block o)) ∷ [])
        (emit (emit c' (block_start c.next_block o)) (block_delta c.next_block d))
unfolding collect_event
filled-Builds ps c c' o d same next b =
    let n = c.next_block in
    let one = emit c' (block_start n o) in
    let whole =
      ap (λ (m : Collected). m.blocks) (emitted nothing_yet one (block_delta n d))
      ∙ ap (λ (m : Collected). change n (add_delta d) m.blocks)
          (emitted nothing_yet c' (block_start n o))
      ∙ ap
          (λ es.
            change n (add_delta d)
              (put_block (collect_events nothing_yet es).blocks n (opened_block o)))
          same in
    let (numbered', parts') =
      filled_blocks n (collect_events nothing_yet c.events).blocks o d b.numbered in
    record {
      numbered =
          subst (λ bs. IsFrom 0 bs c'.next_block) (sym whole)
            (subst (IsFrom 0 _) (sym next) numbered');
      parts =
          ap (map part_of) whole
          ∙ parts'
          ∙ ap (λ ps. ps ++ part_of (n, add_delta d (opened_block o)) ∷ []) b.parts;
    }

pub on_reasoning-Builds :
    (kept : Bool) (ps : List Part) (c : Codec) (t : Text)
    → Builds ps c
    → Builds (ps ++ thinking_of kept t) (on_reasoning kept c t)
unfolding on_reasoning add_delta
on_reasoning-Builds true ps c [] b = subst (λ ps. Builds ps c) (sym (append-nil ps)) b
on_reasoning-Builds false ps c [] b = subst (λ ps. Builds ps c) (sym (append-nil ps)) b
on_reasoning-Builds false ps c (x ∷ t) b =
    subst (λ ps. Builds ps (record c { semantic = true })) (sym (append-nil ps))
      (record { numbered = b.numbered; parts = b.parts })
on_reasoning-Builds true ps c (x ∷ t) b =
    let c' : Codec = record c { semantic = true } in
    let d = close_open c' in
    same_blocks (ps ++ thinking_part (x ∷ t) ∷ []) _ (block_stop d.next_block)
      (λ m. unfold collect_event in refl)
      (filled-Builds ps d (record d { next_block = suc d.next_block }) thinking_block
        (thinking_delta (x ∷ t)) refl refl
        (close_kind-Builds ps c' c'.opened (record { numbered = b.numbered; parts = b.parts })))

pub on_reasoning-opened :
    (kept : Bool) (c : Codec) (t : Text) → c.opened ≡ none → (on_reasoning kept c t).opened ≡ none
unfolding on_reasoning
on_reasoning-opened true c [] h = h
on_reasoning-opened false c [] h = h
on_reasoning-opened false c (x ∷ t) h = h
on_reasoning-opened true c (x ∷ t) h =
    close_kind-opened (record c { semantic = true }) c.opened refl

-- The text is the first one: no text is open yet.
pub on_content-Builds :
    (ps : List Part) (c : Codec) (t : Text)
    → c.opened ≡ none
    → Builds ps c
    → Builds (ps ++ text_of t) (on_content c t)
unfolding on_content open_text_from close_kind start_block add_delta
on_content-Builds ps c [] h b = subst (λ ps. Builds ps c) (sym (append-nil ps)) b
on_content-Builds ps c (x ∷ t) h b =
    let c' : Codec = record c { semantic = true } in
    subst
      (λ o. Builds (ps ++ text_part (x ∷ t) ∷ []) (
        emit (open_text_from c' o)
          (block_delta (open_block (open_text_from c' o)) (text_delta (x ∷ t)))))
      (sym h)
      (filled-Builds ps c'
        (record c' { next_block = suc c.next_block; opened = some (text, c.next_block) }) text_block
        (text_delta (x ∷ t)) refl refl (record { numbered = b.numbered; parts = b.parts }))

-- The calls have ids and names, and indices of their own.
abbrev pub are_given : List ℕ → List Call → Bool
are_given seen [] = true
are_given seen (call ∷ calls) =
    not (is_in call.index seen)
    && is_given call.id
    && is_given call.name
    && are_given (call.index ∷ seen) calls

or_text-given : (o : Option Text) (s t : Text) → is_given o ≡ true → or_text o s ≡ or_text o t
or_text-given none s t h = cc
or_text-given (some u) s t h = refl

block_at-new : (i : ℕ) (m : List (ℕ × ℕ)) → is_in i (keys m) ≡ false → block_at i m ≡ none
unfolding block_at
block_at-new i [] h = refl
block_at-new i ((j, b) ∷ m) h = ground (arith, block_at-new i m)

add_arguments-tool_blocks :
    (d : Codec × ℕ) (t : Text) → (add_arguments d t).tool_blocks ≡ d.0.tool_blocks
unfolding add_arguments
add_arguments-tool_blocks (c, b) [] = refl
add_arguments-tool_blocks (c, b) (x ∷ t) = refl

call_at-keys :
    (c : Codec) (call : Call)
    → keys (call_at c call none).tool_blocks ≡ call.index ∷ keys c.tool_blocks
unfolding open_tool_at start_block
call_at-keys c call =
    let (_, same) = close_kind-same c c.opened in
    ap keys (add_arguments-tool_blocks (open_tool_at c call none) call.arguments)
    ∙ ap (λ m. call.index ∷ keys m) same

tool-Builds :
    (ps : List Part) (c : Codec) (i n t : Text)
    → Builds ps c
    → Builds
        (ps ++ tool_part i n t ∷ [])
        (add_arguments (start_block c tool (tool_block i n), c.next_block) t)
unfolding start_block add_arguments add_delta
tool-Builds ps c i n [] b = start_block-Builds ps c tool (tool_block i n) b
tool-Builds ps c i n (x ∷ t) b =
    filled-Builds ps c
      (record c { next_block = suc c.next_block; opened = some (tool, c.next_block) })
      (tool_block i n) (json_delta (x ∷ t)) refl refl b

call_at-Builds :
    (ps : List Part) (c : Codec) (call : Call)
    → is_given call.id ≡ true
    → is_given call.name ≡ true
    → Builds ps c
    → Builds (ps ++ call_part call ∷ []) (call_at c call none)
unfolding open_tool_at
call_at-Builds ps c call i n b =
    let d = close_open c in
    let closed = close_kind-Builds ps c c.opened b in
    let id = or_text call.id (codes "call_" ++ decimal call.index) in
    let name = or_text call.name (codes "tool") in
    let made =
      tool-Builds ps (record d { tool_blocks = (call.index, d.next_block) ∷ d.tool_blocks }) id name
        call.arguments (record { numbered = closed.numbered; parts = closed.parts }) in
    subst
      (λ i.
        Builds (ps ++ tool_part i (or_text call.name []) call.arguments ∷ []) (call_at c call none))
      (or_text-given call.id (codes "call_" ++ decimal call.index) [] i)
      (subst (λ n. Builds (ps ++ tool_part id n call.arguments ∷ []) (call_at c call none))
        (or_text-given call.name (codes "tool") [] n) made)

pub on_calls-Builds :
    (ps : List Part) (c : Codec) (calls : List Call)
    → are_given (keys c.tool_blocks) calls ≡ true
    → Builds ps c
    → Builds (ps ++ map call_part calls) (on_calls c calls)
unfolding on_calls on_call
on_calls-Builds ps c [] h b = subst (λ ps. Builds ps c) (sym (append-nil ps)) b
on_calls-Builds ps c (call ∷ calls) h b =
    let c' : Codec = record c {
      semantic =
          c.semantic || (is_given call.name || is_given call.id || not (is_empty call.arguments));
    } in
    let new : block_at call.index c.tool_blocks ≡ none =
      block_at-new call.index c.tool_blocks (ground arith) in
    let made =
      call_at-Builds ps c' call (ground arith) (ground arith)
        (record { numbered = b.numbered; parts = b.parts }) in
    let given : are_given (keys (call_at c' call none).tool_blocks) calls ≡ true =
      ap (λ seen. are_given seen calls) (call_at-keys c' call) ∙ ground arith in
    subst
      (λ o.
        Builds (ps ++ call_part call ∷ map call_part calls) (on_calls (call_at c' call o) calls))
      (sym new)
      (subst (λ ps. Builds ps (on_calls (call_at c' call none) calls))
        (append_assoc ps (call_part call ∷ []) (map call_part calls))
        (on_calls-Builds (ps ++ call_part call ∷ []) (call_at c' call none) calls given made))
