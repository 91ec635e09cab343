-- ===== src/Streams/Collect/Whole/Keeping.antt =====
-- anthropic-openai-codec.mjs: what the steps of createAnthropicStreamCodec add to the message that
-- collectAnthropicStream makes.
use mathlib.Core.List.{append-nil}
use tokligence_gateway.Prelude.{
  ℕ, suc, ◌≡◌, refl, sym, ap, ◌∙◌, subst, Bool, true, false, List, [], ◌∷◌, ◌++◌, Option, none,
  some, Text, codes, decimal, if◌then◌else◌,
}
use tokligence_gateway.Streams.Codec.{
  Call, text_block, thinking_block, tool_block, or_text, text_delta, thinking_delta, json_delta,
  Event, block_start, block_delta, block_stop, Kind, text, tool, Codec, emit, close_open,
  close_kind, start_block, open_text, open_text_from, open_tool_at, open_block, block_at,
  on_reasoning, on_content, add_arguments, on_call, on_calls,
}
use tokligence_gateway.Streams.Codec.Grammar.Blocks.{open_text_from-opened, close_kind-opened}
use tokligence_gateway.Streams.Collect.{Collected, collect_event, collect_events}
use tokligence_gateway.Streams.Collect.Whole.Stream.{
  Fits, Ends, Fits-text, Fits-tool, Fits-json, Fits-text_delta, Fits-thinking,
}

pub collect_events-append :
    (m : Collected) (es fs : List Event)
    → collect_events m (es ++ fs) ≡ collect_events (collect_events m es) fs
unfolding collect_events
collect_events-append m [] fs = refl
collect_events-append m (e ∷ es) fs = collect_events-append (collect_event m e) es fs

-- After the events in the buffer, the message says and thinks what has come.
unfoldable pub Keeps : Collected → Option (Kind × ℕ) → Text → Text → Codec → Type 0
Keeps m o s q c = Fits c.next_block o s q (collect_events m c.events).blocks

pub emitted :
    (m : Collected) (c : Codec) (e : Event)
    → collect_events m (emit c e).events ≡ collect_event (collect_events m c.events) e
unfolding collect_events
emitted m c e = collect_events-append m c.events (e ∷ [])

emit-Keeps :
    (m : Collected) (o : Option (Kind × ℕ)) (s q : Text) (c : Codec) (e : Event)
    → Fits c.next_block o s q (collect_event (collect_events m c.events) e).blocks
    → Keeps m o s q (emit c e)
unfolding Keeps
emit-Keeps m o s q c e h =
    subst (λ (m : Collected). Fits c.next_block o s q m.blocks) (sym (emitted m c e)) h

module _ (m : Collected) (s q : Text) where
  pub close_kind-Keeps :
      (c : Codec) (o : Option (Kind × ℕ)) → Keeps m o s q c → Keeps m none s q (close_kind c o)
  unfolding Keeps close_kind collect_event Ends
  close_kind-Keeps c none h = h
  close_kind-Keeps c (some (k, b)) h =
      emit-Keeps m none s q (record c { opened = none }) (block_stop b)
        (record { numbered = h.numbered; speaks = h.speaks; thinks = h.thinks; ending = tt })

  start_text :
      (c : Codec)
      → Keeps m none s q c
      → Keeps m (some (text, c.next_block)) s q (start_block c text text_block)
  unfolding Keeps start_block collect_event
  start_text c h =
      let n = c.next_block in
      emit-Keeps m (some (text, n)) s q (record c { next_block = suc n; opened = some (text, n) })
        (block_start n text_block) (Fits-text n s q (collect_events m c.events).blocks none h)

  open_text_from-Keeps :
      (c : Codec) (o : Option (Kind × ℕ))
      → c.opened ≡ o
      → Keeps m o s q c
      → Keeps m (open_text_from c o).opened s q (open_text_from c o)
  unfolding open_text_from start_block
  open_text_from-Keeps c (some (text, b)) e h = subst (λ o. Keeps m o s q c) (sym e) h
  open_text_from-Keeps c none e h = start_text (close_kind c none) (close_kind-Keeps c none h)
  open_text_from-Keeps c (some (tool, b)) e h =
      start_text (close_kind c (some (tool, b))) (close_kind-Keeps c (some (tool, b)) h)

  open_tool_at-Keeps :
      (c : Codec) (call : Call) (o : Option ℕ)
      → Keeps m c.opened s q c
      → Keeps m (open_tool_at c call o).0.opened s q (open_tool_at c call o).0
  unfolding Keeps open_tool_at start_block collect_event
  open_tool_at-Keeps c call (some b) h = h
  open_tool_at-Keeps c call none h =
      let d = close_open c in
      let n = d.next_block in
      emit-Keeps m (some (tool, n)) s q
        (record d {
          tool_blocks = (call.index, n) ∷ d.tool_blocks;
          next_block = suc n;
          opened = some (tool, n);
        })
        (block_start n (
          tool_block (or_text call.id (codes "call_" ++ decimal call.index))
            (or_text call.name (codes "tool"))))
        (Fits-tool n s q (collect_events m d.events).blocks none _ _
          (close_kind-Keeps c c.opened h))

  add_arguments-Keeps :
      (d : Codec × ℕ) (t : Text)
      → Keeps m d.0.opened s q d.0
      → Keeps m (add_arguments d t).opened s q (add_arguments d t)
  unfolding Keeps add_arguments collect_event
  add_arguments-Keeps (c, b) [] h = h
  add_arguments-Keeps (c, b) (x ∷ t) h =
      emit-Keeps m c.opened s q c (block_delta b (json_delta (x ∷ t)))
        (Fits-json c.next_block s q (collect_events m c.events).blocks c.opened b (x ∷ t) h)

  pub on_calls-Keeps :
      (c : Codec) (calls : List Call)
      → Keeps m c.opened s q c
      → Keeps m (on_calls c calls).opened s q (on_calls c calls)
  unfolding on_calls on_call Keeps
  on_calls-Keeps c [] h = h
  on_calls-Keeps c (call ∷ calls) h = on_calls-Keeps (on_call c call) calls (
      add_arguments-Keeps (open_tool_at _ call (block_at call.index c.tool_blocks)) call.arguments
        (open_tool_at-Keeps _ call (block_at call.index c.tool_blocks) h))

  text_delta-Keeps :
      (c : Codec) (t : Text) (o : Option (Kind × ℕ)) (b : ℕ)
      → o ≡ some (text, b)
      → Keeps m o s q c
      → Keeps m o (s ++ t) q (emit c (block_delta b (text_delta t)))
  unfolding Keeps collect_event
  text_delta-Keeps c t o b e h =
      subst (λ o. Keeps m o (s ++ t) q (emit c (block_delta b (text_delta t)))) (sym e)
        (emit-Keeps m (some (text, b)) (s ++ t) q c (block_delta b (text_delta t)) (
          Fits-text_delta c.next_block s q (collect_events m c.events).blocks b t
            (subst (λ o. Keeps m o s q c) e h)))

  open_block_text : (c : Codec) (b : ℕ) → c.opened ≡ some (text, b) → b ≡ open_block c
  open_block_text c b e = rw e refl

  pub on_content-Keeps :
      (c : Codec) (t : Text)
      → Keeps m c.opened s q c
      → Keeps m (on_content c t).opened (s ++ t) q (on_content c t)
  unfolding on_content
  on_content-Keeps c [] h = subst (λ s. Keeps m c.opened s q c) (sym (append-nil s)) h
  on_content-Keeps c (x ∷ t) h =
      let c' = record c { semantic = true } in
      let d = open_text c' in
      let (b, e) = open_text_from-opened c' c'.opened refl in
      let ready = open_text_from-Keeps c' c'.opened refl (unfold Keeps in h) in
      subst (λ n. Keeps m d.opened (s ++ x ∷ t) q (emit d (block_delta n (text_delta (x ∷ t)))))
        (open_block_text d b e) (text_delta-Keeps d (x ∷ t) d.opened b e ready)

  pub on_reasoning-Keeps :
      (kept : Bool) (c : Codec) (t : Text)
      → Keeps m c.opened s q c
      → Keeps m
          (on_reasoning kept c t).opened
          s
          (if kept then q ++ t else q)
          (on_reasoning kept c t)
  unfolding on_reasoning Keeps collect_event
  on_reasoning-Keeps true c [] h = subst (λ q. Keeps m c.opened s q c) (sym (append-nil q)) h
  on_reasoning-Keeps false c [] h = h
  on_reasoning-Keeps false c (x ∷ t) h = h
  on_reasoning-Keeps true c (x ∷ t) h =
      let c' = record c { semantic = true } in
      let d = close_open c' in
      let n = d.next_block in
      let shut : d.opened ≡ none = close_kind-opened c' c'.opened refl in
      let d' = record d { next_block = suc n } in
      let a = emit d' (block_start n thinking_block) in
      let b = emit a (block_delta n (thinking_delta (x ∷ t))) in
      let f =
        Fits-thinking n s q (collect_events m d.events).blocks none (x ∷ t)
          (close_kind-Keeps c' c'.opened h) in
      let whole =
        emitted m b (block_stop n)
        ∙ emitted m a (block_delta n (thinking_delta (x ∷ t)))
        ∙ ap (λ m. collect_event m (block_delta n (thinking_delta (x ∷ t))))
            (emitted m d' (block_start n thinking_block)) in
      subst (λ o. Keeps m o s (q ++ x ∷ t) (on_reasoning true c (x ∷ t))) (sym shut)
        (subst (λ (m : Collected). Fits (suc n) none s (q ++ x ∷ t) m.blocks) (sym whole) f)
