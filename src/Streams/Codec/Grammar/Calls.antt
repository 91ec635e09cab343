-- ===== src/Streams/Codec/Grammar/Calls.antt =====
-- anthropic-openai-codec.mjs: tool calls that come in one piece keep the order of events.
use tokligence_gateway.Prelude.{
  ℕ, ◌≡◌, refl, sym, ap, ◌∙◌, inl, inr, subst, true, false, List, [], ◌∷◌, Option, none, some,
  arith, Text, Option-cases,
}
use tokligence_gateway.Streams.Codec.{
  Call, json_delta, block_delta, Kind, text, tool, Codec, start_block, open_tool_at, block_at,
  is_empty, add_arguments, call_at, on_call, on_calls,
}
use tokligence_gateway.Streams.Codec.Grammar.{
  between, Phase, accept, Track, is_in, is_current, track_call, track_calls, keys, IsOpen, IsSound,
  emit-follows,
}
use tokligence_gateway.Streams.Codec.Grammar.Blocks.{close_kind-Holds, emit-Holds}

pub is_in-keys-none : (i : ℕ) (m : List (ℕ × ℕ)) → block_at i m ≡ none → is_in i (keys m) ≡ false
unfolding block_at
is_in-keys-none i [] h = refl
is_in-keys-none i ((j, b) ∷ m) h = ground (arith, is_in-keys-none i m)

pub is_in-keys-some : (i b : ℕ) (m : List (ℕ × ℕ)) → block_at i m ≡ some b → is_in i (keys m) ≡ true
unfolding block_at
is_in-keys-some i b [] h = cc
is_in-keys-some i b ((j, a) ∷ m) h = ground (arith, is_in-keys-some i b m)

pub add_arguments-IsSound :
    (p : Phase) (t : Track) (c : Codec) (b : ℕ) (s : Text)
    → (is_empty s ≡ false → c.opened ≡ some (tool, b))
    → IsSound p t c
    → IsSound p t (add_arguments (c, b) s)
unfolding add_arguments accept
add_arguments-IsSound p t c b [] e h = h
add_arguments-IsSound p t c b (x ∷ s) e h =
    emit-Holds p t c.opened c (block_delta b (json_delta (x ∷ s))) (rw (e refl) (ground arith)) h

-- The tool that is going on is what is open.
pub current_opened :
    (i b n : ℕ) (k : Option ℕ) (o : Option (Kind × ℕ)) (m : List (ℕ × ℕ))
    → is_current i k ≡ true
    → block_at i m ≡ some b
    → IsOpen k o n m
    → o ≡ some (tool, b)
current_opened i b n none o m h e open' = cc
current_opened i b n (some j) none m h e open' = absurd open'
current_opened i b n (some j) (some (text, a)) m h e open' = absurd open'
current_opened i b n (some j) (some (tool, a)) m h e (_, found) =
    let same : j ≡ i = ground arith in
    let at : some a ≡ some b = sym found ∙ ap (λ k. block_at k m) same ∙ e in
    ap (λ (a : ℕ). some (tool, a)) (ground arith)

pub open_tool_new-IsSound :
    (p : Phase) (t : Track) (c : Codec) (call : Call)
    → IsSound p t c
    → IsSound p
        (record { seen = call.index ∷ t.seen; current = some call.index })
        (open_tool_at c call none).0
unfolding open_tool_at start_block accept block_at
open_tool_new-IsSound p t c call h =
    let d = close_kind-Holds p t.seen t.current c c.opened h in
    record {
      follows = emit-follows p (between _) _ _ _ d.follows (ground arith);
      seen = ap (call.index ∷◌) d.seen;
      current = (refl, ground arith);
      numbered = (omega arith, d.numbered);
    }

pub add_arguments_new :
    (p : Phase) (t : Track) (d : Codec × ℕ) (s : Text)
    → d.0.opened ≡ some (tool, d.1)
    → IsSound p t d.0
    → IsSound p t (add_arguments d s)
add_arguments_new p t (d, b) s e h = add_arguments-IsSound p t d b s (λ _. e) h

pub call_at-IsSound :
    (p : Phase) (t u : Track) (c : Codec) (call : Call) (o : Option ℕ)
    → block_at call.index c.tool_blocks ≡ o
    → track_call t call ≡ some u
    → IsSound p t c
    → IsSound p u (call_at c call o)
unfolding track_call
call_at-IsSound p t u c call none e next h =
    let unseen : is_in call.index t.seen ≡ false =
      subst (λ s. is_in call.index s ≡ false) h.seen (is_in-keys-none call.index c.tool_blocks e) in
    let same : record { seen = call.index ∷ t.seen; current = some call.index } ≡ u =
      ground arith in
    subst (λ u. IsSound p u (call_at c call none)) same
      (add_arguments_new p _ (open_tool_at c call none) call.arguments
        (unfold open_tool_at start_block in refl) (open_tool_new-IsSound p t c call h))
call_at-IsSound p t u c call (some b) e next h =
    let seen : is_in call.index t.seen ≡ true =
      subst (λ s. is_in call.index s ≡ true) h.seen
        (is_in-keys-some call.index b c.tool_blocks e) in
    let same : t ≡ u = ground arith in
    let at : is_empty call.arguments ≡ false → is_current call.index t.current ≡ true =
      λ full. ground arith in
    subst (λ u. IsSound p u (call_at c call (some b))) same
      (unfold open_tool_at in
        add_arguments-IsSound p t c b call.arguments
          (λ full.
            current_opened call.index b c.next_block t.current c.opened c.tool_blocks (at full) e
              h.current)
          h)

pub on_calls-IsSound :
    (p : Phase) (t u : Track) (c : Codec) (calls : List Call)
    → track_calls t calls ≡ some u
    → IsSound p t c
    → IsSound p u (on_calls c calls)
unfolding on_calls on_call track_calls
on_calls-IsSound p t u c [] next h = subst (λ u. IsSound p u c) (ground arith) h
on_calls-IsSound p t u c (call ∷ calls) next h = elim (Option-cases (track_call t call)) [
  | inl late ↦ absurd (ground arith)
  | inr (v, first) ↦
      let ready : IsSound p t (record c { semantic = _ }) = record {
        follows = h.follows;
        seen = h.seen;
        current = h.current;
        numbered = h.numbered;
      } in
      on_calls-IsSound p v u (on_call c call) calls (ground arith)
        (call_at-IsSound p t v _ call (block_at call.index c.tool_blocks) refl first ready)
]
