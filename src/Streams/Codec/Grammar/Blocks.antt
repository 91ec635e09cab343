-- ===== src/Streams/Codec/Grammar/Blocks.antt =====
-- anthropic-openai-codec.mjs: text and reasoning keep the order of events.
use tokligence_gateway.Prelude.{
  ℕ, suc, ◌≡◌, refl, sym, subst, Bool, true, false, List, [], ◌∷◌, Option, none, some, arith, Text,
}
use tokligence_gateway.Streams.Codec.{
  thinking_block, text_delta, thinking_delta, Event, block_start, block_delta, block_stop, Kind,
  text, tool, Codec, emit, close_open, close_kind, start_block, open_text, open_text_from,
  open_block, on_reasoning, on_content,
}
use tokligence_gateway.Streams.Codec.Grammar.{
  between, in_text, in_tool, in_thinking, Phase, accept, Track, interrupt, phase_of, IsNumbered-suc,
  Holds, IsSound, stopped, emit-follows,
}

-- Closing what is open, if anything
pub close_kind-Holds :
    (p : Phase) (s : List ℕ) (k : Option ℕ) (c : Codec) (o : Option (Kind × ℕ))
    → Holds p (record { seen = s; current = k }) o c
    → Holds p (record { seen = s; current = none }) none (close_kind c o)
unfolding close_kind accept
close_kind-Holds p s none c none h = record {
  follows = h.follows;
  seen = h.seen;
  current = tt;
  numbered = h.numbered;
}
close_kind-Holds p s (some i) c none h = absurd h.current
close_kind-Holds p s none c (some (text, b)) h = record {
  follows =
      emit-follows p (in_text b) (between c.next_block) c.events (block_stop b) h.follows
        (ground arith);
  seen = h.seen;
  current = tt;
  numbered = h.numbered;
}
close_kind-Holds p s (some i) c (some (text, b)) h = absurd h.current
close_kind-Holds p s none c (some (tool, b)) h = absurd h.current
close_kind-Holds p s (some i) c (some (tool, b)) h = record {
  follows =
      emit-follows p (in_tool b) (between c.next_block) c.events (block_stop b) h.follows
        (ground arith);
  seen = h.seen;
  current = tt;
  numbered = h.numbered;
}

pub close_kind-opened :
    (c : Codec) (o : Option (Kind × ℕ)) → c.opened ≡ o → (close_kind c o).opened ≡ none
unfolding close_kind
close_kind-opened c none h = h
close_kind-opened c (some (k, b)) h = refl

pub close_kind-same :
    (c : Codec) (o : Option (Kind × ℕ))
    → ((close_kind c o).next_block ≡ c.next_block) × ((close_kind c o).tool_blocks ≡ c.tool_blocks)
unfolding close_kind
close_kind-same c none = (refl, refl)
close_kind-same c (some (k, b)) = (refl, refl)

pub open_text_from-Holds :
    (p : Phase) (s : List ℕ) (k : Option ℕ) (c : Codec) (o : Option (Kind × ℕ))
    → c.opened ≡ o
    → Holds p (record { seen = s; current = k }) o c
    → IsSound p (record { seen = s; current = none }) (open_text_from c o)
unfolding open_text_from start_block accept
open_text_from-Holds p s k c none e h =
    let d = close_kind-Holds p s k c none h in
    record {
      follows = emit-follows p (between _) _ _ _ d.follows (ground arith);
      seen = d.seen;
      current = refl;
      numbered = IsNumbered-suc _ _ d.numbered;
    }
open_text_from-Holds p s none c (some (text, b)) e h =
    subst (λ o. Holds p (record { seen = s; current = none }) o c) (sym e) h
open_text_from-Holds p s (some i) c (some (text, b)) e h = absurd h.current
open_text_from-Holds p s k c (some (tool, b)) e h =
    let d = close_kind-Holds p s k c (some (tool, b)) h in
    record {
      follows = emit-follows p (between _) _ _ _ d.follows (ground arith);
      seen = d.seen;
      current = refl;
      numbered = IsNumbered-suc _ _ d.numbered;
    }

pub open_text_from-opened :
    (c : Codec) (o : Option (Kind × ℕ))
    → c.opened ≡ o
    → (b : ℕ) × ((open_text_from c o).opened ≡ some (text, b))
unfolding open_text_from start_block
open_text_from-opened c none e = (_, refl)
open_text_from-opened c (some (text, b)) e = (b, e)
open_text_from-opened c (some (tool, b)) e = (_, refl)

-- An event that leaves the phase as it is
pub emit-Holds :
    (p : Phase) (t : Track) (o : Option (Kind × ℕ)) (c : Codec) (e : Event)
    → accept (phase_of o c.next_block) e ≡ some (phase_of o c.next_block)
    → Holds p t o c
    → Holds p t o (emit c e)
emit-Holds p t o c e next h = record {
  follows = emit-follows p (phase_of o c.next_block) _ c.events e h.follows next;
  seen = h.seen;
  current = h.current;
  numbered = h.numbered;
}

pub text_delta-IsSound :
    (p : Phase) (t : Track) (c : Codec) (s : Text) (b : ℕ)
    → c.opened ≡ some (text, b)
    → IsSound p t c
    → IsSound p t (emit c (block_delta (open_block c) (text_delta s)))
unfolding accept
text_delta-IsSound p t c s b e h = emit-Holds p t c.opened c _ (rw e (ground arith)) h

pub on_content-IsSound :
    (p : Phase) (t : Track) (c : Codec) (s : Text)
    → IsSound p t c
    → IsSound p (interrupt true s t) (on_content c s)
unfolding on_content
on_content-IsSound p t c [] h = h
on_content-IsSound p t c (x ∷ s) h =
    let d = record c { semantic = true } in
    let ready : Holds p t d.opened d = record {
      follows = h.follows;
      seen = h.seen;
      current = h.current;
      numbered = h.numbered;
    } in
    let (b, e) = open_text_from-opened d d.opened refl in
    text_delta-IsSound p (stopped t) (open_text d) (x ∷ s) b e
      (open_text_from-Holds p t.seen t.current d d.opened refl ready)

-- Kept reasoning is a block of its own.
pub on_reasoning-IsSound :
    (p : Phase) (kept : Bool) (t : Track) (c : Codec) (s : Text)
    → IsSound p t c
    → IsSound p (interrupt kept s t) (on_reasoning kept c s)
unfolding on_reasoning accept
on_reasoning-IsSound p true t c [] h = h
on_reasoning-IsSound p false t c [] h = h
on_reasoning-IsSound p false t c (x ∷ s) h = record {
  follows = h.follows;
  seen = h.seen;
  current = h.current;
  numbered = h.numbered;
}
on_reasoning-IsSound p true t c (x ∷ s) h =
    let c' = record c { semantic = true } in
    let d = close_open c' in
    let ready : Holds p t c'.opened c' = record {
      follows = h.follows;
      seen = h.seen;
      current = h.current;
      numbered = h.numbered;
    } in
    let closed = close_kind-Holds p t.seen t.current c' c'.opened ready in
    let shut : d.opened ≡ none = close_kind-opened c' c'.opened refl in
    let n = d.next_block in
    let a =
      emit-follows p (between n) (in_thinking n) d.events (block_start n thinking_block)
        closed.follows (ground arith) in
    let b =
      emit-follows p (in_thinking n) (in_thinking n) _ (block_delta n (thinking_delta (x ∷ s))) a
        (ground arith) in
    let e = emit-follows p (in_thinking n) (between (suc n)) _ (block_stop n) b (ground arith) in
    subst (λ o. Holds p (stopped t) o (on_reasoning true c (x ∷ s))) (sym shut)
      (record {
        follows = e;
        seen = closed.seen;
        current = tt;
        numbered = IsNumbered-suc _ _ closed.numbered;
      })
