-- ===== src/Streams/Collect.antt =====
-- anthropic-openai-codec.mjs: collectAnthropicStream, which folds the events of a message into the
-- message, for a caller that has not asked for a stream. That JSON.parse reads what JSON.stringify
-- has written is taken for granted: the events are data. Blocks of compaction, which
-- createAnthropicStreamCodec never opens, are left out, and the input of a tool is the JSON text.
pub mod Whole
use tokligence_gateway.Prelude.{
  ℕ, Bool, true, false, List, [], ◌∷◌, ◌++◌, Option, none, some, Text, leb, ◌==◌, keep, map,
  if◌then◌else◌,
}
use tokligence_gateway.Streams.Codec.{
  Opening, text_block, thinking_block, tool_block, Delta, text_delta, thinking_delta, json_delta,
  StopReason, Event, message_start, message_stop, block_start, block_delta, block_stop,
  message_delta,
}

pub record Block : Type 0 where
  pub opening : Opening
  pub text : Text
  pub thinking : Text
  pub json : Text

-- The map of the blocks by their index, in the order of insertion
abbrev pub Blocks : Type 0
Blocks = List (ℕ × Block)

unfoldable pub put_block : Blocks → ℕ → Block → Blocks
put_block [] i x = (i, x) ∷ []
put_block ((j, y) ∷ bs) i x = if j == i then (i, x) ∷ bs else (j, y) ∷ put_block bs i x

-- A change of the block at the index, if there is one
unfoldable pub change : ℕ → (Block → Block) → Blocks → Blocks
change i f [] = []
change i f ((j, y) ∷ bs) = if j == i then (j, f y) ∷ bs else (j, y) ∷ change i f bs

unfoldable pub add_delta : Delta → Block → Block
add_delta (text_delta t) x = record x { text = x.text ++ t }
add_delta (thinking_delta t) x = record x { thinking = x.thinking ++ t }
add_delta (json_delta t) x = record x { json = x.json ++ t }

pub record Collected : Type 0 where
  pub blocks : Blocks
  pub stop_reason : Option StopReason
  pub usage : ℕ × ℕ

abbrev pub opened_block : Opening → Block
opened_block o = record { opening = o; text = []; thinking = []; json = [] }

unfoldable pub collect_event : Collected → Event → Collected
collect_event m (block_start i o) = record m { blocks = put_block m.blocks i (opened_block o) }
collect_event m (block_delta i d) = record m { blocks = change i (add_delta d) m.blocks }
collect_event m (message_delta r u) = record m { stop_reason = some r; usage = u }
collect_event m _ = m

unfoldable pub collect_events : Collected → List Event → Collected
collect_events m [] = m
collect_events m (e ∷ es) = collect_events (collect_event m e) es

-- `sort((a, b) => a[0] - b[0])`
unfoldable pub insert_entry : ℕ × Block → Blocks → Blocks
insert_entry e [] = e ∷ []
insert_entry (i, x) ((j, y) ∷ bs) =
    if leb i j then (i, x) ∷ (j, y) ∷ bs else (j, y) ∷ insert_entry (i, x) bs

unfoldable pub sort_entries : Blocks → Blocks
sort_entries [] = []
sort_entries (e ∷ bs) = insert_entry e (sort_entries bs)

pub data Part : Type 0 where
  text_part thinking_part : Text → Part
  tool_part : Text → Text → Text → Part

abbrev pub part_from : Opening → Block → Part
part_from text_block x = text_part x.text
part_from thinking_block x = thinking_part x.thinking
part_from (tool_block id name) x = tool_part id name x.json

abbrev pub part_of : ℕ × Block → Part
part_of (i, x) = part_from x.opening x

abbrev pub is_filled : Part → Bool
is_filled (text_part []) = false
is_filled _ = true

abbrev pub nothing_yet : Collected
nothing_yet = record { blocks = []; stop_reason = none; usage = (0, 0) }

-- The content, the reason to stop and the usage of the message
unfoldable pub collect : List Event → List Part × Option StopReason × (ℕ × ℕ)
collect es =
    let m = collect_events nothing_yet es in
    (keep is_filled (map part_of (sort_entries m.blocks)), m.stop_reason, m.usage)
