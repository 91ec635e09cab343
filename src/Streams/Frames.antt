-- ===== src/Streams/Frames.antt =====
-- anthropic-openai-codec.mjs: what is read of a stream of chat completions, and the events of an
-- Anthropic stream.
use tokligence_gateway.Prelude.{ℕ, Bool, List, Option, Text}

-- `finish_reason`, where it is truthy
pub data Finish : Type 0 where
  stop length_reached tool_calls function_call content_filter : Finish
  unlisted : Text → Finish

-- A part of a tool call: the index, or 0, with what is not empty of the rest
pub record Call : Type 0 where
  pub index : ℕ
  pub id : Option Text
  pub name : Option Text
  pub arguments : Text

pub record Choice : Type 0 where
  pub reasoning : Text
  pub content : Text
  pub calls : List Call
  pub finish : Option Finish

pub record Frame : Type 0 where
  pub is_error : Bool
  -- the prompt's and the completion's tokens, or 0
  pub usage : Option (ℕ × ℕ)
  pub choice : Option Choice

-- The terminal marker, a text that is no JSON, a value that is no object, or an object
pub data Payload : Type 0 where
  done malformed scalar : Payload
  frame : Frame → Payload

pub data Opening : Type 0 where
  text_block thinking_block : Opening
  tool_block : Text → Text → Opening

pub data Delta : Type 0 where
  text_delta thinking_delta json_delta : Text → Delta

pub data StopReason : Type 0 where
  end_turn max_tokens tool_use : StopReason

pub data Event : Type 0 where
  message_start message_stop : Event
  block_start : ℕ → Opening → Event
  block_delta : ℕ → Delta → Event
  block_stop : ℕ → Event
  message_delta : StopReason → ℕ × ℕ → Event
