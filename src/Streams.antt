-- ===== src/Streams.antt =====
-- anthropic-openai-codec.mjs: the streams of chat completions and of Anthropic messages.
pub mod Reader
pub mod Frames
pub mod Codec
pub mod Collect
pub mod Reply
pub mod Preflight
mod Tests
