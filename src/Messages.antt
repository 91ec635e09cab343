-- ===== src/Messages.antt =====
-- anthropic-openai-codec.mjs: requests in the Anthropic protocol, of which Validate has the check of
-- the native lane and Translate the translation into chat completions. A field is read of an object
-- only; a list of messages or tools that is neither a list nor left out is outside.
pub mod Validate
pub mod Translate
pub mod Request
pub mod Kept
mod Tests
