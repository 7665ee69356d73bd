-- ===== src/Llm.antt =====
-- internal/llm: the context window of a conversation.
pub mod Message
pub mod Select
pub mod Context
pub mod Gateway
pub mod Client
pub mod Prompt
pub mod Conversation
pub mod React
pub mod Stream
mod Tests
mod StepTests
