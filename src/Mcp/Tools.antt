-- ===== src/Mcp/Tools.antt =====
-- internal/mcp/tools: the tools whose guards are the program's own.
pub mod Files
pub mod Queries
pub mod Code
pub mod Search
pub mod Inputs
pub mod Rag
pub mod Knowledge
mod Tests
