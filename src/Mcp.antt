-- ===== src/Mcp.antt =====
-- internal/mcp: the tools, their inputs' checks, and the calls.
pub mod Validator
pub mod Guardrail
pub mod Registry
pub mod Server
pub mod RateLimit
pub mod Tools
pub mod Samples
mod Tests
