-- ===== src/Sandbox.antt =====
-- internal/sandbox: running commands in containers.
pub mod Images
pub mod Policy
pub mod Archive
pub mod Engine
pub mod Pool
mod Tests
