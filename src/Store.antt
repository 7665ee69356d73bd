-- ===== src/Store.antt =====
-- internal/store: the store of checkpoints.
pub mod Interface
pub mod Memory
pub mod Redis
pub mod Alike
mod Tests
