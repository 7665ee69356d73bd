-- ===== src/Api.antt =====
-- internal/api: workflows over HTTP.
pub mod Router
pub mod Manager
pub mod Handler
mod Tests
