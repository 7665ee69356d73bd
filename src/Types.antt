-- ===== src/Types.antt =====
-- pkg/types: what a workflow, its steps, its run and its tools are made of.
mod Dynamic
mod Flow
mod Lifecycle
mod Tool
pub use Dynamic.*
pub use Flow.*
pub use Lifecycle.*
pub use Tool.*
