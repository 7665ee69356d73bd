-- ===== src/Dag/Scheduler.antt =====
-- internal/dag/scheduler.go, scheduler_state.go and scheduler_run.go: the scheduler of one run.
pub mod Machine
pub mod Steps
pub mod Batch
pub mod Loop
pub mod Retries
pub mod Moves
pub mod Decisions
pub mod Waiting
pub mod Resume
pub mod Open
pub mod Rounds
pub mod Branches
pub mod Plans
pub mod Starts
pub mod Ends
pub mod Returns
pub mod Finishes
pub mod Order
mod Tests
