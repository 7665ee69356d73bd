-- ===== src/Dag.antt =====
-- internal/dag: the graph of a workflow's steps, the states of a step, and the scheduler.
pub mod Graph
pub mod Step
pub mod Scheduler
pub mod Checkpoint
pub mod Samples
mod Tests
