-- ===== src/Dag/Checkpoint.antt =====
-- internal/dag/checkpoint.go: saving and loading checkpoints, and restoring a scheduler. The JSON
-- of a checkpoint is the codec's; the mutex makes a save atomic within one process.
pub mod Versions
mod Tests
use Prim.Native.String.{◌++◌ as str_append}
use agent_exec_engine.Prelude.{
  ℕ, suc, String, Bool, true, false, List, [], ◌∷◌, Option, none, some, if◌then◌else◌, eqb, not,
  Map, lookup, insert, Result, ok, err,
}
use agent_exec_engine.Prelude.Int.{pos}
use agent_exec_engine.Types.{
  StepStatus, success, skipped, status_eq, Step, StepState, Workflow, Checkpoint, checkpoint_loaded,
}
use agent_exec_engine.Store.Interface.{StoreError, err_not_found, context_done}
use agent_exec_engine.Store.Memory.{MemoryStore, get, set}
use agent_exec_engine.Dag.Graph.{mark_complete, skip_step}
use agent_exec_engine.Dag.Scheduler.Machine.{
  CtxError, Failure, context_error, graph_error, World, Scheduler, put_state,
}
use agent_exec_engine.Dag.Scheduler.Steps.{emit}
use agent_exec_engine.Dag.Scheduler.Batch.{new_scheduler}

-- The time to live of a checkpoint, in seconds.
abbrev pub checkpoint_ttl_seconds : ℕ
checkpoint_ttl_seconds = 86400

-- The current version and the expected one in a conflict.
pub data SaveError : Type 0 where
  checkpoint_conflict : ℕ → ℕ → SaveError
  store_error : StoreError → SaveError
  json_error : String → SaveError

-- `json.Marshal` and `json.Unmarshal` of a checkpoint.
pub record CheckpointCodec : Type 0 where
  pub marshal : Checkpoint → Result String String
  pub unmarshal : String → Result String Checkpoint

unfoldable pub checkpoint_key : String → String
checkpoint_key run_id = str_append "checkpoint:" run_id

abbrev pub decoded : Result String Checkpoint → Result SaveError Checkpoint
decoded (ok cp) = ok cp
decoded (err e) = err (json_error e)

abbrev pub is_not_found : SaveError → Bool
is_not_found (store_error (err_not_found key)) = true
is_not_found _ = false

abbrev pub next_checkpoint : ℕ → Checkpoint → Checkpoint
next_checkpoint now cp = record cp { timestamp = now; version = suc cp.version }

module _ (codec : CheckpointCodec) where
  abbrev load_payload : Result StoreError String → Result SaveError Checkpoint
  load_payload (err e) = err (store_error e)
  load_payload (ok payload) = decoded (codec.unmarshal payload)

  unfoldable pub load : Bool → ℕ → String → MemoryStore → Result SaveError Checkpoint × MemoryStore
  load done now run_id m =
      let (payload, m') = get done now (checkpoint_key run_id) m in (load_payload payload, m')

  -- The version that the store must have: none for a run that it does not know.
  abbrev conflict_of : Result SaveError Checkpoint → Checkpoint → Option SaveError
  conflict_of (ok current) cp =
      if eqb current.version cp.version
      then none
      else some (checkpoint_conflict current.version cp.version)
  conflict_of (err e) cp = if is_not_found e then none else some e

  -- The write of the next version, whose payload is the codec's.
  unfoldable pub write_next :
      Bool
      → ℕ
      → Checkpoint
      → Result String String
      → MemoryStore
      → Result SaveError Checkpoint × MemoryStore
  write_next done now cp (err e) m = (err (json_error e), m)
  write_next done now cp (ok payload) m =
      let (written, m') =
        set done now (checkpoint_key cp.run_id) payload checkpoint_ttl_seconds m in
      (elim written [ err e ↦ err (store_error e) | ok _ ↦ ok (next_checkpoint now cp) ], m')

  -- The saved checkpoint is the caller's, with its new version and time.
  unfoldable pub save :
      Bool → ℕ → Checkpoint → MemoryStore → Result SaveError Checkpoint × MemoryStore
  save done now cp m =
      let (current, m') = load done now cp.run_id m in
      elim (conflict_of current cp) [
        | some e ↦ (err e, m')
        | none ↦ write_next done now cp (codec.marshal (next_checkpoint now cp)) m'
      ]

-- The first loop of `RestoreScheduler`: a step without a state is pending, and so is one that was
-- running.
abbrev pub restored_state : String → Option StepState → StepState
restored_state id none = record {
  step_id = id;
  status = StepStatus.pending;
  started_at = none;
  completed_at = none;
  output = "";
  error = "";
  retry_count = 0;
  tokens_used = pos 0;
}
restored_state id (some state) =
    if status_eq state.status StepStatus.running
    then record state { status = StepStatus.pending; started_at = none }
    else state

unfoldable pub restore_states : List Step → Map StepState → Map StepState
restore_states [] states = states
restore_states (step ∷ rest) states =
    restore_states rest (insert step.id (restored_state step.id (lookup step.id states)) states)

-- One round of the second loop: finished steps are resolved in the graph, and the outputs of the
-- successful ones are kept for their dependents.
abbrev pub restore_step : String → Option StepState → Scheduler → Scheduler
restore_step id none s = s
restore_step id (some state) s = elim (state.status) [
  | success ↦ record s {
    step_outputs = insert id state.output s.step_outputs;
    graph = (mark_complete id s.graph).0;
  }
  | skipped ↦ record s { graph = (skip_step id s.graph).0 }
  | _ ↦ s
]

unfoldable pub restore_steps : List Step → Scheduler → Scheduler
restore_steps [] s = s
restore_steps (step ∷ rest) s =
    restore_steps rest (restore_step step.id (lookup step.id s.run.step_states) s)

-- The checkpoint's fields put into a new scheduler, the loops, and the event. The error of the
-- caller's context comes in as an argument.
unfoldable pub restore_scheduler :
    World → String → ℕ → Option CtxError → Workflow → Checkpoint → Result Failure Scheduler
unfolding restore_states restore_steps
restore_scheduler world run_id started_at (some e) wf cp = err (context_error e)
restore_scheduler world run_id started_at none wf cp =
    elim (new_scheduler world run_id started_at wf) [
      | err e ↦ err (graph_error e)
      | ok s ↦
          let filled = record s {
            run = record (s.run) {
              id = cp.run_id;
              workflow_id = cp.workflow_id;
              step_states = restore_states wf.steps cp.step_states;
            };
            checkpoint_version = cp.version;
          } in
          ok (emit world checkpoint_loaded "" "" (restore_steps wf.steps filled)).1
    ]
