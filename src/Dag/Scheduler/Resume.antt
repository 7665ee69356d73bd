-- ===== src/Dag/Scheduler/Resume.antt =====
-- A run that waits for a human: only the step it waits for can be completed, and only once.
use agent_exec_engine.Prelude.{
  refl, ◌+◌, ◌≡◌, ◌≢◌, sym, ◌∙◌, String, true, List, some, Map, lookup, eq_iff, ◌==◌, ok, err,
  arith, Option-cases, Result-cases, inl, inr, insert, Bool-cases,
}
use agent_exec_engine.Types.{WorkflowStatus, Step, success, StepState, step_completed, Value}
use agent_exec_engine.Dag.Step.{transition_with_log}
use agent_exec_engine.Dag.Scheduler.Machine.{not_paused_on, World, Scheduler, get_state, put_state}
use agent_exec_engine.Dag.Scheduler.Steps.{emit, save_checkpoint}
use agent_exec_engine.Dag.Scheduler.Batch.{complete, set_status, execute_batch, handle_branch_step}
use agent_exec_engine.Dag.Scheduler.Waiting.{
  emit-Keeps, save_checkpoint-Keeps, execute_batch-Keeps, handle_branch_step-Keeps,
}
use agent_exec_engine.Dag.Scheduler.Loop.{complete_human_step}

-- What a run may become before it reaches a human step: the run itself, or what its status, a batch
-- of steps or a branch step makes of it.
pub data Later (world : World) (s : Scheduler) : Scheduler → Type 0 where
  now : Later world s s
  marked :
      (status : WorkflowStatus) {s' : Scheduler}
      → Later world s s'
      → Later world s (set_status status s')
  batched :
      (ids : List String) {s' : Scheduler}
      → Later world s s'
      → Later world s (execute_batch world ids s').1
  branched :
      (step : Step) {s' : Scheduler}
      → Later world s s'
      → Later world s (handle_branch_step world step s').1

Later-paused :
    (world : World) (s : Scheduler) {s' : Scheduler}
    → Later world s s'
    → s'.paused_step_id ≡ s.paused_step_id
Later-paused world s now = refl
Later-paused world s (marked status w) = Later-paused world s w
Later-paused world s (batched ids {s'} w) =
    (execute_batch-Keeps world ids s').same ∙ Later-paused world s w
Later-paused world s (branched step {s'} w) =
    (handle_branch_step-Keeps world step s').same ∙ Later-paused world s w

module _ (world : World) where
  tail-paused :
      (id : String) (s : Scheduler)
      → (save_checkpoint world
          (complete id (emit world step_completed id "" s).1).1).1.paused_step_id
        ≡ s.paused_step_id
  unfolding complete
  tail-paused id s =
      (save_checkpoint-Keeps world (complete id (emit world step_completed id "" s).1).1).same
      ∙ (emit-Keeps world step_completed id "" s).same

  complete_human_step-guards :
      (id : String) (input : Map Value) (s : Scheduler) (ready : List String)
      → (complete_human_step world id input s).0 ≡ ok ready
      → (s.paused_step_id ≡ id)
        × ((state : StepState) × (output : String) × (lookup id s.run.step_states ≡ some state)
            × (world.marshal input ≡ ok output)
            × (transition_with_log state.status success ≡ true))
  unfolding complete_human_step get_state
  complete_human_step-guards id input s ready e = elim (Bool-cases (s.paused_step_id == id)) [
    | inr away ↦ absurd (ground (arith, away, e))
    | inl waits ↦ elim (Option-cases (lookup id s.run.step_states)) [
      | inl absent ↦ absurd (ground (arith, waits, absent, e))
      | inr (state, found) ↦ elim (Result-cases (world.marshal input)) [
        | inl (text, failed) ↦ absurd (ground (arith, waits, found, failed, e))
        | inr (output, encoded) ↦ elim (Bool-cases (transition_with_log state.status success)) [
          | inr refused ↦ absurd (ground (arith, waits, found, encoded, refused, e))
          | inl allowed ↦ (
            ground (arith, waits, eq_iff s.paused_step_id id),
            (state, output, found, encoded, allowed),
          )
        ]
      ]
    ]
  ]

  complete_human_step-paused :
      (id : String) (input : Map Value) (s : Scheduler) (ready : List String)
      → (complete_human_step world id input s).0 ≡ ok ready
      → (s.paused_step_id ≡ id) × ((complete_human_step world id input s).1.paused_step_id ≡ "")
  unfolding complete_human_step get_state
  complete_human_step-paused id input s ready e =
      let (waits, (state, output, found, encoded, allowed)) =
        complete_human_step-guards id input s ready e in
      let same : s.paused_step_id == id ≡ true =
        ground (arith, waits, eq_iff s.paused_step_id id) in
      let s1 =
        record (put_state id
          (record state {
            status = success;
            completed_at = some (world.now s.asked);
            output = output;
          })
          (record s { asked = s.asked + 1 })) {
            step_outputs = insert id output s.step_outputs;
            paused_step_id = "";
          } in
      (waits, ground (arith, same, found, encoded, allowed, e, tail-paused id s1))

  complete_human_step-refused :
      (id : String) (input : Map Value) (s : Scheduler)
      → s.paused_step_id ≢ id
      → (complete_human_step world id input s).0 ≡ err (not_paused_on id)
  unfolding complete_human_step
  complete_human_step-refused id input s h = ground (arith, eq_iff s.paused_step_id id)

  -- A human step is completed only when the run waits for it; and afterwards no step that has a name
  -- can be completed, however many batches and branch steps have run since and whatever the status
  -- was set to.
  pub complete_human_step-once :
      (id : String) (input : Map Value) (s : Scheduler) (ready : List String)
      → (complete_human_step world id input s).0 ≡ ok ready
      → (later : Scheduler) → Later world (complete_human_step world id input s).1 later
      → (other : String) (again : Map Value) → other ≢ ""
      → (s.paused_step_id ≡ id)
        × ((complete_human_step world other again later).0 ≡ err (not_paused_on other))
  complete_human_step-once id input s ready e later w other again h =
      let (waited, cleared) = complete_human_step-paused id input s ready e in
      let same = Later-paused world (complete_human_step world id input s).1 w in
      (
        waited,
        complete_human_step-refused other again later (λ there. h (sym there ∙ same ∙ cleared)),
      )
