-- ===== src/Dag/Scheduler/Moves.antt =====
-- The statuses that an attempt of a step moves it through.
use agent_exec_engine.Prelude.{
  ◌≡◌, refl, String, Bool, true, Option, some, is_some, not, lookup, lookup-insert, eq_refl, ok,
  arith,
}
use agent_exec_engine.Types.{StepStatus, success, status_eq, Step, StepState}
use agent_exec_engine.Dag.Step.{can_transition, transition_with_log}
use agent_exec_engine.Dag.Scheduler.Machine.{Failure, World, Scheduler, get_state, put_state}
use agent_exec_engine.Dag.Scheduler.Steps.{emit, start_step, finish_step_success, save_checkpoint}

-- A state that the state machine lets a step have at the end of an attempt.
pub record Ended (done : Bool) (before : StepState) (result : Option StepState) : Type 0 where
  pub after : StepState
  pub there : result ≡ some after
  pub started : can_transition before.status StepStatus.running ≡ true
  pub ended : can_transition StepStatus.running after.status ≡ true
  pub succeeded : status_eq after.status success ≡ done

module _ (world : World) (id : String) (s : Scheduler) (before : StepState)
    (found : lookup id s.run.step_states ≡ some before) where
  pub start_step-running :
      (start_step world id s).0 ≡ ok tt
      → (can_transition before.status StepStatus.running ≡ true)
        × (is_some (lookup id (start_step world id s).1.run.step_states) ≡ true)
  unfolding start_step get_state put_state emit transition_with_log
  start_step-running e =
      let running = record before {
        status = StepStatus.running;
        started_at = some (world.now s.asked);
        error = "";
      } in
      ground (arith, found, e, lookup-insert id id running s.run.step_states, eq_refl id)

  pub finish_step_success-status :
      (output : String)
      → (after : StepState) × (lookup id (finish_step_success world id output s).1.run.step_states
          ≡ some after)
        × (after.status ≡ success)
  unfolding finish_step_success get_state put_state emit
  finish_step_success-status output =
      let done = record before {
        status = success;
        completed_at = some (world.now s.asked);
        output = output;
        error = "";
      } in
      (done, ground (arith, found, lookup-insert id id done s.run.step_states, eq_refl id), refl)

pub save_checkpoint-run : (world : World) (s : Scheduler) → (save_checkpoint world s).1.run ≡ s.run
unfolding save_checkpoint emit
save_checkpoint-run world s = ground arith

abbrev is_done : Option (Bool × Failure) → Bool
is_done outcome = not (is_some outcome)
