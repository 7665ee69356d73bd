-- ===== src/Dag/Scheduler/Retries.antt =====
-- The attempts of `executeStep`: how they move a step's state, and that they end.
use agent_exec_engine.Prelude.{
  ℕ, zero, suc, ◌+◌, ◌<◌, ◌≡◌, refl, String, Bool, true, false, Option, none, some, Map, lookup,
  lookup-insert, eq_refl, Result, ok, err, arith, Option-cases, inl, inr,
}
use agent_exec_engine.Types.{StepStatus, Step, StepState, EventType, Value}
use agent_exec_engine.Dag.Step.{should_retry}
use agent_exec_engine.Dag.Scheduler.Machine.{
  CtxError, Failure, out_of_fuel, World, Scheduler, Action, and_then, pure, throw, failure_of,
  get_state, put_state,
}
use agent_exec_engine.Dag.Scheduler.Steps.{
  emit, start_step, finish_step_success, finish_step_failure, save_checkpoint, failed_state,
}
use agent_exec_engine.Dag.Scheduler.Batch.{retries_left, attempt, attempts, execute_step}

abbrev counted : Option StepState → ℕ
counted none = 0
counted (some state) = state.retry_count

-- How often a step was tried again.
abbrev count_of : String → Scheduler → ℕ
count_of id s = counted (lookup id s.run.step_states)

-- Whether a loop was cut off.
abbrev pub is_cut : {A : Type 0} → Result Failure A → Bool
is_cut (err out_of_fuel) = true
is_cut _ = false

pub and_then-is_cut :
    {A B : Type 0} (r : Result Failure A × Scheduler) (f : A → Action B)
    → is_cut r.0 ≡ false
    → ((a : A) → r.0 ≡ ok a → is_cut (f a r.1).0 ≡ false)
    → is_cut (and_then r f).0 ≡ false
and_then-is_cut (ok a, s) f h k = k a refl
and_then-is_cut (err e, s) f h k = ground arith

module _ (world : World) where
  emit-run :
      (type : EventType) (id message : String) (s : Scheduler)
      → ((emit world type id message s).1.run ≡ s.run) × ((emit world type id message s).0 ≡ ok tt)
  unfolding emit
  emit-run type id message s = ground arith

  start_step-count :
      (id : String) (s : Scheduler)
      → (is_cut (start_step world id s).0 ≡ false)
        × ((start_step world id s).0 ≡ ok tt
            → count_of id (start_step world id s).1 ≡ count_of id s)
  unfolding start_step get_state put_state emit
  start_step-count id s = elim (Option-cases (lookup id s.run.step_states)) [
    | inl absent ↦ ground (arith, absent)
    | inr (state, there) ↦
        let running = record state {
          status = StepStatus.running;
          started_at = some (world.now s.asked);
          error = "";
        } in
        ground (arith, there, lookup-insert id id running s.run.step_states, eq_refl id)
  ]

  pub finish_step_failure-count :
      (step : Step) (failure : Failure) (ctx_err : Option CtxError) (s : Scheduler)
      → (is_cut (finish_step_failure world step.id step failure ctx_err s).0 ≡ false)
        × ((finish_step_failure world step.id step failure ctx_err s).0 ≡ ok true
            → retries_left step.retry
                (count_of step.id (finish_step_failure world step.id step failure ctx_err s).1)
              < retries_left step.retry (count_of step.id s))
  unfolding finish_step_failure get_state put_state emit should_retry
  finish_step_failure-count step failure ctx_err s =
      elim (Option-cases (lookup step.id s.run.step_states)) [
        | inl absent ↦ ground (arith, absent)
        | inr (state, there) ↦
            let after = failed_state world state failure ctx_err in
            let counted_up = record after { retry_count = after.retry_count + 1 } in
            ground (
              arith,
              there,
              lookup-insert step.id step.id counted_up s.run.step_states,
              eq_refl step.id,
            )
      ]

  finish_step_success-is_cut :
      (id output : String) (s : Scheduler)
      → is_cut (finish_step_success world id output s).0 ≡ false
  unfolding finish_step_success get_state emit
  finish_step_success-is_cut id output s = ground arith

  pub save_checkpoint-is_cut : (s : Scheduler) → is_cut (save_checkpoint world s).0 ≡ false
  unfolding save_checkpoint emit
  save_checkpoint-is_cut s = ground arith

  -- What an attempt leaves: no loop is cut off, and a step that is to be tried again has fewer
  -- retries left than before.
  record Shrinks (step : Step) (s : Scheduler)
      (r : Result Failure (Option (Bool × Failure)) × Scheduler) : Type 0 where
    whole : is_cut r.0 ≡ false
    fewer :
        (failure : Failure)
        → r.0 ≡ ok (some (true, failure))
        → retries_left step.retry (count_of step.id r.1)
          < retries_left step.retry (count_of step.id s)
    reported :
        (failure : Failure)
        → r.0 ≡ ok (some (false, failure))
        → is_cut {A = Unit {0}} (err failure) ≡ false

  attempt-Shrinks :
      (step : Step) (input : Map Value) (s : Scheduler)
      → Shrinks step s (attempt world step input s)
  unfolding attempt
  attempt-Shrinks step input s =
      let started = start_step-count step.id s in
      let s1 = (start_step world step.id s).1 in
      let s2 = record s1 { asked = s1.asked + 1 } in
      let r = world.execute s1.asked step input in
      elim (Option-cases r.error) [
        | inl fine ↦
            let done = finish_step_success-is_cut step.id r.output s2 in
            let kept = save_checkpoint-is_cut (finish_step_success world step.id r.output s2).1 in
            record {
              whole = ground (arith, started, fine, done, kept);
              fewer = λ failure e. absurd (ground (arith, started, fine, done, kept, e));
              reported = λ failure e. absurd (ground (arith, started, fine, done, kept, e));
            }
        | inr (bad, there) ↦
            let failed = finish_step_failure-count step (failure_of bad) r.ctx_err s2 in
            record {
              whole = ground (arith, started, there, failed);
              fewer = λ failure e. ground (arith, started, there, failed, e);
              reported = λ failure e. ground (arith, started, there, failed, e);
            }
      ]

  -- What follows an attempt, if what may follow a retry is not cut off.
  after_attempt :
      (fuel : ℕ) (step : Step) (input : Map Value) (s : Scheduler)
      → (r : Result Failure (Option (Bool × Failure)) × Scheduler) → Shrinks step s r
      → (retries_left step.retry (count_of step.id r.1) < fuel
          → is_cut (attempts world fuel step input r.1).0 ≡ false)
      → retries_left step.retry (count_of step.id s) < suc fuel
      → (outcome : Option (Bool × Failure)) → r.0 ≡ ok outcome
      → is_cut
          ((elim outcome as (λ x'. Action (Unit {0})) [
            | none ↦ pure tt
            | some (true, failure) ↦ attempts world fuel step input
            | some (false, failure) ↦ throw failure
          ])
            r.1).0
        ≡ false
  after_attempt fuel step input s r w rest h none e = refl
  after_attempt fuel step input s r w rest h (some (true, failure)) e =
      rest (omega (arith, h, w.fewer failure e))
  after_attempt fuel step input s r w rest h (some (false, failure)) e = w.reported failure e

  attempts-is_cut :
      (fuel : ℕ) (step : Step) (input : Map Value) (s : Scheduler)
      → retries_left step.retry (count_of step.id s) < fuel
      → is_cut (attempts world fuel step input s).0 ≡ false
  unfolding attempts
  attempts-is_cut zero step input s h = absurd (omega arith)
  attempts-is_cut (suc fuel) step input s h =
      let w = attempt-Shrinks step input s in
      let rest = attempts-is_cut fuel step input (attempt world step input s).1 in
      and_then-is_cut (attempt world step input s) _ w.whole
        (after_attempt fuel step input s (attempt world step input s) w rest h)

-- `executeStep` always ends: with one attempt more than the retries that the policy leaves, it
-- returns the step's success or an error of the step's own, whatever the executors, the clock, the
-- contexts and the store answer.
pub execute_step-is_cut :
    (world : World) (step : Step) (input : Map Value) (s : Scheduler)
    → is_cut (execute_step world step input s).0 ≡ false
unfolding execute_step get_state
execute_step-is_cut world step input s = elim (Option-cases (lookup step.id s.run.step_states)) [
  | inl absent ↦ ground (arith, absent)
  | inr (state, there) ↦
      let left = retries_left step.retry state.retry_count in
      let short : retries_left step.retry (count_of step.id s) < suc left =
        rw there (omega arith) in
      ground (arith, there, attempts-is_cut world (suc left) step input s short)
]
