-- ===== src/Dag/Scheduler/Order/Attempts.antt =====
-- internal/dag/scheduler_run.go: the order of a run's steps, through the attempts of one step.
use agent_exec_engine.Prelude.{
  ℕ, zero, suc, ◌+◌, ◌≡◌, refl, String, Bool, true, false, List, Option, none, some, Map, lookup,
  ok, arith, Option-cases, Bool-cases, inl, inr,
}
use agent_exec_engine.Types.{Step, Value}
use agent_exec_engine.Dag.Scheduler.Machine.{
  CtxError, ExecError, Failure, World, Scheduler, Action, failure_of, pure, throw, ◌>>=◌, ◌>>◌,
  get_state,
}
use agent_exec_engine.Dag.Scheduler.Steps.{
  start_step, finish_step_success, finish_step_failure, save_checkpoint,
}
use agent_exec_engine.Dag.Scheduler.Batch.{retries_left, attempt, attempts, execute_step}
use agent_exec_engine.Dag.Scheduler.Moves.{save_checkpoint-run}
use agent_exec_engine.Dag.Scheduler.Order.{
  is_met, settled_in, Sound, Any, Holds, and_then-Sound, Sound-frame, Sound-after,
}
use agent_exec_engine.Dag.Scheduler.Order.Steps.{
  Runs, save_checkpoint-Sound, start_step-Sound, finish_step_success-Sound,
  finish_step_failure-Sound,
}

-- After an attempt that succeeded its step is settled.
abbrev Attempted : String → Option (Bool × Failure) → Scheduler → Type 0
Attempted id outcome s = outcome ≡ none → settled_in s.run.step_states id ≡ true

module _ (world : World) (steps : List Step) where
  save_checkpoint-settled :
      (id : String) (s : Scheduler)
      → settled_in s.run.step_states id ≡ true
      → settled_in (save_checkpoint world s).1.run.step_states id ≡ true
  save_checkpoint-settled id s h = rw (save_checkpoint-run world s) h

  answered-Sound :
      (error : Option ExecError) (step : Step) (output : String) (ctx_err : Option CtxError)
      (s : Scheduler)
      → Holds steps s
      → Runs step.id s
      → Sound steps (Attempted step.id) s (
          (elim error as (λ _. Action (Option (Bool × Failure))) [
            | none ↦
                finish_step_success world step.id output >> (save_checkpoint world >> pure none)
            | some e ↦ finish_step_failure world step.id step (failure_of e) ctx_err >>= λ retry.
                pure (some (retry, failure_of e))
          ])
            s)
  answered-Sound none step output ctx_err s w runs =
      let done = finish_step_success-Sound world steps step.id s w runs output in
      let s1 = (finish_step_success world step.id output s).1 in
      and_then-Sound steps _ (Attempted step.id) s (finish_step_success world step.id output s)
        (λ _. save_checkpoint world >> pure none) done
        (λ a e p.
          let kept = save_checkpoint-Sound world steps s1 done.inv in
          let s2 = (save_checkpoint world s1).1 in
          and_then-Sound steps Any (Attempted step.id) s1 (save_checkpoint world s1)
            (λ _. pure none) kept
            (λ b f q.
              Sound-frame steps (Attempted step.id) s2 (ok none, s2) refl refl kept.inv
                (λ o g v. save_checkpoint-settled step.id s1 p)))
  answered-Sound (some bad) step output ctx_err s w runs =
      let failed = finish_step_failure-Sound world steps step s w runs (failure_of bad) ctx_err in
      let s1 = (finish_step_failure world step.id step (failure_of bad) ctx_err s).1 in
      and_then-Sound steps Any (Attempted step.id) s
        (finish_step_failure world step.id step (failure_of bad) ctx_err s)
        (λ retry. pure (some (retry, failure_of bad))) failed
        (λ retry e p.
          Sound-frame steps (Attempted step.id) s1 (ok (some (retry, failure_of bad)), s1) refl refl
            failed.inv (λ o g v. absurd (ground (arith, g, v))))

  again :
      (rest : Action (Unit {0})) (outcome : Option (Bool × Failure)) (step : Step) (s : Scheduler)
      → Holds steps s
      → Attempted step.id outcome s
      → Sound steps (λ _ s'. settled_in s'.run.step_states step.id ≡ true) s (rest s)
      → Sound steps
          (λ _ s'. settled_in s'.run.step_states step.id ≡ true)
          s
          ((elim outcome as (λ _. Action (Unit {0})) [
            | none ↦ pure tt
            | some (true, failure) ↦ rest
            | some (false, failure) ↦ throw failure
          ])
            s)
  again rest none step s w p more = Sound-frame steps _ s _ refl refl w (λ a e. p refl)
  again rest (some (true, failure)) step s w p more = more
  again rest (some (false, failure)) step s w p more =
      Sound-frame steps _ s _ refl refl w (λ a e. absurd (ground (arith, e)))

  attempt-Sound :
      (step : Step) (input : Map Value) (s : Scheduler)
      → Holds steps s
      → is_met s.graph step.id ≡ true
      → Sound steps (Attempted step.id) s (attempt world step input s)
  unfolding attempt
  attempt-Sound step input s w h =
      let first = start_step-Sound world steps step.id s w h in
      let s1 = (start_step world step.id s).1 in
      let s2 = record s1 { asked = s1.asked + 1 } in
      let r = world.execute s1.asked step input in
      and_then-Sound steps _ (Attempted step.id) s (start_step world step.id s) _ first
        (λ _ begun runs.
          Sound-after steps (Attempted step.id) s1 s2 _ (λ id p. p)
            (answered-Sound r.error step r.output r.ctx_err s2 first.inv
              (record { state = runs.state; there = runs.there; running = runs.running })))

  -- Each attempt of a step finds what it depends on resolved.
  attempts-Sound :
      (fuel : ℕ) (step : Step) (input : Map Value) (s : Scheduler)
      → Holds steps s
      → is_met s.graph step.id ≡ true
      → Sound steps
          (λ _ s'. settled_in s'.run.step_states step.id ≡ true)
          s
          (attempts world fuel step input s)
  unfolding attempts
  attempts-Sound zero step input s w h =
      Sound-frame steps _ s _ refl refl w (λ a e. absurd (ground (arith, e)))
  attempts-Sound (suc fuel) step input s w h =
      let one = attempt-Sound step input s w h in
      let s1 = (attempt world step input s).1 in
      and_then-Sound steps (Attempted step.id) _ s (attempt world step input s) _ one
        (λ outcome e p.
          again (attempts world fuel step input) outcome step s1 one.inv p
            (attempts-Sound fuel step input s1 one.inv (one.grows step.id h)))

  pub execute_step-Sound :
      (step : Step) (input : Map Value) (s : Scheduler)
      → Holds steps s
      → is_met s.graph step.id ≡ true
      → Sound steps
          (λ _ s'. settled_in s'.run.step_states step.id ≡ true)
          s
          (execute_step world step input s)
  unfolding execute_step get_state
  execute_step-Sound step input s w h = elim (Bool-cases (world.has_executor step.type)) [
    | inr missing ↦
        Sound-frame steps _ s _ (ground (arith, missing)) (ground (arith, missing)) w
          (λ a e. absurd (ground (arith, missing, e)))
    | inl known ↦ elim (Option-cases (lookup step.id s.run.step_states)) [
      | inl absent ↦
          Sound-frame steps _ s _ (ground (arith, known, absent)) (ground (arith, known, absent)) w
            (λ a e. absurd (ground (arith, known, absent, e)))
      | inr (state, there) ↦
          rw (known, there)
            (attempts-Sound (suc (retries_left step.retry state.retry_count)) step input s w h)
    ]
  ]
