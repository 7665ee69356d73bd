-- ===== src/Dag/Scheduler/Order/Steps.antt =====
-- internal/dag/scheduler_state.go: the order of a run's steps, through the operations on one step.
use agent_exec_engine.Prelude.{
  ℕ, ◌+◌, ◌≡◌, refl, String, true, false, List, [], ◌∷◌, Option, some, if◌then◌else◌, Map, lookup,
  insert, lookup-insert, eq_refl, Result, ok, arith, Option-cases, Bool-cases, inl, inr,
}
use agent_exec_engine.Types.{
  StepStatus, success, failed, timeout, skipped, cancelled, Step, StepState, paused, EventType,
  workflow_paused,
}
use agent_exec_engine.Dag.Step.{can_transition, transition_with_log, should_retry}
use agent_exec_engine.Dag.Scheduler.Machine.{
  CtxError, Failure, World, Scheduler, modify, ◌>>◌, get_state, put_state,
}
use agent_exec_engine.Dag.Scheduler.Steps.{
  emit, start_step, finish_step_success, finish_step_skipped, finish_step_failure, save_checkpoint,
  failed_state, unmatched, pause_workflow, cancel_running, mark_running_steps_cancelled,
}
use agent_exec_engine.Dag.Scheduler.Open.{is_settled}
use agent_exec_engine.Dag.Scheduler.Moves.{save_checkpoint-run}
use agent_exec_engine.Dag.Scheduler.Order.{
  is_met, settled_in, begun_in, Sound, Any, Holds, and_then-Sound, Sound-frame, put_state-Inv,
}

-- A settled step cannot be started again.
running-settled :
    (status : StepStatus)
    → can_transition status StepStatus.running ≡ true
    → is_settled status ≡ false
unfolding can_transition
running-settled StepStatus.pending h = refl
running-settled StepStatus.running h = refl
running-settled success h = absurd (ground (arith, h))
running-settled failed h = refl
running-settled timeout h = refl
running-settled skipped h = absurd (ground (arith, h))
running-settled cancelled h = refl

-- The step has been started and has not ended yet.
pub record Runs (id : String) (s : Scheduler) : Type 0 where
  pub state : StepState
  pub there : lookup id s.run.step_states ≡ some state
  pub running : state.status ≡ StepStatus.running

module _ (world : World) (steps : List Step) where
  pub emit-Sound :
      (type : EventType) (id message : String) (s : Scheduler)
      → Holds steps s
      → Sound steps Any s (emit world type id message s)
  unfolding emit
  emit-Sound type id message s w =
      Sound-frame steps Any s (emit world type id message s) (ground arith) (ground arith) w
        (λ a e. tt)

  save_checkpoint-graph : (s : Scheduler) → (save_checkpoint world s).1.graph ≡ s.graph
  unfolding save_checkpoint emit
  save_checkpoint-graph s = ground arith

  pub save_checkpoint-Sound :
      (s : Scheduler) → Holds steps s → Sound steps Any s (save_checkpoint world s)
  save_checkpoint-Sound s w =
      Sound-frame steps Any s (save_checkpoint world s) (save_checkpoint-graph s)
        (rw (save_checkpoint-run world s) refl) w (λ a e. tt)

  -- What an operation makes of the state of one step.
  put-Sound :
      {A : Type 0} (Post : A → Scheduler → Type 0) (id : String) (state : StepState) (s : Scheduler)
      → (r : Result Failure A × Scheduler) → r.1.graph ≡ s.graph
      → r.1.run.step_states ≡ insert id state s.run.step_states
      → Holds steps s
      → is_met s.graph id ≡ true
      → (settled_in s.run.step_states id ≡ true → is_settled state.status ≡ true)
      → ((a : A) → r.0 ≡ ok a → Post a r.1)
      → Sound steps Post s r
  unfolding put_state
  put-Sound Post id state s r same put w h stays post = record {
    inv = rw (same, put) (put_state-Inv steps id state s w h stays);
    grows = λ k p. rw same p;
    by = post;
  }

  -- A step may be started when all that it depends on is resolved.
  pub start_step-Sound :
      (id : String) (s : Scheduler)
      → Holds steps s
      → is_met s.graph id ≡ true
      → Sound steps (λ _ s'. Runs id s') s (start_step world id s)
  unfolding start_step get_state put_state emit transition_with_log
  start_step-Sound id s w h = elim (Option-cases (lookup id s.run.step_states)) [
    | inl absent ↦
        Sound-frame steps _ s (start_step world id s) (ground (arith, absent))
          (ground (arith, absent)) w (λ a e. absurd (ground (arith, absent, e)))
    | inr (state, there) ↦
        let started = record state {
          status = StepStatus.running;
          started_at = some (world.now s.asked);
          error = "";
        } in
        let found = lookup-insert id id started s.run.step_states in
        elim (Bool-cases (can_transition state.status StepStatus.running)) [
          | inr refused ↦
              Sound-frame steps _ s (start_step world id s) (ground (arith, there, refused))
                (ground (arith, there, refused)) w
                (λ a e. absurd (ground (arith, there, refused, e)))
          | inl allowed ↦
              put-Sound _ id started s (start_step world id s) (ground (arith, there, allowed))
                (ground (arith, there, allowed)) w h
                (λ p. absurd (ground (arith, p, there, running-settled state.status allowed)))
                (λ a e. record {
                  state = started;
                  there = ground (arith, there, allowed, found, eq_refl id);
                  running = refl;
                })
        ]
  ]

  module _ (id : String) (s : Scheduler) (w : Holds steps s) (r : Runs id s) where
    Runs-is_met : is_met s.graph id ≡ true
    Runs-is_met = w.met id (ground (arith, r.there, r.running))

    pub finish_step_success-Sound :
        (output : String)
        → Sound steps
            (λ _ s'. settled_in s'.run.step_states id ≡ true)
            s
            (finish_step_success world id output s)
    unfolding finish_step_success get_state put_state emit
    finish_step_success-Sound output =
        let done = record (r.state) {
          status = success;
          completed_at = some (world.now s.asked);
          output = output;
          error = "";
        } in
        let found = lookup-insert id id done s.run.step_states in
        put-Sound _ id done s (finish_step_success world id output s) (ground (arith, r.there))
          (ground (arith, r.there)) w Runs-is_met (λ p. refl)
          (λ a e. ground (arith, r.there, found, eq_refl id))

    pub finish_step_skipped-Sound :
        Sound steps
          (λ _ s'. settled_in s'.run.step_states id ≡ true)
          s
          (finish_step_skipped world id s)
    unfolding finish_step_skipped get_state put_state emit
    finish_step_skipped-Sound =
        let done = record (r.state) {
          status = skipped;
          completed_at = some (world.now s.asked);
          output = unmatched world;
          error = "";
        } in
        let found = lookup-insert id id done s.run.step_states in
        put-Sound _ id done s (finish_step_skipped world id s) (ground (arith, r.there))
          (ground (arith, r.there)) w Runs-is_met (λ p. refl)
          (λ a e. ground (arith, r.there, found, eq_refl id))

  pub finish_step_failure-Sound :
      (step : Step) (s : Scheduler)
      → Holds steps s
      → Runs step.id s
      → (failure : Failure) (ctx_err : Option CtxError)
      → Sound steps Any s (finish_step_failure world step.id step failure ctx_err s)
  unfolding finish_step_failure get_state put_state emit
  finish_step_failure-Sound step s w r failure ctx_err =
      let base = failed_state world r.state failure ctx_err in
      let after = record base {
        retry_count = if should_retry step base then base.retry_count + 1 else base.retry_count;
      } in
      put-Sound Any step.id after s (finish_step_failure world step.id step failure ctx_err s)
        (ground (arith, r.there)) (ground (arith, r.there)) w (Runs-is_met step.id s w r)
        (λ p. absurd (ground (arith, p, r.there, r.running))) (λ a e. tt)

  pub pause_workflow-Sound :
      (step : Step) (s : Scheduler)
      → Holds steps s
      → is_met s.graph step.id ≡ true
      → Sound steps Any s (pause_workflow world step s)
  unfolding pause_workflow
  pause_workflow-Sound step s w h =
      let mark : Scheduler → Scheduler =
        λ s. record s { run = record (s.run) { status = paused }; paused_step_id = step.id } in
      let first = start_step-Sound step.id s w h in
      let s1 = (start_step world step.id s).1 in
      let second = emit-Sound workflow_paused step.id "" (mark s1) first.inv in
      and_then-Sound steps _ Any s (start_step world step.id s)
        (λ _. modify mark >> emit world workflow_paused step.id "" >> save_checkpoint world) first
        (λ a e p.
          and_then-Sound steps Any Any s1 (ok tt, mark s1)
            (λ _. emit world workflow_paused step.id "" >> save_checkpoint world)
            (Sound-frame steps Any s1 (ok tt, mark s1) refl refl first.inv (λ b f. tt))
            (λ b f q.
              and_then-Sound steps Any Any (mark s1)
                (emit world workflow_paused step.id "" (mark s1)) (λ _. save_checkpoint world)
                second (λ c g v. save_checkpoint-Sound _ second.inv)))

cancel_running-status :
    (now : ℕ) (states : Map StepState) (id : String)
    → (settled_in (cancel_running now states) id ≡ settled_in states id)
      × (begun_in (cancel_running now states) id ≡ begun_in states id)
unfolding cancel_running lookup
cancel_running-status now [] id = (refl, refl)
cancel_running-status now ((j, state) ∷ rest) id = ground (arith, cancel_running-status now rest id)

-- Cancelling what runs neither starts nor settles a step.
pub mark_running_steps_cancelled-Holds :
    (steps : List Step) (now : ℕ) (s : Scheduler)
    → Holds steps s
    → Holds steps (mark_running_steps_cancelled now s)
unfolding mark_running_steps_cancelled
mark_running_steps_cancelled-Holds steps now s w = record {
  wf = w.wf;
  deps = w.deps;
  named = w.named;
  settled = λ k p. ground (arith, cancel_running-status now s.run.step_states k, w.settled k p);
  met = λ k p. w.met k (ground (arith, cancel_running-status now s.run.step_states k, p));
}
