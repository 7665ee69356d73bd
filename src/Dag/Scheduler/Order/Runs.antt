-- ===== src/Dag/Scheduler/Order/Runs.antt =====
-- internal/dag/scheduler_run.go: the order of a run's steps, through the runs of one scheduler.
use agent_exec_engine.Prelude.{
  ℕ, zero, suc, ◌+◌, ◌≡◌, String, Bool, true, false, List, ◌++◌, some, if◌then◌else◌, Map, Result,
  ok, err,
}
use agent_exec_engine.Types.{WorkflowStatus, workflow_started, workflow_failed, Value, Step}
use agent_exec_engine.Dag.Graph.{ready_steps}
use agent_exec_engine.Dag.Scheduler.Machine.{
  Failure, out_of_fuel, is_canceled, World, Scheduler, Action, caught, pure, throw, ◌>>◌,
}
use agent_exec_engine.Dag.Scheduler.Steps.{emit, save_checkpoint, mark_running_steps_cancelled}
use agent_exec_engine.Dag.Scheduler.Batch.{set_status}
use agent_exec_engine.Dag.Scheduler.Loop.{
  Next, finished, suspended, again, round, run_loop, run, resume, complete_human_step,
  fail_workflow, ignored,
}
use agent_exec_engine.Dag.Scheduler.Order.{
  is_met, AllMet, Sound, Any, Holds, AllMet-append, and_then-Sound, Sound-after, Sound-pure,
  Sound-throw,
}
use agent_exec_engine.Dag.Scheduler.Order.Graphs.{ready_steps-AllMet}
use agent_exec_engine.Dag.Scheduler.Order.Steps.{
  emit-Sound, save_checkpoint-Sound, mark_running_steps_cancelled-Holds,
}
use agent_exec_engine.Dag.Scheduler.Order.Rounds.{Follows, Ordered, round-Sound}
use agent_exec_engine.Dag.Scheduler.Order.Batches.{Ready}
use agent_exec_engine.Dag.Scheduler.Order.Humans.{complete_human_step-Sound}

module _ (world : World) (steps : List Step) where
  caught-Sound :
      {A : Type 0} (Post : A → Scheduler → Type 0) (s : Scheduler)
      (r : Result Failure A × Scheduler) (handler : Failure → Action A)
      → Sound steps Post s r
      → ((e : Failure) → Sound steps Post r.1 (handler e r.1))
      → Sound steps Post s (caught r handler)
  caught-Sound Post s (ok a, s') handler w go = w
  caught-Sound Post s (err e, s') handler w go = Sound-after steps Post s s' _ w.grows (go e)

  cancelled-Holds :
      (cancels : Bool) (now : ℕ) (s : Scheduler)
      → Holds steps s
      → Holds steps (if cancels then mark_running_steps_cancelled now s else s)
        × ((id : String)
            → is_met s.graph id ≡ true
            → is_met (if cancels then mark_running_steps_cancelled now s else s).graph id ≡ true)
  unfolding mark_running_steps_cancelled
  cancelled-Holds true now s w = (mark_running_steps_cancelled-Holds steps now s w, λ id h. h)
  cancelled-Holds false now s w = (w, λ id h. h)

  fail_workflow-Sound :
      {A : Type 0} (Post : A → Scheduler → Type 0) (failure : Failure) (s : Scheduler)
      → Holds steps s
      → Sound steps Post s (fail_workflow world {A = A} failure s)
  unfolding fail_workflow
  fail_workflow-Sound {A} Post failure s w =
      let s1 = record s { asked = s.asked + 1 } in
      let (w2, grows) = cancelled-Holds (is_canceled failure) (world.now s.asked) s1 w in
      let s2 =
        if is_canceled failure then mark_running_steps_cancelled (world.now s.asked) s1 else s1 in
      let s3 = record s2 {
        asked = s2.asked + 1;
        run = record (s2.run) {
          status = WorkflowStatus.failed;
          completed_at = some (world.now s2.asked);
        };
      } in
      let told = emit-Sound world steps workflow_failed "" (world.error_text failure) s3 w2 in
      let r3 = emit world workflow_failed "" (world.error_text failure) s3 in
      let kept = save_checkpoint-Sound world steps r3.1 told.inv in
      let r4 = ignored (save_checkpoint world) r3.1 in
      let tried : Sound steps Any r3.1 r4 =
        caught-Sound Any r3.1 (save_checkpoint world r3.1) (λ e s'. (ok tt, s')) kept
          (λ e. Sound-pure steps Any tt (save_checkpoint world r3.1).1 kept.inv tt) in
      Sound-after steps Post s s3 _ grows (
        and_then-Sound steps Any Post s3 r3 (λ _. ignored (save_checkpoint world) >> throw failure)
          told
          (λ a e p.
            and_then-Sound steps Any Post r3.1 r4 (λ _. throw failure) tried
              (λ b f q. Sound-throw steps Post failure r4.1 tried.inv)))

  next-Sound :
      (next : Next) (fuel : ℕ) (s : Scheduler)
      → Holds steps s
      → Follows next s
      → ((ready : List String)
          → AllMet s.graph ready
          → Sound steps Any s (run_loop world fuel ready s))
      → Sound steps Any s (
          (elim next as (λ _. Action (Unit {0})) [
            | finished ↦ pure tt
            | suspended ↦ pure tt
            | again ready ↦ run_loop world fuel ready
          ])
            s)
  next-Sound finished fuel s w v ih = Sound-pure steps Any tt s w tt
  next-Sound suspended fuel s w v ih = Sound-pure steps Any tt s w tt
  next-Sound (again ready) fuel s w v ih = ih ready v

  run_loop-Sound :
      Ordered world
      → (fuel : ℕ) (ready : List String) (s : Scheduler) → Holds steps s
      → AllMet s.graph ready
      → Sound steps Any s (run_loop world fuel ready s)
  unfolding run_loop
  run_loop-Sound orders zero ready s w v = Sound-throw steps Any out_of_fuel s w
  run_loop-Sound orders (suc fuel) ready s w v =
      let one = round-Sound world steps orders ready s w v in
      let r = caught (round world ready s) (fail_workflow world {A = Next}) in
      let met : Sound steps Follows s r =
        caught-Sound Follows s (round world ready s) (fail_workflow world {A = Next}) one
          (λ e. fail_workflow-Sound Follows e (round world ready s).1 one.inv) in
      and_then-Sound steps Follows Any s r _ met (λ next e p.
        next-Sound next fuel r.1 met.inv p
          (λ ready' v'. run_loop-Sound orders fuel ready' r.1 met.inv v'))

  pub run-Sound :
      Ordered world
      → (fuel : ℕ) (s : Scheduler) → Holds steps s
      → Sound steps Any s (run world fuel s)
  unfolding run
  run-Sound orders fuel s w =
      let s1 = set_status WorkflowStatus.running s in
      let told = emit-Sound world steps workflow_started "" "" s1 w in
      let s2 = (emit world workflow_started "" "" s1).1 in
      Sound-after steps Any s s1 _ (λ id p. p)
        (and_then-Sound steps Any Any s1 (emit world workflow_started "" "" s1) _ told (λ a e p.
          run_loop-Sound orders fuel (ready_steps world.range s2.graph) s2 told.inv
            (ready_steps-AllMet world.range orders.ranges s2.graph told.inv.wf)))

  pub resume-Sound :
      Ordered world
      → (fuel : ℕ) (id : String) (input : Map Value) (s : Scheduler) → Holds steps s
      → Sound steps Any s (resume world fuel id input s)
  unfolding resume
  resume-Sound orders fuel id input s w =
      let done = complete_human_step-Sound world steps id input s w in
      let r = complete_human_step world id input s in
      let s1 = set_status WorkflowStatus.running r.1 in
      and_then-Sound steps Ready Any s r _ done (λ ready e met.
        Sound-after steps Any r.1 s1 _ (λ k p. p)
          (run_loop-Sound orders fuel (ready_steps world.range s1.graph ++ ready) s1 done.inv (
            AllMet-append s1.graph (ready_steps world.range s1.graph) ready
              (ready_steps-AllMet world.range orders.ranges s1.graph done.inv.wf)
              (record { each = met.each }))))
