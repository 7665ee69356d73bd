-- ===== src/Dag/Scheduler/Finishes.antt =====
-- internal/dag/scheduler_run.go: what `Run` and `Resume` leave when they return no error.
use agent_exec_engine.Prelude.{
  length, ℕ, zero, suc, ◌≡◌, ◌≢◌, if◌then◌else◌, ◌++◌, refl, String, true, false, List, [], ◌∷◌,
  some, Map, Result, ok, err, ◌+◌, subst, ok-injective, arith, Option-cases, Bool-cases, inl, inr,
  eqb,
}
use agent_exec_engine.Types.{
  StepState, WorkflowStatus, paused, completed, workflow_completed, workflow_started,
  workflow_failed, Value,
}
use agent_exec_engine.Dag.Graph.{step_count, ready_steps}
use agent_exec_engine.Dag.Scheduler.Machine.{
  Failure, World, Scheduler, Action, caught, ◌>>◌, pure, throw, is_canceled,
}
use agent_exec_engine.Dag.Scheduler.Steps.{
  emit, save_checkpoint, completed_step_count, count_completed, dedupe_strings,
  mark_running_steps_cancelled,
}
use agent_exec_engine.Dag.Scheduler.Batch.{set_status, execute_batch}
use agent_exec_engine.Dag.Scheduler.Loop.{
  Plan, Next, finished, suspended, again, is_empty, process, follow, work, round, run_loop, run,
  resume, complete_human_step, complete_workflow, fail_workflow, or_ready, ignored,
  process_ready_steps,
}
use agent_exec_engine.Dag.Scheduler.Open.{is_settled}
use agent_exec_engine.Dag.Scheduler.Order.{Any}
use agent_exec_engine.Dag.Scheduler.Returns.{
  Yields, and_then-Yields, Stopped, emit-run, process-Stopped,
}

-- The steps that succeeded or were skipped.
abbrev settled : Map StepState → List String
settled [] = []
settled ((id, state) ∷ rest) = if is_settled state.status then id ∷ settled rest else settled rest

-- The run is paused, or as many steps succeeded or were skipped as the graph has.
pub data IsOver (s : Scheduler) : Type 0 where
  waits : s.run.status ≡ paused → IsOver s
  ends :
      s.run.status ≡ completed
      → length (settled s.run.step_states) ≡ length s.graph.steps
      → IsOver s

abbrev Settles : Next → Scheduler → Type 0
Settles (again ready) s = Unit
Settles finished s = IsOver s
Settles suspended s = IsOver s

count_completed-settled :
    (states : Map StepState) → count_completed states ≡ length (settled states)
unfolding count_completed
count_completed-settled [] = refl
count_completed-settled ((id, state) ∷ rest) = ground (arith, count_completed-settled rest)

module _ (world : World) where
  follow-Settles :
      (plan : Plan) (s : Scheduler) → Stopped plan s → Yields Settles (follow world plan s)
  unfolding follow
  follow-Settles plan s h = elim (Bool-cases plan.paused) [
    | inl stopped ↦
        rw stopped (λ next e. subst (λ n. Settles n s) (ok-injective e) (waits (h stopped)))
    | inr goes ↦ elim (Bool-cases (is_empty plan.async)) [
      | inl nothing ↦ rw (goes, nothing) (λ next e. subst (λ n. Settles n s) (ok-injective e) tt)
      | inr some_left ↦
          let r = execute_batch world plan.async s in
          rw (goes, some_left)
            (and_then-Yields Any Settles r
              (λ more. pure (again (dedupe_strings (plan.inline ++ more)))) (λ _ _. tt)
              (λ more _ next e. subst (λ n. Settles n r.1) (ok-injective e) tt))
    ]
  ]

  work-Settles : (ready : List String) (s : Scheduler) → Yields Settles (work world ready s)
  unfolding work process_ready_steps
  work-Settles ready s = elim (Bool-cases (is_empty ready)) [
    | inl nothing ↦ rw nothing (λ next e. absurd (ground (arith, e)))
    | inr some_left ↦
        let ids = dedupe_strings ready in
        let fresh : Plan = record { async = []; inline = []; paused = false } in
        let r = process world ids fresh s in
        rw some_left (
          and_then-Yields Stopped Settles r (follow world) (process-Stopped world ids fresh s refl)
            (λ plan stopped. follow-Settles plan r.1 stopped))
  ]

  complete_workflow-IsOver :
      (s : Scheduler)
      → eqb (completed_step_count s) (step_count s.graph) ≡ true
      → IsOver (complete_workflow world s).1
  unfolding complete_workflow completed_step_count step_count
  complete_workflow-IsOver s all =
      let s1 = record s {
        asked = s.asked + 1;
        run = record (s.run) { status = completed; completed_at = some (world.now s.asked) };
      } in
      let (told, same) = emit-run world workflow_completed "" "" s1 in
      ends (ground (arith, told))
        (ground (arith, told, same, all, count_completed-settled s.run.step_states))

  round-Settles : (ready : List String) (s : Scheduler) → Yields Settles (round world ready s)
  unfolding round
  round-Settles ready s =
      let s1 = record s { asked = s.asked + 1 } in
      elim (Option-cases (world.run_ctx_err s.asked)) [
        | inr (e, ended) ↦ rw ended (λ next h. absurd (ground (arith, h)))
        | inl goes ↦ elim (Bool-cases (eqb (completed_step_count s1) (step_count s1.graph))) [
          | inl all ↦
              rw (goes, all)
                (and_then-Yields (λ _ s'. IsOver s') Settles (complete_workflow world s1)
                  (λ _. pure finished) (λ _ _. complete_workflow-IsOver s1 all)
                  (λ _ over next e.
                    subst (λ n. Settles n (complete_workflow world s1).1) (ok-injective e) over))
          | inr left ↦ rw (goes, left) (work-Settles (or_ready world ready s1) s1)
        ]
      ]

  fail_workflow-fails :
      {A : Type 0} (failure : Failure) (s : Scheduler) (a : A)
      → (fail_workflow world {A = A} failure s).0 ≢ ok a
  unfolding fail_workflow emit
  fail_workflow-fails {A} failure s a e =
      let s1 = record s { asked = s.asked + 1 } in
      let s2 =
        if is_canceled failure then mark_running_steps_cancelled (world.now s.asked) s1 else s1 in
      let s3 = record s2 {
        asked = s2.asked + 1;
        run = record (s2.run) {
          status = WorkflowStatus.failed;
          completed_at = some (world.now s2.asked);
        };
      } in
      let r = emit world workflow_failed "" (world.error_text failure) s3 in
      and_then-Yields Any (λ _ _. ⊥) r (λ _. ignored (save_checkpoint world) >> throw failure)
        (λ _ _. tt)
        (λ _ _.
          and_then-Yields Any (λ _ _. ⊥) (ignored (save_checkpoint world) r.1)
            (λ _. throw {A = A} failure) (λ _ _. tt) (λ _ _ b h. ground (arith, h)))
        a e

  caught-Settles :
      (r : Result Failure Next × Scheduler)
      → Yields Settles r
      → Yields Settles (caught r (fail_workflow world {A = Next}))
  caught-Settles (ok a, s) w = w
  caught-Settles (err failure, s) w = λ next e. absurd (fail_workflow-fails failure s next e)

  next-IsOver :
      (next : Next) (fuel : ℕ) (s : Scheduler)
      → Settles next s
      → ((ready : List String) → Yields (λ _. IsOver) (run_loop world fuel ready s))
      → Yields
          (λ _. IsOver)
          ((elim next as (λ _. Action (Unit {0})) [
            | finished ↦ pure tt
            | suspended ↦ pure tt
            | again ready ↦ run_loop world fuel ready
          ])
            s)
  next-IsOver finished fuel s over ih = λ _ _. over
  next-IsOver suspended fuel s over ih = λ _ _. over
  next-IsOver (again ready) fuel s over ih = ih ready

  run_loop-IsOver :
      (fuel : ℕ) (ready : List String) (s : Scheduler)
      → Yields (λ _. IsOver) (run_loop world fuel ready s)
  unfolding run_loop
  run_loop-IsOver zero ready s = λ a e. absurd (ground (arith, e))
  run_loop-IsOver (suc fuel) ready s =
      let r = caught (round world ready s) (fail_workflow world {A = Next}) in
      and_then-Yields Settles (λ _. IsOver) r _
        (caught-Settles (round world ready s) (round-Settles ready s))
        (λ next over. next-IsOver next fuel r.1 over (λ ready'. run_loop-IsOver fuel ready' r.1))

-- A run that returns no error leaves the workflow's run either paused, or completed with as many
-- steps that succeeded or were skipped as the graph has, whatever the executors, the contexts and
-- the stores answer.
pub run-IsOver :
    (world : World) (fuel : ℕ) (s : Scheduler)
    → (run world fuel s).0 ≡ ok tt
    → IsOver (run world fuel s).1
unfolding run
run-IsOver world fuel s e =
    let s1 = set_status WorkflowStatus.running s in
    let s2 = (emit world workflow_started "" "" s1).1 in
    and_then-Yields Any (λ _. IsOver) (emit world workflow_started "" "" s1) _ (λ _ _. tt)
      (λ _ _. run_loop-IsOver world fuel (ready_steps world.range s2.graph) s2) tt e

-- The same of a resumption.
resume-IsOver :
    (world : World) (fuel : ℕ) (id : String) (input : Map Value) (s : Scheduler)
    → (resume world fuel id input s).0 ≡ ok tt
    → IsOver (resume world fuel id input s).1
unfolding resume
resume-IsOver world fuel id input s e =
    let r = complete_human_step world id input s in
    let s1 = set_status WorkflowStatus.running r.1 in
    and_then-Yields Any (λ _. IsOver) r _ (λ _ _. tt)
      (λ ready _. run_loop-IsOver world fuel (ready_steps world.range s1.graph ++ ready) s1) tt e
