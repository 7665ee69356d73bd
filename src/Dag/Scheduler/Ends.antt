-- ===== src/Dag/Scheduler/Ends.antt =====
-- internal/dag/scheduler_run.go: the loop of a run, and the fuel it needs.
use agent_exec_engine.Prelude.{
  ℕ, zero, suc, ◌+◌, ◌≤◌, ◌<◌, ◌≡◌, ◌⊎◌, refl, String, Bool, true, false, List, [], ◌∷◌, Option,
  none, some, if◌then◌else◌, Result, ok, err, arith, Result-cases, Bool-cases, inl, inr, eqb,
  length, IsOrder,
}
use agent_exec_engine.Types.{WorkflowStatus, workflow_started, Workflow}
use agent_exec_engine.Dag.Scheduler.Machine.{
  CtxError, caught, Failure, World, Scheduler, Action, and_then, ◌>>◌, pure,
}
use agent_exec_engine.Dag.Graph.{step_count, ready_steps}
use agent_exec_engine.Dag.Scheduler.Steps.{emit, completed_step_count, dedupe_from}
use agent_exec_engine.Dag.Scheduler.Batch.{new_scheduler, set_status, execute_batch}
use agent_exec_engine.Dag.Scheduler.Loop.{
  Plan, Next, finished, suspended, again, process, process_ready_steps, follow, work, run,
  check_context, round, or_ready, run_loop, fail_workflow, complete_workflow,
}
use agent_exec_engine.Dag.Scheduler.Retries.{is_cut, and_then-is_cut}
use agent_exec_engine.Dag.Scheduler.Open.{emit-Lowers, open_in, Lowers}
use agent_exec_engine.Dag.Scheduler.Rounds.{execute_batch-Lowers}
use agent_exec_engine.Dag.Scheduler.Plans.{process-Plans}
use agent_exec_engine.Dag.Scheduler.Starts.{new_scheduler-open}

List-cases : (xs : List String) → (xs ≡ []) ⊎ ((y : String) × (ys : List String) × (xs ≡ y ∷ ys))
List-cases [] = inl refl
List-cases (y ∷ ys) = inr (y, ys, refl)

module _ (world : World) where
  -- What a round leaves when the loop goes on: a step less is open.
  record Rounds (s : Scheduler) (r : Result Failure Next × Scheduler) : Type 0 where
    whole : is_cut r.0 ≡ false
    falls : open_in r.1 ≤ open_in s
    by : (ready : List String) → r.0 ≡ ok (again ready) → open_in r.1 + 1 ≤ open_in s

  batch-Rounds :
      (plan : Plan) (y : String) (ys : List String) (s s1 : Scheduler)
      → plan.paused ≡ false
      → plan.async ≡ y ∷ ys
      → 1 + open_in s1 ≤ length plan.async + open_in s
      → open_in s1 ≤ open_in s
      → Lowers (length plan.async) s1 (execute_batch world plan.async s1)
      → Rounds s (follow world plan s1)
  unfolding follow
  batch-Rounds plan y ys s s1 goes some_left strict below w =
      elim (Result-cases (execute_batch world plan.async s1).0) [
        | inl (e, failed) ↦ record {
          whole = ground (arith, goes, some_left, failed, w.whole);
          falls = ground (arith, goes, some_left, failed, below, w.falls);
          by = λ r h. absurd (ground (arith, goes, some_left, failed, h));
        }
        | inr (a, done) ↦ record {
          whole = ground (arith, goes, some_left, done);
          falls = ground (arith, goes, some_left, done, below, w.falls);
          by = λ r h. ground (arith, goes, some_left, done, strict, w.by a done);
        }
      ]

  follow-Rounds :
      ((n : ℕ) → IsOrder (world.interleave n))
      → (plan : Plan) (s s1 : Scheduler) → open_in s1 ≤ open_in s
      → (plan.paused ≡ true) ⊎ (1 + open_in s1 ≤ length plan.async + open_in s)
      → Rounds s (follow world plan s1)
  unfolding follow
  follow-Rounds orders plan s s1 below planned =
      let w = execute_batch-Lowers world orders plan.async s1 in
      elim (Bool-cases plan.paused) [
        | inl waits ↦ record {
          whole = ground (arith, waits);
          falls = ground (arith, waits, below);
          by = λ r e. absurd (ground (arith, waits, e));
        }
        | inr goes ↦
            let strict : 1 + open_in s1 ≤ length plan.async + open_in s =
              ground (arith, goes, planned) in
            elim (List-cases plan.async) [
              | inl none_left ↦ record {
                whole = ground (arith, goes, none_left);
                falls = ground (arith, goes, none_left, below);
                by = λ r e. ground (arith, goes, none_left, strict);
              }
              | inr (y, ys, some_left) ↦ batch-Rounds plan y ys s s1 goes some_left strict below w
            ]
      ]

  work-Rounds :
      ((n : ℕ) → IsOrder (world.interleave n))
      → (ready : List String) (s : Scheduler) → Rounds s (work world ready s)
  unfolding work process_ready_steps
  work-Rounds orders [] s = record {
    whole = refl;
    falls = omega arith;
    by = λ r e. absurd (ground (arith, e));
  }
  work-Rounds orders (y ∷ ys) s =
      let ids = y ∷ dedupe_from (y ∷ []) ys in
      let plan : Plan = record { async = []; inline = []; paused = false } in
      let w = process-Plans world ids plan s in
      let s1 = (process world ids plan s).1 in
      elim (Result-cases (process world ids plan s).0) [
        | inl (e, failed) ↦ record {
          whole = ground (arith, failed, w.whole);
          falls = ground (arith, failed, w.falls);
          by = λ r h. absurd (ground (arith, failed, h));
        }
        | inr (p, done) ↦
            let f = follow-Rounds orders p s s1 w.falls (ground (arith, w.by p done)) in
            record {
              whole = ground (arith, done, f.whole);
              falls = ground (arith, done, f.falls);
              by = λ r h. ground (arith, done, f.by r, h);
            }
      ]

  complete_workflow-finishes :
      (s : Scheduler)
      → ((complete_workflow world s).0 ≡ ok tt)
        × (open_in (complete_workflow world s).1 ≡ open_in s)
  unfolding complete_workflow emit
  complete_workflow-finishes s = ground arith

  fail_workflow-fails :
      {A : Type 0} (failure : Failure) (s : Scheduler)
      → (fail_workflow world {A = A} failure s).0 ≡ err failure
  unfolding fail_workflow emit
  fail_workflow-fails failure s = ground arith

  choose-Rounds :
      (complete : Bool) (rest : Action Next) (s s1 : Scheduler)
      → open_in s1 ≡ open_in s
      → Rounds s (rest s1)
      → Rounds s ((if complete then (complete_workflow world >> pure finished) else rest) s1)
  choose-Rounds false rest s s1 same w = w
  choose-Rounds true rest s s1 same w =
      let done = complete_workflow-finishes s1 in
      record {
        whole = ground (arith, done);
        falls = ground (arith, done, same);
        by = λ r h. absurd (ground (arith, done, h));
      }

  check_context-Rounds :
      (e : Option CtxError) (rest : Action Next) (s s1 : Scheduler)
      → open_in s1 ≡ open_in s
      → Rounds s (rest s1)
      → Rounds s ((check_context world e >> rest) s1)
  check_context-Rounds none rest s s1 same w = w
  check_context-Rounds (some e) rest s s1 same w = record {
    whole = refl;
    falls = omega (arith, same);
    by = λ r h. absurd (ground (arith, h));
  }

  round-Rounds :
      ((n : ℕ) → IsOrder (world.interleave n))
      → (ready : List String) (s : Scheduler) → Rounds s (round world ready s)
  unfolding round
  round-Rounds orders ready s =
      let s1 = record s { asked = s.asked + 1 } in
      let rest = work world (or_ready world ready s1) in
      let w = work-Rounds orders (or_ready world ready s1) s1 in
      let test = eqb (completed_step_count s1) (step_count s1.graph) in
      check_context-Rounds (world.run_ctx_err s.asked)
        (λ s'.
          (if eqb (completed_step_count s') (step_count s'.graph)
              then (complete_workflow world >> pure finished)
              else work world (or_ready world ready s'))
            s')
        s s1 refl
        (choose-Rounds test rest s s1 refl (record { whole = w.whole; falls = w.falls; by = w.by }))

  -- What follows a round: the next one has the fuel it needs.
  after_round :
      (fuel : ℕ) (s : Scheduler) (r : Result Failure Next × Scheduler)
      → Rounds s r
      → open_in s < suc fuel
      → ((ready : List String) (s' : Scheduler)
          → open_in s' < fuel
          → is_cut (run_loop world fuel ready s').0 ≡ false)
      → is_cut
          (and_then (caught r (fail_workflow world {A = Next})) (λ next.
            elim next as (λ _. Action (Unit {0})) [
              | finished ↦ pure tt
              | suspended ↦ pure tt
              | again ready ↦ run_loop world fuel ready
            ])).0
        ≡ false
  after_round fuel s (ok finished, s') w h ih = refl
  after_round fuel s (ok suspended, s') w h ih = refl
  after_round fuel s (ok (again ready), s') w h ih = ih ready s' (omega (arith, h, w.by ready refl))
  after_round fuel s (err e, s') w h ih =
      ground (arith, w.whole, fail_workflow-fails {A = Next} e s')

  run_loop-is_cut :
      ((n : ℕ) → IsOrder (world.interleave n))
      → (fuel : ℕ) (ready : List String) (s : Scheduler) → open_in s < fuel
      → is_cut (run_loop world fuel ready s).0 ≡ false
  unfolding run_loop
  run_loop-is_cut orders zero ready s h = absurd (omega arith)
  run_loop-is_cut orders (suc fuel) ready s h =
      after_round fuel s (round world ready s) (round-Rounds orders ready s) h
        (run_loop-is_cut orders fuel)

-- A run of a new scheduler always ends, as a result or as an error of its own: as many rounds as
-- the workflow has steps, and one more, are enough, whatever the executors, the clock, the contexts
-- and the stores answer, for any order in which the goroutines of a batch run.
pub run-is_cut :
    (world : World)
    → ((n : ℕ) → IsOrder (world.interleave n))
    → (run_id : String) (started_at : ℕ) (wf : Workflow) (s : Scheduler)
    → new_scheduler world run_id started_at wf ≡ ok s
    → (fuel : ℕ) → length wf.steps < fuel
    → is_cut (run world fuel s).0 ≡ false
unfolding run
run-is_cut world orders run_id started_at wf s e fuel h =
    let s1 = set_status WorkflowStatus.running s in
    let w = emit-Lowers world workflow_started "" "" s1 in
    let s2 = (emit world workflow_started "" "" s1).1 in
    let opened = new_scheduler-open world run_id started_at wf s e in
    and_then-is_cut (emit world workflow_started "" "" s1) _ w.whole (λ _ _.
      run_loop-is_cut world orders fuel (ready_steps world.range s2.graph) s2
        (omega (arith, w.falls, opened, h)))
