-- ===== src/Dag/Scheduler/Rounds.antt =====
-- internal/dag/scheduler_run.go: the steps that are open before and after a batch.
use agent_exec_engine.Prelude.{
  ℕ, zero, suc, ◌+◌, ◌≤◌, ◌≡◌, ◌≢◌, refl, String, Bool, false, List, [], ◌∷◌, ◌++◌, Option, none,
  some, Map, lookup, Result, ok, err, arith, Option-cases, Result-cases, Bool-cases, inl, inr,
  length, length_le_of_counts, IsOrder,
}
use agent_exec_engine.Types.{Step, Value}
use agent_exec_engine.Dag.Scheduler.Machine.{
  Failure, World, Scheduler, panic, failure_of, get_state,
}
use agent_exec_engine.Dag.Scheduler.Steps.{start_step, finish_step_success, build_input}
use agent_exec_engine.Dag.Scheduler.Batch.{
  retries_left, collect, attempt, attempts, execute_step, run_one, run_all, execute_batch, complete,
  skip, step_by_id,
}
use agent_exec_engine.Dag.Scheduler.Retries.{is_cut, execute_step-is_cut}
use agent_exec_engine.Dag.Scheduler.Open.{
  open_in, Lowers, Descends, >>=-Descends, Lowers-none, save_checkpoint-Lowers, start_step-open,
  start_step-Lowers, finish_step_success-Lowers, finish_step_failure-Lowers,
}

module _ (world : World) where
  -- An attempt that succeeds closes its step.
  record Closes (s : Scheduler) (r : Result Failure (Option (Bool × Failure)) × Scheduler)
      : Type 0 where
    falls : open_in r.1 ≤ open_in s
    closes : r.0 ≡ ok none → open_in r.1 + 1 ≤ open_in s

  attempt-Closes :
      (step : Step) (input : Map Value) (s : Scheduler) → Closes s (attempt world step input s)
  unfolding attempt
  attempt-Closes step input s =
      let started = start_step-Lowers world step.id s in
      let s1 = (start_step world step.id s).1 in
      let s2 = record s1 { asked = s1.asked + 1 } in
      let r = world.execute s1.asked step input in
      elim (Result-cases (start_step world step.id s).0) [
        | inl (e, refused) ↦ record {
          falls = ground (arith, started.falls, refused);
          closes = λ h. absurd (ground (arith, refused, h));
        }
        | inr (_, begun) ↦
            let (state, there, still) = start_step-open world step.id s begun in
            elim (Option-cases r.error) [
              | inl fine ↦
                  let done =
                    finish_step_success-Lowers world step.id s2 state there still r.output in
                  let after = (finish_step_success world step.id r.output s2).1 in
                  let kept = save_checkpoint-Lowers world after in
                  let closed = done.by tt in
                  record {
                    falls = ground (arith, started.falls, begun, fine, done.falls, kept.falls);
                    closes = λ h. ground (arith, started.falls, begun, fine, closed, kept.falls, h);
                  }
              | inr (bad, wrong) ↦
                  let failed =
                    finish_step_failure-Lowers world step s2 state there still (failure_of bad)
                      r.ctx_err in
                  record {
                    falls = ground (arith, started.falls, begun, wrong, failed.falls);
                    closes = λ h. absurd (ground (arith, begun, wrong, h));
                  }
            ]
      ]

  attempts-falls :
      (fuel : ℕ) (step : Step) (input : Map Value) (s : Scheduler)
      → (open_in (attempts world fuel step input s).1 ≤ open_in s)
        × ((attempts world fuel step input s).0 ≡ ok tt
            → open_in (attempts world fuel step input s).1 + 1 ≤ open_in s)
  unfolding attempts
  attempts-falls zero step input s = (omega arith, λ e. absurd (ground (arith, e)))
  attempts-falls (suc fuel) step input s =
      let w = attempt-Closes step input s in
      let rest = attempts-falls fuel step input (attempt world step input s).1 in
      elim (Result-cases (attempt world step input s).0) [
        | inl (e, failed) ↦ ground (arith, w.falls, failed)
        | inr (outcome, done) ↦ ground (arith, w.falls, w.closes, done, rest)
      ]

  execute_step-Lowers :
      (step : Step) (input : Map Value) (s : Scheduler)
      → Lowers 1 s (execute_step world step input s)
  unfolding execute_step get_state
  execute_step-Lowers step input s =
      let whole = execute_step-is_cut world step input s in
      elim (Bool-cases (world.has_executor step.type)) [
        | inr missing ↦ record {
          whole = whole;
          falls = ground (arith, missing);
          by = λ a e. absurd (ground (arith, missing, e));
        }
        | inl known ↦ elim (Option-cases (lookup step.id s.run.step_states)) [
          | inl absent ↦ record {
            whole = whole;
            falls = ground (arith, known, absent);
            by = λ a e. absurd (ground (arith, known, absent, e));
          }
          | inr (state, there) ↦
              let w =
                attempts-falls (suc (retries_left step.retry state.retry_count)) step input s in
              record {
                whole = whole;
                falls = ground (arith, known, there, w);
                by = λ a e. ground (arith, known, there, w, e);
              }
        ]
      ]

  pub step_by_id-Descends :
      (id : String) (failure : Failure)
      → is_cut {A = Unit {0}} (err failure) ≡ false
      → Descends 0 (step_by_id id failure)
  unfolding step_by_id
  step_by_id-Descends id failure h s =
      Lowers-none s (step_by_id id failure s) (ground arith) (ground arith)

  build_input-Descends : (step : Step) → Descends 0 (build_input world step)
  unfolding build_input
  build_input-Descends step s = Lowers-none s (build_input world step s) refl refl

  pub complete-Descends : (id : String) → Descends 0 (complete id)
  unfolding complete
  complete-Descends id s = Lowers-none s (complete id s) refl refl

  pub skip-Descends : (id : String) → Descends 0 (skip id)
  unfolding skip
  skip-Descends id s = Lowers-none s (skip id s) refl refl

  run_one-Lowers : (id : String) (s : Scheduler) → Lowers 1 s (run_one world id s)
  unfolding run_one
  run_one-Lowers id s =
      >>=-Descends 0 1 (step_by_id id panic) _ (step_by_id-Descends id panic refl)
        (λ step. >>=-Descends 0 1 (build_input world step) _ (build_input-Descends step) (λ input.
          >>=-Descends 1 0 (execute_step world step input) (λ _. complete id)
            (execute_step-Lowers step input) (λ _. complete-Descends id)))
        s

  -- The failures that a batch collected, none of which is a cut.
  abbrev IsWhole : Option Failure → Type 0
  IsWhole none = Unit
  IsWhole (some failure) = is_cut {A = Unit {0}} (err failure) ≡ false

  -- After a failure the batch runs to its end, and fails.
  run_all-failed :
      (ids : List String) (failure : Failure) (ready : List String) (s : Scheduler)
      (a : List String)
      → (run_all world ids (some failure) ready s).0 ≢ ok a
  unfolding run_all
  run_all-failed [] failure ready s a e = cc
  run_all-failed (id ∷ ids) failure ready s a e = elim (Result-cases (run_one world id s).0) [
    | inr (more, done) ↦
        run_all-failed ids failure (ready ++ more) (run_one world id s).1 a
          (ground (arith, done, e))
    | inl (f, failed) ↦
        run_all-failed ids failure ready (run_one world id s).1 a (ground (arith, failed, e))
  ]

  collected :
      (ids : List String) (failure : Option Failure) (ready : List String) (s : Scheduler)
      → (r : Result Failure (List String) × Scheduler) → Lowers 1 s r
      → IsWhole failure
      → ((f : Option Failure) (l : List String)
          → IsWhole f
          → Lowers (length ids) r.1 (run_all world ids f l r.1))
      → Lowers (suc (length ids)) s (collect world r failure ready (run_all world ids))
  collected ids failure ready s (ok more, s') one w rest =
      let v = rest failure (ready ++ more) w in
      record {
        whole = v.whole;
        falls = omega (arith, one.falls, v.falls);
        by = λ a e. omega (arith, one.by more refl, v.by a e);
      }
  collected ids none ready s (err e, s') one w rest =
      let v = rest (some e) ready (ground (arith, one.whole)) in
      record {
        whole = v.whole;
        falls = omega (arith, one.falls, v.falls);
        by = λ a h. absurd (run_all-failed ids e ready s' a h);
      }
  collected ids (some first) ready s (err e, s') one w rest =
      let v = rest (some first) ready w in
      record {
        whole = v.whole;
        falls = omega (arith, one.falls, v.falls);
        by = λ a h. absurd (run_all-failed ids first ready s' a h);
      }

  run_all-Lowers :
      (ids : List String) (failure : Option Failure) (ready : List String) (s : Scheduler)
      → IsWhole failure
      → Lowers (length ids) s (run_all world ids failure ready s)
  unfolding run_all
  run_all-Lowers [] none ready s w = Lowers-none s (ok ready, s) refl refl
  run_all-Lowers [] (some failure) ready s w = Lowers-none s (err failure, s) w refl
  run_all-Lowers (id ∷ ids) failure ready s w =
      collected ids failure ready s (run_one world id s) (run_one-Lowers id s) w
        (λ f l v. run_all-Lowers ids f l (run_one world id s).1 v)

  pub execute_batch-Lowers :
      ((n : ℕ) → IsOrder (world.interleave n))
      → (ids : List String) → Descends (length ids) (execute_batch world ids)
  unfolding execute_batch
  execute_batch-Lowers orders ids s =
      let order = world.interleave s.asked ids in
      let longer =
        length_le_of_counts ids order (λ k. omega (arith, (orders s.asked).counts ids k)) in
      let w = run_all-Lowers order none [] (record s { asked = s.asked + 1 }) tt in
      record { whole = w.whole; falls = w.falls; by = λ a e. omega (arith, longer, w.by a e) }
