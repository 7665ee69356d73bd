-- ===== src/Dag/Scheduler/Waiting.antt =====
-- internal/dag/scheduler_run.go: which operations leave the step that a run waits for as it is.
use agent_exec_engine.Prelude.{
  ℕ, zero, suc, ◌+◌, ◌≡◌, refl, ◌∙◌, String, Bool, true, false, List, [], ◌∷◌, ◌++◌, Option, none,
  some, Map, lookup, Result, ok, err, arith, Option-cases, Result-cases, Bool-cases, inl, inr,
}
use agent_exec_engine.Types.{Step, EventType, Value}
use agent_exec_engine.Dag.Scheduler.Machine.{
  CtxError, Failure, panic, World, Scheduler, Action, and_then, ◌>>=◌, pure, failure_of, get_state,
  put_state,
}
use agent_exec_engine.Dag.Scheduler.Steps.{
  emit, start_step, finish_step_success, finish_step_skipped, finish_step_failure, save_checkpoint,
  build_input,
}
use agent_exec_engine.Dag.Scheduler.Batch.{
  retries_left, collect, attempt, attempts, execute_step, run_one, run_all, execute_batch, complete,
  skip, step_by_id, evaluate_condition, settle_branch, handle_branch_step,
}

-- The run waits for the step that it waited for before.
pub record Kept {A : Type 0} (s : Scheduler) (r : Result Failure A × Scheduler) : Type 0 where
  pub same : r.1.paused_step_id ≡ s.paused_step_id

abbrev pub Keeps : {A : Type 0} → Action A → Type 0
Keeps m = (s : Scheduler) → Kept s (m s)

and_then-Kept :
    {A B : Type 0} (s : Scheduler) (r : Result Failure A × Scheduler) (f : A → Action B)
    → Kept s r
    → ((a : A) → Keeps (f a))
    → Kept s (and_then r f)
and_then-Kept s (ok a, s') f w keeps = record { same = (keeps a s').same ∙ w.same }
and_then-Kept s (err e, s') f w keeps = record { same = w.same }

>>=-Keeps :
    {A B : Type 0} (m : Action A) (f : A → Action B)
    → Keeps m
    → ((a : A) → Keeps (f a))
    → Keeps (m >>= f)
>>=-Keeps m f first rest s = and_then-Kept s (m s) f (first s) rest

step_by_id-Keeps : (id : String) (failure : Failure) → Keeps (step_by_id id failure)
unfolding step_by_id
step_by_id-Keeps id failure s = record { same = ground arith }

complete-Keeps : (id : String) → Keeps (complete id)
unfolding complete
complete-Keeps id s = record { same = refl }

skip-Keeps : (id : String) → Keeps (skip id)
unfolding skip
skip-Keeps id s = record { same = refl }

module _ (world : World) where
  pub emit-Keeps : (type : EventType) (id message : String) → Keeps (emit world type id message)
  unfolding emit
  emit-Keeps type id message s = record { same = ground arith }

  pub save_checkpoint-Keeps : Keeps (save_checkpoint world)
  unfolding save_checkpoint emit
  save_checkpoint-Keeps s = record { same = ground arith }

  start_step-Keeps : (id : String) → Keeps (start_step world id)
  unfolding start_step get_state put_state emit
  start_step-Keeps id s = record { same = ground arith }

  finish_step_success-Keeps : (id output : String) → Keeps (finish_step_success world id output)
  unfolding finish_step_success get_state put_state emit
  finish_step_success-Keeps id output s = record { same = ground arith }

  finish_step_skipped-Keeps : (id : String) → Keeps (finish_step_skipped world id)
  unfolding finish_step_skipped get_state put_state emit
  finish_step_skipped-Keeps id s = record { same = ground arith }

  finish_step_failure-Keeps :
      (id : String) (step : Step) (failure : Failure) (ctx_err : Option CtxError)
      → Keeps (finish_step_failure world id step failure ctx_err)
  unfolding finish_step_failure get_state put_state emit
  finish_step_failure-Keeps id step failure ctx_err s = record { same = ground arith }

  build_input-Keeps : (step : Step) → Keeps (build_input world step)
  unfolding build_input
  build_input-Keeps step s = record { same = refl }

  attempt-Keeps : (step : Step) (input : Map Value) → Keeps (attempt world step input)
  unfolding attempt
  attempt-Keeps step input =
      >>=-Keeps (start_step world step.id) _ (start_step-Keeps step.id) (λ _ s.
        let s1 = record s { asked = s.asked + 1 } in
        let r = world.execute s.asked step input in
        elim (Option-cases r.error) [
          | inl fine ↦
              let done = finish_step_success world step.id r.output s1 in
              let w = finish_step_success-Keeps step.id r.output s1 in
              let v = save_checkpoint-Keeps done.1 in
              record { same = ground (arith, fine, w.same, v.same) }
          | inr (bad, failed) ↦
              let w = finish_step_failure-Keeps step.id step (failure_of bad) r.ctx_err s1 in
              record { same = ground (arith, failed, w.same) }
        ])

  attempts-Keeps :
      (fuel : ℕ) (step : Step) (input : Map Value) → Keeps (attempts world fuel step input)
  unfolding attempts
  attempts-Keeps zero step input s = record { same = refl }
  attempts-Keeps (suc fuel) step input s =
      let w = attempt-Keeps step input s in
      let rest = attempts-Keeps fuel step input (attempt world step input s).1 in
      elim (Result-cases (attempt world step input s).0) [
        | inl (e, failed) ↦ record { same = ground (arith, w.same, failed) }
        | inr (outcome, done) ↦ record { same = ground (arith, w.same, done, rest.same) }
      ]

  execute_step-Keeps : (step : Step) (input : Map Value) → Keeps (execute_step world step input)
  unfolding execute_step get_state
  execute_step-Keeps step input s = elim (Bool-cases (world.has_executor step.type)) [
    | inr missing ↦ record { same = ground (arith, missing) }
    | inl known ↦ elim (Option-cases (lookup step.id s.run.step_states)) [
      | inl absent ↦ record { same = ground (arith, known, absent) }
      | inr (state, there) ↦
          let w = attempts-Keeps (suc (retries_left step.retry state.retry_count)) step input s in
          record { same = ground (arith, known, there, w.same) }
    ]
  ]

  run_one-Keeps : (id : String) → Keeps (run_one world id)
  unfolding run_one
  run_one-Keeps id = >>=-Keeps (step_by_id id panic) _ (step_by_id-Keeps id panic) (λ step.
      >>=-Keeps (build_input world step) _ (build_input-Keeps step) (λ input.
        >>=-Keeps (execute_step world step input) _ (execute_step-Keeps step input)
          (λ _. complete-Keeps id)))

  collect-Kept :
      (s : Scheduler) (r : Result Failure (List String) × Scheduler) (failure : Option Failure)
      (ready : List String) (rest : Option Failure → List String → Action (List String))
      → Kept s r
      → ((f : Option Failure) (l : List String) → Keeps (rest f l))
      → Kept s (collect world r failure ready rest)
  collect-Kept s (ok more, s') failure ready rest w keeps = record {
    same = (keeps failure (ready ++ more) s').same ∙ w.same;
  }
  collect-Kept s (err e, s') none ready rest w keeps = record {
    same = (keeps (some e) ready s').same ∙ w.same;
  }
  collect-Kept s (err e, s') (some first) ready rest w keeps = record {
    same = (keeps (some first) ready s').same ∙ w.same;
  }

  run_all-Keeps :
      (ids : List String) (failure : Option Failure) (ready : List String)
      → Keeps (run_all world ids failure ready)
  unfolding run_all
  run_all-Keeps [] none ready s = record { same = refl }
  run_all-Keeps [] (some failure) ready s = record { same = refl }
  run_all-Keeps (id ∷ ids) failure ready s =
      collect-Kept s (run_one world id s) failure ready (run_all world ids) (run_one-Keeps id s)
        (run_all-Keeps ids)

  pub execute_batch-Keeps : (ids : List String) → Keeps (execute_batch world ids)
  unfolding execute_batch
  execute_batch-Keeps ids s =
      let w =
        run_all-Keeps (world.interleave s.asked ids) none [] (record s { asked = s.asked + 1 }) in
      record { same = w.same }

  evaluate_condition-Keeps :
      (id : String) (env : Map Value) → Keeps (evaluate_condition world id env)
  unfolding evaluate_condition step_by_id
  evaluate_condition-Keeps id env s = record { same = ground arith }

  settle_branch-Keeps : (held : Bool) (id : String) → Keeps (settle_branch world held id)
  unfolding settle_branch
  settle_branch-Keeps true id =
      >>=-Keeps (finish_step_success world id "{\"matched\":true}") (λ _. complete id)
        (finish_step_success-Keeps id "{\"matched\":true}") (λ _. complete-Keeps id)
  settle_branch-Keeps false id =
      >>=-Keeps (finish_step_skipped world id) (λ _. skip id) (finish_step_skipped-Keeps id)
        (λ _. skip-Keeps id)

  pub handle_branch_step-Keeps : (step : Step) → Keeps (handle_branch_step world step)
  unfolding handle_branch_step
  handle_branch_step-Keeps step =
      >>=-Keeps (start_step world step.id) _ (start_step-Keeps step.id) (λ _.
        >>=-Keeps (build_input world step) _ (build_input-Keeps step) (λ env.
          >>=-Keeps (evaluate_condition world step.id env) _ (evaluate_condition-Keeps step.id env)
            (λ held.
              >>=-Keeps (settle_branch world held step.id) _ (settle_branch-Keeps held step.id)
                (λ ready.
                  >>=-Keeps (save_checkpoint world) (λ _. pure ready) save_checkpoint-Keeps
                    (λ _ s. record { same = refl })))))
