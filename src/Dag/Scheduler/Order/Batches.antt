-- ===== src/Dag/Scheduler/Order/Batches.antt =====
-- internal/dag/scheduler_run.go: the order of a run's steps, through a batch and a branch step.
use agent_exec_engine.Prelude.{
  ℕ, ◌+◌, ◌≡◌, refl, subst, ok-injective, String, Bool, true, false, List, [], ◌∷◌, ◌++◌, Option,
  none, some, IsOrder, Map, lookup, Result, ok, err, arith, Option-cases, inl, inr,
}
use agent_exec_engine.Types.{Step, Value}
use agent_exec_engine.Dag.Scheduler.Machine.{Failure, World, Scheduler, Action, panic, pure, ◌>>◌}
use agent_exec_engine.Dag.Scheduler.Steps.{
  start_step, finish_step_success, finish_step_skipped, save_checkpoint, build_input,
  build_input_from,
}
use agent_exec_engine.Dag.Scheduler.Batch.{
  collect, execute_step, run_one, run_all, execute_batch, complete, skip, step_by_id,
  evaluate_condition, settle_branch, handle_branch_step,
}
use agent_exec_engine.Dag.Scheduler.Order.{
  is_met, settled_in, AllMet, Sound, Any, Holds, AllMet-append, AllMet-nil, AllMet-cons,
  AllMet-grows, and_then-Sound, Sound-frame, Sound-after,
}
use agent_exec_engine.Dag.Scheduler.Order.Graphs.{complete-Sound, skip-Sound}
use agent_exec_engine.Dag.Scheduler.Order.Steps.{
  Runs, save_checkpoint-Sound, start_step-Sound, finish_step_success-Sound,
  finish_step_skipped-Sound,
}
use agent_exec_engine.Dag.Scheduler.Order.Attempts.{execute_step-Sound}

-- The ready steps that an action returns depend on resolved steps only.
abbrev pub Ready : List String → Scheduler → Type 0
Ready ready s = AllMet s.graph ready

module _ (world : World) (steps : List Step) where
  pub step_by_id-Sound :
      (id : String) (failure : Failure) (s : Scheduler)
      → Holds steps s
      → Sound steps (λ step _. step.id ≡ id) s (step_by_id id failure s)
  unfolding step_by_id
  step_by_id-Sound id failure s w = elim (Option-cases (lookup id s.graph.steps)) [
    | inl absent ↦
        Sound-frame steps _ s (step_by_id id failure s) (ground arith) (ground arith) w
          (λ a e. absurd (ground (arith, absent, e)))
    | inr (step, there) ↦
        Sound-frame steps _ s (step_by_id id failure s) (ground arith) (ground arith) w
          (λ a e. ground (arith, there, e, w.named id step there))
  ]

  run_one-Sound :
      (id : String) (s : Scheduler)
      → Holds steps s
      → is_met s.graph id ≡ true
      → Sound steps Ready s (run_one world id s)
  unfolding run_one build_input
  run_one-Sound id s w h =
      let found = step_by_id-Sound id panic s w in
      let s1 = (step_by_id id panic s).1 in
      and_then-Sound steps _ Ready s (step_by_id id panic s) _ found (λ step e same.
        let input = build_input_from world s1.step_outputs step.depends_on [] in
        let done =
          execute_step-Sound world steps step input s1 found.inv (rw same (found.grows id h)) in
        let s2 = (execute_step world step input s1).1 in
        and_then-Sound steps _ Ready s1 (execute_step world step input s1) (λ _. complete id) done
          (λ a f settled.
            complete-Sound steps id s2 done.inv
              (subst (λ k. settled_in s2.run.step_states k ≡ true) same settled)))

  -- The failures of a batch leave no ready steps.
  collect-Sound :
      (failure : Option Failure) (ready : List String) (s : Scheduler)
      (r : Result Failure (List String) × Scheduler)
      (rest : Option Failure → List String → Action (List String))
      → Sound steps Ready s r
      → AllMet s.graph ready
      → ((f : Option Failure) (l : List String)
          → AllMet r.1.graph l
          → Sound steps Ready r.1 (rest f l r.1))
      → Sound steps Ready s (collect world r failure ready rest)
  collect-Sound failure ready s (ok more, s') rest w v go =
      let kept = AllMet-grows steps Ready s (ok more, s') ready w v in
      Sound-after steps Ready s s' _ w.grows
        (go failure (ready ++ more) (AllMet-append s'.graph ready more kept (w.by more refl)))
  collect-Sound none ready s (err e, s') rest w v go =
      Sound-after steps Ready s s' _ w.grows
        (go (some e) ready (AllMet-grows steps Ready s (err e, s') ready w v))
  collect-Sound (some first) ready s (err e, s') rest w v go =
      Sound-after steps Ready s s' _ w.grows
        (go (some first) ready (AllMet-grows steps Ready s (err e, s') ready w v))

  -- Whatever a goroutine's run leaves, the other goroutines of its batch go on.
  run_all-Sound :
      (ids : List String) (failure : Option Failure) (ready : List String) (s : Scheduler)
      → Holds steps s
      → AllMet s.graph ids
      → AllMet s.graph ready
      → Sound steps Ready s (run_all world ids failure ready s)
  unfolding run_all
  run_all-Sound [] none ready s w v r =
      Sound-frame steps Ready s (ok ready, s) refl refl w
        (λ a e. subst (AllMet s.graph) (ok-injective e) r)
  run_all-Sound [] (some failure) ready s w v r =
      Sound-frame steps Ready s (err failure, s) refl refl w (λ a e. absurd (ground (arith, e)))
  run_all-Sound (id ∷ ids) failure ready s w v r =
      let (first, rest) = AllMet-cons s.graph id ids v in
      let one = run_one-Sound id s w first in
      collect-Sound failure ready s (run_one world id s) (run_all world ids) one r (λ f l p.
        run_all-Sound ids f l (run_one world id s).1 one.inv
          (AllMet-grows steps Ready s (run_one world id s) ids one rest) p)

  pub execute_batch-Sound :
      ((n : ℕ) → IsOrder (world.interleave n))
      → (ids : List String) (s : Scheduler) → Holds steps s
      → AllMet s.graph ids
      → Sound steps Ready s (execute_batch world ids s)
  unfolding execute_batch
  execute_batch-Sound orders ids s w v =
      let order = world.interleave s.asked ids in
      let s1 = record s { asked = s.asked + 1 } in
      Sound-after steps Ready s s1 _ (λ id p. p)
        (run_all-Sound order none [] s1
          (record { wf = w.wf; deps = w.deps; named = w.named; settled = w.settled; met = w.met })
          (record { each = λ k p. ground (arith, p, v.each k, (orders s.asked).counts ids k) })
          (AllMet-nil s1.graph))

  evaluate_condition-Sound :
      (id : String) (env : Map Value) (s : Scheduler)
      → Holds steps s
      → Sound steps Any s (evaluate_condition world id env s)
  unfolding evaluate_condition step_by_id
  evaluate_condition-Sound id env s w =
      Sound-frame steps Any s (evaluate_condition world id env s) (ground arith) (ground arith) w
        (λ a e. tt)

  settle_branch-Sound :
      (matched : Bool) (id : String) (s : Scheduler)
      → Holds steps s
      → Runs id s
      → Sound steps Ready s (settle_branch world matched id s)
  unfolding settle_branch
  settle_branch-Sound true id s w r =
      let done = finish_step_success-Sound world steps id s w r "{\"matched\":true}" in
      and_then-Sound steps _ Ready s (finish_step_success world id "{\"matched\":true}" s)
        (λ _. complete id) done (λ a e p. complete-Sound steps id _ done.inv p)
  settle_branch-Sound false id s w r =
      let done = finish_step_skipped-Sound world steps id s w r in
      and_then-Sound steps _ Ready s (finish_step_skipped world id s) (λ _. skip id) done
        (λ a e p. skip-Sound steps id _ done.inv p)

  evaluate_condition-Runs :
      (id k : String) (env : Map Value) (s : Scheduler)
      → Runs k s
      → Runs k (evaluate_condition world id env s).1
  unfolding evaluate_condition step_by_id
  evaluate_condition-Runs id k env s r = record {
    state = r.state;
    there = ground (arith, r.there);
    running = r.running;
  }

  -- The checkpoint that is saved after a branch step leaves its ready steps alone.
  pub saved-Sound :
      (ready : List String) (s : Scheduler)
      → Holds steps s
      → AllMet s.graph ready
      → Sound steps Ready s ((save_checkpoint world >> pure ready) s)
  saved-Sound ready s w v =
      let kept = save_checkpoint-Sound world steps s w in
      let s1 = (save_checkpoint world s).1 in
      let still = AllMet-grows steps Any s (save_checkpoint world s) ready kept v in
      and_then-Sound steps Any Ready s (save_checkpoint world s) (λ _. pure ready) kept
        (λ a e p.
          Sound-frame steps Ready s1 (ok ready, s1) refl refl kept.inv
            (λ b f. subst (AllMet s1.graph) (ok-injective f) still))

  pub handle_branch_step-Sound :
      (step : Step) (s : Scheduler)
      → Holds steps s
      → is_met s.graph step.id ≡ true
      → Sound steps Ready s (handle_branch_step world step s)
  unfolding handle_branch_step build_input
  handle_branch_step-Sound step s w h =
      let first = start_step-Sound world steps step.id s w h in
      let s1 = (start_step world step.id s).1 in
      let env = build_input_from world s1.step_outputs step.depends_on [] in
      let tested = evaluate_condition-Sound step.id env s1 first.inv in
      let s2 = (evaluate_condition world step.id env s1).1 in
      and_then-Sound steps _ Ready s (start_step world step.id s) _ first (λ _ begun runs.
        and_then-Sound steps Any Ready s1 (evaluate_condition world step.id env s1) _ tested
          (λ matched _ p.
            let settled =
              settle_branch-Sound matched step.id s2 tested.inv
                (evaluate_condition-Runs step.id step.id env s1 runs) in
            and_then-Sound steps Ready Ready s2 (settle_branch world matched step.id s2)
              (λ ready. save_checkpoint world >> pure ready) settled
              (λ ready _ v.
                saved-Sound ready (settle_branch world matched step.id s2).1 settled.inv v)))
