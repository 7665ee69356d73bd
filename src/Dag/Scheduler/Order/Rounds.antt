-- ===== src/Dag/Scheduler/Order/Rounds.antt =====
-- internal/dag/scheduler_run.go: the order of a run's steps, through a round of the loop.
use agent_exec_engine.Prelude.{
  ℕ, ◌+◌, ◌≤◌, ◌≡◌, String, true, false, List, [], ◌∷◌, ◌++◌, eqb, count, contains, IsOrder, Result,
  arith, Option-cases, Bool-cases, inl, inr,
}
use agent_exec_engine.Types.{Step, StepType, branch, human}
use agent_exec_engine.Dag.Graph.{step_count}
use agent_exec_engine.Dag.Scheduler.Machine.{
  Failure, step_not_found, stalled, context_error, World, Scheduler, Action, pure, ◌>>=◌, ◌>>◌,
}
use agent_exec_engine.Dag.Scheduler.Steps.{
  emit, pause_workflow, completed_step_count, dedupe_strings, dedupe_from,
}
use agent_exec_engine.Dag.Scheduler.Batch.{step_by_id, execute_batch, handle_branch_step}
use agent_exec_engine.Dag.Scheduler.Loop.{
  Plan, Next, finished, suspended, again, process, process_ready_steps, follow, work, is_empty,
  round, or_ready, complete_workflow,
}
use agent_exec_engine.Dag.Scheduler.Order.{
  is_met, AllMet, Sound, Any, Holds, AllMet-append, AllMet-nil, AllMet-cons, AllMet-one,
  AllMet-grows, and_then-Sound, Sound-frame, Sound-after, Sound-pure, Sound-throw,
}
use agent_exec_engine.Dag.Scheduler.Order.Graphs.{ready_steps-AllMet}
use agent_exec_engine.Dag.Scheduler.Order.Steps.{pause_workflow-Sound}
use agent_exec_engine.Dag.Scheduler.Order.Batches.{
  Ready, step_by_id-Sound, execute_batch-Sound, handle_branch_step-Sound,
}

dedupe_from-count :
    (seen ids : List String) (k : String) → count k (dedupe_from seen ids) ≤ count k ids
unfolding dedupe_from contains count
dedupe_from-count seen [] k = omega arith
dedupe_from-count seen (id ∷ ids) k =
    ground (arith, dedupe_from-count seen ids k, dedupe_from-count (id ∷ seen) ids k)

dedupe_strings-AllMet :
    (s : Scheduler) (ids : List String) → AllMet s.graph ids → AllMet s.graph (dedupe_strings ids)
unfolding dedupe_strings
dedupe_strings-AllMet s ids w = record {
  each = λ k p. w.each k (omega (arith, p, dedupe_from-count [] ids k));
}

-- A plan's steps depend on resolved steps only.
abbrev Planned : Plan → Scheduler → Type 0
Planned plan s = AllMet s.graph plan.async × AllMet s.graph plan.inline

-- So do the steps that the next round starts with.
abbrev pub Follows : Next → Scheduler → Type 0
Follows finished s = Unit
Follows suspended s = Unit
Follows (again ready) s = AllMet s.graph ready

-- The world visits the entries of a map, and runs the goroutines of a batch, each once.
pub record Ordered (world : World) : Type 0 where
  pub ranges : IsOrder world.range
  pub interleaves : (n : ℕ) → IsOrder (world.interleave n)

module _ (world : World) (steps : List Step) where
  Planned-grows :
      {A : Type 0} (Post : A → Scheduler → Type 0) (s : Scheduler)
      (r : Result Failure A × Scheduler) (plan : Plan)
      → Sound steps Post s r
      → Planned plan s
      → Planned plan r.1
  Planned-grows Post s r plan w (v, u) =
      (AllMet-grows steps Post s r plan.async w v, AllMet-grows steps Post s r plan.inline w u)

  planned :
      (id : String) (ids : List String) (plan : Plan) (step : Step) (type : StepType)
      (s : Scheduler)
      → Holds steps s
      → step.id ≡ id
      → is_met s.graph id ≡ true
      → AllMet s.graph ids
      → Planned plan s
      → ((p : Plan) (s' : Scheduler)
          → Holds steps s'
          → AllMet s'.graph ids
          → Planned p s'
          → Sound steps Planned s' (process world ids p s'))
      → Sound steps Planned s (
          (elim type as (λ _. Action Plan) [
            | branch ↦ handle_branch_step world step >>= λ ready.
                process world ids (record plan { inline = plan.inline ++ ready })
            | human ↦ pause_workflow world step >> pure (record plan { async = []; paused = true })
            | _ ↦ process world ids (record plan { async = plan.async ++ id ∷ [] })
          ])
            s)
  planned id ids plan step branch s w same h v p ih =
      let done = handle_branch_step-Sound world steps step s w (rw same h) in
      let r = handle_branch_step world step s in
      let (async, inline) = Planned-grows Ready s r plan done p in
      and_then-Sound steps Ready Planned s r
        (λ ready. process world ids (record plan { inline = plan.inline ++ ready })) done
        (λ ready e met.
          ih (record plan { inline = plan.inline ++ ready }) r.1 done.inv
            (AllMet-grows steps Ready s r ids done v)
            (async, AllMet-append r.1.graph plan.inline ready inline met))
  planned id ids plan step human s w same h v p ih =
      let waits = pause_workflow-Sound world steps step s w (rw same h) in
      let r = pause_workflow world step s in
      let left : Plan = record plan { async = []; paused = true } in
      let (async, inline) = Planned-grows Any s r plan waits p in
      and_then-Sound steps Any Planned s r (λ _. pure left) waits
        (λ _ e _. Sound-pure steps Planned left r.1 waits.inv (AllMet-nil r.1.graph, inline))
  planned id ids plan step type s w same h v (async, inline) ih =
      ih (record plan { async = plan.async ++ id ∷ [] }) s w v
        (AllMet-append s.graph plan.async (id ∷ []) async (AllMet-one s.graph id h), inline)

  process-Sound :
      (ids : List String) (plan : Plan) (s : Scheduler)
      → Holds steps s
      → AllMet s.graph ids
      → Planned plan s
      → Sound steps Planned s (process world ids plan s)
  unfolding process
  process-Sound [] plan s w v p = Sound-pure steps Planned plan s w p
  process-Sound (id ∷ ids) plan s w v p =
      let (first, rest) = AllMet-cons s.graph id ids v in
      let r = step_by_id id (step_not_found id) s in
      let found = step_by_id-Sound world steps id (step_not_found id) s w in
      and_then-Sound steps _ Planned s r
        (λ step. elim (step.type) as (λ _. Action Plan) [
          | branch ↦ handle_branch_step world step >>= λ ready.
              process world ids (record plan { inline = plan.inline ++ ready })
          | human ↦ pause_workflow world step >> pure (record plan { async = []; paused = true })
          | _ ↦ process world ids (record plan { async = plan.async ++ id ∷ [] })
        ])
        found
        (λ step e same.
          planned id ids plan step step.type r.1 found.inv same (found.grows id first)
            (AllMet-grows steps _ s r ids found rest) (Planned-grows _ s r plan found p)
            (process-Sound ids))

  follow-Sound :
      ((n : ℕ) → IsOrder (world.interleave n))
      → (plan : Plan) (s : Scheduler) → Holds steps s
      → Planned plan s
      → Sound steps Follows s (follow world plan s)
  unfolding follow
  follow-Sound orders plan s w (async, inline) = elim (Bool-cases plan.paused) [
    | inl waits ↦ rw waits (Sound-pure steps Follows suspended s w tt)
    | inr goes ↦ elim (Bool-cases (is_empty plan.async)) [
      | inl nothing ↦
          rw (goes, nothing)
            (Sound-pure steps Follows (again (dedupe_strings plan.inline)) s w
              (dedupe_strings-AllMet s plan.inline inline))
      | inr some_left ↦
          let r = execute_batch world plan.async s in
          let done = execute_batch-Sound world steps orders plan.async s w async in
          let kept = AllMet-grows steps Ready s r plan.inline done inline in
          rw (goes, some_left)
            (and_then-Sound steps Ready Follows s r
              (λ more. pure (again (dedupe_strings (plan.inline ++ more)))) done
              (λ more e met.
                Sound-pure steps Follows (again (dedupe_strings (plan.inline ++ more))) r.1 done.inv
                  (dedupe_strings-AllMet r.1 (plan.inline ++ more)
                    (AllMet-append r.1.graph plan.inline more kept met))))
    ]
  ]

  work-Sound :
      ((n : ℕ) → IsOrder (world.interleave n))
      → (ready : List String) (s : Scheduler) → Holds steps s
      → AllMet s.graph ready
      → Sound steps Follows s (work world ready s)
  unfolding work process_ready_steps
  work-Sound orders ready s w v = elim (Bool-cases (is_empty ready)) [
    | inl nothing ↦ rw nothing (Sound-throw steps Follows stalled s w)
    | inr some_left ↦
        let ids = dedupe_strings ready in
        let fresh : Plan = record { async = []; inline = []; paused = false } in
        let none_yet = AllMet-nil s.graph in
        let r = process world ids fresh s in
        let done =
          process-Sound ids fresh s w (dedupe_strings-AllMet s ready v) (none_yet, none_yet) in
        rw some_left (
          and_then-Sound steps Planned Follows s r (follow world) done
            (λ plan e p. follow-Sound orders plan r.1 done.inv p))
  ]

  complete_workflow-Sound :
      (s : Scheduler) → Holds steps s → Sound steps Any s (complete_workflow world s)
  unfolding complete_workflow emit
  complete_workflow-Sound s w =
      Sound-frame steps Any s (complete_workflow world s) (ground arith) (ground arith) w
        (λ a e. tt)

  or_ready-AllMet :
      (orders : Ordered world) (ready : List String) (s : Scheduler)
      → Holds steps s
      → AllMet s.graph ready
      → AllMet s.graph (or_ready world ready s)
  or_ready-AllMet orders ready s w v = elim (Bool-cases (is_empty ready)) [
    | inl nothing ↦ rw nothing (ready_steps-AllMet world.range orders.ranges s.graph w.wf)
    | inr some_left ↦ rw some_left v
  ]

  pub round-Sound :
      Ordered world
      → (ready : List String) (s : Scheduler) → Holds steps s
      → AllMet s.graph ready
      → Sound steps Follows s (round world ready s)
  unfolding round
  round-Sound orders ready s w v =
      let s1 = record s { asked = s.asked + 1 } in
      let ids = or_ready world ready s1 in
      let finish = complete_workflow-Sound s1 w in
      let more = work-Sound orders.interleaves ids s1 w (or_ready-AllMet orders ready s1 w v) in
      elim (Option-cases (world.run_ctx_err s.asked)) [
        | inr (e, ended) ↦ rw ended (
            Sound-after steps Follows s s1 _ (λ id p. p)
              (Sound-throw steps Follows (context_error e) s1 w))
        | inl goes ↦ elim (Bool-cases (eqb (completed_step_count s1) (step_count s1.graph))) [
          | inl all ↦
              rw (goes, all)
                (Sound-after steps Follows s s1 _ (λ id p. p)
                  (and_then-Sound steps Any Follows s1 (complete_workflow world s1)
                    (λ _. pure finished) finish
                    (λ a e p.
                      Sound-pure steps Follows finished (complete_workflow world s1).1 finish.inv
                        tt)))
          | inr left ↦ rw (goes, left) (Sound-after steps Follows s s1 _ (λ id p. p) more)
        ]
      ]
