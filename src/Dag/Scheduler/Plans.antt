-- ===== src/Dag/Scheduler/Plans.antt =====
-- internal/dag/scheduler_run.go: what `processReadySteps` leaves to the batch of a round.
use agent_exec_engine.Prelude.{
  ℕ, suc, ◌+◌, ◌≤◌, ◌≡◌, ◌⊎◌, refl, String, true, false, List, [], ◌∷◌, ◌++◌, Result, ok, err,
  arith, Result-cases, inl, inr, length, length-append,
}
use agent_exec_engine.Types.{Step, StepType, branch, human}
use agent_exec_engine.Dag.Scheduler.Machine.{
  Failure, step_not_found, World, Scheduler, Action, and_then, ◌>>=◌, ◌>>◌, pure,
}
use agent_exec_engine.Dag.Scheduler.Steps.{pause_workflow}
use agent_exec_engine.Dag.Scheduler.Batch.{step_by_id, handle_branch_step}
use agent_exec_engine.Dag.Scheduler.Loop.{Plan, process}
use agent_exec_engine.Dag.Scheduler.Retries.{is_cut}
use agent_exec_engine.Dag.Scheduler.Open.{open_in, Lowers}
use agent_exec_engine.Dag.Scheduler.Branches.{handle_branch_step-Lowers, pause_workflow-Lowers}
use agent_exec_engine.Dag.Scheduler.Rounds.{step_by_id-Descends}

-- What `processReadySteps` leaves of `given` steps: unless the run is paused, each of them was
-- closed or is to run in the batch.
pub record Plans (given : ℕ) (s : Scheduler) (r : Result Failure Plan × Scheduler) : Type 0 where
  pub whole : is_cut r.0 ≡ false
  pub falls : open_in r.1 ≤ open_in s
  pub by :
      (p : Plan)
      → r.0 ≡ ok p
      → (p.paused ≡ true) ⊎ (given + open_in r.1 ≤ length p.async + open_in s)

and_then-Plans :
    {A : Type 0} (given n : ℕ) (s : Scheduler) (r : Result Failure A × Scheduler)
    (f : A → Action Plan)
    → Lowers n s r
    → ((a : A) → r.0 ≡ ok a → Plans given r.1 (f a r.1))
    → Plans (given + n) s (and_then r f)
and_then-Plans given n s (ok a, s') f w next =
    let v = next a refl in
    record {
      whole = v.whole;
      falls = omega (arith, w.falls, v.falls);
      by = λ p e. ground (arith, w.by a refl, v.by p e);
    }
and_then-Plans given n s (err e, s') f w next = record {
  whole = ground (arith, w.whole);
  falls = w.falls;
  by = λ b h. absurd (ground (arith, h));
}

Plans-weaken :
    (given less : ℕ) (s : Scheduler) (r : Result Failure Plan × Scheduler)
    → less ≤ given
    → Plans given s r
    → Plans less s r
Plans-weaken given less s r h w = record {
  whole = w.whole;
  falls = w.falls;
  by = λ p e. ground (arith, w.by p e);
}

module _ (world : World) where
  after_step :
      (id : String) (ids : List String) (plan : Plan) (step : Step) (type : StepType)
      (s : Scheduler)
      → ((p : Plan) (s' : Scheduler)
          → Plans (length p.async + length ids) s' (process world ids p s'))
      → Plans (length plan.async + suc (length ids)) s (
          (elim type as (λ _. Action Plan) [
            | branch ↦ handle_branch_step world step >>= λ ready.
                process world ids (record plan { inline = plan.inline ++ ready })
            | human ↦ pause_workflow world step >> pure (record plan { async = []; paused = true })
            | _ ↦ process world ids (record plan { async = plan.async ++ id ∷ [] })
          ])
            s)
  after_step id ids plan step branch s ih =
      Plans-weaken (length plan.async + length ids + 1) (length plan.async + suc (length ids)) s _
        (omega arith)
        (and_then-Plans (length plan.async + length ids) 1 s (handle_branch_step world step s) _
          (handle_branch_step-Lowers world step s)
          (λ ready e.
            ih (record plan { inline = plan.inline ++ ready }) (handle_branch_step world step s).1))
  after_step id ids plan step human s ih =
      let w = pause_workflow-Lowers world step s in
      elim (Result-cases (pause_workflow world step s).0) [
        | inl (e, failed) ↦ record {
          whole = ground (arith, w.whole, failed);
          falls = ground (arith, w.falls, failed);
          by = λ p h. absurd (ground (arith, failed, h));
        }
        | inr (_, done) ↦ record {
          whole = ground (arith, done);
          falls = ground (arith, w.falls, done);
          by = λ p h. inl (ground (arith, done, h));
        }
      ]
  after_step id ids plan step type s ih =
      let longer = length-append plan.async (id ∷ []) in
      Plans-weaken (length (plan.async ++ id ∷ []) + length ids)
        (length plan.async + suc (length ids)) s
        (process world ids (record plan { async = plan.async ++ id ∷ [] }) s)
        (omega (arith, longer)) (ih (record plan { async = plan.async ++ id ∷ [] }) s)

  pub process-Plans :
      (ids : List String) (plan : Plan) (s : Scheduler)
      → Plans (length plan.async + length ids) s (process world ids plan s)
  unfolding process
  process-Plans [] plan s = record {
    whole = refl;
    falls = omega arith;
    by = λ p e. ground (arith, e);
  }
  process-Plans (id ∷ ids) plan s =
      Plans-weaken (length plan.async + suc (length ids) + 0) (length plan.async + suc (length ids))
        s _ (omega arith)
        (and_then-Plans (length plan.async + suc (length ids)) 0 s
          (step_by_id id (step_not_found id) s)
          (λ step. elim (step.type) as (λ _. Action Plan) [
            | branch ↦ handle_branch_step world step >>= λ ready.
                process world ids (record plan { inline = plan.inline ++ ready })
            | human ↦ pause_workflow world step >> pure (record plan { async = []; paused = true })
            | _ ↦ process world ids (record plan { async = plan.async ++ id ∷ [] })
          ])
          (step_by_id-Descends world id (step_not_found id) refl s)
          (λ step e.
            after_step id ids plan step step.type (step_by_id id (step_not_found id) s).1
              (process-Plans ids)))
