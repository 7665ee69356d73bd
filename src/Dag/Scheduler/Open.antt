-- ===== src/Dag/Scheduler/Open.antt =====
-- internal/dag/scheduler_state.go: how many steps of a run are open, and what the operations on one
-- step change of it.
use agent_exec_engine.Prelude.{
  ℕ, ◌+◌, ◌≤◌, ◌≡◌, refl, String, Bool, false, [], ◌∷◌, Option, none, some, if◌then◌else◌, ◌||◌,
  Map, lookup, insert, lookup-insert, eq_refl, eq_iff, Result, ok, err, arith, Option-cases, inl,
  inr,
}
use agent_exec_engine.Types.{StepStatus, success, skipped, status_eq, Step, StepState, EventType}
use agent_exec_engine.Dag.Step.{can_transition, transition_with_log, should_retry}
use agent_exec_engine.Dag.Scheduler.Machine.{
  CtxError, deadline_exceeded, canceled, Failure, World, Scheduler, Action, and_then, ◌>>=◌,
  get_state, put_state,
}
use agent_exec_engine.Dag.Scheduler.Steps.{
  emit, start_step, finish_step_success, finish_step_skipped, finish_step_failure, save_checkpoint,
  failed_state, failure_status, unmatched,
}
use agent_exec_engine.Dag.Scheduler.Retries.{
  is_cut, finish_step_failure-count, save_checkpoint-is_cut,
}
use agent_exec_engine.Dag.Scheduler.Moves.{save_checkpoint-run}

-- A step is open until it succeeded or was skipped.
abbrev pub is_settled : StepStatus → Bool
is_settled status = status_eq status success || status_eq status skipped

abbrev pub weight : StepState → ℕ
weight state = if is_settled state.status then 0 else 1

unfoldable pub count_open : Map StepState → ℕ
count_open [] = 0
count_open ((id, state) ∷ rest) = weight state + count_open rest

abbrev pub open_in : Scheduler → ℕ
open_in s = count_open s.run.step_states

count_open-insert :
    (id : String) (old new : StepState) (states : Map StepState)
    → lookup id states ≡ some old
    → count_open (insert id new states) + weight old ≡ count_open states + weight new
unfolding count_open lookup insert
count_open-insert id old new [] h = ground arith
count_open-insert id old new ((j, state) ∷ rest) h =
    ground (arith, eq_iff j id, count_open-insert id old new rest)

-- What an action leaves: no loop is cut off, the number of open steps does not grow, and if the
-- action succeeds it falls by n at least.
pub record Lowers {A : Type 0} (n : ℕ) (s : Scheduler) (r : Result Failure A × Scheduler)
    : Type 0 where
  pub whole : is_cut r.0 ≡ false
  pub falls : open_in r.1 ≤ open_in s
  pub by : (a : A) → r.0 ≡ ok a → open_in r.1 + n ≤ open_in s

pub and_then-Lowers :
    {A B : Type 0} (n k : ℕ) (s : Scheduler) (r : Result Failure A × Scheduler) (f : A → Action B)
    → Lowers n s r
    → ((a : A) → r.0 ≡ ok a → Lowers k r.1 (f a r.1))
    → Lowers (n + k) s (and_then r f)
and_then-Lowers n k s (ok a, s') f w next =
    let v = next a refl in
    record {
      whole = v.whole;
      falls = omega (arith, w.falls, v.falls);
      by = λ b e. omega (arith, w.by a refl, v.by b e);
    }
and_then-Lowers n k s (err e, s') f w next = record {
  whole = ground (arith, w.whole);
  falls = w.falls;
  by = λ b h. absurd (ground (arith, h));
}

-- The same of an action in whatever state it is taken.
abbrev pub Descends : {A : Type 0} → ℕ → Action A → Type 0
Descends n m = (s : Scheduler) → Lowers n s (m s)

pub >>=-Descends :
    {A B : Type 0} (n k : ℕ) (m : Action A) (f : A → Action B)
    → Descends n m
    → ((a : A) → Descends k (f a))
    → Descends (n + k) (m >>= f)
>>=-Descends n k m f w v s = and_then-Lowers n k s (m s) f (w s) (λ a e. v a (m s).1)

-- An action that leaves the states as they are.
pub Lowers-none :
    {A : Type 0} (s : Scheduler) (r : Result Failure A × Scheduler)
    → is_cut r.0 ≡ false
    → r.1.run.step_states ≡ s.run.step_states
    → Lowers 0 s r
Lowers-none s r whole same = record {
  whole = whole;
  falls = rw same (omega arith);
  by = λ a e. rw same (omega arith);
}

module _ (world : World) where
  pub emit-Lowers :
      (type : EventType) (id message : String) (s : Scheduler)
      → Lowers 0 s (emit world type id message s)
  unfolding emit
  emit-Lowers type id message s =
      Lowers-none s (emit world type id message s) (ground arith) (ground arith)

  pub save_checkpoint-Lowers : (s : Scheduler) → Lowers 0 s (save_checkpoint world s)
  save_checkpoint-Lowers s =
      Lowers-none s (save_checkpoint world s) (save_checkpoint-is_cut world s)
        (rw (save_checkpoint-run world s) refl)

  -- The state that a step has after it was started.
  pub start_step-open :
      (id : String) (s : Scheduler)
      → (start_step world id s).0 ≡ ok tt
      → (state : StepState) × (lookup id (start_step world id s).1.run.step_states ≡ some state)
        × (weight state ≡ 1)
  unfolding start_step get_state put_state emit
  start_step-open id s e = elim (Option-cases (lookup id s.run.step_states)) [
    | inl absent ↦ absurd (ground (arith, absent, e))
    | inr (state, there) ↦
        let started = record state {
          status = StepStatus.running;
          started_at = some (world.now s.asked);
          error = "";
        } in
        (
          started,
          ground (arith, there, e, lookup-insert id id started s.run.step_states, eq_refl id),
          refl,
        )
  ]

  pub start_step-Lowers : (id : String) (s : Scheduler) → Lowers 0 s (start_step world id s)
  unfolding start_step get_state put_state emit transition_with_log can_transition
  start_step-Lowers id s = elim (Option-cases (lookup id s.run.step_states)) [
    | inl absent ↦ record {
      whole = ground (arith, absent);
      falls = ground (arith, absent);
      by = λ a e. ground (arith, absent, e);
    }
    | inr (state, there) ↦
        let started = record state {
          status = StepStatus.running;
          started_at = some (world.now s.asked);
          error = "";
        } in
        let counted = count_open-insert id state started s.run.step_states there in
        record {
          whole = ground (arith, there);
          falls = ground (arith, there, counted);
          by = λ a e. ground (arith, there, counted, e);
        }
  ]

-- The operations that end an attempt, on a step that is open.
module _ (world : World) (id : String) (s : Scheduler) (state : StepState)
    (there : lookup id s.run.step_states ≡ some state) (still : weight state ≡ 1) where
  pub finish_step_success-Lowers :
      (output : String) → Lowers 1 s (finish_step_success world id output s)
  unfolding finish_step_success get_state put_state emit
  finish_step_success-Lowers output =
      let done = record state {
        status = success;
        completed_at = some (world.now s.asked);
        output = output;
        error = "";
      } in
      let counted = count_open-insert id state done s.run.step_states there in
      record {
        whole = ground (arith, there);
        falls = ground (arith, there, still, counted);
        by = λ a e. ground (arith, there, still, counted);
      }

  pub finish_step_skipped-Lowers : Lowers 1 s (finish_step_skipped world id s)
  unfolding finish_step_skipped get_state put_state emit
  finish_step_skipped-Lowers =
      let done = record state {
        status = skipped;
        completed_at = some (world.now s.asked);
        output = unmatched world;
        error = "";
      } in
      let counted = count_open-insert id state done s.run.step_states there in
      record {
        whole = ground (arith, there);
        falls = ground (arith, there, still, counted);
        by = λ a e. ground (arith, there, still, counted);
      }

failure_status-open :
    (world : World) (ctx_err : Option CtxError) → is_settled (failure_status world ctx_err) ≡ false
failure_status-open world none = refl
failure_status-open world (some deadline_exceeded) = refl
failure_status-open world (some canceled) = refl

pub finish_step_failure-Lowers :
    (world : World) (step : Step) (s : Scheduler) (state : StepState)
    → lookup step.id s.run.step_states ≡ some state
    → weight state ≡ 1
    → (failure : Failure) (ctx_err : Option CtxError)
    → Lowers 0 s (finish_step_failure world step.id step failure ctx_err s)
unfolding finish_step_failure get_state put_state emit
finish_step_failure-Lowers world step s state there still failure ctx_err =
    let base = failed_state world state failure ctx_err in
    let after = record base {
      retry_count = if should_retry step base then base.retry_count + 1 else base.retry_count;
    } in
    let counted = count_open-insert step.id state after s.run.step_states there in
    let ended = failure_status-open world ctx_err in
    record {
      whole = (finish_step_failure-count world step failure ctx_err s).0;
      falls = ground (arith, there, still, counted, ended);
      by = λ a e. ground (arith, there, still, counted, ended);
    }
