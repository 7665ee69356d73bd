-- ===== src/Dag/Scheduler/Machine.antt =====
-- The scheduler's state, and what it takes from outside. A method is an action: it reads and
-- changes the state, and it returns a value or the error that Go returns. The changes that were
-- made before an error stay.
use agent_exec_engine.Prelude.{
  ℕ, ◌+◌, String, Bool, true, false, List, Option, none, some, Map, lookup, insert, Result, ok, err,
}
use agent_exec_engine.Prelude.Int.{ℤ}
use agent_exec_engine.Types.{
  StepStatus, StepType, Step, StepState, Workflow, WorkflowRun, Checkpoint, Event, Value,
}
use agent_exec_engine.Dag.Graph.{Graph, GraphError}

-- What `Err` of a context returns.
pub data CtxError : Type 0 where
  deadline_exceeded canceled : CtxError

pub data Failure : Type 0 where
  cannot_transition : String → StepStatus → StepStatus → Failure
  step_not_found : String → Failure
  no_executor : StepType → Failure
  not_paused_on : String → Failure
  stalled : Failure
  context_error : CtxError → Failure
  -- An executor's error: its text, and whether it wraps `context.Canceled`.
  execution : String → Bool → Failure
  -- An error of the condition's evaluation, of the encoder, and of the checkpoint store.
  condition_error : String → Failure
  encode_error : String → Failure
  checkpoint_error : String → Failure
  graph_error : GraphError → Failure
  -- A nil pointer is read; the program panics.
  panic : Failure
  -- A loop is cut off; stands for no behaviour of the program.
  out_of_fuel : Failure

-- errors.Is(err, context.Canceled)
abbrev pub is_canceled : Failure → Bool
is_canceled (context_error canceled) = true
is_canceled (execution text wraps) = wraps
is_canceled _ = false

pub record ExecError : Type 0 where
  pub text : String
  pub canceled : Bool

abbrev pub failure_of : ExecError → Failure
failure_of e = execution e.text e.canceled

-- What an executor returns, and what the step's context says after it.
pub record Attempt : Type 0 where
  pub output : String
  pub error : Option ExecError
  pub ctx_err : Option CtxError

-- The world outside the package. Each answer depends on how often the scheduler has asked, so that
-- the clock, the executors, the contexts and the stores are free to answer differently each time.
pub record World : Type 0 where
  pub range : List String → List String
  pub now : ℕ → ℕ
  pub has_executor : StepType → Bool
  pub execute : ℕ → Step → Map Value → Attempt
  pub run_ctx_err : ℕ → Option CtxError
  -- The order in which the goroutines of a batch run.
  pub interleave : ℕ → List String → List String
  -- The CEL library: an expression is compiled and evaluated over the input's entries.
  pub cel : ℕ → String → Map Value → Result String Value
  pub unmarshal : String → Option Value
  pub marshal : Map Value → Result String String
  -- The checkpointer, if there is one; a save returns the checkpoint with its new version.
  pub save : Option (ℕ → Checkpoint → Result String Checkpoint)
  -- Whether the event channel, if there is one, has room.
  pub accepts : Option (ℕ → Bool)
  pub error_text : Failure → String
  pub retry_text : ℕ → ℤ → String

pub record Scheduler : Type 0 where
  pub workflow : Workflow
  pub graph : Graph
  pub run : WorkflowRun
  pub step_outputs : Map String
  pub checkpoint_version : ℕ
  pub paused_step_id : String
  -- The events that went into the channel, oldest first.
  pub events : List Event
  -- How often the world was asked.
  pub asked : ℕ

abbrev pub Action {ℓ} : Type ℓ → Type ℓ
Action A = Scheduler → Result Failure A × Scheduler

module _ {ℓ} {A : Type ℓ} where
  abbrev pub pure : A → Action A
  pure a s = (ok a, s)

  abbrev pub throw : Failure → Action A
  throw e s = (err e, s)

  abbrev pub of_option : Failure → Option A → Action A
  of_option e none s = (err e, s)
  of_option e (some a) s = (ok a, s)

  -- `if err := m; err != nil { return handler(err) }`
  abbrev pub caught :
      Result Failure A × Scheduler → (Failure → Action A) → Result Failure A × Scheduler
  caught (ok a, s) handler = (ok a, s)
  caught (err e, s) handler = handler e s

module _ {ℓ κ} {A : Type ℓ} {B : Type κ} where
  abbrev pub and_then : Result Failure A × Scheduler → (A → Action B) → Result Failure B × Scheduler
  and_then (ok a, s) f = f a s
  and_then (err e, s) f = (err e, s)

  infixl 5 ◌>>=◌
  abbrev pub ◌>>=◌ : Action A → (A → Action B) → Action B
  m >>= f = λ s. and_then (m s) f

module _ {ℓ} {B : Type ℓ} where
  infixl 5 ◌>>◌
  abbrev pub ◌>>◌ : Action (Unit {0}) → Action B → Action B
  m >> k = m >>= λ _. k

-- `if !test { return failure }`
abbrev pub require : Bool → Failure → Action (Unit {0})
require true failure s = (ok tt, s)
require false failure s = (err failure, s)

abbrev pub get : Action Scheduler
get s = (ok s, s)

abbrev pub modify : (Scheduler → Scheduler) → Action (Unit {0})
modify f s = (ok tt, f s)

-- The number of this question to the world.
abbrev pub ask : Action ℕ
ask s = (ok s.asked, record s { asked = s.asked + 1 })

-- s.run.StepStates[stepID], whose fields are read at once.
unfoldable pub get_state : String → Action StepState
get_state id s = of_option panic (lookup id s.run.step_states) s

unfoldable pub put_state : String → StepState → Scheduler → Scheduler
put_state id state s = record s {
  run = record (s.run) { step_states = insert id state s.run.step_states };
}
