-- ===== src/Dag/Step.antt =====
-- internal/dag/step.go: the state machine of one step. The log lines are left out.
pub mod Runs
use agent_exec_engine.Prelude.{
  Bool, true, false, List, [], ◌∷◌, Option, none, some, ◌||◌, if◌then◌else◌,
}
use agent_exec_engine.Prelude.Int.{pos, ltb_ℤ}
use agent_exec_engine.Types.{
  StepStatus, success, failed, timeout, skipped, cancelled, status_eq, RetryPolicy, Step, StepState,
}

-- ValidTransitions
unfoldable valid_transitions : StepStatus → List StepStatus
valid_transitions StepStatus.pending = StepStatus.running ∷ skipped ∷ []
valid_transitions StepStatus.running = success ∷ failed ∷ timeout ∷ cancelled ∷ []
valid_transitions failed = StepStatus.running ∷ []
valid_transitions timeout = StepStatus.running ∷ []
valid_transitions success = []
valid_transitions skipped = []
valid_transitions cancelled = []

-- The loop of `CanTransition` over the candidates.
unfoldable any_candidate : List StepStatus → StepStatus → Bool
any_candidate [] to = false
any_candidate (candidate ∷ rest) to = if status_eq candidate to then true else any_candidate rest to

unfoldable pub can_transition : StepStatus → StepStatus → Bool
unfolding valid_transitions any_candidate
can_transition from to = any_candidate (valid_transitions from) to

-- The result of `TransitionWithLog`; the lines that it writes are left out.
unfoldable pub transition_with_log : StepStatus → StepStatus → Bool
unfolding can_transition
transition_with_log from to = if can_transition from to then true else false

-- The test that `ShouldRetry` makes once a policy is there.
unfoldable below_limit : Option RetryPolicy → StepState → Bool
below_limit none state = false
below_limit (some policy) state =
    if status_eq state.status failed || status_eq state.status timeout
    then ltb_ℤ (pos state.retry_count) policy.max_retries
    else false

unfoldable pub should_retry : Step → StepState → Bool
unfolding below_limit
should_retry step state = below_limit step.retry state
