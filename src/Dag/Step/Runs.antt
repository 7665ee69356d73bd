-- ===== src/Dag/Step/Runs.antt =====
-- Sequences of statuses that the state machine of a step accepts.
use agent_exec_engine.Prelude.{
  ℕ, ◌+◌, ◌≡◌, refl, ◌⊎◌, ◌↔◌, true, false, List, [], ◌∷◌, arith, if◌then◌else◌,
}
use agent_exec_engine.Types.{StepStatus, success, failed, timeout, skipped, cancelled, status_eq}
use agent_exec_engine.Dag.Step.{can_transition}

-- A status that no transition leaves.
abbrev pub IsSettled : StepStatus → Type 0
IsSettled s = (s ≡ success) ⊎ (s ≡ skipped) ⊎ (s ≡ cancelled)

-- The sequence of statuses that a step takes from `from` on, each accepted after the one before.
pub data Run (from : StepStatus) : List StepStatus → StepStatus → Type 0 where
  start : Run from [] from
  move :
      {path : List StepStatus} {s : StepStatus} (t : StepStatus)
      → Run from path s
      → can_transition s t ≡ true
      → Run from (t ∷ path) t

-- The attempts that run in a status, and those that it ends.
abbrev pub open_attempts : StepStatus → ℕ
open_attempts s = if status_eq s StepStatus.running then 1 else 0

abbrev pub starts : List StepStatus → ℕ
starts [] = 0
starts (s ∷ path) = open_attempts s + starts path

abbrev is_end : StepStatus → ℕ
is_end success = 1
is_end failed = 1
is_end timeout = 1
is_end cancelled = 1
is_end s = 0

abbrev pub ends : List StepStatus → ℕ
ends [] = 0
ends (s ∷ path) = is_end s + ends path

-- A status accepts no transition at all exactly when it is success, skipped or cancelled.
can_transition-IsSettled :
    (s : StepStatus) → ((t : StepStatus) → can_transition s t ≡ false) ↔ IsSettled s
unfolding can_transition
can_transition-IsSettled StepStatus.pending = (λ h. ground (arith, h skipped), λ h. ground arith)
can_transition-IsSettled StepStatus.running = (λ h. ground (arith, h success), λ h. ground arith)
can_transition-IsSettled success = (λ h. ground arith, λ h t. refl)
can_transition-IsSettled failed = (λ h. ground (arith, h StepStatus.running), λ h. ground arith)
can_transition-IsSettled timeout = (λ h. ground (arith, h StepStatus.running), λ h. ground arith)
can_transition-IsSettled skipped = (λ h. ground arith, λ h t. refl)
can_transition-IsSettled cancelled = (λ h. ground arith, λ h t. refl)

attempt_move :
    (s t : StepStatus)
    → can_transition s t ≡ true
    → open_attempts t + is_end t ≡ open_attempts s + open_attempts t
unfolding can_transition
attempt_move s t h = ground arith

-- Along every accepted sequence each start of the step is matched by one end of an attempt
-- (success, failed, timeout or cancelled), but for the attempt that is still running.
pub Run-starts :
    {from to : StepStatus} {path : List StepStatus}
    → Run from path to
    → open_attempts from + starts path ≡ ends path + open_attempts to
Run-starts start = omega arith
Run-starts (move {s = s} t r h) = omega (arith, attempt_move s t h, Run-starts r)
