-- ===== src/Sandbox/Engine/Execute.antt =====
-- internal/sandbox/executor.go: a request from its container's start to its removal, and the
-- removal of what other runs left behind.
use agent_exec_engine.Prelude.{
  ℕ, ◌-◌, String, Bool, false, List, [], ◌∷◌, ◌++◌, Option, none, some, Result, ok, err,
}
use agent_exec_engine.Prelude.Int.{ℤ}
use agent_exec_engine.Prelude.Logged.{◌>>=◌, ◌>>◌, return}
use agent_exec_engine.Sandbox.Policy.{
  RequestError, ExecutionRequest, ExecutionResult, ExecutionPolicy, validate_execution_request,
  merge_policy,
}
use agent_exec_engine.Sandbox.Engine.{
  Call, list_labelled, Docker, ContainerState, SandboxError, invalid, Run, create_container,
  copy_input_files, container_start, wait_for_completion, collect_logs, container_inspect,
  collect_output_files, remove_container, with_docker,
}

abbrev exit_code_of : ℤ → Option ContainerState → ℤ
exit_code_of code none = code
exit_code_of code (some state) = state.exit_code

abbrev oom_killed_of : Option ContainerState → Bool
oom_killed_of none = false
oom_killed_of (some state) = state.oom_killed

-- The errors that `errors.Join` makes one of; none stand for nil.
abbrev error_of : {A : Type 0} → Result SandboxError A → List SandboxError
error_of (ok a) = []
error_of (err e) = e ∷ []

abbrev result_of : {A : Type 0} → Result SandboxError A → Option A
result_of (ok a) = some a
result_of (err e) = none

module _ (world : Docker) where
  -- What `Execute` does between the container's creation and its removal.
  unfoldable pub run_container :
      ExecutionRequest → ExecutionPolicy → ℕ → String → Run ExecutionResult
  unfolding copy_input_files container_start wait_for_completion collect_logs container_inspect
      collect_output_files
  run_container req policy started id = do
    copy_input_files world id req.files
    container_start world id
    (code, timed_out) ← wait_for_completion world id policy.timeout
    (stdout, stderr) ← collect_logs world id
    state ← container_inspect world id
    files ← collect_output_files world id
    λ calls.
        return
          (record {
            exit_code = exit_code_of code state;
            stdout = stdout;
            stderr = stderr;
            duration = world.now calls - started;
            oom_killed = oom_killed_of state;
            timed_out = timed_out;
            files = files;
          })
          calls

  -- The deferred removal of the container, whose error is joined to the one of the run.
  abbrev removed :
      String
      → Result SandboxError ExecutionResult × List Call
      → (Option ExecutionResult × List SandboxError) × List Call
  removed id (result, calls) =
      let (removal, calls') = remove_container world id calls in
      ((result_of result, error_of result ++ error_of removal), calls')

  abbrev pub created :
      ExecutionRequest
      → ExecutionPolicy
      → ℕ
      → Result SandboxError String × List Call
      → (Option ExecutionResult × List SandboxError) × List Call
  created req policy started (err e, calls) = ((none, e ∷ []), calls)
  created req policy started (ok id, calls) = removed id (run_container req policy started id calls)

  unfoldable pub execute_checked :
      ExecutionPolicy
      → ExecutionRequest
      → List Call
      → Result RequestError (Unit {0})
      → (Option ExecutionResult × List SandboxError) × List Call
  unfolding run_container create_container remove_container merge_policy
  execute_checked defaults req calls (err e) = ((none, invalid e ∷ []), calls)
  execute_checked defaults req calls (ok valid) =
      let policy = merge_policy defaults req.policy in
      created req policy (world.now calls) (create_container world req policy calls)

  unfoldable pub execute :
      ExecutionPolicy
      → ExecutionRequest
      → List Call
      → (Option ExecutionResult × List SandboxError) × List Call
  unfolding execute_checked validate_execution_request
  execute defaults req calls = execute_checked defaults req calls (validate_execution_request req)

  -- The loop of `Cleanup`, which goes on after an error.
  unfoldable remove_all : List String → List Call → List SandboxError × List Call
  unfolding remove_container
  remove_all [] calls = ([], calls)
  remove_all (id ∷ ids) calls =
      let (removal, calls') = remove_container world id calls in
      let (errors, calls″) = remove_all ids calls' in (error_of removal ++ errors, calls″)

  abbrev listed : Result SandboxError (List String) → List Call → List SandboxError × List Call
  listed (err e) calls = (e ∷ [], calls)
  listed (ok ids) calls = remove_all ids calls

  unfoldable cleanup : List Call → List SandboxError × List Call
  unfolding remove_all
  cleanup calls = listed (with_docker (world.on_list calls)) (list_labelled ∷ calls)
