-- ===== src/Sandbox/Engine/Cleanup.antt =====
-- internal/sandbox/executor.go: the containers that are made, and those that are removed.
use agent_exec_engine.Prelude.{
  ℕ, ◌+◌, String, Bool, true, false, ◌≡◌, refl, List, [], ◌∷◌, none, some, Result, ok, err,
  if◌then◌else◌, ◌==◌, arith, Map, inl, inr, Bool-cases, ◌∙◌, ◌||◌,
}
use agent_exec_engine.Prelude.Int.{ℤ, pos}
use agent_exec_engine.Prelude.Logged.{lift, return}
use agent_exec_engine.Prelude.Logged.Growth.{Keeps, >>=-Keeps}
use agent_exec_engine.Sandbox.Policy.{
  RequestError, ExecutionRequest, ExecutionPolicy, validate_execution_request, merge_policy,
}
use agent_exec_engine.Sandbox.Archive.{build_workspace_archive}
use agent_exec_engine.Sandbox.Engine.{
  ContainerSpec, container_spec, Call, create, copy_to, start, wait, stop, logs, inspect, copy_from,
  force_remove, list_labelled, Docker, DockerError, WaitAnswer, wait_error, status,
  create_container, copy_archive, copy_input_files, container_start, stop_container_immediately,
  read_wait, wait_for_completion, read_logs, collect_logs, container_inspect, collect_output_files,
  remove_container, pack_entries, with_docker, with_message,
}
use agent_exec_engine.Sandbox.Engine.Execute.{run_container, created, execute_checked, execute}

-- How often the engine said that it made this container.
abbrev pub made : String → List Call → ℕ
made id [] = 0
made id (create spec (ok name) ∷ calls) = (if name == id then 1 else 0) + made id calls
made id (_ ∷ calls) = made id calls

-- How often its removal was asked for.
abbrev pub dropped : String → List Call → ℕ
dropped id [] = 0
dropped id (force_remove name ∷ calls) = (if name == id then 1 else 0) + dropped id calls
dropped id (_ ∷ calls) = dropped id calls

-- A call that neither makes a container nor removes one.
abbrev is_quiet : Call → Bool
is_quiet (create spec answer) = false
is_quiet (force_remove id) = false
is_quiet _ = true

-- A run in a container that exists makes none and removes none.
module _ (world : Docker) (id : String) (measure : List Call → ℕ)
    (quiet : (call : Call)
      → is_quiet call ≡ true
      → (calls : List Call) → measure (call ∷ calls) ≡ measure calls) where
  copy_input_files-Keeps : (files : Map String) → Keeps measure (copy_input_files world id files)
  unfolding copy_input_files
  copy_input_files-Keeps [] = λ calls. refl
  copy_input_files-Keeps (file ∷ files) =
      >>=-Keeps measure (lift (pack_entries world (build_workspace_archive (file ∷ files))))
        (copy_archive world id) (λ calls. refl)
        (λ bytes. quiet (copy_to id "/workspace" bytes) refl)

  read_wait-Keeps :
      (past : Bool) (answer : WaitAnswer) → Keeps measure (read_wait world id past answer)
  unfolding read_wait stop_container_immediately
  read_wait-Keeps past (wait_error none) calls = refl
  read_wait-Keeps past (wait_error (some e)) calls = elim (Bool-cases (e.is_deadline || past)) [
    | inl over ↦ rw over (
        >>=-Keeps measure (stop_container_immediately world id) (λ u. return (pos 0, true))
          (quiet (stop id) refl) (λ u later. refl) calls)
    | inr in_time ↦ rw in_time refl
  ]
  read_wait-Keeps past (status code none) calls = refl
  read_wait-Keeps past (status code (some text)) calls = refl

  wait_for_completion-Keeps : (timeout : ℤ) → Keeps measure (wait_for_completion world id timeout)
  unfolding wait_for_completion
  wait_for_completion-Keeps timeout calls =
      read_wait-Keeps (world.is_past_deadline calls) (world.on_wait calls) (wait id timeout ∷ calls)
      ∙ quiet (wait id timeout) refl calls

  collect_logs-Keeps : Keeps measure (collect_logs world id)
  unfolding collect_logs
  collect_logs-Keeps =
      >>=-Keeps measure (read_logs world id) (λ bytes. lift (with_message (world.demux bytes)))
        (quiet (logs id) refl) (λ bytes calls. refl)

  run_container-Keeps :
      (req : ExecutionRequest) (policy : ExecutionPolicy) (started : ℕ)
      → Keeps measure (run_container world req policy started id)
  unfolding run_container container_start container_inspect collect_output_files
  run_container-Keeps req policy started =
      >>=-Keeps measure (copy_input_files world id req.files) _ (copy_input_files-Keeps req.files)
        (λ copied.
          >>=-Keeps measure (container_start world id) _ (quiet (start id) refl) (λ running.
            >>=-Keeps measure (wait_for_completion world id policy.timeout) _
              (wait_for_completion-Keeps policy.timeout)
              (λ waited. >>=-Keeps measure (collect_logs world id) _ collect_logs-Keeps (λ output.
                >>=-Keeps measure (container_inspect world id) _ (quiet (inspect id) refl) (λ state.
                  >>=-Keeps measure (collect_output_files world id) _
                    (quiet (copy_from id "/output") refl) (λ files calls. refl))))))

made-quiet :
    (k : String) (call : Call)
    → is_quiet call ≡ true
    → (calls : List Call) → made k (call ∷ calls) ≡ made k calls
made-quiet k (create spec answer) q calls = absurd cc
made-quiet k (copy_to id path bytes) q calls = refl
made-quiet k (start id) q calls = refl
made-quiet k (wait id timeout) q calls = refl
made-quiet k (stop id) q calls = refl
made-quiet k (logs id) q calls = refl
made-quiet k (inspect id) q calls = refl
made-quiet k (copy_from id path) q calls = refl
made-quiet k (force_remove id) q calls = absurd cc
made-quiet k list_labelled q calls = refl

dropped-quiet :
    (k : String) (call : Call)
    → is_quiet call ≡ true
    → (calls : List Call) → dropped k (call ∷ calls) ≡ dropped k calls
dropped-quiet k (create spec answer) q calls = absurd cc
dropped-quiet k (copy_to id path bytes) q calls = refl
dropped-quiet k (start id) q calls = refl
dropped-quiet k (wait id timeout) q calls = refl
dropped-quiet k (stop id) q calls = refl
dropped-quiet k (logs id) q calls = refl
dropped-quiet k (inspect id) q calls = refl
dropped-quiet k (copy_from id path) q calls = refl
dropped-quiet k (force_remove id) q calls = absurd cc
dropped-quiet k list_labelled q calls = refl

-- What the engine made is what was asked to be removed, for every container.
unfoldable pub IsClean : List Call → Type 0
IsClean calls = (id : String) → made id calls ≡ dropped id calls

module _ (world : Docker) (req : ExecutionRequest) (policy : ExecutionPolicy) (started : ℕ) where
  created-IsClean :
      (spec : ContainerSpec) (answer : Result DockerError String) (calls : List Call)
      → IsClean calls
      → IsClean
          (created world req policy started (with_docker answer, create spec answer ∷ calls)).1
  unfolding remove_container IsClean
  created-IsClean spec (err e) calls clean k = clean k
  created-IsClean spec (ok id) calls clean k =
      let made_now = create spec (ok id) ∷ calls in
      ground (
        arith,
        run_container-Keeps world id (made k) (made-quiet k) req policy started made_now,
        run_container-Keeps world id (dropped k) (dropped-quiet k) req policy started made_now,
        clean k,
      )

execute_checked-IsClean :
    (world : Docker) (defaults : ExecutionPolicy) (req : ExecutionRequest) (calls : List Call)
    → (valid : Result RequestError (Unit {0})) → IsClean calls
    → IsClean (execute_checked world defaults req calls valid).1
unfolding execute_checked create_container
execute_checked-IsClean world defaults req calls (err e) clean = clean
execute_checked-IsClean world defaults req calls (ok valid) clean =
    let policy = merge_policy defaults req.policy in
    let spec = container_spec world req policy in
    created-IsClean world req policy (world.now calls) spec (world.on_create calls spec) calls clean

-- A request leaves no container behind: on every path, an error of any of the engine's calls
-- included, each container that the engine made is asked to be removed exactly as often.
pub execute-IsClean :
    (world : Docker) (defaults : ExecutionPolicy) (req : ExecutionRequest) (calls : List Call)
    → IsClean calls
    → IsClean (execute world defaults req calls).1
unfolding execute
execute-IsClean world defaults req calls =
    execute_checked-IsClean world defaults req calls (validate_execution_request req)
