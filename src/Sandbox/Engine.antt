-- ===== src/Sandbox/Engine.antt =====
-- internal/sandbox/lifecycle.go: the calls of the container engine. The engine is a parameter: what
-- it answers to a call may depend on all the calls before. The calls are kept, newest first.
pub mod Execute
pub mod Cleanup
use agent_exec_engine.Prelude.{
  ℕ, ◌-◌, String, Bool, true, false, List, [], ◌∷◌, ◌||◌, Option, none, some, if◌then◌else◌, ◌==◌,
  Map, lookup, keys, get_or, Result, ok, err,
}
use agent_exec_engine.Prelude.Int.{ℤ, pos}
use agent_exec_engine.Prelude.Logged.{Logged, ◌>>=◌, ◌>>◌, return, lift}
use agent_exec_engine.Sandbox.Policy.{ExecutionRequest, ExecutionPolicy, RequestError}
use agent_exec_engine.Sandbox.Archive.{
  Entry, Header, ArchiveError, build_workspace_archive, extract_output_archive, sort,
}
use Prim.Native.String.{◌++◌ as str_append}

-- errdefs.IsNotFound, errors.Is with context.DeadlineExceeded, and whether the text contains
-- "No such container:path".
pub record DockerError : Type 0 where
  pub message : String
  pub is_not_found : Bool
  pub is_deadline : Bool
  pub is_no_such_path : Bool

pub data SandboxError : Type 0 where
  invalid : RequestError → SandboxError
  archive : ArchiveError → SandboxError
  docker : DockerError → SandboxError
  message : String → SandboxError

-- container.Config and container.HostConfig, as `createContainer` fills them.
pub record ContainerSpec : Type 0 where
  pub image : String
  pub command : List String
  pub env : List String
  pub working_dir : String
  pub labels : Map String
  pub cpu_period : ℕ
  pub cpu_quota : ℤ
  pub memory : ℤ
  pub pids_limit : ℤ
  pub read_only : Bool
  pub tmpfs : Map String
  pub network_mode : String

pub data Call : Type 0 where
  create : ContainerSpec → Result DockerError String → Call
  copy_to : String → String → String → Call
  start : String → Call
  wait : String → ℤ → Call
  stop : String → Call
  logs : String → Call
  inspect : String → Call
  copy_from : String → String → Call
  force_remove : String → Call
  list_labelled : Call

-- What comes first out of the two channels of `ContainerWait`.
pub data WaitAnswer : Type 0 where
  wait_error : Option DockerError → WaitAnswer
  status : ℤ → Option String → WaitAnswer

-- The container's state in the answer of `ContainerInspect`.
pub record ContainerState : Type 0 where
  pub exit_code : ℤ
  pub oom_killed : Bool

-- The engine's client, the context's deadline, the clock, and the formats tar and stdcopy.
pub record Docker : Type 0 where
  pub on_create : List Call → ContainerSpec → Result DockerError String
  pub on_copy_to : List Call → Option DockerError
  pub on_start : List Call → Option DockerError
  pub on_wait : List Call → WaitAnswer
  pub is_past_deadline : List Call → Bool
  pub on_stop : List Call → Option DockerError
  pub on_logs : List Call → Result DockerError String
  pub on_inspect : List Call → Result DockerError (Option ContainerState)
  pub on_copy_from : List Call → Result DockerError String
  pub on_remove : List Call → Option DockerError
  pub on_list : List Call → Result DockerError (List String)
  pub now : List Call → ℕ
  pub pack : List Entry → Result String String
  pub unpack : String → List (Result String Header)
  pub demux : String → Result String (String × String)
  pub print : ℤ → String

abbrev pub Run {ℓ} : Type ℓ → Type ℓ
Run A = Logged Call SandboxError A

-- An answer of the engine that carries a value, or an error that is not nil.
module _ {A : Type 0} where
  abbrev pub with_docker : Result DockerError A → Result SandboxError A
  with_docker (ok a) = ok a
  with_docker (err e) = err (docker e)

  abbrev pub with_message : Result String A → Result SandboxError A
  with_message (ok a) = ok a
  with_message (err e) = err (message e)

abbrev done_or : Option DockerError → Result SandboxError (Unit {0})
done_or none = ok tt
done_or (some e) = err (docker e)

-- `err != nil && !errdefs.IsNotFound(err)`
abbrev unless_not_found : Option DockerError → Result SandboxError (Unit {0})
unless_not_found none = ok tt
unless_not_found (some e) = if e.is_not_found then ok tt else err (docker e)

abbrev format_env : Map String → List String → List String
format_env env [] = []
format_env env (key ∷ ks) =
    str_append key (str_append "=" (get_or "" (lookup key env))) ∷ format_env env ks

unfoldable env_to_slice : Map String → List String
env_to_slice env = format_env env (sort (keys env))

module _ (world : Docker) where
  unfoldable tmpfs_mounts : ℤ → Map String
  tmpfs_mounts disk_limit =
      let mount_size = str_append "size=" (world.print disk_limit) in
      ("/tmp", mount_size) ∷ ("/workspace", mount_size) ∷ ("/output", mount_size) ∷ []

  unfoldable pub container_spec : ExecutionRequest → ExecutionPolicy → ContainerSpec
  unfolding tmpfs_mounts env_to_slice
  container_spec req policy = record {
    image = req.image;
    command = req.command;
    env = env_to_slice req.env;
    working_dir = "/workspace";
    labels = ("agent-exec-sandbox", "true") ∷ [];
    cpu_period = 100000;
    cpu_quota = policy.cpu_quota;
    memory = policy.memory_limit;
    pids_limit = policy.pids_limit;
    read_only = policy.read_only_fs;
    tmpfs = tmpfs_mounts policy.disk_limit;
    network_mode = policy.network_mode;
  }

  unfoldable pub create_container : ExecutionRequest → ExecutionPolicy → Run String
  unfolding container_spec
  create_container req policy calls =
      let spec = container_spec req policy in
      let answer = world.on_create calls spec in (with_docker answer, create spec answer ∷ calls)

  abbrev pub copy_archive : String → String → Run (Unit {0})
  copy_archive id bytes calls =
      (done_or (world.on_copy_to calls), copy_to id "/workspace" bytes ∷ calls)

  abbrev pub pack_entries : Result ArchiveError (List Entry) → Result SandboxError String
  pack_entries (ok entries) = with_message (world.pack entries)
  pack_entries (err e) = err (archive e)

  unfoldable pub copy_input_files : String → Map String → Run (Unit {0})
  unfolding build_workspace_archive
  copy_input_files id [] = return tt
  copy_input_files id (file ∷ files) = do
    bytes ← lift (pack_entries (build_workspace_archive (file ∷ files)))
    copy_archive id bytes

  unfoldable pub container_start : String → Run (Unit {0})
  container_start id calls = (done_or (world.on_start calls), start id ∷ calls)

  unfoldable pub stop_container_immediately : String → Run (Unit {0})
  stop_container_immediately id calls = (unless_not_found (world.on_stop calls), stop id ∷ calls)

  -- The two channels' cases; the value is the exit code, and whether the time was over.
  unfoldable pub read_wait : String → Bool → WaitAnswer → Run (ℤ × Bool)
  unfolding stop_container_immediately
  read_wait id past (wait_error none) = return (pos 0, false)
  read_wait id past (wait_error (some e)) =
      if e.is_deadline || past
      then (do stop_container_immediately id; return (pos 0, true))
      else lift (err (docker e))
  read_wait id past (status code none) = return (code, false)
  read_wait id past (status code (some text)) = lift (err (message text))

  unfoldable pub wait_for_completion : String → ℤ → Run (ℤ × Bool)
  unfolding read_wait
  wait_for_completion id timeout calls =
      read_wait id (world.is_past_deadline calls) (world.on_wait calls) (wait id timeout ∷ calls)

  abbrev pub read_logs : String → Run String
  read_logs id calls = (with_docker (world.on_logs calls), logs id ∷ calls)

  unfoldable pub collect_logs : String → Run (String × String)
  collect_logs id = do bytes ← read_logs id; lift (with_message (world.demux bytes))

  unfoldable pub container_inspect : String → Run (Option ContainerState)
  container_inspect id calls = (with_docker (world.on_inspect calls), inspect id ∷ calls)

  abbrev with_archive : Result ArchiveError (Map String) → Result SandboxError (Map String)
  with_archive (ok files) = ok files
  with_archive (err e) = err (archive e)

  -- An output directory that is missing stands for no files.
  abbrev read_output : Result DockerError String → Result SandboxError (Map String)
  read_output (err e) = if e.is_not_found || e.is_no_such_path then ok [] else err (docker e)
  read_output (ok bytes) = with_archive (extract_output_archive (world.unpack bytes) [])

  unfoldable pub collect_output_files : String → Run (Map String)
  unfolding extract_output_archive
  collect_output_files id calls =
      (read_output (world.on_copy_from calls), copy_from id "/output" ∷ calls)

  unfoldable pub remove_container : String → Run (Unit {0})
  remove_container id calls = (unless_not_found (world.on_remove calls), force_remove id ∷ calls)
