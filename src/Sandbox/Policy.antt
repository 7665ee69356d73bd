-- ===== src/Sandbox/Policy.antt =====
-- internal/sandbox/executor.go and lifecycle.go: limits of a container, and requests.
pub mod Merge
use agent_exec_engine.Prelude.{
  ℕ, ◌*◌, String, Bool, true, false, not, List, [], ◌∷◌, if◌then◌else◌, ◌==◌, Map, Result, ok, err,
}
use agent_exec_engine.Prelude.Int.{ℤ, pos, is_positive}

pub record ExecutionPolicy : Type 0 where
  pub cpu_quota : ℤ
  pub memory_limit : ℤ
  pub pids_limit : ℤ
  pub disk_limit : ℤ
  pub timeout : ℤ
  pub network_mode : String
  pub read_only_fs : Bool
  pub allowed_hosts : List String

abbrev pub default_policy : ExecutionPolicy
default_policy = record {
  cpu_quota = pos 100000;
  memory_limit = pos 268435456;
  pids_limit = pos 64;
  disk_limit = pos 67108864;
  timeout = pos 30000000000;
  network_mode = "none";
  read_only_fs = true;
  allowed_hosts = [];
}

pub record ExecutionRequest : Type 0 where
  pub image : String
  pub command : List String
  pub env : Map String
  pub files : Map String
  pub policy : ExecutionPolicy

pub record ExecutionResult : Type 0 where
  pub exit_code : ℤ
  pub stdout : String
  pub stderr : String
  pub duration : ℕ
  pub oom_killed : Bool
  pub timed_out : Bool
  pub files : Map String

pub data RequestError : Type 0 where
  image_required command_required hosts_not_implemented : RequestError

abbrev pub is_empty : List String → Bool
is_empty [] = true
is_empty (x ∷ xs) = false

unfoldable pub validate_execution_request : ExecutionRequest → Result RequestError (Unit {0})
validate_execution_request req =
    if req.image == ""
    then err image_required
    else if is_empty req.command
    then err command_required
    else if not (is_empty req.policy.allowed_hosts)
    then err hosts_not_implemented
    else ok tt

abbrev positive_or : ℤ → ℤ → ℤ
positive_or override base = if is_positive override then override else base

-- override != base
abbrev differs : Bool → Bool → Bool
differs true b = not b
differs false b = b

unfoldable pub merge_policy : ExecutionPolicy → ExecutionPolicy → ExecutionPolicy
merge_policy base override = record {
  cpu_quota = positive_or override.cpu_quota base.cpu_quota;
  memory_limit = positive_or override.memory_limit base.memory_limit;
  pids_limit = positive_or override.pids_limit base.pids_limit;
  disk_limit = positive_or override.disk_limit base.disk_limit;
  timeout = positive_or override.timeout base.timeout;
  network_mode = if override.network_mode == "" then base.network_mode else override.network_mode;
  read_only_fs =
      if differs override.read_only_fs base.read_only_fs
      then override.read_only_fs
      else base.read_only_fs;
  allowed_hosts =
      if is_empty override.allowed_hosts then base.allowed_hosts else override.allowed_hosts;
}
