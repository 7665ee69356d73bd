-- ===== src/Sandbox/Tests.antt =====
-- Requests against an engine that answers one way, and the theorems at concrete inputs.
use agent_exec_engine.Prelude.{◌≡◌, refl, true, false, [], ◌∷◌, none, some, ok, err, contains}
use agent_exec_engine.Prelude.Int.{pos}
use agent_exec_engine.Prelude.Texts.{
  trim_space, trim_left, trim_right, trim_prefix, drop_prefix, has_prefix, split,
}
use agent_exec_engine.Paths.{FilePath, parse, clean_part, clean_parts, clean}
use agent_exec_engine.Sandbox.Policy.{ExecutionRequest, default_policy}
use agent_exec_engine.Sandbox.Archive.{strip_workspace, check_path, normalize_workspace_path}
use agent_exec_engine.Sandbox.Archive.Inside.{normalize_workspace_path-inside}
use agent_exec_engine.Sandbox.Engine.{Docker, wait_error, DockerError}
use agent_exec_engine.Sandbox.Engine.Execute.{execute}
use agent_exec_engine.Sandbox.Engine.Cleanup.{IsClean, execute-IsClean}

abbrev request : ExecutionRequest
request = record {
  image = "alpine:3.19";
  command = "sh" ∷ "-c" ∷ "sleep 60" ∷ [];
  env = ("MODE", "fast") ∷ [];
  files = ("in/data.txt", "1 2 3") ∷ [];
  policy = record default_policy { memory_limit = pos 1048576; read_only_fs = false };
}

abbrev late : DockerError
late = record {
  message = "context deadline exceeded";
  is_not_found = false;
  is_deadline = true;
  is_no_such_path = false;
}

-- The command takes too long, and the container's logs cannot be read.
abbrev engine : Docker
engine = record {
  on_create = λ calls spec. ok "c1";
  on_copy_to = λ calls. none;
  on_start = λ calls. none;
  on_wait = λ calls. wait_error (some late);
  is_past_deadline = λ calls. true;
  on_stop = λ calls. none;
  on_logs = λ calls. err late;
  on_inspect = λ calls. ok none;
  on_copy_from = λ calls. err late;
  on_remove = λ calls. none;
  on_list = λ calls. ok [];
  now = λ calls. 0;
  pack = λ entries. ok "archive";
  unpack = λ bytes. [];
  demux = λ bytes. ok ("", "");
  print = λ n. "67108864";
}

execute-IsClean_example : IsClean (execute engine default_policy request []).1
unfolding IsClean
execute-IsClean_example = execute-IsClean engine default_policy request [] (λ id. refl)

abbrev data_path : FilePath
data_path = record { rooted = false; parts = "in" ∷ "data.txt" ∷ [] }

normalize_workspace_path-inside_example : contains data_path.parts ".." ≡ false
unfolding normalize_workspace_path check_path strip_workspace parse clean clean_parts clean_part
    split trim_space trim_left trim_right trim_prefix drop_prefix has_prefix
normalize_workspace_path-inside_example =
    normalize_workspace_path-inside "/workspace/in/../in/data.txt" data_path refl
