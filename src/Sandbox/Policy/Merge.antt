-- ===== src/Sandbox/Policy/Merge.antt =====
-- internal/sandbox/lifecycle.go: what a request can make of the limits.
use agent_exec_engine.Prelude.{◌≡◌, refl, true, arith}
use agent_exec_engine.Prelude.Int.{is_positive}
use agent_exec_engine.Sandbox.Policy.{ExecutionPolicy, default_policy, merge_policy}

-- Every limit is set.
pub record IsLimited (p : ExecutionPolicy) : Type 0 where
  pub cpu : is_positive p.cpu_quota ≡ true
  pub memory : is_positive p.memory_limit ≡ true
  pub pids : is_positive p.pids_limit ≡ true
  pub disk : is_positive p.disk_limit ≡ true
  pub time : is_positive p.timeout ≡ true

-- Whatever a request asks for, its container has a positive limit wherever the defaults have one.
-- The root file system, though, is read-only exactly when the request says so, whatever the default.
merge_policy-IsLimited :
    (base override : ExecutionPolicy)
    → IsLimited base
    → IsLimited (merge_policy base override)
      × ((merge_policy base override).read_only_fs ≡ override.read_only_fs)
unfolding merge_policy
merge_policy-IsLimited base override w = (
  record {
    cpu = ground (arith, w.cpu);
    memory = ground (arith, w.memory);
    pids = ground (arith, w.pids);
    disk = ground (arith, w.disk);
    time = ground (arith, w.time);
  },
  ground arith,
)

default_policy-IsLimited : IsLimited default_policy
default_policy-IsLimited = record {
  cpu = refl;
  memory = refl;
  pids = refl;
  disk = refl;
  time = refl;
}
