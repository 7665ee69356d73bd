-- ===== src/Infra.antt =====
-- internal/infra/scheduler_client.go: GPU reservations at the platform's API, which is a parameter.
pub mod Pairs
mod Tests
use Prim.Native.String.{◌++◌ as str_append}
use agent_exec_engine.Prelude.{
  ℕ, String, ◌||◌, List, ◌∷◌, Option, none, some, if◌then◌else◌, ◌==◌, eqb, ltb, leb, Map, lookup,
  insert, delete, Result, ok, err,
}
use agent_exec_engine.Prelude.Int.{ℤ, is_positive}
use agent_exec_engine.Prelude.Logged.{Logged, ◌>>=◌, return, lift}

-- The body of the request that makes a reservation; its constant fields are left to `encode`.
pub record Reservation : Type 0 where
  pub name : String
  pub task_id : String
  pub gpu : ℤ
  pub gpu_memory : String

pub data JobCall : Type 0 where
  create : Reservation → JobCall
  schedule : String → JobCall
  cancel : String → JobCall

pub data InfraError : Type 0 where
  request_failed decode_failed : String → InfraError
  status_failed : ℕ → String → InfraError
  missing_job_id : InfraError
  no_reservation : String → InfraError

-- What `doJSON` gives, a status with a body or an error; the job's id in a body.
pub record Platform : Type 0 where
  pub on_call : List JobCall → JobCall → Result String (ℕ × String)
  pub decode_id : String → Result String String
  pub print : ℤ → String

abbrev pub Run : Type 0 → Type 0
Run A = Logged JobCall InfraError A

abbrev pub Reservations : Type 0
Reservations = Map String

abbrev pub answered : Result String (ℕ × String) → Result InfraError (ℕ × String)
answered (ok answer) = ok answer
answered (err e) = err (request_failed e)

abbrev pub succeeded : ℕ × String → Result InfraError (Unit {0})
succeeded (status, payload) =
    if ltb status 200 || leb 300 status then err (status_failed status payload) else ok tt

module _ (world : Platform) where
  abbrev do_json : JobCall → Run (ℕ × String)
  do_json c calls = (answered (world.on_call calls c), c ∷ calls)

  unfoldable pub format_gpu_memory : ℤ → String
  format_gpu_memory memory_min =
      if is_positive memory_min then str_append (world.print memory_min) "Mi" else ""

  abbrev job_id : Result String String → Result InfraError String
  job_id (err e) = err (decode_failed e)
  job_id (ok id) = if id == "" then err missing_job_id else ok id

  abbrev pub created : ℕ × String → Result InfraError String
  created (status, payload) =
      if eqb status 201
      then job_id (world.decode_id payload)
      else err (status_failed status payload)

  unfoldable pub create_reservation : String → ℤ → ℤ → Run String
  unfolding format_gpu_memory
  create_reservation task_id gpu_count memory_min = do
    answer ← do_json (
        create (record {
          name = str_append "agent-exec-" task_id;
          task_id = task_id;
          gpu = gpu_count;
          gpu_memory = format_gpu_memory memory_min;
        }))
    lift (created answer)

  unfoldable pub schedule_reservation : String → Run (Unit {0})
  schedule_reservation id = do answer ← do_json (schedule id); lift (succeeded answer)

  -- The client's reservations after the request; where it fails they stay as they were.
  unfoldable pub request_gpu : String → ℤ → ℤ → Reservations → Run Reservations
  unfolding create_reservation schedule_reservation
  request_gpu task_id gpu_count memory_min reservations = do
    id ← create_reservation task_id gpu_count memory_min
    scheduled ← schedule_reservation id
    return (insert task_id id reservations)

  abbrev cancel_job : String → Reservations → Option String → Run Reservations
  cancel_job task_id reservations none = lift (err (no_reservation task_id))
  cancel_job task_id reservations (some id) = do
    answer ← do_json (cancel id)
    cancelled ← lift (succeeded answer)
    return (delete task_id reservations)

  unfoldable pub release_gpu : String → Reservations → Run Reservations
  release_gpu task_id reservations = cancel_job task_id reservations (lookup task_id reservations)
