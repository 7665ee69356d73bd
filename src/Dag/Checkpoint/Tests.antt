-- ===== src/Dag/Checkpoint/Tests.antt =====
-- A run that is saved, loaded and restored, and the theorems at concrete inputs. The codec of the
-- tests knows the checkpoints of one run that have no states.
use agent_exec_engine.Prelude.{
  ℕ, ◌≡◌, refl, Bool, true, false, ◌&&◌, [], ◌∷◌, none, some, if◌then◌else◌, eqb, ◌==◌, eq_iff, Map,
  lookup, insert, contains, ok, err, arith,
}
use agent_exec_engine.Prelude.Int.{pos}
use agent_exec_engine.Types.{StepStatus, StepState, Checkpoint, status_eq}
use agent_exec_engine.Store.Memory.{MemoryStore, new_memory_store, get, set}
use agent_exec_engine.Dag.Samples.{triangle}
use agent_exec_engine.Dag.Checkpoint.{
  CheckpointCodec, checkpoint_conflict, checkpoint_key, load, write_next, save, restore_states,
}
use agent_exec_engine.Dag.Checkpoint.Versions.{
  IsFaithful, load-save, save-conflict, restore_states-running,
}

abbrev at_version : ℕ → ℕ → Checkpoint
at_version time n = record {
  run_id = "r";
  workflow_id = "w";
  step_states = [];
  timestamp = time;
  version = n;
}

abbrev has_no_states : Map StepState → Bool
has_no_states [] = true
has_no_states (s ∷ states) = false

abbrev is_known : Checkpoint → Bool
is_known cp =
    cp.run_id == "r"
    && cp.workflow_id == "w"
    && has_no_states cp.step_states
    && eqb cp.timestamp 5
    && eqb cp.version 1

abbrev codec : CheckpointCodec
codec = record {
  marshal = λ cp. if is_known cp then ok "first" else err "unknown";
  unmarshal = λ payload. if payload == "first" then ok (at_version 5 1) else err "unknown";
}

no_states : (states : Map StepState) → has_no_states states ≡ true → states ≡ []
no_states [] h = refl
no_states (s ∷ states) h = absurd (ground arith)

codec-IsFaithful : IsFaithful codec
codec-IsFaithful = record {
  unmarshal-marshal = λ cp payload e. ground (
    arith,
    e,
    eq_iff cp.run_id "r",
    eq_iff cp.workflow_id "w",
    no_states cp.step_states,
    eq_iff payload "first",
  );
}

abbrev store_after : MemoryStore
store_after = (save codec false 5 (at_version 0 0) new_memory_store).1

load-save_example :
    (at_version 5 1 ≡ record (at_version 0 0) { timestamp = 5; version = 1 })
    × ((load codec false 9 "r" store_after).0 ≡ ok (at_version 5 1))
unfolding save load write_next get set checkpoint_key lookup insert
load-save_example =
    load-save codec codec-IsFaithful 5 9 (at_version 0 0) (at_version 5 1) new_memory_store refl
      (omega arith)

save-conflict_example :
    save codec false 9 (at_version 0 0) store_after ≡ (err (checkpoint_conflict 1 0), store_after)
unfolding save load write_next get set checkpoint_key lookup insert
save-conflict_example =
    save-conflict codec codec-IsFaithful 5 9 (at_version 0 0) (at_version 5 1) (at_version 0 0)
      new_memory_store refl (omega arith) refl (λ e. absurd (omega (arith, e)))

abbrev was_running : StepState
was_running = record {
  step_id = "a";
  status = StepStatus.running;
  started_at = some 3;
  completed_at = none;
  output = "";
  error = "";
  retry_count = 1;
  tokens_used = pos 0;
}

restore_states-running_example : status_eq StepStatus.pending StepStatus.running ≡ false
unfolding restore_states lookup insert contains
restore_states-running_example =
    restore_states-running triangle (("a", was_running) ∷ []) "a"
      (record was_running { status = StepStatus.pending; started_at = none }) refl refl
