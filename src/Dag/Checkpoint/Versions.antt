-- ===== src/Dag/Checkpoint/Versions.antt =====
-- Optimistic locking by versions, and what a restored scheduler starts from.
use agent_exec_engine.Prelude.{
  ap, ◌∙◌, sym, subst, Bool-cases, inl, inr, ◌==◌, ℕ, suc, ◌+◌, ◌*◌, ◌≤◌, String, ◌≡◌, ◌≢◌, refl,
  true, false, some, lookup, insert, lookup-insert, eq_iff, eq_refl, Result, ok, err, arith, List,
  [], ◌∷◌, Map, contains,
}
use agent_exec_engine.Types.{StepStatus, Step, StepState, Checkpoint, status_eq}
use agent_exec_engine.Store.Interface.{second}
use agent_exec_engine.Store.Memory.{MemoryStore, set}
use agent_exec_engine.Store.Memory.Laws.{get-set_self, get-set_store}
use agent_exec_engine.Dag.Graph.Wellformed.{ids}
use agent_exec_engine.Dag.Checkpoint.{
  checkpoint_conflict, CheckpointCodec, checkpoint_key, checkpoint_ttl_seconds, load, save,
  write_next, next_checkpoint, restored_state, restore_states,
}

-- What the program relies on of JSON: a checkpoint that was encoded is decoded as it was.
pub record IsFaithful (codec : CheckpointCodec) : Type 0 where
  pub unmarshal-marshal :
      (cp : Checkpoint) (payload : String)
      → codec.marshal cp ≡ ok payload
      → codec.unmarshal payload ≡ ok cp

module _ (codec : CheckpointCodec) (faithful : IsFaithful codec) (now : ℕ)
    (cp saved : Checkpoint) where
  load-write_next :
      (later : ℕ) (m : MemoryStore) (r : Result String String)
      → codec.marshal (next_checkpoint now cp) ≡ r
      → (write_next codec false now cp r m).0 ≡ ok saved
      → later ≤ now + checkpoint_ttl_seconds * second
      → (saved ≡ next_checkpoint now cp)
        × ((load codec false later cp.run_id (write_next codec false now cp r m).1).0 ≡ ok saved)
  unfolding write_next load set
  load-write_next later m (err text) f e h = absurd (ground arith)
  load-write_next later m (ok payload) f e h = ground (
    arith,
    get-set_self now later (checkpoint_key cp.run_id) payload checkpoint_ttl_seconds m,
    faithful.unmarshal-marshal (next_checkpoint now cp) payload f,
  )

  load-store :
      (later : ℕ) (m : MemoryStore) (r : Result String String)
      → (write_next codec false now cp r m).0 ≡ ok saved
      → later ≤ now + checkpoint_ttl_seconds * second
      → (load codec false later cp.run_id (write_next codec false now cp r m).1).1
        ≡ (write_next codec false now cp r m).1
  unfolding write_next load
  load-store later m (err text) e h = absurd (ground arith)
  load-store later m (ok payload) e h =
      get-set_store now later (checkpoint_key cp.run_id) payload checkpoint_ttl_seconds m h

  save-write_next :
      (m : MemoryStore)
      → (save codec false now cp m).0 ≡ ok saved
      → save codec false now cp m
        ≡ write_next codec false now cp
            (codec.marshal (next_checkpoint now cp))
            (load codec false now cp.run_id m).1
  unfolding save
  save-write_next m e = ground arith

-- With a faithful codec, a save that succeeds raises the version by one and changes nothing but
-- the version and the time; a load of the run returns what was saved as long as it lives.
pub load-save :
    (codec : CheckpointCodec)
    → IsFaithful codec
    → (now later : ℕ) (cp saved : Checkpoint) (m : MemoryStore)
    → (save codec false now cp m).0 ≡ ok saved
    → later ≤ now + checkpoint_ttl_seconds * second
    → (saved ≡ record cp { timestamp = now; version = suc cp.version })
      × ((load codec false later cp.run_id (save codec false now cp m).1).0 ≡ ok saved)
load-save codec faithful now later cp saved m e h =
    let same = save-write_next codec faithful now cp saved m e in
    let wrote : (write_next codec false now cp (codec.marshal (next_checkpoint now cp))
          (load codec false now cp.run_id m).1).0
        ≡ ok saved =
      rw same at e in
    rw same (
      load-write_next codec faithful now cp saved later (load codec false now cp.run_id m).1
        (codec.marshal (next_checkpoint now cp)) refl wrote h)

save-refused :
    (codec : CheckpointCodec) (now : ℕ) (cp current : Checkpoint) (m : MemoryStore)
    → (load codec false now cp.run_id m).0 ≡ ok current
    → (load codec false now cp.run_id m).1 ≡ m
    → cp.version ≢ current.version
    → save codec false now cp m ≡ (err (checkpoint_conflict current.version cp.version), m)
unfolding save
save-refused codec now cp current m found unchanged other = ground arith

-- Optimistic locking: after a save of a run, as long as the checkpoint lives, a save of the same
-- run from any version but the new one is refused as a conflict, and nothing is written.
pub save-conflict :
    (codec : CheckpointCodec)
    → IsFaithful codec
    → (now later : ℕ) (cp saved stale : Checkpoint) (m : MemoryStore)
    → (save codec false now cp m).0 ≡ ok saved
    → later ≤ now + checkpoint_ttl_seconds * second
    → stale.run_id ≡ cp.run_id
    → stale.version ≢ suc cp.version
    → save codec false later stale (save codec false now cp m).1
      ≡ (err (checkpoint_conflict (suc cp.version) stale.version), (save codec false now cp m).1)
save-conflict codec faithful now later cp saved stale m e h same other =
    let m' = (save codec false now cp m).1 in
    let written = save-write_next codec faithful now cp saved m e in
    let wrote : (write_next codec false now cp (codec.marshal (next_checkpoint now cp))
          (load codec false now cp.run_id m).1).0
        ≡ ok saved =
      rw written at e in
    let (next, found) = load-save codec faithful now later cp saved m e h in
    let version : saved.version ≡ suc cp.version = ap (λ (c : Checkpoint). c.version) next in
    let unchanged : (load codec false later cp.run_id m').1 ≡ m' = rw written (
      load-store codec faithful now cp saved later (load codec false now cp.run_id m).1
        (codec.marshal (next_checkpoint now cp)) wrote h) in
    rw (sym version) (
      save-refused codec later stale saved m' (rw same found) (rw same unchanged)
        (λ k. other (k ∙ version)))

abbrev IsCalm : String → Map StepState → Type 0
IsCalm id states =
    (state : StepState)
    → lookup id states ≡ some state
    → status_eq state.status StepStatus.running ≡ false

insert-IsCalm :
    (key id : String) (states : Map StepState)
    → IsCalm id states
    → IsCalm id (insert key (restored_state key (lookup key states)) states)
insert-IsCalm key id states calm state e = ground (
  arith,
  calm state,
  lookup-insert key id (restored_state key (lookup key states)) states,
  eq_iff key id,
)

insert-IsCalm_self :
    (id : String) (states : Map StepState)
    → IsCalm id (insert id (restored_state id (lookup id states)) states)
insert-IsCalm_self id states state e =
    ground (arith, lookup-insert id id (restored_state id (lookup id states)) states, eq_refl id)

restore_states-IsCalm :
    (steps : List Step) (id : String) (states : Map StepState)
    → IsCalm id states
    → IsCalm id (restore_states steps states)
unfolding restore_states
restore_states-IsCalm [] id states calm = calm
restore_states-IsCalm (step ∷ rest) id states calm =
    restore_states-IsCalm rest id
      (insert step.id (restored_state step.id (lookup step.id states)) states)
      (insert-IsCalm step.id id states calm)

-- After the first loop of RestoreScheduler no step of the workflow is running, whatever the
-- checkpoint says of it.
pub restore_states-running :
    (steps : List Step) (states : Map StepState) (id : String) (state : StepState)
    → lookup id (restore_states steps states) ≡ some state
    → contains (ids steps) id ≡ true
    → status_eq state.status StepStatus.running ≡ false
unfolding restore_states contains
restore_states-running [] states id state e h = ground arith
restore_states-running (step ∷ rest) states id state e h =
    let states' = insert step.id (restored_state step.id (lookup step.id states)) states in
    elim (Bool-cases (step.id == id)) [
      | inl here ↦
          restore_states-IsCalm rest id states'
            (subst (λ k. IsCalm k states') (ground (arith, here, eq_iff step.id id))
              (insert-IsCalm_self step.id states))
            state e
      | inr other ↦ restore_states-running rest states' id state e (ground (arith, other))
    ]
