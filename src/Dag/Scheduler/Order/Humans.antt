-- ===== src/Dag/Scheduler/Order/Humans.antt =====
-- internal/dag/scheduler_run.go: the order of a run's steps, when a human step is completed.
use agent_exec_engine.Prelude.{
  ◌+◌, ◌≡◌, refl, String, true, false, List, some, ◌==◌, Map, lookup, insert, lookup-insert,
  eq_refl, arith, Option-cases, Result-cases, Bool-cases, inl, inr,
}
use agent_exec_engine.Types.{
  StepStatus, success, failed, timeout, skipped, cancelled, status_eq, step_completed, Value, Step,
}
use agent_exec_engine.Dag.Step.{can_transition, transition_with_log}
use agent_exec_engine.Dag.Scheduler.Machine.{
  cannot_transition, not_paused_on, encode_error, panic, World, Scheduler, pure, ◌>>=◌, ◌>>◌,
  get_state, put_state,
}
use agent_exec_engine.Dag.Scheduler.Steps.{emit, save_checkpoint}
use agent_exec_engine.Dag.Scheduler.Batch.{complete}
use agent_exec_engine.Dag.Scheduler.Loop.{complete_human_step}
use agent_exec_engine.Dag.Scheduler.Order.{
  settled_in, Sound, Any, Holds, and_then-Sound, Sound-after, Sound-throw, put_state-Inv,
}
use agent_exec_engine.Dag.Scheduler.Order.Graphs.{complete-Sound}
use agent_exec_engine.Dag.Scheduler.Order.Steps.{emit-Sound}
use agent_exec_engine.Dag.Scheduler.Order.Batches.{Ready, saved-Sound}

-- Only a step that runs may succeed.
success-begun :
    (status : StepStatus)
    → can_transition status success ≡ true
    → status_eq status StepStatus.pending ≡ false
unfolding can_transition
success-begun StepStatus.pending h = absurd (ground (arith, h))
success-begun StepStatus.running h = refl
success-begun success h = refl
success-begun failed h = refl
success-begun timeout h = refl
success-begun skipped h = refl
success-begun cancelled h = refl

module _ (world : World) (steps : List Step) where
  emit-settled :
      (id : String) (s : Scheduler)
      → settled_in s.run.step_states id ≡ true
      → settled_in (emit world step_completed id "" s).1.run.step_states id ≡ true
  unfolding emit
  emit-settled id s h = ground (arith, h)

  human-Sound :
      (id : String) (s : Scheduler)
      → Holds steps s
      → settled_in s.run.step_states id ≡ true
      → Sound steps Ready s (
          (emit world step_completed id ""
              >> (complete id >>= λ ready. save_checkpoint world >> pure ready))
            s)
  human-Sound id s w h =
      let told = emit-Sound world steps step_completed id "" s w in
      let r1 = emit world step_completed id "" s in
      let done = complete-Sound steps id r1.1 told.inv (emit-settled id s h) in
      let r2 = complete id r1.1 in
      and_then-Sound steps Any Ready s r1
        (λ _. complete id >>= λ ready. save_checkpoint world >> pure ready) told
        (λ a e p.
          and_then-Sound steps Ready Ready r1.1 r2 (λ ready. save_checkpoint world >> pure ready)
            done (λ ready f met. saved-Sound world steps ready r2.1 done.inv met))

  pub complete_human_step-Sound :
      (id : String) (input : Map Value) (s : Scheduler)
      → Holds steps s
      → Sound steps Ready s (complete_human_step world id input s)
  unfolding complete_human_step get_state put_state transition_with_log
  complete_human_step-Sound id input s w = elim (Bool-cases (s.paused_step_id == id)) [
    | inr away ↦ rw away (Sound-throw steps Ready (not_paused_on id) s w)
    | inl waits ↦ elim (Option-cases (lookup id s.run.step_states)) [
      | inl absent ↦ rw (waits, absent) (Sound-throw steps Ready panic s w)
      | inr (state, found) ↦ elim (Result-cases (world.marshal input)) [
        | inl (text, bad) ↦ rw (waits, found, bad) (Sound-throw steps Ready (encode_error text) s w)
        | inr (output, encoded) ↦ elim (Bool-cases (can_transition state.status success)) [
          | inr refused ↦
              rw (waits, found, encoded, refused)
                (Sound-throw steps Ready (cannot_transition id state.status success) s w)
          | inl allowed ↦
              let done = record state {
                status = success;
                completed_at = some (world.now s.asked);
                output = output;
              } in
              let s1 = record (put_state id done (record s { asked = s.asked + 1 })) {
                step_outputs = insert id output s.step_outputs;
                paused_step_id = "";
              } in
              let met = w.met id (ground (arith, found, success-begun state.status allowed)) in
              let kept = put_state-Inv steps id done s w met (λ p. refl) in
              rw (waits, found, encoded, allowed)
                (Sound-after steps Ready s s1 _ (λ k p. p)
                  (human-Sound id s1 kept
                    (ground (arith, lookup-insert id id done s.run.step_states, eq_refl id))))
        ]
      ]
    ]
  ]
