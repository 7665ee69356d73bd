-- ===== src/Dag/Scheduler/Order/Restoring.antt =====
-- internal/dag/checkpoint.go: the order of a run's steps, through the loops of `RestoreScheduler`.
use agent_exec_engine.Prelude.{
  ◌<◌, String, ◌≡◌, refl, true, List, [], ◌∷◌, Option, none, some, count, contains, is_some,
  if◌then◌else◌, ◌==◌, Map, lookup, insert, lookup-insert, eq_iff, eq_refl, arith, Bool-cases, inl,
  inr,
}
use agent_exec_engine.Types.{
  StepStatus, success, failed, timeout, skipped, cancelled, Step, StepState,
}
use agent_exec_engine.Dag.Graph.{Graph, resolve_step, mark_complete, skip_step}
use agent_exec_engine.Dag.Graph.Wellformed.{deps_of, deps_in, ids, IsWf}
use agent_exec_engine.Dag.Graph.Resolve.{resolve_step-IsWf, resolve_step-frame}
use agent_exec_engine.Dag.Checkpoint.{restored_state, restore_states, restore_step, restore_steps}
use agent_exec_engine.Dag.Scheduler.Machine.{Scheduler}
use agent_exec_engine.Dag.Scheduler.Order.{settled_state, settled_in, begun_in}
use agent_exec_engine.Dag.Scheduler.Order.Graphs.{resolve_step-resolved}

-- States of steps in which each step that has been started depends only on steps that succeeded or
-- were skipped.
pub record InOrder (steps : List Step) (states : Map StepState) : Type 0 where
  pub each :
      (id dep : String)
      → begun_in states id ≡ true
      → 0 < count dep (deps_in steps id)
      → settled_in states dep ≡ true

-- The first loop starts no step, and settles none; what was settled stays so.
pub restore_states-status :
    (steps : List Step) (states : Map StepState) (id : String)
    → (settled_in (restore_states steps states) id ≡ settled_in states id)
      × (begun_in (restore_states steps states) id ≡ true → begun_in states id ≡ true)
unfolding restore_states
restore_states-status [] states id = (refl, λ h. h)
restore_states-status (step ∷ rest) states id =
    let states' = insert step.id (restored_state step.id (lookup step.id states)) states in
    let ih = restore_states-status rest states' id in
    let put = lookup-insert step.id id (restored_state step.id (lookup step.id states)) states in
    (
      ground (arith, put, ih.0, eq_iff step.id id),
      λ h. ground (arith, put, ih.1 h, eq_iff step.id id),
    )

-- The invariant in the course of the second loop: it says nothing of the steps that were started.
pub record Filled (steps : List Step) (g : Graph) (states : Map StepState) : Type 0 where
  pub wf : IsWf g
  pub deps : (id : String) → deps_of id g.steps ≡ deps_in steps id
  pub named : (id : String) (step : Step) → lookup id g.steps ≡ some step → step.id ≡ id
  pub settled : (id : String) → is_some (lookup id g.resolved) ≡ true → settled_in states id ≡ true
  pub known : (id : String) → is_some (lookup id g.steps) ≡ contains (ids steps) id

-- What a step's state makes of the graph.
abbrev Resolves : String → Option StepState → Scheduler → Scheduler → Type 0
Resolves id state s s' =
    (status : StepStatus) × (s'.graph
      ≡ (if settled_state state then (resolve_step id status s.graph).0 else s.graph))
    × (s'.run ≡ s.run)

restore_status-Resolves :
    (id : String) (state : StepState) (status : StepStatus) (s : Scheduler)
    → state.status ≡ status
    → Resolves id (some state) s (restore_step id (some state) s)
unfolding mark_complete skip_step
restore_status-Resolves id state StepStatus.pending s e =
    (success, ground (arith, e), ground (arith, e))
restore_status-Resolves id state StepStatus.running s e =
    (success, ground (arith, e), ground (arith, e))
restore_status-Resolves id state success s e = (success, ground (arith, e), ground (arith, e))
restore_status-Resolves id state failed s e = (success, ground (arith, e), ground (arith, e))
restore_status-Resolves id state timeout s e = (success, ground (arith, e), ground (arith, e))
restore_status-Resolves id state skipped s e = (skipped, ground (arith, e), ground (arith, e))
restore_status-Resolves id state cancelled s e = (success, ground (arith, e), ground (arith, e))

restore_step-Resolves :
    (id : String) (state : Option StepState) (s : Scheduler)
    → Resolves id state s (restore_step id state s)
restore_step-Resolves id none s = (success, refl, refl)
restore_step-Resolves id (some state) s = restore_status-Resolves id state state.status s refl

resolve_step-keeps :
    (id : String) (status : StepStatus) (g : Graph) (k : String)
    → is_some (lookup k g.resolved) ≡ true
    → is_some (lookup k (resolve_step id status g).0.resolved) ≡ true
unfolding resolve_step
resolve_step-keeps id status g k h = ground (arith, h, lookup-insert id k status g.resolved)

resolve_step_self :
    (id : String) (status : StepStatus) (g : Graph)
    → is_some (lookup id g.steps) ≡ true
    → is_some (lookup id (resolve_step id status g).0.resolved) ≡ true
unfolding resolve_step
resolve_step_self id status g h =
    ground (arith, h, lookup-insert id id status g.resolved, eq_refl id)

module _ (steps : List Step) where
  resolve_step-Filled :
      (id : String) (status : StepStatus) (g : Graph) (states : Map StepState)
      → Filled steps g states
      → settled_in states id ≡ true
      → Filled steps (resolve_step id status g).0 states
  resolve_step-Filled id status g states w h =
      let same = (resolve_step-frame id status g).0 in
      record {
        wf = resolve_step-IsWf id status g w.wf;
        deps = λ k. rw same (w.deps k);
        named = λ k step p. w.named k step (ground (arith, same, p));
        settled = λ k p.
            ground (arith, resolve_step-resolved id status g k p, eq_iff id k, w.settled k, h);
        known = λ k. rw same (w.known k);
      }

  module _ (states : Map StepState) where
    -- What the second loop leaves: every settled step of `todo` is resolved.
    pub record Restored (todo : List String) (s s' : Scheduler) : Type 0 where
      pub filled : Filled steps s'.graph states
      pub same : s'.run ≡ s.run
      pub keeps :
          (k : String)
          → is_some (lookup k s.graph.resolved) ≡ true
          → is_some (lookup k s'.graph.resolved) ≡ true
      pub all :
          (k : String)
          → contains todo k ≡ true
          → settled_in states k ≡ true
          → contains (ids steps) k ≡ true
          → is_some (lookup k s'.graph.resolved) ≡ true

    resolved-Restored :
        (id : String) (state : Option StepState) (s s' : Scheduler)
        → Filled steps s.graph states
        → lookup id states ≡ state
        → Resolves id state s s'
        → Restored (id ∷ []) s s'
    unfolding contains
    resolved-Restored id state s s' w e (status, graph, run) =
        elim (Bool-cases (settled_in states id)) [
          | inl over ↦
              let became : s'.graph ≡ (resolve_step id status s.graph).0 =
                ground (arith, graph, over, e) in
              record {
                filled = rw became (resolve_step-Filled id status s.graph states w over);
                same = run;
                keeps = λ k p. rw became (resolve_step-keeps id status s.graph k p);
                all = λ k h q p. ground (
                  arith,
                  became,
                  h,
                  eq_iff id k,
                  w.known k,
                  p,
                  resolve_step_self id status s.graph,
                );
              }
          | inr still ↦
              let became : s'.graph ≡ s.graph = ground (arith, graph, still, e) in
              record {
                filled = rw became w;
                same = run;
                keeps = λ k p. rw became p;
                all = λ k h q p. absurd (ground (arith, still, h, eq_iff id k, q));
              }
        ]

    pub restore_steps-Restored :
        (todo : List Step) (s : Scheduler)
        → Filled steps s.graph states
        → s.run.step_states ≡ states
        → Restored (ids todo) s (restore_steps todo s)
    unfolding restore_steps contains
    restore_steps-Restored [] s w e = record {
      filled = w;
      same = refl;
      keeps = λ k p. p;
      all = λ k h. absurd (ground (arith, h));
    }
    restore_steps-Restored (step ∷ rest) s w e =
        let state = lookup step.id s.run.step_states in
        let s' = restore_step step.id state s in
        let one =
          resolved-Restored step.id state s s' w (ground (arith, e))
            (restore_step-Resolves step.id state s) in
        let more = restore_steps-Restored rest s' one.filled (ground (arith, one.same, e)) in
        record {
          filled = more.filled;
          same = ground (arith, one.same, more.same);
          keeps = λ k p. more.keeps k (one.keeps k p);
          all = λ k h q p. elim (Bool-cases (step.id == k)) [
            | inl here ↦ more.keeps k (one.all k (ground (arith, here)) q p)
            | inr other ↦ more.all k (ground (arith, other, h)) q p
          ];
        }
