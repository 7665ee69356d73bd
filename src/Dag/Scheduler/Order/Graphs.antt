-- ===== src/Dag/Scheduler/Order/Graphs.antt =====
-- internal/dag/graph.go and scheduler.go: the order of a run's steps in a new scheduler, and when a
-- step is resolved.
use agent_exec_engine.Prelude.{
  IsOrder, ℕ, String, ◌≡◌, refl, true, false, List, [], ◌∷◌, none, some, count, is_some,
  if◌then◌else◌, Map, lookup, insert, lookup-insert, eq_iff, ok, arith, Result-cases, inl, inr,
  >>=-eq-ok, ◌==◌,
}
use agent_exec_engine.Prelude.Int.{pos}
use agent_exec_engine.Types.{StepStatus, success, skipped, Step, StepState, Workflow}
use agent_exec_engine.Dag.Graph.{
  Graph, empty, index_steps, link_all, build_edges, new_graph, resolve_step, mark_complete,
  skip_step, ready_steps,
}
use agent_exec_engine.Dag.Graph.Wellformed.{deps_of, unresolved-insert, IsWf}
use agent_exec_engine.Dag.Graph.Index.{index_one, index_steps-cons}
use agent_exec_engine.Dag.Graph.Link.{link_all-frame}
use agent_exec_engine.Dag.Graph.Resolve.{resolve_step-IsWf, resolve_step-ready, resolve_step-frame}
use agent_exec_engine.Dag.Graph.Ready.{ready_steps-is_ready}
use agent_exec_engine.Dag.Graph.New.{new_graph-IsBuilt, new_graph-linked}
use agent_exec_engine.Dag.Scheduler.Machine.{World, Scheduler}
use agent_exec_engine.Dag.Scheduler.Batch.{init_step_states, new_scheduler, complete, skip}
use agent_exec_engine.Dag.Scheduler.Order.{is_met, settled_in, begun_in, AllMet, Sound, Holds}

-- The steps that are resolved after a step is.
pub resolve_step-resolved :
    (id : String) (status : StepStatus) (g : Graph) (k : String)
    → is_some (lookup k (resolve_step id status g).0.resolved) ≡ true
    → (if is_some (lookup k g.resolved) then true else id == k) ≡ true
unfolding resolve_step
resolve_step-resolved id status g k h = ground (arith, lookup-insert id k status g.resolved)

resolve_step-is_met :
    (id : String) (status : StepStatus) (g : Graph) (k : String)
    → is_met g k ≡ true
    → is_met (resolve_step id status g).0 k ≡ true
unfolding resolve_step
resolve_step-is_met id status g k h =
    ground (arith, h, unresolved-insert id status g.resolved (deps_of k g.steps))

-- Resolving a settled step reports steps that depend on resolved steps only.
resolved-Sound :
    (steps : List Step) (id : String) (status : StepStatus) (s : Scheduler)
    → Holds steps s
    → settled_in s.run.step_states id ≡ true
    → Sound steps
        (λ ready s'. AllMet s'.graph ready)
        s
        (
          ok (resolve_step id status s.graph).1,
          record s { graph = (resolve_step id status s.graph).0 },
        )
unfolding count
resolved-Sound steps id status s w h =
    let g = (resolve_step id status s.graph).0 in
    let same = resolve_step-frame id status s.graph in
    record {
      inv = record {
        wf = resolve_step-IsWf id status s.graph w.wf;
        deps = λ k. rw (same.0) (w.deps k);
        named = λ k step p. w.named k step (ground (arith, same, p));
        settled = λ k p.
            ground
              (arith, resolve_step-resolved id status s.graph k p, eq_iff id k, w.settled k, h);
        met = λ k p. resolve_step-is_met id status s.graph k (w.met k p);
      };
      grows = resolve_step-is_met id status s.graph;
      by = λ ready e. record {
        each = λ k p. ground (arith, e, p, resolve_step-ready id status s.graph w.wf k);
      };
    }

pub complete-Sound :
    (steps : List Step) (id : String) (s : Scheduler)
    → Holds steps s
    → settled_in s.run.step_states id ≡ true
    → Sound steps (λ ready s'. AllMet s'.graph ready) s (complete id s)
unfolding complete mark_complete
complete-Sound steps id s w h = resolved-Sound steps id success s w h

pub skip-Sound :
    (steps : List Step) (id : String) (s : Scheduler)
    → Holds steps s
    → settled_in s.run.step_states id ≡ true
    → Sound steps (λ ready s'. AllMet s'.graph ready) s (skip id s)
unfolding skip skip_step
skip-Sound steps id s w h = resolved-Sound steps id skipped s w h

pub ready_steps-AllMet :
    (range : List String → List String)
    → IsOrder range
    → (g : Graph) → IsWf g
    → AllMet g (ready_steps range g)
ready_steps-AllMet range ordered g w = record {
  each = λ k p. ground (arith, p, ready_steps-is_ready range ordered g w k);
}

index_steps-named :
    (steps : List Step) (g : Graph) {g' : Graph}
    → index_steps steps g ≡ ok g'
    → ((id : String) (step : Step) → lookup id g.steps ≡ some step → step.id ≡ id)
    → (id : String) (step : Step) → lookup id g'.steps ≡ some step
    → step.id ≡ id
unfolding index_steps
index_steps-named [] g e named id step h = named id step (ground (arith, e, h))
index_steps-named (first ∷ rest) g e named id step h =
    let (fresh, e') = index_steps-cons first rest g e in
    index_steps-named rest (index_one first g) e'
      (λ k other p.
        ground (arith, p, lookup-insert first.id k first g.steps, eq_iff first.id k, named k other))
      id step h

build_edges-steps :
    (steps : List Step) (g : Graph) {g' : Graph} → build_edges steps g ≡ ok g' → g'.steps ≡ g.steps
unfolding build_edges
build_edges-steps [] g e = ground (arith, e)
build_edges-steps (step ∷ rest) g e =
    let (g₁, linked, e') = >>=-eq-ok (link_all step.id step.depends_on g) _ e in
    ground (arith, link_all-frame step.id step.depends_on g linked, build_edges-steps rest g₁ e')

new_graph-named :
    (range : List String → List String)
    → IsOrder range
    → (steps : List Step) (g : Graph) → new_graph range steps ≡ ok g
    → (id : String) (step : Step) → lookup id g.steps ≡ some step
    → step.id ≡ id
unfolding lookup
new_graph-named range ordered steps g e id step h =
    let (l, v) = new_graph-linked range ordered steps e in
    let (g₀, indexed, built) = >>=-eq-ok (index_steps steps empty) _ l in
    index_steps-named steps empty indexed (λ k other p. absurd (ground (arith, p))) id step
      (ground (arith, h, build_edges-steps steps g₀ built))

init_step_states-pending :
    (steps : List Step) (states : Map StepState) (id : String)
    → begun_in states id ≡ false
    → begun_in (init_step_states steps states) id ≡ false
unfolding init_step_states
init_step_states-pending [] states id h = h
init_step_states-pending (step ∷ rest) states id h =
    let fresh : StepState = record {
      step_id = step.id;
      status = StepStatus.pending;
      started_at = none;
      completed_at = none;
      output = "";
      error = "";
      retry_count = 0;
      tokens_used = pos 0;
    } in
    init_step_states-pending rest (insert step.id fresh states) id
      (ground (arith, h, lookup-insert step.id id fresh states))

-- In a new scheduler no step has been started.
pub new_scheduler-Holds :
    (world : World)
    → IsOrder world.range
    → (run_id : String) (started_at : ℕ) (wf : Workflow) (s : Scheduler)
    → new_scheduler world run_id started_at wf ≡ ok s
    → Holds wf.steps s
unfolding new_scheduler lookup
new_scheduler-Holds world ordered run_id started_at wf s e =
    elim (Result-cases (new_graph world.range wf.steps)) [
      | inl (f, bad) ↦ absurd (ground (arith, bad, e))
      | inr (g, made) ↦
          let b = (new_graph-IsBuilt world.range ordered wf.steps made).0 in
          let same : (s.graph ≡ g) × (s.run.step_states ≡ init_step_states wf.steps []) =
            ground (arith, made, e) in
          rw (same.0, same.1)
            (record {
              wf = b.wf;
              deps = b.deps;
              named = new_graph-named world.range ordered wf.steps g made;
              settled = λ k p. absurd (ground (arith, b.none_resolved, p));
              met = λ k p. absurd (ground (arith, init_step_states-pending wf.steps [] k refl, p));
            })
    ]
