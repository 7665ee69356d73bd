-- ===== src/Api/Manager/Found.antt =====
-- internal/api/manager.go: what the manager accepts, and what it finds again.
use agent_exec_engine.Prelude.{
  ℕ, String, ◌≡◌, refl, ◌∙◌, ap, subst, some, Map, lookup, insert, lookup-insert, Result, ok, err,
  >>=-eq-ok, arith, IsOrder, eq_refl, Result-cases, inl, inr, ok-injective,
}
use agent_exec_engine.Types.{Workflow, WorkflowRun}
use agent_exec_engine.Dag.Graph.{GraphError, new_graph}
use agent_exec_engine.Dag.Graph.New.{IsAcyclic, new_graph-IsAcyclic}
use agent_exec_engine.Dag.Scheduler.Machine.{World, Scheduler}
use agent_exec_engine.Dag.Scheduler.Batch.{new_scheduler}
use agent_exec_engine.Api.Manager.{
  Manager, Fresh, validate_workflow, fill_workflow, scheduled, add_run, create_and_run, get_run,
  get_workflow,
}

scheduled-ok : (r : Result GraphError Scheduler) (s : Scheduler) → scheduled r ≡ ok s → r ≡ ok s
scheduled-ok (ok s') s same = ap ok (ok-injective same)
scheduled-ok (err e) s same = absurd (ground (arith, same))

new_scheduler-IsAcyclic :
    (world : World) (run_id : String) (now : ℕ) (wf : Workflow) (s : Scheduler)
    → IsOrder world.range
    → new_scheduler world run_id now wf ≡ ok s
    → IsAcyclic wf.steps
unfolding new_scheduler
new_scheduler-IsAcyclic world run_id now wf s ordered same =
    elim (Result-cases (new_graph world.range wf.steps)) [
      | inl (e, refused) ↦ absurd (ground (arith, refused, same))
      | inr (g, made) ↦ (new_graph-IsAcyclic world.range ordered wf.steps).0 (g, made)
    ]

lookup_self : {V : Type 0} (k : String) (v : V) (m : Map V) → lookup k (insert k v m) ≡ some v
lookup_self k v m = lookup-insert k k v m ∙ rw (eq_refl k) refl

add_run-found :
    (wf : Workflow) (s : Scheduler) (m : Manager)
    → ((get_run wf.id (add_run wf s m)).0 ≡ some s.run)
      × (get_workflow wf.id (add_run wf s m) ≡ some wf)
unfolding get_run get_workflow add_run
add_run-found wf s m = (
  rw (lookup_self wf.id s.run.id m.run_index) (rw (lookup_self s.run.id s m.schedulers) refl),
  lookup_self wf.id wf m.workflows,
)

-- A workflow that the manager accepts is found under its ID, with the run that was started as its
-- latest; and its steps have an order in which each comes once and after all its dependencies.
pub create_and_run-found :
    (world : World)
    → IsOrder world.range
    → (fresh : Fresh) (given : Workflow) (m after : Manager) (run : WorkflowRun)
    → create_and_run world fresh given m ≡ ok (run, after)
    → ((get_run (fill_workflow fresh given).id after).0 ≡ some run)
      × (get_workflow (fill_workflow fresh given).id after ≡ some (fill_workflow fresh given))
      × IsAcyclic given.steps
unfolding create_and_run fill_workflow
create_and_run-found world ordered fresh given m after run same =
    let wf = fill_workflow fresh given in
    let (checked, valid, e1) = >>=-eq-ok (validate_workflow wf) _ same in
    let (s, made, e2) =
      >>=-eq-ok (scheduled (new_scheduler world fresh.run_id fresh.now wf)) _ e1 in
    let found = add_run-found wf s m in
    let same_run : s.run ≡ run = ground (arith, e2) in
    let same_after : add_run wf s m ≡ after = ground (arith, e2) in
    let acyclic =
      new_scheduler-IsAcyclic world fresh.run_id fresh.now wf s ordered
        (scheduled-ok (new_scheduler world fresh.run_id fresh.now wf) s made) in
    (
      subst (λ (a : Manager). (get_run wf.id a).0 ≡ some run) same_after
          (found.0 ∙ ap some same_run),
      subst (λ (a : Manager). get_workflow wf.id a ≡ some wf) same_after found.1,
      acyclic,
    )
