-- ===== src/Dag/Scheduler/Order.antt =====
-- internal/dag/scheduler.go, scheduler_state.go and scheduler_run.go: the order of a run's steps.
-- The invariant that ties the states of the steps to the graph, and what an action leaves of it.
pub mod Graphs
pub mod Steps
pub mod Attempts
pub mod Batches
pub mod Rounds
pub mod Restoring
pub mod Restored
pub mod Humans
pub mod Runs
pub mod Reached
use agent_exec_engine.Prelude.{
  ◌+◌, ◌<◌, String, ◌≡◌, refl, Bool, true, false, List, [], ◌∷◌, ◌++◌, Option, none, some, eqb,
  is_some, count, count-append, if◌then◌else◌, Map, lookup, insert, lookup-insert, eq_iff, eq_refl,
  subst, Result, ok, err, ok-injective, arith,
}
use agent_exec_engine.Types.{StepStatus, status_eq, Step, StepState}
use agent_exec_engine.Dag.Graph.{Graph}
use agent_exec_engine.Dag.Graph.Wellformed.{deps_of, deps_in, unresolved, IsWf}
use agent_exec_engine.Dag.Scheduler.Machine.{Failure, Scheduler, Action, and_then, ◌>>=◌, put_state}
use agent_exec_engine.Dag.Scheduler.Open.{is_settled}

-- All that a step depends on is resolved.
abbrev pub is_met : Graph → String → Bool
is_met g id = eqb (unresolved g.resolved (deps_of id g.steps)) 0

abbrev pub settled_state : Option StepState → Bool
settled_state none = false
settled_state (some state) = is_settled state.status

-- The step succeeded or was skipped.
abbrev pub settled_in : Map StepState → String → Bool
settled_in states id = settled_state (lookup id states)

abbrev begun_state : Option StepState → Bool
begun_state none = false
begun_state (some state) = if status_eq state.status StepStatus.pending then false else true

-- The step has been started: it is no longer pending.
abbrev pub begun_in : Map StepState → String → Bool
begun_in states id = begun_state (lookup id states)

-- A resolved step is settled, and a step that has been started depends on resolved steps only.
pub record Inv (steps : List Step) (g : Graph) (states : Map StepState) : Type 0 where
  pub wf : IsWf g
  pub deps : (id : String) → deps_of id g.steps ≡ deps_in steps id
  pub named : (id : String) (step : Step) → lookup id g.steps ≡ some step → step.id ≡ id
  pub settled : (id : String) → is_some (lookup id g.resolved) ≡ true → settled_in states id ≡ true
  pub met : (id : String) → begun_in states id ≡ true → is_met g id ≡ true

-- A list of steps that depend on resolved steps only.
pub record AllMet (g : Graph) (ids : List String) : Type 0 where
  pub each : (id : String) → 0 < count id ids → is_met g id ≡ true

-- The invariant holds after an action, whether it fails or not; what was met stays met; and a result
-- satisfies `Post`.
pub record Sound (steps : List Step) {A : Type 0} (Post : A → Scheduler → Type 0) (s : Scheduler)
    (r : Result Failure A × Scheduler) : Type 0 where
  pub inv : Inv steps r.1.graph r.1.run.step_states
  pub grows : (id : String) → is_met s.graph id ≡ true → is_met r.1.graph id ≡ true
  pub by : (a : A) → r.0 ≡ ok a → Post a r.1

abbrev pub Any : {A : Type 0} → A → Scheduler → Type 0
Any a s = Unit

abbrev pub Holds : List Step → Scheduler → Type 0
Holds steps s = Inv steps s.graph s.run.step_states

pub AllMet-nil : (g : Graph) → AllMet g []
unfolding count
AllMet-nil g = record { each = λ id h. absurd (omega (arith, h)) }

pub AllMet-cons :
    (g : Graph) (id : String) (ids : List String)
    → AllMet g (id ∷ ids)
    → (is_met g id ≡ true) × AllMet g ids
unfolding count
AllMet-cons g id ids w =
    (w.each id (ground (arith, eq_refl id)), record { each = λ k h. w.each k (ground (arith, h)) })

pub AllMet-one : (g : Graph) (id : String) → is_met g id ≡ true → AllMet g (id ∷ [])
unfolding count
AllMet-one g id h = record { each = λ k p. ground (arith, h, p, eq_iff id k) }

pub AllMet-append :
    (g : Graph) (xs ys : List String) → AllMet g xs → AllMet g ys → AllMet g (xs ++ ys)
AllMet-append g xs ys v w = record {
  each = λ id h. ground (arith, count-append id xs ys, v.each id, w.each id);
}

module _ (steps : List Step) where
  pub AllMet-grows :
      {A : Type 0} (Post : A → Scheduler → Type 0) (s : Scheduler)
      (r : Result Failure A × Scheduler) (xs : List String)
      → Sound steps Post s r
      → AllMet s.graph xs
      → AllMet r.1.graph xs
  AllMet-grows Post s r xs w v = record { each = λ id h. w.grows id (v.each id h) }

  pub and_then-Sound :
      {A B : Type 0} (Post : A → Scheduler → Type 0) (Next : B → Scheduler → Type 0) (s : Scheduler)
      (r : Result Failure A × Scheduler) (f : A → Action B)
      → Sound steps Post s r
      → ((a : A) → r.0 ≡ ok a → Post a r.1 → Sound steps Next r.1 (f a r.1))
      → Sound steps Next s (and_then r f)
  and_then-Sound Post Next s (ok a, s') f w next =
      let v = next a refl (w.by a refl) in
      record { inv = v.inv; grows = λ id h. v.grows id (w.grows id h); by = v.by }
  and_then-Sound Post Next s (err e, s') f w next = record {
    inv = w.inv;
    grows = w.grows;
    by = λ b h. absurd (ground (arith, h));
  }

  -- What follows an action is an action of the state before.
  pub Sound-after :
      {A : Type 0} (Post : A → Scheduler → Type 0) (s s' : Scheduler)
      (r : Result Failure A × Scheduler)
      → ((id : String) → is_met s.graph id ≡ true → is_met s'.graph id ≡ true)
      → Sound steps Post s' r
      → Sound steps Post s r
  Sound-after Post s s' r grows w = record {
    inv = w.inv;
    grows = λ id h. w.grows id (grows id h);
    by = w.by;
  }

  -- An action that touches neither the graph nor the states.
  pub Sound-frame :
      {A : Type 0} (Post : A → Scheduler → Type 0) (s : Scheduler)
      (r : Result Failure A × Scheduler)
      → r.1.graph ≡ s.graph
      → r.1.run.step_states ≡ s.run.step_states
      → Holds steps s
      → ((a : A) → r.0 ≡ ok a → Post a r.1)
      → Sound steps Post s r
  Sound-frame Post s r same kept w post = record {
    inv = rw (same, kept) w;
    grows = λ id h. rw same h;
    by = post;
  }

  pub Sound-pure :
      {A : Type 0} (Post : A → Scheduler → Type 0) (a : A) (s : Scheduler)
      → Holds steps s
      → Post a s
      → Sound steps Post s (ok a, s)
  Sound-pure Post a s w h = record {
    inv = w;
    grows = λ id p. p;
    by = λ b e. subst (λ c. Post c s) (ok-injective e) h;
  }

  pub Sound-throw :
      {A : Type 0} (Post : A → Scheduler → Type 0) (failure : Failure) (s : Scheduler)
      → Holds steps s
      → Sound steps Post s (err failure, s)
  Sound-throw Post failure s w = record {
    inv = w;
    grows = λ id p. p;
    by = λ b e. absurd (ground (arith, e));
  }

  -- A new state for a step that depends on resolved steps only; a settled step stays settled.
  pub put_state-Inv :
      (id : String) (state : StepState) (s : Scheduler)
      → Holds steps s
      → is_met s.graph id ≡ true
      → (settled_in s.run.step_states id ≡ true → is_settled state.status ≡ true)
      → Inv steps s.graph (put_state id state s).run.step_states
  unfolding put_state
  put_state-Inv id state s w h stays = record {
    wf = w.wf;
    deps = w.deps;
    named = w.named;
    settled = λ k p.
        ground
          (arith, lookup-insert id k state s.run.step_states, eq_iff id k, w.settled k p, stays);
    met =
        λ k p. ground (arith, lookup-insert id k state s.run.step_states, eq_iff id k, w.met k, h);
  }
