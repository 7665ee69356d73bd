-- ===== src/Dag/Graph/Cycles.antt =====
-- The cycle check of `NewGraph`.
use agent_exec_engine.Prelude.{
  IsOrder, ◌+◌, ◌≤◌, ◌<◌, String, ◌≡◌, refl, true, List, [], ◌∷◌, ◌++◌, none, some, arith,
  if◌then◌else◌, count, contains, count-append, length, Map, lookup, keys, length-keys,
  length_le_of_counts, counts_eq_of_length, length-append, keys-lookup, lookup-keys, eq_iff,
  eq_refl, ok, inl, inr, contains-count, count-contains, Bool-cases,
}
use agent_exec_engine.Prelude.Int.{ℤ, pos, is_zero}
use agent_exec_engine.Types.{Step}
use agent_exec_engine.Dag.Graph.{
  Graph, edges_of, degree_of, relax, kahn, zero_degree, validate_acyclic,
}
use agent_exec_engine.Dag.Graph.Loop.{kahn_rule}
use agent_exec_engine.Dag.Graph.Wellformed.{deps_in, ids, unresolved}
use agent_exec_engine.Dag.Graph.Built.{IsBuilt, lookup-of-nil}
use agent_exec_engine.Dag.Graph.Kahn.{waiting, waiting-zero, waiting-pos, IsKahn, IsKahn-step}

-- A list of ids, last first, in which each one's dependencies come before it.
abbrev pub DepsFirst : List Step → List String → Type 0
DepsFirst steps [] = Unit
DepsFirst steps (k ∷ earlier) =
    ((d : String) → 0 < count d (deps_in steps k) → contains earlier d ≡ true)
    × DepsFirst steps earlier

-- An order in which the steps can run: each comes once, after all that it depends on.
pub record IsRunnable (steps : List Step) (order : List String) : Type 0 where
  pub all_once : (k : String) → count k order ≡ count k (ids steps)
  pub deps_first : DepsFirst steps order

count-zero_degree :
    (m : Map ℤ) (ks : List String) (k : String)
    → count k (zero_degree m ks) ≡ (if is_zero (degree_of k m) then count k ks else 0)
unfolding zero_degree count
count-zero_degree m [] k = ground arith
count-zero_degree m (j ∷ ks) k = ground (arith, eq_iff j k, count-zero_degree m ks k)

waiting-nil : (ds : List String) → waiting [] ds ≡ unresolved [] ds
unfolding waiting unresolved contains lookup
waiting-nil [] = refl
waiting-nil (d ∷ ds) = ground (arith, waiting-nil ds)

module _ (range : List String → List String) (ordered : IsOrder range) (steps : List Step)
    (g : Graph) (b : IsBuilt steps g) where
  abbrev start : List String
  start = zero_degree g.in_degree (range (keys g.in_degree))

  keys-ids : (k : String) → count k (keys g.in_degree) ≡ count k (ids steps)
  keys-ids k = ground (
    arith,
    b.wf.distinct k,
    b.distinct_ids k,
    b.wf.degrees k,
    b.has k,
    lookup-of-nil g.resolved k b.none_resolved,
    lookup-keys k g.in_degree,
    keys-lookup k g.in_degree,
    contains-count (ids steps) k,
    count-contains (ids steps) k,
  )

  degrees-start :
      (k : String)
      → lookup k g.in_degree
        ≡ (if contains (ids steps) k then some (pos (waiting [] (deps_in steps k))) else none)
  degrees-start k = ground (
    arith,
    b.wf.degrees k,
    b.has k,
    b.deps k,
    b.none_resolved,
    lookup-of-nil g.resolved k b.none_resolved,
    waiting-nil (deps_in steps k),
  )

  -- The invariant, and that the steps visited are in a runnable order.
  record IsSorting (popped queue : List String) (m : Map ℤ) : Type 0 where
    kahn_inv : IsKahn steps g b popped queue m
    sorted : DepsFirst steps popped

  IsSorting-start : IsSorting [] start g.in_degree
  unfolding count
  IsSorting-start = record {
    kahn_inv = record {
      degrees = λ k h. ground (arith, degrees-start k);
      once = λ k. ground (
        arith,
        count-zero_degree g.in_degree (range (keys g.in_degree)) k,
        ordered.counts (keys g.in_degree) k,
        keys-ids k,
        degrees-start k,
        b.distinct_ids k,
        contains-count (ids steps) k,
        count-contains (ids steps) k,
      );
      others = λ k h. ground (arith, degrees-start k);
    };
    sorted = tt;
  }

  IsSorting-step :
      (popped : List String) (c : String) (queue : List String) (m : Map ℤ)
      → IsSorting popped (c ∷ queue) m
      → IsSorting
          (c ∷ popped)
          (relax (edges_of c g.edges) m queue).1
          (relax (edges_of c g.edges) m queue).0
  unfolding count
  IsSorting-step popped c queue m w = record {
    kahn_inv = IsKahn-step steps g b popped c queue m w.kahn_inv;
    sorted = (
      λ d h. elim (Bool-cases (contains popped d)) [
        | inl before ↦ before
        | inr not_yet ↦
            ground (
              arith,
              eq_refl c,
              w.kahn_inv.once c,
              waiting-pos popped d (deps_in steps c) h not_yet,
            )
      ],
      w.sorted,
    );
  }

  IsSorting-bound :
      (popped queue : List String) (m : Map ℤ)
      → IsSorting popped queue m
      → length popped + length queue ≤ length (ids steps)
  IsSorting-bound popped queue m w = omega (
    arith,
    length-append popped queue,
    length_le_of_counts (popped ++ queue) (ids steps) λ k.
        ground
          (arith, count-append k popped queue, w.kahn_inv.once k, contains-count (ids steps) k),
  )

  length-in_degree : length g.in_degree ≡ length (ids steps)
  length-in_degree = omega (
    arith,
    length-keys g.in_degree,
    length_le_of_counts (keys g.in_degree) (ids steps) (λ k. omega (arith, keys-ids k)),
    length_le_of_counts (ids steps) (keys g.in_degree) (λ k. omega (arith, keys-ids k)),
  )

  -- The loop of `validateAcyclic` ends with the list of the steps that it visited.
  visited :
      (done : List String) × (m : Map ℤ) × IsSorting done [] m
      × (kahn (length g.in_degree) g.edges start g.in_degree 0 ≡ some (length done))
  visited =
      kahn_rule g.edges IsSorting (length (ids steps)) IsSorting-step IsSorting-bound
        (length g.in_degree) [] start g.in_degree IsSorting-start (omega (arith, length-in_degree))

  -- Where all steps are visited, the order of the visits is one in which they can run.
  runnable :
      (done : List String) (m : Map ℤ)
      → IsSorting done [] m
      → length done ≡ length (ids steps)
      → IsRunnable steps done
  unfolding count
  runnable done m w h = record {
    all_once =
        counts_eq_of_length done (ids steps)
          (λ k. ground (arith, w.kahn_inv.once k, contains-count (ids steps) k)) (omega arith);
    deps_first = w.sorted;
  }

  -- A step of a runnable order is visited, since all that it waits for is.
  visits :
      (done : List String) (m : Map ℤ) (order : List String)
      → IsSorting done [] m
      → DepsFirst steps order
      → ((k : String) → contains order k ≡ true → contains (ids steps) k ≡ true)
      → (k : String) → contains order k ≡ true
      → contains done k ≡ true
  unfolding count contains
  visits done m [] w f known k h = ground arith
  visits done m (j ∷ earlier) w f known k h =
      let rest = visits done m earlier w f.1 (λ i p. known i (ground (arith, p))) in
      let own : contains done j ≡ true = ground (
        arith,
        known j,
        eq_refl j,
        w.kahn_inv.once j,
        count-contains done j,
        waiting-zero done (deps_in steps j) (λ d p. rest d (f.0 d p)),
      ) in
      ground (arith, eq_iff j k, own, rest k)

  pub validate-ok :
      validate_acyclic range g ≡ ok tt → (order : List String) × IsRunnable steps order
  unfolding validate_acyclic
  validate-ok e =
      let (done, m, w, run) = visited in
      (done, runnable done m w (ground (arith, run, length-in_degree, b.sizes)))

  pub validate_total :
      (order : List String) → IsRunnable steps order → validate_acyclic range g ≡ ok tt
  unfolding validate_acyclic
  validate_total order r =
      let (done, m, w, run) = visited in
      let all : (k : String) → count k (ids steps) ≤ count k done = λ k. ground (
        arith,
        b.distinct_ids k,
        r.all_once k,
        count-contains order k,
        contains-count done k,
        visits done m order w r.deps_first
            (λ j p.
              count-contains (ids steps) j (omega (arith, r.all_once j, contains-count order j p)))
            k,
      ) in
      ground (
        arith,
        run,
        length-in_degree,
        b.sizes,
        length_le_of_counts (ids steps) done all,
        IsSorting-bound done [] m w,
      )
