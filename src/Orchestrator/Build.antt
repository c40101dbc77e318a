-- ===== src/Orchestrator/Build.antt =====
-- The graph that Run of internal/agent/orchestrator/orchestrator.go makes of a plan.
use go_research.Prelude.{
  ◌≡◌, refl, sym, ◌∙◌, ◌↔◌, inl, inr, Option, none, some, List, [], ◌∷◌, ◌++◌, Str, arith, lookup,
  lookup-insert, str_eq_iff, append-nil, append_assoc, subst, In,
}
use go_research.Dag.Types.{Node}
use go_research.Dag.Graph.{Graph, GraphError, new_graph, validate, valid}
use go_research.Dag.Graph.Add.{
  Distinct, IsWellFormed, Accepts, extended, add-eq-none_iff, add-extended, add-IsWellFormed,
  new_graph-IsWellFormed,
}
use go_research.Dag.Graph.DepthFirst.{IsKnown}
use go_research.Dag.Graph.Validate.{IsAcyclic}
use go_research.Dag.Graph.Verdict.{validate-eq-valid_iff}
use go_research.Planner
use go_research.Planner.{Subtask, Plan}
use go_research.Planner.Validate.{Named, DependsOn, task_ids, validate-eq-none_iff}
use go_research.Orchestrator.{node_of, build_graph}

ext_fresh :
    {R : Type 0} (n : Node R) (g : Graph R) (k : Str)
    → ¬ (n.id ≡ k)
    → lookup k g.by_id ≡ none
    → lookup k (extended n g).by_id ≡ none
ext_fresh n g k ne h = ground (arith, lookup-insert n.id k n g.by_id, str_eq_iff n.id k)

module _ {R : Type 0} (run_of : Subtask → R) where
  abbrev pub nodes_of : List Subtask → List (Node R)
  nodes_of [] = []
  nodes_of (st ∷ sts) = node_of run_of st ∷ nodes_of sts

  -- No error, and a well-formed graph with the nodes behind those it had.
  pub record Built (sts : List Subtask) (g : Graph R) (r : Option GraphError × Graph R)
      : Type 0 where
    pub fine : r.0 ≡ none
    pub nodes : r.1.nodes ≡ g.nodes ++ nodes_of sts
    pub formed : IsWellFormed r.1

  -- No subtask's ID is a node of the graph.
  abbrev Fresh : List Subtask → Graph R → Type 0
  Fresh sts g = (k : Str) → In k (task_ids sts) → lookup k g.by_id ≡ none

  build_graph-Built :
      (sts : List Subtask) (g : Graph R)
      → IsWellFormed g
      → Named sts
      → Distinct (task_ids sts)
      → Fresh sts g
      → Built sts g (build_graph run_of sts g)
  unfolding build_graph
  build_graph-Built [] g w named distinct fresh = record {
    fine = refl;
    nodes = sym (append-nil g.nodes);
    formed = w;
  }
  build_graph-Built (st ∷ sts) g w named distinct fresh =
      let n = node_of run_of st in
      let accepts : Accepts n g = (named.0, λ e. cc, fresh st.id (inl refl)) in
      let ok = (add-eq-none_iff n g).1 accepts in
      let fresh' : Fresh sts (extended n g) = λ k m.
        ext_fresh n g k (λ e. distinct.0 (subst (λ j. In j (task_ids sts)) (sym e) m))
          (fresh k (inr m)) in
      let rest =
        build_graph-Built sts (extended n g)
          (subst IsWellFormed (add-extended n g accepts) (add-IsWellFormed (some n) g w)) named.2
          distinct.1 fresh' in
      rw (build_graph, ok, add-extended n g accepts)
        (record {
          fine = rest.fine;
          nodes = rest.nodes ∙ append_assoc g.nodes (n ∷ []) (nodes_of sts);
          formed = rest.formed;
        })

  nodes_of-depends :
      (known : List Str) (sts : List Subtask) (n : Node R)
      → In n (nodes_of sts)
      → DependsOn known sts
      → (d : Str) → In d n.depends_on
      → In d known
  nodes_of-depends known [] n m h d i = absurd m
  nodes_of-depends known (st ∷ sts) n (inl e) h d i =
      h.0 d (subst (λ (k : Node R). In d k.depends_on) e i)
  nodes_of-depends known (st ∷ sts) n (inr m) h d i = nodes_of-depends known sts n m h.1 d i

  node_with_id :
      (sts : List Subtask) (d : Str)
      → In d (task_ids sts)
      → (n : Node R) × In n (nodes_of sts) × (n.id ≡ d)
  node_with_id [] d m = absurd m
  node_with_id (st ∷ sts) d (inl e) = (node_of run_of st, inl refl, sym e)
  node_with_id (st ∷ sts) d (inr m) = let (n, i, e) = node_with_id sts d m in (n, inr i, e)

  module _ (sts : List Subtask) (g : Graph R) (formed : IsWellFormed g)
      (same : g.nodes ≡ nodes_of sts) (closed : DependsOn (task_ids sts) sts) where
    built-IsKnown : IsKnown g
    built-IsKnown u d dep =
        let (of_u, listed) = formed.keyed u dep.node dep.found in
        let known =
          nodes_of-depends (task_ids sts) sts dep.node (rw same at listed) closed d dep.listed in
        let (m, there, named) = node_with_id sts d known in
        (m, subst (λ k. lookup k g.by_id ≡ some m) named (formed.listed m (rw same there)))

  no_nodes : (sts : List Subtask) → Fresh sts new_graph
  unfolding lookup
  no_nodes sts k m = refl

  planned-Built :
      (p : Plan)
      → Planner.validate p ≡ none
      → Built p.subtasks new_graph (build_graph run_of p.subtasks new_graph)
  planned-Built p h =
      let v = (validate-eq-none_iff p).0 h in
      build_graph-Built p.subtasks new_graph new_graph-IsWellFormed v.named v.distinct
        (no_nodes p.subtasks)

  pub build_graph-IsWellFormed :
      (p : Plan)
      → Planner.validate p ≡ none
      → IsWellFormed (build_graph run_of p.subtasks new_graph).1
  build_graph-IsWellFormed p h = (planned-Built p h).formed

  -- For a plan that the planner accepts, `Run` adds all subtasks to the graph without an error, the
  -- nodes are the subtasks in the order of the plan, and the scheduler's `Validate` accepts the graph
  -- exactly when no chain of dependencies is a cycle.
  pub build_graph-valid_iff :
      (p : Plan)
      → Planner.validate p ≡ none
      → let r = build_graph run_of p.subtasks new_graph in
        (r.0 ≡ none) × (r.1.nodes ≡ nodes_of p.subtasks) × ((validate r.1 ≡ valid) ↔ IsAcyclic r.1)
  build_graph-valid_iff p h =
      let v = (validate-eq-none_iff p).0 h in
      let g = (build_graph run_of p.subtasks new_graph).1 in
      let built = planned-Built p h in
      let all_known = built-IsKnown p.subtasks g built.formed built.nodes v.closed in
      let verdict = validate-eq-valid_iff g built.formed in
      (built.fine, built.nodes, (λ e. (verdict.0 e).1, λ a. verdict.1 (all_known, a)))
