-- ===== src/Dag/Graph/Validate.antt =====
-- `Validate` (internal/agent/dag/graph.go) against the graph of dependencies.
use go_research.Prelude.{
  ◌≡◌, refl, subst, inl, inr, none, some, List, [], ◌∷◌, Str, arith, In, lookup, str_eq_iff,
  Option-cases, str_eq, Bool-cases,
}
use go_research.Dag.Types.{Node}
use go_research.Dag.Graph.{
  Graph, GraphError, nil_node, empty_id, nil_run, duplicate_id, self_dep, unknown_dep, cycle,
  colour_of, detect_cycle, check_deps, check_nodes,
}
use go_research.Dag.Graph.Add.{ids, IsWellFormed}
use go_research.Dag.Graph.Stack.{unmarked}
use go_research.Dag.Graph.Invariant.{Dep, Walk, Inv}
use go_research.Dag.Graph.DepthFirst.{IsKnown, Good, dfs_roots-Good}

module _ {R : Type 0} (g : Graph R) where
  -- No chain of dependencies leads back to its start.
  abbrev pub IsAcyclic : Type 0
  IsAcyclic = (v : Str) → ¬ Walk g v v

  -- A dependency that `Validate` lets pass: another node of the graph.
  abbrev Passes : Str → Str → Type 0
  Passes id d = ¬ (d ≡ id) × ((m : Node R) × (lookup d g.by_id ≡ some m))

  check_deps-none :
      (id : Str) (deps : List Str)
      → check_deps g id deps ≡ none
      → (d : Str) → In d deps
      → Passes id d
  unfolding check_deps
  check_deps-none id [] h d m = absurd m
  check_deps-none id (x ∷ deps) h d (inl e) = elim (Option-cases (lookup x g.by_id)) [
    | inl missing ↦ ground (arith, str_eq_iff x id)
    | inr (m, found) ↦ (ground (arith, str_eq_iff x id), (m, rw e found))
  ]
  check_deps-none id (x ∷ deps) h d (inr m) =
      check_deps-none id deps (ground (arith, str_eq_iff x id)) d m

  check_nodes-none :
      (ns : List (Node R))
      → check_nodes g ns ≡ none
      → (n : Node R) → In n ns
      → check_deps g n.id n.depends_on ≡ none
  unfolding check_nodes
  check_nodes-none [] h n m = absurd m
  check_nodes-none (x ∷ ns) h n (inl e) = rw e (ground arith)
  check_nodes-none (x ∷ ns) h n (inr m) = check_nodes-none ns (ground arith) n m

  -- What an error of `Validate` says of the graph.
  abbrev pub Justified : GraphError → Type 0
  Justified (self_dep id) = Dep g id id
  Justified (unknown_dep id dep) = Dep g id dep × (lookup dep g.by_id ≡ none)
  Justified (cycle id dep) = Dep g id dep × Walk g dep dep
  Justified nil_node = ⊥
  Justified empty_id = ⊥
  Justified (nil_run _) = ⊥
  Justified (duplicate_id _) = ⊥

  check_deps-some :
      (id : Str) (deps : List Str) (e : GraphError)
      → ((d : Str) → In d deps → Dep g id d)
      → check_deps g id deps ≡ some e
      → Justified e
  unfolding check_deps
  check_deps-some id [] e edge h = cc
  check_deps-some id (x ∷ deps) e edge h = elim (Bool-cases (str_eq x id)) [
    | inl same ↦
        let at_x : x ≡ id = (str_eq_iff x id).0 same in
        let is : self_dep id ≡ e = ground arith in
        subst Justified is (subst (λ z. Dep g id z) at_x (edge x (inl refl)))
    | inr other ↦ elim (Option-cases (lookup x g.by_id)) [
      | inl missing ↦
          let is : unknown_dep id x ≡ e = ground arith in
          subst Justified is (edge x (inl refl), missing)
      | inr (m, found) ↦ check_deps-some id deps e (λ d i. edge d (inr i)) (ground arith)
    ]
  ]

  module _ (wf : IsWellFormed g) where
    pub check_nodes-some :
        (ns : List (Node R)) (e : GraphError)
        → ((n : Node R) → In n ns → In n g.nodes)
        → check_nodes g ns ≡ some e
        → Justified e
    unfolding check_nodes
    check_nodes-some [] e sub h = cc
    check_nodes-some (n ∷ ns) e sub h = elim (Option-cases (check_deps g n.id n.depends_on)) [
      | inl pass ↦ check_nodes-some ns e (λ m i. sub m (inr i)) (ground arith)
      | inr (e', bad) ↦
          check_deps-some n.id n.depends_on e
            (λ d i. record { node = n; found = wf.listed n (sub n (inl refl)); listed = i })
            (ground arith)
    ]

    pub known_of_check : check_nodes g g.nodes ≡ none → IsKnown g
    known_of_check h u d e =
        let (keyed, listed) = wf.keyed u e.node e.found in
        (check_deps-none e.node.id e.node.depends_on (check_nodes-none g.nodes h e.node listed) d
          e.listed).1

    empty-Inv : Inv g [] [] []
    unfolding lookup colour_of
    empty-Inv = record {
      blackened = λ v e. cc;
      done_dark = λ v m. absurd m;
      greyed = λ v e. cc;
      marked_grey = λ v m. absurd m;
      ordered = tt;
      closed = tt;
      fresh = tt;
      chain = tt;
      known = λ x m. absurd m;
    }

    pub detect_cycle-Good : IsKnown g → Good g [] (unmarked (ids g.nodes)) (detect_cycle g)
    unfolding detect_cycle
    detect_cycle-Good k = dfs_roots-Good g wf k [] [] g.nodes (λ n m. m) empty-Inv
