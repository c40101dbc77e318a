-- ===== src/Dag/Graph/Verdict.antt =====
-- `Validate` (internal/agent/dag/graph.go): what each of its verdicts says of the graph.
use go_research.Prelude.{◌≡◌, refl, ap, subst, inl, inr, ◌↔◌, List, [], ◌∷◌, Str, In, Option-cases}
use go_research.Dag.Types.{Node}
use go_research.Dag.Graph.{
  Graph, GraphError, nil_node, empty_id, nil_run, duplicate_id, self_dep, unknown_dep, cycle,
  Search, finished, cyclic, nil_deref, out_of_fuel, detect_cycle, check_nodes, of_search,
  Validation, valid, invalid, panics, diverges, validate,
}
use go_research.Dag.Graph.Add.{ids, IsWellFormed, In-ids}
use go_research.Dag.Graph.Stack.{unmarked}
use go_research.Dag.Graph.Invariant.{slots, Dep, Walk, one, more, Ordered, Ordered-Dep}
use go_research.Dag.Graph.DepthFirst.{IsKnown, Good}
use go_research.Dag.Graph.Validate.{
  IsAcyclic, Justified, check_nodes-some, known_of_check, detect_cycle-Good,
}

slots-unmarked : (xs : List Str) → slots (unmarked xs) ≡ xs
slots-unmarked [] = refl
slots-unmarked (x ∷ xs) = ap (λ t. x ∷ t) (slots-unmarked xs)

module _ {R : Type 0} (g : Graph R) where
  walked : (x v : Str) (done : List Str) → Ordered g (x ∷ done) → Walk g x v → In v done
  walked x v done o (one e) = o.0 v e
  walked x v done o (more {v = u} w e) = Ordered-Dep g done u v o.1 (walked x u done o w) e

  -- Nodes that stand after their dependencies are on no cycle.
  pub Ordered-acyclic : (done : List Str) (v : Str) → Ordered g done → In v done → ¬ Walk g v v
  Ordered-acyclic [] v o m w = m
  Ordered-acyclic (x ∷ done) v o (inr m) w = Ordered-acyclic done v o.1 m w
  Ordered-acyclic (x ∷ done) v o (inl e) w =
      Ordered-acyclic done v o.1 (walked x v done o (subst (λ z. Walk g z v) e w)) w

  -- An order of the nodes in which each stands after those that it depends on, last first.
  pub record Schedule : Type 0 where
    pub order : List Str
    pub ordered : Ordered g order
    pub covers : (n : Node R) → In n g.nodes → In n.id order

  -- What each verdict of `Validate` says of the graph.
  abbrev pub Verdict : Validation → Type 0
  Verdict valid = IsKnown g × Schedule
  Verdict (invalid e) = Justified g e
  Verdict panics = ⊥
  Verdict diverges = ⊥

  of_search-Verdict :
      (s : Search) → IsKnown g → Good g [] (unmarked (ids g.nodes)) s → Verdict (of_search s)
  of_search-Verdict (finished c) k (done, i, all) = (
    k,
    record {
      order = done;
      ordered = i.ordered;
      covers = λ n m. all n.id (inr (rw (slots-unmarked (ids g.nodes)) (In-ids n g.nodes m)));
    },
  )
  of_search-Verdict (cyclic id dep) k h = h
  of_search-Verdict nil_deref k h = h
  of_search-Verdict out_of_fuel k h = h

  module _ (wf : IsWellFormed g) where
    -- `Validate` always returns. If it returns nil, every dependency is a node of the graph and the
    -- nodes can be put in an order in which each stands after its dependencies; if it returns an
    -- error, the edge, the missing node or the cycle that the error names is there.
    pub validate-Verdict : Verdict (validate g)
    unfolding validate
    validate-Verdict = elim (Option-cases (check_nodes g g.nodes)) [
      | inl pass ↦
          let k = known_of_check g wf pass in
          rw (pass, validate) (of_search-Verdict (detect_cycle g) k (detect_cycle-Good g wf k))
      | inr (e, bad) ↦ rw (bad, validate) (check_nodes-some g wf g.nodes e (λ n m. m) bad)
    ]

    Dep-order : (s : Schedule) (u v : Str) → Dep g u v → In u s.order
    Dep-order s u v e =
        let (keyed, listed) = wf.keyed u e.node e.found in
        subst (λ z. In z s.order) keyed (s.covers e.node listed)

    Walk-order : (s : Schedule) (u v : Str) → Walk g u v → In u s.order
    Walk-order s u v (one e) = Dep-order s u v e
    Walk-order s u v (more {v = t} w e) = Walk-order s u t w

    refuted : (e : GraphError) → Justified g e → ¬ (IsKnown g × IsAcyclic g)
    refuted (self_dep id) j (k, a) = a id (one j)
    refuted (unknown_dep id dep) (edge, missing) (k, a) =
        let (m, found) = k id dep edge in cc (missing, found)
    refuted (cycle id dep) (edge, walk) (k, a) = a dep walk
    refuted nil_node j h = j
    refuted empty_id j h = j
    refuted (nil_run id) j h = j
    refuted (duplicate_id id) j h = j

    Verdict-iff : (v : Validation) → Verdict v → (v ≡ valid) ↔ (IsKnown g × IsAcyclic g)
    Verdict-iff valid (k, s) =
        (λ _. (k, λ v w. Ordered-acyclic s.order v s.ordered (Walk-order s v v w) w), λ _. refl)
    Verdict-iff (invalid e) j = (λ q. cc, λ h. absurd (refuted e j h))
    Verdict-iff panics j = absurd j
    Verdict-iff diverges j = absurd j

    -- `Validate` returns nil exactly for the graphs in which every dependency is a node and no chain
    -- of dependencies is a cycle.
    pub validate-eq-valid_iff : (validate g ≡ valid) ↔ (IsKnown g × IsAcyclic g)
    validate-eq-valid_iff = Verdict-iff (validate g) validate-Verdict
