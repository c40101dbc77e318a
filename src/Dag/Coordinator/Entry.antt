-- ===== src/Dag/Coordinator/Entry.antt =====
-- `Run` (internal/agent/dag/scheduler.go) as a whole: what it does before its loop, and how it ends.
use go_research.Prelude.{
  List-cases, ◌≤◌, ◌≡◌, refl, Option, none, some, [], ◌∷◌, In, subst, inl, inr,
}
use go_research.Dag.Graph.{
  Graph, GraphError, Validation, valid, invalid, panics, diverges, validate,
}
use go_research.Dag.Graph.Add.{IsWellFormed}
use go_research.Dag.Graph.Validate.{Justified}
use go_research.Dag.Graph.Verdict.{Verdict, validate-Verdict}
use go_research.Dag.Worker.{RunFn, Scheduler}
use go_research.Dag.Coordinator.{System, init, worker_count, Reach, start, later, Outcome, Returns}
use go_research.Dag.Coordinator.Safety.{IsConclusive, Returns-IsConclusive}
use go_research.Dag.Coordinator.Termination.{Leads, stays, moves, Reach-Returns}

-- What `Run` has come to at the head of its loop. The last two are those of `Validate`.
pub data Entry (V E : Type 0) : Type 0 where
  nil_graph : Entry V E
  refused : GraphError → Entry V E
  at_once : Outcome V E → Entry V E
  loops : System V E → Entry V E
  panicked unending : Entry V E

module _ {V E : Type 0} where
  unfoldable pub enter : Option (Graph (RunFn V E)) → Entry V E
  enter none = nil_graph
  enter (some g) = elim (validate g) [
    | invalid e ↦ refused e
    | panics ↦ panicked
    | diverges ↦ unending
    | valid ↦ elim g.nodes [
      | [] ↦ at_once (record { result = record { outputs = []; states = [] }; err = none })
      | n ∷ ns ↦ loops (init g)
    ]
  ]

  module _ (g : Graph (RunFn V E)) (wf : IsWellFormed g) (sch : Scheduler) (canceled : E)
      (workers : 1 ≤ worker_count sch.concurrency) where
    -- What `Run` owes for each way into its loop, or round it.
    abbrev pub Concludes : Entry V E → Type 0
    Concludes nil_graph = ⊥
    Concludes (refused e) = Justified g e
    Concludes (at_once o) = IsConclusive g o
    Concludes (loops s) =
        (t : System V E) × (o : Outcome V E) × Leads g sch canceled s t
        × Returns t o
        × IsConclusive g o
    Concludes panicked = ⊥
    Concludes unending = ⊥

    Leads-Reach :
        {s t : System V E}
        → Leads g sch canceled s t
        → Reach sch g canceled s
        → Reach sch g canceled t
    Leads-Reach stays r = r
    Leads-Reach (moves step own rest) r = Leads-Reach rest (later r step)

    loop-Concludes : validate g ≡ valid → Concludes (loops (init g))
    loop-Concludes v =
        let (t, o, run, r) = Reach-Returns g sch canceled wf workers v (init g) start in
        (t, o, run, r, Returns-IsConclusive g wf sch canceled t o (Leads-Reach run start) r)

    empty-IsConclusive :
        g.nodes ≡ []
        → IsConclusive g (record { result = record { outputs = []; states = [] }; err = none })
    empty-IsConclusive e = record {
      settled = λ n i. absurd (subst (λ ns. In n ns) e i);
      sound = λ n i h. absurd (subst (λ ns. In n ns) e i);
      explained = λ n i. absurd (subst (λ ns. In n ns) e i);
    }

    Verdict-Concludes : (v : Validation) → validate g ≡ v → Verdict g v → Concludes (enter (some g))
    unfolding enter
    Verdict-Concludes valid v h = elim (List-cases g.nodes) [
      | inl e ↦ rw (enter, v, e) (empty-IsConclusive e)
      | inr (n, ns, e) ↦ rw (enter, v, e) (loop-Concludes v)
    ]
    Verdict-Concludes (invalid x) v h = rw (enter, v) h
    Verdict-Concludes panics v h = absurd h
    Verdict-Concludes diverges v h = absurd h

    -- `Run` of a graph as `Add` builds them returns, without a panic: either the error of
    -- `Validate`, which names what is wrong with the graph, or, by steps of its loop and its
    -- workers, a result in which every node has succeeded, failed or been cancelled, none succeeded
    -- before its dependencies, and that the error explains. The scheduler has a worker.
    pub enter-Concludes : Concludes (enter (some g))
    enter-Concludes = Verdict-Concludes (validate g) refl (validate-Verdict g wf)
