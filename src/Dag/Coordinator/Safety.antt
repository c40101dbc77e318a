-- ===== src/Dag/Coordinator/Safety.antt =====
-- What holds in every state that `Run` (internal/agent/dag/scheduler.go) can reach, and of its result.
use go_research.Prelude.{
  ◌≤◌, true, ◌≡◌, refl, sym, ap, ◌∙◌, ◌≢◌, inl, inr, Option, none, some, List, [], ◌∷◌, ◌++◌, Str,
  Map, lookup, length, In, In-append_cases, arith,
}
use go_research.Dag.Types.{Node, State, pending, ready, running, succeeded, failed, cancelled}
use go_research.Dag.Graph.{Graph}
use go_research.Dag.Graph.Add.{In-ids, IsWellFormed}
use go_research.Dag.Worker.{RunFn, Task, Scheduler}
use go_research.Dag.Coordinator.{
  System, RunError, node_error, context_error, or_else, Reach, Outcome, Returns, completed, stopped,
  cancel_rest,
}
use go_research.Dag.Coordinator.Weights.{unfinished, sum_of}
use go_research.Dag.Coordinator.Invariant.{has_succeeded, Live, Fits, First, Kept}
use go_research.Dag.Coordinator.Steps.{Reach-Kept}

unfinished-le : (st : Option State) → unfinished st ≤ 1
unfinished-le none = omega arith
unfinished-le (some pending) = omega arith
unfinished-le (some ready) = omega arith
unfinished-le (some running) = omega arith
unfinished-le (some succeeded) = omega arith
unfinished-le (some failed) = omega arith
unfinished-le (some cancelled) = omega arith

pub sum-le : {R : Type 0} (ns : List (Node R)) (m : Map State) → sum_of unfinished ns m ≤ length ns
sum-le [] m = omega arith
sum-le (n ∷ ns) m = omega (arith, sum-le ns m, unfinished-le (lookup n.id m))

finished-In :
    {R : Type 0} (ns : List (Node R)) (m : Map State) (n : Node R)
    → sum_of unfinished ns m ≡ 0
    → In n ns
    → unfinished (lookup n.id m) ≡ 0
finished-In [] m n e i = absurd i
finished-In (k ∷ ns) m n e (inl q) =
    ap (λ (j : Node _). unfinished (lookup j.id m)) q ∙ omega (arith, e)
finished-In (k ∷ ns) m n e (inr i) = finished-In ns m n (omega (arith, e)) i

-- The states in which a result leaves a node.
abbrev pub Final : Option State → Type 0
Final none = ⊥
Final (some pending) = ⊥
Final (some ready) = ⊥
Final (some running) = ⊥
Final (some succeeded) = Unit
Final (some failed) = Unit
Final (some cancelled) = Unit

abbrev cancel : Option State → Option State
cancel none = none
cancel (some pending) = some cancelled
cancel (some ready) = some cancelled
cancel (some running) = some running
cancel (some succeeded) = some succeeded
cancel (some failed) = some failed
cancel (some cancelled) = some cancelled

lookup-cancel_rest : (m : Map State) (id : Str) → lookup id (cancel_rest m) ≡ cancel (lookup id m)
unfolding cancel_rest lookup
lookup-cancel_rest [] id = refl
lookup-cancel_rest ((k, pending) ∷ m) id = ground (arith, lookup-cancel_rest m id)
lookup-cancel_rest ((k, ready) ∷ m) id = ground (arith, lookup-cancel_rest m id)
lookup-cancel_rest ((k, running) ∷ m) id = ground (arith, lookup-cancel_rest m id)
lookup-cancel_rest ((k, succeeded) ∷ m) id = ground (arith, lookup-cancel_rest m id)
lookup-cancel_rest ((k, failed) ∷ m) id = ground (arith, lookup-cancel_rest m id)
lookup-cancel_rest ((k, cancelled) ∷ m) id = ground (arith, lookup-cancel_rest m id)

Live-Final : (o : Option State) → Live o → unfinished o ≡ 0 → Final o
Live-Final none h e = h
Live-Final (some pending) h e = omega (arith, e)
Live-Final (some ready) h e = omega (arith, e)
Live-Final (some running) h e = h
Live-Final (some succeeded) h e = tt
Live-Final (some failed) h e = tt
Live-Final (some cancelled) h e = tt

Final-cancel : (o : Option State) → Live o → Final (cancel o)
Final-cancel none h = h
Final-cancel (some pending) h = tt
Final-cancel (some ready) h = tt
Final-cancel (some running) h = h
Final-cancel (some succeeded) h = tt
Final-cancel (some failed) h = tt
Final-cancel (some cancelled) h = tt

pub same_successes : (m : Map State) (d : Str) → has_succeeded (cancel_rest m) d ≡ has_succeeded m d
same_successes m d = ground (arith, lookup-cancel_rest m d)

succeeded_of :
    (m : Map State) (id : Str)
    → Live (lookup id m)
    → unfinished (lookup id m) ≡ 0
    → ¬ (lookup id m ≡ some failed)
    → has_succeeded m id ≡ true
succeeded_of m id live e h = ground arith

module _ {V E : Type 0} (g : Graph (RunFn V E)) where
  -- What the error of `Run` says of the nodes.
  abbrev pub Explains : Option (RunError E) → Map State → Type 0
  Explains none states = (n : Node (RunFn V E)) → In n g.nodes → has_succeeded states n.id ≡ true
  Explains (some (node_error id f)) states = lookup id states ≡ some failed
  Explains (some (context_error e)) states = Unit

  pub record IsConclusive (o : Outcome V E) : Type 0 where
    pub settled : (n : Node (RunFn V E)) → In n g.nodes → Final (lookup n.id o.result.states)
    pub sound :
        (n : Node (RunFn V E))
        → In n g.nodes
        → has_succeeded o.result.states n.id ≡ true
        → (lookup n.id o.result.outputs ≢ none)
          × ((d : Str) → In d n.depends_on → has_succeeded o.result.states d ≡ true)
    pub explained : Explains o.err o.result.states

  module _ (wf : IsWellFormed g) (sch : Scheduler) (canceled : E) where
    -- Every task that has been sent is of a node of the graph all of whose dependencies have
    -- succeeded, and holds the output of each of them.
    pub Reach-Fits :
        (s : System V E)
        → Reach sch g canceled s
        → (t : Task V E) → In t (s.task_ch ++ s.busy)
        → Fits g s.states s.outputs t
    Reach-Fits s r t m =
        let k = Reach-Kept g wf sch canceled r in
        elim (In-append_cases t s.task_ch s.busy m) [
          | inl q ↦ k.tasks.sent t q
          | inr b ↦ k.tasks.taken t b
        ]

    explain_end :
        (first : Option (RunError E)) (m : Map State)
        → First g first m
        → (first ≡ none → (n : Node (RunFn V E)) → In n g.nodes → has_succeeded m n.id ≡ true)
        → Explains first m
    explain_end none m f h = h refl
    explain_end (some (node_error id x)) m f h = f
    explain_end (some (context_error x)) m f h = absurd f

    explain_stop :
        (first : Option (RunError E)) (e : E) (m : Map State)
        → First g first m
        → Explains (some (or_else first (context_error e))) (cancel_rest m)
    explain_stop none e m f = tt
    explain_stop (some (node_error id x)) e m f = ground (arith, lookup-cancel_rest m id)
    explain_stop (some (context_error x)) e m f = absurd f

    sound_states :
        (s : System V E)
        → Kept g [] [] s
        → (n : Node (RunFn V E)) → In n g.nodes
        → has_succeeded s.states n.id ≡ true
        → (lookup n.id s.outputs ≢ none)
          × ((d : Str) → In d n.depends_on → has_succeeded s.states d ≡ true)
    sound_states s k n i h = (k.tasks.outs n.id h, k.waiting.met n i (ground arith))

    Kept-IsConclusive :
        (s : System V E) (o : Outcome V E) → Kept g [] [] s → Returns s o → IsConclusive o
    Kept-IsConclusive s o k (completed e) =
        let over = λ (n : Node (RunFn V E)) (i : In n g.nodes).
          finished-In g.nodes s.states n (sym k.counted.exact ∙ e) i in
        record {
          settled = λ n i.
              Live-Final (lookup n.id s.states) (k.status.live n.id (In-ids n g.nodes i))
                (over n i);
          sound = sound_states s k;
          explained = explain_end s.first_err s.states k.blame.named (λ none_first n i.
              succeeded_of s.states n.id (k.status.live n.id (In-ids n g.nodes i)) (over n i)
                (λ q. (k.blame.blamed n.id q).0 none_first));
        }
    Kept-IsConclusive s o k (stopped {e = e'} more e) = record {
      settled = λ n i.
          rw (lookup-cancel_rest s.states n.id)
            (Final-cancel (lookup n.id s.states) (k.status.live n.id (In-ids n g.nodes i)));
      sound = λ n i h.
          let (out, deps) = sound_states s k n i (sym (same_successes s.states n.id) ∙ h) in
          (out, λ d j. same_successes s.states d ∙ deps d j);
      explained = explain_stop s.first_err e' s.states k.blame.named;
    }

    -- When `Run` returns, every node has succeeded, failed or been cancelled; a node has succeeded only
    -- if all its dependencies have, and has an output then. Without an error all nodes have succeeded,
    -- and an error that names a node names one that failed.
    pub Returns-IsConclusive :
        (s : System V E) (o : Outcome V E) → Reach sch g canceled s → Returns s o → IsConclusive o
    Returns-IsConclusive s o r = Kept-IsConclusive s o (Reach-Kept g wf sch canceled r)
