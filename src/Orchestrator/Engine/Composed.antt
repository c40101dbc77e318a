-- ===== src/Orchestrator/Engine/Composed.antt =====
-- The findings that `Run` of internal/agent/orchestrator/orchestrator.go gives to the writer, when the
-- scheduler is that of internal/agent/dag/scheduler.go.
use go_research.Prelude.{
  ℕ, ◌<◌, ◌≡◌, refl, ap, ◌∙◌, ◌≢◌, inl, inr, Option, none, some, List, [], ◌∷◌, Str, Map, lookup,
  In, subst, arith, Option-cases,
}
use go_research.Prelude.Int.{max_int}
use go_research.Planner
use go_research.Planner.{Plan, Subtask}
use go_research.Dag.Types.{Node}
use go_research.Dag.Graph.{new_graph}
use go_research.Dag.Worker.{RunFn, returns, safe_run, Scheduler}
use go_research.Dag.Worker.Shape.{RunOutcome-cases}
use go_research.Dag.Coordinator.Outputs.{Returns-MadeBy}
use go_research.Dag.Coordinator.{System, output, Reach, Outcome, Returns}
use go_research.Dag.Coordinator.Safety.{Returns-IsConclusive, Explains}
use go_research.Researcher.Options.{Options, normalized}
use go_research.Researcher.Collect.{Tools, to_nat}
use go_research.Researcher.Attempts.{Findings, ResearchError, Critics}
use go_research.Orchestrator.Engine.Closure.{returned_eq, closure, closure-not_nil}
use go_research.Orchestrator.{node_of, build_graph}
use go_research.Orchestrator.Build.{nodes_of, build_graph-valid_iff, build_graph-IsWellFormed}
use go_research.Orchestrator.Engine.{collect_findings}

kept :
    (outputs : Map (Option Findings)) (id : Str)
    → lookup id outputs ≢ none
    → lookup id outputs ≢ some none
    → output outputs id ≢ none
kept outputs id h k = ground arith

module _ (outputs : Map (Option Findings)) where
  -- What the nodes of the subtasks have returned, in the order of the plan.
  abbrev pub outputs_of : List Subtask → List (Option Findings)
  outputs_of [] = []
  outputs_of (st ∷ sts) = output outputs st.id ∷ outputs_of sts

  abbrev pub somes : List Findings → List (Option Findings)
  somes [] = []
  somes (f ∷ fs) = some f ∷ somes fs

  collect_findings-all :
      (sts : List Subtask)
      → ((st : Subtask) → In st sts → output outputs st.id ≢ none)
      → somes (collect_findings outputs sts) ≡ outputs_of sts
  unfolding collect_findings
  collect_findings-all [] all = refl
  collect_findings-all (st ∷ sts) all = elim (Option-cases (output outputs st.id)) [
    | inl nil ↦ absurd (all st (inl refl) nil)
    | inr (f, e) ↦
        rw (collect_findings, e)
          (ap (λ fs. some f ∷ fs) (collect_findings-all sts (λ s i. all s (inr i))))
  ]

module _ {E : Type 0} (run_of : Subtask → RunFn Findings E) where
  In-nodes_of :
      (st : Subtask) (sts : List Subtask) → In st sts → In (node_of run_of st) (nodes_of run_of sts)
  In-nodes_of st [] i = i
  In-nodes_of st (s ∷ sts) (inl e) = inl (ap (λ t. node_of run_of t) e)
  In-nodes_of st (s ∷ sts) (inr i) = inr (In-nodes_of st sts i)

  In-nodes_of_inv :
      (n : Node (RunFn Findings E)) (sts : List Subtask)
      → In n (nodes_of run_of sts)
      → (st : Subtask) × In st sts × (n ≡ node_of run_of st)
  In-nodes_of_inv n [] i = absurd i
  In-nodes_of_inv n (s ∷ sts) (inl e) = (s, inl refl, e)
  In-nodes_of_inv n (s ∷ sts) (inr i) = let (st, j, e) = In-nodes_of_inv n sts i in (st, inr j, e)

  safe_run-not_nil :
      ((st : Subtask) (deps : Map (Option Findings)) (moment : ℕ)
        → run_of st deps moment ≢ returns none)
      → (st : Subtask) (deps : Map (Option Findings)) (moment : ℕ)
      → safe_run (node_of run_of st) deps moment ≢ returns none
  unfolding safe_run
  safe_run-not_nil h st deps moment e = elim (RunOutcome-cases (run_of st deps moment)) [
    | inl (v, q) ↦ h st deps moment (q ∙ ap returns (returned_eq v none (rw (safe_run, q) at e)))
    | inr (inl (x, q)) ↦ cc (rw (safe_run, q) at e)
    | inr (inr (x, q)) ↦ cc (rw (safe_run, q) at e)
  ]

  collect_findings-ordered :
      (p : Plan) (sch : Scheduler) (canceled : E) (s : System Findings E) (o : Outcome Findings E)
      → Planner.validate p ≡ none
      → Reach sch (build_graph run_of p.subtasks new_graph).1 canceled s
      → Returns s o
      → o.err ≡ none
      → ((st : Subtask) (deps : Map (Option Findings)) (moment : ℕ)
          → run_of st deps moment ≢ returns none)
      → somes o.result.outputs (collect_findings o.result.outputs p.subtasks)
        ≡ outputs_of o.result.outputs p.subtasks
  collect_findings-ordered p sch canceled s o accepted r returned fine never =
      let g = (build_graph run_of p.subtasks new_graph).1 in
      let wf = build_graph-IsWellFormed run_of p accepted in
      let c = Returns-IsConclusive g wf sch canceled s o r returned in
      let (added, same, acyclic) = build_graph-valid_iff run_of p accepted in
      let all : Explains g none o.result.states =
        subst (λ e. Explains g e o.result.states) fine c.explained in
      let no_nil : (id : Str) → lookup id o.result.outputs ≢ some none = λ id h.
        let m =
          Returns-MadeBy g wf
            (λ n i.
              let (st, j, e) = In-nodes_of_inv n p.subtasks (rw same at i) in
              (1, ap (λ (x : Node (RunFn Findings E)). x.max_retry) e, omega arith))
            sch canceled s o r returned id none h in
        let (st, j, e) = In-nodes_of_inv m.task.node p.subtasks (rw same at m.fits.known) in
        safe_run-not_nil never st m.task.deps m.moment
          (subst (λ n. safe_run n m.task.deps m.moment ≡ returns none) e m.returned) in
      collect_findings-all o.result.outputs p.subtasks (λ st i.
        let member : In (node_of run_of st) g.nodes = rw same (In-nodes_of st p.subtasks i) in
        let done = (c.sound (node_of run_of st) member (all (node_of run_of st) member)).0 in
        kept o.result.outputs st.id done (no_nil st.id))

module _ {W E D : Type 0} (t : Tools W E D) (c : Critics E D) (opts : Options)
    (world_at : ℕ → W) where
  -- For a plan that the planner accepts, with the closures of `Run`, a MaxCriticRetries less than
  -- the greatest int, and a run of the scheduler, in any order of its workers, that returns no
  -- error: the findings for the writer are the outputs of all subtasks, none of them nil, in the
  -- order of the plan.
  pub collect_findings-planned :
      to_nat (normalized opts).max_critic_retries < max_int
      → (p : Plan) (sch : Scheduler) (canceled : ResearchError E D)
        (s : System Findings (ResearchError E D)) (o : Outcome Findings (ResearchError E D))
      → Planner.validate p ≡ none
      → Reach sch (build_graph (closure t c opts world_at) p.subtasks new_graph).1 canceled s
      → Returns s o
      → o.err ≡ none
      → somes o.result.outputs (collect_findings o.result.outputs p.subtasks)
        ≡ outputs_of o.result.outputs p.subtasks
  collect_findings-planned fits p sch canceled s o accepted r returned fine =
      collect_findings-ordered (closure t c opts world_at) p sch canceled s o accepted r returned
        fine (closure-not_nil t c opts world_at fits)
