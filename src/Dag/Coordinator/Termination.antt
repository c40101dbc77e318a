-- ===== src/Dag/Coordinator/Termination.antt =====
-- How many steps `Run` (internal/agent/dag/scheduler.go) and its workers take, and that `Run` returns.
use go_research.Prelude.{
  ℕ, zero, suc, ◌+◌, ◌*◌, ◌≤◌, ◌<◌, false, ◌≡◌, Option, none, some, [], length, arith,
}
use go_research.Dag.Graph.{Graph, validate, valid}
use go_research.Dag.Graph.Add.{IsWellFormed}
use go_research.Dag.Worker.{RunFn, Scheduler}
use go_research.Dag.Coordinator.{System, init, worker_count, Step, Reach, Outcome, Returns}
use go_research.Dag.Coordinator.Invariant.{Kept}
use go_research.Dag.Coordinator.Seed.{init-Kept}
use go_research.Dag.Coordinator.Steps.{Reach-Kept, Step-Kept}
use go_research.Dag.Coordinator.Safety.{sum-le}
use go_research.Dag.Coordinator.Progress.{potential, open_ctx, Step-potential}
use go_research.Dag.Coordinator.Liveness.{by_caller, returns, goes, Kept-CanGo}

module _ {V E : Type 0} (g : Graph (RunFn V E)) (sch : Scheduler) (canceled : E) where
  open_ctx-le : (o : Option E) → open_ctx g o ≤ 1
  open_ctx-le none = omega arith
  open_ctx-le (some e) = omega arith

  -- A run of so many steps.
  pub data Trace (s : System V E) : ℕ → System V E → Type 0 where
    here : Trace s 0 s
    step_to : {n : ℕ} {t u : System V E} → Trace s n t → Step sch g canceled t u → Trace s (suc n) u

  -- The steps of the loop and the workers alone.
  pub data Leads : System V E → System V E → Type 0 where
    stays : {s : System V E} → Leads s s
    moves :
        {s t u : System V E} (step : Step sch g canceled s t)
        → by_caller step ≡ false
        → Leads t u
        → Leads s u

  module _ (wf : IsWellFormed g) where
    Trace-Kept :
        {s t : System V E} {n : ℕ}
        → Kept g [] [] s
        → Trace s n t
        → Kept g [] [] t × (potential g t + n ≤ potential g s)
    Trace-Kept k here = (k, omega arith)
    Trace-Kept k (step_to {t = m} run step) =
        let (k', less) = Trace-Kept k run in
        (
          Step-Kept g wf sch canceled k' step,
          omega (arith, less, Step-potential g wf sch canceled k' step),
        )

    init-potential : potential g (init g) ≤ 4 * length g.nodes + 1
    init-potential =
        let k = init-Kept g wf in
        omega (
          arith,
          k.counted.exact,
          k.counted.load,
          sum-le g.nodes (init g).states,
          open_ctx-le (init g).ctx_err,
        )

    -- In whatever order the workers, the loop and the caller's context act, a run of a graph takes
    -- four steps for each node and one more at most.
    pub Trace-bound : (n : ℕ) (t : System V E) → Trace (init g) n t → n ≤ 4 * length g.nodes + 1
    Trace-bound n t run = omega (arith, (Trace-Kept (init-Kept g wf) run).1, init-potential)

    module _ (workers : 1 ≤ worker_count sch.concurrency) (v : validate g ≡ valid) where
      go_on :
          (fuel : ℕ) (s : System V E)
          → potential g s < fuel
          → Kept g [] [] s
          → (t : System V E) × (o : Outcome V E) × Leads s t × Returns t o
      go_on zero s enough k = absurd (omega (arith, enough))
      go_on (suc fuel) s enough k = elim (Kept-CanGo g wf sch canceled s workers v k) [
        | returns {o = o} r ↦ (s, o, stays, r)
        | goes {t = t} step own ↦
            let k' = Step-Kept g wf sch canceled k step in
            let (u, o, rest, r) =
              go_on fuel t (omega (arith, enough, Step-potential g wf sch canceled k step)) k' in
            (u, o, moves step own rest, r)
      ]

      -- Whatever has happened so far, `Run` is not blocked: by steps of the loop and the workers alone,
      -- it comes to return. The graph is one that `Validate` accepts, and there is a worker.
      pub Reach-Returns :
          (s : System V E)
          → Reach sch g canceled s
          → (t : System V E) × (o : Outcome V E) × Leads s t × Returns t o
      Reach-Returns s r =
          go_on (suc (potential g s)) s (omega arith) (Reach-Kept g wf sch canceled r)
