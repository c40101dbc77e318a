-- ===== src/Dag/Coordinator/Liveness.antt =====
-- `Run` (internal/agent/dag/scheduler.go) does not block, and it returns.
use go_research.Prelude.{
  List-cases, ℕ, zero, suc, ◌≤◌, ◌<◌, Bool, true, false, ◌≡◌, refl, sym, ap, ◌∙◌, ◌⊎◌, inl, inr,
  Option, none, some, List, [], ◌∷◌, Str, Map, lookup, length, In, arith, subst, Option-cases,
}
use go_research.Prelude.Int.{pos}
use go_research.Dag.Types.{Node, State, ready, failed}
use go_research.Dag.Graph.{Graph, validate, valid}
use go_research.Dag.Graph.Add.{In-ids, IsWellFormed}
use go_research.Dag.Graph.Invariant.{Dep, Ordered}
use go_research.Dag.Graph.DepthFirst.{IsKnown}
use go_research.Dag.Graph.Verdict.{validate-Verdict, Verdict}
use go_research.Dag.Worker.{RunFn, Task, DoneMsg, Scheduler, Environment}
use go_research.Dag.Coordinator.{
  System, left, is_pending, is_some, worker_count, Step, take, finish, handle, interrupt, Outcome,
  Returns, completed, stopped,
}
use go_research.Dag.Coordinator.Weights.{unfinished, sum_of}
use go_research.Dag.Coordinator.Invariant.{has_succeeded, Live, occurs, task_ids, msg_ids, Kept}
use go_research.Dag.Coordinator.Promote.{apart_bools}

-- The ways a live node has not succeeded.
Live-cases :
    (m : Map State) (id : Str)
    → Live (lookup id m)
    → (has_succeeded m id ≡ true)
      ⊎ ((is_pending m id ≡ true) ⊎ ((lookup id m ≡ some ready) ⊎ (lookup id m ≡ some failed)))
Live-cases m id h = ground arith

succeeded-unfinished :
    (m : Map State) (id : Str) → has_succeeded m id ≡ true → unfinished (lookup id m) ≡ 0
succeeded-unfinished m id h = ground arith

some_done : {A : Type 0} → (o : Option A) → is_some o ≡ true → ¬ (o ≡ none)
some_done o h e = ground arith

-- The context is never done in an attempt, and every attempt is in time.
abbrev pub calm : (E : Type 0) → Environment E
calm E n = record { done = none; refused = none; moment = 0; elapsed = pos 0; interrupted = none }

-- Whether a step is the caller's.
abbrev pub by_caller :
    {V E : Type 0} {g : Graph (RunFn V E)} {sch : Scheduler} {canceled : E} {s t : System V E}
    → Step sch g canceled s t
    → Bool
by_caller (take e free) = false
by_caller (finish env before t after e) = false
by_caller (handle sends some_left e may_drop) = false
by_caller (interrupt e h) = true

module _ {V E : Type 0} (g : Graph (RunFn V E)) (wf : IsWellFormed g) where
  module _ (s : System V E) (k : Kept g [] [] s) (open_now : s.ctx_err ≡ none)
      (none_sent : s.task_ch ≡ []) (none_busy : s.busy ≡ []) (none_done : s.done_ch ≡ []) where
    not_ready : (id : Str) → ¬ (lookup id s.states ≡ some ready)
    not_ready id r = omega (
      arith,
      k.flight.landed id r open_now,
      ap (λ (q : List (Task V E)). occurs id (task_ids q)) none_sent,
      ap (λ (q : List (Task V E)). occurs id (task_ids q)) none_busy,
      ap (λ (q : List (DoneMsg V E)). occurs id (msg_ids q)) none_done,
    )

    not_failed : (id : Str) → ¬ (lookup id s.states ≡ some failed)
    not_failed id f = some_done s.ctx_err (k.blame.blamed id f).1 open_now

    not_blocked :
        (n : Node (RunFn V E))
        → In n g.nodes
        → ((d : Str) → In d n.depends_on → has_succeeded s.states d ≡ true)
        → ¬ (is_pending s.states n.id ≡ true)
    not_blocked n i deps p = elim (List-cases (left s.unmet n.id)) [
      | inl nil ↦ elim (k.waiting.blocked n i p) [ inl q ↦ q | inr h ↦ h nil ]
      | inr (d, ds, more) ↦
          let (dep, why) = (k.waiting.open_deps n i p d).0 (rw more (inl refl)) in
          elim why [ inl f ↦ apart_bools (sym f ∙ deps d dep) | inr q ↦ q.1 ]
    ]

    node_succeeded :
        (n : Node (RunFn V E))
        → In n g.nodes
        → ((d : Str) → In d n.depends_on → has_succeeded s.states d ≡ true)
        → has_succeeded s.states n.id ≡ true
    node_succeeded n i deps =
        elim (Live-cases s.states n.id (k.status.live n.id (In-ids n g.nodes i))) [
          | inl yes' ↦ yes'
          | inr (inr (inl r)) ↦ absurd (not_ready n.id r)
          | inr (inr (inr f)) ↦ absurd (not_failed n.id f)
          | inr (inl p) ↦ absurd (not_blocked n i deps p)
        ]

    -- By the order in which `Validate` can put the nodes, every one of them has succeeded.
    In-succeeded :
        IsKnown g
        → (order : List Str) → Ordered g order
        → (n : Node (RunFn V E)) → In n g.nodes
        → In n.id order
        → has_succeeded s.states n.id ≡ true
    In-succeeded known [] o n i m = absurd m
    In-succeeded known (y ∷ order) o n i (inr m) = In-succeeded known order o.1 n i m
    In-succeeded known (y ∷ order) o n i (inl q) = node_succeeded n i (λ d dep.
        let found : lookup y g.by_id ≡ some n =
          subst (λ j. lookup j g.by_id ≡ some n) q (wf.listed n i) in
        let edge : Dep g y d = record { node = n; found = found; listed = dep } in
        let (m, at_d) = known y d edge in
        let (same, i') = wf.keyed d m at_d in
        subst (λ j. has_succeeded s.states j ≡ true) same
          (In-succeeded known order o.1 m i' (subst (λ j. In j order) (sym same) (o.0 d edge))))

    sum_none :
        (ns : List (Node (RunFn V E)))
        → ((n : Node (RunFn V E)) → In n ns → has_succeeded s.states n.id ≡ true)
        → sum_of unfinished ns s.states ≡ 0
    sum_none [] all = refl
    sum_none (n ∷ ns) all = omega (
      arith,
      succeeded-unfinished s.states n.id (all n (inl refl)),
      sum_none ns (λ m i. all m (inr i)),
    )

    -- When nothing is on its way, nothing is left to do.
    pub idle-remaining : validate g ≡ valid → s.remaining ≡ 0
    idle-remaining v =
        let (known, schedule) : Verdict g valid = rw v at (validate-Verdict g wf) in
        k.counted.exact
        ∙ sum_none g.nodes
            (λ n i. In-succeeded known schedule.order schedule.ordered n i (schedule.covers n i))

  -- What `Run` can do next by itself: return, or a step of the loop or a worker.
  pub data CanGo (sch : Scheduler) (canceled : E) (s : System V E) : Type 0 where
    returns : {o : Outcome V E} → Returns s o → CanGo sch canceled s
    goes :
        {t : System V E} (step : Step sch g canceled s t)
        → by_caller step ≡ false
        → CanGo sch canceled s

  zero-cases : (n : ℕ) → (n ≡ 0) ⊎ (0 < n)
  zero-cases zero = inl refl
  zero-cases (suc n) = inr (omega arith)

  pub Kept-CanGo :
      (sch : Scheduler) (canceled : E) (s : System V E)
      → 1 ≤ worker_count sch.concurrency
      → validate g ≡ valid
      → Kept g [] [] s
      → CanGo sch canceled s
  Kept-CanGo sch canceled s workers v k = elim (zero-cases s.remaining) [
    | inl over ↦ returns (completed over)
    | inr some_left ↦ elim (Option-cases s.ctx_err) [
      | inr (e, done) ↦ returns (stopped some_left done)
      | inl open_now ↦ elim (List-cases s.done_ch) [
        | inr (m, ms, more) ↦ goes (handle (λ id. true) some_left more (inl (λ id. refl))) refl
        | inl none_done ↦ elim (List-cases s.busy) [
          | inr (t, ts, more) ↦ goes (finish (calm E) [] t ts more) refl
          | inl none_busy ↦ elim (List-cases s.task_ch) [
            | inr (t, ts, more) ↦
                goes
                  (take more
                    (omega (arith, workers, ap (λ (b : List (Task V E)). length b) none_busy)))
                  refl
            | inl none_sent ↦ absurd (
                omega
                  (arith, some_left, idle-remaining s k open_now none_sent none_busy none_done v))
          ]
        ]
      ]
    ]
  ]
