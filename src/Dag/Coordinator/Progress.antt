-- ===== src/Dag/Coordinator/Progress.antt =====
-- `Run` (internal/agent/dag/scheduler.go) does not block, and it returns.
use go_research.Prelude.{
  List-cases, ℕ, ◌+◌, ◌-◌, ◌*◌, ◌≤◌, ◌<◌, Bool, true, false, ◌≡◌, refl, ap, ◌∙◌, inl, inr, Option,
  none, some, List, [], ◌∷◌, Str, Map, str_eq_refl, lookup, insert, length, length-append, In,
  arith, Bool-cases, Option-cases,
}
use go_research.Dag.Types.{Node, pending, ready, succeeded, failed}
use go_research.Dag.Graph.{Graph}
use go_research.Dag.Graph.Add.{In-ids, IsWellFormed}
use go_research.Dag.Worker.{RunFn, Task, DoneMsg, Scheduler, execute}
use go_research.Dag.Coordinator.{
  System, left, is_pending, without, snapshot, dispatch, promote_one, promote, receive, Step, take,
  finish, handle, interrupt,
}
use go_research.Dag.Coordinator.Weights.{waits, sum_of, sum_of-insert}
use go_research.Dag.Coordinator.Invariant.{Kept}
use go_research.Dag.Coordinator.Promote.{is_pending_iff}
use go_research.Dag.Coordinator.Steps.{length-middle}

module _ {V E : Type 0} (g : Graph (RunFn V E)) where
  -- The moves that the workers and the coordinator have left, at most.
  abbrev pub work : System V E → ℕ
  work s =
      4 * sum_of waits g.nodes s.states
      + 3 * length s.task_ch
      + 2 * length s.busy
      + length s.done_ch

  abbrev pub open_ctx : Option E → ℕ
  open_ctx none = 1
  open_ctx (some e) = 0

  -- The same, and the step in which the context is done.
  abbrev pub potential : System V E → ℕ
  potential s = work s + open_ctx s.ctx_err

  module _ (wf : IsWellFormed g) where
    dispatch-work :
        (sent : Bool) (n : Node (RunFn V E)) (deps : Map (Option V)) (s : System V E)
        → In n g.nodes
        → lookup n.id s.states ≡ some pending
        → work (dispatch sent n deps s) ≤ work s
    unfolding dispatch
    dispatch-work true n deps s i old = omega (
      arith,
      sum_of-insert waits g.nodes n.id ready s.states wf.distinct (In-ids n g.nodes i),
      ap waits old,
      length-append s.task_ch (record { node = n; deps = deps } ∷ []),
    )
    dispatch-work false n deps s i old = omega (
      arith,
      sum_of-insert waits g.nodes n.id ready s.states wf.distinct (In-ids n g.nodes i),
      ap waits old,
    )

    promote_one-work :
        (sends : Str → Bool) (id : Str) (n : Node (RunFn V E)) (s : System V E)
        → In n g.nodes
        → (work (promote_one sends id n s) ≤ work s)
          × ((promote_one sends id n s).ctx_err ≡ s.ctx_err)
    unfolding promote_one
    promote_one-work sends id n s i = elim (Bool-cases (is_pending s.states n.id)) [
      | inr p ↦ rw (promote_one, p) (omega arith, refl)
      | inl p ↦ elim (List-cases (without id (left s.unmet n.id))) [
        | inl nil ↦
            rw (promote_one, p, nil)
              (
                dispatch-work (sends n.id) n (snapshot s.outputs n.depends_on)
                    (record s { unmet = insert n.id (without id (left s.unmet n.id)) s.unmet }) i
                    (is_pending_iff s.states n.id p),
                refl,
              )
        | inr (e, es, more) ↦ rw (promote_one, p, more) (omega arith, refl)
      ]
    ]

    promote-work :
        (sends : Str → Bool) (id : Str) (ns : List (Node (RunFn V E))) (s : System V E)
        → ((n : Node (RunFn V E)) → In n ns → In n g.nodes)
        → (work (promote sends id ns s) ≤ work s) × ((promote sends id ns s).ctx_err ≡ s.ctx_err)
    unfolding promote
    promote-work sends id [] s all = (omega arith, refl)
    promote-work sends id (n ∷ ns) s all =
        let (here, same) = promote_one-work sends id n s (all n (inl refl)) in
        let (rest, same') =
          promote-work sends id ns (promote_one sends id n s) (λ m i. all m (inr i)) in
        (omega (arith, here, rest), same' ∙ same)

    receive-potential :
        (canceled : E) (sends : Str → Bool) (msg : DoneMsg V E) (msgs : List (DoneMsg V E))
        (s : System V E)
        → s.done_ch ≡ msg ∷ msgs
        → Kept g [] [] s
        → (work (receive g canceled sends msg (record s { done_ch = msgs })) < work s)
          × (potential (receive g canceled sends msg (record s { done_ch = msgs })) < potential s)
    unfolding receive
    receive-potential canceled sends msg msgs s e k =
        let old : lookup msg.node_id s.states ≡ some ready =
          k.flight.flying msg.node_id (rw e (ground (arith, str_eq_refl msg.node_id))) in
        let member = k.status.domain msg.node_id (λ q. cc) in
        let length_done = ap (λ (d : List (DoneMsg V E)). length d) e in
        elim (Option-cases msg.err) [
          | inr (x, bad) ↦
              let sum =
                sum_of-insert waits g.nodes msg.node_id failed s.states wf.distinct member in
              rw (receive, bad)
                (
                  omega (arith, sum, ap waits old, length_done),
                  omega (arith, sum, ap waits old, length_done),
                )
          | inl good ↦
              let sum =
                sum_of-insert waits g.nodes msg.node_id succeeded s.states wf.distinct member in
              let (fewer, same) =
                promote-work sends msg.node_id g.nodes
                  (record s {
                    states = insert msg.node_id succeeded s.states;
                    outputs = insert msg.node_id msg.out s.outputs;
                    done_ch = msgs;
                    remaining = s.remaining - 1;
                  })
                  (λ n i. i) in
              rw (receive, good)
                (
                  omega (arith, sum, ap waits old, length_done, fewer),
                  omega (arith, sum, ap waits old, length_done, fewer, ap open_ctx same),
                )
        ]

    -- Every step uses up one move at least.
    pub Step-potential :
        (sch : Scheduler) (canceled : E) {s t : System V E}
        → Kept g [] [] s
        → Step sch g canceled s t
        → potential t < potential s
    Step-potential sch canceled {s} k (take {t = x} {ts = ts} e free) =
        omega (arith, ap (λ (q : List (Task V E)). length q) e)
    Step-potential sch canceled {s} k (finish env before x after e) = omega (
      arith,
      ap (λ (b : List (Task V E)). length b) e,
      length-middle before x after,
      length-append s.done_ch ((execute sch env x).msg ∷ []),
    )
    Step-potential sch canceled {s} k (handle sends {msg = m} {msgs = ms} some_left e may_drop) =
        (receive-potential canceled sends m ms s e k).1
    Step-potential sch canceled {s} k (interrupt e h) = omega (arith, ap open_ctx h)
