-- ===== src/Dag/Coordinator/Outputs.antt =====
-- Where the outputs of `Run` (internal/agent/dag/scheduler.go) come from.
use go_research.Prelude.{
  ℕ, ◌-◌, ◌<◌, Bool, true, ◌≡◌, refl, sym, ap, ◌∙◌, ◌≢◌, inl, inr, Option, none, some, List, [],
  ◌∷◌, ◌++◌, Str, Map, lookup, insert, lookup-insert, str_eq, str_eq_iff, str_eq_refl, In,
  In-concat_cases, In-append_right, arith, subst, Bool-cases, Option-cases,
}
use go_research.Prelude.Int.{pos, max_int}
use go_research.Dag.Types.{Node, State, ready, succeeded, failed}
use go_research.Dag.Graph.{Graph}
use go_research.Dag.Graph.Add.{IsWellFormed}
use go_research.Dag.Worker.{
  RunFn, Task, DoneMsg, Scheduler, Environment, execute, safe_run, returns,
}
use go_research.Dag.Worker.Message.{execute-node_id, execute-Made}
use go_research.Dag.Coordinator.{
  System, output, promote, receive, init, Step, take, finish, handle, interrupt, Reach, start,
  later, Outcome, Returns, completed, stopped, cancel_rest,
}
use go_research.Dag.Coordinator.Invariant.{has_succeeded, Fits, Kept}
use go_research.Dag.Coordinator.Dispatch.{Fits-mono}
use go_research.Dag.Coordinator.Unchanged.{promote-outputs, seed-outputs}
use go_research.Dag.Coordinator.Receive.{failed_same, succeeded_mono, other_output}
use go_research.Dag.Coordinator.Steps.{Reach-Kept}
use go_research.Dag.Coordinator.Safety.{same_successes}

module _ {V E : Type 0} (g : Graph (RunFn V E)) where
  -- A task whose node, called with the outputs of its dependencies, has returned the value.
  pub record MadeBy (states : Map State) (outputs : Map (Option V)) (id : Str) (v : Option V)
      : Type 0 where
    pub task : Task V E
    pub fits : Fits g states outputs task
    pub named : task.node.id ≡ id
    pub moment : ℕ
    pub returned : safe_run task.node task.deps moment ≡ returns v

  pub record Sourced (states : Map State) (outputs : Map (Option V)) (d : List (DoneMsg V E))
      : Type 0 where
    pub messages : (m : DoneMsg V E) → In m d → m.err ≡ none → MadeBy states outputs m.node_id m.out
    pub stored : (id : Str) (v : Option V) → lookup id outputs ≡ some v → MadeBy states outputs id v

  -- What has succeeded stays so, with its output.
  abbrev Grows : Map State → Map (Option V) → Map State → Map (Option V) → Type 0
  Grows states outputs states' outputs' =
      (d : Str)
      → has_succeeded states d ≡ true
      → (has_succeeded states' d ≡ true) × (output outputs' d ≡ output outputs d)

  MadeBy-mono :
      (states states' : Map State) (outputs outputs' : Map (Option V)) (id : Str) (v : Option V)
      → Grows states outputs states' outputs'
      → MadeBy states outputs id v
      → MadeBy states' outputs' id v
  MadeBy-mono states states' outputs outputs' id v h m = record {
    task = m.task;
    fits = Fits-mono g states states' outputs outputs' m.task h m.fits;
    named = m.named;
    moment = m.moment;
    returned = m.returned;
  }

  module _ (wf : IsWellFormed g) where
    lookup-nil : (id : Str) (v : Option V) → lookup {V = Option V} id [] ≢ some v
    unfolding lookup
    lookup-nil id v h = cc

    init-Sourced : Sourced (init g).states (init g).outputs (init g).done_ch
    unfolding init
    init-Sourced =
        let (o, c) = seed-outputs g wf g.nodes _ in
        record {
          messages = λ m i. absurd (subst (λ d. In m d) c i);
          stored = λ id v h. absurd (lookup-nil id v (subst (λ m. lookup id m ≡ some v) o h));
        }

    finish-Sourced :
        ((n : Node (RunFn V E)) → In n g.nodes → (r : ℕ) × (n.max_retry ≡ pos r) × (r < max_int))
        → (sch : Scheduler) (env : Environment E) (s : System V E) (t : Task V E) → In t s.busy
        → Kept g [] [] s
        → Sourced s.states s.outputs s.done_ch
        → Sourced s.states s.outputs (s.done_ch ++ (execute sch env t).msg ∷ [])
    finish-Sourced retries sch env s t i k so =
        let fits = k.tasks.taken t i in
        let (r, e, small) = retries t.node fits.known in
        record {
          messages = λ m j fine. elim (In-concat_cases m s.done_ch (execute sch env t).msg j) [
            | inl before ↦ so.messages m before fine
            | inr same ↦
                let msg = (execute sch env t).msg in
                let (moment, returned) =
                  execute-Made sch env t r e small
                    (ap (λ (x : DoneMsg V E). x.err) (sym same) ∙ fine) in
                record {
                  task = t;
                  fits = fits;
                  named =
                      sym (execute-node_id sch env t)
                      ∙ ap (λ (x : DoneMsg V E). x.node_id) (sym same);
                  moment = moment;
                  returned = returned ∙ ap (λ (x : DoneMsg V E). returns x.out) (sym same);
                }
          ];
          stored = so.stored;
        }

    grown-Sourced :
        (states states' : Map State) (outputs outputs' : Map (Option V)) (d d' : List (DoneMsg V E))
        → Grows states outputs states' outputs'
        → ((m : DoneMsg V E) → In m d' → In m d)
        → ((id : Str) (v : Option V) → lookup id outputs' ≡ some v → MadeBy states outputs id v)
        → Sourced states outputs d
        → Sourced states' outputs' d'
    grown-Sourced states states' outputs outputs' d d' grow sub stored so = record {
      messages = λ m i fine.
          MadeBy-mono states states' outputs outputs' m.node_id m.out grow
            (so.messages m (sub m i) fine);
      stored = λ id v h. MadeBy-mono states states' outputs outputs' id v grow (stored id v h);
    }

    inserted-MadeBy :
        (states : Map State) (outputs : Map (Option V)) (id : Str) (out : Option V)
        → MadeBy states outputs id out
        → ((j : Str) (v : Option V) → lookup j outputs ≡ some v → MadeBy states outputs j v)
        → (j : Str) (v : Option V) → lookup j (insert id out outputs) ≡ some v
        → MadeBy states outputs j v
    inserted-MadeBy states outputs id out mine others j v h = elim (Bool-cases (str_eq id j)) [
      | inr apart ↦ others j v (ground (arith, lookup-insert id j out outputs))
      | inl same ↦
          let e : id ≡ j = (str_eq_iff id j).0 same in
          let e' : out ≡ v = ground (arith, lookup-insert id j out outputs) in
          subst (λ x. MadeBy states outputs j x) e'
            (subst (λ k. MadeBy states outputs k out) e mine)
    ]

    handle-Sourced :
        (canceled : E) (sends : Str → Bool) (s : System V E) (msg : DoneMsg V E)
        (msgs : List (DoneMsg V E))
        → s.done_ch ≡ msg ∷ msgs
        → Kept g [] [] s
        → Sourced s.states s.outputs s.done_ch
        → let r = receive g canceled sends msg (record s { done_ch = msgs }) in
          Sourced r.states r.outputs r.done_ch
    unfolding receive
    handle-Sourced canceled sends s msg msgs e k so =
        let id = msg.node_id in
        let old : lookup id s.states ≡ some ready =
          k.flight.flying id (rw e (ground (arith, str_eq_refl id))) in
        let so' : Sourced s.states s.outputs (msg ∷ msgs) =
          subst (λ d. Sourced s.states s.outputs d) e so in
        elim (Option-cases msg.err) [
          | inr (x, bad) ↦
              rw (receive, bad)
                (grown-Sourced s.states (insert id failed s.states) s.outputs s.outputs (msg ∷ msgs)
                  msgs (λ d h. (failed_same g wf id s.states old d ∙ h, refl)) (λ m i. inr i)
                  so'.stored so')
          | inl good ↦
              let states = insert id succeeded s.states in
              let outputs = insert id msg.out s.outputs in
              let mid : System V E = record s {
                states = states;
                outputs = outputs;
                done_ch = msgs;
                remaining = s.remaining - 1;
              } in
              let (o, c, more) = promote-outputs g wf sends id g.nodes mid (λ n i. i) in
              let r = promote sends id g.nodes mid in
              let mid-Sourced : Sourced states outputs msgs =
                grown-Sourced s.states states s.outputs outputs (msg ∷ msgs) msgs
                  (λ d h. (
                    succeeded_mono g wf id s.states old d h,
                    other_output g wf id s.states old s.outputs msg.out d h,
                  ))
                  (λ m i. inr i)
                  (inserted-MadeBy s.states s.outputs id msg.out (so'.messages msg (inl refl) good)
                    so'.stored)
                  so' in
              rw (receive, good)
                (grown-Sourced states r.states outputs r.outputs msgs r.done_ch
                  (λ d h. (more d h, ap (λ m. output m d) o)) (λ m i. subst (λ d. In m d) c i)
                  (λ j v h. mid-Sourced.stored j v (subst (λ m. lookup j m ≡ some v) o h))
                  mid-Sourced)
        ]

    Step-Sourced :
        ((n : Node (RunFn V E)) → In n g.nodes → (r : ℕ) × (n.max_retry ≡ pos r) × (r < max_int))
        → (sch : Scheduler) (canceled : E) {s t : System V E} → Kept g [] [] s
        → Sourced s.states s.outputs s.done_ch
        → Step sch g canceled s t
        → Sourced t.states t.outputs t.done_ch
    Step-Sourced retries sch canceled k so (take e free) = so
    Step-Sourced retries sch canceled {s} k so (finish env before t after e) =
        finish-Sourced retries sch env s t (rw e (In-append_right t before (t ∷ after) (inl refl)))
          k so
    Step-Sourced retries sch canceled {s} k so
          (handle sends {msg = m} {msgs = ms} some_left e may_drop) =
        handle-Sourced canceled sends s m ms e k so
    Step-Sourced retries sch canceled k so (interrupt e h) = so

    Reach-Sourced :
        ((n : Node (RunFn V E)) → In n g.nodes → (r : ℕ) × (n.max_retry ≡ pos r) × (r < max_int))
        → (sch : Scheduler) (canceled : E) {s : System V E} → Reach sch g canceled s
        → Sourced s.states s.outputs s.done_ch
    Reach-Sourced retries sch canceled start = init-Sourced
    Reach-Sourced retries sch canceled (later r step) =
        Step-Sourced retries sch canceled (Reach-Kept g wf sch canceled r)
          (Reach-Sourced retries sch canceled r) step

    -- Every output in the result is what a call of the node's function has returned, which was given the
    -- outputs that its dependencies have in the same result, all of which have succeeded. No node has a
    -- negative MaxRetry, or the greatest int, with which it would be done without a call.
    pub Returns-MadeBy :
        ((n : Node (RunFn V E)) → In n g.nodes → (r : ℕ) × (n.max_retry ≡ pos r) × (r < max_int))
        → (sch : Scheduler) (canceled : E) (s : System V E) (o : Outcome V E)
        → Reach sch g canceled s
        → Returns s o
        → (id : Str) (v : Option V) → lookup id o.result.outputs ≡ some v
        → MadeBy o.result.states o.result.outputs id v
    Returns-MadeBy retries sch canceled s o r (completed e) id v h =
        (Reach-Sourced retries sch canceled r).stored id v h
    Returns-MadeBy retries sch canceled s o r (stopped {e = x} more e) id v h =
        MadeBy-mono s.states (cancel_rest s.states) s.outputs s.outputs id v
          (λ d q. (same_successes s.states d ∙ q, refl))
          ((Reach-Sourced retries sch canceled r).stored id v h)
