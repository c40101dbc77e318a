-- ===== src/Dag/Coordinator/Steps.antt =====
-- Every step of `Run` and its workers (internal/agent/dag/scheduler.go) keeps the invariant.
use go_research.Prelude.{
  suc, ◌+◌, Bool, true, ◌≡◌, refl, ap, ◌⊎◌, inl, inr, Option, some, List, [], ◌∷◌, ◌++◌, Str, Map,
  str_eq, str_eq_refl, lookup, length, length-append, In, arith, subst, Option-cases, if◌then◌else◌,
}
use go_research.Dag.Types.{State, ready, succeeded, failed}
use go_research.Dag.Graph.{Graph}
use go_research.Dag.Graph.Add.{IsWellFormed}
use go_research.Dag.Worker.{RunFn, Task, DoneMsg, Scheduler, execute}
use go_research.Dag.Worker.Message.{execute-node_id}
use go_research.Dag.Coordinator.{
  System, is_some, or_else, receive, Step, take, finish, handle, interrupt, Reach, start, later,
}
use go_research.Dag.Coordinator.Invariant.{occurs, task_ids, msg_ids, aloft, Flight, Counted, Kept}
use go_research.Dag.Coordinator.Promote.{promote-Kept}
use go_research.Dag.Coordinator.Seed.{init-Kept}
use go_research.Dag.Coordinator.Receive.{
  done-Status, done-Flight, done-Counted, failed-Waiting, succeeded-Waiting, failed-Tasks,
  succeeded-Tasks, failed-Blame, succeeded-Blame, now,
}

module _ {V E : Type 0} where
  pub occurs-middle :
      (id : Str) (before : List (Task V E)) (t : Task V E) (after : List (Task V E))
      → occurs id (task_ids (before ++ t ∷ after))
        ≡ occurs id (task_ids (before ++ after)) + (if str_eq t.node.id id then 1 else 0)
  occurs-middle id [] t after = omega arith
  occurs-middle id (x ∷ before) t after = omega (arith, occurs-middle id before t after)

  pub occurs-done :
      (id : Str) (d : List (DoneMsg V E)) (m : DoneMsg V E)
      → occurs id (msg_ids (d ++ m ∷ []))
        ≡ occurs id (msg_ids d) + (if str_eq m.node_id id then 1 else 0)
  occurs-done id [] m = omega arith
  occurs-done id (x ∷ d) m = omega (arith, occurs-done id d m)

  pub length-middle :
      (before : List (Task V E)) (t : Task V E) (after : List (Task V E))
      → length (before ++ t ∷ after) ≡ suc (length (before ++ after))
  length-middle [] t after = omega arith
  length-middle (x ∷ before) t after = omega (arith, length-middle before t after)

  In-middle :
      (before : List (Task V E)) (t : Task V E) (after : List (Task V E)) (x : Task V E)
      → In x (before ++ after)
      → In x (before ++ t ∷ after)
  In-middle [] t after x m = inr m
  In-middle (y ∷ before) t after x (inl e) = inl e
  In-middle (y ∷ before) t after x (inr m) = inr (In-middle before t after x m)

  module _ (g : Graph (RunFn V E)) where
    -- The same nodes are with the workers.
    same-Flight :
        (states : Map State) (ctx : Option E) (q b q' b' : List (Task V E))
        (d d' : List (DoneMsg V E))
        → ((k : Str) → aloft k q' b' d' ≡ aloft k q b d)
        → Flight g states ctx q b d
        → Flight g states ctx q' b' d'
    same-Flight states ctx q b q' b' d d' h f = record {
      once = λ k. rw (h k) (f.once k);
      flying = λ k m. f.flying k (rw (h k) at m);
      landed = λ k m c. rw (h k) (f.landed k m c);
    }

    take-Kept :
        (s : System V E) (t : Task V E) (ts : List (Task V E))
        → s.task_ch ≡ t ∷ ts
        → Kept g [] [] s
        → Kept g [] [] (record s { task_ch = ts; busy = t ∷ s.busy })
    take-Kept s t ts e k = record {
      status = k.status;
      flight =
          same-Flight s.states s.ctx_err s.task_ch s.busy ts (t ∷ s.busy) s.done_ch s.done_ch
            (λ j. omega (arith, ap (λ (q : List (Task V E)). occurs j (task_ids q)) e)) k.flight;
      waiting = k.waiting;
      tasks = record {
        sent = λ x m. k.tasks.sent x (rw e (inr m));
        taken = λ x m. elim m [
          | inl same ↦ k.tasks.sent x (rw e (inl same))
          | inr i ↦ k.tasks.taken x i
        ];
        outs = k.tasks.outs;
      };
      counted = record {
        exact = k.counted.exact;
        load = omega (arith, ap (λ (q : List (Task V E)). length q) e, k.counted.load);
      };
      blame = k.blame;
    }

    finish-Kept :
        (s : System V E) (before : List (Task V E)) (t : Task V E) (after : List (Task V E))
        (m : DoneMsg V E)
        → s.busy ≡ before ++ t ∷ after
        → m.node_id ≡ t.node.id
        → Kept g [] [] s
        → Kept g [] [] (record s { busy = before ++ after; done_ch = s.done_ch ++ m ∷ [] })
    finish-Kept s before t after m e same k = record {
      status = k.status;
      flight =
          same-Flight s.states s.ctx_err s.task_ch s.busy s.task_ch (before ++ after) s.done_ch
            (s.done_ch ++ m ∷ [])
            (λ j.
              rw (e, occurs-middle j before t after, occurs-done j s.done_ch m, same) (omega arith))
            k.flight;
      waiting = k.waiting;
      tasks = record {
        sent = k.tasks.sent;
        taken = λ x i. k.tasks.taken x (rw e (In-middle before t after x i));
        outs = k.tasks.outs;
      };
      counted = record {
        exact = k.counted.exact;
        load = omega (
          arith,
          ap (λ (b : List (Task V E)). length b) e,
          length-middle before t after,
          length-append s.done_ch (m ∷ []),
          k.counted.load,
        );
      };
      blame = k.blame;
    }

    interrupt-Kept :
        (s : System V E) (e : E) → Kept g [] [] s → Kept g [] [] (record s { ctx_err = some e })
    interrupt-Kept s e k = record {
      status = k.status;
      flight = record {
        once = k.flight.once;
        flying = k.flight.flying;
        landed = λ j h c. absurd (cc);
      };
      waiting = k.waiting;
      tasks = k.tasks;
      counted = k.counted;
      blame = record { blamed = λ j h. ((k.blame.blamed j h).0, refl); named = k.blame.named };
    }

    any-Kept : (i : Str) (s : System V E) → Kept g [] i s → Kept g [] [] s
    any-Kept i s k = record {
      status = k.status;
      flight = k.flight;
      waiting = record {
        met = k.waiting.met;
        open_deps = λ n m p d.
            let (there, back) = k.waiting.open_deps n m p d in
            (
              λ j. ((there j).0, elim (there j).1 [ inl f ↦ inl f | inr q ↦ absurd q.1 ]),
              λ h. back (h.0, elim h.1 [ inl f ↦ inl f | inr q ↦ absurd q.1 ]),
            );
        blocked = k.waiting.blocked;
      };
      tasks = k.tasks;
      counted = k.counted;
      blame = k.blame;
    }

    module _ (wf : IsWellFormed g) where
      handle-Kept :
          (canceled : E) (sends : Str → Bool) (s : System V E) (msg : DoneMsg V E)
          (msgs : List (DoneMsg V E))
          → s.done_ch ≡ msg ∷ msgs
          → ((id : Str) → sends id ≡ true) ⊎ (is_some s.ctx_err ≡ true)
          → Kept g [] [] s
          → Kept g [] [] (receive g canceled sends msg (record s { done_ch = msgs }))
      unfolding receive
      handle-Kept canceled sends s msg msgs e may_drop k =
          let id = msg.node_id in
          let flight : Flight g s.states s.ctx_err s.task_ch s.busy (msg ∷ msgs) =
            subst (λ d. Flight g s.states s.ctx_err s.task_ch s.busy d) e k.flight in
          let old : lookup id s.states ≡ some ready =
            flight.flying id (ground (arith, str_eq_refl id)) in
          let member = k.status.domain id (λ q. cc) in
          let counted : Counted g s.states s.remaining (length s.task_ch) (length s.busy)
              (suc (length msgs)) =
            subst
              (λ (d : List (DoneMsg V E)).
                Counted g s.states s.remaining (length s.task_ch) (length s.busy) (length d))
              e k.counted in
          elim (Option-cases msg.err) [
            | inr (x, bad) ↦
                rw (receive, bad)
                  (any-Kept id _ (record {
                    status = done-Status g wf id s.states old failed (inl refl) k.status;
                    flight =
                        done-Flight g wf id s.states old failed (inl refl) s.ctx_err
                          (some (or_else s.ctx_err canceled)) s.task_ch s.busy msg msgs refl
                          (λ q. absurd cc) flight;
                    waiting = failed-Waiting g wf id s.states old [] s.unmet k.waiting;
                    tasks = failed-Tasks g wf id s.states old s.outputs s.task_ch s.busy k.tasks;
                    counted =
                        done-Counted g wf id s.states old failed (inl refl) s.remaining
                          (length s.task_ch) (length s.busy) (length msgs) member counted;
                    blame =
                        failed-Blame g wf id s.states old s.first_err s.ctx_err x canceled k.blame;
                  }))
            | inl good ↦
                rw (receive, good)
                  (any-Kept id _ (
                    promote-Kept g wf id sends g.nodes _ (λ n i. i) wf.distinct may_drop
                      (now g wf id s.states old)
                      (record {
                        status = done-Status g wf id s.states old succeeded (inr refl) k.status;
                        flight =
                            done-Flight g wf id s.states old succeeded (inr refl) s.ctx_err
                              s.ctx_err s.task_ch s.busy msg msgs refl (λ q. q) flight;
                        waiting = succeeded-Waiting g wf id s.states old [] s.unmet k.waiting;
                        tasks =
                            succeeded-Tasks g wf id s.states old s.outputs msg.out s.task_ch s.busy
                              k.tasks;
                        counted =
                            done-Counted g wf id s.states old succeeded (inr refl) s.remaining
                              (length s.task_ch) (length s.busy) (length msgs) member counted;
                        blame = succeeded-Blame g wf id s.states old s.first_err s.ctx_err k.blame;
                      })))
          ]

      pub Step-Kept :
          (sch : Scheduler) (canceled : E) {s t : System V E}
          → Kept g [] [] s
          → Step sch g canceled s t
          → Kept g [] [] t
      Step-Kept sch canceled {s} k (take {t = x} {ts = ts} e free) = take-Kept s x ts e k
      Step-Kept sch canceled {s} k (finish env before x after e) =
          finish-Kept s before x after (execute sch env x).msg e (execute-node_id sch env x) k
      Step-Kept sch canceled {s} k (handle sends {msg = m} {msgs = ms} more e may_drop) =
          handle-Kept canceled sends s m ms e may_drop k
      Step-Kept sch canceled {s} k (interrupt e h) = interrupt-Kept s e k

      -- Every reachable state keeps the invariant.
      pub Reach-Kept :
          (sch : Scheduler) (canceled : E) {s : System V E}
          → Reach sch g canceled s
          → Kept g [] [] s
      Reach-Kept sch canceled start = init-Kept g wf
      Reach-Kept sch canceled (later r step) =
          Step-Kept sch canceled (Reach-Kept sch canceled r) step
