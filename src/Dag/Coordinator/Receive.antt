-- ===== src/Dag/Coordinator/Receive.antt =====
-- The case `msg := <-doneCh` in the loop of `Run` (internal/agent/dag/scheduler.go).
use go_research.Prelude.{
  ℕ, suc, ◌-◌, true, false, ◌≡◌, refl, sym, ap, ◌∙◌, ◌⊎◌, inl, inr, Option, none, some, List, [],
  ◌∷◌, Str, Map, str_eq_iff, lookup, insert, lookup-insert, lookup-insert_self, In, arith,
  Bool-cases,
}
use go_research.Dag.Types.{State, ready, succeeded, failed}
use go_research.Dag.Graph.{Graph}
use go_research.Dag.Graph.Add.{ids, In-ids, IsWellFormed}
use go_research.Dag.Worker.{RunFn, Task, DoneMsg, Failure}
use go_research.Dag.Coordinator.{RunError, node_error, context_error, is_pending, or_else, output}
use go_research.Dag.Coordinator.Weights.{waits, unfinished, sum_of-insert}
use go_research.Dag.Coordinator.Invariant.{
  has_succeeded, Fits, Status, Flight, Waiting, Tasks, Counted, First, Blame,
}
use go_research.Dag.Coordinator.Dispatch.{Fits-mono, First-mono}
use go_research.Dag.Coordinator.Promote.{apart_bools}

module _ {V E : Type 0} (g : Graph (RunFn V E)) (wf : IsWellFormed g) (id : Str)
    (states : Map State) (old : lookup id states ≡ some ready) where
  -- The node is done, with either result.
  module _ (st : State) (final : (st ≡ failed) ⊎ (st ≡ succeeded)) where
    abbrev states' : Map State
    states' = insert id st states

    pub done-Status : Status g states → Status g states'
    done-Status s = record {
      domain = λ k h. ground (arith, lookup-insert id k st states, str_eq_iff id k, s.domain k);
      live = λ k h. ground (arith, lookup-insert id k st states, str_eq_iff id k, s.live k);
    }

    pub done-Flight :
        (ctx ctx' : Option E) (q b : List (Task V E)) (msg : DoneMsg V E) (d : List (DoneMsg V E))
        → msg.node_id ≡ id
        → (ctx' ≡ none → ctx ≡ none)
        → Flight g states ctx q b (msg ∷ d)
        → Flight g states' ctx' q b d
    done-Flight ctx ctx' q b msg d same h f = record {
      once = λ k. omega (arith, f.once k);
      flying = λ k m. ground (
        arith,
        f.once k,
        f.flying k,
        same,
        str_eq_iff msg.node_id k,
        str_eq_iff id k,
        lookup-insert id k st states,
      );
      landed = λ k m c. ground (
        arith,
        f.landed k,
        h c,
        same,
        str_eq_iff msg.node_id k,
        str_eq_iff id k,
        lookup-insert id k st states,
      );
    }

    weightless : (unfinished (some st) ≡ 0) × (waits (some st) ≡ 0)
    weightless = ground arith

    pub done-Counted :
        (remaining q b d : ℕ)
        → In id (ids g.nodes)
        → Counted g states remaining q b (suc d)
        → Counted g states' (remaining - 1) q b d
    done-Counted remaining q b d member c =
        let all = sum_of-insert unfinished g.nodes id st states wf.distinct member in
        let waiting = sum_of-insert waits g.nodes id st states wf.distinct member in
        let (all_st, waits_st) = weightless in
        record {
          exact = omega (arith, all, all_st, ap unfinished old, c.exact);
          load = omega (arith, waiting, waits_st, ap waits old, c.load, c.exact);
        }

    other_failed : (k : Str) → lookup k states ≡ some failed → lookup k states' ≡ some failed
    other_failed k h = ground (arith, lookup-insert id k st states, str_eq_iff id k)

    not_pending : (k : Str) → is_pending states' k ≡ is_pending states k
    not_pending k = ground (arith, lookup-insert id k st states, str_eq_iff id k)

  pub failed_same : (d : Str) → has_succeeded (insert id failed states) d ≡ has_succeeded states d
  failed_same d = ground (arith, lookup-insert id d failed states, str_eq_iff id d)

  pub succeeded_mono :
      (d : Str)
      → has_succeeded states d ≡ true
      → has_succeeded (insert id succeeded states) d ≡ true
  succeeded_mono d h = ground (arith, lookup-insert id d succeeded states, str_eq_iff id d)

  succeeded_cases :
      (d : Str)
      → has_succeeded (insert id succeeded states) d ≡ true
      → (d ≡ id) ⊎ (has_succeeded states d ≡ true)
  succeeded_cases d h = ground (arith, lookup-insert id d succeeded states, str_eq_iff id d)

  not_before :
      (d : Str)
      → has_succeeded (insert id succeeded states) d ≡ false
      → has_succeeded states d ≡ false
  not_before d h = ground (arith, lookup-insert id d succeeded states, str_eq_iff id d)

  not_yet : has_succeeded states id ≡ false
  not_yet = ground arith

  pub now : has_succeeded (insert id succeeded states) id ≡ true
  now = ground (arith, lookup-insert id id succeeded states, str_eq_iff id id)

  pub failed-Waiting :
      (j : Str) (unmet : Map (List Str))
      → Waiting g [] j states unmet
      → Waiting g [] id (insert id failed states) unmet
  failed-Waiting j unmet w = record {
    met = λ n i p d m. failed_same d ∙ w.met n i (sym (not_pending failed (inl refl) n.id) ∙ p) d m;
    open_deps = λ n i p d.
        let old_deps = w.open_deps n i (sym (not_pending failed (inl refl) n.id) ∙ p) d in
        (
          λ m.
              let (dep, why) = old_deps.0 m in
              (dep, inl (failed_same d ∙ elim why [ inl f ↦ f | inr q ↦ absurd q.1 ])),
          λ h.
              old_deps.1
                (h.0, inl (sym (failed_same d) ∙ elim h.1 [ inl f ↦ f | inr q ↦ absurd q.1 ])),
        );
    blocked = λ n i p. w.blocked n i (sym (not_pending failed (inl refl) n.id) ∙ p);
  }

  pub succeeded-Waiting :
      (j : Str) (unmet : Map (List Str))
      → Waiting g [] j states unmet
      → Waiting g (ids g.nodes) id (insert id succeeded states) unmet
  succeeded-Waiting j unmet w = record {
    met = λ n i p d m.
        succeeded_mono d (w.met n i (sym (not_pending succeeded (inr refl) n.id) ∙ p) d m);
    open_deps = λ n i p d.
        let old_deps = w.open_deps n i (sym (not_pending succeeded (inr refl) n.id) ∙ p) d in
        (
          λ m.
              let (dep, why) = old_deps.0 m in
              (
                dep,
                elim (Bool-cases (has_succeeded (insert id succeeded states) d)) [
                  | inr f ↦ inl f
                  | inl now ↦ elim (succeeded_cases d now) [
                    | inl e ↦ inr (e, In-ids n g.nodes i)
                    | inr before ↦
                        absurd (elim why [ inl f ↦ apart_bools (sym f ∙ before) | inr q ↦ q.1 ])
                  ]
                ],
              ),
          λ h. old_deps.1 (
            h.0,
            inl (elim h.1 [
              | inl f ↦ not_before d f
              | inr q ↦ ap (λ k. has_succeeded states k) q.0 ∙ not_yet
            ]),
          ),
        );
    blocked = λ n i p. inl (In-ids n g.nodes i);
  }

  pub failed-Tasks :
      (outputs : Map (Option V)) (q b : List (Task V E))
      → Tasks g states outputs q b
      → Tasks g (insert id failed states) outputs q b
  failed-Tasks outputs q b k =
      let keep = λ (t : Task V E) (f : Fits g states outputs t).
        Fits-mono g states (insert id failed states) outputs outputs t
          (λ d h. (failed_same d ∙ h, refl)) f in
      record {
        sent = λ t m. keep t (k.sent t m);
        taken = λ t m. keep t (k.taken t m);
        outs = λ j h. k.outs j (sym (failed_same j) ∙ h);
      }

  pub other_output :
      (outputs : Map (Option V)) (out : Option V) (d : Str)
      → has_succeeded states d ≡ true
      → output (insert id out outputs) d ≡ output outputs d
  other_output outputs out d h = ground (arith, lookup-insert id d out outputs, str_eq_iff id d)

  pub succeeded-Tasks :
      (outputs : Map (Option V)) (out : Option V) (q b : List (Task V E))
      → Tasks g states outputs q b
      → Tasks g (insert id succeeded states) (insert id out outputs) q b
  succeeded-Tasks outputs out q b k =
      let keep = λ (t : Task V E) (f : Fits g states outputs t).
        Fits-mono g states (insert id succeeded states) outputs (insert id out outputs) t
          (λ d h. (succeeded_mono d h, other_output outputs out d h)) f in
      record {
        sent = λ t m. keep t (k.sent t m);
        taken = λ t m. keep t (k.taken t m);
        outs = λ j h. elim (succeeded_cases j h) [
          | inl e ↦ ground (arith, lookup-insert id j out outputs, str_eq_iff id j)
          | inr old_one ↦
              ground (arith, k.outs j old_one, lookup-insert id j out outputs, str_eq_iff id j)
        ];
      }

  pub succeeded-Blame :
      (first : Option (RunError E)) (ctx : Option E)
      → Blame g states first ctx
      → Blame g (insert id succeeded states) first ctx
  succeeded-Blame first ctx k = record {
    blamed =
        λ j h. ground (arith, k.blamed j, lookup-insert id j succeeded states, str_eq_iff id j);
    named =
        First-mono g first states (insert id succeeded states) (other_failed succeeded (inr refl))
          k.named;
  }

  pub failed-First :
      (first : Option (RunError E)) (e : Failure E)
      → First g first states
      → First g (some (or_else first (node_error id e))) (insert id failed states)
  failed-First none e f = lookup-insert_self id failed states
  failed-First (some (node_error j x)) e f = other_failed failed (inl refl) j f
  failed-First (some (context_error x)) e f = f

  pub failed-Blame :
      (first : Option (RunError E)) (ctx : Option E) (e : Failure E) (canceled : E)
      → Blame g states first ctx
      → Blame g
          (insert id failed states)
          (some (or_else first (node_error id e)))
          (some (or_else ctx canceled))
  failed-Blame first ctx e canceled k = record {
    blamed = λ j h. (λ q. cc, refl);
    named = failed-First first e k.named;
  }
