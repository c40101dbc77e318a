-- ===== src/Dag/Coordinator/Dispatch.antt =====
-- One node of the loop over the dependants, in `Run` of internal/agent/dag/scheduler.go: it is sent,
-- it keeps waiting, or it does not wait.
use go_research.Prelude.{
  ℕ, ◌+◌, ◌≤◌, Bool, true, false, ◌≡◌, refl, sym, ap, ◌∙◌, ◌⊎◌, inl, inr, Option, none, some, List,
  [], ◌∷◌, ◌++◌, Str, Map, str_eq, str_eq_iff, str_eq_refl, lookup, insert, lookup-insert, length,
  length-append, In, In-concat_cases, arith, subst, if◌then◌else◌,
}
use go_research.Dag.Types.{Node, State, pending, ready, failed}
use go_research.Dag.Graph.{Graph}
use go_research.Dag.Graph.Add.{In-ids, IsWellFormed}
use go_research.Dag.Worker.{RunFn, Task, DoneMsg}
use go_research.Dag.Coordinator.{
  System, RunError, node_error, context_error, is_some, output, dispatch,
}
use go_research.Dag.Coordinator.Weights.{waits, unfinished, sum_of-insert}
use go_research.Dag.Coordinator.Invariant.{
  has_succeeded, occurs, task_ids, Fits, Status, Flight, Waiting, Tasks, Counted, First, Blame,
  Kept,
}

pub has_succeeded-insert :
    (id d : Str) (st : State) (m : Map State)
    → has_succeeded (insert id st m) d
      ≡ (if str_eq id d then has_succeeded ((id, st) ∷ []) id else has_succeeded m d)
unfolding lookup
has_succeeded-insert id d st m = ground (arith, lookup-insert id d st m, str_eq_refl id)

module _ {V E : Type 0} where
  pub occurs-concat :
      (id : Str) (ts : List (Task V E)) (t : Task V E)
      → occurs id (task_ids (ts ++ t ∷ []))
        ≡ occurs id (task_ids ts) + (if str_eq t.node.id id then 1 else 0)
  occurs-concat id [] t = omega arith
  occurs-concat id (x ∷ ts) t = omega (arith, occurs-concat id ts t)

  pub Fits-mono :
      (g : Graph (RunFn V E)) (states states' : Map State) (outputs outputs' : Map (Option V))
      (t : Task V E)
      → ((d : Str)
          → has_succeeded states d ≡ true
          → (has_succeeded states' d ≡ true) × (output outputs' d ≡ output outputs d))
      → Fits g states outputs t
      → Fits g states' outputs' t
  Fits-mono g states states' outputs outputs' t h f = record {
    known = f.known;
    met = λ d m. (h d (f.met d m)).0;
    given = λ d m. f.given d m ∙ ap some (sym (h d (f.met d m)).1);
  }

  pub First-mono :
      (g : Graph (RunFn V E)) (first : Option (RunError E)) (states states' : Map State)
      → ((k : Str) → lookup k states ≡ some failed → lookup k states' ≡ some failed)
      → First g first states
      → First g first states'
  First-mono g none states states' h f = f
  First-mono g (some (node_error id e)) states states' h f = h id f
  First-mono g (some (context_error e)) states states' h f = f

  module _ (g : Graph (RunFn V E)) (wf : IsWellFormed g) (n : Node (RunFn V E))
      (member : In n g.nodes) (states : Map State) (old : lookup n.id states ≡ some pending) where
    abbrev states' : Map State
    states' = insert n.id ready states

    pub same_succeeded : (d : Str) → has_succeeded states' d ≡ has_succeeded states d
    same_succeeded d = ground (arith, lookup-insert n.id d ready states, str_eq_iff n.id d)

    keep :
        (outputs : Map (Option V)) (t : Task V E)
        → Fits g states outputs t
        → Fits g states' outputs t
    keep outputs t f =
        Fits-mono g states states' outputs outputs t (λ d h. (same_succeeded d ∙ h, refl)) f

    sent-Status : Status g states → Status g states'
    sent-Status s = record {
      domain =
          λ k h. ground (arith, lookup-insert n.id k ready states, str_eq_iff n.id k, s.domain k);
      live = λ k h. ground (arith, lookup-insert n.id k ready states, str_eq_iff n.id k, s.live k);
    }

    module _ (ctx : Option E) (q b : List (Task V E)) (d : List (DoneMsg V E))
        (deps : Map (Option V)) where
      abbrev task : Task V E
      task = record { node = n; deps = deps }

      sent-Flight : Flight g states ctx q b d → Flight g states' ctx (q ++ task ∷ []) b d
      sent-Flight f = record {
        once = λ k. ground (arith, occurs-concat k q task, f.once k, f.flying k, str_eq_iff n.id k);
        flying = λ k h. ground (
          arith,
          occurs-concat k q task,
          f.flying k,
          str_eq_iff n.id k,
          lookup-insert n.id k ready states,
        );
        landed = λ k h c. ground (
          arith,
          occurs-concat k q task,
          f.landed k,
          str_eq_iff n.id k,
          lookup-insert n.id k ready states,
        );
      }

      dropped-Flight : is_some ctx ≡ true → Flight g states ctx q b d → Flight g states' ctx q b d
      dropped-Flight stop f = record {
        once = f.once;
        flying =
            λ k h. ground (arith, f.flying k, str_eq_iff n.id k, lookup-insert n.id k ready states);
        landed = λ k h c. absurd (ground arith);
      }

      sent-Tasks :
          (outputs : Map (Option V))
          → Fits g states outputs task
          → Tasks g states outputs q b
          → Tasks g states' outputs (q ++ task ∷ []) b
      sent-Tasks outputs fits s = record {
        sent = λ t m. elim (In-concat_cases t q task m) [
          | inl before ↦ keep outputs t (s.sent t before)
          | inr last ↦ subst (Fits g states' outputs) (sym last) (keep outputs task fits)
        ];
        taken = λ t m. keep outputs t (s.taken t m);
        outs = λ k h. s.outs k (sym (same_succeeded k) ∙ h);
      }

      dropped-Tasks :
          (outputs : Map (Option V)) → Tasks g states outputs q b → Tasks g states' outputs q b
      dropped-Tasks outputs s = record {
        sent = λ t m. keep outputs t (s.sent t m);
        taken = λ t m. keep outputs t (s.taken t m);
        outs = λ k h. s.outs k (sym (same_succeeded k) ∙ h);
      }

    sent-Counted :
        (remaining q q' b d : ℕ)
        → q' ≤ q + 1
        → Counted g states remaining q b d
        → Counted g states' remaining q' b d
    sent-Counted remaining q q' b d h c = record {
      exact = omega (
        arith,
        sum_of-insert unfinished g.nodes n.id ready states wf.distinct (In-ids n g.nodes member),
        ap unfinished old,
        c.exact,
      );
      load = omega (
        arith,
        sum_of-insert waits g.nodes n.id ready states wf.distinct (In-ids n g.nodes member),
        ap waits old,
        c.load,
      );
    }

    sent-Blame :
        (first : Option (RunError E)) (ctx : Option E)
        → Blame g states first ctx
        → Blame g states' first ctx
    sent-Blame first ctx s = record {
      blamed =
          λ k h. ground (arith, s.blamed k, str_eq_iff n.id k, lookup-insert n.id k ready states);
      named =
          First-mono g first states states'
            (λ k h. ground (arith, str_eq_iff n.id k, lookup-insert n.id k ready states)) s.named;
    }

  -- A node that waits becomes ready, and is sent, or is dropped when `runCtx` is done.
  module _ (g : Graph (RunFn V E)) (wf : IsWellFormed g) (n : Node (RunFn V E))
      (member : In n g.nodes) (todo : List Str) (id : Str) (s : System V E)
      (k : Kept g (n.id ∷ todo) id s) (old : lookup n.id s.states ≡ some pending)
      (deps : Map (Option V)) (unmet : Map (List Str))
      (w : Waiting g todo id (insert n.id ready s.states) unmet)
      (fits : Fits g s.states s.outputs (record { node = n; deps = deps })) where
    pub dispatch-Kept :
        (sent : Bool)
        → (sent ≡ true) ⊎ (is_some s.ctx_err ≡ true)
        → Kept g todo id (dispatch sent n deps (record s { unmet = unmet }))
    unfolding dispatch
    dispatch-Kept true h = record {
      status = sent-Status g wf n member s.states old k.status;
      flight =
          sent-Flight g wf n member s.states old s.ctx_err s.task_ch s.busy s.done_ch deps k.flight;
      waiting = w;
      tasks =
          sent-Tasks g wf n member s.states old s.ctx_err s.task_ch s.busy s.done_ch deps s.outputs
            fits k.tasks;
      counted =
          sent-Counted g wf n member s.states old s.remaining (length s.task_ch)
            (length (s.task_ch ++ record { node = n; deps = deps } ∷ [])) (length s.busy)
            (length s.done_ch)
            (omega (arith, length-append s.task_ch (record { node = n; deps = deps } ∷ [])))
            k.counted;
      blame = sent-Blame g wf n member s.states old s.first_err s.ctx_err k.blame;
    }
    dispatch-Kept false h = record {
      status = sent-Status g wf n member s.states old k.status;
      flight =
          dropped-Flight g wf n member s.states old s.ctx_err s.task_ch s.busy s.done_ch deps
            (ground arith) k.flight;
      waiting = w;
      tasks =
          dropped-Tasks g wf n member s.states old s.ctx_err s.task_ch s.busy s.done_ch deps
            s.outputs k.tasks;
      counted =
          sent-Counted g wf n member s.states old s.remaining (length s.task_ch) (length s.task_ch)
            (length s.busy) (length s.done_ch) (omega arith) k.counted;
      blame = sent-Blame g wf n member s.states old s.first_err s.ctx_err k.blame;
    }
