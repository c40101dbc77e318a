-- ===== src/Dag/Coordinator/Once.antt =====
-- How often a node is run and its message handled in a whole run of internal/agent/dag/scheduler.go.
use go_research.Prelude.{
  ℕ, zero, suc, ◌+◌, ◌≤◌, Bool, true, false, ◌≡◌, refl, ap, ◌⊎◌, inl, inr, some, List, [], ◌∷◌, Str,
  Map, lookup, insert, lookup-insert, str_eq, str_eq_iff, length, arith, Bool-cases, List-cases,
  Option-cases, if◌then◌else◌,
}
use go_research.Dag.Types.{Node, State, ready, succeeded, failed}
use go_research.Dag.Graph.{Graph}
use go_research.Dag.Graph.Add.{IsWellFormed}
use go_research.Dag.Worker.{RunFn, DoneMsg, Scheduler, execute}
use go_research.Dag.Worker.Message.{execute-node_id}
use go_research.Dag.Coordinator.{
  System, is_pending, left, without, dispatch, promote_one, promote, receive, take, finish, handle,
  interrupt, Reach, start, later, init,
}
use go_research.Dag.Coordinator.Invariant.{occurs, task_ids, msg_ids, aloft}
use go_research.Dag.Coordinator.Safety.{sum-le}
use go_research.Dag.Coordinator.Unchanged.{promote-outputs, seed-outputs}
use go_research.Dag.Coordinator.Steps.{Reach-Kept, occurs-done}

is_over : Map State → Str → Bool
is_over m id = elim (lookup id m) [ some succeeded ↦ true | some failed ↦ true | _ ↦ false ]

ready-not_over : (m : Map State) (id : Str) → lookup id m ≡ some ready → is_over m id ≡ false
unfolding is_over
ready-not_over m id h = ground arith

is_over-insert :
    (m : Map State) (k id : Str) (st : State)
    → (st ≡ succeeded) ⊎ (st ≡ failed)
    → (str_eq k id ≡ true) ⊎ (is_over m id ≡ true)
    → is_over (insert k st m) id ≡ true
unfolding is_over
is_over-insert m k id st (inl e) h = rw e (ground (arith, lookup-insert k id succeeded m))
is_over-insert m k id st (inr e) h = rw e (ground (arith, lookup-insert k id failed m))

is_over-ready :
    (m : Map State) (k id : Str)
    → is_pending m k ≡ true
    → is_over m id ≡ true
    → is_over (insert k ready m) id ≡ true
unfolding is_over
is_over-ready m k id waits over = ground (arith, lookup-insert k id ready m, str_eq_iff k id)

not_aloft : (n : ℕ) → (1 ≤ n → ⊥) → n + 1 ≤ 1
not_aloft zero h = omega arith
not_aloft (suc n) h = absurd (h (omega arith))

module _ {V E : Type 0} where
  is_over-promote_one :
      (sends : Str → Bool) (k : Str) (n : Node (RunFn V E)) (s : System V E) (id : Str)
      → is_over s.states id ≡ true
      → is_over (promote_one sends k n s).states id ≡ true
  unfolding promote_one dispatch
  is_over-promote_one sends k n s id over = elim (Bool-cases (is_pending s.states n.id)) [
    | inr other ↦ rw (promote_one, other) over
    | inl waits ↦ elim (List-cases (without k (left s.unmet n.id))) [
      | inl empty ↦ rw (promote_one, waits, empty) (is_over-ready s.states n.id id waits over)
      | inr (d, ds, more) ↦ rw (promote_one, waits, more) over
    ]
  ]

  is_over-promote :
      (sends : Str → Bool) (k : Str) (ns : List (Node (RunFn V E))) (s : System V E) (id : Str)
      → is_over s.states id ≡ true
      → is_over (promote sends k ns s).states id ≡ true
  unfolding promote
  is_over-promote sends k [] s id over = over
  is_over-promote sends k (n ∷ ns) s id over =
      is_over-promote sends k ns (promote_one sends k n s) id
        (is_over-promote_one sends k n s id over)

  module _ (g : Graph (RunFn V E)) where
    is_over-receive :
        (canceled : E) (sends : Str → Bool) (msg : DoneMsg V E) (s : System V E) (id : Str)
        → (str_eq msg.node_id id ≡ true) ⊎ (is_over s.states id ≡ true)
        → is_over (receive g canceled sends msg s).states id ≡ true
    unfolding receive
    is_over-receive canceled sends msg s id h = elim (Option-cases msg.err) [
      | inr (x, bad) ↦
          rw (receive, bad) (is_over-insert s.states msg.node_id id failed (inr refl) h)
      | inl good ↦
          rw (receive, good)
            (is_over-promote sends msg.node_id g.nodes _ id
              (is_over-insert s.states msg.node_id id succeeded (inl refl) h))
    ]

    module _ (sch : Scheduler) (canceled : E) where
      abbrev pub one_if : Bool → ℕ
      one_if b = if b then 1 else 0

      -- How often the node is run and its message handled on the way to a state.
      unfoldable pub runs : Str → {s : System V E} → Reach sch g canceled s → ℕ
      runs id start = 0
      runs id (later r (take e free)) = runs id r
      runs id (later r (finish env before t after e)) = one_if (str_eq t.node.id id) + runs id r
      runs id (later r (handle sends more e may)) = runs id r
      runs id (later r (interrupt e n)) = runs id r

      unfoldable pub handles : Str → {s : System V E} → Reach sch g canceled s → ℕ
      handles id start = 0
      handles id (later r (take e free)) = handles id r
      handles id (later r (finish env before t after e)) = handles id r
      handles id (later r (handle sends {msg = msg} more e may)) =
          one_if (str_eq msg.node_id id) + handles id r
      handles id (later r (interrupt e n)) = handles id r

      handles-over :
          (id : Str) {s : System V E} (r : Reach sch g canceled s)
          → IsWellFormed g
          → (handles id r ≡ 0) ⊎ ((handles id r ≡ 1) × (is_over s.states id ≡ true))
      unfolding handles
      handles-over id start wf = inl refl
      handles-over id (later r (take e free)) wf = handles-over id r wf
      handles-over id (later r (finish env before t after e)) wf = handles-over id r wf
      handles-over id (later r (interrupt e n)) wf = handles-over id r wf
      handles-over id (later {s = s} r (handle sends {msg = msg} {msgs = msgs} more e may)) wf =
          let kept = Reach-Kept g wf sch canceled r in
          let before = handles-over id r wf in
          let s' : System V E = record s { done_ch = msgs } in
          elim (Bool-cases (str_eq msg.node_id id)) [
            | inl same ↦
                let there : 1 ≤ aloft id s.task_ch s.busy s.done_ch =
                  rw e (rw same (omega arith)) in
                let live = ready-not_over s.states id (kept.flight.flying id there) in
                elim before [
                  | inl none_yet ↦
                      rw (same, none_yet)
                        (inr (refl, is_over-receive canceled sends msg s' id (inl same)))
                  | inr (once, over) ↦ absurd (cc)
                ]
            | inr other ↦ elim before [
              | inl none_yet ↦ rw (other, none_yet) (inl refl)
              | inr (once, over) ↦
                  rw (other, once) (inr (refl, is_over-receive canceled sends msg s' id (inr over)))
            ]
          ]

      receive-done_ch :
          (wf : IsWellFormed g) (sends : Str → Bool) (msg : DoneMsg V E) (s : System V E)
          → (receive g canceled sends msg s).done_ch ≡ s.done_ch
      unfolding receive
      receive-done_ch wf sends msg s = elim (Option-cases msg.err) [
        | inr (x, bad) ↦ rw (receive, bad) refl
        | inl good ↦
            rw (receive, good) (promote-outputs g wf sends msg.node_id g.nodes _ (λ n i. i)).1
      ]

      -- A run ends in a message, which is handled or waits.
      runs-handles :
          (id : Str) {s : System V E} (r : Reach sch g canceled s)
          → IsWellFormed g
          → runs id r ≡ occurs id (msg_ids s.done_ch) + handles id r
      unfolding runs handles init
      runs-handles id start wf =
          let empty : (init g).done_ch ≡ [] = (seed-outputs g wf g.nodes _).1 in rw empty refl
      runs-handles id (later r (take e free)) wf = runs-handles id r wf
      runs-handles id (later r (interrupt e n)) wf = runs-handles id r wf
      runs-handles id (later {s = s} r (finish env before t after e)) wf =
          rw (occurs-done id s.done_ch (execute sch env t).msg, execute-node_id sch env t)
            (omega (arith, runs-handles id r wf))
      runs-handles id (later {s = s} r (handle sends {msg = msg} {msgs = msgs} more e may)) wf =
          let s' : System V E = record s { done_ch = msgs } in
          rw (receive-done_ch wf sends msg s') (
            omega (
              arith,
              runs-handles id r wf,
              ap (λ (d : List (DoneMsg V E)). occurs id (msg_ids d)) e,
            ))

      handles-aloft :
          (id : Str) {s : System V E} (r : Reach sch g canceled s)
          → IsWellFormed g
          → aloft id s.task_ch s.busy s.done_ch + handles id r ≤ 1
      handles-aloft id {s} r wf =
          let kept = Reach-Kept g wf sch canceled r in
          elim (handles-over id r wf) [
            | inl none_yet ↦ rw none_yet (omega (arith, kept.flight.once id))
            | inr (once, over) ↦ rw once (
                not_aloft (aloft id s.task_ch s.busy s.done_ch) (λ there.
                  let live = ready-not_over s.states id (kept.flight.flying id there) in cc))
          ]

      -- However the workers interleave, in a whole run: a node is run once at most, counting the tasks
      -- of it that are still sent or taken; a message of it is handled once at most, counting those that
      -- are still to come; as long as it is with the workers it is ready; and the buffers of both
      -- channels, of one slot for each node, are never full when a task or a message is to be sent.
      pub Reach-once :
          (wf : IsWellFormed g) (s : System V E) (r : Reach sch g canceled s)
          → ((id : Str)
              → (occurs id (task_ids s.task_ch) + occurs id (task_ids s.busy) + runs id r ≤ 1)
                × (aloft id s.task_ch s.busy s.done_ch + handles id r ≤ 1)
                × (1 ≤ aloft id s.task_ch s.busy s.done_ch → lookup id s.states ≡ some ready))
            × (length s.task_ch + length s.busy + length s.done_ch ≤ length g.nodes)
      Reach-once wf s r =
          let k = Reach-Kept g wf sch canceled r in
          (
            λ id. (
              omega (arith, runs-handles id r wf, handles-aloft id r wf),
              handles-aloft id r wf,
              k.flight.flying id,
            ),
            omega (arith, k.counted.exact, k.counted.load, sum-le g.nodes s.states),
          )
