-- ===== src/Dag/Coordinator.antt =====
-- The coordinator of internal/agent/dag/scheduler.go: `Run`, with its workers, as a system whose
-- steps interleave in any order. The channels are queues, whose capacities are not tests here:
-- no send blocks. A set of IDs is a list, of which only the members and whether it is empty are read.
-- What a worker tells between the steps, the events, is told in Dag/Worker.
pub mod Weights
pub mod Invariant
pub mod Dispatch
pub mod Turns
pub mod Promote
pub mod Seed
pub mod Receive
pub mod Steps
pub mod Once
pub mod Safety
pub mod Progress
pub mod Liveness
pub mod Termination
pub mod Unchanged
pub mod Outputs
pub mod Entry
mod Samples
use go_research.Prelude.{
  ℕ, zero, suc, ◌+◌, ◌-◌, ◌≤◌, ◌<◌, Bool, true, false, ◌||◌, ◌≡◌, ◌⊎◌, inl, inr, Option, none, some,
  List, [], ◌∷◌, ◌++◌, Str, Map, str_eq, lookup, insert, length, if◌then◌else◌,
}
use go_research.Prelude.Int.{ℤ, pos, negsuc}
use go_research.Dag.Types.{
  Node, State, pending, ready, running, succeeded, failed, cancelled, Result,
}
use go_research.Dag.Graph.{
  Graph, Validation, valid, invalid, panics, diverges, GraphError, validate,
}
use go_research.Dag.Worker.{
  Failure, RunFn, Scheduler, Task, DoneMsg, Environment, Execution, execute,
}

-- The error of `Run`: of a node, or of the context.
pub data RunError (E : Type 0) : Type 0 where
  node_error : (id : Str) → Failure E → RunError E
  context_error : E → RunError E

-- The locals of `Run`, the tasks that workers have taken, and what `runCtx.Err()` is.
pub record System (V E : Type 0) : Type 0 where
  pub states : Map State
  pub outputs : Map (Option V)
  pub unmet : Map (List Str)
  pub task_ch : List (Task V E)
  pub busy : List (Task V E)
  pub done_ch : List (DoneMsg V E)
  pub remaining : ℕ
  pub first_err : Option (RunError E)
  pub ctx_err : Option E

pub record Outcome (V E : Type 0) : Type 0 where
  pub result : Result (Option V)
  pub err : Option (RunError E)

-- The workers that `Run` starts.
abbrev pub worker_count : ℤ → ℕ
worker_count (pos n) = n
worker_count (negsuc n) = 0

-- `pending[id]`, where a missing key reads as an empty set
abbrev pub left : Map (List Str) → Str → List Str
left m id = elim (lookup id m) [ none ↦ [] | some ds ↦ ds ]

abbrev pub is_pending : Map State → Str → Bool
is_pending m id = elim (lookup id m) [ some pending ↦ true | _ ↦ false ]

-- `delete(set, d)`
abbrev pub without : Str → List Str → List Str
without d [] = []
without d (x ∷ xs) = let rest = without d xs in if str_eq x d then rest else x ∷ rest

abbrev pub or_else {ℓ} : {A : Type ℓ} → Option A → A → A
or_else none a = a
or_else (some b) a = b

abbrev pub is_some {ℓ} : {A : Type ℓ} → Option A → Bool
is_some none = false
is_some (some _) = true

module _ {V : Type 0} where
  -- `outputs[d]`, where a missing key reads as nil
  abbrev pub output : Map (Option V) → Str → Option V
  output m d = elim (lookup d m) [ none ↦ none | some v ↦ v ]

  -- `depSnap`
  pub snapshot : Map (Option V) → List Str → Map (Option V)
  snapshot outputs [] = []
  snapshot outputs (d ∷ ds) = insert d (output outputs d) (snapshot outputs ds)

-- The states when `runCtx` is done.
pub cancel_rest : Map State → Map State
cancel_rest [] = []
cancel_rest ((id, pending) ∷ m) = (id, cancelled) ∷ cancel_rest m
cancel_rest ((id, ready) ∷ m) = (id, cancelled) ∷ cancel_rest m
cancel_rest ((id, st) ∷ m) = (id, st) ∷ cancel_rest m

module _ {V E : Type 0} where
  -- The node becomes ready, and its task is sent; or, when `runCtx` is done, the select may drop it.
  unfoldable pub dispatch : Bool → Node (RunFn V E) → Map (Option V) → System V E → System V E
  dispatch sent n deps s = record s {
    states = insert n.id ready s.states;
    task_ch = if sent then s.task_ch ++ record { node = n; deps = deps } ∷ [] else s.task_ch;
  }

  -- "Seed the ready queue."
  unfoldable pub seed_one : Node (RunFn V E) → System V E → System V E
  unfolding dispatch
  seed_one n s = elim (left s.unmet n.id) [ [] ↦ dispatch true n [] s | d ∷ ds ↦ s ]

  pub seed : List (Node (RunFn V E)) → System V E → System V E
  unfolding seed_one
  seed [] s = s
  seed (n ∷ ns) s = seed ns (seed_one n s)

  -- The body of the loop over the dependants of the node `id`. `sends` is what select chooses.
  unfoldable pub promote_one : (Str → Bool) → Str → Node (RunFn V E) → System V E → System V E
  unfolding dispatch snapshot
  promote_one sends id n s = elim (is_pending s.states n.id) [
    | false ↦ s
    | true ↦
        let rest = without id (left s.unmet n.id) in
        let s' : System V E = record s { unmet = insert n.id rest s.unmet } in
        elim rest [
          | [] ↦ dispatch (sends n.id) n (snapshot s'.outputs n.depends_on) s'
          | d ∷ ds ↦ s'
        ]
  ]

  pub promote : (Str → Bool) → Str → List (Node (RunFn V E)) → System V E → System V E
  unfolding promote_one
  promote sends id [] s = s
  promote sends id (n ∷ ns) s = promote sends id ns (promote_one sends id n s)

  init_states : List (Node (RunFn V E)) → Map State
  init_states [] = []
  init_states (n ∷ ns) = insert n.id pending (init_states ns)

  init_unmet : List (Node (RunFn V E)) → Map (List Str)
  init_unmet [] = []
  init_unmet (n ∷ ns) = insert n.id n.depends_on (init_unmet ns)

  module _ (g : Graph (RunFn V E)) where
    -- `Run` up to the loop. A context that is done already is a step `interrupt` of the system.
    unfoldable pub init : System V E
    unfolding init_states init_unmet seed
    init = seed g.nodes (record {
      states = init_states g.nodes;
      outputs = [];
      unmet = init_unmet g.nodes;
      task_ch = [];
      busy = [];
      done_ch = [];
      remaining = length g.nodes;
      first_err = none;
      ctx_err = none;
    })

    -- The case `msg := <-doneCh` of the loop; `canceled` is context.Canceled.
    unfoldable pub receive : E → (Str → Bool) → DoneMsg V E → System V E → System V E
    unfolding promote
    receive canceled sends msg s = elim msg.err [
      | some e ↦ record s {
        states = insert msg.node_id failed s.states;
        remaining = s.remaining - 1;
        first_err = some (or_else s.first_err (node_error msg.node_id e));
        ctx_err = some (or_else s.ctx_err canceled);
      }
      | none ↦ promote sends msg.node_id g.nodes (record s {
        states = insert msg.node_id succeeded s.states;
        outputs = insert msg.node_id msg.out s.outputs;
        remaining = s.remaining - 1;
      })
    ]

  -- One step of a worker, of the coordinator's loop, or of the caller's context.
  pub data Step (sch : Scheduler) (g : Graph (RunFn V E)) (canceled : E) (s : System V E)
      : System V E → Type 0 where
    take :
        {t : Task V E} {ts : List (Task V E)}
        → s.task_ch ≡ t ∷ ts
        → length s.busy < worker_count sch.concurrency
        → Step sch g canceled s (record s { task_ch = ts; busy = t ∷ s.busy })
    finish :
        (env : Environment E) (before : List (Task V E)) (t : Task V E) (after : List (Task V E))
        → s.busy ≡ before ++ t ∷ after
        → Step sch g canceled s (record s {
          busy = before ++ after;
          done_ch = s.done_ch ++ (execute sch env t).msg ∷ [];
        })
    -- select drops a task only when `runCtx` is done
    handle :
        (sends : Str → Bool) {msg : DoneMsg V E} {msgs : List (DoneMsg V E)}
        → 0 < s.remaining
        → s.done_ch ≡ msg ∷ msgs
        → (((id : Str) → sends id ≡ true) ⊎ (is_some s.ctx_err ≡ true))
        → Step sch g canceled s (receive g canceled sends msg (record s { done_ch = msgs }))
    interrupt : (e : E) → s.ctx_err ≡ none → Step sch g canceled s (record s { ctx_err = some e })

  pub data Reach (sch : Scheduler) (g : Graph (RunFn V E)) (canceled : E)
      : System V E → Type 0 where
    start : Reach sch g canceled (init g)
    later :
        {s t : System V E}
        → Reach sch g canceled s
        → Step sch g canceled s t
        → Reach sch g canceled t

  -- How the loop returns: at its end, or because `runCtx` is done.
  pub data Returns (s : System V E) : Outcome V E → Type 0 where
    completed :
        s.remaining ≡ 0
        → Returns s (record {
          result = record { outputs = s.outputs; states = s.states };
          err = s.first_err;
        })
    stopped :
        {e : E}
        → 0 < s.remaining
        → s.ctx_err ≡ some e
        → Returns s (record {
          result = record { outputs = s.outputs; states = cancel_rest s.states };
          err = some (or_else s.first_err (context_error e));
        })
