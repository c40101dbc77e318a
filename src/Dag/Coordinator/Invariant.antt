-- ===== src/Dag/Coordinator/Invariant.antt =====
-- The invariant of `Run` (internal/agent/dag/scheduler.go), in parts by the variables that they read.
use go_research.Prelude.{
  ℕ, ◌+◌, ◌≤◌, Bool, true, false, ◌≡◌, ◌≢◌, ◌⊎◌, ◌↔◌, Option, none, some, List, [], ◌∷◌, Str, Map,
  str_eq, lookup, length, In, if◌then◌else◌,
}
use go_research.Dag.Types.{Node, State, pending, ready, running, succeeded, failed, cancelled}
use go_research.Dag.Graph.{Graph}
use go_research.Dag.Graph.Add.{ids}
use go_research.Dag.Worker.{RunFn, Task, DoneMsg}
use go_research.Dag.Coordinator.{
  System, RunError, node_error, context_error, left, is_pending, is_some, output,
}
use go_research.Dag.Coordinator.Weights.{waits, unfinished, sum_of}

abbrev pub has_succeeded : Map State → Str → Bool
has_succeeded m d = elim (lookup d m) [ some succeeded ↦ true | _ ↦ false ]

abbrev pub occurs : Str → List Str → ℕ
occurs id [] = 0
occurs id (x ∷ xs) = (if str_eq x id then 1 else 0) + occurs id xs

-- The states that a node has while `Run` loops.
abbrev pub Live : Option State → Type 0
Live none = ⊥
Live (some pending) = Unit
Live (some ready) = Unit
Live (some running) = ⊥
Live (some succeeded) = Unit
Live (some failed) = Unit
Live (some cancelled) = ⊥

module _ {V E : Type 0} where
  abbrev pub task_ids : List (Task V E) → List Str
  task_ids [] = []
  task_ids (t ∷ ts) = t.node.id ∷ task_ids ts

  abbrev pub msg_ids : List (DoneMsg V E) → List Str
  msg_ids [] = []
  msg_ids (m ∷ ms) = m.node_id ∷ msg_ids ms

  -- How often a node is with the workers: sent, taken, or done and not yet received.
  abbrev pub aloft : Str → List (Task V E) → List (Task V E) → List (DoneMsg V E) → ℕ
  aloft id q b d = occurs id (task_ids q) + occurs id (task_ids b) + occurs id (msg_ids d)

  -- A task of the graph, all of whose dependencies have succeeded, and which holds their outputs.
  pub record Fits (g : Graph (RunFn V E)) (states : Map State) (outputs : Map (Option V))
      (t : Task V E) : Type 0 where
    pub known : In t.node g.nodes
    pub met : (d : Str) → In d t.node.depends_on → has_succeeded states d ≡ true
    pub given : (d : Str) → In d t.node.depends_on → lookup d t.deps ≡ some (output outputs d)

  module _ (g : Graph (RunFn V E)) where
    pub record Status (states : Map State) : Type 0 where
      pub domain : (id : Str) → lookup id states ≢ none → In id (ids g.nodes)
      pub live : (id : Str) → In id (ids g.nodes) → Live (lookup id states)

    pub record Flight (states : Map State) (ctx : Option E) (q b : List (Task V E))
        (d : List (DoneMsg V E)) : Type 0 where
      pub once : (id : Str) → aloft id q b d ≤ 1
      pub flying : (id : Str) → 1 ≤ aloft id q b d → lookup id states ≡ some ready
      pub landed : (id : Str) → lookup id states ≡ some ready → ctx ≡ none → 1 ≤ aloft id q b d

    -- `todo` lists the nodes from which `id` is still to be deleted.
    pub record Waiting (todo : List Str) (id : Str) (states : Map State) (unmet : Map (List Str))
        : Type 0 where
      pub met :
          (n : Node (RunFn V E))
          → In n g.nodes
          → is_pending states n.id ≡ false
          → (d : Str) → In d n.depends_on
          → has_succeeded states d ≡ true
      pub open_deps :
          (n : Node (RunFn V E))
          → In n g.nodes
          → is_pending states n.id ≡ true
          → (d : Str)
          → In d (left unmet n.id)
            ↔ (In d n.depends_on × ((has_succeeded states d ≡ false) ⊎ ((d ≡ id) × In n.id todo)))
      pub blocked :
          (n : Node (RunFn V E))
          → In n g.nodes
          → is_pending states n.id ≡ true
          → In n.id todo ⊎ (left unmet n.id ≢ [])

    pub record Tasks (states : Map State) (outputs : Map (Option V)) (q b : List (Task V E))
        : Type 0 where
      pub sent : (t : Task V E) → In t q → Fits g states outputs t
      pub taken : (t : Task V E) → In t b → Fits g states outputs t
      pub outs : (id : Str) → has_succeeded states id ≡ true → lookup id outputs ≢ none

    pub record Counted (states : Map State) (remaining q b d : ℕ) : Type 0 where
      pub exact : remaining ≡ sum_of unfinished g.nodes states
      pub load : q + b + d + sum_of waits g.nodes states ≤ remaining

    abbrev pub First : Option (RunError E) → Map State → Type 0
    First none states = Unit
    First (some (node_error id f)) states = lookup id states ≡ some failed
    First (some (context_error e)) states = ⊥

    pub record Blame (states : Map State) (first : Option (RunError E)) (ctx : Option E)
        : Type 0 where
      pub blamed :
          (id : Str) → lookup id states ≡ some failed → (first ≢ none) × (is_some ctx ≡ true)
      pub named : First first states

    -- All of it; between two steps `todo` is empty.
    pub record Kept (todo : List Str) (id : Str) (s : System V E) : Type 0 where
      pub status : Status s.states
      pub flight : Flight s.states s.ctx_err s.task_ch s.busy s.done_ch
      pub waiting : Waiting todo id s.states s.unmet
      pub tasks : Tasks s.states s.outputs s.task_ch s.busy
      pub counted :
          Counted s.states s.remaining (length s.task_ch) (length s.busy) (length s.done_ch)
      pub blame : Blame s.states s.first_err s.ctx_err
