-- ===== src/Dag/Graph.antt =====
-- internal/agent/dag/graph.go: the append-only graph, its validation, and the search for cycles by
-- an iterative depth-first search with three colours. `nodes` and `by_id` are the Graph's fields;
-- the pointers in them are shared, and no node is written after `add`, so both hold the node.
pub mod Add
pub mod Stack
pub mod Invariant
pub mod Progress
pub mod DepthFirst
pub mod Validate
pub mod Verdict
mod Samples
use go_research.Prelude.{
  ℕ, zero, suc, ◌+◌, ◌*◌, Bool, true, false, ◌⊎◌, inl, inr, Option, none, some, List, [], ◌∷◌, ◌++◌,
  Str, Map, str_eq, lookup, insert, length, if◌then◌else◌,
}
use go_research.Dag.Types.{Node}

pub record Graph (R : Type 0) : Type 0 where
  pub nodes : List (Node R)
  pub by_id : Map (Node R)

pub data GraphError : Type 0 where
  nil_node empty_id : GraphError
  nil_run duplicate_id : (id : Str) → GraphError
  self_dep : (id : Str) → GraphError
  unknown_dep : (id dep : Str) → GraphError
  cycle : (id dep : Str) → GraphError

pub data Colour : Type 0 where
  white grey black : Colour

abbrev pub Colours : Type 0
Colours = Map Colour

-- A slot of the stack: the ID, and its marker (true: finishing).
abbrev pub Entry : Type 0
Entry = Str × Bool

module _ {R : Type 0} where
  abbrev pub new_graph : Graph R
  new_graph = record { nodes = []; by_id = [] }

  -- Either the error, and the graph as it was, or the larger graph.
  unfoldable pub add : Option (Node R) → Graph R → Option GraphError × Graph R
  add none g = (some nil_node, g)
  add (some n) g = if str_eq n.id [] then (some empty_id, g) else elim n.run [
    | none ↦ (some (nil_run n.id), g)
    | some _ ↦ elim (lookup n.id g.by_id) [
      | some _ ↦ (some (duplicate_id n.id), g)
      | none ↦ (none, record { nodes = g.nodes ++ n ∷ []; by_id = insert n.id n g.by_id })
    ]
  ]

  -- The inner loop of `Validate`.
  pub check_deps : Graph R → Str → List Str → Option GraphError
  check_deps g id [] = none
  check_deps g id (dep ∷ deps) =
      let rest = check_deps g id deps in
      if str_eq dep id
      then some (self_dep id)
      else elim (lookup dep g.by_id) [ none ↦ some (unknown_dep id dep) | some _ ↦ rest ]

  -- The outer loop of `Validate`.
  pub check_nodes : Graph R → List (Node R) → Option GraphError
  check_nodes g [] = none
  check_nodes g (n ∷ ns) =
      let rest = check_nodes g ns in
      elim (check_deps g n.id n.depends_on) [ some e ↦ some e | none ↦ rest ]

  abbrev pub degrees : List (Node R) → ℕ
  degrees [] = 0
  degrees (n ∷ ns) = length n.depends_on + degrees ns

-- A key that the map lacks reads as 0, which is white.
unfoldable pub colour_of : Colours → Str → Colour
colour_of c id = elim (lookup id c) [ none ↦ white | some k ↦ k ]

-- The loop over the dependencies of a visited node: the grey one that ends the search, or the
-- stack with the white ones pushed.
pub push_deps : Colours → List Str → List Entry → Str ⊎ List Entry
push_deps c [] stack = inr stack
push_deps c (dep ∷ deps) stack = elim (colour_of c dep) [
  | grey ↦ inl dep
  | white ↦ push_deps c deps ((dep, false) ∷ stack)
  | black ↦ push_deps c deps stack
]

-- How the search from one root ends. `nil_deref` is the panic of `g.byID[id].DependsOn` at a nil
-- pointer; `out_of_fuel` is not an outcome of the program.
pub data Search : Type 0 where
  finished : Colours → Search
  cyclic : (id dep : Str) → Search
  nil_deref out_of_fuel : Search

module _ {R : Type 0} (g : Graph R) where
  -- The `for len(stack) > 0` loop.
  pub dfs : ℕ → Colours → List Entry → Search
  dfs fuel c [] = finished c
  dfs zero c (e ∷ stack) = out_of_fuel
  dfs (suc fuel) c ((id, true) ∷ stack) = dfs fuel (insert id black c) stack
  dfs (suc fuel) c ((id, false) ∷ stack) =
      let c' = insert id grey c in
      elim (lookup id g.by_id) [
        | none ↦ nil_deref
        | some n ↦ elim (push_deps c' n.depends_on ((id, true) ∷ stack)) [
          | inl dep ↦ cyclic id dep
          | inr stack' ↦ dfs fuel c' stack'
        ]
      ]

  -- The `for _, n := range g.nodes` loop.
  pub dfs_roots : ℕ → Colours → List (Node R) → Search
  dfs_roots fuel c [] = finished c
  dfs_roots fuel c (n ∷ ns) = elim (colour_of c n.id) [
    | white ↦ elim (dfs fuel c ((n.id, false) ∷ [])) [
      | finished c' ↦ dfs_roots fuel c' ns
      | other ↦ other
    ]
    | _ ↦ dfs_roots fuel c ns
  ]

  -- Each edge is pushed once at most, and each slot is looked at twice.
  abbrev pub dfs_fuel : ℕ
  dfs_fuel = 2 * degrees g.nodes + 2

  unfoldable pub detect_cycle : Search
  unfolding dfs dfs_roots push_deps colour_of
  detect_cycle = dfs_roots dfs_fuel [] g.nodes

-- What `Validate` returns: nil, an error, or no return.
pub data Validation : Type 0 where
  valid : Validation
  invalid : GraphError → Validation
  panics diverges : Validation

abbrev pub of_search : Search → Validation
of_search (finished _) = valid
of_search (cyclic id dep) = invalid (cycle id dep)
of_search nil_deref = panics
of_search out_of_fuel = diverges

unfoldable pub validate : {R : Type 0} → Graph R → Validation
unfolding check_nodes check_deps detect_cycle
validate g = elim (check_nodes g g.nodes) [ some e ↦ invalid e | none ↦ of_search (detect_cycle g) ]
