-- ===== src/Dag/Graph/Samples.antt =====
-- Small graphs, and what internal/agent/dag/graph.go does with them.
use go_research.Prelude.{
  ◌≡◌, refl, ◌↔◌, Option, some, List, [], ◌∷◌, Str, codes, lookup, insert, str_eq,
}
use go_research.Prelude.Int.{pos}
use go_research.Dag.Types.{Node}
use go_research.Dag.Graph.{
  Graph, new_graph, add, duplicate_id, self_dep, unknown_dep, cycle, validate, valid, invalid,
}
use go_research.Dag.Graph.Add.{IsWellFormed, new_graph-IsWellFormed, add-IsWellFormed}
use go_research.Dag.Graph.Validate.{IsAcyclic}
use go_research.Dag.Graph.DepthFirst.{IsKnown}
use go_research.Dag.Graph.Verdict.{Verdict, validate-Verdict, validate-eq-valid_iff}

-- A node with work that is a value of the unit type.
abbrev job : Str → List Str → Option (Node (Unit {0}))
job id deps = some (record {
  id = id;
  name = [];
  depends_on = deps;
  run = some tt;
  max_retry = pos 1;
  timeout = pos 0;
})

abbrev a : Str
a = codes "a"

abbrev b : Str
b = codes "b"

abbrev c : Str
c = codes "c"

abbrev d : Str
d = codes "d"

abbrev adds : List (Option (Node (Unit {0}))) → Graph Unit → Graph Unit
adds [] g = g
adds (n ∷ ns) g = adds ns (add n g).1

adds-IsWellFormed :
    (ns : List (Option (Node (Unit {0})))) (g : Graph Unit)
    → IsWellFormed g
    → IsWellFormed (adds ns g)
adds-IsWellFormed [] g w = w
adds-IsWellFormed (n ∷ ns) g w = adds-IsWellFormed ns (add n g).1 (add-IsWellFormed n g w)

-- a ← b, a ← c, b and c ← d: the search meets a twice.
abbrev diamond : Graph Unit
diamond = adds (job d (b ∷ c ∷ []) ∷ job b (a ∷ []) ∷ job c (a ∷ []) ∷ job a [] ∷ []) new_graph

abbrev ring : Graph Unit
ring = adds (job a (c ∷ []) ∷ job b (a ∷ []) ∷ job c (b ∷ []) ∷ []) new_graph

program : Unit {0}
unfolding validate add lookup insert str_eq
program = tt

validate-diamond : validate diamond ≡ valid
unfolding program
validate-diamond = refl

validate-ring : validate ring ≡ invalid (cycle b a)
unfolding program
validate-ring = refl

validate_self : validate (adds (job a (a ∷ []) ∷ []) new_graph) ≡ invalid (self_dep a)
unfolding program
validate_self = refl

validate_missing : validate (adds (job a (b ∷ []) ∷ []) new_graph) ≡ invalid (unknown_dep a b)
unfolding program
validate_missing = refl

add_twice : (add (job a []) diamond).0 ≡ some (duplicate_id a)
unfolding program
add_twice = refl

ring-IsWellFormed : IsWellFormed ring
ring-IsWellFormed =
    adds-IsWellFormed (job a (c ∷ []) ∷ job b (a ∷ []) ∷ job c (b ∷ []) ∷ []) new_graph
      new_graph-IsWellFormed

validate-eq-valid_iff_example : (validate ring ≡ valid) ↔ (IsKnown ring × IsAcyclic ring)
validate-eq-valid_iff_example = validate-eq-valid_iff ring ring-IsWellFormed

validate-Verdict_example : Verdict ring (validate ring)
validate-Verdict_example = validate-Verdict ring ring-IsWellFormed

add-IsWellFormed_example : IsWellFormed (add (job a []) ring).1
add-IsWellFormed_example = add-IsWellFormed (job a []) ring ring-IsWellFormed
