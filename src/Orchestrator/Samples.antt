-- ===== src/Orchestrator/Samples.antt =====
-- The graph of a plan of two subtasks.
use go_research.Prelude.{◌≡◌, refl, ◌↔◌, none, List, [], ◌∷◌, Str, codes, lookup, insert, str_eq}
use go_research.Planner
use go_research.Planner.{Subtask, Plan}
use go_research.Dag.Graph.{new_graph, validate, valid}
use go_research.Dag.Graph.Validate.{IsAcyclic}
use go_research.Orchestrator.{build_graph}
use go_research.Orchestrator.Build.{nodes_of, build_graph-valid_iff}

abbrev subtask : Str → List Str → Subtask
subtask id deps = record { id = id; question = codes "why?"; depends_on = deps }

abbrev two_tasks : Plan
two_tasks = record {
  question = codes "q";
  subtasks = subtask (codes "t1") [] ∷ subtask (codes "t2") (codes "t1" ∷ []) ∷ [];
}

accepted : Planner.validate two_tasks ≡ none
unfolding Planner.validate lookup insert str_eq
accepted = refl

abbrev run_of : Subtask → Str
run_of st = st.question

build_graph-valid_iff_example :
    let r = build_graph run_of two_tasks.subtasks new_graph in
    (r.0 ≡ none)
    × (r.1.nodes ≡ nodes_of run_of two_tasks.subtasks)
    × ((validate r.1 ≡ valid) ↔ IsAcyclic r.1)
build_graph-valid_iff_example = build_graph-valid_iff run_of two_tasks accepted
