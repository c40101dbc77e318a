-- ===== src/Orchestrator.antt =====
-- internal/agent/orchestrator/orchestrator.go: the events, and the graph that Run makes of a plan.
pub mod Build
pub mod Engine
mod Samples
use go_research.Prelude.{Bool, Option, none, some, List, [], ◌∷◌, Str}
use go_research.Prelude.Int.{ℤ, pos}
use go_research.Planner.{Subtask}
use go_research.Dag.Types.{Node}
use go_research.Dag.Graph.{Graph, GraphError, add}
use go_research.Researcher.Attempts.{Citation}

-- EventType and the payload that Run sends with it; the payload of an error is a map with the keys
-- stage and error.
pub data Event : Type 0 where
  plan_event : (question : Str) (subtasks : List Subtask) → Event
  node_started : (id question : Str) (attempt : ℤ) → Event
  search_round : (id : Str) (round : ℤ) (query : Str) (result_count : ℤ) → Event
  critic_review : (id : Str) (attempt score : ℤ) (pass : Bool) (feedback : Str) → Event
  node_finished : (id question findings : Str) (citations : List Citation) (elapsed_ms : ℤ) → Event
  node_failed : (id error : Str) → Event
  writer_token : (delta : Str) → Event
  done : (elapsed_ms chars : ℤ) → Event
  error : (stage message : Str) → Event

module _ {R : Type 0} (run_of : Subtask → R) where
  -- The node of a subtask, given its closure: one retry, and 90 seconds.
  abbrev pub node_of : Subtask → Node R
  node_of st = record {
    id = st.id;
    name = st.question;
    depends_on = st.depends_on;
    run = some (run_of st);
    max_retry = pos 1;
    timeout = pos 90000000000;
  }

  -- The loop of `Run` that adds the subtasks, up to the first error.
  pub build_graph : List Subtask → Graph R → Option GraphError × Graph R
  unfolding add
  build_graph [] g = (none, g)
  build_graph (st ∷ sts) g =
      let (failed, g') = add (some (node_of st)) g in
      elim failed [ some e ↦ (some e, g') | none ↦ build_graph sts g' ]
