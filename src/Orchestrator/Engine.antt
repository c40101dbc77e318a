-- ===== src/Orchestrator/Engine.antt =====
-- `Run` of internal/agent/orchestrator/orchestrator.go: planner, scheduler, writer, and the events that
-- it sends, as a log. The parts that it calls are fields of Engine; the planner and the writer are those
-- of Planner and Writer. What the scheduler and the closures of the nodes tell meanwhile is a
-- list, in the order in which the channel gets it.
pub mod Phases
pub mod Story
pub mod Closure
pub mod Composed
pub mod Wired
pub mod Samples
use go_research.Prelude.{
  ℕ, zero, suc, ◌+◌, ◌/◌, Bool, true, false, not, ◌||◌, ◌⊎◌, inl, inr, Option, none, some, List, [],
  ◌∷◌, ◌++◌, Str, codes, str_eq, Map, lookup, insert, length, if◌then◌else◌,
}
use go_research.Prelude.Int.{ℤ, pos, negsuc}
use go_research.Llm.{Message, Generate}
use go_research.Planner
use go_research.Planner.{Subtask, Plan, PlannerError}
use go_research.Dag.Types
use go_research.Dag.Types.{Result}
use go_research.Dag.Graph.{Graph, GraphError, new_graph}
use go_research.Dag.Coordinator.{output}
use go_research.Researcher.Collect.{SearchRound}
use go_research.Researcher.Attempts.{CriticReview, Findings}
use go_research.Writer
use go_research.Writer.{Received, StreamError}
use go_research.Orchestrator.{
  Event, plan_event, node_started, search_round, critic_review, node_finished, node_failed,
  writer_token, done, error, build_graph,
}

abbrev pub minus : ℕ → ℤ
minus zero = pos zero
minus (suc n) = negsuc n

-- `Milliseconds` of a duration in nanoseconds
abbrev pub millis : ℤ → ℤ
millis (pos n) = pos (n / 1000000)
millis (negsuc n) = minus (suc n / 1000000)

-- `questionByID`
pub question_by_id : List Subtask → Map Str → Map Str
question_by_id [] m = m
question_by_id (st ∷ sts) m = question_by_id sts (insert st.id st.question m)

abbrev pub or_empty : Option Str → Str
or_empty none = []
or_empty (some s) = s

module _ {F : Type 0} (text : F → Str) where
  abbrev pub text_or_empty : Option F → Str
  text_or_empty none = []
  text_or_empty (some e) = text e

  -- The body of the loop of the goroutine that bridges the scheduler's events.
  unfoldable pub bridge : Map Str → Types.Event Findings F → Option Event
  bridge asked de = elim de.type [
    | Types.node_started ↦
        some (node_started de.node_id (or_empty (lookup de.node_id asked)) de.attempt)
    | Types.node_succeeded ↦ elim de.result [
      | none ↦ none
      | some f ↦
          some (node_finished de.node_id f.question f.markdown f.citations (millis de.elapsed))
    ]
    | Types.node_failed ↦ some (node_failed de.node_id (text_or_empty de.error))
    | Types.node_retrying ↦ none
    | Types.node_cancelled ↦ none
  ]

-- What happens while the scheduler runs: its events, and the progress of the node `id`.
pub data Activity (F : Type 0) : Type 0 where
  of_node : Types.Event Findings F → Activity F
  searched : (id : Str) → SearchRound → Activity F
  reviewed : (id : Str) → CriticReview → Activity F

module _ {F : Type 0} (text : F → Str) (asked : Map Str) where
  -- The hook that `Run` gives to `Research`, and the bridge.
  pub show : Activity F → Option Event
  unfolding bridge
  show (of_node de) = bridge text asked de
  show (searched id p) = some (search_round id (pos p.round) p.query (pos p.result_count))
  show (reviewed id p) = some (critic_review id (pos p.attempt) p.score p.pass p.feedback)

  pub show_all : List (Activity F) → List Event
  unfolding show
  show_all [] = []
  show_all (a ∷ rest_of) =
      let rest = show_all rest_of in elim (show a) [ none ↦ rest | some e ↦ e ∷ rest ]

-- "Collect findings in original plan order".
pub collect_findings : Map (Option Findings) → List Subtask → List Findings
collect_findings outputs [] = []
collect_findings outputs (st ∷ sts) =
    let rest = collect_findings outputs sts in
    elim (output outputs st.id) [ none ↦ rest | some f ↦ f ∷ rest ]

-- `chars`, and the events sent by the writer's handler.
pub record Tokens : Type 0 where
  pub chars : ℕ
  pub sent : List Event

-- The handler that `Run` gives to the writer; `ctx_err` is what the context's Err() is by then.
unfoldable pub on_token : {C : Type 0} → (ℕ → Option C) → Str → Tokens → Option C × Tokens
on_token ctx_err delta s = (
  ctx_err (length s.sent),
  record { chars = s.chars + length delta; sent = s.sent ++ writer_token delta ∷ [] },
)

pub data EngineError (E D F C : Type 0) : Type 0 where
  empty_question missing_dependency no_search_tool no_findings : EngineError E D F C
  planner_failed : PlannerError E D → EngineError E D F C
  dag_failed : GraphError → EngineError E D F C
  scheduler_failed : F → EngineError E D F C
  writer_failed : StreamError E C → EngineError E D F C

-- What the scheduler tells and returns.
pub record Ran (F : Type 0) : Type 0 where
  pub activity : List (Activity F)
  pub result : F ⊎ Result (Option Findings)

-- Deps and what is behind them. `T` is the search tool, `R` a RunFn.
pub record Engine (W E D F C T R : Type 0) : Type 0 where
  pub has_llm : Bool
  pub has_tools : Bool
  pub has_scheduler : Bool
  -- what the registry gives for web_search
  pub search_tool : Option T
  -- the closure of a node
  pub run_of : T → Subtask → R
  pub generate : Generate W E
  pub decode_plan : Str → D ⊎ Plan
  pub planner_prompt : Str
  pub schedule : Graph R → W → Ran F × W
  pub open_stream : W → List Message → E ⊎ Received E
  pub writer_prompt : Str
  pub ctx_err : ℕ → Option C
  pub elapsed_ms : ℤ
  pub node_error_text : F → Str
  pub error_text : EngineError E D F C → Str

module _ {W E D F C T R : Type 0} (en : Engine W E D F C T R) where
  -- The error that `Run` returns, and all events.
  abbrev pub Ended : Type 0
  Ended = Option (EngineError E D F C) × List Event

  abbrev pub fail : List Event → Str → EngineError E D F C → Ended
  fail sent stage e = (some e, sent ++ error stage (en.error_text e) ∷ [])

  -- "Stage 3: Writer", after the events `sent`.
  unfoldable pub write_report : Str → List Findings → W → List Event → Ended
  unfolding on_token Writer.stream
  write_report question findings w sent =
      let (failed, full, s) =
        Writer.stream (on_token en.ctx_err) (en.open_stream w) en.writer_prompt question findings
          (record { chars = 0; sent = [] }) in
      elim failed [
        | some e ↦ fail (sent ++ s.sent) (codes "writer") (writer_failed e)
        | none ↦ (none, (sent ++ s.sent) ++ done en.elapsed_ms (pos s.chars) ∷ [])
      ]

  -- What follows when the scheduler has returned.
  unfoldable pub after_scheduler :
      Str → Plan → F ⊎ Result (Option Findings) → W → List Event → Ended
  unfolding collect_findings write_report
  after_scheduler question plan result w sent = elim result [
    | inl e ↦ fail sent (codes "scheduler") (scheduler_failed e)
    | inr r ↦ elim (collect_findings r.outputs plan.subtasks) [
      | [] ↦ fail sent (codes "scheduler") no_findings
      | f ∷ fs ↦ write_report question (f ∷ fs) w sent
    ]
  ]

  -- "Stage 2: DAG of Researchers", of a plan, with what the registry holds under web_search.
  unfoldable pub research_plan : Option T → Str → Plan → W → Ended
  unfolding build_graph question_by_id show_all after_scheduler
  research_plan none question plan w =
      fail (plan_event plan.question plan.subtasks ∷ []) (codes "tools") no_search_tool
  research_plan (some tool) question plan w =
      let sent = plan_event plan.question plan.subtasks ∷ [] in
      let (refused, g) = build_graph (en.run_of tool) plan.subtasks new_graph in
      elim refused [
        | some e ↦ fail sent (codes "dag") (dag_failed e)
        | none ↦
            let (ran, w') = en.schedule g w in
            let shown =
              show_all en.node_error_text (question_by_id plan.subtasks []) ran.activity in
            after_scheduler question plan ran.result w' (sent ++ shown)
      ]

  -- `Run`
  unfoldable pub run : Str → W → Ended
  unfolding Planner.plan research_plan
  run question w =
      if str_eq question []
      then (some empty_question, [])
      else if not en.has_llm || not en.has_tools || not en.has_scheduler
      then (some missing_dependency, [])
      else let (planned, w') =
          Planner.plan en.generate en.decode_plan en.planner_prompt question w in
        elim planned [
          | inl e ↦ fail [] (codes "planner") (planner_failed e)
          | inr p ↦ research_plan en.search_tool question p w'
        ]
