-- ===== src/Orchestrator/Engine/Story.antt =====
-- The order of the events that `Run` of internal/agent/orchestrator/orchestrator.go sends, and its error.
use go_research.Prelude.{
  List-cases, ◌≡◌, refl, sym, ap, ◌⊎◌, ◌≢◌, inl, inr, Option, none, some, List, [], ◌∷◌, ◌++◌, Str,
  append-nil, Option-cases, Sum-cases, Bool-cases, str_eq, str_eq_iff, not, true, false, arith,
  ◌||◌, codes,
}
use go_research.Prelude.Int.{pos}
use go_research.Planner
use go_research.Planner.{Plan, PlannerError, Subtask}
use go_research.Planner.Validate.{validate-eq-none_iff}
use go_research.Planner.Calls.{plan-IsValid}
use go_research.Dag.Types.{Result}
use go_research.Dag.Graph.{new_graph, GraphError}
use go_research.Researcher.Attempts.{Findings}
use go_research.Writer
use go_research.Orchestrator.{Event, plan_event, done, error, build_graph}
use go_research.Orchestrator.Build.{build_graph-valid_iff}
use go_research.Orchestrator.Engine.{
  show_all, question_by_id, on_token, Engine, EngineError, Ended, fail, write_report,
  after_scheduler, research_plan, run, collect_findings, empty_question, missing_dependency,
  no_search_tool, no_findings, planner_failed, dag_failed, scheduler_failed, writer_failed,
}
use go_research.Orchestrator.Engine.Phases.{InPhase, token_bytes, show_all-InPhase, stream-Counts}

-- The stage that `Run` names in the event of an error.
abbrev pub stage_of : {E D F C : Type 0} → EngineError E D F C → Str
stage_of empty_question = []
stage_of missing_dependency = []
stage_of no_search_tool = codes "tools"
stage_of no_findings = codes "scheduler"
stage_of (planner_failed e) = codes "planner"
stage_of (dag_failed e) = codes "dag"
stage_of (scheduler_failed e) = codes "scheduler"
stage_of (writer_failed e) = codes "writer"

abbrev pub IsPlan : List Event → Type 0
IsPlan (plan_event question subtasks ∷ []) = Unit
IsPlan es = ⊥

asked_something : (question : Str) → str_eq question [] ≡ false → question ≢ []
asked_something question asked blank = ground (arith, str_eq_iff question [])

module _ {W E D F C T R : Type 0} (en : Engine W E D F C T R) where
  -- The last event tells how `Run` ends.
  abbrev pub Closes : List Event → Option (EngineError E D F C) → Event → Type 0
  Closes tokens none (done ms n) = (ms ≡ en.elapsed_ms) × (n ≡ pos (token_bytes tokens))
  Closes tokens (some e) (error stage m) = (stage ≡ stage_of e) × (m ≡ en.error_text e)
  Closes tokens err e = ⊥

  pub record IsStory (r : Ended en) : Type 0 where
    pub planned : List Event
    pub activity : List Event
    pub tokens : List Event
    pub last : Event
    pub whole : r.1 ≡ planned ++ activity ++ tokens ++ last ∷ []
    pub first : IsPlan planned ⊎ ((planned ≡ []) × (activity ≡ []) × (tokens ≡ []))
    pub researching : InPhase 1 activity
    pub writing : InPhase 2 tokens
    pub closing : Closes tokens r.0 last

  module _ (asked : Str) (subtasks : List Subtask) (shown : List Event)
      (in_phase : InPhase 1 shown) where
    abbrev sent : List Event
    sent = plan_event asked subtasks ∷ shown

    -- The error after the plan and what was shown.
    fail-IsStory : (e : EngineError E D F C) → IsStory (fail en sent (stage_of e) e)
    fail-IsStory e = record {
      planned = plan_event asked subtasks ∷ [];
      activity = shown;
      tokens = [];
      last = error (stage_of e) (en.error_text e);
      whole = ap (λ es. es ++ error (stage_of e) (en.error_text e) ∷ []) (sym (append-nil sent));
      first = inl tt;
      researching = in_phase;
      writing = tt;
      closing = (refl, refl);
    }

    told-IsStory :
        (tokens : List Event) (err : Option (EngineError E D F C)) (last : Event)
        → InPhase 2 tokens
        → Closes tokens err last
        → IsStory (err, (sent ++ tokens) ++ last ∷ [])
    told-IsStory tokens err last p c = record {
      planned = plan_event asked subtasks ∷ [];
      activity = shown;
      tokens = tokens;
      last = last;
      whole = refl;
      first = inl tt;
      researching = in_phase;
      writing = p;
      closing = c;
    }

    write_report-IsStory :
        (question : Str) (findings : List Findings) (w : W)
        → IsStory (write_report en question findings w sent)
    unfolding write_report
    write_report-IsStory question findings w =
        let r =
          Writer.stream (on_token en.ctx_err) (en.open_stream w) en.writer_prompt question findings
            (record { chars = 0; sent = [] }) in
        let counts =
          stream-Counts en.ctx_err (en.open_stream w) en.writer_prompt question findings in
        elim (Option-cases r.0) [
          | inl ok ↦
              rw (write_report, ok)
                (told-IsStory r.2.sent none (done en.elapsed_ms (pos r.2.chars)) counts.0
                  (refl, ap pos counts.1))
          | inr (e, bad) ↦
              rw (write_report, bad)
                (told-IsStory r.2.sent (some (writer_failed e))
                  (error (codes "writer") (en.error_text (writer_failed e))) counts.0 (refl, refl))
        ]

    after_scheduler-IsStory :
        (question : Str) (plan : Plan) (result : F ⊎ Result (Option Findings)) (w : W)
        → IsStory (after_scheduler en question plan result w sent)
    unfolding after_scheduler
    after_scheduler-IsStory question plan (inl e) w = fail-IsStory (scheduler_failed e)
    after_scheduler-IsStory question plan (inr r) w =
        elim (List-cases (collect_findings r.outputs plan.subtasks)) [
          | inl nil ↦ rw (after_scheduler, nil) (fail-IsStory no_findings)
          | inr (f, fs, some_found) ↦
              rw (after_scheduler, some_found) (write_report-IsStory question (f ∷ fs) w)
        ]

  -- No error that is one of the graph.
  abbrev pub IsFine : Ended en → Type 0
  IsFine r = (e : GraphError) → r.0 ≢ some (dag_failed e)

  write_report-IsFine :
      (question : Str) (findings : List Findings) (w : W) (sent : List Event)
      → IsFine (write_report en question findings w sent)
  unfolding write_report
  write_report-IsFine question findings w sent e h =
      elim (Option-cases
        (Writer.stream (on_token en.ctx_err) (en.open_stream w) en.writer_prompt question findings
          (record { chars = 0; sent = [] })).0) [
            | inl ok ↦ cc (rw (write_report, ok) at h)
            | inr (x, bad) ↦ cc (rw (write_report, bad) at h)
          ]

  after_scheduler-IsFine :
      (question : Str) (plan : Plan) (result : F ⊎ Result (Option Findings)) (w : W)
      (sent : List Event)
      → IsFine (after_scheduler en question plan result w sent)
  unfolding after_scheduler
  after_scheduler-IsFine question plan (inl x) w sent e h = cc
  after_scheduler-IsFine question plan (inr r) w sent e h =
      elim (List-cases (collect_findings r.outputs plan.subtasks)) [
        | inl nil ↦ cc (rw (after_scheduler, nil) at h)
        | inr (f, fs, some_found) ↦
            write_report-IsFine question (f ∷ fs) w sent e (rw (after_scheduler, some_found) at h)
      ]

  -- A plan that the planner has accepted is never refused by the graph.
  research_plan-IsStory :
      (tool : Option T) (question : Str) (plan : Plan) (w : W)
      → Planner.validate plan ≡ none
      → IsStory (research_plan en tool question plan w)
        × IsFine (research_plan en tool question plan w)
  unfolding research_plan
  research_plan-IsStory none question plan w accepted =
      (fail-IsStory plan.question plan.subtasks [] tt no_search_tool, λ e h. cc)
  research_plan-IsStory (some tool) question plan w accepted =
      let (ran, w') = en.schedule (build_graph (en.run_of tool) plan.subtasks new_graph).1 w in
      let shown = show_all en.node_error_text (question_by_id plan.subtasks []) ran.activity in
      rw (research_plan, (build_graph-valid_iff (en.run_of tool) plan accepted).0)
        (
          after_scheduler-IsStory plan.question plan.subtasks shown
              (show_all-InPhase en.node_error_text (question_by_id plan.subtasks []) ran.activity)
              question plan ran.result w',
          after_scheduler-IsFine question plan ran.result w'
              (plan_event plan.question plan.subtasks ∷ shown),
        )

  planner-IsStory :
      (e : PlannerError E D) → IsStory (fail en [] (codes "planner") (planner_failed e))
  planner-IsStory e = record {
    planned = [];
    activity = [];
    tokens = [];
    last = error (codes "planner") (en.error_text (planner_failed e));
    whole = refl;
    first = inr (refl, refl, refl);
    researching = tt;
    writing = tt;
    closing = (refl, refl);
  }

  -- All of the Deps that `Run` needs are there.
  abbrev pub IsEquipped : Type 0
  IsEquipped = (en.has_llm ≡ true) × (en.has_tools ≡ true) × (en.has_scheduler ≡ true)

  -- Nothing was sent: there is no question, or there is one and not all of the Deps.
  abbrev pub IsSilent : Str → Ended en → Type 0
  IsSilent question r =
      (r.1 ≡ [])
      × (((question ≡ []) × (r.0 ≡ some empty_question))
          ⊎ ((question ≢ []) × (¬ IsEquipped) × (r.0 ≡ some missing_dependency)))

  ready-IsEquipped :
      (not en.has_llm || not en.has_tools || not en.has_scheduler) ≡ false → IsEquipped
  ready-IsEquipped ready = ground arith

  missing-IsEquipped :
      (not en.has_llm || not en.has_tools || not en.has_scheduler) ≡ true → ¬ IsEquipped
  missing-IsEquipped missing equipped = ground arith

  -- For whatever the planner, the scheduler, the researchers and the model do: for an empty
  -- question, and for another one when the model's client, the tools or the scheduler are missing,
  -- `Run` sends nothing and returns the error that says so; in all other cases, and only then, its
  -- events are the plan, then those of the researchers, then those of the writer, and one last:
  -- when `Run` returns no error it is done, with the bytes of all tokens sent, and else an error
  -- with its stage and text; with no plan it is the only one. The graph refuses no plan.
  pub run-IsStory :
      (question : Str) (w : W)
      → (IsSilent question (run en question w)
          ⊎ ((question ≢ []) × IsEquipped × IsStory (run en question w)))
        × IsFine (run en question w)
  unfolding run
  run-IsStory question w = elim (Bool-cases (str_eq question [])) [
    | inl blank ↦
        rw (run, blank) (inl (refl, inl ((str_eq_iff question []).0 blank, refl)), λ e h. cc)
    | inr asked ↦ elim (Bool-cases (not en.has_llm || not en.has_tools || not en.has_scheduler)) [
      | inl missing ↦
          rw (run, asked, missing)
            (
              inl (refl, inr (asked_something question asked, missing-IsEquipped missing, refl)),
              λ e h. cc,
            )
      | inr ready ↦
          let planned = Planner.plan en.generate en.decode_plan en.planner_prompt question w in
          elim (Sum-cases planned.0) [
            | inl (e, failed) ↦
                rw (run, asked, ready, failed)
                  (
                    inr (asked_something question asked, ready-IsEquipped ready, planner-IsStory e),
                    λ x h. cc,
                  )
            | inr (p, good) ↦
                let valid_plan =
                  (validate-eq-none_iff p).1
                    (plan-IsValid en.generate en.decode_plan en.planner_prompt question w p good) in
                let (story, fine) =
                  research_plan-IsStory en.search_tool question p planned.1 valid_plan in
                rw (run, asked, ready, good)
                  (inr (asked_something question asked, ready-IsEquipped ready, story), fine)
          ]
    ]
  ]
