-- ===== src/Orchestrator/Engine/Wired.antt =====
-- Which errors `Run` of internal/agent/orchestrator/orchestrator.go has left when its parts are there.
use go_research.Prelude.{
  true, false, not, ◌||◌, ◌≡◌, ◌≢◌, sym, subst, arith, ◌⊎◌, inl, inr, Option, some, List, [], ◌∷◌,
  Str, str_eq, Bool-cases, Option-cases, Sum-cases, List-cases,
}
use go_research.Planner
use go_research.Planner.{Plan}
use go_research.Dag.Types.{Result}
use go_research.Dag.Graph.{new_graph}
use go_research.Researcher.Attempts.{Findings}
use go_research.Writer
use go_research.Orchestrator.{Event, plan_event, build_graph}
use go_research.Orchestrator.Engine.{
  Engine, Ended, missing_dependency, no_search_tool, collect_findings, on_token, write_report,
  after_scheduler, research_plan, run, show_all, question_by_id,
}

module _ {W E D F C T R : Type 0} (en : Engine W E D F C T R) where
  -- The error is neither that of a missing part nor that of a missing tool.
  abbrev pub IsWired : Ended en → Type 0
  IsWired r = (r.0 ≢ some missing_dependency) × (r.0 ≢ some no_search_tool)

  write_report-IsWired :
      (question : Str) (findings : List Findings) (w : W) (sent : List Event)
      → IsWired (write_report en question findings w sent)
  unfolding write_report
  write_report-IsWired question findings w sent =
      elim (Option-cases
        (Writer.stream (on_token en.ctx_err) (en.open_stream w) en.writer_prompt question findings
          (record { chars = 0; sent = [] })).0) [
            | inl ok ↦ rw (write_report, ok) (λ h. cc, λ h. cc)
            | inr (x, bad) ↦ rw (write_report, bad) (λ h. cc, λ h. cc)
          ]

  after_scheduler-IsWired :
      (question : Str) (plan : Plan) (result : F ⊎ Result (Option Findings)) (w : W)
      (sent : List Event)
      → IsWired (after_scheduler en question plan result w sent)
  unfolding after_scheduler
  after_scheduler-IsWired question plan (inl x) w sent = (λ h. cc, λ h. cc)
  after_scheduler-IsWired question plan (inr r) w sent =
      elim (List-cases (collect_findings r.outputs plan.subtasks)) [
        | inl nil ↦ rw (after_scheduler, nil) (λ h. cc, λ h. cc)
        | inr (f, fs, some_found) ↦
            rw (after_scheduler, some_found) (write_report-IsWired question (f ∷ fs) w sent)
      ]

  research_plan-IsWired :
      (tool : T) (question : Str) (plan : Plan) (w : W)
      → IsWired (research_plan en (some tool) question plan w)
  unfolding research_plan
  research_plan-IsWired tool question plan w =
      let built = build_graph (en.run_of tool) plan.subtasks new_graph in
      elim (Option-cases built.0) [
        | inl fine ↦
            rw (research_plan, fine)
              (after_scheduler-IsWired question plan (en.schedule built.1 w).0.result
                (en.schedule built.1 w).1
                (plan_event plan.question plan.subtasks
                  ∷ show_all en.node_error_text (question_by_id plan.subtasks [])
                      (en.schedule built.1 w).0.activity))
        | inr (e, bad) ↦ rw (research_plan, bad) (λ h. cc, λ h. cc)
      ]

  pub run-IsWired :
      (question : Str) (w : W) (tool : T)
      → en.has_llm ≡ true
      → en.has_tools ≡ true
      → en.has_scheduler ≡ true
      → en.search_tool ≡ some tool
      → IsWired (run en question w)
  unfolding run
  run-IsWired question w tool llm tools scheduler found = elim (Bool-cases (str_eq question [])) [
    | inl blank ↦ rw (run, blank) (λ h. cc, λ h. cc)
    | inr asked ↦
        let ready : (not en.has_llm || not en.has_tools || not en.has_scheduler) ≡ false =
          ground arith in
        let planned = Planner.plan en.generate en.decode_plan en.planner_prompt question w in
        elim (Sum-cases planned.0) [
          | inl (e, failed) ↦ rw (run, asked, ready, failed) (λ h. cc, λ h. cc)
          | inr (p, good) ↦
              rw (run, asked, ready, good)
                (subst (λ t. IsWired (research_plan en t question p planned.1)) (sym found)
                  (research_plan-IsWired tool question p planned.1))
        ]
  ]
