-- ===== src/Server/History/Remembered.antt =====
-- A request of handler_research.go, followed by one of handler_history.go, under internal/server.
use go_research.Prelude.{
  not_blank, ℕ, ◌+◌, Bool, true, false, ◌≡◌, ◌≢◌, refl, ap, ◌∙◌, inr, Option, none, some, List, [],
  Str, lookup,
}
use go_research.Prelude.Int.{ℤ}
use go_research.Planner.{Subtask}
use go_research.Researcher.Attempts.{Citation}
use go_research.Orchestrator.{Event}
use go_research.Orchestrator.Engine.{Engine}
use go_research.Store.{Store, session_completed, session_failed}
use go_research.Store.Queries.{SessionDetail, get_session}
use go_research.Store.Queries.Details.{get_session-Detailed}
use go_research.Recorder.Tokens.{report_of}
use go_research.Server.Research.{handle_research}
use go_research.Server.Research.Completed.{ran, run_pipeline, handle_research-Completed}
use go_research.Server.History.{Answer, ok, handle_research_get}

handle_research_get-found :
    (fails : ℕ → Bool) (error_text : ℕ → Str) (created_at : Str → ℕ) (completed_at : Str → Option ℕ)
    (collates : Str → Str → Bool) (is_uuid : Str → Bool) (id : Str) (s : Store)
    (detail : SessionDetail)
    → id ≢ []
    → (get_session fails error_text created_at completed_at collates is_uuid id s).0
      ≡ inr (some detail)
    → (handle_research_get fails error_text created_at completed_at collates is_uuid id (some s)).0
      ≡ ok detail
unfolding handle_research_get
handle_research_get-found fails error_text created_at completed_at collates is_uuid id s detail
      named found =
    rw (handle_research_get, not_blank id named, found) refl

module _ {W E D F C T R : Type 0} (en : Option ℤ → Engine W E D F C T R) (w : W) where
  module _ (fails : ℕ → Bool) (online : (n : ℕ) → fails n ≡ false)
      (encode_plan : Str → List Subtask → Option Str) (encode_citations : List Citation → Str)
      (encode : Event → Str) (writes : ℕ → Bool) (session_id : Str) (decode : Str → Option Str)
      (encode_id : Str → Str) (timeout : ℤ) (body question : Str) (s : Store) (error_text : ℕ → Str)
      (created_at : Str → ℕ) (completed_at : Str → Option ℕ) (collates : Str → Str → Bool)
      (is_uuid : Str → Bool) where
    abbrev pub result : Option Store
    result =
        (handle_research fails encode_plan encode_citations encode writes session_id decode
          encode_id (run_pipeline en w) timeout body (some s)).1

    abbrev pub returned : Answer SessionDetail
    returned =
        (handle_research_get fails error_text created_at completed_at collates is_uuid session_id
          result).0

    -- The session as the second request shows it.
    pub record Remembered : Type 0 where
      pub detail : SessionDetail
      pub shown : returned ≡ ok detail
      pub report :
          detail.report
          ≡ report_of
              (ran en w fails encode_plan encode_citations encode writes session_id decode encode_id
                timeout body question s).1
      pub status :
          detail.summary.status
          ≡ elim (ran en w fails encode_plan encode_citations encode writes session_id decode
              encode_id timeout body question s).0 [
                | none ↦ session_completed
                | some _ ↦ session_failed
              ]

    -- While no statement and no write fails, for a question that is not empty, under a new ID of a
    -- session that is a UUID: after `handleResearch` has answered, `handleResearchGet` with the ID
    -- answers 200 with the session; its report is the tokens that `Run` sent, in order, and its status
    -- is completed if `Run` returned no error, and failed if it returned one. The collation is total
    -- and transitive.
    pub handle_research_get-Remembered :
        decode body ≡ some question
        → question ≢ []
        → session_id ≢ []
        → lookup session_id s.sessions ≡ none
        → ((n : ℕ) → writes n ≡ true)
        → is_uuid session_id ≡ true
        → ((a b : Str) → collates a b ≡ false → collates b a ≡ true)
        → ((a b c : Str) → collates a b ≡ true → collates b c ≡ true → collates a c ≡ true)
        → Remembered
    handle_research_get-Remembered d q named fresh stays uuid total trans =
        let completed =
          handle_research-Completed en w fails encode_plan encode_citations encode writes session_id
            decode encode_id timeout body question s d q fresh (online s.calls) (online _) stays in
        let detailed =
          get_session-Detailed fails error_text created_at completed_at collates is_uuid session_id
            completed.row completed.after total trans uuid completed.there
            (online completed.after.calls) (online (completed.after.calls + 1)) in
        record {
          detail = detailed.detail;
          shown =
              ap
                (λ r.
                  (handle_research_get fails error_text created_at completed_at collates is_uuid
                    session_id r).0)
                completed.kept
              ∙ handle_research_get-found fails error_text created_at completed_at collates is_uuid
                  session_id completed.after detailed.detail named detailed.found;
          report = detailed.report ∙ completed.report;
          status = ap (λ x. x.status) detailed.summary ∙ completed.status;
        }
