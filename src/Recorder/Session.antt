-- ===== src/Recorder/Session.antt =====
-- The session's row that internal/server/research_recorder.go leaves behind.
use go_research.Prelude.{
  ℕ, ◌+◌, Bool, false, ◌&&◌, ◌||◌, ◌≡◌, refl, sym, ap, ◌∙◌, inl, inr, Option, some, List, [], ◌∷◌,
  ◌++◌, Str, arith, lookup, lookup-insert_self, append-nil, append_assoc, Option-cases, Bool-cases,
  if◌then◌else◌,
}
use go_research.Planner.{Subtask}
use go_research.Researcher.Attempts.{Citation}
use go_research.Orchestrator.{
  Event, plan_event, node_started, search_round, critic_review, node_finished, node_failed,
  writer_token, done, error,
}
use go_research.Store.{
  Store, TaskRecord, SessionRow, session_completed, session_failed, task_pending, task_running,
  save_plan, upsert_task, complete_session,
}
use go_research.Recorder.{
  Recorder, new_recorder, is_none, task_record, done_record, failed_record, seed_tasks, on_event,
  record_all, finalize,
}
use go_research.Recorder.Order.{Opened}
use go_research.Recorder.Tokens.{report_of, has_done, report_of-split, has_done-split, or_assoc}

module _ (fails : ℕ → Bool) (session_id : Str) where
  upsert_task-Opened :
      (rec : TaskRecord) (s : Store)
      → Opened session_id s
      → Opened session_id (upsert_task fails session_id rec s).1
  unfolding upsert_task
  upsert_task-Opened rec s o = elim (Bool-cases (fails s.calls)) [
    | inl bad ↦ rw (upsert_task, o.there, bad) (record { row = o.row; there = o.there })
    | inr good ↦ rw (upsert_task, o.there, good) (record { row = o.row; there = o.there })
  ]

  save_plan-Opened :
      (plan : Str) (s : Store)
      → Opened session_id s
      → Opened session_id (save_plan fails session_id plan s).1
  unfolding save_plan
  save_plan-Opened plan s o = elim (Bool-cases (fails s.calls)) [
    | inl bad ↦ rw (save_plan, bad) (record { row = o.row; there = o.there })
    | inr good ↦
        rw (save_plan, o.there, good)
          (record { row = _; there = lookup-insert_self session_id _ s.sessions })
  ]

  seed_tasks-Opened :
      (i : ℕ) (sts : List Subtask) (s : Store)
      → Opened session_id s
      → Opened session_id (seed_tasks fails session_id i sts s)
  unfolding seed_tasks
  seed_tasks-Opened i [] s o = o
  seed_tasks-Opened i (st ∷ sts) s o =
      let rec = task_record st.id st.question task_pending i in
      seed_tasks-Opened (i + 1) sts (upsert_task fails session_id rec s).1
        (upsert_task-Opened rec s o)

module _ (fails : ℕ → Bool) (encode_plan : Str → List Subtask → Option Str)
    (encode_citations : List Citation → Str) (session_id : Str) where
  abbrev record_event : Event → Recorder × Store → Recorder × Store
  record_event = on_event fails encode_plan encode_citations session_id

  -- What one event adds to the report and the flag, if the session has a row.
  record Noted (ev : Event) (x y : Recorder × Store) : Type 0 where
    report : y.0.report ≡ x.0.report ++ report_of (ev ∷ [])
    pipeline_ok : y.0.pipeline_ok ≡ (x.0.pipeline_ok || has_done (ev ∷ []))
    opened : Opened session_id y.1

  same_report : (s : Str) → s ≡ s ++ []
  same_report s = sym (append-nil s)

  or_false : (b : Bool) → b ≡ (b || false)
  or_false b = ground arith

  quiet :
      (ev : Event) (r r' : Recorder) (s s' : Store)
      → r'.report ≡ r.report
      → r'.pipeline_ok ≡ r.pipeline_ok
      → report_of (ev ∷ []) ≡ []
      → has_done (ev ∷ []) ≡ false
      → Opened session_id s'
      → Noted ev (r, s) (r', s')
  quiet ev r r' s s' report ok no_token not_done o = record {
    report = rw no_token (report ∙ same_report r.report);
    pipeline_ok = rw not_done (ok ∙ or_false r.pipeline_ok);
    opened = o;
  }

  on_event-Noted :
      (ev : Event) (r : Recorder) (s : Store)
      → Opened session_id s
      → Noted ev (r, s) (record_event ev (r, s))
  unfolding on_event
  on_event-Noted (plan_event question subtasks) r s o =
      elim (Option-cases (encode_plan question subtasks)) [
        | inl bad ↦
            rw (on_event, bad) (quiet (plan_event question subtasks) r r s s refl refl refl refl o)
        | inr (raw, good) ↦
            rw (on_event, good)
              (quiet (plan_event question subtasks) r _ s _ refl refl refl refl (
                seed_tasks-Opened fails session_id 0 subtasks (save_plan fails session_id raw s).1
                  (save_plan-Opened fails session_id raw s o)))
      ]
  on_event-Noted (node_started id question attempt) r s o =
      quiet (node_started id question attempt) r r s _ refl refl refl refl
        (upsert_task-Opened fails session_id (task_record id question task_running 0) s o)
  on_event-Noted (node_finished id question findings citations elapsed) r s o =
      quiet (node_finished id question findings citations elapsed) r r s _ refl refl refl refl (
        upsert_task-Opened fails session_id
          (done_record id question findings (encode_citations citations) elapsed) s o)
  on_event-Noted (node_failed id err) r s o =
      quiet (node_failed id err) r r s _ refl refl refl refl
        (upsert_task-Opened fails session_id (failed_record id err) s o)
  on_event-Noted (writer_token delta) r s o = record {
    report = ap (λ d. r.report ++ d) (same_report delta);
    pipeline_ok = or_false r.pipeline_ok;
    opened = o;
  }
  on_event-Noted (done elapsed chars) r s o = record {
    report = same_report r.report;
    pipeline_ok = ground arith;
    opened = o;
  }
  on_event-Noted (error stage message) r s o =
      quiet (error stage message) r _ s s refl refl refl refl o
  on_event-Noted (search_round id round query n) r s o =
      quiet (search_round id round query n) r r s s refl refl refl refl o
  on_event-Noted (critic_review id attempt score pass feedback) r s o =
      quiet (critic_review id attempt score pass feedback) r r s s refl refl refl refl o

  record Recorded (evs : List Event) (x y : Recorder × Store) : Type 0 where
    report : y.0.report ≡ x.0.report ++ report_of evs
    pipeline_ok : y.0.pipeline_ok ≡ (x.0.pipeline_ok || has_done evs)
    opened : Opened session_id y.1

  record_all-Recorded :
      (evs : List Event) (r : Recorder) (s : Store)
      → Opened session_id s
      → Recorded evs (r, s) (record_all fails encode_plan encode_citations session_id evs (r, s))
  unfolding record_all
  record_all-Recorded [] r s o = record {
    report = same_report r.report;
    pipeline_ok = or_false r.pipeline_ok;
    opened = o;
  }
  record_all-Recorded (ev ∷ evs) r s o =
      let y = record_event ev (r, s) in
      let one = on_event-Noted ev r s o in
      let all = record_all-Recorded evs y.0 y.1 one.opened in
      record {
        report =
            all.report
            ∙ ap (λ (t : Str). t ++ report_of evs) one.report
            ∙ append_assoc r.report (report_of (ev ∷ [])) (report_of evs)
            ∙ ap (λ (t : Str). r.report ++ t) (sym (report_of-split ev evs));
        pipeline_ok =
            all.pipeline_ok
            ∙ ap (λ b. b || has_done evs) one.pipeline_ok
            ∙ or_assoc r.pipeline_ok (has_done (ev ∷ [])) (has_done evs)
            ∙ ap (λ b. r.pipeline_ok || b) (sym (has_done-split ev evs));
        opened = all.opened;
      }

  -- The row with the report that the writer streamed, completed exactly when the pipeline said that
  -- it is done and returned no error.
  pub record Stored (evs : List Event) (pipeline_err : Option Str) (s : Store) : Type 0 where
    pub row : SessionRow
    pub there : lookup session_id s.sessions ≡ some row
    pub report : row.report ≡ report_of evs
    pub status :
        row.status
        ≡ (if has_done evs && is_none pipeline_err then session_completed else session_failed)

  -- For a session that has a row, whatever statements fail before it, if the last statement does not,
  -- then after all events and `Finalize` the row has as its report the writer's tokens in order, and
  -- its status is completed when the run sent a done event and returned no error, and failed otherwise.
  pub finalize-Stored :
      (evs : List Event) (pipeline_err : Option Str) (s : Store)
      → Opened session_id s
      → fails
          (record_all fails encode_plan encode_citations session_id evs (new_recorder, s)).1.calls
        ≡ false
      → Stored evs pipeline_err (
          finalize fails encode_plan encode_citations session_id pipeline_err
            (record_all fails encode_plan encode_citations session_id evs (new_recorder, s)))
  unfolding finalize complete_session
  finalize-Stored evs pipeline_err s o online =
      let y = record_all fails encode_plan encode_citations session_id evs (new_recorder, s) in
      let all = record_all-Recorded evs new_recorder s o in
      rw (finalize, complete_session, online, all.opened.there)
        (record {
          row = _;
          there = lookup-insert_self session_id _ y.1.sessions;
          report = all.report;
          status =
              ap (λ b. if b && is_none pipeline_err then session_completed else session_failed)
                all.pipeline_ok;
        })
