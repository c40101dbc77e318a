-- ===== src/Recorder/Order.antt =====
-- The order of the tasks that internal/server/research_recorder.go stores.
use go_research.Prelude.{
  ℕ, ◌+◌, Bool, false, ◌≡◌, refl, sym, ◌∙◌, inl, inr, Option, none, some, List, [], ◌∷◌, ◌++◌, Str,
  arith, Map, lookup, insert, lookup-insert, lookup-insert_self, In, length, str_eq_iff,
  Option-cases, Bool-cases, subst,
}
use go_research.Planner.{Subtask}
use go_research.Researcher.Attempts.{Citation}
use go_research.Orchestrator.{
  Event, plan_event, node_started, search_round, critic_review, node_finished, node_failed,
  writer_token, done, error,
}
use go_research.Store.{
  TaskRecord, TaskRow, SessionRow, session_tasks, upserted, Store, task_pending, task_running,
  save_plan, upsert_task,
}
use go_research.Store.Upsert.{Placed, session_tasks-insert, upsert_task-Placed}
use go_research.Recorder.{
  Recorder, task_record, done_record, failed_record, seed_tasks, on_event, record_all,
}

module _ (fails : ℕ → Bool) (session_id task_id : Str) (place : ℕ) where
  save_plan-Placed :
      (plan : Str) (s : Store)
      → Placed session_id task_id place s
      → Placed session_id task_id place (save_plan fails session_id plan s).1
  unfolding save_plan
  save_plan-Placed plan s p = elim (Bool-cases (fails s.calls)) [
    | inl bad ↦ rw (save_plan, bad) (record { row = p.row; there = p.there; order = p.order })
    | inr good ↦ rw (save_plan, good) (record { row = p.row; there = p.there; order = p.order })
  ]

  seed_tasks-Placed :
      (i : ℕ) (sts : List Subtask) (s : Store)
      → Placed session_id task_id place s
      → Placed session_id task_id place (seed_tasks fails session_id i sts s)
  unfolding seed_tasks
  seed_tasks-Placed i [] s p = p
  seed_tasks-Placed i (st ∷ sts) s p =
      let rec = task_record st.id st.question task_pending i in
      seed_tasks-Placed (i + 1) sts (upsert_task fails session_id rec s).1
        (upsert_task-Placed fails session_id rec task_id place s p)

module _ (fails : ℕ → Bool) (encode_plan : Str → List Subtask → Option Str)
    (encode_citations : List Citation → Str) (session_id task_id : Str) (place : ℕ) where
  on_event-Placed :
      (ev : Event) (r : Recorder) (s : Store)
      → Placed session_id task_id place s
      → Placed session_id task_id place
          (on_event fails encode_plan encode_citations session_id ev (r, s)).1
  unfolding on_event
  on_event-Placed (plan_event question subtasks) r s p =
      elim (Option-cases (encode_plan question subtasks)) [
        | inl bad ↦ rw (on_event, bad) p
        | inr (raw, good) ↦
            rw (on_event, good)
              (seed_tasks-Placed fails session_id task_id place 0 subtasks
                (save_plan fails session_id raw s).1
                (save_plan-Placed fails session_id task_id place raw s p))
      ]
  on_event-Placed (node_started id question attempt) r s p =
      upsert_task-Placed fails session_id (task_record id question task_running 0) task_id place s p
  on_event-Placed (node_finished id question findings citations elapsed) r s p =
      upsert_task-Placed fails session_id
        (done_record id question findings (encode_citations citations) elapsed) task_id place s p
  on_event-Placed (node_failed id err) r s p =
      upsert_task-Placed fails session_id (failed_record id err) task_id place s p
  on_event-Placed (writer_token delta) r s p = p
  on_event-Placed (done elapsed chars) r s p = p
  on_event-Placed (error stage message) r s p = p
  on_event-Placed (search_round id round query result_count) r s p = p
  on_event-Placed (critic_review id attempt score pass feedback) r s p = p

  -- Whatever events come, and whichever statements fail, a task that has a row keeps it, with its
  -- place in the order.
  pub record_all-Placed :
      (evs : List Event) (r : Recorder) (s : Store)
      → Placed session_id task_id place s
      → Placed session_id task_id place
          (record_all fails encode_plan encode_citations session_id evs (r, s)).1
  unfolding record_all
  record_all-Placed [] r s p = p
  record_all-Placed (ev ∷ evs) r s p =
      let (r', s') = on_event fails encode_plan encode_citations session_id ev (r, s) in
      record_all-Placed evs r' s' (on_event-Placed ev r s p)

abbrev pub task_ids : List Subtask → List Str
task_ids [] = []
task_ids (st ∷ sts) = st.id ∷ task_ids sts

-- The session has a row.
pub record Opened (session_id : Str) (s : Store) : Type 0 where
  pub row : SessionRow
  pub there : lookup session_id s.sessions ≡ some row

lookup-insert_other :
    (k j : Str) (row : TaskRow) (rows : Map TaskRow)
    → ¬ (k ≡ j)
    → lookup j rows ≡ none
    → lookup j (insert k row rows) ≡ none
lookup-insert_other k j row rows ne h = ground (arith, lookup-insert k j row rows, str_eq_iff k j)

module _ (fails : ℕ → Bool) (session_id : Str) (online : (n : ℕ) → fails n ≡ false) where
  upsert_task-rows :
      (rec : TaskRecord) (s : Store)
      → Opened session_id s
      → session_tasks session_id (upsert_task fails session_id rec s).1
        ≡ insert rec.task_id
            (upserted rec (lookup rec.task_id (session_tasks session_id s)))
            (session_tasks session_id s)
  unfolding upsert_task
  upsert_task-rows rec s o =
      rw (upsert_task, o.there, online s.calls) (session_tasks-insert session_id _ s.tasks)

  upsert_task-Opened :
      (rec : TaskRecord) (s : Store)
      → Opened session_id s
      → Opened session_id (upsert_task fails session_id rec s).1
  unfolding upsert_task
  upsert_task-Opened rec s o =
      rw (upsert_task, o.there, online s.calls) (record { row = o.row; there = o.there })

  seed_tasks-first :
      (before : List Subtask) (st : Subtask) (after : List Subtask) (i : ℕ) (s : Store)
      → Opened session_id s
      → ¬ In st.id (task_ids before)
      → lookup st.id (session_tasks session_id s) ≡ none
      → Placed session_id st.id
          (i + length before)
          (seed_tasks fails session_id i (before ++ st ∷ after) s)
  unfolding seed_tasks
  seed_tasks-first [] st after i s o new fresh =
      let rec = task_record st.id st.question task_pending i in
      let row = upserted rec (lookup rec.task_id (session_tasks session_id s)) in
      seed_tasks-Placed fails session_id st.id (i + 0) (i + 1) after
        (upsert_task fails session_id rec s).1
        (record {
          row = row;
          there = rw (upsert_task-rows rec s o) (lookup-insert_self st.id row _);
          order = rw fresh (omega arith);
        })
  seed_tasks-first (b ∷ before) st after i s o new fresh =
      let rec = task_record b.id b.question task_pending i in
      let s' = (upsert_task fails session_id rec s).1 in
      subst
        (λ n.
          Placed session_id st.id n (seed_tasks fails session_id (i + 1) (before ++ st ∷ after) s'))
        (omega arith)
        (seed_tasks-first before st after (i + 1) s' (upsert_task-Opened rec s o) (λ m. new (inr m))
          (rw (upsert_task-rows rec s o) (
            lookup-insert_other b.id st.id _ (session_tasks session_id s) (λ e. new (inl (sym e)))
              fresh)))

  save_plan-Opened :
      (plan : Str) (s : Store)
      → Opened session_id s
      → Opened session_id (save_plan fails session_id plan s).1
  unfolding save_plan
  save_plan-Opened plan s o =
      rw (save_plan, o.there, online s.calls)
        (record { row = _; there = lookup-insert_self session_id _ s.sessions })

  save_plan-tasks :
      (plan : Str) (s : Store)
      → session_tasks session_id (save_plan fails session_id plan s).1 ≡ session_tasks session_id s
  unfolding save_plan
  save_plan-tasks plan s = rw (save_plan, online s.calls) refl

  -- While no statement fails, a task of the plan keeps its index in the plan as its place in the
  -- order, whatever events come after the plan, for a session that has a row and no tasks yet, and a
  -- task whose ID does not stand earlier in the plan.
  pub record_all-planned :
      (encode_plan : Str → List Subtask → Option Str) (encode_citations : List Citation → Str)
      (question raw : Str) (before : List Subtask) (st : Subtask) (after : List Subtask)
      (evs : List Event) (r : Recorder) (s : Store)
      → encode_plan question (before ++ st ∷ after) ≡ some raw
      → Opened session_id s
      → session_tasks session_id s ≡ []
      → ¬ In st.id (task_ids before)
      → Placed session_id st.id
          (length before)
          (record_all fails encode_plan encode_citations session_id
            (plan_event question (before ++ st ∷ after) ∷ evs)
            (r, s)).1
  unfolding record_all on_event lookup
  record_all-planned encode_plan encode_citations question raw before st after evs r s enc o empty
        new =
      let s' = (save_plan fails session_id raw s).1 in
      let tasks = save_plan-tasks raw s ∙ empty in
      let seeded =
        seed_tasks-first before st after 0 s' (save_plan-Opened raw s o) new (rw tasks refl) in
      record_all-Placed fails encode_plan encode_citations session_id st.id (length before) evs _ _
        (rw (on_event, enc)
          (subst
            (λ n.
              Placed session_id st.id n (seed_tasks fails session_id 0 (before ++ st ∷ after) s'))
            (omega arith) seeded))
