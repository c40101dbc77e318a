-- ===== src/Recorder/Readback.antt =====
-- What internal/store/postgres/research.go gives back of a run that
-- internal/server/research_recorder.go has recorded.
use go_research.Prelude.{
  ℕ, ◌+◌, Bool, true, false, ◌≡◌, refl, sym, ap, ◌∙◌, inl, inr, Option, none, some, List, [], ◌∷◌,
  ◌++◌, Str, lookup, In, length, Bool-cases, subst,
}
use go_research.Prelude.Int.{ℤ}
use go_research.Planner.{Subtask}
use go_research.Researcher.Attempts.{Citation}
use go_research.Orchestrator.{Event, plan_event}
use go_research.Store.{Store, SessionStatus, session_tasks, complete_session}
use go_research.Store.Upsert.{Placed}
use go_research.Store.Queries.{get_session}
use go_research.Store.Queries.Details.{Detailed, Listed, Placed-Listed, get_session-Detailed}
use go_research.Recorder.{Recorder, new_recorder, record_all, finalize}
use go_research.Recorder.Order.{Opened, task_ids, record_all-planned}
use go_research.Recorder.Session.{Stored, finalize-Stored}

complete_session-tasks :
    (fails : ℕ → Bool) (id : Str) (status : SessionStatus) (report : Str) (elapsed chars : ℤ)
    (message : Str) (s : Store)
    → (complete_session fails id status report elapsed chars message s).1.tasks ≡ s.tasks
unfolding complete_session
complete_session-tasks fails id status report elapsed chars message s =
    elim (Bool-cases (fails s.calls)) [
      | inl bad ↦ rw (complete_session, bad) refl
      | inr good ↦ rw (complete_session, good) refl
    ]

Placed-same_tasks :
    (session_id task_id : Str) (place : ℕ) (s s' : Store)
    → s'.tasks ≡ s.tasks
    → Placed session_id task_id place s
    → Placed session_id task_id place s'
Placed-same_tasks session_id task_id place s s' same p = record {
  row = p.row;
  there =
      ap (λ tasks. lookup task_id (elim (lookup session_id tasks) [ none ↦ [] | some rows ↦ rows ]))
        same
      ∙ p.there;
  order = p.order;
}

module _ (fails : ℕ → Bool) (online : (n : ℕ) → fails n ≡ false)
    (encode_plan : Str → List Subtask → Option Str) (encode_citations : List Citation → Str)
    (session_id : Str) where
  finalize-tasks :
      (err : Option Str) (x : Recorder × Store)
      → (finalize fails encode_plan encode_citations session_id err x).tasks ≡ x.1.tasks
  unfolding finalize
  finalize-tasks err x = complete_session-tasks fails session_id _ _ _ _ _ x.1

  planned-Placed :
      (question raw : Str) (plan before : List Subtask) (st : Subtask) (rest : List Subtask)
      (evs : List Event) (s : Store)
      → plan ≡ before ++ st ∷ rest
      → encode_plan question plan ≡ some raw
      → Opened session_id s
      → session_tasks session_id s ≡ []
      → ¬ In st.id (task_ids before)
      → Placed session_id st.id
          (length before)
          (record_all fails encode_plan encode_citations session_id
            (plan_event question plan ∷ evs)
            (new_recorder, s)).1
  planned-Placed question raw plan before st rest evs s split enc o empty new =
      subst
        (λ sts.
          Placed session_id st.id (length before)
            (record_all fails encode_plan encode_citations session_id
              (plan_event question sts ∷ evs) (new_recorder, s)).1)
        (sym split)
        (record_all-planned fails session_id online encode_plan encode_citations question raw before
          st rest evs new_recorder s (sym (ap (encode_plan question) split) ∙ enc) o empty new)

  module _ (error_text : ℕ → Str) (created_at : Str → ℕ) (completed_at : Str → Option ℕ)
      (collates : Str → Str → Bool) (is_uuid : Str → Bool) where
    -- What the query gives after a run of the plan: the row, and each subtask at its place.
    pub record ReadBack (err : Option Str) (plan : List Subtask) (evs : List Event) (after : Store)
        : Type 0 where
      pub stored : Stored fails encode_plan encode_citations session_id evs err after
      pub shown :
          Detailed fails error_text created_at completed_at collates is_uuid session_id stored.row
            after
            (get_session fails error_text created_at completed_at collates is_uuid session_id after)
      pub listed :
          (before : List Subtask) (st : Subtask) (rest : List Subtask)
          → plan ≡ before ++ st ∷ rest
          → ¬ In st.id (task_ids before)
          → Listed st.id (length before) shown.detail.tasks

    -- While no statement fails, for a session that has a row and no tasks, whose ID is a UUID, and a run
    -- that starts with a plan that can be encoded, whatever events follow: after `Finalize`,
    -- `GetSession` gives the row of the session, with the writer's tokens as its report, completed
    -- if done was sent and the pipeline returned no error, and failed otherwise; and it gives the rows of
    -- its tasks, once each, by place and then by ID. Among them is each subtask of the plan whose ID does
    -- not stand earlier in the plan, with its index as its place. The collation is total and transitive.
    pub get_session-ReadBack :
        ((a b : Str) → collates a b ≡ false → collates b a ≡ true)
        → ((a b c : Str) → collates a b ≡ true → collates b c ≡ true → collates a c ≡ true)
        → is_uuid session_id ≡ true
        → (question raw : Str) (plan : List Subtask) (evs : List Event) (err : Option Str)
          (s : Store)
        → encode_plan question plan ≡ some raw
        → Opened session_id s
        → session_tasks session_id s ≡ []
        → ReadBack err plan (plan_event question plan ∷ evs) (
            finalize fails encode_plan encode_citations session_id err (
              record_all fails encode_plan encode_citations session_id
                (plan_event question plan ∷ evs)
                (new_recorder, s)))
    get_session-ReadBack total trans uuid question raw plan evs err s enc o empty =
        let all = plan_event question plan ∷ evs in
        let x = record_all fails encode_plan encode_citations session_id all (new_recorder, s) in
        let after = finalize fails encode_plan encode_citations session_id err x in
        let stored =
          finalize-Stored fails encode_plan encode_citations session_id all err s o
            (online x.1.calls) in
        let shown =
          get_session-Detailed fails error_text created_at completed_at collates is_uuid session_id
            stored.row after total trans uuid stored.there (online after.calls)
            (online (after.calls + 1)) in
        record {
          stored = stored;
          shown = shown;
          listed = λ before st rest split new.
              Placed-Listed session_id st.id (length before) after shown.detail.tasks
                (Placed-same_tasks session_id st.id (length before) x.1 after (finalize-tasks err x)
                  (planned-Placed question raw plan before st rest evs s split enc o empty new))
                shown.rows;
        }
