-- ===== src/Recorder.antt =====
-- internal/server/research_recorder.go. json.Marshal of a plan and of citations are parameters, and
-- so is which statements fail. The warnings and the mutex are left out: one goroutine makes all calls.
pub mod Order
pub mod Tokens
pub mod Session
pub mod Readback
mod Samples
use go_research.Prelude.{
  ℕ, zero, ◌+◌, Bool, true, false, ◌&&◌, Option, none, some, List, [], ◌∷◌, ◌++◌, Str, codes,
  str_eq, if◌then◌else◌,
}
use go_research.Prelude.Int.{ℤ, pos}
use go_research.Planner.{Subtask}
use go_research.Researcher.Attempts.{Citation}
use go_research.Orchestrator.{
  Event, plan_event, node_started, search_round, critic_review, node_finished, node_failed,
  writer_token, done, error,
}
use go_research.Store.{
  Store, TaskRecord, TaskStatus, task_pending, task_running, task_done, task_failed,
  session_completed, session_failed, save_plan, upsert_task, complete_session,
}

-- The fields that change.
pub record Recorder : Type 0 where
  pub plan_json : Option Str
  pub report : Str
  pub elapsed_ms : ℤ
  pub char_count : ℤ
  pub pipeline_ok : Bool
  pub fail_msg : Str

-- `newResearchRecorder`
abbrev pub new_recorder : Recorder
new_recorder = record {
  plan_json = none;
  report = [];
  elapsed_ms = pos 0;
  char_count = pos 0;
  pipeline_ok = false;
  fail_msg = [];
}

abbrev pub is_none : Option Str → Bool
is_none none = true
is_none (some _) = false

abbrev pub task_record : Str → Str → TaskStatus → ℕ → TaskRecord
task_record task_id question status sort_order = record {
  task_id = task_id;
  question = question;
  status = status;
  findings = [];
  citations = [];
  elapsed_ms = none;
  error_message = [];
  sort_order = sort_order;
}

abbrev pub staged : (stage message : Str) → Str
staged [] message = message
staged (c ∷ s) message = (c ∷ s) ++ codes ": " ++ message

abbrev pub done_record : Str → Str → Str → Str → ℤ → TaskRecord
done_record task_id question findings citations elapsed = record {
  task_id = task_id;
  question = question;
  status = task_done;
  findings = findings;
  citations = citations;
  elapsed_ms = some elapsed;
  error_message = [];
  sort_order = 0;
}

-- The event has no question, and the record gets none.
abbrev pub failed_record : Str → Str → TaskRecord
failed_record task_id err = record {
  task_id = task_id;
  question = [];
  status = task_failed;
  findings = [];
  citations = [];
  elapsed_ms = none;
  error_message = err;
  sort_order = 0;
}

-- The message that `Finalize` stores.
abbrev pub failure : Option Str → Str → Str
failure none fail_msg = fail_msg
failure (some text) [] = text
failure (some text) (c ∷ s) = c ∷ s

module _ (fails : ℕ → Bool) (session_id : Str) where
  -- The loop over the subtasks, from index `i` on.
  pub seed_tasks : ℕ → List Subtask → Store → Store
  unfolding upsert_task
  seed_tasks i [] s = s
  seed_tasks i (st ∷ sts) s =
      seed_tasks (i + 1) sts
        (upsert_task fails session_id (task_record st.id st.question task_pending i) s).1

module _ (fails : ℕ → Bool) (encode_plan : Str → List Subtask → Option Str)
    (encode_citations : List Citation → Str) (session_id : Str) where
  -- `OnEvent`
  unfoldable pub on_event : Event → Recorder × Store → Recorder × Store
  unfolding seed_tasks save_plan upsert_task
  on_event (plan_event question subtasks) (r, s) = elim (encode_plan question subtasks) [
    | none ↦ (r, s)
    | some raw ↦ (
      record {
        plan_json = some raw;
        report = r.report;
        elapsed_ms = r.elapsed_ms;
        char_count = r.char_count;
        pipeline_ok = r.pipeline_ok;
        fail_msg = r.fail_msg;
      },
      seed_tasks fails session_id 0 subtasks (save_plan fails session_id raw s).1,
    )
  ]
  on_event (node_started id question attempt) (r, s) =
      (r, (upsert_task fails session_id (task_record id question task_running 0) s).1)
  on_event (node_finished id question findings citations elapsed) (r, s) =
      let rec = done_record id question findings (encode_citations citations) elapsed in
      (r, (upsert_task fails session_id rec s).1)
  on_event (node_failed id err) (r, s) =
      (r, (upsert_task fails session_id (failed_record id err) s).1)
  on_event (writer_token delta) (r, s) = (
    record {
      plan_json = r.plan_json;
      report = r.report ++ delta;
      elapsed_ms = r.elapsed_ms;
      char_count = r.char_count;
      pipeline_ok = r.pipeline_ok;
      fail_msg = r.fail_msg;
    },
    s,
  )
  on_event (done elapsed chars) (r, s) = (
    record {
      plan_json = r.plan_json;
      report = r.report;
      elapsed_ms = elapsed;
      char_count = chars;
      pipeline_ok = true;
      fail_msg = r.fail_msg;
    },
    s,
  )
  on_event (error stage message) (r, s) = (
    record {
      plan_json = r.plan_json;
      report = r.report;
      elapsed_ms = r.elapsed_ms;
      char_count = r.char_count;
      pipeline_ok = r.pipeline_ok;
      fail_msg = staged stage message;
    },
    s,
  )
  on_event (search_round id round query result_count) (r, s) = (r, s)
  on_event (critic_review id attempt score pass feedback) (r, s) = (r, s)

  -- The events of a run, one after the other (the loop of handler_research.go).
  unfoldable pub record_all : List Event → Recorder × Store → Recorder × Store
  unfolding on_event
  record_all [] x = x
  record_all (ev ∷ evs) x = record_all evs (on_event ev x)

  -- `Finalize`, given the text of the pipeline's error, if there is one.
  unfoldable pub finalize : Option Str → Recorder × Store → Store
  unfolding complete_session
  finalize pipeline_err (r, s) =
      let ok = r.pipeline_ok && is_none pipeline_err in
      let status = if ok then session_completed else session_failed in
      (complete_session fails session_id status r.report r.elapsed_ms r.char_count
        (failure pipeline_err r.fail_msg) s).1
