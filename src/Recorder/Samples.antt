-- ===== src/Recorder/Samples.antt =====
-- A run of one session, recorded.
use go_research.Prelude.{
  leb, ℕ, Bool, true, false, ◌≡◌, refl, Option, none, some, List, [], ◌∷◌, Str, codes, lookup,
  insert, length, str_eq, arith,
}
use go_research.Prelude.Int.{pos}
use go_research.Planner.{Subtask}
use go_research.Researcher.Attempts.{Citation}
use go_research.Orchestrator.{Event, plan_event, node_started, node_failed, writer_token, done}
use go_research.Store.{
  Store, SessionRow, create_session, session_tasks, upsert_task, session_running, TaskRow,
  save_plan, complete_session, task_failed,
}
use go_research.Store.Upsert.{Placed}
use go_research.Recorder.{Recorder, new_recorder, record_all, finalize}
use go_research.Recorder.Order.{Opened}
use go_research.Recorder.Readback.{ReadBack, get_session-ReadBack}
use go_research.Recorder.Session.{Stored, finalize-Stored}

abbrev online : ℕ → Bool
online n = false

abbrev encode_plan : Str → List Subtask → Option Str
encode_plan question subtasks = some question

abbrev encode_citations : List Citation → Str
encode_citations cs = codes "[]"

abbrev subtask : Str → Subtask
subtask id = record { id = id; question = codes "why?"; depends_on = [] }

abbrev first : Subtask
first = subtask (codes "t1")

abbrev second : Subtask
second = subtask (codes "t2")

abbrev session : SessionRow
session = record {
  question = codes "q";
  status = session_running;
  plan = none;
  report = [];
  elapsed_ms = none;
  char_count = none;
  error_message = none;
}

abbrev created : Store
created = record { sessions = (codes "s", session) ∷ []; tasks = []; calls = 1 }

abbrev events : List Event
events =
    node_started (codes "t2") (codes "why?") (pos 1)
    ∷ node_failed (codes "t2") (codes "timeout")
    ∷ writer_token (codes "# A")
    ∷ writer_token (codes " report")
    ∷ done (pos 5) (pos 10)
    ∷ []

program : Unit {0}
unfolding create_session record_all finalize lookup insert str_eq save_plan upsert_task
    complete_session
program = tt

creation :
    create_session online (codes "s") (codes "q") (record { sessions = []; tasks = []; calls = 0 })
    ≡ (true, created)
unfolding program
creation = refl

session_found : lookup (codes "s") created.sessions ≡ some session
unfolding program
session_found = refl

created-Opened : Opened (codes "s") created
created-Opened = record { row = session; there = session_found }

no_tasks : session_tasks (codes "s") created ≡ []
unfolding program
no_tasks = refl

abbrev planned : Event
planned = plan_event (codes "q") (first ∷ second ∷ [])

abbrev recorded : Recorder × Store
recorded =
    record_all online encode_plan encode_citations (codes "s") (planned ∷ events)
      (new_recorder, created)

-- The place is kept, but the event of the failure has no question, and the row loses its own.
abbrev failed_row : TaskRow
failed_row = record {
  question = [];
  status = task_failed;
  findings = [];
  citations = codes "[]";
  elapsed_ms = none;
  error_message = some (codes "timeout");
  sort_order = 1;
}

question_lost : lookup (codes "t2") (session_tasks (codes "s") recorded.1) ≡ some failed_row
unfolding program
question_lost = refl

failed-Placed : Placed (codes "s") (codes "t2") 1 recorded.1
failed-Placed = record { row = failed_row; there = question_lost; order = refl }

finalize-Stored_example :
    Stored online encode_plan encode_citations
      (codes "s")
      (planned ∷ events)
      none
      (finalize online encode_plan encode_citations (codes "s") none recorded)
finalize-Stored_example =
    finalize-Stored online encode_plan encode_citations (codes "s") (planned ∷ events) none created
      created-Opened refl

abbrev error_text : ℕ → Str
error_text n = codes "connection lost"

abbrev created_at : Str → ℕ
created_at id = 0

abbrev completed_at : Str → Option ℕ
completed_at id = none

-- The collation puts shorter IDs first.
abbrev collates : Str → Str → Bool
collates a b = leb (length a) (length b)

collates_total : (a b : Str) → collates a b ≡ false → collates b a ≡ true
collates_total a b h = ground arith

collates_trans : (a b c : Str) → collates a b ≡ true → collates b c ≡ true → collates a c ≡ true
collates_trans a b c h k = ground arith

abbrev is_uuid : Str → Bool
is_uuid id = true

get_session-ReadBack_example :
    ReadBack online
      (λ n. refl)
      encode_plan
      encode_citations
      (codes "s")
      error_text
      created_at
      completed_at
      collates
      is_uuid
      none
      (first ∷ second ∷ [])
      (planned ∷ events)
      (finalize online encode_plan encode_citations (codes "s") none recorded)
get_session-ReadBack_example =
    get_session-ReadBack online (λ n. refl) encode_plan encode_citations (codes "s") error_text
      created_at completed_at collates is_uuid collates_total collates_trans refl (codes "q")
      (codes "q") (first ∷ second ∷ []) events none created refl created-Opened no_tasks
