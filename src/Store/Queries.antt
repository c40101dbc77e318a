-- ===== src/Store/Queries.antt =====
-- The SELECT statements of internal/store/postgres/research.go. The times of a session, which the
-- statements set to NOW(), the collation of the strings, which strings are UUIDs, and the texts of
-- the errors are the database's, hence parameters; so is the order in which a query comes to the
-- rows, in which it leaves those that stand level. A JSONB column gives back the text that it was
-- given here; PostgreSQL may change its spaces and the order of its keys. A query fails when a call
-- of it, of Scan or of Err does.
pub mod Pages
pub mod Details
mod Samples
use go_research.Prelude.{
  ℕ, ◌+◌, Bool, true, false, not, ◌&&◌, ◌||◌, ◌==◌, ltb, leb, ◌⊎◌, inl, inr, Option, none, some,
  List, [], ◌∷◌, map, Str, Map, lookup, take, drop, if◌then◌else◌,
}
use go_research.Prelude.Int.{ℤ, pos, ltbℤ, pos_part}
use go_research.Store.{
  Store, SessionRow, SessionStatus, TaskRow, TaskRecord, session_tasks, page_limit,
}
use go_research.Store.Ordered.{order_by}

pub record SessionSummary : Type 0 where
  pub id : Str
  pub question : Str
  pub status : SessionStatus
  pub created_at : ℕ
  pub elapsed_ms : Option ℤ
  pub char_count : Option ℤ
  pub completed_at : Option ℕ

pub record SessionDetail : Type 0 where
  pub summary : SessionSummary
  pub plan : Str
  pub report : Str
  pub error_message : Str
  pub tasks : List TaskRecord

-- A nil pointer is the zero value of a string; so is a NULL.
abbrev pub or_empty : Option Str → Str
or_empty none = []
or_empty (some s) = s

-- One row as `GetSession` scans it.
abbrev pub task_of : Str × TaskRow → TaskRecord
task_of (task_id, row) = record {
  task_id = task_id;
  question = row.question;
  status = row.status;
  findings = row.findings;
  citations = row.citations;
  elapsed_ms = row.elapsed_ms;
  error_message = or_empty row.error_message;
  sort_order = row.sort_order;
}

-- After one more statement, which changes nothing.
abbrev pub queried : Store → Store
queried s = record { sessions = s.sessions; tasks = s.tasks; calls = s.calls + 1 }

-- ORDER BY created_at DESC
abbrev pub newer : SessionSummary → SessionSummary → Bool
newer a b = leb b.created_at a.created_at

module _ (collates : Str → Str → Bool) where
  -- ORDER BY sort_order, task_id
  abbrev pub comes_first : TaskRecord → TaskRecord → Bool
  comes_first a b =
      ltb a.sort_order b.sort_order
      || ((a.sort_order == b.sort_order) && collates a.task_id b.task_id)

  -- The rows of the second query of `GetSession`.
  abbrev pub tasks_of : Str → Store → List TaskRecord
  tasks_of id s = order_by comes_first (map task_of (session_tasks id s))

module _ (fails : ℕ → Bool) (error_text : ℕ → Str) (created_at : Str → ℕ)
    (completed_at : Str → Option ℕ) where
  abbrev pub summary_of : Str × SessionRow → SessionSummary
  summary_of (id, row) = record {
    id = id;
    question = row.question;
    status = row.status;
    created_at = created_at id;
    elapsed_ms = row.elapsed_ms;
    char_count = row.char_count;
    completed_at = completed_at id;
  }

  -- `ListSessions`: an error's text, or the page. PostgreSQL refuses a negative OFFSET, and comes to the
  -- rows in the order that `arrange` gives for this query.
  unfoldable pub list_sessions :
      (arrange : ℕ → List SessionSummary → List SessionSummary) (limit offset : ℤ)
      → Store
      → (Str ⊎ List SessionSummary) × Store
  unfolding order_by page_limit
  list_sessions arrange limit offset s =
      let rows = order_by newer (arrange s.calls (map summary_of s.sessions)) in
      if fails s.calls || ltbℤ offset (pos 0)
      then (inl (error_text s.calls), queried s)
      else (inr (take (pos_part (page_limit limit)) (drop (pos_part offset) rows)), queried s)

  module _ (collates : Str → Str → Bool) (is_uuid : Str → Bool) where
    abbrev pub detail_of : Str → SessionRow → Store → SessionDetail
    detail_of id row s = record {
      summary = summary_of (id, row);
      plan = or_empty row.plan;
      report = row.report;
      error_message = or_empty row.error_message;
      tasks = tasks_of collates id s;
    }

    -- `GetSession`: an error's text, or none for a session that there is not. The column is a UUID, and
    -- PostgreSQL refuses to compare it with another string.
    unfoldable pub get_session : Str → Store → (Str ⊎ Option SessionDetail) × Store
    unfolding order_by
    get_session id s =
        if fails s.calls || not (is_uuid id)
        then (inl (error_text s.calls), queried s)
        else elim (lookup id s.sessions) [
          | none ↦ (inr none, queried s)
          | some row ↦
              if fails (s.calls + 1)
              then (inl (error_text (s.calls + 1)), queried (queried s))
              else (inr (some (detail_of id row s)), queried (queried s))
        ]
