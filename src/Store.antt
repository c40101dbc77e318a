-- ===== src/Store.antt =====
-- internal/store/store.go, and the statements of internal/store/postgres/research.go on the tables of
-- the sessions and the tasks. A statement either runs or fails and changes nothing: which calls fail
-- is a parameter, by the number of the call.
pub mod Upsert
pub mod Ordered
pub mod Queries
pub mod Open
use go_research.Prelude.{
  ℕ, suc, ◌+◌, Bool, true, false, Option, none, some, List, [], ◌∷◌, Str, codes, Map, lookup,
  insert, str_eq, if◌then◌else◌, ltb,
}
use go_research.Prelude.Int.{ℤ, pos, negsuc, lebℤ, ltbℤ}

pub data SessionStatus : Type 0 where
  session_running session_completed session_failed : SessionStatus

pub data TaskStatus : Type 0 where
  task_pending task_running task_done task_failed : TaskStatus

pub record TaskRecord : Type 0 where
  pub task_id : Str
  pub question : Str
  pub status : TaskStatus
  pub findings : Str
  pub citations : Str
  pub elapsed_ms : Option ℤ
  pub error_message : Str
  pub sort_order : ℕ

-- A row of research_tasks, less its key.
pub record TaskRow : Type 0 where
  pub question : Str
  pub status : TaskStatus
  pub findings : Str
  pub citations : Str
  pub elapsed_ms : Option ℤ
  pub error_message : Option Str
  pub sort_order : ℕ

-- A row of research_sessions, less its key and its times.
pub record SessionRow : Type 0 where
  pub question : Str
  pub status : SessionStatus
  pub plan : Option Str
  pub report : Str
  pub elapsed_ms : Option ℤ
  pub char_count : Option ℤ
  pub error_message : Option Str

-- The tables, the tasks by session, and the number of statements so far.
pub record Store : Type 0 where
  pub sessions : Map SessionRow
  pub tasks : Map (Map TaskRow)
  pub calls : ℕ

-- `nullIfEmpty`
abbrev pub null_if_empty : Str → Option Str
null_if_empty [] = none
null_if_empty (c ∷ s) = some (c ∷ s)

abbrev pub session_tasks : Str → Store → Map TaskRow
session_tasks session_id s = elim (lookup session_id s.tasks) [ none ↦ [] | some rows ↦ rows ]

abbrev citations_or_empty : Str → Str
citations_or_empty [] = codes "[]"
citations_or_empty (c ∷ s) = c ∷ s

-- The row that the INSERT writes, or the UPDATE on a conflict with `old`.
abbrev pub upserted : TaskRecord → Option TaskRow → TaskRow
upserted rec old = record {
  question = rec.question;
  status = rec.status;
  findings = rec.findings;
  citations = citations_or_empty rec.citations;
  elapsed_ms = rec.elapsed_ms;
  error_message = null_if_empty rec.error_message;
  sort_order = elim old [ none ↦ rec.sort_order | some row ↦ row.sort_order ];
}

module _ (fails : ℕ → Bool) where
  -- One statement, which fails or makes the tables `after`; true is a nil error.
  abbrev pub exec : Store → Store → Bool × Store
  exec s after =
      if fails s.calls
      then (false, record { sessions = s.sessions; tasks = s.tasks; calls = s.calls + 1 })
      else (true, record { sessions = after.sessions; tasks = after.tasks; calls = s.calls + 1 })

  -- The statement fails too when the key is taken.
  unfoldable pub create_session : Str → Str → Store → Bool × Store
  create_session id question s =
      let row : SessionRow = record {
        question = question;
        status = session_running;
        plan = none;
        report = [];
        elapsed_ms = none;
        char_count = none;
        error_message = none;
      } in
      elim (lookup id s.sessions) [
        | some _ ↦ (false, record { sessions = s.sessions; tasks = s.tasks; calls = s.calls + 1 })
        | none ↦
            exec s
              (record { sessions = insert id row s.sessions; tasks = s.tasks; calls = s.calls })
      ]

  -- UPDATE ... WHERE id = ...: no row, no change, and no error.
  abbrev pub update_session : Str → (SessionRow → SessionRow) → Store → Bool × Store
  update_session id change s = exec s (record {
    sessions = elim (lookup id s.sessions) [
      | none ↦ s.sessions
      | some row ↦ insert id (change row) s.sessions
    ];
    tasks = s.tasks;
    calls = s.calls;
  })

  unfoldable pub save_plan : Str → Str → Store → Bool × Store
  save_plan session_id plan s =
      update_session session_id
        (λ row. record {
          question = row.question;
          status = row.status;
          plan = some plan;
          report = row.report;
          elapsed_ms = row.elapsed_ms;
          char_count = row.char_count;
          error_message = row.error_message;
        })
        s

  -- The statement fails too when there is no such session (REFERENCES in the migration).
  unfoldable pub upsert_task : Str → TaskRecord → Store → Bool × Store
  upsert_task session_id rec s =
      let rows = session_tasks session_id s in
      let row = upserted rec (lookup rec.task_id rows) in
      elim (lookup session_id s.sessions) [
        | none ↦ (false, record { sessions = s.sessions; tasks = s.tasks; calls = s.calls + 1 })
        | some _ ↦ exec s (record {
          sessions = s.sessions;
          tasks = insert session_id (insert rec.task_id row rows) s.tasks;
          calls = s.calls;
        })
      ]

  unfoldable pub complete_session : Str → SessionStatus → Str → ℤ → ℤ → Str → Store → Bool × Store
  complete_session session_id status report elapsed_ms char_count err_msg s =
      update_session session_id
        (λ row. record {
          question = row.question;
          status = status;
          plan = row.plan;
          report = report;
          elapsed_ms = some elapsed_ms;
          char_count = some char_count;
          error_message = null_if_empty err_msg;
        })
        s

-- The LIMIT of `ListSessions`.
unfoldable pub page_limit : ℤ → ℤ
page_limit limit =
    let positive = if lebℤ limit (pos 0) then pos 20 else limit in
    if ltbℤ (pos 100) positive then pos 100 else positive
