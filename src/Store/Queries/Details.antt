-- ===== src/Store/Queries/Details.antt =====
-- What `GetSession` of internal/store/postgres/research.go gives back of what was stored.
use go_research.Prelude.{
  ℕ, ◌+◌, Bool, true, false, ◌≡◌, refl, sym, ◌⊎◌, inl, inr, Option, some, List, [], ◌∷◌, map, Str,
  Map, lookup, str_eq, str_eq_iff, Bool-cases, arith,
}
use mathlib.Core.List.{Perm, Mem, mem-cons_self, mem-cons_of_mem}
use mathlib.Core.List.Perm
use mathlib.Core.Option.{some-injective}
use go_research.Store.{Store, SessionRow, TaskRow, TaskRecord, session_tasks}
use go_research.Store.Ordered.{order_by-perm, order_by-IsOrdered, IsOrdered}
use go_research.Store.Upsert.{Placed}
use go_research.Store.Queries.{
  SessionDetail, summary_of, task_of, or_empty, comes_first, tasks_of, get_session,
}

Mem-map_task :
    (id : Str) (row : TaskRow) (rows : Map TaskRow)
    → lookup id rows ≡ some row
    → Mem (task_of (id, row)) (map task_of rows)
unfolding lookup
Mem-map_task id row [] h = absurd cc
Mem-map_task id row ((j, r) ∷ rows) h = elim (Bool-cases (str_eq j id)) [
  | inl same ↦
      let key : j ≡ id = (str_eq_iff j id).0 same in
      let value : r ≡ row = some-injective r row (rw same at h) in
      rw (sym key, sym value) mem-cons_self
  | inr other ↦ mem-cons_of_mem (task_of (j, r)) (Mem-map_task id row rows (rw other at h))
]

module _ (collates : Str → Str → Bool)
    (total : (a b : Str) → collates a b ≡ false → collates b a ≡ true)
    (trans : (a b c : Str) → collates a b ≡ true → collates b c ≡ true → collates a c ≡ true) where
  comes_first_total :
      (x y : TaskRecord) → comes_first collates x y ≡ false → comes_first collates y x ≡ true
  comes_first_total x y h = ground (arith, total x.task_id y.task_id)

  comes_first_trans :
      (x y z : TaskRecord)
      → comes_first collates x y ≡ true
      → comes_first collates y z ≡ true
      → comes_first collates x z ≡ true
  comes_first_trans x y z h k = ground (arith, trans x.task_id y.task_id z.task_id)

  pub tasks_of-IsOrdered :
      (id : Str) (s : Store) → IsOrdered (comes_first collates) (tasks_of collates id s)
  tasks_of-IsOrdered id s =
      order_by-IsOrdered (comes_first collates) comes_first_total comes_first_trans
        (map task_of (session_tasks id s))

module _ (fails : ℕ → Bool) (error_text : ℕ → Str) (created_at : Str → ℕ)
    (completed_at : Str → Option ℕ) (collates : Str → Str → Bool) (is_uuid : Str → Bool) where
  -- What `GetSession` gives for a session with the row.
  pub record Detailed (id : Str) (row : SessionRow) (s : Store)
      (r : (Str ⊎ Option SessionDetail) × Store) : Type 0 where
    pub detail : SessionDetail
    pub found : r.0 ≡ inr (some detail)
    pub summary : detail.summary ≡ summary_of fails error_text created_at completed_at (id, row)
    pub plan : detail.plan ≡ or_empty row.plan
    pub report : detail.report ≡ row.report
    pub error_message : detail.error_message ≡ or_empty row.error_message
    pub rows : Perm detail.tasks (map task_of (session_tasks id s))
    pub order : IsOrdered (comes_first collates) detail.tasks
    pub same_sessions : r.1.sessions ≡ s.sessions
    pub same_tasks : r.1.tasks ≡ s.tasks

  pub get_session-Detailed :
      (id : Str) (row : SessionRow) (s : Store)
      → ((a b : Str) → collates a b ≡ false → collates b a ≡ true)
      → ((a b c : Str) → collates a b ≡ true → collates b c ≡ true → collates a c ≡ true)
      → is_uuid id ≡ true
      → lookup id s.sessions ≡ some row
      → fails s.calls ≡ false
      → fails (s.calls + 1) ≡ false
      → Detailed id row s
          (get_session fails error_text created_at completed_at collates is_uuid id s)
  unfolding get_session
  get_session-Detailed id row s total trans uuid there first second =
      rw (get_session, uuid, first, there, second)
        (record {
          detail = _;
          found = refl;
          summary = refl;
          plan = refl;
          report = refl;
          error_message = refl;
          rows = order_by-perm (comes_first collates) (map task_of (session_tasks id s));
          order = tasks_of-IsOrdered collates total trans id s;
          same_sessions = refl;
          same_tasks = refl;
        })

-- The task is in the list, with the given place in the order.
pub record Listed (task_id : Str) (place : ℕ) (tasks : List TaskRecord) : Type 0 where
  pub task : TaskRecord
  pub there : Mem task tasks
  pub key : task.task_id ≡ task_id
  pub order : task.sort_order ≡ place

pub Placed-Listed :
    (session_id task_id : Str) (place : ℕ) (s : Store) (tasks : List TaskRecord)
    → Placed session_id task_id place s
    → Perm tasks (map task_of (session_tasks session_id s))
    → Listed task_id place tasks
Placed-Listed session_id task_id place s tasks p same = record {
  task = task_of (task_id, p.row);
  there = (Perm.mem_iff same).1 (Mem-map_task task_id p.row (session_tasks session_id s) p.there);
  key = refl;
  order = p.order;
}
