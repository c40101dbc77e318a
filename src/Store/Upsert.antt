-- ===== src/Store/Upsert.antt =====
-- What an upsert of internal/store/postgres/research.go changes in the tasks.
use go_research.Prelude.{
  ℕ, Bool, ◌≡◌, refl, ap, ◌∙◌, inl, inr, none, some, [], Str, Map, arith, lookup, insert,
  lookup-insert, lookup-insert_self, str_eq, str_eq_iff, Option-cases, Bool-cases,
}
use go_research.Prelude.Int.{ℤ, pos, ◌≤ℤ◌}
use go_research.Store.{TaskRecord, TaskRow, Store, session_tasks, upserted, upsert_task, page_limit}

-- The task has a row, with the given place in the order.
pub record Placed (session_id task_id : Str) (place : ℕ) (s : Store) : Type 0 where
  pub row : TaskRow
  pub there : lookup task_id (session_tasks session_id s) ≡ some row
  pub order : row.sort_order ≡ place

pub session_tasks-insert :
    (session_id : Str) (rows : Map TaskRow) (tasks : Map (Map TaskRow))
    → elim (lookup session_id (insert session_id rows tasks)) [ none ↦ [] | some r ↦ r ] ≡ rows
session_tasks-insert session_id rows tasks = rw (lookup-insert_self session_id rows tasks) refl

upserted-order :
    (rec : TaskRecord) (row : TaskRow) → (upserted rec (some row)).sort_order ≡ row.sort_order
upserted-order rec row = refl

module _ (fails : ℕ → Bool) (session_id : Str) where
  pub upsert_task-Placed :
      (rec : TaskRecord) (task_id : Str) (place : ℕ) (s : Store)
      → Placed session_id task_id place s
      → Placed session_id task_id place (upsert_task fails session_id rec s).1
  unfolding upsert_task
  upsert_task-Placed rec task_id place s p =
      let rows = session_tasks session_id s in
      let old = lookup rec.task_id rows in
      let row = upserted rec old in
      elim (Option-cases (lookup session_id s.sessions)) [
        | inl absent ↦
            rw (upsert_task, absent) (record { row = p.row; there = p.there; order = p.order })
        | inr (session, found) ↦ elim (Bool-cases (fails s.calls)) [
          | inl bad ↦
              rw (upsert_task, found, bad)
                (record { row = p.row; there = p.there; order = p.order })
          | inr good ↦ elim (Bool-cases (str_eq rec.task_id task_id)) [
            | inl same ↦
                rw (upsert_task, found, good)
                  (record {
                    row = row;
                    there =
                        rw
                          (
                            session_tasks-insert session_id (insert rec.task_id row rows) s.tasks,
                            lookup-insert rec.task_id task_id row rows,
                            same,
                          )
                          refl;
                    order =
                        let there =
                          ap (λ k. lookup k rows) ((str_eq_iff rec.task_id task_id).0 same)
                          ∙ p.there in
                        rw there p.order;
                  })
            | inr other ↦
                rw (upsert_task, found, good)
                  (record {
                    row = p.row;
                    there =
                        rw
                          (
                            session_tasks-insert session_id (insert rec.task_id row rows) s.tasks,
                            lookup-insert rec.task_id task_id row rows,
                            other,
                          )
                          p.there;
                    order = p.order;
                  })
          ]
        ]
      ]

pub page_limit_bounds : (z : ℤ) → (pos 1 ≤ℤ page_limit z) × (page_limit z ≤ℤ pos 100)
unfolding page_limit
page_limit_bounds z = ground arith
