-- ===== src/Server/History.antt =====
-- internal/server/handler_history.go, with the parameters of the queries. No store is a nil one;
-- `ok` is the status 200, with what c.JSON gets.
pub mod Remembered
pub mod Paged
mod Samples
use go_research.Prelude.{
  ℕ, Bool, ◌⊎◌, inl, inr, Option, none, some, List, [], Str, codes, str_eq, if◌then◌else◌,
}
use go_research.Prelude.Int.{ℤ}
use go_research.Text.Decimal.{atoi}
use go_research.Store.{Store}
use go_research.Store.Queries.{SessionSummary, SessionDetail, list_sessions, get_session}

pub data Answer (A : Type 0) : Type 0 where
  refused : (status : ℕ) (message : Str) → Answer A
  ok : A → Answer A

abbrev no_store : {A : Type 0} → Answer A
no_store = refused 503 (codes "persistence disabled (postgres not connected)")

module _ (fails : ℕ → Bool) (error_text : ℕ → Str) (created_at : Str → ℕ)
    (completed_at : Str → Option ℕ) where
  -- `handleResearchList`
  unfoldable pub handle_research_list :
      (arrange : ℕ → List SessionSummary → List SessionSummary) (limit offset : Str)
      → Option Store
      → Answer (List SessionSummary) × Option Store
  unfolding list_sessions atoi
  handle_research_list arrange limit offset none = (no_store, none)
  handle_research_list arrange limit offset (some s) =
      let (items, s') =
        list_sessions fails error_text created_at completed_at arrange (atoi limit) (atoi offset)
          s in
      elim items [ inl e ↦ (refused 500 e, some s') | inr page ↦ (ok page, some s') ]

  -- `handleResearchGet`
  unfoldable pub handle_research_get :
      (collates : Str → Str → Bool) (is_uuid : Str → Bool) (id : Str)
      → Option Store
      → Answer SessionDetail × Option Store
  unfolding get_session
  handle_research_get collates is_uuid id none = (no_store, none)
  handle_research_get collates is_uuid id (some s) =
      if str_eq id []
      then (refused 400 (codes "id is required"), some s)
      else let (found, s') =
          get_session fails error_text created_at completed_at collates is_uuid id s in
        elim found [
          | inl e ↦ (refused 500 e, some s')
          | inr none ↦ (refused 404 (codes "session not found"), some s')
          | inr (some detail) ↦ (ok detail, some s')
        ]
