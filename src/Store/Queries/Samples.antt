-- ===== src/Store/Queries/Samples.antt =====
-- Three sessions, in the order of their times.
use go_research.Prelude.{
  ℕ, Bool, false, ◌≡◌, refl, inl, inr, Option, none, List, [], ◌∷◌, reverse, Str, codes,
}
use go_research.Prelude.Int.{pos, negsuc}
use go_research.Store.{Store, SessionRow, session_running}
use go_research.Store.Queries.{SessionSummary, summary_of, list_sessions}

abbrev online : ℕ → Bool
online n = false

abbrev error_text : ℕ → Str
error_text n = codes "connection lost"

abbrev created_at : Str → ℕ
created_at [] = 0
created_at (c ∷ s) = c

abbrev completed_at : Str → Option ℕ
completed_at id = none

abbrev row : SessionRow
row = record {
  question = codes "q";
  status = session_running;
  plan = none;
  report = [];
  elapsed_ms = none;
  char_count = none;
  error_message = none;
}

abbrev three : Store
three = record {
  sessions = (codes "b", row) ∷ (codes "c", row) ∷ (codes "a", row) ∷ [];
  tasks = [];
  calls = 0;
}

abbrev summary : Str → SessionSummary
summary id = summary_of online error_text created_at completed_at (id, row)

-- A query comes to the rows in the opposite order.
abbrev turned : ℕ → List SessionSummary → List SessionSummary
turned n items = reverse items

program : Unit {0}
unfolding list_sessions
program = tt

second_page :
    (list_sessions online error_text created_at completed_at turned (pos 2) (pos 2) three).0
    ≡ inr (summary (codes "a") ∷ [])
unfolding program
second_page = refl

-- The query string ?offset=-1 gets through to the database.
negative_offset :
    (list_sessions online error_text created_at completed_at turned (pos 2) (negsuc 0) three).0
    ≡ inl (codes "connection lost")
unfolding program
negative_offset = refl
