-- ===== src/Server/History/Samples.antt =====
-- A session that is researched and then read, under internal/server.
use go_research.Prelude.{
  ℕ, Bool, true, false, ◌≡◌, refl, Option, none, some, List, [], ◌∷◌, Str, codes, lookup, leb,
  length, arith, str_eq, sym, ◌∙◌, inl, inr, In, reverse,
}
use mathlib.Core.List.{Perm, reverse_perm}
use go_research.Prelude.Int.{pos}
use go_research.Planner.{Subtask}
use go_research.Researcher.Attempts.{Citation}
use go_research.Orchestrator.{Event}
use go_research.Orchestrator.Engine.Samples.{engine}
use go_research.Store.{Store, SessionRow, session_running}
use go_research.Store.Queries.{SessionSummary}
use go_research.Server.History.{refused, handle_research_get}
use go_research.Server.History.{handle_research_list}
use go_research.Server.History.Paged.{Whole, walk, walk-Whole}
use go_research.Server.History.Remembered.{Remembered, handle_research_get-Remembered}

abbrev online : ℕ → Bool
online n = false

abbrev stays : ℕ → Bool
stays n = true

abbrev encode_plan : Str → List Subtask → Option Str
encode_plan question subtasks = some question

abbrev encode_citations : List Citation → Str
encode_citations cs = codes "[]"

abbrev encode : Event → Str
encode ev = codes "{}"

abbrev encode_id : Str → Str
encode_id id = id

abbrev decode : Str → Option Str
decode body = some body

abbrev error_text : ℕ → Str
error_text n = codes "connection lost"

abbrev created_at : Str → ℕ
created_at [] = 0
created_at (c ∷ s) = c

abbrev completed_at : Str → Option ℕ
completed_at id = none

-- The collation puts shorter IDs first.
abbrev collates : Str → Str → Bool
collates a b = leb (length a) (length b)

collates_total : (a b : Str) → collates a b ≡ false → collates b a ≡ true
collates_total a b h = ground arith

collates_trans : (a b c : Str) → collates a b ≡ true → collates b c ≡ true → collates a c ≡ true
collates_trans a b c h k = ground arith

abbrev is_uuid : Str → Bool
is_uuid id = true

abbrev empty : Store
empty = record { sessions = []; tasks = []; calls = 0 }

no_session : lookup (codes "s") empty.sessions ≡ none
unfolding lookup
no_session = refl

not_found :
    (handle_research_get online error_text created_at completed_at collates is_uuid
      (codes "s")
      (some empty)).0
    ≡ refused 404 (codes "session not found")
unfolding handle_research_get lookup str_eq
not_found = refl

-- What is no UUID is a database error.
no_uuid :
    (handle_research_get online error_text created_at completed_at collates
      (λ id. false)
      (codes "s")
      (some empty)).0
    ≡ refused 500 (codes "connection lost")
unfolding handle_research_get str_eq
no_uuid = refl

handle_research_get-Remembered_example :
    Remembered
      (λ limit. engine)
      tt
      online
      (λ n. refl)
      encode_plan
      encode_citations
      encode
      stays
      (codes "s")
      decode
      encode_id
      (pos 600)
      (codes "q")
      (codes "q")
      empty
      error_text
      created_at
      completed_at
      collates
      is_uuid
handle_research_get-Remembered_example =
    handle_research_get-Remembered (λ limit. engine) tt online (λ n. refl) encode_plan
      encode_citations encode stays (codes "s") decode encode_id (pos 600) (codes "q") (codes "q")
      empty error_text created_at completed_at collates is_uuid refl (λ h. cc) (λ h. cc) no_session
      (λ n. refl) refl collates_total collates_trans

abbrev row : SessionRow
row = record {
  question = codes "q";
  status = session_running;
  plan = none;
  report = [];
  elapsed_ms = none;
  char_count = none;
  error_message = none;
}

abbrev three : Store
three = record {
  sessions = (codes "b", row) ∷ (codes "c", row) ∷ (codes "a", row) ∷ [];
  tasks = [];
  calls = 0;
}

-- A query comes to the rows in the opposite order.
abbrev turned : ℕ → List SessionSummary → List SessionSummary
turned n items = reverse items

turned-Perm : (n : ℕ) (items : List SessionSummary) → Perm (turned n items) items
turned-Perm n items = reverse_perm items

times :
    (a b : Str × SessionRow)
    → In a three.sessions
    → In b three.sessions
    → created_at a.0 ≡ created_at b.0
    → a ≡ b
times a b (inl e) (inl f) h = e ∙ sym f
times a b (inl e) (inr (inl f)) h = absurd (let k = rw (e, f) at h in omega (arith, k))
times a b (inl e) (inr (inr (inl f))) h = absurd (let k = rw (e, f) at h in omega (arith, k))
times a b (inr (inl e)) (inl f) h = absurd (let k = rw (e, f) at h in omega (arith, k))
times a b (inr (inl e)) (inr (inl f)) h = e ∙ sym f
times a b (inr (inl e)) (inr (inr (inl f))) h = absurd (let k = rw (e, f) at h in omega (arith, k))
times a b (inr (inr (inl e))) (inl f) h = absurd (let k = rw (e, f) at h in omega (arith, k))
times a b (inr (inr (inl e))) (inr (inl f)) h = absurd (let k = rw (e, f) at h in omega (arith, k))
times a b (inr (inr (inl e))) (inr (inr (inl f))) h = e ∙ sym f
times a b (inr (inr (inr i))) j h = absurd i
times a b (inl e) (inr (inr (inr j))) h = absurd j
times a b (inr (inl e)) (inr (inr (inr j))) h = absurd j
times a b (inr (inr (inl e))) (inr (inr (inr j))) h = absurd j

-- GET /api/research?offset=-1
negative_offset :
    (handle_research_list online error_text created_at completed_at turned []
      (codes "-1")
      (some three)).0
    ≡ refused 500 (codes "connection lost")
unfolding handle_research_list
negative_offset = refl

walk-Whole_example :
    Whole online
      (λ n. refl)
      error_text
      created_at
      completed_at
      turned
      turned-Perm
      three
      (walk online
        (λ n. refl)
        error_text
        created_at
        completed_at
        turned
        turned-Perm
        2
        2
        0
        (some three))
walk-Whole_example =
    walk-Whole online (λ n. refl) error_text created_at completed_at turned turned-Perm 2 2 three
      times (omega arith) (omega arith) (omega arith) (omega arith)
