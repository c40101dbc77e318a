-- ===== src/Server/Research/Samples.antt =====
-- Two requests for the route POST /api/v1/research: a client that leaves, and one that stays.
use go_research.Prelude.{
  ℕ, Bool, true, false, ltb, ◌≡◌, ◌≢◌, refl, Option, none, some, List, [], ◌∷◌, Str, codes, lookup,
}
use go_research.Prelude.Int.{ℤ, pos}
use go_research.Planner.{Subtask}
use go_research.Researcher.Attempts.{Citation}
use go_research.Orchestrator.{Event, writer_token, done}
use go_research.Orchestrator.Engine.Samples.{engine}
use go_research.Store.{Store}
use go_research.Server.Research.{handle_research}
use go_research.Server.Research.Served.{Served, delivered, seen, handle_research-Served}
use go_research.Server.Research.Completed.{Completed, run_pipeline, handle_research-Completed}

abbrev online : ℕ → Bool
online n = false

abbrev encode_plan : Str → List Subtask → Option Str
encode_plan question subtasks = some question

abbrev encode_citations : List Citation → Str
encode_citations cs = codes "[]"

abbrev encode : Event → Str
encode ev = codes "{}"

abbrev encode_id : Str → Str
encode_id id = id

abbrev decode : Str → Option Str
decode body = some body

-- The third write fails.
abbrev writes : ℕ → Bool
writes n = ltb n 2

abbrev empty : Store
empty = record { sessions = []; tasks = []; calls = 0 }

abbrev events : List Event
events = writer_token (codes "# A") ∷ writer_token (codes " report") ∷ done (pos 5) (pos 10) ∷ []

abbrev pipeline : Str → Option ℤ → List Event × Option Str
pipeline question limit = (events, none)

no_session : lookup (codes "s") empty.sessions ≡ none
unfolding lookup
no_session = refl

asked : codes "q" ≢ []
asked h = cc

one_sent : delivered writes 0 events ≡ writer_token (codes "# A") ∷ []
one_sent = refl

-- The run is over without an error, and the report has two of the tokens, but done is not recorded.
two_seen : seen writes 0 events ≡ writer_token (codes "# A") ∷ writer_token (codes " report") ∷ []
two_seen = refl

handle_research-Served_example :
    Served online encode_plan encode_citations encode writes
      (codes "s")
      decode
      encode_id
      pipeline
      (pos 600)
      (codes "q")
      (codes "q")
      empty
      events
      none
      (handle_research online encode_plan encode_citations encode writes
        (codes "s")
        decode
        encode_id
        pipeline
        (pos 600)
        (codes "q")
        (some empty))
handle_research-Served_example =
    handle_research-Served online encode_plan encode_citations encode writes (codes "s") decode
      encode_id pipeline (pos 600) (codes "q") (codes "q") empty refl asked no_session refl refl

abbrev stays : ℕ → Bool
stays n = true

handle_research-Completed_example :
    Completed
      (λ limit. engine)
      tt
      online
      encode_plan
      encode_citations
      encode
      stays
      (codes "s")
      decode
      encode_id
      (pos 600)
      (codes "q")
      (codes "q")
      empty
      (handle_research online encode_plan encode_citations encode stays
        (codes "s")
        decode
        encode_id
        (run_pipeline (λ limit. engine) tt)
        (pos 600)
        (codes "q")
        (some empty))
handle_research-Completed_example =
    handle_research-Completed (λ limit. engine) tt online encode_plan encode_citations encode stays
      (codes "s") decode encode_id (pos 600) (codes "q") (codes "q") empty refl asked no_session
      refl refl (λ n. refl)
