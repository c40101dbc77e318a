-- ===== src/Server/Research/Served.antt =====
-- What `handleResearch` (internal/server/handler_research.go) sends and stores.
use go_research.Prelude.{
  not_blank, ℕ, suc, ◌+◌, Bool, true, false, ◌≡◌, ◌≢◌, refl, inl, inr, Option, none, some, List, [],
  ◌∷◌, ◌++◌, Str, if◌then◌else◌, lookup, insert, lookup-insert_self, Bool-cases,
}
use go_research.Prelude.Int.{ℤ}
use go_research.Planner.{Subtask}
use go_research.Researcher.Attempts.{Citation}
use go_research.Orchestrator.{Event}
use go_research.Store.{Store, SessionRow, create_session, session_running}
use go_research.Recorder.{Recorder, new_recorder, on_event, record_all}
use go_research.Recorder.Order.{Opened}
use go_research.Recorder.Session.{Stored, finalize-Stored}
use go_research.Server.Research.{
  Frame, Reply, streamed, deadline, frame_of, consume, session_frames, serve_events,
  handle_research,
}

-- The row of a session that has just been created.
abbrev pub new_session : Str → SessionRow
new_session question = record {
  question = question;
  status = session_running;
  plan = none;
  report = [];
  elapsed_ms = none;
  char_count = none;
  error_message = none;
}

-- The tables when the session has been created.
abbrev pub created : (session_id question : Str) → Store → Store
created session_id question s = record {
  sessions = insert session_id (new_session question) s.sessions;
  tasks = s.tasks;
  calls = s.calls + 1;
}

create_session-fresh :
    (fails : ℕ → Bool) (session_id question : Str) (s : Store)
    → lookup session_id s.sessions ≡ none
    → fails s.calls ≡ false
    → create_session fails session_id question s ≡ (true, created session_id question s)
unfolding create_session
create_session-fresh fails session_id question s fresh online =
    rw (create_session, fresh, online) refl

created-Opened :
    (session_id question : Str) (s : Store) → Opened session_id (created session_id question s)
created-Opened session_id question s = record {
  row = _;
  there = lookup-insert_self session_id _ s.sessions;
}

module _ (writes : ℕ → Bool) where
  -- The events that the client gets: those before the first write that fails.
  abbrev pub delivered : ℕ → List Event → List Event
  delivered n [] = []
  delivered n (ev ∷ evs) =
      let rest = delivered (suc n) evs in if writes (suc n) then ev ∷ rest else []

  -- The events that the recorder gets: one more, if a write fails.
  abbrev pub seen : ℕ → List Event → List Event
  seen n [] = []
  seen n (ev ∷ evs) = let rest = seen (suc n) evs in ev ∷ (if writes (suc n) then rest else [])

-- The frames of events, numbered from `n + 1` on.
abbrev pub numbered : (Event → Str) → ℕ → List Event → List Frame
numbered encode n [] = []
numbered encode n (ev ∷ evs) = frame_of encode (suc n) ev ∷ numbered encode (suc n) evs

module _ (fails : ℕ → Bool) (encode_plan : Str → List Subtask → Option Str)
    (encode_citations : List Citation → Str) (encode : Event → Str) (writes : ℕ → Bool)
    (session_id : Str) where
  consume-split :
      (n : ℕ) (evs : List Event) (x : Recorder × Store)
      → consume fails encode_plan encode_citations encode writes session_id n evs (some x) ≡ (
        numbered encode n (delivered writes n evs),
        some (record_all fails encode_plan encode_citations session_id (seen writes n evs) x),
      )
  unfolding consume record_all
  consume-split n [] x = refl
  consume-split n (ev ∷ evs) x =
      let rest =
        consume-split (suc n) evs (on_event fails encode_plan encode_citations session_id ev x) in
      elim (Bool-cases (writes (suc n))) [
        | inl good ↦ rw (consume, good, rest) refl
        | inr bad ↦ rw (consume, bad) refl
      ]

  module _ (decode : Str → Option Str) (encode_id : Str → Str)
      (pipeline : Str → Option ℤ → List Event × Option Str) (timeout : ℤ) (body question : Str)
      (s : Store) where
    -- What a request for the question leads to, of which the pipeline sends `evs` and returns `err`.
    pub record Served (evs : List Event) (err : Option Str) (r : Reply × Option Store)
        : Type 0 where
      pub frames :
          r.0
          ≡ streamed (
              session_frames fails encode_plan encode_citations encode writes session_id encode_id
              ++ numbered encode 0 (delivered writes 0 evs))
      pub after : Store
      pub kept : r.1 ≡ some after
      pub stored :
          Stored fails encode_plan encode_citations session_id (seen writes 0 evs) err after

    serve_events-Served :
        (evs : List Event) (err : Option Str)
        → Opened session_id (created session_id question s)
        → fails
            (record_all fails encode_plan encode_citations session_id
              (seen writes 0 evs)
              (new_recorder, created session_id question s)).1.calls
          ≡ false
        → Served evs err (
            serve_events fails encode_plan encode_citations encode writes session_id
              (session_frames fails encode_plan encode_citations encode writes session_id encode_id)
              (evs, err)
              (some (new_recorder, created session_id question s)))
    unfolding serve_events
    serve_events-Served evs err opened last =
        rw (serve_events, consume-split 0 evs (new_recorder, created session_id question s))
          (record {
            frames = refl;
            after = _;
            kept = refl;
            stored =
                finalize-Stored fails encode_plan encode_citations session_id (seen writes 0 evs)
                  err (created session_id question s) opened last;
          })

    -- A request with a question, for a session ID that is new: the client gets the ID of the session,
    -- if that write succeeds, and then the events of the pipeline, numbered from 1, up to the first that
    -- cannot be written; the row of the session holds the tokens of those events and of that one, and
    -- is completed exactly when done is among them and the pipeline returns no error. The statements
    -- that create the session and complete it do not fail.
    pub handle_research-Served :
        decode body ≡ some question
        → question ≢ []
        → lookup session_id s.sessions ≡ none
        → fails s.calls ≡ false
        → let (evs, err) = pipeline question (deadline timeout) in
          fails
              (record_all fails encode_plan encode_citations session_id
                (seen writes 0 evs)
                (new_recorder, created session_id question s)).1.calls
            ≡ false
          → Served evs err (
              handle_research fails encode_plan encode_citations encode writes session_id decode
                encode_id pipeline timeout body
                (some s))
    unfolding handle_research
    handle_research-Served d q fresh online last =
        let (evs, err) = pipeline question (deadline timeout) in
        rw
          (
            handle_research,
            d,
            not_blank question q,
            create_session-fresh fails session_id question s fresh online,
          )
          (serve_events-Served evs err (created-Opened session_id question s) last)
