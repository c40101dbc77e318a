-- ===== src/Server/Research.antt =====
-- `handleResearch` of internal/server/handler_research.go. json.Unmarshal of the body and json.Marshal of
-- the payloads, uuid.NewString, the run of the pipeline, and which writes to the client and which
-- statements fail are parameters. The events that the pipeline sends, and its error, are those of this
-- run, with the time limit and the cancellation that the handler has asked for. Logging is left out.
pub mod Served
pub mod Completed
mod Samples
use go_research.Prelude.{
  ℕ, suc, ◌+◌, Bool, true, false, ◌⊎◌, inl, inr, Option, none, some, List, [], ◌∷◌, ◌++◌, Str,
  codes, str_eq, if◌then◌else◌,
}
use go_research.Prelude.Int.{ℤ, pos, ltbℤ}
use go_research.Text.{decimal}
use go_research.Planner.{Subtask}
use go_research.Researcher.Attempts.{Citation}
use go_research.Orchestrator.{
  Event, plan_event, node_started, search_round, critic_review, node_finished, node_failed,
  writer_token, done, error,
}
use go_research.Store.{Store, create_session}
use go_research.Recorder.{Recorder, new_recorder, on_event, finalize}

-- EventType of an event
abbrev pub type_name : Event → Str
type_name (plan_event q sts) = codes "plan"
type_name (node_started id q n) = codes "node_started"
type_name (search_round id n q c) = codes "search_round"
type_name (critic_review id n s p f) = codes "critic_review"
type_name (node_finished id q f cs t) = codes "node_finished"
type_name (node_failed id e) = codes "node_failed"
type_name (writer_token d) = codes "writer_token"
type_name (done t n) = codes "done"
type_name (error s m) = codes "error"

-- An event as the client gets it.
pub record Frame : Type 0 where
  pub id : Str
  pub type : Str
  pub payload : Str

-- What the client gets: a JSON error with its status, or a stream of events.
pub data Reply : Type 0 where
  refused : (status : ℕ) (message : Str) → Reply
  streamed : List Frame → Reply

-- The time limit of the pipeline in seconds, or none.
unfoldable pub deadline : ℤ → Option ℤ
deadline seconds = if ltbℤ (pos 0) seconds then some seconds else none

-- Event number `n`, given json.Marshal of its payload.
abbrev pub frame_of : (Event → Str) → ℕ → Event → Frame
frame_of encode n ev = record { id = decimal n; type = type_name ev; payload = encode ev }

-- The recorder, when there is a store, and the store.
abbrev pub Recording : Type 0
Recording = Option (Recorder × Store)

module _ (fails : ℕ → Bool) (encode_plan : Str → List Subtask → Option Str)
    (encode_citations : List Citation → Str) (encode : Event → Str) (writes : ℕ → Bool)
    (session_id : Str) where
  abbrev pub observe : Event → Recording → Recording
  observe ev none = none
  observe ev (some x) = some (on_event fails encode_plan encode_citations session_id ev x)

  -- The loop `for ev := range events`, after `n` events. The write of event number `n` succeeds when
  -- `writes n` does; after one that fails, the rest is drained and not looked at.
  pub consume : ℕ → List Event → Recording → List Frame × Recording
  consume n [] x = ([], x)
  consume n (ev ∷ evs) x =
      let x' = observe ev x in
      let rest = consume (suc n) evs x' in
      if writes (suc n) then (frame_of encode (suc n) ev ∷ rest.0, rest.1) else ([], x')

  -- `recorder.Finalize`
  abbrev pub finish : Option Str → Recording → Option Store
  finish err none = none
  finish err (some x) = some (finalize fails encode_plan encode_citations session_id err x)

  -- The event with the ID of the session, which is number 0.
  abbrev pub session_frames : (encode_id : Str → Str) → List Frame
  session_frames encode_id =
      if writes 0
      then record { id = codes "0"; type = codes "session"; payload = encode_id session_id } ∷ []
      else []

  -- What follows when the request is well formed, and the session has been created if there is a
  -- store: the events of the pipeline, and its error.
  unfoldable pub serve_events :
      List Frame → List Event × Option Str → Recording → Reply × Option Store
  unfolding consume
  serve_events first (evs, err) x =
      let (frames, y) = consume 0 evs x in (streamed (first ++ frames), finish err y)

  -- `handleResearch`: the reply, and the store at the end. `decode` gives none for an invalid body;
  -- no store is a nil one.
  unfoldable pub handle_research :
      (decode : Str → Option Str) (encode_id : Str → Str)
      → (pipeline : Str → Option ℤ → List Event × Option Str) → (timeout : ℤ) (body : Str)
      → Option Store
      → Reply × Option Store
  unfolding deadline serve_events create_session
  handle_research decode encode_id pipeline timeout body store = elim (decode body) [
    | none ↦ (refused 400 (codes "invalid json body"), store)
    | some question ↦
        if str_eq question []
        then (refused 400 (codes "question is required"), store)
        else elim store [
          | none ↦ serve_events [] (pipeline question (deadline timeout)) none
          | some s ↦
              let (created, s') = create_session fails session_id question s in
              if created
              then serve_events (session_frames encode_id) (pipeline question (deadline timeout))
                  (some (new_recorder, s'))
              else (refused 500 (codes "failed to create session"), some s')
        ]
  ]
