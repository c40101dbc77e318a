-- ===== src/Server/Research/Completed.antt =====
-- `handleResearch` (internal/server/handler_research.go) with the pipeline that `Run` of
-- internal/agent/orchestrator/orchestrator.go is.
use go_research.Prelude.{
  ℕ, suc, Bool, true, false, ◌&&◌, ◌||◌, ◌≡◌, ◌≢◌, refl, sym, ap, ◌∙◌, inl, inr, Option, none, some,
  List, [], ◌∷◌, ◌++◌, Str, if◌then◌else◌, lookup, codes, subst, append_assoc,
}
use go_research.Prelude.Int.{ℤ}
use go_research.Planner.{Subtask}
use go_research.Researcher.Attempts.{Citation}
use go_research.Orchestrator.{
  Event, plan_event, node_started, search_round, critic_review, node_finished, node_failed,
  writer_token, done, error,
}
use go_research.Orchestrator.Engine.{Engine, Ended, run}
use go_research.Orchestrator.Engine.Phases.{InPhase, phase}
use go_research.Orchestrator.Engine.Story.{IsStory, Closes, IsPlan, run-IsStory}
use go_research.Store.{Store, SessionRow, session_completed, session_failed}
use go_research.Recorder.{is_none, new_recorder, record_all}
use go_research.Recorder.Tokens.{report_of, has_done, has_done-split}
use go_research.Server.Research.{Reply, streamed, deadline, handle_research}
use go_research.Server.Research.Served.{delivered, seen, numbered, created, handle_research-Served}

has_done_one : (e : Event) → phase e ≢ 3 → has_done (e ∷ []) ≡ false
has_done_one (plan_event q sts) h = refl
has_done_one (node_started i q a) h = refl
has_done_one (search_round i r q n) h = refl
has_done_one (critic_review i a sc p f) h = refl
has_done_one (node_finished i q f c e) h = refl
has_done_one (node_failed i e) h = refl
has_done_one (writer_token d) h = refl
has_done_one (done e c) h = absurd (h refl)
has_done_one (error a m) h = refl

has_done-before :
    (n : ℕ) (es fs : List Event) → n ≢ 3 → InPhase n es → has_done (es ++ fs) ≡ has_done fs
has_done-before n [] fs h k = refl
has_done-before n (e ∷ es) fs h k =
    let one = has_done_one e (λ (p : phase e ≡ 3). h (sym k.0 ∙ p)) in
    let rest = has_done-before n es fs h k.1 in
    has_done-split e (es ++ fs) ∙ ap (λ b. b || has_done (es ++ fs)) one ∙ rest

module _ {W E D F C T R : Type 0} (en : Engine W E D F C T R) where
  abbrev pub failure : Ended en → Option Str
  failure r = elim r.0 [ none ↦ none | some e ↦ some (en.error_text e) ]

  closing-done :
      (tokens : List Event) (r : Ended en) (last : Event)
      → Closes en tokens r.0 last
      → has_done (last ∷ []) ≡ is_none (failure r)
  closing-done tokens (none, es) (done ms n) h = refl
  closing-done tokens (none, es) (error stage m) h = absurd h
  closing-done tokens (none, es) (plan_event q sts) h = absurd h
  closing-done tokens (none, es) (node_started i q a) h = absurd h
  closing-done tokens (none, es) (search_round i r q n) h = absurd h
  closing-done tokens (none, es) (critic_review i a sc p f) h = absurd h
  closing-done tokens (none, es) (node_finished i q f c e) h = absurd h
  closing-done tokens (none, es) (node_failed i e) h = absurd h
  closing-done tokens (none, es) (writer_token d) h = absurd h
  closing-done tokens (some x, es) (error stage m) h = refl
  closing-done tokens (some x, es) (done ms n) h = absurd h
  closing-done tokens (some x, es) (plan_event q sts) h = absurd h
  closing-done tokens (some x, es) (node_started i q a) h = absurd h
  closing-done tokens (some x, es) (search_round i r q n) h = absurd h
  closing-done tokens (some x, es) (critic_review i a sc p f) h = absurd h
  closing-done tokens (some x, es) (node_finished i q f c e) h = absurd h
  closing-done tokens (some x, es) (node_failed i e) h = absurd h
  closing-done tokens (some x, es) (writer_token d) h = absurd h

  IsPlan-done : (planned fs : List Event) → IsPlan planned → has_done (planned ++ fs) ≡ has_done fs
  IsPlan-done [] fs h = absurd h
  IsPlan-done (plan_event q sts ∷ []) fs h = refl
  IsPlan-done (plan_event q sts ∷ e ∷ es) fs h = absurd h
  IsPlan-done (node_started i q a ∷ es) fs h = absurd h
  IsPlan-done (search_round i r q n ∷ es) fs h = absurd h
  IsPlan-done (critic_review i a sc p f ∷ es) fs h = absurd h
  IsPlan-done (node_finished i q f c e ∷ es) fs h = absurd h
  IsPlan-done (node_failed i e ∷ es) fs h = absurd h
  IsPlan-done (writer_token d ∷ es) fs h = absurd h
  IsPlan-done (done e c ∷ es) fs h = absurd h
  IsPlan-done (error a m ∷ es) fs h = absurd h

  IsStory-done : (r : Ended en) → IsStory en r → has_done r.1 ≡ is_none (failure r)
  IsStory-done r s =
      let after_activity = s.tokens ++ s.last ∷ [] in
      let after_plan = s.activity ++ after_activity in
      let started : has_done (s.planned ++ after_plan) ≡ has_done after_plan = elim s.first [
        | inl h ↦ IsPlan-done s.planned after_plan h
        | inr h ↦ ap (λ es. has_done (es ++ after_plan)) h.0
      ] in
      ap has_done (
        s.whole
        ∙ append_assoc (s.planned ++ s.activity) s.tokens (s.last ∷ [])
        ∙ append_assoc s.planned s.activity after_activity)
      ∙ started
      ∙ has_done-before 1 s.activity after_activity (λ h. cc) s.researching
      ∙ has_done-before 2 s.tokens (s.last ∷ []) (λ h. cc) s.writing
      ∙ closing-done s.tokens r s.last s.closing

  -- `Run` sends a done event exactly when it returns no error.
  pub run-done :
      (question : Str) (w : W) → let r = run en question w in has_done r.1 ≡ is_none (failure r)
  run-done question w =
      let r = run en question w in
      elim (run-IsStory en question w).0 [
        | inl (nothing, inl (empty, blank)) ↦ rw (nothing, blank) refl
        | inl (nothing, inr (asked, lacks, missing)) ↦ rw (nothing, missing) refl
        | inr (asked, equipped, s) ↦ IsStory-done r s
      ]

  status_of :
      (r : Ended en) (b : Bool)
      → b ≡ is_none (failure r)
      → (if b && is_none (failure r) then session_completed else session_failed)
        ≡ elim r.0 [ none ↦ session_completed | some _ ↦ session_failed ]
  status_of (none, es) b h = rw h refl
  status_of (some e, es) b h = rw h refl

module _ (writes : ℕ → Bool) (all : (n : ℕ) → writes n ≡ true) where
  delivered_all : (n : ℕ) (evs : List Event) → delivered writes n evs ≡ evs
  delivered_all n [] = refl
  delivered_all n (ev ∷ evs) = rw (all (suc n), delivered_all (suc n) evs) refl

  seen_all : (n : ℕ) (evs : List Event) → seen writes n evs ≡ evs
  seen_all n [] = refl
  seen_all n (ev ∷ evs) = rw (all (suc n), seen_all (suc n) evs) refl

module _ {W E D F C T R : Type 0} (en : Option ℤ → Engine W E D F C T R) (w : W) where
  -- The goroutine that runs the pipeline: what it sends, and its error.
  abbrev pub run_pipeline : Str → Option ℤ → List Event × Option Str
  run_pipeline q limit = let r = run (en limit) q w in (r.1, failure (en limit) r)

  module _ (fails : ℕ → Bool) (encode_plan : Str → List Subtask → Option Str)
      (encode_citations : List Citation → Str) (encode : Event → Str) (writes : ℕ → Bool)
      (session_id : Str) (decode : Str → Option Str) (encode_id : Str → Str) (timeout : ℤ)
      (body question : Str) (s : Store) where
    -- What `Run` returns under the time limit.
    abbrev pub ran : Ended (en (deadline timeout))
    ran = run (en (deadline timeout)) question w

    -- The whole answer, and the row of the session.
    pub record Completed (r : Reply × Option Store) : Type 0 where
      pub after : Store
      pub kept : r.1 ≡ some after
      pub row : SessionRow
      pub there : lookup session_id after.sessions ≡ some row
      pub frames :
          r.0
          ≡ streamed (
              record { id = codes "0"; type = codes "session"; payload = encode_id session_id }
              ∷ numbered encode 0 ran.1)
      pub report : row.report ≡ report_of ran.1
      pub status : row.status ≡ elim ran.0 [ none ↦ session_completed | some _ ↦ session_failed ]

    -- When the client stays, the session ID is new, and the statements that create the session and
    -- complete it do not fail: the client gets the ID of the session and all events that `Run` sends,
    -- numbered from 1; the row of the session has the tokens of the report, and its status is completed
    -- if `Run` returns no error, and failed if it returns one.
    pub handle_research-Completed :
        decode body ≡ some question
        → question ≢ []
        → lookup session_id s.sessions ≡ none
        → fails s.calls ≡ false
        → fails
            (record_all fails encode_plan encode_citations session_id ran.1
              (new_recorder, created session_id question s)).1.calls
          ≡ false
        → ((n : ℕ) → writes n ≡ true)
        → Completed (
            handle_research fails encode_plan encode_citations encode writes session_id decode
              encode_id run_pipeline timeout body
              (some s))
    handle_research-Completed d q fresh online last all =
        let last' =
          subst
            (λ evs.
              fails
                (record_all fails encode_plan encode_citations session_id evs
                  (new_recorder, created session_id question s)).1.calls
              ≡ false)
            (sym (seen_all writes all 0 ran.1)) last in
        let served =
          handle_research-Served fails encode_plan encode_citations encode writes session_id decode
            encode_id run_pipeline timeout body question s d q fresh online last' in
        record {
          after = served.after;
          kept = served.kept;
          row = served.stored.row;
          there = served.stored.there;
          frames = served.frames ∙ rw (all 0, delivered_all writes all 0 ran.1) refl;
          report = served.stored.report ∙ ap report_of (seen_all writes all 0 ran.1);
          status =
              served.stored.status
              ∙ status_of (en (deadline timeout)) ran (has_done (seen writes 0 ran.1)) (
                  ap has_done (seen_all writes all 0 ran.1)
                  ∙ run-done (en (deadline timeout)) question w);
        }
