-- ===== src/Orchestrator/Engine/Phases.antt =====
-- The stages of the events that `Run` of internal/agent/orchestrator/orchestrator.go sends.
use go_research.Prelude.{
  ℕ, ◌+◌, ◌≡◌, refl, ◌⊎◌, inl, inr, Option, none, some, List, [], ◌∷◌, ◌++◌, Str, length, arith,
  Option-cases, Sum-cases, subst, Map,
}
use go_research.Llm.{Message, message, system, user}
use go_research.Dag.Types
use go_research.Dag.Types.{Result}
use go_research.Researcher.Attempts.{Findings}
use go_research.Writer
use go_research.Writer.{Received, eof, recv_failed, chunk, build_prompt}
use go_research.Orchestrator.{
  Event, plan_event, node_started, search_round, critic_review, node_finished, node_failed,
  writer_token, done, error,
}
use go_research.Orchestrator.Engine.{
  bridge, Activity, of_node, searched, reviewed, show, show_all, Tokens, on_token,
}

-- The stage that an event belongs to.
abbrev pub phase : Event → ℕ
phase (plan_event q sts) = 0
phase (node_started id q n) = 1
phase (search_round id n q c) = 1
phase (critic_review id n s p f) = 1
phase (node_finished id q f cs t) = 1
phase (node_failed id e) = 1
phase (writer_token d) = 2
phase (done t n) = 3
phase (error s m) = 3

abbrev pub InPhase : ℕ → List Event → Type 0
InPhase n [] = Unit
InPhase n (e ∷ es) = (phase e ≡ n) × InPhase n es

abbrev pub delta_bytes : Event → ℕ
delta_bytes (writer_token d) = length d
delta_bytes e = 0

-- The bytes of the report that the events carry.
abbrev pub token_bytes : List Event → ℕ
token_bytes [] = 0
token_bytes (e ∷ es) = delta_bytes e + token_bytes es

InPhase-append : (n : ℕ) (es fs : List Event) → InPhase n es → InPhase n fs → InPhase n (es ++ fs)
InPhase-append n [] fs h k = k
InPhase-append n (e ∷ es) fs h k = (h.0, InPhase-append n es fs h.1 k)

token_bytes-append :
    (es : List Event) (d : Str)
    → token_bytes (es ++ writer_token d ∷ []) ≡ token_bytes es + length d
token_bytes-append [] d = omega arith
token_bytes-append (e ∷ es) d = omega (arith, token_bytes-append es d)

abbrev Shown : Option Event → Type 0
Shown none = Unit
Shown (some e) = phase e ≡ 1

module _ {F : Type 0} (text : F → Str) (asked : Map Str) where
  bridge-Shown : (de : Types.Event Findings F) → Shown (bridge text asked de)
  unfolding bridge
  bridge-Shown de = ground arith

  show-Shown : (a : Activity F) → Shown (show text asked a)
  unfolding show
  show-Shown (of_node de) = bridge-Shown de
  show-Shown (searched id p) = refl
  show-Shown (reviewed id p) = refl

  pub show_all-InPhase : (as' : List (Activity F)) → InPhase 1 (show_all text asked as')
  unfolding show_all
  show_all-InPhase [] = tt
  show_all-InPhase (a ∷ as') = elim (Option-cases (show text asked a)) [
    | inl e ↦ rw (show_all, e) (show_all-InPhase as')
    | inr (x, e) ↦ rw (show_all, e) (subst Shown e (show-Shown a), show_all-InPhase as')
  ]

-- What the writer's handler has sent: tokens, whose bytes it has counted.
abbrev pub Counts : Tokens → Type 0
Counts s = InPhase 2 s.sent × (s.chars ≡ token_bytes s.sent)

module _ {C : Type 0} (ctx_err : ℕ → Option C) where
  on_token-Counts : (d : Str) (s : Tokens) → Counts s → Counts (on_token ctx_err d s).1
  unfolding on_token
  on_token-Counts d s h = (
    InPhase-append 2 s.sent (writer_token d ∷ []) h.0 (refl, tt),
    omega (arith, h.1, token_bytes-append s.sent d),
  )

  receive-Counts :
      {E : Type 0} (r : Received E) (full : Str) (s : Tokens)
      → Counts s
      → Counts (Writer.receive (on_token ctx_err) r full s).2
  unfolding Writer.receive on_token
  receive-Counts eof full s h = h
  receive-Counts (recv_failed e) full s h = h
  receive-Counts (chunk none rest) full s h = receive-Counts rest full s h
  receive-Counts (chunk (some []) rest) full s h = receive-Counts rest full s h
  receive-Counts (chunk (some (c ∷ d)) rest) full s h =
      elim (Option-cases (ctx_err (length s.sent))) [
        | inl go ↦
            rw (Writer.receive, go)
              (receive-Counts rest (full ++ c ∷ d) (on_token ctx_err (c ∷ d) s).1
                (on_token-Counts (c ∷ d) s h))
        | inr (e, stop) ↦ rw (Writer.receive, stop) (on_token-Counts (c ∷ d) s h)
      ]

  pub stream-Counts :
      {E : Type 0} (open_stream : List Message → E ⊎ Received E) (system_prompt question : Str)
      (findings : List Findings)
      → Counts
          (Writer.stream
            (on_token ctx_err)
            open_stream
            system_prompt
            question
            findings
            (record { chars = 0; sent = [] })).2
  unfolding Writer.stream
  stream-Counts open_stream system_prompt question [] = (tt, refl)
  stream-Counts open_stream system_prompt question (f ∷ fs) =
      elim (Sum-cases (
        open_stream
          (message system system_prompt ∷ message user (build_prompt question (f ∷ fs)) ∷ []))) [
            | inl (e, bad) ↦ rw (Writer.stream, bad) (tt, refl)
            | inr (r, good) ↦
                rw (Writer.stream, good)
                  (receive-Counts r [] (record { chars = 0; sent = [] }) (tt, refl))
          ]
