-- ===== src/Dag/Worker/Shape.antt =====
-- The events of `execute` (internal/agent/dag/scheduler.go), whatever the outside does.
use go_research.Prelude.{
  ℕ, zero, suc, ◌+◌, ◌≤◌, ◌<◌, ◌∙◌, ◌≡◌, refl, ap, ◌⊎◌, inl, inr, Bool, true, false, Option, none,
  some, List, [], ◌∷◌, arith, if◌then◌else◌, Option-cases,
}
use native.Mathlib.Decide.{dec_le}
use go_research.Prelude.Int.{ℤ, pos, ltbℤ, max_int}
use go_research.Dag.Types.{
  EventType, node_started, node_succeeded, node_failed, node_retrying, Event,
}
use go_research.Dag.Worker.{
  Failure, RunOutcome, returns, fails, panics, Scheduler, Task, safe_run, Environment, Execution,
  attempts, run_attempt, after_failure, execute, exhausted, rounds_of, rounds_of_lem, after, event,
  failure_msg, success_msg, limited, context,
}

-- What happened, and in which attempt.
abbrev pub Note : Type 0
Note = EventType × ℤ

-- The notes of the attempts from `a` on, the last of which is `last`; the flag says whether the
-- message that follows reports a success.
pub data Story (last : ℕ) : ℕ → List Note → Bool → Type 0 where
  -- stopped before the attempt, or with no attempt left
  stopped : {a : ℕ} → Story last a [] false
  succeeded :
      {a : ℕ} → a ≤ last → Story last a ((node_started, pos a) ∷ (node_succeeded, pos a) ∷ []) true
  failed :
      {a : ℕ} → a ≡ last → Story last a ((node_started, pos a) ∷ (node_failed, pos a) ∷ []) false
  again :
      {a : ℕ} {notes : List Note} {ok : Bool}
      → suc a ≤ last
      → Story last (a + 1) notes ok
      → Story last a ((node_started, pos a) ∷ (node_retrying, pos a) ∷ notes) ok

abbrev pub is_none {ℓ} : {A : Type ℓ} → Option A → Bool
is_none none = true
is_none (some _) = false

pub RunOutcome-cases :
    {V E : Type 0} (o : RunOutcome V E)
    → ((v : Option V) × (o ≡ returns v)) ⊎ ((e : E) × (o ≡ fails e)) ⊎ ((e : E) × (o ≡ panics e))
RunOutcome-cases (returns v) = inl (v, refl)
RunOutcome-cases (fails e) = inr (inl (e, refl))
RunOutcome-cases (panics e) = inr (inr (e, refl))

module _ {V E : Type 0} where
  abbrev pub notes : List (Event (Option V) (Failure E)) → List Note
  notes [] = []
  notes (e ∷ es) = (e.type, e.attempt) ∷ notes es

  abbrev pub Tells : ℕ → ℕ → Execution V E → Type 0
  Tells last a x = Story last a (notes x.events) (is_none x.msg.err)

  module _ (s : Scheduler) (env : Environment E) (t : Task V E) (m : ℕ)
      (budget : t.node.max_retry ≡ pos m) (fits : m < max_int) where
    -- The same, once `node_started` is out.
    abbrev Continues : ℕ → Execution V E → Type 0
    Continues a x = Story (m + 1) a ((node_started, pos a) ∷ notes x.events) (is_none x.msg.err)

    abbrev sleep : ℕ → Option E
    sleep a = if ltbℤ (pos 0) (s.backoff (pos a)) then (env a).interrupted else none

    module _ (a : ℕ) (e : Failure E) (rest : Failure E → Execution V E) where
      after_failure-last :
          ¬ (a ≤ m)
          → after_failure s env t a e rest
            ≡ after
                (event node_failed t.node a none (some e) (env a).elapsed ∷ [])
                (exhausted s env t (some e))
      unfolding after_failure
      after_failure-last h = ground arith

      after_failure-slept :
          a ≤ m
          → sleep a ≡ none
          → after_failure s env t a e rest
            ≡ after (event node_retrying t.node a none (some e) (env a).elapsed ∷ []) (rest e)
      unfolding after_failure
      after_failure-slept h q = ground arith

      after_failure-stopped :
          (c : E)
          → a ≤ m
          → sleep a ≡ some c
          → after_failure s env t a e rest
            ≡ after
                (event node_retrying t.node a none (some e) (env a).elapsed ∷ [])
                (record { events = []; msg = failure_msg t.node (context c) a })
      unfolding after_failure
      after_failure-stopped c h q = ground arith

      after_failure-Continues :
          a ≤ m + 1
          → (a ≤ m → Tells (m + 1) (a + 1) (rest e))
          → Continues a (after_failure s env t a e rest)
      after_failure-Continues le next = elim (dec_le a m) [
        | yes more ↦ elim (Option-cases (sleep a)) [
          | inl quiet ↦ rw (after_failure-slept more quiet) (again (omega arith) (next more))
          | inr (c, stop) ↦ rw (after_failure-stopped c more stop) (again (omega arith) stopped)
        ]
        | no last ↦ rw (after_failure-last last) (failed (omega arith))
      ]

    module _ (a : ℕ) (rest : Failure E → Execution V E) where
      run_attempt-returns :
          (v : Option V)
          → safe_run t.node t.deps (env a).moment ≡ returns v
          → run_attempt s env t a rest
            ≡ after (event node_started t.node a none none (pos 0) ∷ []) (record {
              events = event node_succeeded t.node a (some v) none (env a).elapsed ∷ [];
              msg = success_msg t.node v a (env a).elapsed;
            })
      unfolding run_attempt
      run_attempt-returns v e = ground arith

      run_attempt-fails :
          (f : Failure E)
          → (safe_run t.node t.deps (env a).moment ≡ fails f)
            ⊎ (safe_run t.node t.deps (env a).moment ≡ panics f)
          → run_attempt s env t a rest
            ≡ after
                (event node_started t.node a none none (pos 0) ∷ [])
                (after_failure s env t a f rest)
      unfolding run_attempt
      run_attempt-fails f (inl e) = ground arith
      run_attempt-fails f (inr e) = ground arith

      run_attempt-Tells :
          a ≤ m + 1
          → (a ≤ m → (e : Failure E) → Tells (m + 1) (a + 1) (rest e))
          → Tells (m + 1) a (run_attempt s env t a rest)
      run_attempt-Tells le next = elim (RunOutcome-cases (safe_run t.node t.deps (env a).moment)) [
        | inl (v, e) ↦ rw (run_attempt-returns v e) (succeeded le)
        | inr (inl (f, e)) ↦
            rw (run_attempt-fails f (inl e)) (after_failure-Continues a f rest le (λ h. next h f))
        | inr (inr (f, e)) ↦
            rw (run_attempt-fails f (inr e)) (after_failure-Continues a f rest le (λ h. next h f))
      ]

    abbrev refusal : ℕ → Option E
    refusal a = if s.limited_by then (env a).refused else none

    attempts-done :
        (left a : ℕ) (last : Option (Failure E)) (c : E)
        → (env a).done ≡ some c
        → attempts s env t (suc left) a last
          ≡ record { events = []; msg = failure_msg t.node (context c) a }
    unfolding attempts
    attempts-done left a last c e = ground arith

    attempts-refused :
        (left a : ℕ) (last : Option (Failure E)) (r : E)
        → (env a).done ≡ none
        → refusal a ≡ some r
        → attempts s env t (suc left) a last
          ≡ record { events = []; msg = failure_msg t.node (limited r) a }
    unfolding attempts
    attempts-refused left a last r e q = ground arith

    attempts-runs :
        (left a : ℕ) (last : Option (Failure E))
        → (env a).done ≡ none
        → refusal a ≡ none
        → attempts s env t (suc left) a last
          ≡ run_attempt s env t a (λ e. attempts s env t left (a + 1) (some e))
    unfolding attempts
    attempts-runs left a last e q = ground arith

    round-Tells :
        (left a : ℕ) (last : Option (Failure E))
        → a ≤ m + 1
        → (a ≤ m → (e : Failure E) → Tells (m + 1) (a + 1) (attempts s env t left (a + 1) (some e)))
        → Tells (m + 1) a (attempts s env t (suc left) a last)
    round-Tells left a last le next = elim (Option-cases (env a).done) [
      | inr (c, e) ↦ rw (attempts-done left a last c e) stopped
      | inl going ↦ elim (Option-cases (refusal a)) [
        | inr (r, e) ↦ rw (attempts-refused left a last r going e) stopped
        | inl admitted ↦
            rw (attempts-runs left a last going admitted)
              (run_attempt-Tells a (λ e. attempts s env t left (a + 1) (some e)) le next)
      ]
    ]

    attempts-Tells :
        (left a : ℕ) (last : Option (Failure E))
        → a + left ≡ m + 1
        → Tells (m + 1) a (attempts s env t (suc left) a last)
    attempts-Tells zero a last h =
        round-Tells zero a last (omega arith) (λ le e. absurd (omega arith))
    attempts-Tells (suc left) a last h =
        round-Tells (suc left) a last (omega arith)
          (λ le e. attempts-Tells left (a + 1) (some e) (omega arith))

    execute-attempts : execute s env t ≡ attempts s env t (suc m) 1 none
    unfolding execute
    execute-attempts =
        ap (λ r. attempts s env t (rounds_of r) 1 none) budget
        ∙ ap (λ r. attempts s env t r 1 none) (rounds_of_lem m fits)

    -- With a MaxRetry that is not negative and less than the greatest int, whatever the outside
    -- does, the events tell a story of attempts 1, 2, and so on, at most 1 + MaxRetry of them: each
    -- is started and then retried, except that the last may succeed, which is when the message
    -- reports success, or fail with no attempt left, or be cut off.
    pub execute-Story :
        Story (m + 1) 1 (notes (execute s env t).events) (is_none (execute s env t).msg.err)
    execute-Story = rw execute-attempts (attempts-Tells m 1 none (omega arith))
