-- ===== src/Dag/Worker/Message.antt =====
-- Which node the message of `execute` (internal/agent/dag/scheduler.go) is about, and where its output
-- comes from.
use go_research.Prelude.{
  ℕ, zero, suc, ◌+◌, ◌<◌, sym, ap, ◌∙◌, ◌≡◌, ◌≢◌, Bool-cases, refl, inl, inr, Option, none, some,
  arith, Option-cases, if◌then◌else◌,
}
use go_research.Prelude.Int.{ℤ, pos, ltbℤ, max_int}
use go_research.Dag.Worker.{
  Failure, returns, rounds_of, rounds_of_lem, DoneMsg, Scheduler, Task, Environment, Execution,
  safe_run, attempts, run_attempt, after_failure, execute,
}
use go_research.Dag.Worker.Shape.{RunOutcome-cases}

rounds_pos : (r : ℤ) (n : ℕ) → r ≡ pos n → n < max_int → ¬ (rounds_of r ≡ 0)
rounds_pos r n e fits h =
    let k : suc n ≡ 0 = sym (rounds_of_lem n fits) ∙ ap rounds_of (sym e) ∙ h in omega arith

module _ {V E : Type 0} (s : Scheduler) (env : Environment E) (t : Task V E) where
  abbrev Ours : Execution V E → Type 0
  Ours x = x.msg.node_id ≡ t.node.id

  after_failure-Ours :
      (attempt : ℕ) (e : Failure E) (rest : Failure E → Execution V E)
      → ((f : Failure E) → Ours (rest f))
      → Ours (after_failure s env t attempt e rest)
  unfolding after_failure
  after_failure-Ours attempt e rest h = ground (arith, h e)

  run_attempt-Ours :
      (attempt : ℕ) (rest : Failure E → Execution V E)
      → ((f : Failure E) → Ours (rest f))
      → Ours (run_attempt s env t attempt rest)
  unfolding run_attempt
  run_attempt-Ours attempt rest h =
      elim (RunOutcome-cases (safe_run t.node t.deps (env attempt).moment)) [
        | inl (v, e) ↦ rw (run_attempt, e) refl
        | inr (inl (f, e)) ↦ rw (run_attempt, e) (after_failure-Ours attempt f rest h)
        | inr (inr (f, e)) ↦ rw (run_attempt, e) (after_failure-Ours attempt f rest h)
      ]

  attempts-Ours :
      (left attempt : ℕ) (last : Option (Failure E)) → Ours (attempts s env t left attempt last)
  unfolding attempts
  attempts-Ours zero attempt last = refl
  attempts-Ours (suc left) attempt last = elim (Option-cases (env attempt).done) [
    | inr (c, e) ↦ rw (attempts, e) refl
    | inl e ↦ elim (Option-cases (if s.limited_by then (env attempt).refused else none)) [
      | inr (c, e') ↦ rw (attempts, e, e') refl
      | inl e' ↦
          rw (attempts, e, e')
            (run_attempt-Ours attempt (λ f. attempts s env t left (attempt + 1) (some f))
              (λ f. attempts-Ours left (attempt + 1) (some f)))
    ]
  ]

  pub execute-node_id : (execute s env t).msg.node_id ≡ t.node.id
  unfolding execute
  execute-node_id = attempts-Ours _ 1 none

  -- Without an error, the output is what a call of the node's function has returned.
  abbrev pub Made : DoneMsg V E → Type 0
  Made m = m.err ≡ none → (moment : ℕ) × (safe_run t.node t.deps moment ≡ returns m.out)

  after_failure-Made :
      (attempt : ℕ) (e : Failure E) (rest : Failure E → Execution V E)
      → ((f : Failure E) → Made (rest f).msg)
      → Made (after_failure s env t attempt e rest).msg
  unfolding after_failure
  after_failure-Made attempt e rest h = elim (Bool-cases (ltbℤ t.node.max_retry (pos attempt))) [
    | inl over ↦ rw (after_failure, over) (λ q. absurd cc)
    | inr again ↦
        elim (Option-cases
          (if ltbℤ (pos 0) (s.backoff (pos attempt)) then (env attempt).interrupted else none)) [
            | inr (c, stop) ↦ rw (after_failure, again, stop) (λ q. absurd cc)
            | inl go ↦ rw (after_failure, again, go) (h e)
          ]
  ]

  run_attempt-Made :
      (attempt : ℕ) (rest : Failure E → Execution V E)
      → ((f : Failure E) → Made (rest f).msg)
      → Made (run_attempt s env t attempt rest).msg
  unfolding run_attempt
  run_attempt-Made attempt rest h =
      elim (RunOutcome-cases (safe_run t.node t.deps (env attempt).moment)) [
        | inl (v, e) ↦ rw (run_attempt, e) (λ q. ((env attempt).moment, e))
        | inr (inl (f, e)) ↦ rw (run_attempt, e) (after_failure-Made attempt f rest h)
        | inr (inr (f, e)) ↦ rw (run_attempt, e) (after_failure-Made attempt f rest h)
      ]

  attempts-Made :
      (left attempt : ℕ) (last : Option (Failure E))
      → (left ≡ 0 → last ≢ none)
      → Made (attempts s env t left attempt last).msg
  unfolding attempts
  attempts-Made zero attempt last h = λ q. absurd (h refl q)
  attempts-Made (suc left) attempt last h = elim (Option-cases (env attempt).done) [
    | inr (c, e) ↦ rw (attempts, e) (λ q. absurd cc)
    | inl e ↦ elim (Option-cases (if s.limited_by then (env attempt).refused else none)) [
      | inr (c, e') ↦ rw (attempts, e, e') (λ q. absurd cc)
      | inl e' ↦
          rw (attempts, e, e')
            (run_attempt-Made attempt (λ f. attempts s env t left (attempt + 1) (some f))
              (λ f. attempts-Made left (attempt + 1) (some f) (λ q r. cc)))
    ]
  ]

  pub execute-Made :
      (retries : ℕ)
      → t.node.max_retry ≡ pos retries
      → retries < max_int
      → Made (execute s env t).msg
  unfolding execute
  execute-Made retries h fits =
      attempts-Made _ 1 none (λ q. absurd (rounds_pos t.node.max_retry retries h fits q))
