-- ===== src/Dag/Worker/Retry.antt =====
-- `execute` (internal/agent/dag/scheduler.go) when nothing outside stops it: the first attempt that
-- succeeds decides, and if none does, the last one.
use go_research.Prelude.{ℕ, zero, suc, ◌+◌, ◌≤◌, ◌<◌, ◌≡◌, ap, ◌∙◌, Option, none, some, arith}
use go_research.Prelude.Int.{pos, max_int}
use go_research.Dag.Worker.{
  Failure, RunOutcome, returns, fails, Scheduler, Task, safe_run, Environment, attempts,
  run_attempt, after_failure, execute, exhausted, rounds_of, succ_ℤ, rounds_of_lem, succ_ℤ_lem,
}

module _ {V E : Type 0} (s : Scheduler) (env : Environment E) (t : Task V E) where
  -- No cancellation, and no refusal by the limiter.
  pub record IsQuiet : Type 0 where
    pub going : (a : ℕ) → (env a).done ≡ none
    pub admitted : (a : ℕ) → (env a).refused ≡ none
    pub slept : (a : ℕ) → (env a).interrupted ≡ none

  -- What the call of Run in an attempt gives.
  abbrev pub outcome : ℕ → RunOutcome V (Failure E)
  outcome a = safe_run t.node t.deps (env a).moment

  abbrev pub Fails : ℕ → Type 0
  Fails a = (e : Failure E) × (outcome a ≡ fails e)

  attempts-quiet :
      (left a : ℕ) (last : Option (Failure E))
      → IsQuiet
      → attempts s env t (suc left) a last
        ≡ run_attempt s env t a (λ e. attempts s env t left (a + 1) (some e))
  unfolding attempts
  attempts-quiet left a last q = ground (arith, q.going a, q.admitted a)

  attempts-returns :
      (left a : ℕ) (last : Option (Failure E)) (v : Option V)
      → IsQuiet
      → outcome a ≡ returns v
      → (attempts s env t (suc left) a last).msg ≡ record {
        node_id = t.node.id;
        out = v;
        err = none;
        attempt = pos a;
        elapsed = (env a).elapsed;
      }
  unfolding run_attempt
  attempts-returns left a last v q h = rw (attempts-quiet left a last q) (ground arith)

  attempts-retries :
      (left a m : ℕ) (last : Option (Failure E)) (e : Failure E)
      → IsQuiet
      → t.node.max_retry ≡ pos m
      → a ≤ m
      → outcome a ≡ fails e
      → (attempts s env t (suc left) a last).msg ≡ (attempts s env t left (a + 1) (some e)).msg
  unfolding run_attempt after_failure
  attempts-retries left a m last e q hm le h =
      rw (attempts-quiet left a last q) (ground (arith, q.slept a))

  attempts-exhausted :
      (a m : ℕ) (last : Option (Failure E)) (e : Failure E)
      → IsQuiet
      → t.node.max_retry ≡ pos m
      → m < a
      → outcome a ≡ fails e
      → (attempts s env t 1 a last).msg ≡ (exhausted s env t (some e)).msg
  unfolding run_attempt after_failure
  attempts-exhausted a m last e q hm lt h = rw (attempts-quiet 0 a last q) (ground arith)

  module _ (m : ℕ) (budget : t.node.max_retry ≡ pos m) (fits : m < max_int) (q : IsQuiet) where
    -- `k` failures, and then a success.
    skip_failures :
        (k left a : ℕ) (last : Option (Failure E)) (v : Option V)
        → a + left ≡ m + 1
        → k ≤ left
        → ((i : ℕ) → i < k → Fails (a + i))
        → outcome (a + k) ≡ returns v
        → (attempts s env t (suc left) a last).msg ≡ record {
          node_id = t.node.id;
          out = v;
          err = none;
          attempt = pos (a + k);
          elapsed = (env (a + k)).elapsed;
        }
    skip_failures zero left a last v sum le bad good =
        let here : a + 0 ≡ a = omega arith in
        rw here (attempts-returns left a last v q (rw here at good))
    skip_failures (suc k) zero a last v sum le bad good = absurd (omega arith)
    skip_failures (suc k) (suc left) a last v sum le bad good =
        let here : a + 0 ≡ a = omega arith in
        let (e, failed) = bad 0 (omega arith) in
        let next : a + suc k ≡ a + 1 + k = omega arith in
        attempts-retries (suc left) a m last e q budget (omega arith) (rw here at failed)
        ∙ rw next (
            skip_failures k left (a + 1) (some e) v (omega arith) (omega arith)
              (λ i h.
                let there : a + suc i ≡ a + 1 + i = omega arith in
                rw there at (bad (suc i) (omega arith)))
              (rw next at good))

    execute-attempts : execute s env t ≡ attempts s env t (suc m) 1 none
    unfolding execute
    execute-attempts =
        ap (λ r. attempts s env t (rounds_of r) 1 none) budget
        ∙ ap (λ r. attempts s env t r 1 none) (rounds_of_lem m fits)

    -- With a MaxRetry that is not negative and less than the greatest int, nothing outside to stop the
    -- loop, and at most MaxRetry failures before it, the first attempt that succeeds is reported.
    pub execute-first_success :
        (k : ℕ) (v : Option V)
        → k ≤ m
        → ((i : ℕ) → i < k → Fails (1 + i))
        → outcome (1 + k) ≡ returns v
        → (execute s env t).msg ≡ record {
          node_id = t.node.id;
          out = v;
          err = none;
          attempt = pos (1 + k);
          elapsed = (env (1 + k)).elapsed;
        }
    execute-first_success k v le bad good =
        ap (λ x. x.msg) execute-attempts ∙ skip_failures k m 1 none v (omega arith) le bad good

    all_fail :
        (left a : ℕ) (last : Option (Failure E)) (e : Failure E)
        → a + left ≡ m + 1
        → ((i : ℕ) → i < left → Fails (a + i))
        → outcome (m + 1) ≡ fails e
        → (attempts s env t (suc left) a last).msg ≡ (exhausted s env t (some e)).msg
    all_fail zero a last e sum bad final =
        let top : m + 1 ≡ a = omega arith in
        attempts-exhausted a m last e q budget (omega arith) (rw top at final)
    all_fail (suc left) a last e sum bad final =
        let here : a + 0 ≡ a = omega arith in
        let (d, failed) = bad 0 (omega arith) in
        attempts-retries (suc left) a m last d q budget (omega arith) (rw here at failed)
        ∙ all_fail left (a + 1) (some d) e (omega arith)
            (λ i h.
              let there : a + suc i ≡ a + 1 + i = omega arith in
              rw there at (bad (suc i) (omega arith)))
            final

    exhausted-error :
        (e : Failure E)
        → (exhausted s env t (some e)).msg ≡ record {
          node_id = t.node.id;
          out = none;
          err = some e;
          attempt = pos (suc m);
          elapsed = pos 0;
        }
    exhausted-error e =
        let last : succ_ℤ t.node.max_retry ≡ pos (suc m) = ap succ_ℤ budget ∙ succ_ℤ_lem m fits in
        ap
          (λ n. record {
            node_id = t.node.id;
            out = none;
            err = some e;
            attempt = n;
            elapsed = pos 0;
          })
          last

    -- With a MaxRetry that is not negative and less than the greatest int, and nothing outside to stop
    -- the loop, when all 1 + MaxRetry attempts fail, the error of the last one is reported.
    pub execute-all_fail :
        (e : Failure E)
        → ((i : ℕ) → i < m → Fails (1 + i))
        → outcome (m + 1) ≡ fails e
        → (execute s env t).msg ≡ record {
          node_id = t.node.id;
          out = none;
          err = some e;
          attempt = pos (suc m);
          elapsed = pos 0;
        }
    execute-all_fail e bad final =
        ap (λ x. x.msg) execute-attempts
        ∙ all_fail m 1 none e (omega arith) bad final
        ∙ exhausted-error e
