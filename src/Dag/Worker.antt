-- ===== src/Dag/Worker.antt =====
-- The worker's side of internal/agent/dag/scheduler.go: the options of a Scheduler, `safeRun`, and
-- `execute`, the retry loop for one node. What the outside decides in each attempt (whether the
-- context is done, what the limiter answers, the clock) is an `Attempt`; `execute` returns the
-- events that it offers to `emit`, which drops an event when the channel is full, and the one
-- message that it sends. A MaxRetry that is the greatest int wraps around, as 1 + MaxRetry does in
-- the code.
pub mod Shape
pub mod Retry
pub mod Message
mod Samples
use go_research.Prelude.{
  ℕ, zero, suc, ◌+◌, Bool, true, false, Option, none, some, List, [], ◌∷◌, ◌++◌, Str, Map,
  if◌then◌else◌, ltb, ◌<◌, ◌≡◌, arith,
}
use go_research.Prelude.Int.{ℤ, pos, negsuc, ltbℤ, max_int}
use go_research.Dag.Types.{
  Node, EventType, node_started, node_succeeded, node_failed, node_retrying, Event,
}
use go_research.Dag.Backoff.{exponential_backoff}

-- The error of a done message, by where it came from.
pub data Failure (E : Type 0) : Type 0 where
  returned context limited : E → Failure E
  panicked : (id : Str) → E → Failure E
  nil_call : (id : Str) → Failure E

-- How a call of a RunFn ends.
pub data RunOutcome (V E : Type 0) : Type 0 where
  returns : Option V → RunOutcome V E
  fails panics : E → RunOutcome V E

-- A RunFn reads the outputs of its dependencies, and the world at the moment of the call.
abbrev pub RunFn : Type 0 → Type 0 → Type 0
RunFn V E = Map (Option V) → ℕ → RunOutcome V E

pub record Scheduler : Type 0 where
  pub concurrency : ℤ
  pub backoff : ℤ → ℤ
  -- whether the limiter is not nil
  pub limited_by : Bool

unfoldable pub with_concurrency : ℤ → Scheduler → Scheduler
with_concurrency n s = if ltbℤ (pos 0) n then record s { concurrency = n } else s

-- `none` is a nil BackoffFn.
unfoldable pub with_backoff : Option (ℤ → ℤ) → Scheduler → Scheduler
with_backoff none s = s
with_backoff (some fn) s = record s { backoff = fn }

unfoldable pub with_limiter : Bool → Scheduler → Scheduler
with_limiter a s = record s { limited_by = a }

apply_options : List (Scheduler → Scheduler) → Scheduler → Scheduler
apply_options [] s = s
apply_options (o ∷ opts) s = apply_options opts (o s)

unfoldable pub new_scheduler : List (Scheduler → Scheduler) → Scheduler
unfolding apply_options exponential_backoff
new_scheduler opts = apply_options opts (record {
  concurrency = pos 4;
  backoff = exponential_backoff (pos 50000000) (pos 2000000000);
  limited_by = false;
})

pub record Task (V E : Type 0) : Type 0 where
  pub node : Node (RunFn V E)
  pub deps : Map (Option V)

pub record DoneMsg (V E : Type 0) : Type 0 where
  pub node_id : Str
  pub out : Option V
  pub err : Option (Failure E)
  pub attempt : ℤ
  pub elapsed : ℤ

module _ {V E : Type 0} where
  -- `safeRun`: a panic becomes an error.
  unfoldable pub safe_run : Node (RunFn V E) → Map (Option V) → ℕ → RunOutcome V (Failure E)
  safe_run n deps moment = elim n.run [
    | none ↦ fails (nil_call n.id)
    | some run ↦ elim (run deps moment) [
      | returns v ↦ returns v
      | fails e ↦ fails (returned e)
      | panics e ↦ fails (panicked n.id e)
    ]
  ]

-- What the outside decides in one attempt; `some` holds the error.
pub record Attempt (E : Type 0) : Type 0 where
  -- the context is done at the head of the loop
  pub done : Option E
  -- the limiter's Acquire fails
  pub refused : Option E
  pub moment : ℕ
  pub elapsed : ℤ
  -- the context is done during the sleep before the next attempt
  pub interrupted : Option E

-- The attempts, by their number from 1.
abbrev pub Environment : Type 0 → Type 0
Environment E = ℕ → Attempt E

pub record Execution (V E : Type 0) : Type 0 where
  pub events : List (Event (Option V) (Failure E))
  pub msg : DoneMsg V E

-- The rounds of `for attempt := 1; attempt <= 1+n.MaxRetry; attempt++`. The sum wraps around to a negative
-- number when MaxRetry is the greatest int.
abbrev pub rounds_of : ℤ → ℕ
rounds_of (pos n) = if ltb n max_int then suc n else 0
rounds_of (negsuc n) = 0

-- `1 + n.MaxRetry`
abbrev pub succ_ℤ : ℤ → ℤ
succ_ℤ (pos n) = if ltb n max_int then pos (suc n) else negsuc max_int
succ_ℤ (negsuc zero) = pos 0
succ_ℤ (negsuc (suc n)) = negsuc n

pub rounds_of_lem : (n : ℕ) → n < max_int → rounds_of (pos n) ≡ suc n
rounds_of_lem n fits = ground arith

pub succ_ℤ_lem : (n : ℕ) → n < max_int → succ_ℤ (pos n) ≡ pos (suc n)
succ_ℤ_lem n fits = ground arith

module _ {V E : Type 0} where
  abbrev pub event :
      EventType
      → Node (RunFn V E)
      → ℕ
      → Option (Option V)
      → Option (Failure E)
      → ℤ
      → Event (Option V) (Failure E)
  event type n attempt result error elapsed = record {
    type = type;
    node_id = n.id;
    name = n.name;
    attempt = pos attempt;
    result = result;
    error = error;
    elapsed = elapsed;
  }

  abbrev pub failure_msg : Node (RunFn V E) → Failure E → ℕ → DoneMsg V E
  failure_msg n e attempt = record {
    node_id = n.id;
    out = none;
    err = some e;
    attempt = pos attempt;
    elapsed = pos 0;
  }

  abbrev pub success_msg : Node (RunFn V E) → Option V → ℕ → ℤ → DoneMsg V E
  success_msg n v attempt elapsed = record {
    node_id = n.id;
    out = v;
    err = none;
    attempt = pos attempt;
    elapsed = elapsed;
  }

  abbrev pub after : List (Event (Option V) (Failure E)) → Execution V E → Execution V E
  after es x = record { events = es ++ x.events; msg = x.msg }

  module _ (s : Scheduler) (env : Environment E) (t : Task V E) where
    -- What follows the loop.
    abbrev pub exhausted : Option (Failure E) → Execution V E
    exhausted last = record {
      events = [];
      msg = record {
        node_id = t.node.id;
        out = none;
        err = last;
        attempt = succ_ℤ t.node.max_retry;
        elapsed = pos 0;
      };
    }

    -- The end of a failed attempt: the last one, or a sleep and another. `rest` is the next round,
    -- given `lastErr`.
    unfoldable pub after_failure : ℕ → Failure E → (Failure E → Execution V E) → Execution V E
    after_failure attempt e rest =
        let a = env attempt in
        if ltbℤ t.node.max_retry (pos attempt)
        then after (event node_failed t.node attempt none (some e) a.elapsed ∷ [])
            (exhausted (some e))
        else after (event node_retrying t.node attempt none (some e) a.elapsed ∷ [])
            (elim (if ltbℤ (pos 0) (s.backoff (pos attempt)) then a.interrupted else none) [
              | some c ↦ record { events = []; msg = failure_msg t.node (context c) attempt }
              | none ↦ rest e
            ])

    -- One attempt, once the limiter has let it through.
    unfoldable pub run_attempt : ℕ → (Failure E → Execution V E) → Execution V E
    unfolding safe_run after_failure
    run_attempt attempt rest =
        let a = env attempt in
        after (event node_started t.node attempt none none (pos 0) ∷ [])
          (elim (safe_run t.node t.deps a.moment) [
            | returns v ↦ record {
              events = event node_succeeded t.node attempt (some v) none a.elapsed ∷ [];
              msg = success_msg t.node v attempt a.elapsed;
            }
            | fails e ↦ after_failure attempt e rest
            | panics e ↦ after_failure attempt e rest
          ])

    attempts : ℕ → ℕ → Option (Failure E) → Execution V E
    attempts zero attempt last = exhausted last
    attempts (suc left) attempt last =
        let a = env attempt in
        let rest = λ (e : Failure E). attempts left (attempt + 1) (some e) in
        elim a.done [
          | some c ↦ record { events = []; msg = failure_msg t.node (context c) attempt }
          | none ↦ elim (if s.limited_by then a.refused else none) [
            | some e ↦ record { events = []; msg = failure_msg t.node (limited e) attempt }
            | none ↦ run_attempt attempt rest
          ]
        ]

    unfoldable pub execute : Execution V E
    unfolding attempts run_attempt
    execute = attempts (rounds_of t.node.max_retry) 1 none
