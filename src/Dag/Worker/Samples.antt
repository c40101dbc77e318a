-- ===== src/Dag/Worker/Samples.antt =====
-- A node under internal/agent/dag/scheduler.go that fails twice, then succeeds.
use go_research.Prelude.{
  ℕ, ◌+◌, ◌<◌, ◌≡◌, refl, none, some, [], ◌∷◌, codes, arith, ltb, if◌then◌else◌,
}
use go_research.Prelude.Int.{ℤ, pos, negsuc, max_int}
use go_research.Dag.Types.{node_started, node_succeeded, node_retrying}
use go_research.Dag.Backoff.{exponential_backoff, exponential_backoff-eq-min}
use go_research.Dag.Worker.{
  RunFn, returns, fails, returned, Task, new_scheduler, Environment, execute, safe_run,
}
use go_research.Dag.Worker.Retry.{IsQuiet, Fails, execute-first_success, execute-all_fail}
use go_research.Dag.Worker.Shape.{Story, notes, is_none, execute-Story}

-- Fails at moments below 3.
abbrev flaky : RunFn ℕ ℕ
flaky deps moment = if ltb moment 3 then fails moment else returns (some moment)

abbrev job : ℤ → Task ℕ ℕ
job retries = record {
  node = record {
    id = codes "t1";
    name = [];
    depends_on = [];
    run = some flaky;
    max_retry = retries;
    timeout = pos 0;
  };
  deps = [];
}

abbrev calm : Environment ℕ
calm a = record { done = none; refused = none; moment = a; elapsed = pos a; interrupted = none }

calm-IsQuiet : (retries : ℤ) → IsQuiet (new_scheduler []) calm (job retries)
calm-IsQuiet retries = record { going = λ a. refl; admitted = λ a. refl; slept = λ a. refl }

-- Attempts 1 and 2 fail.
below_three : (retries : ℤ) (i : ℕ) → i < 2 → Fails (new_scheduler []) calm (job retries) (1 + i)
unfolding safe_run
below_three retries i h = (returned (1 + i), ground arith)

third : safe_run (job (pos 2)).node [] 3 ≡ returns (some 3)
unfolding safe_run
third = refl

second : safe_run (job (pos 1)).node [] 2 ≡ fails (returned 2)
unfolding safe_run
second = refl

execute-first_success_example :
    (execute (new_scheduler []) calm (job (pos 2))).msg
    ≡ record { node_id = codes "t1"; out = some 3; err = none; attempt = pos 3; elapsed = pos 3 }
execute-first_success_example =
    execute-first_success (new_scheduler []) calm (job (pos 2)) 2 refl (omega arith)
      (calm-IsQuiet (pos 2)) 2 (some 3) (omega arith) (below_three (pos 2)) third

execute-all_fail_example : (execute (new_scheduler []) calm (job (pos 1))).msg ≡ record {
  node_id = codes "t1";
  out = none;
  err = some (returned 2);
  attempt = pos 2;
  elapsed = pos 0;
}
execute-all_fail_example =
    execute-all_fail (new_scheduler []) calm (job (pos 1)) 1 refl (omega arith)
      (calm-IsQuiet (pos 1)) (returned 2) (λ i h. below_three (pos 1) i (omega arith)) second

execute-Story_example :
    Story 3 1
      (notes (execute (new_scheduler []) calm (job (pos 2))).events)
      (is_none (execute (new_scheduler []) calm (job (pos 2))).msg.err)
execute-Story_example = execute-Story (new_scheduler []) calm (job (pos 2)) 2 refl (omega arith)

-- With a negative MaxRetry, and with the greatest int, the node is never run, and the message has no error.
never_run : execute (new_scheduler []) calm (job (negsuc 0)) ≡ record {
  events = [];
  msg = record { node_id = codes "t1"; out = none; err = none; attempt = pos 0; elapsed = pos 0 };
}
unfolding execute
never_run = refl

wrapped : execute (new_scheduler []) calm (job (pos max_int)) ≡ record {
  events = [];
  msg = record {
    node_id = codes "t1";
    out = none;
    err = none;
    attempt = negsuc max_int;
    elapsed = pos 0;
  };
}
unfolding execute
wrapped = refl

three_attempts :
    notes (execute (new_scheduler []) calm (job (pos 2))).events
    ≡ (node_started, pos 1)
      ∷ (node_retrying, pos 1)
      ∷ (node_started, pos 2)
      ∷ (node_retrying, pos 2)
      ∷ (node_started, pos 3)
      ∷ (node_succeeded, pos 3)
      ∷ []
unfolding execute new_scheduler
three_attempts = refl

-- The delays of cmd/server/main.go: 200 ms doubled, at most 3 s.
exponential_backoff-eq-min_example :
    exponential_backoff (pos 200000000) (pos 3000000000) (pos 5) ≡ pos 3000000000
exponential_backoff-eq-min_example =
    exponential_backoff-eq-min 200000000 3000000000 4 (omega arith) (omega arith) (omega arith)
