-- ===== src/Dag/Coordinator/Samples.antt =====
-- A run of two nodes under internal/agent/dag/scheduler.go.
use go_research.Prelude.{
  ap, inr, ℕ, ◌<◌, ◌+◌, ◌*◌, ◌≤◌, ◌≡◌, refl, inl, none, some, List, [], ◌∷◌, ◌++◌, Str, In, codes,
  arith, length, lookup, insert, str_eq, true,
}
use go_research.Prelude.Int.{pos, max_int}
use go_research.Dag.Types.{Node, ready}
use go_research.Dag.Graph.{Graph, new_graph, add, validate, valid}
use go_research.Dag.Graph.Add.{IsWellFormed, new_graph-IsWellFormed, add-IsWellFormed}
use go_research.Dag.Worker.{RunFn, returns, Task, DoneMsg, Scheduler, new_scheduler, execute}
use go_research.Dag.Coordinator.{
  System, init, receive, worker_count, Step, take, finish, handle, Reach, start, later, Outcome,
  Returns, completed,
}
use go_research.Dag.Coordinator.Invariant.{aloft, occurs, task_ids, Fits}
use go_research.Dag.Coordinator.Liveness.{calm}
use go_research.Dag.Coordinator.Outputs.{MadeBy, Returns-MadeBy}
use go_research.Dag.Coordinator.Once.{runs, handles, Reach-once}
use go_research.Dag.Coordinator.Safety.{Reach-Fits, Returns-IsConclusive, IsConclusive}
use go_research.Dag.Coordinator.Termination.{here, step_to, Leads, Trace-bound, Reach-Returns}
use go_research.Dag.Coordinator.Entry.{enter, Concludes, enter-Concludes}

-- The number of outputs that the node is given.
abbrev count : RunFn ℕ ℕ
count deps moment = returns (some (length deps))

abbrev node : Str → List Str → Node (RunFn ℕ ℕ)
node id deps = record {
  id = id;
  name = [];
  depends_on = deps;
  run = some count;
  max_retry = pos 0;
  timeout = pos 0;
}

abbrev a : Str
a = codes "a"

abbrev b : Str
b = codes "b"

-- b depends on a.
abbrev pair : Graph (RunFn ℕ ℕ)
pair = (add (some (node a [])) (add (some (node b (a ∷ []))) new_graph).1).1

pair-IsWellFormed : IsWellFormed pair
pair-IsWellFormed =
    add-IsWellFormed (some (node a [])) (add (some (node b (a ∷ []))) new_graph).1
      (add-IsWellFormed (some (node b (a ∷ []))) new_graph new_graph-IsWellFormed)

abbrev scheduler : Scheduler
scheduler = new_scheduler []

abbrev task_a : Task ℕ ℕ
task_a = record { node = node a []; deps = [] }

abbrev task_b : Task ℕ ℕ
task_b = record { node = node b (a ∷ []); deps = (a, some 0) ∷ [] }

abbrev message : Task ℕ ℕ → DoneMsg ℕ ℕ
message t = (execute scheduler (calm ℕ) t).msg

-- Node a is taken, is done, and is received, with which b becomes ready; then b likewise.
abbrev a_taken : System ℕ ℕ
a_taken = record (init pair) { task_ch = []; busy = task_a ∷ [] }

abbrev a_done : System ℕ ℕ
a_done = record a_taken { busy = []; done_ch = message task_a ∷ [] }

abbrev b_ready : System ℕ ℕ
b_ready = receive pair 0 (λ id. true) (message task_a) (record a_done { done_ch = [] })

abbrev b_taken : System ℕ ℕ
b_taken = record b_ready { task_ch = []; busy = task_b ∷ [] }

abbrev b_done : System ℕ ℕ
b_done = record b_taken { busy = []; done_ch = message task_b ∷ [] }

abbrev ended : System ℕ ℕ
ended = receive pair 0 (λ id. true) (message task_b) (record b_done { done_ch = [] })

workers : 1 ≤ worker_count scheduler.concurrency
unfolding new_scheduler
workers = omega arith

pair-valid : validate pair ≡ valid
unfolding validate add str_eq lookup insert
pair-valid = refl

take_a : Step scheduler pair 0 (init pair) a_taken
unfolding init receive execute add new_scheduler str_eq lookup insert
take_a = take {t = task_a} {ts = []} refl (omega arith)

finish_a : Step scheduler pair 0 a_taken a_done
unfolding init receive execute add new_scheduler str_eq lookup insert
finish_a = finish (calm ℕ) [] task_a [] refl

handle_a : Step scheduler pair 0 a_done b_ready
unfolding init receive execute add new_scheduler str_eq lookup insert
handle_a = handle (λ id. true) (omega arith) refl (inl (λ id. refl))

take_b : Step scheduler pair 0 b_ready b_taken
unfolding init receive execute add new_scheduler str_eq lookup insert
take_b = take {t = task_b} {ts = []} refl (omega arith)

finish_b : Step scheduler pair 0 b_taken b_done
unfolding init receive execute add new_scheduler str_eq lookup insert
finish_b = finish (calm ℕ) [] task_b [] refl

handle_b : Step scheduler pair 0 b_done ended
unfolding init receive execute add new_scheduler str_eq lookup insert
handle_b = handle (λ id. true) (omega arith) refl (inl (λ id. refl))

b_taken-Reach : Reach scheduler pair 0 b_taken
b_taken-Reach = later (later (later (later start take_a) finish_a) handle_a) take_b

ended-Reach : Reach scheduler pair 0 ended
ended-Reach = later (later b_taken-Reach finish_b) handle_b

ended-Returns :
    Returns ended
      (record { result = record { outputs = ended.outputs; states = ended.states }; err = none })
unfolding init receive execute add new_scheduler str_eq lookup insert
ended-Returns = completed refl

ended_output : lookup b ended.outputs ≡ some (some 1)
unfolding init receive execute add new_scheduler str_eq lookup insert
ended_output = refl

b_sent : In task_b (b_taken.task_ch ++ b_taken.busy)
unfolding init receive execute add new_scheduler str_eq lookup insert
b_sent = inl refl

-- b holds the output of a.
Reach-Fits_example : Fits pair b_taken.states b_taken.outputs task_b
Reach-Fits_example =
    Reach-Fits pair pair-IsWellFormed scheduler 0 b_taken b_taken-Reach task_b b_sent

-- Node a has been run and handled; b is with a worker.
a_once :
    (runs pair scheduler 0 a b_taken-Reach ≡ 1) × (handles pair scheduler 0 a b_taken-Reach ≡ 1)
unfolding runs handles b_taken-Reach take_a finish_a handle_a take_b init receive execute add
    new_scheduler str_eq lookup insert
a_once = (refl, refl)

Reach-once_example :
    ((id : Str)
      → (occurs id (task_ids b_taken.task_ch)
            + occurs id (task_ids b_taken.busy)
            + runs pair scheduler 0 id b_taken-Reach
          ≤ 1)
        × (aloft id b_taken.task_ch b_taken.busy b_taken.done_ch
              + handles pair scheduler 0 id b_taken-Reach
            ≤ 1)
        × (1 ≤ aloft id b_taken.task_ch b_taken.busy b_taken.done_ch
            → lookup id b_taken.states ≡ some ready))
    × (length b_taken.task_ch + length b_taken.busy + length b_taken.done_ch ≤ length pair.nodes)
Reach-once_example = Reach-once pair scheduler 0 pair-IsWellFormed b_taken b_taken-Reach

Returns-IsConclusive_example :
    IsConclusive pair
      (record { result = record { outputs = ended.outputs; states = ended.states }; err = none })
Returns-IsConclusive_example =
    Returns-IsConclusive pair pair-IsWellFormed scheduler 0 ended
      (record { result = record { outputs = ended.outputs; states = ended.states }; err = none })
      ended-Reach ended-Returns

Trace-bound_example : 6 ≤ 4 * length pair.nodes + 1
Trace-bound_example = Trace-bound pair scheduler 0 pair-IsWellFormed 6 ended (
    step_to
      (step_to (step_to (step_to (step_to (step_to here take_a) finish_a) handle_a) take_b)
        finish_b)
      handle_b)

-- From the middle of the run.
Reach-Returns_example :
    (t : System ℕ ℕ) × (o : Outcome ℕ ℕ) × Leads pair scheduler 0 b_taken t × Returns t o
Reach-Returns_example =
    Reach-Returns pair scheduler 0 pair-IsWellFormed workers pair-valid b_taken b_taken-Reach

enter-Concludes_example : Concludes pair pair-IsWellFormed scheduler 0 workers (enter (some pair))
enter-Concludes_example = enter-Concludes pair pair-IsWellFormed scheduler 0 workers

retries : (n : Node (RunFn ℕ ℕ)) → In n pair.nodes → (r : ℕ) × (n.max_retry ≡ pos r) × (r < max_int)
unfolding add str_eq lookup insert
retries n (inl e) = (0, ap (λ (m : Node (RunFn ℕ ℕ)). m.max_retry) e, omega arith)
retries n (inr (inl e)) = (0, ap (λ (m : Node (RunFn ℕ ℕ)). m.max_retry) e, omega arith)
retries n (inr (inr e)) = absurd e

Returns-MadeBy_example : MadeBy pair ended.states ended.outputs b (some 1)
Returns-MadeBy_example =
    Returns-MadeBy pair pair-IsWellFormed retries scheduler 0 ended
      (record { result = record { outputs = ended.outputs; states = ended.states }; err = none })
      ended-Reach ended-Returns b (some 1) ended_output
