-- ===== src/Orchestrator/Engine/Samples.antt =====
-- A question with one subtask under internal/agent/orchestrator/orchestrator.go.
use go_research.Prelude.{
  true, false, ℕ, ◌<◌, ◌≡◌, ◌≢◌, refl, ◌⊎◌, inl, inr, Option, none, some, [], ◌∷◌, Str, codes,
  lookup, insert, str_eq, arith,
}
use go_research.Prelude.Int.{pos, max_int}
use go_research.Text.Extract.{extract_json}
use go_research.Text.{truncate, one_line, decimal}
use go_research.Planner
use go_research.Planner.{Plan, Subtask, plan}
use go_research.Dag.Types
use go_research.Dag.Graph.{Graph, new_graph}
use go_research.Dag.Worker.{RunFn, returns, Task, DoneMsg, Scheduler, new_scheduler, execute}
use go_research.Dag.Coordinator.{
  System, init, receive, Step, take, finish, handle, start, later, Outcome, Returns, completed,
}
use go_research.Dag.Coordinator.Liveness.{calm}
use go_research.Researcher.Options.{Options, normalized}
use go_research.Researcher.Dedup.{dedup_append}
use go_research.Researcher.Collect.{Tools, to_nat, collect_search_results}
use go_research.Researcher.Attempts.{Findings, ResearchError, llm_failed, Critics, research_new}
use go_research.Orchestrator.Engine.Closure.{closure}
use go_research.Writer.{eof, chunk}
use go_research.Orchestrator.{
  plan_event, node_started, node_finished, writer_token, done, build_graph, node_of,
}
use go_research.Orchestrator.Engine.{of_node, Ran, Engine, run, collect_findings}
use go_research.Orchestrator.Engine.Story.{IsEquipped, IsSilent, IsStory, IsFine, run-IsStory}
use go_research.Orchestrator.Engine.Composed.{somes, outputs_of, collect_findings-planned}

abbrev t1 : Str
t1 = codes "t1"

abbrev the_plan : Plan
the_plan = record {
  question = codes "q";
  subtasks = record { id = t1; question = codes "why?"; depends_on = [] } ∷ [];
}

abbrev found : Findings
found = record { task_id = t1; question = codes "why?"; markdown = codes "m"; citations = [] }

abbrev run_of : Unit {0} → Subtask → RunFn Findings ℕ
run_of tool st deps moment = returns (some found)

abbrev told : Types.EventType → Option Findings → Types.Event Findings ℕ
told type result = record {
  type = type;
  node_id = t1;
  name = [];
  attempt = pos 1;
  result = result;
  error = none;
  elapsed = pos 2000000;
}

abbrev ran : Ran ℕ
ran = record {
  activity =
      of_node (told Types.node_started none)
      ∷ of_node (told Types.node_succeeded (some found))
      ∷ [];
  result = inr (record { outputs = (t1, some found) ∷ []; states = (t1, Types.succeeded) ∷ [] });
}

abbrev pub engine : Engine (Unit {0}) ℕ (Unit {0}) ℕ ℕ (Unit {0}) (RunFn Findings ℕ)
engine = record {
  has_llm = true;
  has_tools = true;
  has_scheduler = true;
  search_tool = some tt;
  run_of = run_of;
  generate = λ msgs w. (inr (codes "{1}"), w);
  decode_plan = λ s. inr the_plan;
  planner_prompt = [];
  schedule = λ g w. (ran, w);
  open_stream = λ w msgs. inr (chunk (some (codes "# A")) (chunk (some (codes " report")) eof));
  writer_prompt = [];
  ctx_err = λ n. none;
  elapsed_ms = pos 7;
  node_error_text = λ e. [];
  error_text = λ e. [];
}

program : Unit {0}
unfolding run plan Planner.validate extract_json truncate decimal build_graph collect_findings init
    receive execute new_scheduler closure research_new normalized collect_search_results
    dedup_append one_line lookup insert str_eq
program = tt

whole_run : run engine (codes "q") tt ≡ (
  none,
  plan_event (codes "q") the_plan.subtasks
      ∷ node_started t1 (codes "why?") (pos 1)
      ∷ node_finished t1 (codes "why?") (codes "m") [] (pos 2)
      ∷ writer_token (codes "# A")
      ∷ writer_token (codes " report")
      ∷ done (pos 7) (pos 10)
      ∷ [],
)
unfolding program
whole_run = refl

run-IsStory_example :
    (IsSilent engine (codes "q") (run engine (codes "q") tt)
      ⊎ ((codes "q" ≢ []) × IsEquipped engine × IsStory engine (run engine (codes "q") tt)))
    × IsFine engine (run engine (codes "q") tt)
run-IsStory_example = run-IsStory engine (codes "q") tt

-- One page for every search, and no critic.
abbrev tools : Tools ℕ (Unit {0}) (Unit {0})
tools = record {
  call = λ q n. (inr (codes "[]"), n);
  encode_args = λ q n. q;
  decode_items = λ s. inr (record { title = codes "t"; url = codes "u"; snippet = [] } ∷ []);
  generate = λ msgs n. (inr (codes "answer"), n);
  decode_queries = λ s. inr [];
  follow_up_system = [];
}

abbrev critics : Critics (Unit {0}) (Unit {0})
critics = record {
  system_prompt = [];
  decode_review = λ s. inl tt;
  critic_system = [];
  critic_prompt = λ q m n. m;
}

abbrev options : Options
options = record {
  max_search_rounds = pos 1;
  max_follow_up_queries = pos 1;
  critic_enabled = false;
  critic_min_score = pos 6;
  max_critic_retries = pos 1;
}

abbrev Error : Type 0
Error = ResearchError (Unit {0}) (Unit {0})

-- The scheduler's run of the graph of the plan.
abbrev the_graph : Graph (RunFn Findings Error)
the_graph = (build_graph (closure tools critics options (λ n. n)) the_plan.subtasks new_graph).1

abbrev scheduler : Scheduler
scheduler = new_scheduler []

abbrev canceled : Error
canceled = llm_failed tt

abbrev task : Task Findings Error
task = record {
  node =
      node_of (closure tools critics options (λ n. n))
        (record { id = t1; question = codes "why?"; depends_on = [] });
  deps = [];
}

abbrev message : DoneMsg Findings Error
message = (execute scheduler (calm Error) task).msg

abbrev taken : System Findings Error
taken = record (init the_graph) { task_ch = []; busy = task ∷ [] }

abbrev worked : System Findings Error
worked = record taken { busy = []; done_ch = message ∷ [] }

abbrev ended : System Findings Error
ended = receive the_graph canceled (λ id. true) message (record worked { done_ch = [] })

abbrev outcome : Outcome Findings Error
outcome = record { result = record { outputs = ended.outputs; states = ended.states }; err = none }

accepted : Planner.validate the_plan ≡ none
unfolding program
accepted = refl

take_task : Step scheduler the_graph canceled (init the_graph) taken
unfolding program
take_task = take {t = task} {ts = []} refl (omega arith)

finish_task : Step scheduler the_graph canceled taken worked
unfolding program
finish_task = finish (calm Error) [] task [] refl

handle_task : Step scheduler the_graph canceled worked ended
unfolding program
handle_task = handle (λ id. true) (omega arith) refl (inl (λ id. refl))

ended-Returns : Returns ended outcome
unfolding program
ended-Returns = completed refl

one_finding :
    collect_findings outcome.result.outputs the_plan.subtasks
    ≡ record {
      task_id = t1;
      question = codes "why?";
      markdown = codes "answer";
      citations = record { index = 1; title = codes "t"; url = codes "u"; snippet = [] } ∷ [];
    }
      ∷ []
unfolding program
one_finding = refl

few_retries : to_nat (normalized options).max_critic_retries < max_int
unfolding program
few_retries = omega arith

collect_findings-planned_example :
    somes outcome.result.outputs (collect_findings outcome.result.outputs the_plan.subtasks)
    ≡ outputs_of outcome.result.outputs the_plan.subtasks
collect_findings-planned_example =
    collect_findings-planned tools critics options (λ n. n) few_retries the_plan scheduler canceled
      ended outcome accepted (later (later (later start take_task) finish_task) handle_task)
      ended-Returns refl
