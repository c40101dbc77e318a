-- ===== src/Main/Samples.antt =====
-- A start of cmd/server/main.go with the mock search and no Redis.
use go_research.Prelude.{
  ℕ, true, false, ◌≡◌, refl, inr, none, some, [], ◌∷◌, codes, str_eq, lookup, insert,
}
use go_research.Prelude.Int.{pos}
use go_research.Config.{Config}
use go_research.Dag.Worker.{RunFn}
use go_research.Researcher.Attempts.{Findings}
use go_research.Orchestrator.Engine.{Engine, run}
use go_research.Orchestrator.Engine.Wired.{IsWired}
use go_research.Orchestrator.Engine.Samples.{engine}
use go_research.Tool.{register}
use go_research.Main.{SearchTool, Parts, mock, make_search, make_scheduler, start, new_engine}
use go_research.Main.Started.{Started, start-IsWired}

abbrev config : Config
config = record {
  server_addr = codes ":8080";
  log_level = codes "info";
  api_key = [];
  research_timeout_seconds = pos 180;
  llm = record { base_url = []; api_key = codes "k"; model = codes "m" };
  postgres = record { host = []; port = pos 5432; user = []; password = []; db = [] };
  redis = record { addr = []; password = []; db = pos 0 };
  tavily_api_key = [];
  tavily_search_depth = codes "basic";
  agent = record {
    max_search_rounds = pos 2;
    max_follow_up_queries = pos 2;
    critic_enabled = true;
    critic_min_score = pos 6;
    max_critic_retries = pos 1;
  };
}

abbrev parts : Parts
parts = record {
  config = config;
  deps = record {
    llm = some config.llm;
    tools = some ((codes "web_search", make_search false config) ∷ []);
    scheduler = some make_scheduler;
    options = config.agent;
  };
}

abbrev rest : Engine (Unit {0}) ℕ (Unit {0}) ℕ ℕ SearchTool (RunFn Findings ℕ)
rest = record {
  has_llm = false;
  has_tools = false;
  has_scheduler = false;
  search_tool = none;
  run_of = λ tool st. engine.run_of tt st;
  generate = engine.generate;
  decode_plan = engine.decode_plan;
  planner_prompt = engine.planner_prompt;
  schedule = engine.schedule;
  open_stream = engine.open_stream;
  writer_prompt = engine.writer_prompt;
  ctx_err = engine.ctx_err;
  elapsed_ms = engine.elapsed_ms;
  node_error_text = engine.node_error_text;
  error_text = engine.error_text;
}

no_cache :
    make_search false config
    ≡ record { name = codes "web_search"; body = record { backend = mock; cached_as = none } }
unfolding make_search str_eq
no_cache = refl

starts : start {P = Unit {0}} (some config) true none false ≡ inr parts
unfolding start register str_eq lookup insert
starts = refl

start-IsWired_example :
    Started {P = Unit {0}} (some config) true none false parts
    × IsWired (new_engine parts.deps rest) (run (new_engine parts.deps rest) (codes "q") tt)
start-IsWired_example = start-IsWired (some config) true none false parts rest (codes "q") tt starts
