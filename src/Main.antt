-- ===== src/Main.antt =====
-- cmd/server/main.go: how the parts are made and put together. What Load, the constructor of the
-- model, the opening of PostgreSQL and the ping of Redis give are parameters. Logging and the
-- server's own loop are left out.
pub mod Started
mod Samples
use go_research.Prelude.{
  ℕ, Bool, true, false, not, ◌⊎◌, inl, inr, Option, none, some, List, [], ◌∷◌, ◌++◌, Str, codes,
  str_eq, Map, if◌then◌else◌,
}
use go_research.Prelude.Int.{ℤ, pos}
use go_research.Config.{LlmConfig, Config}
use go_research.Llm.{new_client}
use go_research.Tool.{Tool, RegisterError, register, get}
use go_research.Tool.Cached.{namespace_of}
use go_research.Tool.Tavily.{Tavily, new_tavily}
use go_research.Dag.Backoff.{exponential_backoff}
use go_research.Dag.Worker.{Scheduler, new_scheduler, with_concurrency, with_backoff}
use go_research.Researcher.Options.{Options}
use go_research.Orchestrator.Engine.{Engine}

-- The search tool behind the cache.
pub data Backend : Type 0 where
  tavily : Tavily → Backend
  mock : Backend

-- The search tool, and the namespace of its cache, if it has one.
pub record SearchTool : Type 0 where
  pub backend : Backend
  pub cached_as : Option Str

pub data StartError (P : Type 0) : Type 0 where
  config_failed llm_failed : StartError P
  postgres_failed : P → StartError P
  register_failed : RegisterError → StartError P

-- `Deps` of the orchestrator, whose pointers may be nil. The model's client is its configuration.
pub record Deps : Type 0 where
  pub llm : Option LlmConfig
  pub tools : Option (Map (Tool SearchTool))
  pub scheduler : Option Scheduler
  pub options : Options

-- What main has made when it runs the server.
pub record Parts : Type 0 where
  pub config : Config
  pub deps : Deps

-- The choice of the backend and of `searchNS`.
unfoldable pub choose_search : Config → Backend × Str
unfolding new_tavily
choose_search cfg =
    if not (str_eq cfg.tavily_api_key [])
    then (
      tavily (new_tavily cfg.tavily_api_key cfg.tavily_search_depth),
      codes "tavily:" ++ cfg.tavily_search_depth,
    )
    else (mock, codes "mock")

unfoldable pub make_search : (redis_up : Bool) → Config → Tool SearchTool
unfolding choose_search namespace_of
make_search redis_up cfg =
    let (backend, ns) = choose_search cfg in
    let cached_as = if redis_up then some (namespace_of (codes "web_search") ns) else none in
    record { name = codes "web_search"; body = record { backend = backend; cached_as = cached_as } }

abbrev pub make_scheduler : Scheduler
make_scheduler = new_scheduler (
    with_concurrency (pos 6)
    ∷ with_backoff (some (exponential_backoff (pos 200000000) (pos 3000000000)))
    ∷ [])

-- `llm.New`, which gives a client or an error.
unfoldable pub make_client : LlmConfig → (constructed : Bool) → Option LlmConfig
unfolding new_client
make_client cfg constructed = if new_client cfg.api_key constructed then some cfg else none

-- `main`, up to the run of the server.
unfoldable pub start :
    {P : Type 0}
    → Option Config
    → (constructed : Bool) (opened : Option P) (redis_up : Bool) → StartError P ⊎ Parts
unfolding make_client make_search register
start none constructed opened redis_up = inl config_failed
start (some cfg) constructed opened redis_up = elim (make_client cfg.llm constructed) [
  | none ↦ inl llm_failed
  | some client ↦ elim opened [
    | some e ↦ inl (postgres_failed e)
    | none ↦
        let (refused, tools) = register (some (make_search redis_up cfg)) [] in
        elim refused [
          | some e ↦ inl (register_failed e)
          | none ↦ inr (record {
            config = cfg;
            deps = record {
              llm = some client;
              tools = some tools;
              scheduler = some make_scheduler;
              options = cfg.agent;
            };
          })
        ]
  ]
]

-- Whether a pointer is not nil.
abbrev pub present : {A : Type 0} → Option A → Bool
present none = false
present (some x) = true

-- What `Run` finds under the name of the search tool.
abbrev pub find_search : Option (Map (Tool SearchTool)) → Option SearchTool
find_search none = none
find_search (some tools) = elim (get tools (codes "web_search")) [
  | none ↦ none
  | some t ↦ some t.body
]

-- `orchestrator.New`: what `Run` finds in its Deps; the rest of the engine is behind them.
abbrev pub new_engine :
    {W E D F C R : Type 0} → Deps → Engine W E D F C SearchTool R → Engine W E D F C SearchTool R
new_engine deps rest = record {
  has_llm = present deps.llm;
  has_tools = present deps.tools;
  has_scheduler = present deps.scheduler;
  search_tool = find_search deps.tools;
  run_of = rest.run_of;
  generate = rest.generate;
  decode_plan = rest.decode_plan;
  planner_prompt = rest.planner_prompt;
  schedule = rest.schedule;
  open_stream = rest.open_stream;
  writer_prompt = rest.writer_prompt;
  ctx_err = rest.ctx_err;
  elapsed_ms = rest.elapsed_ms;
  node_error_text = rest.node_error_text;
  error_text = rest.error_text;
}
