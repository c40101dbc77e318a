-- ===== src/Main/Started.antt =====
-- What cmd/server/main.go has put together when the server runs.
use go_research.Prelude.{
  Bool, true, false, ◌≡◌, ◌≢◌, refl, ◌⊎◌, inl, inr, Option, none, some, [], ◌++◌, Map,
  if◌then◌else◌, Str, codes, str_eq, str_eq_iff, lookup, insert, lookup-insert_self, subst, ap, ◌∙◌,
  Bool-cases, Option-cases, arith,
}
use go_research.Prelude.Int.{pos}
use go_research.Config.{Config}
use go_research.Llm.{new_client}
use go_research.Tool.{Tool, get, register}
use go_research.Dag.Worker.{Scheduler, new_scheduler, with_concurrency, with_backoff}
use go_research.Orchestrator.Engine.{Engine, run}
use go_research.Orchestrator.Engine.Wired.{IsWired, run-IsWired}
use go_research.Tool.Cached.{namespace_of}
use go_research.Tool.Tavily.{new_tavily, or_default}
use go_research.Tool.Tavily.Asked.{IsOr, or_default-IsOr}
use go_research.Main.{
  Deps, Parts, SearchTool, tavily, mock, choose_search, make_search, make_scheduler, make_client,
  start, present, find_search, new_engine,
}

-- The search tool that the configuration asks for: Tavily, with the key and the depth (or basic), when
-- there is a key, and the mock when there is none. With the cache its entries stand under a
-- name of their own.
pub record IsSearch (redis_up : Bool) (cfg : Config) (tool : SearchTool) : Type 0 where
  pub namespace : Str
  pub depth : Str
  pub deep : IsOr cfg.tavily_search_depth (codes "basic") depth
  pub chosen :
      ((cfg.tavily_api_key ≡ []) × (tool.backend ≡ mock) × (namespace ≡ codes "mock"))
      ⊎ ((cfg.tavily_api_key ≢ [])
          × (tool.backend
              ≡ tavily
                  (record { api_key = cfg.tavily_api_key; search_depth = depth; endpoint = [] }))
          × (namespace ≡ codes "tavily:" ++ cfg.tavily_search_depth))
  pub cached :
      ((redis_up ≡ true) × (tool.cached_as ≡ some namespace))
      ⊎ ((redis_up ≡ false) × (tool.cached_as ≡ none))

-- The server can run.
pub record Started {P : Type 0} (loaded : Option Config) (constructed : Bool) (opened : Option P)
    (redis_up : Bool) (parts : Parts) : Type 0 where
  pub config : loaded ≡ some parts.config
  pub keyed : parts.config.llm.api_key ≢ []
  pub client : constructed ≡ true
  pub model : parts.deps.llm ≡ some parts.config.llm
  pub database : opened ≡ none
  pub registry : Map (Tool SearchTool)
  pub tools : parts.deps.tools ≡ some registry
  pub tool : Tool SearchTool
  pub found : get registry (codes "web_search") ≡ some tool
  pub search : IsSearch redis_up parts.config tool.body
  pub scheduler : Scheduler
  pub scheduled : parts.deps.scheduler ≡ some scheduler
  pub workers : scheduler.concurrency ≡ pos 6

inr_eq : {A B : Type 0} (v w : B) → ◌≡◌ {A = A ⊎ B} (inr v) (inr w) → v ≡ w
inr_eq v w e = cc

-- The parts that main makes of the configuration.
abbrev parts_of : (redis_up : Bool) → Config → Parts
parts_of redis_up cfg = record {
  config = cfg;
  deps = record {
    llm = some cfg.llm;
    tools = some (register (some (make_search redis_up cfg)) []).1;
    scheduler = some make_scheduler;
    options = cfg.agent;
  };
}

six_workers : make_scheduler.concurrency ≡ pos 6
unfolding new_scheduler with_concurrency with_backoff
six_workers = refl

registered :
    (redis_up : Bool) (cfg : Config)
    → register (some (make_search redis_up cfg)) []
      ≡ (none, insert (codes "web_search") (make_search redis_up cfg) [])
unfolding register make_search lookup str_eq
registered redis_up cfg = refl

cached-IsSearch :
    (redis_up : Bool) (namespace : Str)
    → let cached_as = if redis_up then some namespace else none in
      ((redis_up ≡ true) × (cached_as ≡ some namespace)) ⊎ ((redis_up ≡ false) × (cached_as ≡ none))
cached-IsSearch true namespace = inl (refl, refl)
cached-IsSearch false namespace = inr (refl, refl)

make_search-IsSearch :
    (redis_up : Bool) (cfg : Config) → IsSearch redis_up cfg (make_search redis_up cfg).body
unfolding make_search choose_search new_tavily namespace_of str_eq
make_search-IsSearch redis_up cfg = elim (Bool-cases (str_eq cfg.tavily_api_key [])) [
  | inl blank ↦ record {
    namespace = codes "mock";
    depth = or_default cfg.tavily_search_depth (codes "basic");
    deep = or_default-IsOr cfg.tavily_search_depth (codes "basic");
    chosen = rw blank (inl ((str_eq_iff cfg.tavily_api_key []).0 blank, refl, refl));
    cached = rw blank (cached-IsSearch redis_up (codes "mock"));
  }
  | inr keyed ↦ record {
    namespace = codes "tavily:" ++ cfg.tavily_search_depth;
    depth = or_default cfg.tavily_search_depth (codes "basic");
    deep = or_default-IsOr cfg.tavily_search_depth (codes "basic");
    chosen = rw keyed (inr (λ e. ground (arith, str_eq_iff cfg.tavily_api_key []), refl, refl));
    cached = rw keyed (cached-IsSearch redis_up (codes "tavily:" ++ cfg.tavily_search_depth));
  }
]

parts_of-Started :
    {P : Type 0} (redis_up : Bool) (cfg : Config)
    → str_eq cfg.llm.api_key [] ≡ false
    → Started {P = P} (some cfg) true none redis_up (parts_of redis_up cfg)
unfolding get
parts_of-Started redis_up cfg keyed = record {
  config = refl;
  keyed = λ k. ground (arith, str_eq_iff cfg.llm.api_key []);
  client = refl;
  model = refl;
  database = refl;
  registry = (register (some (make_search redis_up cfg)) []).1;
  tools = refl;
  tool = make_search redis_up cfg;
  found =
      ap (λ r. lookup (codes "web_search") r.1) (registered redis_up cfg)
      ∙ lookup-insert_self (codes "web_search") (make_search redis_up cfg) [];
  search = make_search-IsSearch redis_up cfg;
  scheduler = make_scheduler;
  scheduled = refl;
  workers = six_workers;
}

start-Started :
    {P : Type 0} (loaded : Option Config) (constructed : Bool) (opened : Option P) (redis_up : Bool)
    (parts : Parts)
    → start loaded constructed opened redis_up ≡ inr parts
    → Started loaded constructed opened redis_up parts
unfolding start make_client new_client
start-Started none constructed opened redis_up parts h = absurd cc
start-Started {P} (some cfg) constructed opened redis_up parts h =
    elim (Bool-cases (str_eq cfg.llm.api_key [])) [
      | inl blank ↦ absurd (let e = rw (start, make_client, new_client, blank) at h in cc)
      | inr keyed ↦ elim (Bool-cases constructed) [
        | inr not_made ↦
            absurd (let e = rw (start, make_client, new_client, keyed, not_made) at h in cc)
        | inl made ↦ elim (Option-cases opened) [
          | inr (x, down) ↦
              absurd (let e = rw (start, make_client, new_client, keyed, made, down) at h in cc)
          | inl up ↦
              let e : parts_of redis_up cfg ≡ parts = inr_eq (parts_of redis_up cfg) parts (
                rw
                  (
                    start,
                    make_client,
                    new_client,
                    keyed,
                    made,
                    up,
                    ap (λ r. r.0) (registered redis_up cfg),
                  )
                  at h) in
              rw (made, up)
                (subst (λ p. Started {P = P} (some cfg) true none redis_up p) e
                  (parts_of-Started redis_up cfg keyed))
        ]
      ]
    ]

has_search :
    (deps : Deps) (registry : Map (Tool SearchTool)) (tool : Tool SearchTool)
    → deps.tools ≡ some registry
    → get registry (codes "web_search") ≡ some tool
    → find_search deps.tools ≡ some tool.body
has_search deps registry tool there found = rw (there, find_search, found) refl

-- When main runs the server, the configuration has been loaded with a key for the model, and the
-- client and the database are there. The orchestrator has got that client, a scheduler with six
-- workers, and tools of which web_search is Tavily, with its key and depth, if the configuration
-- has a key and else the mock, cached under a name of its own exactly when Redis has answered; and
-- `Run`, whatever is asked, fails neither for a missing part nor for a missing tool.
pub start-IsWired :
    {P W E D F C R : Type 0} (loaded : Option Config) (constructed : Bool) (opened : Option P)
    (redis_up : Bool) (parts : Parts) (rest : Engine W E D F C SearchTool R) (question : Str)
    (w : W)
    → start loaded constructed opened redis_up ≡ inr parts
    → Started loaded constructed opened redis_up parts
      × IsWired (new_engine parts.deps rest) (run (new_engine parts.deps rest) question w)
start-IsWired loaded constructed opened redis_up parts rest question w h =
    let started = start-Started loaded constructed opened redis_up parts h in
    (
      started,
      run-IsWired (new_engine parts.deps rest) question w started.tool.body
          (ap (λ o. present o) started.model) (ap (λ o. present o) started.tools)
          (ap (λ o. present o) started.scheduled)
          (has_search parts.deps started.registry started.tool started.tools started.found),
    )
