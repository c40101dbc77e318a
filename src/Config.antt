-- ===== src/Config.antt =====
-- internal/config/config.go. The environment is a map, with what godotenv has added; strconv.Atoi and
-- strings.ToLower are parameters.
mod Samples
use go_research.Prelude.{
  ◌≡◌, ◌≢◌, refl, ap, ◌↔◌, ◌⊎◌, Bool, true, false, ◌||◌, inl, inr, Option, none, some, List, [],
  ◌∷◌, Str, codes, str_eq, str_eq_iff, Map, lookup, Bool-cases, Option-cases, arith, if◌then◌else◌,
  In,
}
use go_research.Prelude.Int.{ℤ, pos}
use go_research.Text.{trim_space}
use go_research.Researcher.Options.{Options}

pub record LlmConfig : Type 0 where
  pub base_url : Str
  pub api_key : Str
  pub model : Str

pub record PostgresConfig : Type 0 where
  pub host : Str
  pub port : ℤ
  pub user : Str
  pub password : Str
  pub db : Str

pub record RedisConfig : Type 0 where
  pub addr : Str
  pub password : Str
  pub db : ℤ

-- AgentConfig has the fields of Options.
pub record Config : Type 0 where
  pub server_addr : Str
  pub log_level : Str
  pub api_key : Str
  pub research_timeout_seconds : ℤ
  pub llm : LlmConfig
  pub postgres : PostgresConfig
  pub redis : RedisConfig
  pub tavily_api_key : Str
  pub tavily_search_depth : Str
  pub agent : Options

-- `getEnv`
unfoldable pub get_env : Map Str → Str → Str → Str
get_env env key fallback = elim (lookup key env) [
  | none ↦ fallback
  | some v ↦ if str_eq v [] then fallback else v
]

-- `getEnvInt`
unfoldable pub get_env_int : (Str → Option ℤ) → Map Str → Str → ℤ → ℤ
get_env_int atoi env key fallback = elim (lookup key env) [
  | none ↦ fallback
  | some v ↦ if str_eq v [] then fallback else elim (atoi v) [ none ↦ fallback | some n ↦ n ]
]

-- Whether one of the cases of the switch is the text.
abbrev pub one_of : List Str → Str → Bool
one_of [] s = false
one_of (c ∷ cs) s = let rest = one_of cs s in if str_eq c s then true else rest

abbrev pub true_words : List Str
true_words = codes "1" ∷ codes "true" ∷ codes "yes" ∷ codes "on" ∷ []

abbrev pub false_words : List Str
false_words = codes "0" ∷ codes "false" ∷ codes "no" ∷ codes "off" ∷ []

-- `getEnvBool`
unfoldable pub get_env_bool : (Str → Str) → Map Str → Str → Bool → Bool
get_env_bool to_lower env key fallback = elim (lookup key env) [
  | none ↦ fallback
  | some v ↦
      if str_eq v []
      then fallback
      else let word = to_lower (trim_space v) in
        if one_of true_words word then true else if one_of false_words word then false else fallback
]

module _ (atoi : Str → Option ℤ) (to_lower : Str → Str) where
  -- `Load`; none is its error.
  unfoldable pub load : Map Str → Option Config
  unfolding get_env get_env_int get_env_bool
  load env =
      let cfg : Config = record {
        server_addr = get_env env (codes "SERVER_ADDR") (codes ":8080");
        log_level = to_lower (get_env env (codes "LOG_LEVEL") (codes "info"));
        api_key = get_env env (codes "API_KEY") [];
        research_timeout_seconds =
            get_env_int atoi env (codes "RESEARCH_TIMEOUT_SECONDS") (pos 180);
        llm = record {
          base_url = get_env env (codes "LLM_BASE_URL") (codes "https://api.deepseek.com/v1");
          api_key = get_env env (codes "LLM_API_KEY") [];
          model = get_env env (codes "LLM_MODEL") (codes "deepseek-chat");
        };
        postgres = record {
          host = get_env env (codes "POSTGRES_HOST") (codes "127.0.0.1");
          port = get_env_int atoi env (codes "POSTGRES_PORT") (pos 5432);
          user = get_env env (codes "POSTGRES_USER") (codes "research");
          password = get_env env (codes "POSTGRES_PASSWORD") (codes "research");
          db = get_env env (codes "POSTGRES_DB") (codes "research");
        };
        redis = record {
          addr = get_env env (codes "REDIS_ADDR") (codes "127.0.0.1:6379");
          password = get_env env (codes "REDIS_PASSWORD") [];
          db = get_env_int atoi env (codes "REDIS_DB") (pos 0);
        };
        tavily_api_key = get_env env (codes "TAVILY_API_KEY") [];
        tavily_search_depth = get_env env (codes "TAVILY_SEARCH_DEPTH") (codes "basic");
        agent = record {
          max_search_rounds = get_env_int atoi env (codes "RESEARCH_MAX_SEARCH_ROUNDS") (pos 2);
          max_follow_up_queries =
              get_env_int atoi env (codes "RESEARCH_MAX_FOLLOWUP_QUERIES") (pos 2);
          critic_enabled = get_env_bool to_lower env (codes "CRITIC_ENABLED") true;
          critic_min_score = get_env_int atoi env (codes "CRITIC_MIN_SCORE") (pos 6);
          max_critic_retries = get_env_int atoi env (codes "CRITIC_MAX_RETRIES") (pos 1);
        };
      } in
      if str_eq cfg.llm.api_key [] then none else some cfg

  get_env_blank :
      (env : Map Str) (key : Str)
      → (get_env env key [] ≡ []) ↔ ((lookup key env ≡ none) ⊎ (lookup key env ≡ some []))
  unfolding get_env
  get_env_blank env key = elim (Option-cases (lookup key env)) [
    | inl e ↦ rw (get_env, e) (λ h. inl refl, λ h. refl)
    | inr (v, e) ↦
        rw (get_env, e)
          (
            λ h. inr (ap some (ground (arith, str_eq_iff v []))),
            λ h. ground (arith, str_eq_iff v []),
          )
  ]

  -- `Load` fails exactly when LLM_API_KEY is unset or empty.
  pub load-eq-none_iff :
      (env : Map Str)
      → (load env ≡ none)
        ↔ ((lookup (codes "LLM_API_KEY") env ≡ none) ⊎ (lookup (codes "LLM_API_KEY") env ≡ some []))
  unfolding load
  load-eq-none_iff env =
      let (to, from) = get_env_blank env (codes "LLM_API_KEY") in
      let key = get_env env (codes "LLM_API_KEY") [] in
      elim (Bool-cases (str_eq key [])) [
        | inl blank ↦ rw (load, blank) (λ h. to ((str_eq_iff key []).0 blank), λ h. refl)
        | inr there ↦
            rw (load, there)
              (λ h. absurd cc, λ h. absurd (ground (arith, str_eq_iff key [], from h)))
      ]
