-- ===== src/Config/Samples.antt =====
-- Two environments for internal/config/config.go.
use go_research.Prelude.{
  if◌then◌else◌, ◌≡◌, refl, true, false, Option, none, some, [], ◌∷◌, Str, codes, Map, lookup,
  str_eq,
}
use go_research.Prelude.Int.{ℤ, pos}
use go_research.Text.{trim_space}
use go_research.Config.{get_env_bool, get_env_int}

abbrev atoi : Str → Option ℤ
atoi s = if str_eq s (codes "7") then some (pos 7) else none

abbrev env : Map Str
env =
    (codes "LLM_MODEL", codes "m")
    ∷ (codes "REDIS_DB", codes "7")
    ∷ (codes "POSTGRES_PORT", codes "x")
    ∷ (codes "CRITIC_ENABLED", codes " off ")
    ∷ []

critic_off : get_env_bool (λ s. s) env (codes "CRITIC_ENABLED") true ≡ false
unfolding get_env_bool trim_space lookup str_eq
critic_off = refl

redis_db : get_env_int atoi env (codes "REDIS_DB") (pos 0) ≡ pos 7
unfolding get_env_int lookup str_eq
redis_db = refl

default_port : get_env_int atoi env (codes "POSTGRES_PORT") (pos 5432) ≡ pos 5432
unfolding get_env_int lookup str_eq
default_port = refl
