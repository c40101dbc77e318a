-- ===== src/Researcher/Options.antt =====
-- internal/agent/researcher/options.go
use go_research.Prelude.{Bool, ◌≡◌, arith, if◌then◌else◌}
use go_research.Prelude.Int.{ℤ, pos, lebℤ, ltbℤ, ◌≤ℤ◌}

pub record Options : Type 0 where
  pub max_search_rounds : ℤ
  pub max_follow_up_queries : ℤ
  pub critic_enabled : Bool
  pub critic_min_score : ℤ
  pub max_critic_retries : ℤ

abbrev or_default : ℤ → ℤ → ℤ
or_default d z = if lebℤ z (pos 0) then d else z

unfoldable pub normalized : Options → Options
normalized o = record {
  max_search_rounds = or_default (pos 2) o.max_search_rounds;
  max_follow_up_queries = or_default (pos 2) o.max_follow_up_queries;
  critic_enabled = o.critic_enabled;
  critic_min_score = or_default (pos 6) o.critic_min_score;
  max_critic_retries = if ltbℤ o.max_critic_retries (pos 0) then pos 0 else o.max_critic_retries;
}

pub record IsNormal (o : Options) : Type 0 where
  pub rounds : pos 1 ≤ℤ o.max_search_rounds
  pub queries : pos 1 ≤ℤ o.max_follow_up_queries
  pub score : pos 1 ≤ℤ o.critic_min_score
  pub retries : pos 0 ≤ℤ o.max_critic_retries

pub normalized-IsNormal : (o : Options) → IsNormal (normalized o)
unfolding normalized
normalized-IsNormal o = record {
  rounds = ground arith;
  queries = ground arith;
  score = ground arith;
  retries = ground arith;
}

pub normalized-eq_self : (o : Options) → IsNormal o → normalized o ≡ o
unfolding normalized
normalized-eq_self o n = ground arith
