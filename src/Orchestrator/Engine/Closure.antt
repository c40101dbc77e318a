-- ===== src/Orchestrator/Engine/Closure.antt =====
-- The closure that `Run` of internal/agent/orchestrator/orchestrator.go gives to a node: the researcher on
-- what the dependencies have found. The hook's calls are the activity of Engine.
use go_research.Prelude.{
  ℕ, ◌≡◌, ◌≢◌, inl, inr, Option, none, some, List, [], ◌∷◌, Map, Sum-cases, subst, ◌⊎◌, ◌+◌, ◌<◌,
  ap, ◌∙◌,
}
use go_research.Prelude.Int.{max_int}
use go_research.Planner.{Subtask}
use go_research.Dag.Worker.{RunFn, RunOutcome, returns, fails}
use go_research.Researcher.Options.{Options}
use go_research.Researcher.Collect.{Tools, to_nat}
use go_research.Researcher.Options.{normalized}
use go_research.Researcher.Attempts.{Findings, ResearchError, Critics, research_new}
use go_research.Researcher.Attempts.Research.{Researched, research_new-Researched}

pub returned_eq :
    {V E : Type 0} (v w : Option V) → ◌≡◌ {A = RunOutcome V E} (returns v) (returns w) → v ≡ w
returned_eq v w e = cc

-- The findings among the values of the map; Go's range takes them in any order.
pub upstream_of : Map (Option Findings) → List Findings
upstream_of [] = []
upstream_of ((id, v) ∷ m) = let rest = upstream_of m in elim v [ none ↦ rest | some f ↦ f ∷ rest ]

module _ {W E D : Type 0} (t : Tools W E D) (c : Critics E D) (opts : Options)
    (world_at : ℕ → W) where
  -- The result of a RunFn for that of `Research`. A nil pointer is a value that is not nil in the code's
  -- interface, and here it is nil; `Research` returns one without an error only when
  -- MaxCriticRetries is the greatest int.
  abbrev pub outcome_of :
      ResearchError E D ⊎ Option Findings → RunOutcome Findings (ResearchError E D)
  outcome_of (inl e) = fails e
  outcome_of (inr v) = returns v

  unfoldable pub closure : Subtask → RunFn Findings (ResearchError E D)
  unfolding upstream_of
  closure st deps moment =
      outcome_of (research_new t c opts st.id st.question (upstream_of deps) (world_at moment)).0

  -- With a MaxCriticRetries less than the greatest int, the pointer that it returns without an error is
  -- not nil.
  pub closure-not_nil :
      to_nat (normalized opts).max_critic_retries < max_int
      → (st : Subtask) (deps : Map (Option Findings)) (moment : ℕ)
      → closure st deps moment ≢ returns none
  unfolding closure
  closure-not_nil fits st deps moment h =
      let r = research_new t c opts st.id st.question (upstream_of deps) (world_at moment) in
      let (within, good) =
        research_new-Researched t c opts st.id st.question (upstream_of deps) (world_at moment)
          fits in
      elim (Sum-cases r.0) [
        | inl (e, bad) ↦ cc (rw bad at h)
        | inr (v, made) ↦
            let nil : v ≡ none = returned_eq v none (rw made at h) in
            subst
              (λ x.
                Researched opts.critic_enabled st.id st.question
                  (1 + to_nat (normalized opts).max_critic_retries) x r.2.reviews)
              (made ∙ ap inr nil) good
      ]
