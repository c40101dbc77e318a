-- ===== src/Researcher/Attempts/Research.antt =====
-- What `Research` returns, searches and reviews together.
use go_research.Prelude.{
  ℕ, suc, ◌+◌, ◌<◌, ◌≤◌, Bool, ◌≡◌, refl, ap, ◌≢◌, ◌⊎◌, inl, inr, Option, none, some, List, [], Str,
  length, arith, In, Sum-cases, Bool-cases, subst,
}
use go_research.Prelude.Int.{max_int}
use go_research.Dag.Graph.Add.{Distinct}
use go_research.Researcher.Options.{Options, normalized, normalized-IsNormal, normalized-eq_self}
use go_research.Researcher.Dedup.{SearchItem, urls}
use go_research.Researcher.Collect.{Tools, to_nat, collect_search_results}
use go_research.Researcher.Collect.Budget.{
  search_budget, search_budget_of, collect_search_results-Kept, collect_search_results-found,
}
use go_research.Researcher.Attempts.{
  Findings, CriticReview, ResearchError, Reviewed, Critics, attempts, research, research_new,
  max_attempts_lem,
}
use go_research.Researcher.Attempts.Outcome.{
  Answers, Reviews, Delivers, attempts-reviewed, attempts-unreviewed,
}

-- Search results that findings can stand on.
pub record IsSource (items : List SearchItem) : Type 0 where
  pub distinct : Distinct (urls items)
  pub named : ¬ In [] (urls items)
  pub present : items ≢ []

module _ {E D : Type 0} (enabled : Bool) (task_id question : Str) (most : ℕ) where
  -- An error, or findings whose citations are search results; never a nil pointer. In both cases
  -- there are no more reviews than attempts allowed.
  abbrev pub Researched : ResearchError E D ⊎ Option Findings → List CriticReview → Type 0
  Researched (inl e) reviews = length reviews ≤ most
  Researched (inr none) reviews = ⊥
  Researched (inr (some f)) reviews =
      (items : List SearchItem) × IsSource items
      × Answers task_id question items f
      × Reviews enabled most reviews
      × (length reviews ≤ most)

  Delivers-Researched :
      (items : List SearchItem)
      → IsSource items
      → (r : ResearchError E D ⊎ Option Findings) (reviews : List CriticReview)
      → Delivers enabled task_id question items most r reviews
      → Researched r reviews
  Delivers-Researched items source (inl e) reviews d = d
  Delivers-Researched items source (inr none) reviews d = d
  Delivers-Researched items source (inr (some f)) reviews (answers, ends, count) =
      (items, source, answers, ends, count)

module _ {W E D : Type 0} (t : Tools W E D) (c : Critics E D) where
  module _ (o : Options) (task_id question : Str) (items : List SearchItem)
      (upstream : List Findings) (w : W) where
    abbrev Run : ℕ → Type 0
    Run most =
        let r =
          attempts t c o task_id question items upstream most most 1 [] none
            (record { reviews = []; world = w }) in
        Delivers o.critic_enabled task_id question items most r.0 r.1.reviews

    run_suc : (more : ℕ) → Run (suc more)
    run_suc more =
        let s : Reviewed W = record { reviews = []; world = w } in
        elim (Bool-cases o.critic_enabled) [
          | inl on ↦ simp on (
              attempts-reviewed t c o task_id question items upstream (suc more) on more 1 [] none s
                (omega arith) (omega arith))
          | inr off ↦ simp off (
              attempts-unreviewed t c o task_id question items upstream (suc more) off more [] none
                s refl)
        ]

    run : (more : ℕ) → Run (1 + more)
    run more = subst Run (omega arith) (run_suc more)

  pub research_new-Researched :
      (opts : Options) (task_id question : Str) (upstream : List Findings) (w : W)
      → to_nat (normalized opts).max_critic_retries < max_int
      → let r = research_new t c opts task_id question upstream w in
        (length r.1 ≤ search_budget opts)
        × Researched opts.critic_enabled task_id question
            (1 + to_nat (normalized opts).max_critic_retries)
            r.0
            r.2.reviews
  unfolding research_new research normalized
  research_new-Researched opts task_id question upstream w fits =
      let o = normalized opts in
      let (found, g) = collect_search_results t o question w in
      let kept = collect_search_results-Kept t o question w in
      let same : search_budget o ≡ search_budget opts =
        ap (λ (p : Options). search_budget_of p)
          (normalized-eq_self o (normalized-IsNormal opts)) in
      let within : length g.log ≤ search_budget opts =
        subst (λ b. length g.log ≤ b) same kept.within in
      elim (Sum-cases found) [
        | inl (e, bad) ↦ rw (research_new, research, bad) (within, omega arith)
        | inr (items, good) ↦
            let (all, present) = collect_search_results-found t o question w items good in
            let source : IsSource items = record {
              distinct = rw all kept.deduped.distinct;
              named = rw all kept.deduped.named;
              present = present;
            } in
            let done =
              run o task_id question items upstream g.world (to_nat o.max_critic_retries) in
            rw (research_new, research, good, max_attempts_lem o.max_critic_retries fits)
              (
                within,
                Delivers-Researched opts.critic_enabled task_id question _ items source _ _ done,
              )
      ]
