-- ===== src/Researcher/Attempts.antt =====
-- The loop of synthesis and review of `Research` (internal/agent/researcher/researcher.go). The texts
-- of the fixed prompts, and the critic's prompt, are parameters.
pub mod Outcome
pub mod Research
use go_research.Prelude.{
  ℕ, zero, suc, ◌+◌, Bool, true, false, ◌||◌, ◌⊎◌, inl, inr, Option, none, some, List, [], ◌∷◌,
  ◌++◌, Str, codes, str_eq, ◌==◌, if◌then◌else◌, ltb, ◌<◌, ◌≡◌, arith,
}
use go_research.Prelude.Int.{ℤ, max_int}
use go_research.Text.{trim_space, one_line, decimal}
use go_research.Llm.{message, system, user}
use go_research.Critic.{Partial, ReviewError, review}
use go_research.Researcher.Options.{Options, normalized}
use go_research.Researcher.Dedup.{SearchItem}
use go_research.Researcher.Collect.{
  SearchRound, Gathered, CollectError, Tools, to_nat, collect_search_results,
}

pub record Citation : Type 0 where
  pub index : ℕ
  pub title : Str
  pub url : Str
  pub snippet : Str

pub record Findings : Type 0 where
  pub task_id : Str
  pub question : Str
  pub markdown : Str
  pub citations : List Citation

-- CriticReviewPayload, less the task's ID.
pub record CriticReview : Type 0 where
  pub attempt : ℕ
  pub score : ℤ
  pub pass : Bool
  pub feedback : Str

pub data ResearchError (E D : Type 0) : Type 0 where
  collect_failed : CollectError E D → ResearchError E D
  llm_failed : E → ResearchError E D
  critic_failed : ReviewError E D → ResearchError E D

-- The numbered search results of the prompt.
pub result_lines : ℕ → List SearchItem → Str
unfolding decimal
result_lines i [] = []
result_lines i (it ∷ items) =
    codes "["
    ++ decimal i
    ++ codes "] "
    ++ it.title
    ++ codes " ("
    ++ it.url
    ++ codes ")\n"
    ++ it.snippet
    ++ codes "\n\n"
    ++ result_lines (i + 1) items

pub upstream_lines : List Findings → Str
unfolding one_line
upstream_lines [] = []
upstream_lines (u ∷ us) =
    codes "- "
    ++ u.question
    ++ codes ": "
    ++ one_line u.markdown 240
    ++ codes "\n"
    ++ upstream_lines us

abbrev upstream_part : List Findings → Str
upstream_part [] = []
upstream_part (u ∷ us) =
    codes "Context from upstream researchers (use sparingly):\n"
    ++ upstream_lines (u ∷ us)
    ++ codes "\n"

unfoldable pub build_prompt : Str → List SearchItem → List Findings → Str
unfolding result_lines upstream_lines
build_prompt question items upstream =
    codes "Sub-question:\n"
    ++ question
    ++ codes "\n\nSearch results:\n"
    ++ result_lines 1 items
    ++ upstream_part upstream
    ++ codes "Output ONLY the Markdown findings."

-- The citations of the results, numbered from `i` on.
pub cite : ℕ → List SearchItem → List Citation
cite i [] = []
cite i (it ∷ items) =
    record { index = i; title = it.title; url = it.url; snippet = it.snippet } ∷ cite (i + 1) items

-- What the hook has been told, and the world.
pub record Reviewed (W : Type 0) : Type 0 where
  pub reviews : List CriticReview
  pub world : W

-- What `Research` calls besides the search: the critic's parts.
pub record Critics (E D : Type 0) : Type 0 where
  pub system_prompt : Str
  pub decode_review : Str → D ⊎ Partial
  pub critic_system : Str
  pub critic_prompt : (question markdown : Str) (citation_count : ℕ) → Str

abbrev pub cite_count : List Citation → ℕ
cite_count [] = zero
cite_count (_ ∷ cs) = suc (cite_count cs)

-- What `synthesize` makes of a reply; the caller sets the task's ID.
abbrev pub read_findings :
    {E D : Type 0} → Str → Str → List SearchItem → E ⊎ Str → ResearchError E D ⊎ Findings
read_findings task_id question items (inl e) = inl (llm_failed e)
read_findings task_id question items (inr content) = inr (record {
  task_id = task_id;
  question = question;
  markdown = trim_space content;
  citations = cite 1 items;
})

-- `maxAttempts`, which wraps around to a negative number, and so to no attempt, when
-- MaxCriticRetries is the greatest int.
unfoldable pub max_attempts : ℤ → ℕ
max_attempts retries = if ltb (to_nat retries) max_int then 1 + to_nat retries else 0

pub max_attempts_lem : (r : ℤ) → to_nat r < max_int → max_attempts r ≡ 1 + to_nat r
unfolding max_attempts
max_attempts_lem r fits = ground arith

module _ {W E D : Type 0} (t : Tools W E D) (c : Critics E D) (o : Options) where
  -- `synthesize`
  unfoldable pub synthesize :
      Str → Str → List SearchItem → List Findings → Str → W → (ResearchError E D ⊎ Findings) × W
  unfolding build_prompt cite
  synthesize task_id question items upstream extra w =
      let prompt = build_prompt question items upstream in
      let full =
        if str_eq extra []
        then prompt
        else prompt
          ++ codes "\n\nReviewer feedback (address these gaps):\n"
          ++ extra
          ++ codes "\n" in
      let (out, w') = t.generate (message system c.system_prompt ∷ message user full ∷ []) w in
      (read_findings task_id question items out, w')

  module _ (task_id question : Str) (items : List SearchItem) (upstream : List Findings) where
    -- The loop with `left` attempts to go, `most` in all; none stands for a nil pointer.
    pub attempts :
        (most left attempt : ℕ) (feedback : Str)
        → Option Findings
        → Reviewed W
        → (ResearchError E D ⊎ Option Findings) × Reviewed W
    unfolding synthesize review
    attempts most zero attempt feedback last s = (inr last, s)
    attempts most (suc left) attempt feedback last s =
        let (made, w) = synthesize task_id question items upstream feedback s.world in
        let s' : Reviewed W = record { reviews = s.reviews; world = w } in
        elim made [
          | inl e ↦ (inl e, s')
          | inr f ↦
              let reviewed =
                review c.decode_review t.generate o.critic_min_score c.critic_system
                  (c.critic_prompt question f.markdown (cite_count f.citations)) f.markdown w in
              if o.critic_enabled
              then elim reviewed.0 [
                | inl e ↦
                    (inl (critic_failed e), record { reviews = s.reviews; world = reviewed.1 })
                | inr r ↦
                    let told : CriticReview = record {
                      attempt = attempt;
                      score = r.score;
                      pass = r.pass;
                      feedback = r.feedback;
                    } in
                    let s'' : Reviewed W = record {
                      reviews = s.reviews ++ told ∷ [];
                      world = reviewed.1;
                    } in
                    let again = attempts most left (attempt + 1) r.feedback (some f) s'' in
                    if r.pass || (attempt == most) then (inr (some f), s'') else again
              ]
              else (inr (some f), s')
        ]

  -- `Research`; its second component is what the hook has been told of the searches. `New` has
  -- normalised the options.
  unfoldable pub research :
      Str
      → Str
      → List Findings
      → W
      → (ResearchError E D ⊎ Option Findings) × List SearchRound × Reviewed W
  unfolding attempts max_attempts
  research task_id question upstream w =
      let (gathered, g) = collect_search_results t o question w in
      let s : Reviewed W = record { reviews = []; world = g.world } in
      elim gathered [
        | inl e ↦ (inl (collect_failed e), g.log, s)
        | inr items ↦
            let most = max_attempts o.max_critic_retries in
            let (result, s') = attempts task_id question items upstream most most 1 [] none s in
            (result, g.log, s')
      ]

-- `New` and `Research`.
unfoldable pub research_new :
    {W E D : Type 0}
    → Tools W E D
    → Critics E D
    → Options
    → Str
    → Str
    → List Findings
    → W
    → (ResearchError E D ⊎ Option Findings) × List SearchRound × Reviewed W
unfolding research
research_new t c opts = research t c (normalized opts)
