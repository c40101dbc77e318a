-- ===== src/Critic.antt =====
-- internal/agent/critic/critic.go. json.Unmarshal of the reply into a score and a feedback is a
-- parameter; a Go int is an integer here.
pub mod Fair
mod Samples
use go_research.Prelude.{
  ℕ, Bool, true, false, ◌⊎◌, inl, inr, List, [], ◌∷◌, ◌++◌, Str, codes, str_eq, if◌then◌else◌,
}
use go_research.Prelude.Int.{ℤ, pos, negsuc, lebℤ, ltbℤ}
use go_research.Text.{trim_space, truncate}
use go_research.Text.Extract.{extract_object}
use go_research.Llm.{Message, message, system, user, Generate}

pub record Review : Type 0 where
  pub score : ℤ
  pub pass : Bool
  pub feedback : Str

pub record Partial : Type 0 where
  pub score : ℤ
  pub feedback : Str

pub data ReviewError (E D : Type 0) : Type 0 where
  empty_findings : ReviewError E D
  llm_failed : E → ReviewError E D
  no_json : (shown : Str) → ReviewError E D
  undecodable : D → ReviewError E D

-- `if minScore <= 0 { minScore = 6 }`
unfoldable pub threshold : ℤ → ℤ
threshold min_score = if lebℤ min_score (pos 0) then pos 6 else min_score

unfoldable pub clamp_score : ℤ → ℤ
clamp_score score =
    let raised = if ltbℤ score (pos 1) then pos 1 else score in
    if ltbℤ (pos 10) raised then pos 10 else raised

module _ {E D : Type 0} (decode : Str → D ⊎ Partial) where
  unfoldable pub parse_review : Str → ℤ → ReviewError E D ⊎ Review
  unfolding threshold clamp_score
  parse_review raw min_score =
      let bar = threshold min_score in
      let trimmed = trim_space raw in
      let json = extract_object trimmed in
      if str_eq json [] then inl (no_json (truncate trimmed 160)) else elim (decode json) [
        | inl d ↦ inl (undecodable d)
        | inr p ↦
            let score = clamp_score p.score in
            inr (record { score = score; pass = lebℤ bar score; feedback = trim_space p.feedback })
      ]

  -- `Critic.Review`, given its two prompts.
  unfoldable pub review :
      {W : Type 0} → Generate W E → ℤ → Str → Str → Str → W → (ReviewError E D ⊎ Review) × W
  unfolding parse_review
  review generate min_score system_prompt prompt markdown w =
      if str_eq (trim_space markdown) []
      then (inl empty_findings, w)
      else let (out, w') = generate (message system system_prompt ∷ message user prompt ∷ []) w in
        (
          elim out [
            | inl e ↦ inl (llm_failed e)
            | inr content ↦ parse_review content (threshold min_score)
          ],
          w',
        )
