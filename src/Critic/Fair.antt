-- ===== src/Critic/Fair.antt =====
-- What a review by internal/agent/critic/critic.go says, whatever the model replied.
use go_research.Prelude.{true, ◌≡◌, ◌⊎◌, ◌↔◌, inl, inr, [], ◌∷◌, Str, arith, str_eq_iff, Sum-cases}
use go_research.Prelude.Int.{ℤ, pos, lebℤ, ◌≤ℤ◌}
use go_research.Llm.{Generate, message, system, user}
use go_research.Text.Extract.{extract_object}
use go_research.Text.{trim_space}
use go_research.Critic.{
  Review, Partial, empty_findings, threshold, clamp_score, parse_review, review,
}

-- The score is on the scale, and the review passes exactly when it reaches the bar.
pub record IsFair (bar : ℤ) (r : Review) : Type 0 where
  pub low : pos 1 ≤ℤ r.score
  pub high : r.score ≤ℤ pos 10
  pub passes : (r.pass ≡ true) ↔ (bar ≤ℤ r.score)

clamp_score_bounds : (z : ℤ) → (pos 1 ≤ℤ clamp_score z) × (clamp_score z ≤ℤ pos 10)
unfolding clamp_score
clamp_score_bounds z = ground arith

lebℤ_iff : (a b : ℤ) → (lebℤ a b ≡ true) ↔ (a ≤ℤ b)
lebℤ_iff a b = ground arith

pub threshold_pos : (z : ℤ) → pos 1 ≤ℤ threshold z
unfolding threshold
threshold_pos z = ground arith

threshold_idem : (z : ℤ) → threshold (threshold z) ≡ threshold z
unfolding threshold
threshold_idem z = ground arith

module _ {E D : Type 0} (decode : Str → D ⊎ Partial) where
  parse_review_fields :
      (raw : Str) (min_score : ℤ) (r : Review)
      → parse_review {E = E} decode raw min_score ≡ inr r
      → (p : Partial) × (r.score ≡ clamp_score p.score)
        × (r.pass ≡ lebℤ (threshold min_score) (clamp_score p.score))
  unfolding parse_review
  parse_review_fields raw min_score r h =
      elim (Sum-cases (decode (extract_object (trim_space raw)))) [
        | inl (d, bad) ↦ ground arith
        | inr (p, good) ↦ (p, ground arith, ground arith)
      ]

  parse_review-IsFair :
      (raw : Str) (min_score : ℤ) (r : Review)
      → parse_review {E = E} decode raw min_score ≡ inr r
      → IsFair (threshold min_score) r
  parse_review-IsFair raw min_score r h =
      let (p, score, pass) = parse_review_fields raw min_score r h in
      let (low, high) = clamp_score_bounds p.score in
      let bar = lebℤ_iff (threshold min_score) (clamp_score p.score) in
      record { low = rw score low; high = rw score high; passes = rw (pass, score) bar }

  -- A review that `Review` returns has a score from 1 to 10, and passes exactly when the score reaches
  -- the configured minimum, or 6 if that is not positive.
  pub review-IsFair :
      {W : Type 0} (generate : Generate W E) (min_score : ℤ) (system_prompt prompt markdown : Str)
      (w : W) (r : Review)
      → (review decode generate min_score system_prompt prompt markdown w).0 ≡ inr r
      → IsFair (threshold min_score) r
  unfolding review
  review-IsFair generate min_score system_prompt prompt markdown w r h =
      elim (Sum-cases (generate (message system system_prompt ∷ message user prompt ∷ []) w).0) [
        | inl (e, failed) ↦ ground arith
        | inr (content, replied) ↦
            rw (threshold_idem min_score) at
              (parse_review-IsFair content (threshold min_score) r (ground arith))
      ]

  -- Findings that are blank are refused before the model is asked.
  pub review_blank :
      {W : Type 0} (generate : Generate W E) (min_score : ℤ) (system_prompt prompt markdown : Str)
      (w : W)
      → trim_space markdown ≡ []
      → review decode generate min_score system_prompt prompt markdown w ≡ (inl empty_findings, w)
  unfolding review
  review_blank generate min_score system_prompt prompt markdown w h =
      ground (arith, str_eq_iff (trim_space markdown) [])
