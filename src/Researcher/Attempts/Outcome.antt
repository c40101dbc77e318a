-- ===== src/Researcher/Attempts/Outcome.antt =====
-- How the loop of `Research` ends.
use go_research.Prelude.{
  ℕ, zero, suc, ◌+◌, ◌≤◌, Bool, true, false, ◌||◌, ◌≡◌, refl, sym, ◌∙◌, ◌⊎◌, inl, inr, Option, none,
  some, List, [], ◌∷◌, ◌++◌, Str, length, length-append, arith, ◌==◌, Sum-cases, Bool-cases,
}
use go_research.Researcher.Options.{Options}
use go_research.Researcher.Dedup.{SearchItem}
use go_research.Researcher.Collect.{Tools}
use go_research.Critic.{review}
use go_research.Researcher.Attempts.{
  Findings, CriticReview, ResearchError, cite, read_findings, Reviewed, Critics, cite_count,
  synthesize, attempts,
}

-- The log ends in the review of the last attempt, which passed or was the last one allowed, and the
-- attempts have the numbers 1, 2, ....
pub record Settled (most : ℕ) (reviews : List CriticReview) : Type 0 where
  pub older : List CriticReview
  pub final : CriticReview
  pub ends : reviews ≡ older ++ final ∷ []
  pub number : final.attempt ≡ length reviews
  pub settled : (final.pass ≡ true) ⊎ (final.attempt ≡ most)

-- Findings for the task, with all the items as citations.
pub record Answers (task_id question : Str) (items : List SearchItem) (f : Findings) : Type 0 where
  pub task : f.task_id ≡ task_id
  pub asked : f.question ≡ question
  pub cites : f.citations ≡ cite 1 items

-- By the value of CriticEnabled.
abbrev pub Reviews : Bool → ℕ → List CriticReview → Type 0
Reviews false most reviews = reviews ≡ []
Reviews true most reviews = Settled most reviews

-- A result is an error or findings, never a nil pointer.
module _ {E D : Type 0} (enabled : Bool) (task_id question : Str) (items : List SearchItem)
    (most : ℕ) where
  abbrev pub Delivers : ResearchError E D ⊎ Option Findings → List CriticReview → Type 0
  Delivers (inl e) reviews = length reviews ≤ most
  Delivers (inr none) reviews = ⊥
  Delivers (inr (some f)) reviews =
      Answers task_id question items f × Reviews enabled most reviews × (length reviews ≤ most)

or-cases :
    (pass : Bool) (attempt most : ℕ)
    → (pass || (attempt == most)) ≡ true
    → (pass ≡ true) ⊎ (attempt ≡ most)
or-cases pass attempt most h = ground arith

read_findings-Answers :
    {E D : Type 0} (task_id question : Str) (items : List SearchItem) (out : E ⊎ Str) (f : Findings)
    → read_findings {E = E} {D = D} task_id question items out ≡ inr f
    → Answers task_id question items f
read_findings-Answers task_id question items (inl e) f h = absurd cc
read_findings-Answers task_id question items (inr content) f h = record {
  task = cc;
  asked = cc;
  cites = cc;
}

module _ {W E D : Type 0} (t : Tools W E D) (c : Critics E D) (o : Options) where
  module _ (task_id question : Str) (items : List SearchItem) (upstream : List Findings)
      (most : ℕ) where
    abbrev pub Ends : Bool → (ResearchError E D ⊎ Option Findings) × Reviewed W → Type 0
    Ends enabled r = Delivers enabled task_id question items most r.0 r.1.reviews

    -- One round, given the rest of the loop.
    attempts-step :
        o.critic_enabled ≡ true
        → (left attempt : ℕ) (feedback : Str) (last : Option Findings) (s : Reviewed W)
        → length s.reviews + 1 ≡ attempt
        → attempt ≤ most
        → ((feedback' : Str) (last' : Option Findings) (s' : Reviewed W)
            → (attempt == most) ≡ false
            → length s'.reviews ≡ attempt
            → Ends true (
                attempts t c o task_id question items upstream most left
                  (attempt + 1)
                  feedback'
                  last'
                  s'))
        → Ends true
            (attempts t c o task_id question items upstream most (suc left) attempt feedback last s)
    unfolding attempts
    attempts-step on left attempt feedback last s counted bound again =
        let (made, w) = synthesize t c o task_id question items upstream feedback s.world in
        elim (Sum-cases made) [
          | inl (e, bad) ↦ rw (attempts, bad) (omega (arith, counted, bound))
          | inr (f, good) ↦
              let reviewed =
                review c.decode_review t.generate o.critic_min_score c.critic_system
                  (c.critic_prompt question f.markdown (cite_count f.citations)) f.markdown w in
              elim (Sum-cases reviewed.0) [
                | inl (e, bad) ↦ rw (attempts, good, on, bad) (omega (arith, counted, bound))
                | inr (r, judged) ↦
                    let told : CriticReview = record {
                      attempt = attempt;
                      score = r.score;
                      pass = r.pass;
                      feedback = r.feedback;
                    } in
                    let grown : length (s.reviews ++ told ∷ []) ≡ attempt =
                      length-append s.reviews (told ∷ []) ∙ counted in
                    elim (Bool-cases (r.pass || (attempt == most))) [
                      | inl stop ↦
                          rw (attempts, good, on, judged, stop)
                            (
                              read_findings-Answers task_id question items _ f good,
                              record {
                                older = s.reviews;
                                final = told;
                                ends = refl;
                                number = sym grown;
                                settled = or-cases r.pass attempt most stop;
                              },
                              omega (arith, grown, bound),
                            )
                      | inr go ↦
                          rw (attempts, good, on, judged, go)
                            (again r.feedback (some f)
                              (record { reviews = s.reviews ++ told ∷ []; world = reviewed.1 })
                              (ground arith) grown)
                    ]
              ]
        ]

    pub attempts-reviewed :
        o.critic_enabled ≡ true
        → (left attempt : ℕ) (feedback : Str) (last : Option Findings) (s : Reviewed W)
        → length s.reviews + 1 ≡ attempt
        → attempt + left ≡ most
        → Ends true
            (attempts t c o task_id question items upstream most (suc left) attempt feedback last s)
    attempts-reviewed on zero attempt feedback last s counted bound =
        attempts-step on zero attempt feedback last s counted (omega (arith, bound))
          (λ feedback' last' s' more grown. absurd (ground arith))
    attempts-reviewed on (suc left) attempt feedback last s counted bound =
        attempts-step on (suc left) attempt feedback last s counted (omega (arith, bound))
          (λ feedback' last' s' more grown.
            attempts-reviewed on left (attempt + 1) feedback' last' s' (omega (arith, grown))
              (omega (arith, bound)))

    pub attempts-unreviewed :
        o.critic_enabled ≡ false
        → (left : ℕ) (feedback : Str) (last : Option Findings) (s : Reviewed W) → s.reviews ≡ []
        → Ends false
            (attempts t c o task_id question items upstream most (suc left) 1 feedback last s)
    unfolding attempts
    attempts-unreviewed off left feedback last s none_yet =
        let (made, w) = synthesize t c o task_id question items upstream feedback s.world in
        elim (Sum-cases made) [
          | inl (e, bad) ↦ rw (attempts, bad, none_yet) (omega arith)
          | inr (f, good) ↦
              rw (attempts, good, off)
                (
                  read_findings-Answers task_id question items _ f good,
                  none_yet,
                  rw none_yet (omega arith),
                )
        ]
