-- ===== src/Critic/Samples.antt =====
-- A review by internal/agent/critic/critic.go, with a decoder that stands for json.Unmarshal.
use go_research.Prelude.{ℕ, ◌+◌, true, ◌≡◌, refl, ◌⊎◌, inr, [], Str, codes, str_eq}
use go_research.Prelude.Int.{pos}
use go_research.Llm.{Generate}
use go_research.Text.Extract.{extract_object}
use go_research.Critic.{Review, Partial, threshold, review}
use go_research.Critic.Fair.{IsFair, review-IsFair}

abbrev decode : Str → Unit {0} ⊎ Partial
decode s = inr (record { score = pos 12; feedback = codes " good " })

abbrev generate : Generate ℕ (Unit {0})
generate msgs n = (inr (codes "Score: {}"), n + 1)

abbrev top_marks : Review
top_marks = record { score = pos 10; pass = true; feedback = codes "good" }

praised : (review decode generate (pos 0) [] [] (codes "text") 0).0 ≡ inr top_marks
unfolding review extract_object str_eq
praised = refl

bar : threshold (pos 0) ≡ pos 6
unfolding threshold
bar = refl

review-IsFair_example : IsFair (threshold (pos 0)) top_marks
review-IsFair_example =
    review-IsFair decode generate (pos 0) [] [] (codes "text") 0 top_marks praised
