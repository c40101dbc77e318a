-- ===== src/Planner/Samples.antt =====
-- Plans for internal/agent/planner/planner.go, with a decoder that stands for json.Unmarshal.
use go_research.Prelude.{
  ℕ, ◌+◌, ◌≡◌, refl, ◌⊎◌, ◌↔◌, inl, inr, none, some, List, [], ◌∷◌, Str, codes, lookup, insert,
  str_eq, ◌==◌, if◌then◌else◌,
}
use go_research.Llm.{Generate}
use go_research.Text.{truncate}
use go_research.Text.Extract.{extract_json}
use go_research.Planner.{Subtask, Plan, PlannerError, no_json, duplicate_id, validate, plan}
use go_research.Planner.Validate.{IsValid, validate-eq-none_iff}
use go_research.Planner.Calls.{plan-IsValid}

abbrev subtask : Str → List Str → Subtask
subtask id deps = record { id = id; question = codes "why?"; depends_on = deps }

abbrev two_tasks : Plan
two_tasks = record {
  question = codes "q";
  subtasks = subtask (codes "t1") [] ∷ subtask (codes "t2") (codes "t1" ∷ []) ∷ [];
}

-- The decoder knows one text.
abbrev decode : Str → Unit {0} ⊎ Plan
decode s = if str_eq s (codes "{2}") then inr two_tasks else inl tt

-- The first reply is prose, the later ones hold the object in a fence. The world counts the calls.
abbrev generate : Generate ℕ (Unit {0})
generate msgs n = (if n == 0 then inr (codes "Sure!") else inr (codes "```json {2} ```"), n + 1)

-- The reply is always prose.
abbrev mute : Generate ℕ (Unit {0})
mute msgs n = (inr (codes "Sure!"), n + 1)

program : Unit {0}
unfolding plan validate extract_json truncate lookup insert str_eq
program = tt

second_reply : plan generate decode [] (codes "q") 0 ≡ (inr two_tasks, 2)
unfolding program
second_reply = refl

abbrev both_mute : PlannerError (Unit {0}) (Unit {0})
both_mute = record { first = no_json (codes "Sure!"); retry = no_json (codes "Sure!") }

gives_up : plan mute decode [] (codes "q") 0 ≡ (inl both_mute, 2)
unfolding program
gives_up = refl

second_reply_plan : (plan generate decode [] (codes "q") 0).0 ≡ inr two_tasks
unfolding program
second_reply_plan = refl

plan-IsValid_example : IsValid two_tasks
plan-IsValid_example = plan-IsValid generate decode [] (codes "q") 0 two_tasks second_reply_plan

validate-eq-none_iff_example : (validate two_tasks ≡ none) ↔ IsValid two_tasks
validate-eq-none_iff_example = validate-eq-none_iff two_tasks

duplicate :
    validate
      (record { question = []; subtasks = subtask (codes "a") [] ∷ subtask (codes "a") [] ∷ [] })
    ≡ some (duplicate_id (codes "a"))
unfolding program
duplicate = refl
