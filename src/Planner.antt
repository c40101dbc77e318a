-- ===== src/Planner.antt =====
-- internal/agent/planner/planner.go. The texts of the fixed prompts, and json.Unmarshal into a Plan,
-- are parameters.
pub mod Validate
pub mod Calls
mod Samples
use go_research.Prelude.{
  ℕ, zero, suc, ◌+◌, Bool, true, false, ◌⊎◌, inl, inr, Option, none, some, List, [], ◌∷◌, ◌++◌, Str,
  codes, Map, lookup, insert, str_eq, length, ltb, ◌==◌, if◌then◌else◌,
}
use go_research.Text.{trim_space, truncate}
use go_research.Text.Extract.{extract_json}
use go_research.Llm.{Message, message, Role, system, user, assistant, Generate}

pub record Subtask : Type 0 where
  pub id : Str
  pub question : Str
  pub depends_on : List Str

pub record Plan : Type 0 where
  pub question : Str
  pub subtasks : List Subtask

pub data PlanError : Type 0 where
  no_subtasks : PlanError
  too_many empty_id : ℕ → PlanError
  empty_question duplicate_id : (id : Str) → PlanError
  unknown_dep : (id dep : Str) → PlanError

-- A set as a map to bool; a missing key reads as false.
abbrev pub has : Map Bool → Str → Bool
has seen k = elim (lookup k seen) [ none ↦ false | some b ↦ b ]

-- The first loop of `validate`, from subtask `i` on: an error, or the set of the IDs.
pub check_subtasks : ℕ → Map Bool → List Subtask → PlanError ⊎ Map Bool
check_subtasks i seen [] = inr seen
check_subtasks i seen (s ∷ ss) =
    let rest = check_subtasks (i + 1) (insert s.id true seen) ss in
    if str_eq s.id []
    then inl (empty_id i)
    else if str_eq s.question []
    then inl (empty_question s.id)
    else if has seen s.id
    then inl (duplicate_id s.id)
    else rest

pub check_depends : Map Bool → Str → List Str → Option PlanError
check_depends seen id [] = none
check_depends seen id (d ∷ ds) =
    let rest = check_depends seen id ds in if has seen d then rest else some (unknown_dep id d)

-- The second loop.
pub check_edges : Map Bool → List Subtask → Option PlanError
check_edges seen [] = none
check_edges seen (s ∷ ss) =
    let rest = check_edges seen ss in
    elim (check_depends seen s.id s.depends_on) [ some e ↦ some e | none ↦ rest ]

unfoldable pub validate : Plan → Option PlanError
unfolding check_subtasks check_edges check_depends
validate p =
    if length p.subtasks == 0
    then some no_subtasks
    else if ltb 8 (length p.subtasks)
    then some (too_many (length p.subtasks))
    else elim (check_subtasks 0 [] p.subtasks) [
      | inl e ↦ some e
      | inr seen ↦ check_edges seen p.subtasks
    ]

pub data AskError (E D : Type 0) : Type 0 where
  llm_failed : E → AskError E D
  no_json : (shown : Str) → AskError E D
  undecodable : D → (shown : Str) → AskError E D
  invalid : PlanError → AskError E D

-- The error of both attempts.
pub record PlannerError (E D : Type 0) : Type 0 where
  pub first : AskError E D
  pub retry : AskError E D

module _ {W E D : Type 0} (generate : Generate W E) (decode : Str → D ⊎ Plan) where
  -- What `askOnce` makes of a reply.
  read_reply : Str → AskError E D ⊎ Plan
  read_reply content =
      let raw = trim_space content in
      let json = extract_json raw in
      if str_eq json [] then inl (no_json (truncate raw 200)) else elim (decode json) [
        | inl d ↦ inl (undecodable d (truncate json 200))
        | inr plan ↦ elim (validate plan) [ some e ↦ inl (invalid e) | none ↦ inr plan ]
      ]

  unfoldable pub ask_once : List Message → W → (AskError E D ⊎ Plan) × W
  unfolding read_reply
  ask_once msgs w =
      let (out, w') = generate msgs w in
      (elim out [ inl e ↦ inl (llm_failed e) | inr content ↦ read_reply content ], w')

  -- `Planner.Plan`, given the system prompt.
  unfoldable pub plan : Str → Str → W → (PlannerError E D ⊎ Plan) × W
  unfolding ask_once
  plan system_prompt question w =
      let msgs =
        message system system_prompt ∷ message user (codes "User question: " ++ question) ∷ [] in
      let (first, w') = ask_once msgs w in
      elim first [
        | inr p ↦ (inr p, w')
        | inl first_err ↦
            let again =
              msgs
              ++ message assistant (codes "(previous attempt was not valid JSON)")
                ∷ message user (
                    codes
                      "Re-output the plan as a single JSON object. No prose. No markdown fences.")
                ∷ [] in
            let (second, w'') = ask_once again w' in
            (
              elim second [
                | inl second_err ↦ inl (record { first = first_err; retry = second_err })
                | inr p ↦ inr p
              ],
              w'',
            )
      ]
