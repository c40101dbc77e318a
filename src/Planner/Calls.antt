-- ===== src/Planner/Calls.antt =====
-- `Planner.Plan` (internal/agent/planner/planner.go): its retry, and what it may return.
use go_research.Prelude.{
  Sum-cases, ◌≡◌, ap, ◌∙◌, ◌⊎◌, ◌↔◌, inl, inr, none, List, [], ◌∷◌, ◌++◌, Str, codes, arith,
}
use go_research.Llm.{Message, message, system, user, assistant, Generate}
use go_research.Planner.{Plan, PlannerError, AskError, validate, read_reply, ask_once, plan}
use go_research.Planner.Validate.{IsValid, validate-eq-none_iff}

module _ {W E D : Type 0} (generate : Generate W E) (decode : Str → D ⊎ Plan) where
  read_reply-validate :
      (content : Str) (p : Plan) → read_reply generate decode content ≡ inr p → validate p ≡ none
  unfolding read_reply
  read_reply-validate content p h = ground arith

  ask_once-validate :
      (msgs : List Message) (w : W) (p : Plan)
      → (ask_once generate decode msgs w).0 ≡ inr p
      → validate p ≡ none
  unfolding ask_once
  ask_once-validate msgs w p h = elim (Sum-cases (generate msgs w).0) [
    | inl (e, failed) ↦ ground arith
    | inr (content, replied) ↦ read_reply-validate content p (ground arith)
  ]

  -- The messages of the first attempt, and what the second one adds.
  abbrev pub first_ask : Str → Str → List Message
  first_ask system_prompt question =
      message system system_prompt ∷ message user (codes "User question: " ++ question) ∷ []

  abbrev pub second_ask : Str → Str → List Message
  second_ask system_prompt question =
      first_ask system_prompt question
      ++ message assistant (codes "(previous attempt was not valid JSON)")
        ∷ message user
            (codes "Re-output the plan as a single JSON object. No prose. No markdown fences.")
        ∷ []

  module _ (system_prompt question : Str) (w : W) where
    abbrev pub first_try : (AskError E D ⊎ Plan) × W
    first_try = ask_once generate decode (first_ask system_prompt question) w

    abbrev pub second_try : (AskError E D ⊎ Plan) × W
    second_try = ask_once generate decode (second_ask system_prompt question) first_try.1

    plan-first :
        (p : Plan)
        → first_try.0 ≡ inr p
        → plan generate decode system_prompt question w ≡ (inr p, first_try.1)
    unfolding plan
    plan-first p h = ground arith

    plan-second :
        (e : AskError E D) (p : Plan)
        → first_try.0 ≡ inl e
        → second_try.0 ≡ inr p
        → plan generate decode system_prompt question w ≡ (inr p, second_try.1)
    unfolding plan
    plan-second e p h k = ground arith

    plan-neither :
        (e f : AskError E D)
        → first_try.0 ≡ inl e
        → second_try.0 ≡ inl f
        → plan generate decode system_prompt question w
          ≡ (inl (record { first = e; retry = f }), second_try.1)
    unfolding plan
    plan-neither e f h k = ground arith

    -- A plan that `Plan` returns has passed `validate`, whatever the model replies, in the first attempt
    -- or in the second.
    pub plan-IsValid :
        (p : Plan) → (plan generate decode system_prompt question w).0 ≡ inr p → IsValid p
    plan-IsValid p h = elim (Sum-cases first_try.0) [
      | inr (q, first) ↦
          let same : q ≡ p = cc (ap (λ r. r.0) (plan-first q first)) in
          (validate-eq-none_iff p).0
            (ask_once-validate (first_ask system_prompt question) w p (rw same at first))
      | inl (e, failed) ↦ elim (Sum-cases second_try.0) [
        | inr (q, second) ↦
            let same : q ≡ p = cc (ap (λ r. r.0) (plan-second e q failed second)) in
            (validate-eq-none_iff p).0 (
              ask_once-validate (second_ask system_prompt question) first_try.1 p
                (rw same at second))
        | inl (f, again) ↦ cc (ap (λ r. r.0) (plan-neither e f failed again))
      ]
    ]

    -- `Plan` fails exactly when both attempts fail, and then with the errors of both.
    pub plan-error_iff :
        (x : PlannerError E D)
        → ((plan generate decode system_prompt question w).0 ≡ inl x)
          ↔ ((first_try.0 ≡ inl x.first) × (second_try.0 ≡ inl x.retry))
    plan-error_iff x = elim (Sum-cases first_try.0) [
      | inr (q, first) ↦ (λ h. cc (ap (λ r. r.0) (plan-first q first)), λ h. cc (h.0, first))
      | inl (e, failed) ↦ elim (Sum-cases second_try.0) [
        | inr (q, second) ↦
            (λ h. cc (ap (λ r. r.0) (plan-second e q failed second)), λ h. cc (h.1, second))
        | inl (f, again) ↦ (
          λ h.
              let q : ◌≡◌ {A = PlannerError E D} (record { first = e; retry = f }) x =
                cc (ap (λ r. r.0) (plan-neither e f failed again)) in
              (failed ∙ ap (λ r. inl r.first) q, again ∙ ap (λ r. inl r.retry) q),
          λ h. ap (λ r. r.0) (plan-neither x.first x.retry h.0 h.1),
        )
      ]
    ]
