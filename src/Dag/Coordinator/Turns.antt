-- ===== src/Dag/Coordinator/Turns.antt =====
-- The sets of unmet dependencies, in the loop over the dependants in `Run` of
-- internal/agent/dag/scheduler.go.
use go_research.Prelude.{
  true, false, ◌≡◌, sym, ap, ◌∙◌, ◌≢◌, ◌⊎◌, ◌↔◌, inl, inr, some, List, [], ◌∷◌, Str, Map, str_eq,
  str_eq_iff, lookup, In, arith, subst, Bool-cases,
}
use go_research.Dag.Types.{Node, State}
use go_research.Dag.Graph.{Graph}
use go_research.Dag.Graph.Add.{IsWellFormed}
use go_research.Dag.Worker.{RunFn}
use go_research.Dag.Coordinator.{left, is_pending}
use go_research.Dag.Coordinator.Invariant.{has_succeeded, Waiting}

module _ {V E : Type 0} where
  -- What a node is after its turn: not waiting, or waiting for those that have not succeeded.
  abbrev pub Turned : Node (RunFn V E) → Map State → Map (List Str) → Type 0
  Turned n states unmet =
      ((is_pending states n.id ≡ false)
        × ((d : Str) → In d n.depends_on → has_succeeded states d ≡ true))
      ⊎ ((is_pending states n.id ≡ true)
          × (left unmet n.id ≢ [])
          × ((d : Str)
              → In d (left unmet n.id) ↔ (In d n.depends_on × (has_succeeded states d ≡ false))))

  module _ (g : Graph (RunFn V E)) (wf : IsWellFormed g) (n : Node (RunFn V E))
      (member : In n g.nodes) (todo : List Str) (id : Str) (past : ¬ In n.id todo)
      (states states' : Map State) (unmet unmet' : Map (List Str))
      (same : (d : Str) → has_succeeded states' d ≡ has_succeeded states d)
      (others : (k : Str)
        → ¬ (n.id ≡ k)
        → (is_pending states' k ≡ is_pending states k) × (left unmet' k ≡ left unmet k))
      (here : Turned n states' unmet') where
    only : (m : Node (RunFn V E)) → In m g.nodes → n.id ≡ m.id → n ≡ m
    only m i e =
        let a = wf.listed n member in
        let b = wf.listed m i in
        let c : lookup n.id g.by_id ≡ some m = ap (λ k. lookup k g.by_id) e ∙ b in cc

    -- What `Waiting` says of one node.
    abbrev MetAt : Node (RunFn V E) → Type 0
    MetAt m =
        is_pending states' m.id ≡ false
        → (d : Str) → In d m.depends_on
        → has_succeeded states' d ≡ true

    abbrev OpenAt : Node (RunFn V E) → Type 0
    OpenAt m =
        is_pending states' m.id ≡ true
        → (d : Str)
        → In d (left unmet' m.id)
          ↔ (In d m.depends_on × ((has_succeeded states' d ≡ false) ⊎ ((d ≡ id) × In m.id todo)))

    abbrev BlockedAt : Node (RunFn V E) → Type 0
    BlockedAt m = is_pending states' m.id ≡ true → In m.id todo ⊎ (left unmet' m.id ≢ [])

    turned : MetAt n × OpenAt n × BlockedAt n
    turned = elim here [
      | inl (not_pending, met) ↦ (λ p. met, λ p. absurd (ground arith), λ p. absurd (ground arith))
      | inr (waits_on, more, deps) ↦ (
        λ p. absurd (ground arith),
        λ p d. (
          λ i. (((deps d).0 i).0, inl ((deps d).0 i).1),
          λ h. elim h.1 [ inl f ↦ (deps d).1 (h.0, f) | inr l ↦ absurd (past l.1) ],
        ),
        λ p. inr more,
      )
    ]

    module _ (w : Waiting g (n.id ∷ todo) id states unmet) (m : Node (RunFn V E)) (i : In m g.nodes)
        (apart : ¬ (n.id ≡ m.id)) where
      other_met : MetAt m
      other_met p d j = same d ∙ w.met m i (sym (others m.id apart).0 ∙ p) d j

      other_open : OpenAt m
      other_open p d =
          let (a, b) = others m.id apart in
          let old = w.open_deps m i (sym a ∙ p) d in
          (
            λ j.
                let (l, r) = old.0 (subst (λ ds. In d ds) b j) in
                (
                  l,
                  elim r [
                    | inl f ↦ inl (same d ∙ f)
                    | inr (e, inl q) ↦ absurd (apart (sym q))
                    | inr (e, inr q) ↦ inr (e, q)
                  ],
                ),
            λ h.
                subst (λ ds. In d ds) (sym b)
                  (old.1 (
                    h.0,
                    elim h.1 [ inl f ↦ inl (sym (same d) ∙ f) | inr (e, q) ↦ inr (e, inr q) ],
                  )),
          )

      other_blocked : BlockedAt m
      other_blocked p =
          let (a, b) = others m.id apart in
          elim (w.blocked m i (sym a ∙ p)) [
            | inl (inl q) ↦ absurd (apart (sym q))
            | inl (inr q) ↦ inl q
            | inr more ↦ inr (λ e. more (sym b ∙ e))
          ]

    at_node :
        Waiting g (n.id ∷ todo) id states unmet
        → (m : Node (RunFn V E)) → In m g.nodes
        → MetAt m × OpenAt m × BlockedAt m
    at_node w m i = elim (Bool-cases (str_eq n.id m.id)) [
      | inl e ↦
          subst (λ k. MetAt k × OpenAt k × BlockedAt k) (only m i ((str_eq_iff n.id m.id).0 e))
            turned
      | inr e ↦
          let apart : ¬ (n.id ≡ m.id) = λ q. ground (arith, str_eq_iff n.id m.id) in
          (other_met w m i apart, other_open w m i apart, other_blocked w m i apart)
    ]

    pub next-Waiting : Waiting g (n.id ∷ todo) id states unmet → Waiting g todo id states' unmet'
    next-Waiting w = record {
      met = λ m i. (at_node w m i).0;
      open_deps = λ m i. (at_node w m i).1;
      blocked = λ m i. (at_node w m i).2;
    }
