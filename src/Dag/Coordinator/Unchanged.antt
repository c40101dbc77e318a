-- ===== src/Dag/Coordinator/Unchanged.antt =====
-- What the promotions and the seeding of `Run` (internal/agent/dag/scheduler.go) leave as it is.
use go_research.Prelude.{
  Bool, true, ◌≡◌, refl, ◌∙◌, inl, inr, List, [], ◌∷◌, Str, In, Bool-cases, List-cases,
}
use go_research.Dag.Types.{Node}
use go_research.Dag.Graph.{Graph}
use go_research.Dag.Graph.Add.{IsWellFormed}
use go_research.Dag.Worker.{RunFn}
use go_research.Dag.Coordinator.{
  System, left, is_pending, without, promote_one, promote, seed, seed_one,
}
use go_research.Dag.Coordinator.Invariant.{has_succeeded}
use go_research.Dag.Coordinator.Promote.{still_succeeded}

module _ {V E : Type 0} (g : Graph (RunFn V E)) (wf : IsWellFormed g) where
  promote_one-outputs :
      (sends : Str → Bool) (id : Str) (n : Node (RunFn V E)) (s : System V E)
      → ((promote_one sends id n s).outputs ≡ s.outputs)
        × ((promote_one sends id n s).done_ch ≡ s.done_ch)
  unfolding promote_one
  promote_one-outputs sends id n s = elim (Bool-cases (is_pending s.states n.id)) [
    | inr p ↦ rw (promote_one, p) (refl, refl)
    | inl p ↦ elim (List-cases (without id (left s.unmet n.id))) [
      | inl nil ↦ rw (promote_one, p, nil) (refl, refl)
      | inr (d, ds, more) ↦ rw (promote_one, p, more) (refl, refl)
    ]
  ]

  pub promote-outputs :
      (sends : Str → Bool) (id : Str) (ns : List (Node (RunFn V E))) (s : System V E)
      → ((n : Node (RunFn V E)) → In n ns → In n g.nodes)
      → ((promote sends id ns s).outputs ≡ s.outputs)
        × ((promote sends id ns s).done_ch ≡ s.done_ch)
        × ((d : Str)
            → has_succeeded s.states d ≡ true
            → has_succeeded (promote sends id ns s).states d ≡ true)
  unfolding promote
  promote-outputs sends id [] s all = (refl, refl, λ d h. h)
  promote-outputs sends id (n ∷ ns) s all =
      let (o, c) = promote_one-outputs sends id n s in
      let (o', c', more) =
        promote-outputs sends id ns (promote_one sends id n s) (λ m i. all m (inr i)) in
      (o' ∙ o, c' ∙ c, λ d h. more d (still_succeeded g wf id sends n (all n (inl refl)) s d h))

  seed_one-outputs :
      (n : Node (RunFn V E)) (s : System V E)
      → ((seed_one n s).outputs ≡ s.outputs) × ((seed_one n s).done_ch ≡ s.done_ch)
  unfolding seed_one
  seed_one-outputs n s = elim (List-cases (left s.unmet n.id)) [
    | inl nil ↦ rw (seed_one, nil) (refl, refl)
    | inr (d, ds, more) ↦ rw (seed_one, more) (refl, refl)
  ]

  pub seed-outputs :
      (ns : List (Node (RunFn V E))) (s : System V E)
      → ((seed ns s).outputs ≡ s.outputs) × ((seed ns s).done_ch ≡ s.done_ch)
  unfolding seed
  seed-outputs [] s = (refl, refl)
  seed-outputs (n ∷ ns) s =
      let (o, c) = seed-outputs ns (seed_one n s) in
      let (o', c') = seed_one-outputs n s in (o ∙ o', c ∙ c')
