-- ===== src/Dag/Coordinator/Seed.antt =====
-- The state of `Run` (internal/agent/dag/scheduler.go) when its loop begins.
use go_research.Prelude.{
  List-cases, ℕ, true, false, ◌≡◌, refl, sym, ◌∙◌, ◌≢◌, ◌⊎◌, inl, inr, Option, none, some, List, [],
  ◌∷◌, Str, Map, str_eq, str_eq_iff, lookup, lookup-insert, lookup-insert_other, length, In, arith,
  subst, Bool-cases,
}
use go_research.Dag.Types.{Node, State, pending, ready}
use go_research.Dag.Graph.{Graph}
use go_research.Dag.Graph.Add.{ids, In-ids, Distinct, IsWellFormed}
use go_research.Dag.Worker.{RunFn}
use go_research.Dag.Coordinator.{
  System, left, is_pending, seed_one, seed, init_states, init_unmet, init,
}
use go_research.Dag.Coordinator.Weights.{waits, unfinished, sum_of}
use go_research.Dag.Coordinator.Invariant.{has_succeeded, Kept}
use go_research.Dag.Coordinator.Dispatch.{same_succeeded, dispatch-Kept}
use go_research.Dag.Coordinator.Promote.{
  left-insert_self, left-insert_other, different, nil-In, cons_not_nil, sent_turn, stay-Kept,
}

module _ {V E : Type 0} (g : Graph (RunFn V E)) (wf : IsWellFormed g) where
  -- No node has succeeded, and those of the list are pending.
  record Untouched (ns : List (Node (RunFn V E))) (s : System V E) : Type 0 where
    none_yet : (d : Str) → has_succeeded s.states d ≡ false
    asleep : (n : Node (RunFn V E)) → In n ns → lookup n.id s.states ≡ some pending

  seed_one-Kept :
      (n : Node (RunFn V E)) (ns : List (Node (RunFn V E))) (s : System V E)
      → In n g.nodes
      → Distinct (ids (n ∷ ns))
      → Untouched (n ∷ ns) s
      → Kept g (ids (n ∷ ns)) [] s
      → Kept g (ids ns) [] (seed_one n s) × Untouched ns (seed_one n s)
  unfolding seed_one
  seed_one-Kept n ns s member d u k =
      let waits_on = u.asleep n (inl refl) in
      let p : is_pending s.states n.id ≡ true = ground arith in
      let open_deps = k.waiting.open_deps n member p in
      elim (List-cases (left s.unmet n.id)) [
        | inl nil ↦
            let no_deps : (j : Str) → ¬ In j n.depends_on =
              λ j i. nil-In j (left s.unmet n.id) nil ((open_deps j).1 (i, inl (u.none_yet j))) in
            rw (seed_one, nil)
              (
                dispatch-Kept g wf n member (ids ns) [] s k waits_on [] s.unmet
                    (sent_turn g wf [] n member (ids ns) d.0 s k s.unmet waits_on (λ j h. refl)
                      (λ j i. absurd (no_deps j i)))
                    (record {
                      known = member;
                      met = λ j i. absurd (no_deps j i);
                      given = λ j i. absurd (no_deps j i);
                    })
                    true (inl refl),
                record {
                  none_yet = λ j. same_succeeded g wf n member s.states waits_on j ∙ u.none_yet j;
                  asleep = λ m i.
                      lookup-insert_other n.id m.id ready s.states
                        (λ e. d.0 (subst (λ j. In j (ids ns)) (sym e) (In-ids m ns i)))
                      ∙ u.asleep m (inr i);
                },
              )
        | inr (e, es, more) ↦
            rw (seed_one, more)
              (
                stay-Kept g wf [] n member (ids ns) d.0 s k s.unmet p (λ j h. refl)
                    (cons_not_nil e es (left s.unmet n.id) more)
                    (λ j. (
                      λ i. let (dep, why) = (open_deps j).0 i in (dep, u.none_yet j),
                      λ h. (open_deps j).1 (h.0, inl h.1),
                    )),
                record { none_yet = u.none_yet; asleep = λ m i. u.asleep m (inr i) },
              )
      ]

  seed-Kept :
      (ns : List (Node (RunFn V E))) (s : System V E)
      → ((n : Node (RunFn V E)) → In n ns → In n g.nodes)
      → Distinct (ids ns)
      → Untouched ns s
      → Kept g (ids ns) [] s
      → Kept g [] [] (seed ns s)
  unfolding seed
  seed-Kept [] s all d u k = k
  seed-Kept (n ∷ ns) s all d u k =
      let (k', u') = seed_one-Kept n ns s (all n (inl refl)) d u k in
      seed-Kept ns (seed_one n s) (λ m i. all m (inr i)) d.1 u' k'

  all_pending :
      (ns : List (Node (RunFn V E))) (j : Str)
      → In j (ids ns)
      → lookup j (init_states ns) ≡ some pending
  unfolding init_states
  all_pending [] j m = absurd m
  all_pending (n ∷ ns) j m = elim (Bool-cases (str_eq n.id j)) [
    | inl e ↦ ground (arith, lookup-insert n.id j pending (init_states ns))
    | inr e ↦ elim m [
      | inl q ↦ absurd (different n.id j e (sym q))
      | inr i ↦
          lookup-insert_other n.id j pending (init_states ns) (different n.id j e)
          ∙ all_pending ns j i
    ]
  ]

  only_nodes :
      (ns : List (Node (RunFn V E))) (j : Str) → lookup j (init_states ns) ≢ none → In j (ids ns)
  unfolding init_states lookup
  only_nodes [] j h = absurd (h refl)
  only_nodes (n ∷ ns) j h = elim (Bool-cases (str_eq n.id j)) [
    | inl e ↦ inl (sym ((str_eq_iff n.id j).0 e))
    | inr e ↦ inr (
        only_nodes ns j
          (λ q. h (lookup-insert_other n.id j pending (init_states ns) (different n.id j e) ∙ q)))
  ]

  first_unmet :
      (ns : List (Node (RunFn V E))) (n : Node (RunFn V E))
      → Distinct (ids ns)
      → In n ns
      → left (init_unmet ns) n.id ≡ n.depends_on
  unfolding init_unmet
  first_unmet [] n d m = absurd m
  first_unmet (k ∷ ns) n d (inl e) =
      subst (λ (j : Node (RunFn V E)). left (init_unmet (k ∷ ns)) j.id ≡ j.depends_on) (sym e)
        (left-insert_self k.id k.depends_on (init_unmet ns))
  first_unmet (k ∷ ns) n d (inr i) =
      left-insert_other k.id n.id k.depends_on (init_unmet ns)
        (λ e. d.0 (subst (λ j. In j (ids ns)) (sym e) (In-ids n ns i)))
      ∙ first_unmet ns n d.1 i

  sum_all :
      (w : Option State → ℕ) (ns : List (Node (RunFn V E))) (m : Map State)
      → ((j : Str) → In j (ids ns) → lookup j m ≡ some pending)
      → w (some pending) ≡ 1
      → sum_of w ns m ≡ length ns
  sum_all w [] m h one = refl
  sum_all w (n ∷ ns) m h one =
      rw (h n.id (inl refl), one) (omega (arith, sum_all w ns m (λ j i. h j (inr i)) one))

  init_cases :
      (ns : List (Node (RunFn V E))) (j : Str)
      → (lookup j (init_states ns) ≡ none) ⊎ (lookup j (init_states ns) ≡ some pending)
  unfolding init_states lookup
  init_cases [] j = inl refl
  init_cases (n ∷ ns) j =
      ground (arith, lookup-insert n.id j pending (init_states ns), init_cases ns j)

  none_succeeded :
      (ns : List (Node (RunFn V E))) (j : Str) → has_succeeded (init_states ns) j ≡ false
  none_succeeded ns j = ground (arith, init_cases ns j)

  pub init-Kept : Kept g [] [] (init g)
  unfolding init
  init-Kept =
      let states = init_states g.nodes in
      seed-Kept g.nodes _ (λ n i. i) wf.distinct
        (record {
          none_yet = none_succeeded g.nodes;
          asleep = λ n i. all_pending g.nodes n.id (In-ids n g.nodes i);
        })
        (record {
          status = record {
            domain = only_nodes g.nodes;
            live = λ j i. rw (all_pending g.nodes j i) tt;
          };
          flight = record {
            once = λ j. omega arith;
            flying = λ j h. absurd (omega (arith, h));
            landed = λ j h c. ground (arith, init_cases g.nodes j);
          };
          waiting = record {
            met =
                λ n i p d j. absurd (ground (arith, all_pending g.nodes n.id (In-ids n g.nodes i)));
            open_deps = λ n i p d. (
              λ j. (
                subst (λ ds. In d ds) (first_unmet g.nodes n wf.distinct i) j,
                inl (none_succeeded g.nodes d),
              ),
              λ h. subst (λ ds. In d ds) (sym (first_unmet g.nodes n wf.distinct i)) h.0,
            );
            blocked = λ n i p. inl (In-ids n g.nodes i);
          };
          tasks = record {
            sent = λ t m. absurd m;
            taken = λ t m. absurd m;
            outs = λ j h. absurd (ground (arith, none_succeeded g.nodes j));
          };
          counted = record {
            exact = sym (sum_all unfinished g.nodes states (all_pending g.nodes) refl);
            load = omega (arith, sum_all waits g.nodes states (all_pending g.nodes) refl);
          };
          blame = record {
            blamed = λ j h. absurd (ground (arith, init_cases g.nodes j));
            named = tt;
          };
        })
