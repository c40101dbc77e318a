-- ===== src/Dag/Coordinator/Weights.antt =====
-- Sums over the nodes of a graph, of a number for each state.
use go_research.Prelude.{
  ℕ, ◌+◌, ◌≡◌, refl, sym, ap, ◌∙◌, inl, inr, Option, none, some, List, [], ◌∷◌, Str, Map, lookup,
  insert, lookup-insert_self, lookup-insert_other, subst, In, arith,
}
use go_research.Dag.Types.{Node, State, pending, ready, running, succeeded, failed, cancelled}
use go_research.Dag.Graph.Add.{Distinct, ids}

-- 1 for a node that waits for its dependencies.
abbrev pub waits : Option State → ℕ
waits none = 0
waits (some pending) = 1
waits (some ready) = 0
waits (some running) = 0
waits (some succeeded) = 0
waits (some failed) = 0
waits (some cancelled) = 0

-- 1 for a node that has not finished.
abbrev pub unfinished : Option State → ℕ
unfinished none = 0
unfinished (some pending) = 1
unfinished (some ready) = 1
unfinished (some running) = 1
unfinished (some succeeded) = 0
unfinished (some failed) = 0
unfinished (some cancelled) = 0

module _ {R : Type 0} (w : Option State → ℕ) where
  abbrev pub sum_of : List (Node R) → Map State → ℕ
  sum_of [] m = 0
  sum_of (n ∷ ns) m = w (lookup n.id m) + sum_of ns m

  pub sum_of-other :
      (ns : List (Node R)) (id : Str) (st : State) (m : Map State)
      → ¬ In id (ids ns)
      → sum_of ns (insert id st m) ≡ sum_of ns m
  sum_of-other [] id st m h = refl
  sum_of-other (n ∷ ns) id st m h =
      let rest = sum_of-other ns id st m (λ i. h (inr i)) in
      rw (lookup-insert_other id n.id st m (λ e. h (inl e)), rest) refl

  -- When a node changes its state, the sum changes by its number.
  pub sum_of-insert :
      (ns : List (Node R)) (id : Str) (st : State) (m : Map State)
      → Distinct (ids ns)
      → In id (ids ns)
      → sum_of ns (insert id st m) + w (lookup id m) ≡ sum_of ns m + w (some st)
  sum_of-insert [] id st m d h = absurd h
  sum_of-insert (k ∷ ns) id st m d (inl e) =
      let here : lookup k.id (insert id st m) ≡ some st =
        ap (λ j. lookup j (insert id st m)) (sym e) ∙ lookup-insert_self id st m in
      rw (here, sum_of-other ns id st m (λ i. d.0 (subst (λ j. In j (ids ns)) e i)), e)
        (omega arith)
  sum_of-insert (k ∷ ns) id st m d (inr h) =
      let apart : ¬ (id ≡ k.id) = λ e. d.0 (subst (λ j. In j (ids ns)) e h) in
      rw (lookup-insert_other id k.id st m apart) (omega (arith, sum_of-insert ns id st m d.1 h))
