-- ===== src/Dag/Graph/Progress.antt =====
-- A measure that falls in each round of `detectCycle` (internal/agent/dag/graph.go): the steps of
-- the slots on the stack, and twice the edges out of the white nodes.
use go_research.Prelude.{
  ℕ, suc, ◌+◌, ◌*◌, ◌≤◌, ◌≡◌, refl, ◌≢◌, inl, inr, true, false, some, List, [], ◌∷◌, Str, arith,
  length, In, lookup, insert, str_eq_iff,
}
use go_research.Dag.Types.{Node}
use go_research.Dag.Graph.{Graph, white, grey, black, Colour, Colours, Entry, colour_of, degrees}
use go_research.Dag.Graph.Add.{IsWellFormed}
use go_research.Dag.Graph.Stack.{slot_work, Pushed, Colour-cases, slot_work-unmarked}
use go_research.Dag.Graph.Invariant.{colour_of-insert, Ordered-Dep, Inv}

abbrev if_white : Colour → ℕ → ℕ
if_white white n = n
if_white grey n = 0
if_white black n = 0

empty_top : (top : List Str) → ((d : Str) → ¬ In d top) → length top ≡ 0
empty_top [] h = refl
empty_top (x ∷ top) h = absurd (h x (inl refl))

module _ {R : Type 0} where
  -- The edges out of white nodes.
  abbrev pub white_degrees : Colours → List (Node R) → ℕ
  white_degrees c [] = 0
  white_degrees c (n ∷ ns) = if_white (colour_of c n.id) (length n.depends_on) + white_degrees c ns

  pub white_degrees-le : (c : Colours) (ns : List (Node R)) → white_degrees c ns ≤ degrees ns
  white_degrees-le c [] = omega arith
  white_degrees-le c (n ∷ ns) = ground (arith, white_degrees-le c ns)

  pub white_degrees-insert :
      (k : Str) (v : Colour) (c : Colours) (ns : List (Node R))
      → v ≢ white
      → white_degrees (insert k v c) ns ≤ white_degrees c ns
  white_degrees-insert k v c [] h = omega arith
  white_degrees-insert k v c (n ∷ ns) h =
      ground (arith, white_degrees-insert k v c ns, colour_of-insert k n.id v c)

  -- A white node that turns grey takes its edges out of the measure.
  pub white_degrees-visit :
      (k : Str) (c : Colours) (ns : List (Node R)) (n : Node R)
      → In n ns
      → n.id ≡ k
      → colour_of c k ≡ white
      → white_degrees (insert k grey c) ns + length n.depends_on ≤ white_degrees c ns
  white_degrees-visit k c [] n m e w = absurd m
  white_degrees-visit k c (x ∷ ns) n (inl q) e w =
      ground
        (arith, white_degrees-insert k grey c ns, colour_of-insert k x.id grey c, str_eq_iff k x.id)
  white_degrees-visit k c (x ∷ ns) n (inr m) e w =
      ground (arith, white_degrees-visit k c ns n m e w, colour_of-insert k x.id grey c)

  module _ (g : Graph R) where
    abbrev pub work : Colours → List Entry → ℕ
    work c stack = slot_work stack + 2 * white_degrees c g.nodes

    pub work-finish :
        (c : Colours) (id : Str) (stack : List Entry)
        → suc (work (insert id black c) stack) ≤ work c ((id, true) ∷ stack)
    work-finish c id stack = omega (arith, white_degrees-insert id black c g.nodes (λ e. cc))

  module _ (g : Graph R) (wf : IsWellFormed g) where
    module _ (c : Colours) (done : List Str) (id : Str) (stack stack' : List Entry) (n : Node R)
        (i : Inv g c done ((id, false) ∷ stack)) (found : lookup id g.by_id ≡ some n)
        (p : Pushed (insert id grey c) n.depends_on ((id, true) ∷ stack) stack') where
      stack_work : slot_work stack' ≡ 2 * length p.top + 1 + slot_work stack
      stack_work = rw p.split (omega (arith, slot_work-unmarked p.top ((id, true) ∷ stack)))

      visited_white :
          colour_of c id ≡ white
          → suc (work g (insert id grey c) stack') ≤ work g c ((id, false) ∷ stack)
      visited_white w =
          let (keyed, listed) = wf.keyed id n found in
          omega (arith, stack_work, p.few, white_degrees-visit id c g.nodes n listed keyed w)

      -- A finished node that is visited again pushes nothing.
      no_push : colour_of c id ≡ black → (d : Str) → ¬ In d p.top
      no_push b d t =
          let (w, m) = p.new d t in
          let dark = i.done_dark d (
            Ordered-Dep g done id d i.ordered (i.blackened id b)
              (record { node = n; found = found; listed = m })) in
          ground (arith, colour_of-insert id d grey c, str_eq_iff id d)

      pub work-visit : suc (work g (insert id grey c) stack') ≤ work g c ((id, false) ∷ stack)
      work-visit = elim (Colour-cases (colour_of c id)) [
        | inl w ↦ visited_white w
        | inr (inl gr) ↦ absurd (i.fresh.0 (i.greyed id gr))
        | inr (inr b) ↦ omega (
          arith,
          stack_work,
          empty_top p.top (no_push b),
          white_degrees-insert id grey c g.nodes (λ e. cc),
        )
      ]
