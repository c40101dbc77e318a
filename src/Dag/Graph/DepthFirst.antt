-- ===== src/Dag/Graph/DepthFirst.antt =====
-- The loops of `detectCycle` (internal/agent/dag/graph.go) end, and keep the invariant.
use go_research.Prelude.{
  Sum-cases, ℕ, zero, suc, ◌≤◌, ◌≡◌, refl, sym, subst, ◌⊎◌, inl, inr, true, false, some, List, [],
  ◌∷◌, Str, arith, In, lookup, insert, str_eq_iff,
}
use go_research.Dag.Types.{Node}
use go_research.Dag.Graph.{
  Graph, white, grey, black, Colours, Entry, colour_of, push_deps, Search, finished, cyclic,
  nil_deref, out_of_fuel, dfs, dfs_roots, dfs_fuel,
}
use go_research.Dag.Graph.Add.{ids, IsWellFormed}
use go_research.Dag.Graph.Stack.{unmarked, marked, Colour-cases, push_deps-Pushed, push_deps-grey}
use go_research.Dag.Graph.Invariant.{
  colour_of-insert, slots, In-slots-unmarked_left, Dep, Walk, one, more, FromParent, Chain, Inv,
  finish-Inv, visit-Inv,
}
use go_research.Dag.Graph.Progress.{work, work-finish, work-visit, white_degrees-le}

module _ {R : Type 0} (g : Graph R) where
  -- Every dependency is a node of the graph.
  abbrev pub IsKnown : Type 0
  IsKnown = (u d : Str) → Dep g u d → (m : Node R) × (lookup d g.by_id ≡ some m)

  -- From a marked slot a walk leads to each slot above it.
  Chain-Walk :
      (stack : List Entry) (id v : Str)
      → FromParent g id (marked stack)
      → Chain g stack
      → In v (marked stack)
      → Walk g v id
  Chain-Walk [] id v f k m = absurd m
  Chain-Walk ((x, false) ∷ stack) id v f k m = Chain-Walk stack id v f k.1 m
  Chain-Walk ((x, true) ∷ stack) id v f k (inl e) = one (subst (λ z. Dep g z id) (sym e) f)
  Chain-Walk ((x, true) ∷ stack) id v f k (inr m) = more (Chain-Walk stack x v k.0 k.1 m) f

  -- What the search from a stack owes, for each outcome.
  abbrev pub Good : List Str → List Entry → Search → Type 0
  Good done stack (finished c) =
      (done' : List Str) × Inv g c done' []
      × ((d : Str) → In d done ⊎ In d (slots stack) → In d done')
  Good done stack (cyclic id dep) = Dep g id dep × Walk g dep dep
  Good done stack nil_deref = ⊥
  Good done stack out_of_fuel = ⊥

  pub Good-weaken :
      (done done' : List Str) (stack stack' : List Entry) (s : Search)
      → ((d : Str) → In d done ⊎ In d (slots stack) → In d done' ⊎ In d (slots stack'))
      → Good done' stack' s
      → Good done stack s
  Good-weaken done done' stack stack' (finished c) h (done'', i, k) =
      (done'', i, λ d m. k d (h d m))
  Good-weaken done done' stack stack' (cyclic id dep) h k = k
  Good-weaken done done' stack stack' nil_deref h k = k
  Good-weaken done done' stack stack' out_of_fuel h k = k

  module _ (wf : IsWellFormed g) (all_known : IsKnown) where
    grey-Dep :
        (c : Colours) (done : List Str) (id dep : Str) (stack : List Entry) (n : Node R)
        → Inv g c done ((id, false) ∷ stack)
        → lookup id g.by_id ≡ some n
        → push_deps (insert id grey c) n.depends_on ((id, true) ∷ stack) ≡ inl dep
        → Dep g id dep × Walk g dep dep
    grey-Dep c done id dep stack n i found e =
        let (gr, m) = push_deps-grey (insert id grey c) n.depends_on ((id, true) ∷ stack) dep e in
        let edge : Dep g id dep = record { node = n; found = found; listed = m } in
        let at : (dep ≡ id) ⊎ In dep (marked stack) =
          ground (arith, i.greyed dep, colour_of-insert id dep grey c, str_eq_iff id dep) in
        elim at [
          | inl same ↦ (edge, one (subst (λ z. Dep g z dep) (sym same) edge))
          | inr below ↦ (edge, more (Chain-Walk stack id dep i.chain.0 i.chain.1 below) edge)
        ]

    dfs-cyclic :
        (fuel : ℕ) (c : Colours) (id dep : Str) (stack : List Entry) (n : Node R)
        → lookup id g.by_id ≡ some n
        → push_deps (insert id grey c) n.depends_on ((id, true) ∷ stack) ≡ inl dep
        → dfs g (suc fuel) c ((id, false) ∷ stack) ≡ cyclic id dep
    unfolding dfs
    dfs-cyclic fuel c id dep stack n found e = ground arith

    dfs-pushed :
        (fuel : ℕ) (c : Colours) (id : Str) (stack stack' : List Entry) (n : Node R)
        → lookup id g.by_id ≡ some n
        → push_deps (insert id grey c) n.depends_on ((id, true) ∷ stack) ≡ inr stack'
        → dfs g (suc fuel) c ((id, false) ∷ stack) ≡ dfs g fuel (insert id grey c) stack'
    unfolding dfs
    dfs-pushed fuel c id stack stack' n found e = ground arith

    dfs-Good :
        (fuel : ℕ) (c : Colours) (done : List Str) (stack : List Entry)
        → Inv g c done stack
        → work g c stack ≤ fuel
        → Good done stack (dfs g fuel c stack)
    unfolding dfs
    dfs-Good fuel c done [] i h = (done, i, λ d m. elim m [ inl o ↦ o | inr s ↦ absurd s ])
    dfs-Good zero c done ((id, true) ∷ stack) i h = absurd (omega arith)
    dfs-Good zero c done ((id, false) ∷ stack) i h = absurd (omega arith)
    dfs-Good (suc fuel) c done ((id, true) ∷ stack) i h =
        Good-weaken done (id ∷ done) ((id, true) ∷ stack) stack
          (dfs g fuel (insert id black c) stack) (λ d m. ground arith)
          (dfs-Good fuel (insert id black c) (id ∷ done) stack (finish-Inv g c done id stack i)
            (omega (arith, work-finish g c id stack)))
    dfs-Good (suc fuel) c done ((id, false) ∷ stack) i h =
        let (n, found) = i.known id (inl refl) in
        let c' = insert id grey c in
        elim (Sum-cases (push_deps c' n.depends_on ((id, true) ∷ stack))) [
          | inl (dep, e) ↦
              rw (dfs-cyclic fuel c id dep stack n found e)
                (grey-Dep c done id dep stack n i found e)
          | inr (stack', e) ↦
              let p = push_deps-Pushed c' n.depends_on ((id, true) ∷ stack) stack' e in
              let below = λ (d : Str) (m : In d (slots ((id, true) ∷ stack))).
                In-slots-unmarked_left d p.top ((id, true) ∷ stack) m in
              rw (dfs-pushed fuel c id stack stack' n found e) (
                Good-weaken done done ((id, false) ∷ stack) stack' (dfs g fuel c' stack')
                  (λ d m. elim m [ inl o ↦ inl o | inr s ↦ inr (rw p.split (below d s)) ])
                  (dfs-Good fuel c' done stack'
                    (visit-Inv g c done id stack stack' n i found p all_known)
                    (omega (arith, work-visit g wf c done id stack stack' n i found p))))
        ]

    root-Inv :
        (c : Colours) (done : List Str) (n : Node R)
        → In n g.nodes
        → colour_of c n.id ≡ white
        → Inv g c done []
        → Inv g c done ((n.id, false) ∷ [])
    root-Inv c done n m w i = record {
      blackened = i.blackened;
      done_dark = i.done_dark;
      greyed = i.greyed;
      marked_grey = i.marked_grey;
      ordered = i.ordered;
      closed = tt;
      fresh = (λ b. b, tt);
      chain = (tt, tt);
      known = λ x s. elim s [ inl e ↦ (n, rw e (wf.listed n m)) | inr b ↦ absurd b ];
    }

    abbrev and_then : Search → (Colours → Search) → Search
    and_then s next = elim s [ finished c ↦ next c | other ↦ other ]

    Good-and_then :
        (done : List Str) (stack rest : List Entry) (s : Search) (next : Colours → Search)
        → Good done stack s
        → ((c : Colours) (done' : List Str)
            → Inv g c done' []
            → ((d : Str) → In d done ⊎ In d (slots stack) → In d done')
            → Good done rest (next c))
        → Good done rest (and_then s next)
    Good-and_then done stack rest (finished c) next (done', i, k) h = h c done' i k
    Good-and_then done stack rest (cyclic id dep) next k h = k
    Good-and_then done stack rest nil_deref next k h = absurd k
    Good-and_then done stack rest out_of_fuel next k h = absurd k

    dfs_roots-white :
        (c : Colours) (n : Node R) (ns : List (Node R))
        → colour_of c n.id ≡ white
        → dfs_roots g (dfs_fuel g) c (n ∷ ns)
          ≡ and_then
              (dfs g (dfs_fuel g) c ((n.id, false) ∷ []))
              (λ c'. dfs_roots g (dfs_fuel g) c' ns)
    unfolding dfs_roots
    dfs_roots-white c n ns w = rw (w, dfs_roots)

    dfs_roots-black :
        (c : Colours) (n : Node R) (ns : List (Node R))
        → colour_of c n.id ≡ black
        → dfs_roots g (dfs_fuel g) c (n ∷ ns) ≡ dfs_roots g (dfs_fuel g) c ns
    unfolding dfs_roots
    dfs_roots-black c n ns b = rw (b, dfs_roots)

    pub dfs_roots-Good :
        (c : Colours) (done : List Str) (ns : List (Node R))
        → ((n : Node R) → In n ns → In n g.nodes)
        → Inv g c done []
        → Good done (unmarked (ids ns)) (dfs_roots g (dfs_fuel g) c ns)
    unfolding dfs_roots
    dfs_roots-Good c done [] sub i = (done, i, λ d m. elim m [ inl o ↦ o | inr s ↦ absurd s ])
    dfs_roots-Good c done (n ∷ ns) sub i = elim (Colour-cases (colour_of c n.id)) [
      | inl w ↦ rw (dfs_roots-white c n ns w) (
          Good-and_then done ((n.id, false) ∷ []) (unmarked (ids (n ∷ ns)))
            (dfs g (dfs_fuel g) c ((n.id, false) ∷ [])) (λ c'. dfs_roots g (dfs_fuel g) c' ns)
            (dfs-Good (dfs_fuel g) c done ((n.id, false) ∷ [])
              (root-Inv c done n (sub n (inl refl)) w i)
              (omega (arith, white_degrees-le c g.nodes)))
            (λ c' done' i' k.
              Good-weaken done done' (unmarked (ids (n ∷ ns))) (unmarked (ids ns))
                (dfs_roots g (dfs_fuel g) c' ns)
                (λ d m. elim m [
                  | inl o ↦ inl (k d (inl o))
                  | inr s ↦ elim s [ inl e ↦ inl (k d (inr (inl e))) | inr r ↦ inr r ]
                ])
                (dfs_roots-Good c' done' ns (λ m l. sub m (inr l)) i')))
      | inr (inl gr) ↦ absurd (i.greyed n.id gr)
      | inr (inr b) ↦ rw (dfs_roots-black c n ns b) (
          Good-weaken done done (unmarked (ids (n ∷ ns))) (unmarked (ids ns))
            (dfs_roots g (dfs_fuel g) c ns)
            (λ d m. elim m [
              | inl o ↦ inl o
              | inr s ↦ elim s [ inl e ↦ inl (rw e (i.blackened n.id b)) | inr r ↦ inr r ]
            ])
            (dfs_roots-Good c done ns (λ m l. sub m (inr l)) i))
    ]
