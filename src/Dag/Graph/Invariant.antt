-- ===== src/Dag/Graph/Invariant.antt =====
-- The invariant of the loop in `detectCycle` (internal/agent/dag/graph.go), kept by each round.
-- `done` lists the nodes that were finished, the latest first; it is not a variable of the code.
use go_research.Prelude.{
  ◌≡◌, refl, subst, ◌≢◌, ◌⊎◌, inl, inr, true, false, some, List, [], ◌∷◌, ◌++◌, Str, arith, In,
  lookup, insert, str_eq, str_eq_iff, lookup-insert, Str-cases, if◌then◌else◌,
}
use go_research.Dag.Types.{Node}
use go_research.Dag.Graph.{Graph, Colour, white, grey, black, Colours, Entry, colour_of}
use go_research.Dag.Graph.Stack.{unmarked, marked, Pushed, marked-unmarked}

pub colour_of-insert :
    (k j : Str) (v : Colour) (c : Colours)
    → colour_of (insert k v c) j ≡ (if str_eq k j then v else colour_of c j)
unfolding colour_of
colour_of-insert k j v c = ground (arith, lookup-insert k j v c)

-- The IDs on the stack.
abbrev pub slots : List Entry → List Str
slots [] = []
slots ((id, b) ∷ stack) = id ∷ slots stack

pub In-slots-unmarked_left :
    (x : Str) (top : List Str) (stack : List Entry)
    → In x (slots stack)
    → In x (slots (unmarked top ++ stack))
In-slots-unmarked_left x [] stack m = m
In-slots-unmarked_left x (y ∷ top) stack m = inr (In-slots-unmarked_left x top stack m)

pub In-slots_cases :
    (x : Str) (top : List Str) (stack : List Entry)
    → In x (slots (unmarked top ++ stack))
    → In x top ⊎ In x (slots stack)
In-slots_cases x [] stack m = inr m
In-slots_cases x (y ∷ top) stack (inl e) = inl (inl e)
In-slots_cases x (y ∷ top) stack (inr m) = elim (In-slots_cases x top stack m) [
  | inl t ↦ inl (inr t)
  | inr s ↦ inr s
]

-- No slot stands above a marked slot of the same ID.
abbrev pub Fresh : List Entry → Type 0
Fresh [] = Unit
Fresh ((id, b) ∷ stack) = ¬ In id (marked stack) × Fresh stack

module _ {R : Type 0} (g : Graph R) where
  -- `u` depends on `v`.
  pub record Dep (u v : Str) : Type 0 where
    pub node : Node R
    pub found : lookup u g.by_id ≡ some node
    pub listed : In v node.depends_on

  pub Dep-listed :
      (u d : Str) (n : Node R) → Dep u d → lookup u g.by_id ≡ some n → In d n.depends_on
  Dep-listed u d n e found =
      let same : e.node ≡ n = cc e.found in subst (λ m. In d m.depends_on) same e.listed

  -- A chain of one or more dependencies.
  pub data Walk (u : Str) : Str → Type 0 where
    one : {v : Str} → Dep u v → Walk u v
    more : {v w : Str} → Walk u v → Dep v w → Walk u w

  -- Each finished node has its dependencies finished before it.
  abbrev pub Ordered : List Str → Type 0
  Ordered [] = Unit
  Ordered (x ∷ xs) = ((d : Str) → Dep x d → In d xs) × Ordered xs

  pub Ordered-Dep : (done : List Str) (x d : Str) → Ordered done → In x done → Dep x d → In d done
  Ordered-Dep [] x d o m e = absurd m
  Ordered-Dep (y ∷ done) x d o (inl q) e = inr (o.0 d (subst (λ z. Dep z d) q e))
  Ordered-Dep (y ∷ done) x d o (inr m) e = inr (Ordered-Dep done x d o.1 m e)

  -- The dependencies of a marked slot are finished or stand above it.
  abbrev pub Closed : List Str → List Str → List Entry → Type 0
  Closed done above [] = Unit
  Closed done above ((id, true) ∷ stack) =
      ((d : Str) → Dep id d → In d done ⊎ In d above) × Closed done (id ∷ above) stack
  Closed done above ((id, false) ∷ stack) = Closed done (id ∷ above) stack

  abbrev pub FromParent : Str → List Str → Type 0
  FromParent id [] = Unit
  FromParent id (p ∷ ps) = Dep p id

  -- Each slot is a dependency of the next marked slot below it.
  abbrev pub Chain : List Entry → Type 0
  Chain [] = Unit
  Chain ((id, b) ∷ stack) = FromParent id (marked stack) × Chain stack

  pub record Inv (c : Colours) (done : List Str) (stack : List Entry) : Type 0 where
    pub blackened : (v : Str) → colour_of c v ≡ black → In v done
    pub done_dark : (v : Str) → In v done → colour_of c v ≢ white
    pub greyed : (v : Str) → colour_of c v ≡ grey → In v (marked stack)
    pub marked_grey : (v : Str) → In v (marked stack) → colour_of c v ≡ grey
    pub ordered : Ordered done
    pub closed : Closed done [] stack
    pub fresh : Fresh stack
    pub chain : Chain stack
    pub known : (x : Str) → In x (slots stack) → (n : Node R) × (lookup x g.by_id ≡ some n)

  Closed-mono :
      (done done' above above' : List Str) (stack : List Entry)
      → ((d : Str) → In d done ⊎ In d above → In d done' ⊎ In d above')
      → Closed done above stack
      → Closed done' above' stack
  Closed-mono done done' above above' [] h k = tt
  Closed-mono done done' above above' ((id, true) ∷ stack) h k = (
    λ d e. h d (k.0 d e),
    Closed-mono done done' (id ∷ above) (id ∷ above') stack (λ d m. ground (arith, h d)) k.1,
  )
  Closed-mono done done' above above' ((id, false) ∷ stack) h k =
      Closed-mono done done' (id ∷ above) (id ∷ above') stack (λ d m. ground (arith, h d)) k

  -- The pushed slots stand above the old ones.
  Closed-unmarked :
      (done above : List Str) (top : List Str) (below : List Str) (stack : List Entry)
      → ((d : Str) → In d below → In d top ⊎ In d above)
      → Closed done below stack
      → Closed done above (unmarked top ++ stack)
  Closed-unmarked done above [] below stack h k =
      Closed-mono done done below above stack (λ d m. ground (arith, h d)) k
  Closed-unmarked done above (x ∷ top) below stack h k =
      Closed-unmarked done (x ∷ above) top below stack (λ d m. ground (arith, h d)) k

  Fresh-unmarked :
      (top : List Str) (stack : List Entry)
      → ((x : Str) → In x top → ¬ In x (marked stack))
      → Fresh stack
      → Fresh (unmarked top ++ stack)
  Fresh-unmarked [] stack h f = f
  Fresh-unmarked (x ∷ top) stack h f = (
    rw (marked-unmarked top stack) (h x (inl refl)),
    Fresh-unmarked top stack (λ y m. h y (inr m)) f,
  )

  Chain-unmarked :
      (top : List Str) (id : Str) (stack : List Entry)
      → ((x : Str) → In x top → Dep id x)
      → Chain ((id, true) ∷ stack)
      → Chain (unmarked top ++ (id, true) ∷ stack)
  Chain-unmarked [] id stack h k = k
  Chain-unmarked (x ∷ top) id stack h k = (
    rw (marked-unmarked top ((id, true) ∷ stack)) (h x (inl refl)),
    Chain-unmarked top id stack (λ y m. h y (inr m)) k,
  )

  -- A round that finishes a node.
  pub finish-Inv :
      (c : Colours) (done : List Str) (id : Str) (stack : List Entry)
      → Inv c done ((id, true) ∷ stack)
      → Inv (insert id black c) (id ∷ done) stack
  finish-Inv c done id stack i = record {
    blackened =
        λ v e. ground (arith, i.blackened v, colour_of-insert id v black c, str_eq_iff id v);
    done_dark =
        λ v m. ground (arith, i.done_dark v, colour_of-insert id v black c, str_eq_iff id v);
    greyed = λ v e. ground (arith, i.greyed v, colour_of-insert id v black c, str_eq_iff id v);
    marked_grey = λ v m. elim (Str-cases id v) [
      | inl e ↦ absurd (i.fresh.0 (rw e m))
      | inr ne ↦
          ground (arith, i.marked_grey v (inr m), colour_of-insert id v black c, str_eq_iff id v)
    ];
    ordered = (λ d e. elim (i.closed.0 d e) [ inl m ↦ m | inr m ↦ absurd m ], i.ordered);
    closed = Closed-mono done (id ∷ done) (id ∷ []) [] stack (λ d m. ground arith) i.closed.1;
    fresh = i.fresh.1;
    chain = i.chain.1;
    known = λ x m. i.known x (inr m);
  }

  module _ (c : Colours) (done : List Str) (id : Str) (stack stack' : List Entry) (n : Node R)
      (i : Inv c done ((id, false) ∷ stack)) (found : lookup id g.by_id ≡ some n)
      (p : Pushed (insert id grey c) n.depends_on ((id, true) ∷ stack) stack') where
    marked_stack : marked stack' ≡ id ∷ marked stack
    marked_stack = rw p.split (marked-unmarked p.top ((id, true) ∷ stack))

    visit_blackened : (v : Str) → colour_of (insert id grey c) v ≡ black → In v done
    visit_blackened v e =
        ground (arith, i.blackened v, colour_of-insert id v grey c, str_eq_iff id v)

    visit_marked_grey : (v : Str) → In v (id ∷ marked stack) → colour_of (insert id grey c) v ≡ grey
    visit_marked_grey v m =
        ground (arith, i.marked_grey v, colour_of-insert id v grey c, str_eq_iff id v)

    visit-Closed : Closed done [] (unmarked p.top ++ (id, true) ∷ stack)
    visit-Closed =
        Closed-unmarked done [] p.top p.top ((id, true) ∷ stack) (λ d m. inl m)
          (
            λ d e. elim (p.rest d (Dep-listed id d n e found)) [
              | inl t ↦ inr t
              | inr b ↦ inl (visit_blackened d b)
            ],
            Closed-mono done done (id ∷ []) (id ∷ p.top) stack (λ d m. ground arith) i.closed,
          )

    visit-Fresh : Fresh (unmarked p.top ++ (id, true) ∷ stack)
    visit-Fresh =
        Fresh-unmarked p.top ((id, true) ∷ stack)
          (λ x t m. ground (arith, visit_marked_grey x m, p.new x t)) i.fresh

    visit-Chain : Chain (unmarked p.top ++ (id, true) ∷ stack)
    visit-Chain =
        Chain-unmarked p.top id stack
          (λ x m. record { node = n; found = found; listed = (p.new x m).1 }) i.chain

    -- A round that visits a node and pushes its white dependencies.
    pub visit-Inv :
        ((u d : Str) → Dep u d → (m : Node R) × (lookup d g.by_id ≡ some m))
        → Inv (insert id grey c) done stack'
    visit-Inv all_known = record {
      blackened = visit_blackened;
      done_dark =
          λ v m. ground (arith, i.done_dark v m, colour_of-insert id v grey c, str_eq_iff id v);
      greyed = λ v e.
          rw marked_stack
            (ground (arith, i.greyed v, colour_of-insert id v grey c, str_eq_iff id v));
      marked_grey = λ v m. visit_marked_grey v (rw marked_stack at m);
      ordered = i.ordered;
      closed = rw p.split visit-Closed;
      fresh = rw p.split visit-Fresh;
      chain = rw p.split visit-Chain;
      known = λ x m. elim (In-slots_cases x p.top ((id, true) ∷ stack) (rw p.split at m)) [
        | inl t ↦ all_known id x (record { node = n; found = found; listed = (p.new x t).1 })
        | inr s ↦ i.known x s
      ];
    }
