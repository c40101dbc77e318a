-- ===== src/Dag/Graph/Add.antt =====
-- `Graph.Add` (internal/agent/dag/graph.go): what it refuses, and that the two fields stay in step.
use go_research.Prelude.{
  ◌≡◌, refl, sym, ap, ◌≢◌, ◌↔◌, inl, inr, Option, none, some, List, [], ◌∷◌, ◌++◌, Str, arith,
  lookup, insert, str_eq_iff, lookup-insert, In, In-append_left, In-append_right, In-append_cases,
  Option-cases, Str-cases,
}
use go_research.Dag.Types.{Node}
use go_research.Dag.Graph.{Graph, nil_node, new_graph, add}

-- No ID stands twice.
abbrev pub Distinct : List Str → Type 0
Distinct [] = Unit
Distinct (x ∷ xs) = ¬ In x xs × Distinct xs

pub Distinct-concat : (xs : List Str) (x : Str) → Distinct xs → ¬ In x xs → Distinct (xs ++ x ∷ [])
Distinct-concat [] x d h = (λ m. m, tt)
Distinct-concat (y ∷ ys) x d h = (
  λ m. elim (In-append_cases y ys (x ∷ []) m) [
    | inl old ↦ d.0 old
    | inr new ↦ elim new [ inl e ↦ h (inl (sym e)) | inr none_left ↦ none_left ]
  ],
  Distinct-concat ys x d.1 (λ m. h (inr m)),
)

module _ {R : Type 0} where
  abbrev pub ids : List (Node R) → List Str
  ids [] = []
  ids (n ∷ ns) = n.id ∷ ids ns

  ids-append : (ns ms : List (Node R)) → ids (ns ++ ms) ≡ ids ns ++ ids ms
  ids-append [] ms = refl
  ids-append (n ∷ ns) ms = ap (λ t. n.id ∷ t) (ids-append ns ms)

  pub In-ids : (n : Node R) (ns : List (Node R)) → In n ns → In n.id (ids ns)
  In-ids n [] h = h
  In-ids n (m ∷ ns) (inl e) = inl (ap (λ t. t.id) e)
  In-ids n (m ∷ ns) (inr h) = inr (In-ids n ns h)

  In-ids_inv : (k : Str) (ns : List (Node R)) → In k (ids ns) → (n : Node R) × In n ns × (n.id ≡ k)
  In-ids_inv k [] h = absurd h
  In-ids_inv k (m ∷ ns) (inl e) = (m, inl refl, sym e)
  In-ids_inv k (m ∷ ns) (inr h) = let (n, i, e) = In-ids_inv k ns h in (n, inr i, e)

  -- The map and the slice hold the same nodes, each under its own ID, and each node can run.
  pub record IsWellFormed (g : Graph R) : Type 0 where
    pub keyed : (k : Str) (n : Node R) → lookup k g.by_id ≡ some n → (n.id ≡ k) × In n g.nodes
    pub listed : (n : Node R) → In n g.nodes → lookup n.id g.by_id ≡ some n
    pub complete : (n : Node R) → In n g.nodes → (n.id ≢ []) × (n.run ≢ none)
    pub distinct : Distinct (ids g.nodes)

  pub new_graph-IsWellFormed : IsWellFormed new_graph
  unfolding lookup
  new_graph-IsWellFormed = record {
    keyed = λ k n h. cc;
    listed = λ n h. absurd h;
    complete = λ n h. absurd h;
    distinct = tt;
  }

  -- The node is accepted: it has an ID that is new to the graph, and work to run.
  abbrev pub Accepts : Node R → Graph R → Type 0
  Accepts n g = (n.id ≢ []) × (n.run ≢ none) × (lookup n.id g.by_id ≡ none)

  abbrev pub extended : Node R → Graph R → Graph R
  extended n g = record { nodes = g.nodes ++ n ∷ []; by_id = insert n.id n g.by_id }

  -- `Add` returns nil exactly for a node that the graph accepts.
  pub add-eq-none_iff : (n : Node R) (g : Graph R) → ((add (some n) g).0 ≡ none) ↔ Accepts n g
  unfolding add
  add-eq-none_iff n g = ground (arith, str_eq_iff n.id [])

  -- A node that is accepted joins both fields.
  pub add-extended : (n : Node R) (g : Graph R) → Accepts n g → (add (some n) g).1 ≡ extended n g
  unfolding add
  add-extended n g h = ground (arith, str_eq_iff n.id [])

  add-nil : (g : Graph R) → add none g ≡ (some nil_node, g)
  unfolding add
  add-nil g = refl

  -- On an error the graph is as it was.
  add-unchanged : (m : Option (Node R)) (g : Graph R) → (add m g).0 ≢ none → (add m g).1 ≡ g
  unfolding add
  add-unchanged none g h = refl
  add-unchanged (some n) g h = ground (arith, str_eq_iff n.id [])

  module _ (n : Node R) (g : Graph R) (w : IsWellFormed g) (h : Accepts n g) where
    keyed_next :
        (k : Str) (m : Node R)
        → lookup k (insert n.id n g.by_id) ≡ some m
        → (m.id ≡ k) × In m (g.nodes ++ n ∷ [])
    keyed_next k m e = elim (Str-cases n.id k) [
      | inl same ↦
          let e' : n ≡ m = ground (arith, lookup-insert n.id k n g.by_id, str_eq_iff n.id k) in
          (cc (ap (λ t. t.id) e'), In-append_right m g.nodes (n ∷ []) (inl (sym e')))
      | inr other ↦
          let (a, b) =
            w.keyed k m (ground (arith, lookup-insert n.id k n g.by_id, str_eq_iff n.id k)) in
          (a, In-append_left m g.nodes (n ∷ []) b)
    ]

    listed_next :
        (m : Node R) → In m (g.nodes ++ n ∷ []) → lookup m.id (insert n.id n g.by_id) ≡ some m
    listed_next m i = elim (In-append_cases m g.nodes (n ∷ []) i) [
      | inl old ↦
          let e = w.listed m old in
          ground (arith, lookup-insert n.id m.id n g.by_id, str_eq_iff n.id m.id)
      | inr new ↦ elim new [
        | inl e ↦ ground (arith, lookup-insert n.id m.id n g.by_id, str_eq_iff n.id m.id)
        | inr none_left ↦ absurd none_left
      ]
    ]

    complete_next : (m : Node R) → In m (g.nodes ++ n ∷ []) → (m.id ≢ []) × (m.run ≢ none)
    complete_next m i = elim (In-append_cases m g.nodes (n ∷ []) i) [
      | inl old ↦ w.complete m old
      | inr new ↦ elim new [ inl e ↦ ground arith | inr none_left ↦ absurd none_left ]
    ]

    fresh : ¬ In n.id (ids g.nodes)
    fresh i = let (m, at_m, e) = In-ids_inv n.id g.nodes i in let found = w.listed m at_m in cc

    extended-IsWellFormed : IsWellFormed (extended n g)
    extended-IsWellFormed = record {
      keyed = keyed_next;
      listed = listed_next;
      complete = complete_next;
      distinct =
          rw (ids-append g.nodes (n ∷ [])) (Distinct-concat (ids g.nodes) n.id w.distinct fresh);
    }

  -- `Add` keeps the graph well formed, on every branch.
  pub add-IsWellFormed :
      (m : Option (Node R)) (g : Graph R) → IsWellFormed g → IsWellFormed (add m g).1
  add-IsWellFormed none g w = rw (add-nil g) w
  add-IsWellFormed (some n) g w = elim (Option-cases (add (some n) g).0) [
    | inl ok ↦
        let h = (add-eq-none_iff n g).0 ok in
        rw (add-extended n g h) (extended-IsWellFormed n g w h)
    | inr (e, bad) ↦ rw (add-unchanged (some n) g (λ q. cc)) w
  ]
