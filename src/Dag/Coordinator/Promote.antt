-- ===== src/Dag/Coordinator/Promote.antt =====
-- The loop over the dependants, and the seeding of the ready queue, in `Run` of
-- internal/agent/dag/scheduler.go.
use go_research.Prelude.{
  List-cases, Bool, true, false, ◌≡◌, refl, sym, ap, ◌∙◌, ◌≢◌, ◌⊎◌, ◌↔◌, inl, inr, Option, some,
  List, [], ◌∷◌, Str, Map, str_eq, str_eq_iff, lookup, insert, lookup-insert_self,
  lookup-insert_other, In, arith, subst, Bool-cases,
}
use go_research.Dag.Types.{Node, State, pending, ready}
use go_research.Dag.Graph.{Graph}
use go_research.Dag.Graph.Add.{ids, Distinct, IsWellFormed}
use go_research.Dag.Worker.{RunFn}
use go_research.Dag.Coordinator.{
  System, left, is_pending, is_some, output, without, snapshot, promote_one, promote,
}
use go_research.Dag.Coordinator.Invariant.{has_succeeded, Waiting, Kept}
use go_research.Dag.Coordinator.Dispatch.{same_succeeded, dispatch-Kept}
use go_research.Dag.Coordinator.Turns.{next-Waiting}

pub different : (x y : Str) → str_eq x y ≡ false → ¬ (x ≡ y)
different x y e q = ground (arith, str_eq_iff x y)

pub In-without : (x d : Str) (xs : List Str) → In d (without x xs) ↔ (In d xs × ¬ (d ≡ x))
In-without x d [] = (λ m. absurd m, λ h. h.0)
In-without x d (y ∷ xs) =
    let (to, from) = In-without x d xs in
    elim (Bool-cases (str_eq y x)) [
      | inl e ↦
          let same = (str_eq_iff y x).0 e in
          rw e (
            λ m. (inr (to m).0, (to m).1),
            λ h. elim h.0 [ inl q ↦ absurd (h.1 (q ∙ same)) | inr q ↦ from (q, h.1) ],
          )
      | inr e ↦ rw e (
        λ m. elim m [
          | inl q ↦ (inl q, λ r. different y x e (sym q ∙ r))
          | inr q ↦ (inr (to q).0, (to q).1)
        ],
        λ h. elim h.0 [ inl q ↦ inl q | inr q ↦ inr (from (q, h.1)) ],
      )
    ]

later : (x d : Str) (ds : List Str) → ¬ (x ≡ d) → In d (x ∷ ds) → In d ds
later x d ds h (inl e) = absurd (h (sym e))
later x d ds h (inr m) = m

pub lookup-snapshot :
    {V : Type 0} (outputs : Map (Option V)) (ds : List Str) (d : Str)
    → In d ds
    → lookup d (snapshot outputs ds) ≡ some (output outputs d)
unfolding snapshot
lookup-snapshot outputs [] d m = absurd m
lookup-snapshot outputs (x ∷ ds) d m = elim (Bool-cases (str_eq x d)) [
  | inl e ↦
      let same = (str_eq_iff x d).0 e in
      subst
        (λ j.
          lookup j (insert x (output outputs x) (snapshot outputs ds)) ≡ some (output outputs j))
        same (lookup-insert_self x (output outputs x) (snapshot outputs ds))
  | inr e ↦
      lookup-insert_other x d (output outputs x) (snapshot outputs ds) (different x d e)
      ∙ lookup-snapshot outputs ds d (later x d ds (different x d e) m)
]

pub is_pending_iff :
    (m : Map State) (id : Str) → is_pending m id ≡ true → lookup id m ≡ some pending
is_pending_iff m id h = ground arith

pub left-insert_self :
    (id : Str) (ds : List Str) (m : Map (List Str)) → left (insert id ds m) id ≡ ds
left-insert_self id ds m = rw (left, lookup-insert_self id ds m) refl

pub left-insert_other :
    (id j : Str) (ds : List Str) (m : Map (List Str))
    → ¬ (id ≡ j)
    → left (insert id ds m) j ≡ left m j
left-insert_other id j ds m h = rw (left, lookup-insert_other id j ds m h) refl

pub is_pending-ready_other :
    (id j : Str) (m : Map State) → ¬ (id ≡ j) → is_pending (insert id ready m) j ≡ is_pending m j
is_pending-ready_other id j m h = rw (is_pending, lookup-insert_other id j ready m h) refl

is_pending-ready : (id : Str) (m : Map State) → is_pending (insert id ready m) id ≡ false
is_pending-ready id m = rw (is_pending, lookup-insert_self id ready m) refl

pub apart_bools : ¬ (false ≡ true)
apart_bools e = cc

pub nil-In : (d : Str) (xs : List Str) → xs ≡ [] → ¬ In d xs
nil-In d xs e m = subst (λ ds. In d ds) e m

pub cons_not_nil : (d : Str) (ds xs : List Str) → xs ≡ d ∷ ds → xs ≢ []
cons_not_nil d ds xs e h = cc

module _ {V E : Type 0} (g : Graph (RunFn V E)) (wf : IsWellFormed g) (id : Str) where
  module _ (n : Node (RunFn V E)) (member : In n g.nodes) (todo : List Str) (past : ¬ In n.id todo)
      (s : System V E) (k : Kept g (n.id ∷ todo) id s) where
    -- The set of a node of which the set is empty from now on.
    pub sent_turn :
        (unmet : Map (List Str)) (waits_on : lookup n.id s.states ≡ some pending)
        → ((j : Str) → ¬ (n.id ≡ j) → left unmet j ≡ left s.unmet j)
        → ((d : Str) → In d n.depends_on → has_succeeded s.states d ≡ true)
        → Waiting g todo id (insert n.id ready s.states) unmet
    sent_turn unmet waits_on others met =
        next-Waiting g wf n member todo id past s.states (insert n.id ready s.states) s.unmet unmet
          (same_succeeded g wf n member s.states waits_on)
          (λ j h. (is_pending-ready_other n.id j s.states h, others j h))
          (inl (
            is_pending-ready n.id s.states,
            λ d i. same_succeeded g wf n member s.states waits_on d ∙ met d i,
          ))
          k.waiting

    skip-Kept : is_pending s.states n.id ≡ false → Kept g todo id s
    skip-Kept p = record {
      status = k.status;
      flight = k.flight;
      waiting =
          next-Waiting g wf n member todo id past s.states s.states s.unmet s.unmet (λ d. refl)
            (λ j h. (refl, refl)) (inl (p, k.waiting.met n member p)) k.waiting;
      tasks = k.tasks;
      counted = k.counted;
      blame = k.blame;
    }

    pub stay-Kept :
        (unmet : Map (List Str))
        → is_pending s.states n.id ≡ true
        → ((j : Str) → ¬ (n.id ≡ j) → left unmet j ≡ left s.unmet j)
        → left unmet n.id ≢ []
        → ((d : Str)
            → In d (left unmet n.id) ↔ (In d n.depends_on × (has_succeeded s.states d ≡ false)))
        → Kept g todo id (record s { unmet = unmet })
    stay-Kept unmet p others more deps = record {
      status = k.status;
      flight = k.flight;
      waiting =
          next-Waiting g wf n member todo id past s.states s.states s.unmet unmet (λ d. refl)
            (λ j h. (refl, others j h)) (inr (p, more, deps)) k.waiting;
      tasks = k.tasks;
      counted = k.counted;
      blame = k.blame;
    }

    module _ (sends : Str → Bool)
        (may_drop : ((j : Str) → sends j ≡ true) ⊎ (is_some s.ctx_err ≡ true))
        (fresh : has_succeeded s.states id ≡ true) where
      -- What is left in the set when `id` has been deleted.
      remaining_deps :
          is_pending s.states n.id ≡ true
          → (d : Str)
          → In d (without id (left s.unmet n.id))
            ↔ (In d n.depends_on × (has_succeeded s.states d ≡ false))
      remaining_deps p d =
          let (to, from) = In-without id d (left s.unmet n.id) in
          let (there, back) = k.waiting.open_deps n member p d in
          (
            λ i.
                let (old, apart) = to i in
                let (dep, why) = there old in
                (dep, elim why [ inl f ↦ f | inr q ↦ absurd (apart q.0) ]),
            λ h. from (
              back (h.0, inl h.1),
              λ e. apart_bools (sym h.1 ∙ ap (λ j. has_succeeded s.states j) e ∙ fresh),
            ),
          )

      choice : (j : Str) → (sends j ≡ true) ⊎ (is_some s.ctx_err ≡ true)
      choice j = elim may_drop [ inl all ↦ inl (all j) | inr stop ↦ inr stop ]

      pub promote_one-Kept : Kept g todo id (promote_one sends id n s)
      unfolding promote_one
      promote_one-Kept = elim (Bool-cases (is_pending s.states n.id)) [
        | inr p ↦ rw (promote_one, p) (skip-Kept p)
        | inl p ↦
            let rest = without id (left s.unmet n.id) in
            let unmet = insert n.id rest s.unmet in
            let at_n = left-insert_self n.id rest s.unmet in
            let others = λ (j : Str) (h : ¬ (n.id ≡ j)). left-insert_other n.id j rest s.unmet h in
            let deps = remaining_deps p in
            elim (List-cases rest) [
              | inl nil ↦
                  let met : (d : Str) → In d n.depends_on → has_succeeded s.states d ≡ true = λ d i.
                    elim (Bool-cases (has_succeeded s.states d)) [
                      | inl yes' ↦ yes'
                      | inr no' ↦ absurd (nil-In d rest nil ((deps d).1 (i, no')))
                    ] in
                  let waits_on = is_pending_iff s.states n.id p in
                  rw (promote_one, p, nil)
                    (dispatch-Kept g wf n member todo id s k waits_on
                      (snapshot s.outputs n.depends_on) unmet (sent_turn unmet waits_on others met)
                      (record {
                        known = member;
                        met = met;
                        given = lookup-snapshot s.outputs n.depends_on;
                      })
                      (sends n.id) (choice n.id))
              | inr (d, ds, more) ↦
                  rw (promote_one, p, more)
                    (stay-Kept unmet p others (λ e. cons_not_nil d ds rest more (sym at_n ∙ e))
                      (rw at_n deps))
            ]
      ]

  same_ctx :
      (sends : Str → Bool) (n : Node (RunFn V E)) (s : System V E)
      → (promote_one sends id n s).ctx_err ≡ s.ctx_err
  unfolding promote_one
  same_ctx sends n s = elim (Bool-cases (is_pending s.states n.id)) [
    | inr p ↦ rw (promote_one, p) refl
    | inl p ↦ elim (List-cases (without id (left s.unmet n.id))) [
      | inl nil ↦ rw (promote_one, p, nil) refl
      | inr (d, ds, more) ↦ rw (promote_one, p, more) refl
    ]
  ]

  pub still_succeeded :
      (sends : Str → Bool) (n : Node (RunFn V E)) (member : In n g.nodes) (s : System V E) (d : Str)
      → has_succeeded s.states d ≡ true
      → has_succeeded (promote_one sends id n s).states d ≡ true
  unfolding promote_one
  still_succeeded sends n member s d h = elim (Bool-cases (is_pending s.states n.id)) [
    | inr p ↦ rw (promote_one, p) h
    | inl p ↦ elim (List-cases (without id (left s.unmet n.id))) [
      | inl nil ↦
          rw (promote_one, p, nil)
            (same_succeeded g wf n member s.states (is_pending_iff s.states n.id p) d ∙ h)
      | inr (e, es, more) ↦ rw (promote_one, p, more) h
    ]
  ]

  -- After the loop every node has had its turn.
  pub promote-Kept :
      (sends : Str → Bool) (ns : List (Node (RunFn V E))) (s : System V E)
      → ((n : Node (RunFn V E)) → In n ns → In n g.nodes)
      → Distinct (ids ns)
      → ((j : Str) → sends j ≡ true) ⊎ (is_some s.ctx_err ≡ true)
      → has_succeeded s.states id ≡ true
      → Kept g (ids ns) id s
      → Kept g [] id (promote sends id ns s)
  unfolding promote
  promote-Kept sends [] s all d may_drop fresh k = k
  promote-Kept sends (n ∷ ns) s all d may_drop fresh k =
      let member = all n (inl refl) in
      promote-Kept sends ns (promote_one sends id n s) (λ m i. all m (inr i)) d.1
        (rw (same_ctx sends n s) may_drop) (still_succeeded sends n member s id fresh)
        (promote_one-Kept n member (ids ns) d.0 s k sends may_drop fresh)
