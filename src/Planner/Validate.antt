-- ===== src/Planner/Validate.antt =====
-- `validate` (internal/agent/planner/planner.go) accepts exactly the well-formed plans.
use go_research.Prelude.{
  ℕ, ◌+◌, ◌≤◌, Bool, true, false, ◌||◌, ◌≡◌, refl, sym, ◌∙◌, ◌≢◌, ◌⊎◌, inl, inr, ◌↔◌, none, List,
  [], ◌∷◌, Str, Map, arith, lookup, insert, lookup-insert, str_eq, str_eq_iff, length, In,
  Bool-cases, subst,
}
use go_research.Dag.Graph.Add.{Distinct}
use go_research.Planner.{Subtask, Plan, has, check_subtasks, check_depends, check_edges, validate}

abbrev pub task_ids : List Subtask → List Str
task_ids [] = []
task_ids (s ∷ ss) = s.id ∷ task_ids ss

-- Every subtask has an ID and a question.
abbrev pub Named : List Subtask → Type 0
Named [] = Unit
Named (s ∷ ss) = (s.id ≢ []) × (s.question ≢ []) × Named ss

-- Every subtask depends on `known` IDs only.
abbrev pub DependsOn : List Str → List Subtask → Type 0
DependsOn known [] = Unit
DependsOn known (s ∷ ss) = ((d : Str) → In d s.depends_on → In d known) × DependsOn known ss

pub record IsValid (p : Plan) : Type 0 where
  pub some_tasks : 1 ≤ length p.subtasks
  pub few : length p.subtasks ≤ 8
  pub named : Named p.subtasks
  pub distinct : Distinct (task_ids p.subtasks)
  pub closed : DependsOn (task_ids p.subtasks) p.subtasks

has-insert : (k j : Str) (seen : Map Bool) → has (insert k true seen) j ≡ (str_eq k j || has seen j)
has-insert k j seen = ground (arith, lookup-insert k j true seen)

abbrev NoneOf : Map Bool → List Subtask → Type 0
NoneOf seen ss = (d : Str) → In d (task_ids ss) → has seen d ≡ false

-- What the first loop establishes.
record Checked (seen seen' : Map Bool) (ss : List Subtask) : Type 0 where
  named : Named ss
  distinct : Distinct (task_ids ss)
  fresh : NoneOf seen ss
  holds : (d : Str) → (has seen' d ≡ true) ↔ ((has seen d ≡ true) ⊎ In d (task_ids ss))

module _ (i : ℕ) (seen : Map Bool) (s : Subtask) (ss : List Subtask) where
  first_loop_step :
      (seen' : Map Bool)
      → check_subtasks i seen (s ∷ ss) ≡ inr seen'
      → (s.id ≢ [])
        × (s.question ≢ [])
        × (has seen s.id ≡ false)
        × (check_subtasks (i + 1) (insert s.id true seen) ss ≡ inr seen')
  unfolding check_subtasks
  first_loop_step seen' h = ground (arith, str_eq_iff s.id [], str_eq_iff s.question [])

  first_loop_passes :
      s.id ≢ []
      → s.question ≢ []
      → has seen s.id ≡ false
      → check_subtasks i seen (s ∷ ss) ≡ check_subtasks (i + 1) (insert s.id true seen) ss
  unfolding check_subtasks
  first_loop_passes a b c = ground (arith, str_eq_iff s.id [], str_eq_iff s.question [])

Checked-cons :
    (seen seen' : Map Bool) (s : Subtask) (ss : List Subtask)
    → s.id ≢ []
    → s.question ≢ []
    → has seen s.id ≡ false
    → Checked (insert s.id true seen) seen' ss
    → Checked seen seen' (s ∷ ss)
Checked-cons seen seen' s ss a b f c = record {
  named = (a, b, c.named);
  distinct = (
    λ m. ground (arith, c.fresh s.id m, has-insert s.id s.id seen, str_eq_iff s.id s.id),
    c.distinct,
  );
  fresh = λ d m. elim m [
    | inl e ↦ rw e f
    | inr t ↦ ground (arith, c.fresh d t, has-insert s.id d seen, str_eq_iff s.id d)
  ];
  holds = λ d. ground (arith, c.holds d, has-insert s.id d seen, str_eq_iff s.id d);
}

check_subtasks-Checked :
    (i : ℕ) (seen seen' : Map Bool) (ss : List Subtask)
    → check_subtasks i seen ss ≡ inr seen'
    → Checked seen seen' ss
unfolding check_subtasks
check_subtasks-Checked i seen seen' [] h =
    let same : seen ≡ seen' = cc in
    record {
      named = tt;
      distinct = tt;
      fresh = λ d m. absurd m;
      holds = λ d. rw same (λ e. inl e, λ e. elim e [ inl t ↦ t | inr m ↦ absurd m ]);
    }
check_subtasks-Checked i seen seen' (s ∷ ss) h =
    let (a, b, f, rest) = first_loop_step i seen s ss seen' h in
    Checked-cons seen seen' s ss a b f
      (check_subtasks-Checked (i + 1) (insert s.id true seen) seen' ss rest)

check_subtasks-passes :
    (i : ℕ) (seen : Map Bool) (ss : List Subtask)
    → Named ss
    → Distinct (task_ids ss)
    → NoneOf seen ss
    → (seen' : Map Bool) × (check_subtasks i seen ss ≡ inr seen')
unfolding check_subtasks
check_subtasks-passes i seen [] n d f = (seen, refl)
check_subtasks-passes i seen (s ∷ ss) n d f =
    let (seen', e) = check_subtasks-passes (i + 1) (insert s.id true seen) ss n.2 d.1 (λ k m.
      elim (Bool-cases (str_eq s.id k)) [
        | inl same ↦
            let eq : s.id ≡ k = (str_eq_iff s.id k).0 same in
            absurd (d.0 (subst (λ z. In z (task_ids ss)) (sym eq) m))
        | inr other ↦ ground (arith, f k (inr m), has-insert s.id k seen)
      ]) in
    (seen', first_loop_passes i seen s ss n.0 n.1 (f s.id (inl refl)) ∙ e)

-- Every dependency is in the set.
abbrev Covered : Map Bool → List Subtask → Type 0
Covered seen [] = Unit
Covered seen (s ∷ ss) = ((d : Str) → In d s.depends_on → has seen d ≡ true) × Covered seen ss

check_depends-eq-none_iff :
    (seen : Map Bool) (id : Str) (ds : List Str)
    → (check_depends seen id ds ≡ none) ↔ ((d : Str) → In d ds → has seen d ≡ true)
unfolding check_depends
check_depends-eq-none_iff seen id [] = (λ h d m. absurd m, λ h. refl)
check_depends-eq-none_iff seen id (x ∷ ds) = (
  λ h d m. elim (Bool-cases (has seen x)) [
    | inl known ↦ elim m [
      | inl e ↦ rw e known
      | inr t ↦ (check_depends-eq-none_iff seen id ds).0 (ground arith) d t
    ]
    | inr absent ↦ ground arith
  ],
  λ h.
      let first = h x (inl refl) in
      let rest = (check_depends-eq-none_iff seen id ds).1 (λ d m. h d (inr m)) in ground arith,
)

check_edges-eq-none_iff :
    (seen : Map Bool) (ss : List Subtask) → (check_edges seen ss ≡ none) ↔ Covered seen ss
unfolding check_edges
check_edges-eq-none_iff seen [] = (λ h. tt, λ h. refl)
check_edges-eq-none_iff seen (s ∷ ss) =
    let first = check_depends-eq-none_iff seen s.id s.depends_on in
    let rest = check_edges-eq-none_iff seen ss in
    (
      λ h. (first.0 (ground arith), rest.0 (ground arith)),
      λ h. let a = first.1 h.0 in let b = rest.1 h.1 in ground arith,
    )

Covered-iff :
    (seen : Map Bool) (known : List Str) (ss : List Subtask)
    → ((d : Str) → (has seen d ≡ true) ↔ In d known)
    → Covered seen ss ↔ DependsOn known ss
Covered-iff seen known [] h = (λ c. tt, λ c. tt)
Covered-iff seen known (s ∷ ss) h =
    let rest = Covered-iff seen known ss h in
    (λ c. (λ d m. (h d).0 (c.0 d m), rest.0 c.1), λ c. (λ d m. (h d).1 (c.0 d m), rest.1 c.1))

empty_set : (d : Str) → has [] d ≡ false
unfolding lookup
empty_set d = refl

validate_small :
    (p : Plan)
    → 1 ≤ length p.subtasks
    → length p.subtasks ≤ 8
    → (seen : Map Bool) → check_subtasks 0 [] p.subtasks ≡ inr seen
    → validate p ≡ check_edges seen p.subtasks
unfolding validate
validate_small p a b seen h = ground arith

validate_sizes :
    (p : Plan)
    → validate p ≡ none
    → (1 ≤ length p.subtasks)
      × (length p.subtasks ≤ 8)
      × ((seen : Map Bool) × (check_subtasks 0 [] p.subtasks ≡ inr seen))
unfolding validate
validate_sizes p h = ground arith

ids_iff :
    (seen : Map Bool) (ss : List Subtask)
    → Checked [] seen ss
    → (d : Str) → (has seen d ≡ true) ↔ In d (task_ids ss)
ids_iff seen ss c d = ground (arith, c.holds d, empty_set d)

-- `validate` accepts exactly the plans of 1 to 8 subtasks with distinct, non-empty IDs and non-empty
-- questions, whose dependencies are IDs of the plan.
pub validate-eq-none_iff : (p : Plan) → (validate p ≡ none) ↔ IsValid p
validate-eq-none_iff p = (
  λ h.
      let (lower, upper, (seen, e)) = validate_sizes p h in
      let c = check_subtasks-Checked 0 [] seen p.subtasks e in
      let edges =
        (check_edges-eq-none_iff seen p.subtasks).0
          (sym (validate_small p lower upper seen e) ∙ h) in
      record {
        some_tasks = lower;
        few = upper;
        named = c.named;
        distinct = c.distinct;
        closed =
            (Covered-iff seen (task_ids p.subtasks) p.subtasks (ids_iff seen p.subtasks c)).0 edges;
      },
  λ v.
      let (seen, e) =
        check_subtasks-passes 0 [] p.subtasks v.named v.distinct (λ d m. empty_set d) in
      let c = check_subtasks-Checked 0 [] seen p.subtasks e in
      validate_small p v.some_tasks v.few seen e
      ∙ (check_edges-eq-none_iff seen p.subtasks).1 (
          (Covered-iff seen (task_ids p.subtasks) p.subtasks (ids_iff seen p.subtasks c)).1
            v.closed),
)
