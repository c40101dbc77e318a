-- ===== src/Dag/Graph/Stack.antt =====
-- The stack of `detectCycle` (internal/agent/dag/graph.go): what its slots say about the colours.
use go_research.Prelude.{
  ℕ, ◌+◌, ◌*◌, ◌≤◌, ◌≡◌, refl, ap, ◌⊎◌, inl, inr, true, false, List, [], ◌∷◌, ◌++◌, Str, sym, ◌∙◌,
  arith, length, In, In-append_left, In-concat_cases, In-concat_last, length-append,
}
use go_research.Dag.Graph.{Colour, white, grey, black, Colours, Entry, colour_of, push_deps}

abbrev pub unmarked : List Str → List Entry
unmarked [] = []
unmarked (x ∷ xs) = (x, false) ∷ unmarked xs

-- The IDs of the slots that wait for their finish.
abbrev pub marked : List Entry → List Str
marked [] = []
marked ((id, true) ∷ stack) = id ∷ marked stack
marked ((id, false) ∷ stack) = marked stack

-- The steps that the slots themselves take.
abbrev pub slot_work : List Entry → ℕ
slot_work [] = 0
slot_work ((id, true) ∷ stack) = 1 + slot_work stack
slot_work ((id, false) ∷ stack) = 2 + slot_work stack

-- What the loop over the dependencies pushed.
pub record Pushed (c : Colours) (deps : List Str) (stack stack' : List Entry) : Type 0 where
  pub top : List Str
  pub split : stack' ≡ unmarked top ++ stack
  pub new : (d : Str) → In d top → (colour_of c d ≡ white) × In d deps
  pub rest : (d : Str) → In d deps → In d top ⊎ (colour_of c d ≡ black)
  pub few : length top ≤ length deps

pub Colour-cases : (k : Colour) → (k ≡ white) ⊎ (k ≡ grey) ⊎ (k ≡ black)
Colour-cases white = inl refl
Colour-cases grey = inr (inl refl)
Colour-cases black = inr (inr refl)

unmarked-concat :
    (xs : List Str) (x : Str) (stack : List Entry)
    → unmarked (xs ++ x ∷ []) ++ stack ≡ unmarked xs ++ (x, false) ∷ stack
unmarked-concat [] x stack = refl
unmarked-concat (y ∷ xs) x stack = ap (λ t. (y, false) ∷ t) (unmarked-concat xs x stack)

module _ (c : Colours) (dep : Str) (deps : List Str) (stack stack' : List Entry) where
  Pushed-white :
      colour_of c dep ≡ white
      → Pushed c deps ((dep, false) ∷ stack) stack'
      → Pushed c (dep ∷ deps) stack stack'
  Pushed-white w p = record {
    top = p.top ++ dep ∷ [];
    split = p.split ∙ sym (unmarked-concat p.top dep stack);
    new = λ d m. elim (In-concat_cases d p.top dep m) [
      | inl old ↦ let (a, b) = p.new d old in (a, inr b)
      | inr e ↦ (rw e w, inl e)
    ];
    rest = λ d m. elim m [
      | inl e ↦ inl (In-concat_last d p.top dep e)
      | inr i ↦ elim (p.rest d i) [
        | inl t ↦ inl (In-append_left d p.top (dep ∷ []) t)
        | inr b ↦ inr b
      ]
    ];
    few = omega (arith, length-append p.top (dep ∷ []), p.few);
  }

  Pushed-black :
      colour_of c dep ≡ black → Pushed c deps stack stack' → Pushed c (dep ∷ deps) stack stack'
  Pushed-black b p = record {
    top = p.top;
    split = p.split;
    new = λ d m. let (x, y) = p.new d m in (x, inr y);
    rest = λ d m. elim m [ inl e ↦ inr (rw e b) | inr i ↦ p.rest d i ];
    few = omega (arith, p.few);
  }

pub push_deps-Pushed :
    (c : Colours) (deps : List Str) (stack stack' : List Entry)
    → push_deps c deps stack ≡ inr stack'
    → Pushed c deps stack stack'
unfolding push_deps
push_deps-Pushed c [] stack stack' h = record {
  top = [];
  split = ground arith;
  new = λ d m. absurd m;
  rest = λ d m. absurd m;
  few = omega arith;
}
push_deps-Pushed c (dep ∷ deps) stack stack' h = elim (Colour-cases (colour_of c dep)) [
  | inl w ↦
      Pushed-white c dep deps stack stack' w
        (push_deps-Pushed c deps ((dep, false) ∷ stack) stack' (rw (w, push_deps) at h))
  | inr (inl gr) ↦ ground arith
  | inr (inr b) ↦
      Pushed-black c dep deps stack stack' b
        (push_deps-Pushed c deps stack stack' (rw (b, push_deps) at h))
]

-- The loop stops early at a grey dependency only.
pub push_deps-grey :
    (c : Colours) (deps : List Str) (stack : List Entry) (dep : Str)
    → push_deps c deps stack ≡ inl dep
    → (colour_of c dep ≡ grey) × In dep deps
unfolding push_deps
push_deps-grey c [] stack dep h = cc
push_deps-grey c (d ∷ deps) stack dep h =
    ground (arith, push_deps-grey c deps ((d, false) ∷ stack) dep, push_deps-grey c deps stack dep)

-- Facts about the pushed slots.
pub marked-unmarked :
    (top : List Str) (stack : List Entry) → marked (unmarked top ++ stack) ≡ marked stack
marked-unmarked [] stack = refl
marked-unmarked (x ∷ top) stack = marked-unmarked top stack

pub slot_work-unmarked :
    (top : List Str) (stack : List Entry)
    → slot_work (unmarked top ++ stack) ≡ 2 * length top + slot_work stack
slot_work-unmarked [] stack = omega arith
slot_work-unmarked (x ∷ top) stack = omega (arith, slot_work-unmarked top stack)
