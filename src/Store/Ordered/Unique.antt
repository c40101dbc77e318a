-- ===== src/Store/Ordered/Unique.antt =====
-- When the ORDER BY of a query leaves no choice: no two rows stand level.
use go_research.Prelude.{
  Bool, true, ◌≡◌, refl, sym, ap₂, subst, inl, inr, List, [], ◌∷◌, map, All, In,
}
use mathlib.Core.Logic.{∥∥₁_elim}
use mathlib.Core.List.{Perm, Mem, Memᴰ, mem-cons_self, mem-cons_of_mem}
use mathlib.Core.List.Perm
use mathlib.Core.List.Memᴰ
use go_research.Store.Ordered.{IsOrdered}

Memᴰ-map :
    {A B : Type 0} (f : A → B) (xs : List A) (y : B)
    → Memᴰ y (map f xs)
    → (x : A) × In x xs × (y ≡ f x)
Memᴰ-map f [] y d = absurd (Memᴰ.not-nil d)
Memᴰ-map f (x ∷ xs) y d = elim (Memᴰ.cases_cons d) [
  | inl e ↦ (x, inl refl, e)
  | inr m ↦ let (z, i, e) = Memᴰ-map f xs y m in (z, inr i, e)
]

-- What holds of two rows of a table holds of what is made of them.
pub Mem-map₂ :
    {A B : Type 0} (f : A → B) (xs : List A) (P : B → B → Type 0)
    → ((y z : B) → IsProp (P y z))
    → ((a b : A) → In a xs → In b xs → P (f a) (f b))
    → (y z : B) → Mem y (map f xs)
    → Mem z (map f xs)
    → P y z
Mem-map₂ f xs P prop all y z m n = ∥∥₁_elim m (prop y z) (λ c. ∥∥₁_elim n (prop y z) (λ d.
    let (a, i, e) = Memᴰ-map f xs y c in
    let (b, j, e') = Memᴰ-map f xs z d in
    subst (λ u. P u z) (sym e) (subst (λ v. P (f a) v) (sym e') (all a b i j))))

module _ {A : Type 0} where
  All-Memᴰ : (P : A → Type 0) (xs : List A) (x : A) → All P xs → Memᴰ x xs → P x
  All-Memᴰ P [] x all d = absurd (Memᴰ.not-nil d)
  All-Memᴰ P (y ∷ ys) x all d = elim (Memᴰ.cases_cons d) [
    | inl e ↦ subst P (sym e) all.0
    | inr m ↦ All-Memᴰ P ys x all.1 m
  ]

  module _ (le : A → A → Bool) (reflexive : (x : A) → le x x ≡ true) where
    le_prop : (x y : A) → IsProp (le x y ≡ true)
    le_prop x y = hlevel

    first-le : (x y : A) (ys : List A) → IsOrdered le (y ∷ ys) → Mem x (y ∷ ys) → le y x ≡ true
    first-le x y ys o m =
        ∥∥₁_elim m (le_prop y x) (All-Memᴰ (λ z. le y z ≡ true) (y ∷ ys) x (reflexive y, o.0))

    -- Two ordered lists of the same rows are equal, when no two of the rows stand level.
    pub IsOrdered-unique :
        (xs ys : List A)
        → ((x y : A) → Mem x xs → Mem y xs → le x y ≡ true → le y x ≡ true → x ≡ y)
        → Perm xs ys
        → IsOrdered le xs
        → IsOrdered le ys
        → xs ≡ ys
    IsOrdered-unique [] ys anti p o q = Perm.nil-eq p
    IsOrdered-unique (x ∷ xs) [] anti p o q = Perm.eq-nil p
    IsOrdered-unique (x ∷ xs) (y ∷ ys) anti p o q =
        let there : Mem y (x ∷ xs) = (Perm.mem_iff p).1 mem-cons_self in
        let e : x ≡ y =
          anti x y mem-cons_self there (first-le y x xs o there)
            (first-le x y ys q ((Perm.mem_iff p).0 mem-cons_self)) in
        ap₂ ◌∷◌ e (
          IsOrdered-unique xs ys (λ a b m n. anti a b (mem-cons_of_mem x m) (mem-cons_of_mem x n))
            (Perm.cons_inv (subst (λ c. Perm (x ∷ xs) (c ∷ ys)) (sym e) p)) o.1 q.1)
