-- ===== src/Store/Ordered.antt =====
-- The ORDER BY of the queries of internal/store/postgres/research.go, by the comparison of the rows.
pub mod Unique
use go_research.Prelude.{
  refl, suc, ap, ◌∙◌, length, Bool, true, false, ◌≡◌, inl, inr, List, [], ◌∷◌, if◌then◌else◌, All,
  Bool-cases,
}
use mathlib.Core.List.{Perm}
use mathlib.Core.List.Perm

module _ {A : Type 0} (le : A → A → Bool) where
  unfoldable pub put : A → List A → List A
  put x [] = x ∷ []
  put x (y ∷ ys) = let rest = put x ys in if le x y then x ∷ y ∷ ys else y ∷ rest

  unfoldable pub order_by : List A → List A
  unfolding put
  order_by [] = []
  order_by (x ∷ xs) = put x (order_by xs)

  -- Every row comes before those that follow.
  abbrev pub IsOrdered : List A → Type 0
  IsOrdered [] = Unit
  IsOrdered (x ∷ xs) = All (λ y. le x y ≡ true) xs × IsOrdered xs

  put-perm : (x : A) (xs : List A) → Perm (put x xs) (x ∷ xs)
  unfolding put
  put-perm x [] = Perm.rfl
  put-perm x (y ∷ ys) = elim (Bool-cases (le x y)) [
    | inl before ↦ rw (put, before) Perm.rfl
    | inr after ↦ rw (put, after) (Perm.trans (Perm.cons y (put-perm x ys)) (Perm.swap x y ys))
  ]

  pub order_by-perm : (xs : List A) → Perm (order_by xs) xs
  unfolding order_by
  order_by-perm [] = Perm.rfl
  order_by-perm (x ∷ xs) = Perm.trans (put-perm x (order_by xs)) (Perm.cons x (order_by-perm xs))

  length-put : (x : A) (xs : List A) → length (put x xs) ≡ suc (length xs)
  unfolding put
  length-put x [] = refl
  length-put x (y ∷ ys) = elim (Bool-cases (le x y)) [
    | inl before ↦ rw (put, before) refl
    | inr after ↦ rw (put, after) (ap suc (length-put x ys))
  ]

  pub length-order_by : (xs : List A) → length (order_by xs) ≡ length xs
  unfolding order_by
  length-order_by [] = refl
  length-order_by (x ∷ xs) = length-put x (order_by xs) ∙ ap suc (length-order_by xs)

  module _ (total : (x y : A) → le x y ≡ false → le y x ≡ true)
      (trans : (x y z : A) → le x y ≡ true → le y z ≡ true → le x z ≡ true) where
    put-All :
        (z x : A) (xs : List A)
        → le z x ≡ true
        → All (λ y. le z y ≡ true) xs
        → All (λ y. le z y ≡ true) (put x xs)
    unfolding put
    put-All z x [] h all = (h, tt)
    put-All z x (y ∷ ys) h all = elim (Bool-cases (le x y)) [
      | inl before ↦ rw (put, before) (h, all)
      | inr after ↦ rw (put, after) (all.0, put-All z x ys h all.1)
    ]

    All-trans :
        (x y : A) (ys : List A)
        → le x y ≡ true
        → All (λ z. le y z ≡ true) ys
        → All (λ z. le x z ≡ true) ys
    All-trans x y [] h all = tt
    All-trans x y (z ∷ zs) h all = (trans x y z h all.0, All-trans x y zs h all.1)

    put-IsOrdered : (x : A) (xs : List A) → IsOrdered xs → IsOrdered (put x xs)
    unfolding put
    put-IsOrdered x [] o = (tt, tt)
    put-IsOrdered x (y ∷ ys) o = elim (Bool-cases (le x y)) [
      | inl before ↦ rw (put, before) ((before, All-trans x y ys before o.0), o)
      | inr after ↦ rw (put, after) (put-All y x ys (total x y after) o.0, put-IsOrdered x ys o.1)
    ]

    pub order_by-IsOrdered : (xs : List A) → IsOrdered (order_by xs)
    unfolding order_by
    order_by-IsOrdered [] = tt
    order_by-IsOrdered (x ∷ xs) = put-IsOrdered x (order_by xs) (order_by-IsOrdered xs)
