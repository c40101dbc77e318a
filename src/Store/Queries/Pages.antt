-- ===== src/Store/Queries/Pages.antt =====
-- The pages of `ListSessions` of internal/store/postgres/research.go.
use go_research.Prelude.{
  ℕ, zero, suc, ◌+◌, ◌≤◌, Bool, true, false, ◌||◌, ◌≡◌, refl, sym, ap, ◌∙◌, inl, inr, Option, List,
  [], ◌∷◌, ◌++◌, map, length, take, Bool-cases, drop, Str, In, arith, length-take,
}
use mathlib.Core.List.{Perm}
use mathlib.Core.List.Perm
use go_research.Prelude.Int.{ℤ, pos, ltbℤ, pos_part}
use go_research.Store.{Store, SessionRow, page_limit}
use go_research.Store.Ordered.{order_by, order_by-perm, order_by-IsOrdered}
use go_research.Store.Ordered.Unique.{IsOrdered-unique, Mem-map₂}
use go_research.Store.Queries.{SessionSummary, newer, summary_of, queried, list_sessions}

pub take_all : {A : Type 0} (n : ℕ) (xs : List A) → length xs ≤ n → take n xs ≡ xs
take_all zero [] h = refl
take_all zero (x ∷ xs) h = absurd (omega arith)
take_all (suc n) [] h = refl
take_all (suc n) (x ∷ xs) h = ap (◌∷◌ x) (take_all n xs (omega arith))

pub drop-drop : {A : Type 0} (o m : ℕ) (xs : List A) → drop (o + m) xs ≡ drop m (drop o xs)
drop-drop zero m xs = ap (λ n. drop n xs) (omega arith)
drop-drop (suc o) zero [] = let e : suc o + zero ≡ suc o = omega arith in ap (λ n. drop n []) e
drop-drop (suc o) (suc m) [] =
    let e : suc o + suc m ≡ suc (o + suc m) = omega arith in ap (λ n. drop n []) e
drop-drop (suc o) m (x ∷ xs) =
    let e : suc o + m ≡ suc (o + m) = omega arith in ap (λ n. drop n (x ∷ xs)) e ∙ drop-drop o m xs

pub take-append-drop :
    {A : Type 0} (m n : ℕ) (xs : List A) → take m xs ++ take n (drop m xs) ≡ take (m + n) xs
take-append-drop zero n xs = ap (λ k. take k xs) (omega arith)
take-append-drop (suc m) zero [] =
    let e : suc (m + zero) ≡ suc m + zero = omega arith in ap (λ k. take k []) e
take-append-drop (suc m) (suc n) [] =
    let e : suc (m + suc n) ≡ suc m + suc n = omega arith in ap (λ k. take k []) e
take-append-drop (suc m) n (x ∷ xs) =
    let e : suc (m + n) ≡ suc m + n = omega arith in
    ap (◌∷◌ x) (take-append-drop m n xs) ∙ ap (λ k. take k (x ∷ xs)) e

pub newer_total : (x y : SessionSummary) → newer x y ≡ false → newer y x ≡ true
newer_total x y h = ground arith

pub newer_trans : (x y z : SessionSummary) → newer x y ≡ true → newer y z ≡ true → newer x z ≡ true
newer_trans x y z h k = ground arith

newer_refl : (x : SessionSummary) → newer x x ≡ true
newer_refl x = ground arith

limit_kept : (l : ℕ) → 1 ≤ l → l ≤ 100 → page_limit (pos l) ≡ pos l
unfolding page_limit
limit_kept l low high = ground arith

page_limit_small : (z : ℤ) → pos_part (page_limit z) ≤ 100
unfolding page_limit
page_limit_small z = ground arith

module _ (fails : ℕ → Bool) (online : (n : ℕ) → fails n ≡ false) (error_text : ℕ → Str)
    (created_at : Str → ℕ) (completed_at : Str → Option ℕ) where
  abbrev pub newest_first : Store → List SessionSummary
  newest_first s =
      order_by newer (map (summary_of fails error_text created_at completed_at) s.sessions)

  -- No two sessions were created at the same time.
  abbrev pub HasTimes : Store → Type 0
  HasTimes s =
      (a b : Str × SessionRow)
      → In a s.sessions
      → In b s.sessions
      → created_at a.0 ≡ created_at b.0
      → a ≡ b

  module _ (arrange : ℕ → List SessionSummary → List SessionSummary)
      (permutes : (n : ℕ) (rows : List SessionSummary) → Perm (arrange n rows) rows) where
    arranged :
        (n : ℕ) (s : Store)
        → HasTimes s
        → order_by newer
            (arrange n (map (summary_of fails error_text created_at completed_at) s.sessions))
          ≡ newest_first s
    arranged n s times =
        let summarize = summary_of fails error_text created_at completed_at in
        let rows = map summarize s.sessions in
        let level =
          Mem-map₂ summarize s.sessions (λ x y. newer x y ≡ true → newer y x ≡ true → x ≡ y)
            (λ x y. hlevel) (λ a b i j h k. ap summarize (times a b i j (ground arith))) in
        let first = order_by-perm newer (arrange n rows) in
        let as_rows = Perm.trans first (permutes n rows) in
        IsOrdered-unique newer newer_refl (order_by newer (arrange n rows)) (order_by newer rows)
          (λ x y m o. level x y ((Perm.mem_iff as_rows).0 m) ((Perm.mem_iff as_rows).0 o))
          (Perm.trans as_rows (Perm.symm (order_by-perm newer rows)))
          (order_by-IsOrdered newer newer_total newer_trans (arrange n rows))
          (order_by-IsOrdered newer newer_total newer_trans rows)

    pub list_sessions-page :
        (l offset : ℕ) (s : Store)
        → HasTimes s
        → 1 ≤ l
        → l ≤ 100
        → list_sessions fails error_text created_at completed_at arrange (pos l) (pos offset) s
          ≡ (inr (take l (drop offset (newest_first s))), queried s)
    unfolding list_sessions
    list_sessions-page l offset s times low high =
        let natural : ltbℤ (pos offset) (pos 0) ≡ false = ground arith in
        rw (list_sessions, online s.calls, limit_kept l low high, natural, arranged s.calls s times)
          refl

    -- A page never has more than 100 sessions.
    pub list_sessions-bounded :
        (limit offset : ℤ) (s : Store) (items : List SessionSummary)
        → (list_sessions fails error_text created_at completed_at arrange limit offset s).0
          ≡ inr items
        → length items ≤ 100
    unfolding list_sessions
    list_sessions-bounded limit offset s items h =
        elim (Bool-cases (fails s.calls || ltbℤ offset (pos 0))) [
          | inl bad ↦ absurd (let e = rw (bad) at h in cc)
          | inr good ↦
              let rows = map (summary_of fails error_text created_at completed_at) s.sessions in
              let rest = drop (pos_part offset) (order_by newer (arrange s.calls rows)) in
              let n = pos_part (page_limit limit) in
              let page : take n rest ≡ items = let e = rw (good) at h in cc in
              rw (sym page) (omega (In, arith, length-take n rest, page_limit_small limit))
        ]
