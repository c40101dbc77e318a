-- ===== src/Researcher/Collect/Budget.antt =====
-- What the search rounds of `collectSearchResults` keep: the results without duplicates, and the
-- number of searches.
use go_research.Prelude.{
  ℕ, zero, suc, ◌+◌, ◌*◌, ◌≤◌, false, ◌≡◌, ap, ◌≢◌, inl, inr, List, [], ◌∷◌, Str, length,
  length-take, length-append, arith, ◌==◌, Option-cases, Sum-cases, Bool-cases,
}
use go_research.Prelude.Int.{ℤ, pos, negsuc, ◌≤ℤ◌}
use go_research.Researcher.Options.{Options, normalized, normalized-IsNormal}
use go_research.Researcher.Dedup.{SearchItem, IsDeduped, dedup_append-IsDeduped, none_collected}
use go_research.Researcher.Collect.{
  Tools, Gathered, search_once, wave, rounds, found, first_queries, start, plan_follow_up_queries,
  collect_search_results, to_nat, item_count,
}

length-first_queries :
    (most : ℤ) (qs : List Str) → pos 1 ≤ℤ most → length (first_queries most qs) ≤ to_nat most
unfolding first_queries
length-first_queries (pos n) qs h = ground (arith, length-take n qs)
length-first_queries (negsuc n) qs h = absurd (omega (arith, h))

item_count-pos : {xs : List SearchItem} → xs ≡ [] → ¬ ((item_count xs == 0) ≡ false)
item_count-pos {xs} e h = ground (arith, ap item_count e)

-- The searches of `left` rounds, when the next one has `now` queries.
abbrev pub budget : (most left now : ℕ) → ℕ
budget most zero now = now
budget most (suc left) now = now + left * most

suc-not_zero : (n : ℕ) → (suc n == 0) ≡ false
suc-not_zero n = ground arith

budget-step :
    (n most left now next : ℕ)
    → next ≤ most
    → n + now + budget most (suc left) next ≤ n + budget most (suc (suc left)) now
budget-step n most left now next h = omega arith

-- `budget` of some limits, for the one query of the first round.
abbrev pub search_budget_of : Options → ℕ
search_budget_of o = budget (to_nat o.max_follow_up_queries) (to_nat o.max_search_rounds) 1

abbrev pub search_budget : Options → ℕ
search_budget opts = search_budget_of (normalized opts)

module _ {W E D : Type 0} (t : Tools W E D) where
  -- At most `n` searches have been reported, and the results are deduplicated.
  pub record Kept (n : ℕ) (g : Gathered W) : Type 0 where
    pub deduped : IsDeduped g.collected
    pub within : length g.log ≤ n

  Kept-more : (n m : ℕ) (g : Gathered W) → n ≤ m → Kept n g → Kept m g
  Kept-more n m g h k = record { deduped = k.deduped; within = omega (arith, k.within, h) }

  found-Kept :
      (round : ℕ) (q : Str) (items : List SearchItem) (w : W) (g : Gathered W) (n : ℕ)
      → Kept n g
      → Kept (n + 1) (found t round q items w g)
  found-Kept round q items w g n k = record {
    deduped = dedup_append-IsDeduped g.collected items k.deduped;
    within = omega (
      arith,
      length-append g.log
          (record { round = round; query = q; result_count = item_count items } ∷ []),
      k.within,
    );
  }

  wave-Kept :
      (round : ℕ) (qs : List Str) (g : Gathered W) (n : ℕ)
      → Kept n g
      → Kept (n + length qs) (wave t round qs g).1
  unfolding wave
  wave-Kept round [] g n k = Kept-more n (n + 0) g (omega arith) k
  wave-Kept round (q ∷ qs) g n k = elim (Sum-cases (search_once t q g.world).0) [
    | inl (e, h) ↦ rw h (record { deduped = k.deduped; within = omega (arith, k.within) })
    | inr (items, h) ↦
        let g' = found t round q items (search_once t q g.world).1 g in
        rw h (
          Kept-more (n + 1 + length qs) (n + suc (length qs)) (wave t round qs g').1 (omega arith)
            (wave-Kept round qs g' (n + 1) (found-Kept round q items _ g n k)))
  ]

  module _ (most : ℤ) (positive : pos 1 ≤ℤ most) (question : Str) where
    rounds-Kept :
        (left round : ℕ) (qs : List Str) (g : Gathered W) (n : ℕ)
        → Kept n g
        → Kept
            (n + budget (to_nat most) left (length qs))
            (rounds t most question left round qs g).1
    unfolding rounds
    rounds-Kept zero round qs g n k = Kept-more n _ g (omega arith) k
    rounds-Kept (suc zero) round qs g n k =
        let after =
          Kept-more _ (n + budget (to_nat most) 1 (length qs)) (wave t round qs g).1 (omega arith)
            (wave-Kept round qs g n k) in
        elim (Option-cases (wave t round qs g).0) [
          | inl h ↦ rw (rounds, h) after
          | inr (e, h) ↦ rw (rounds, h) after
        ]
    rounds-Kept (suc (suc left)) round qs g n k =
        let g' = (wave t round qs g).1 in
        let asked = plan_follow_up_queries t question g'.collected.ordered g'.world in
        let waved = wave-Kept round qs g n k in
        let over : Gathered W = record {
          collected = g'.collected;
          log = g'.log;
          world = asked.1;
        } in
        let kept : Kept (n + length qs) over = record {
          deduped = waved.deduped;
          within = waved.within;
        } in
        let after =
          Kept-more _ (n + budget (to_nat most) (suc (suc left)) (length qs)) over (omega arith)
            kept in
        elim (Option-cases (wave t round qs g).0) [
          | inr (e, h) ↦
              rw (rounds, h)
                (Kept-more _ (n + budget (to_nat most) (suc (suc left)) (length qs)) g'
                  (omega arith) waved)
          | inl h ↦ elim (Sum-cases asked.0) [
            | inl (e, h') ↦ rw (rounds, h, suc-not_zero left, h') after
            | inr ([], h') ↦ rw (rounds, h, suc-not_zero left, h') after
            | inr (q ∷ more, h') ↦
                let next = first_queries most (q ∷ more) in
                rw (rounds, h, suc-not_zero left, h')
                  (Kept-more _ _ (rounds t most question (suc left) (round + 1) next over).1
                    (budget-step n (to_nat most) left (length qs) (length next)
                      (length-first_queries most (q ∷ more) positive))
                    (rounds-Kept (suc left) (round + 1) next over (n + length qs) kept))
          ]
        ]

  -- Whatever the options, the tools and the replies are, `collectSearchResults` reports at most
  -- 1 + (rounds - 1) * queries searches, of the normalised limits, and what it has gathered when it
  -- returns, with or without an error, has each URL once and no empty one.
  pub collect_search_results-Kept :
      (opts : Options) (question : Str) (w : W)
      → Kept (search_budget opts) (collect_search_results t opts question w).1
  unfolding collect_search_results
  collect_search_results-Kept opts question w =
      Kept-more _ (search_budget opts) (collect_search_results t opts question w).1 (omega arith) (
        rounds-Kept (normalized opts).max_follow_up_queries (normalized-IsNormal opts).queries
          question (to_nat (normalized opts).max_search_rounds) 1 (question ∷ []) (start t w) 0
          (record { deduped = none_collected; within = omega arith }))

  -- What it returns without an error is all it has gathered, at least one result.
  pub collect_search_results-found :
      (opts : Options) (question : Str) (w : W) (items : List SearchItem)
      → (collect_search_results t opts question w).0 ≡ inr items
      → (items ≡ (collect_search_results t opts question w).1.collected.ordered) × (items ≢ [])
  unfolding collect_search_results
  collect_search_results-found opts question w items h =
      let (failed, g) =
        rounds t (normalized opts).max_follow_up_queries question
          (to_nat (normalized opts).max_search_rounds) 1 (question ∷ []) (start t w) in
      elim (Option-cases failed) [
        | inr (e, bad) ↦ ground arith
        | inl good ↦ elim (Bool-cases (item_count g.collected.ordered == 0)) [
          | inl empty ↦ ground arith
          | inr full ↦
              let same : items ≡ g.collected.ordered = ground arith in
              (same, λ nil. item_count-pos (rw same at nil) full)
        ]
      ]
