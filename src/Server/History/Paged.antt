-- ===== src/Server/History/Paged.antt =====
-- The pages of `handleResearchList` (internal/server/handler_history.go).
use go_research.Prelude.{
  ap₂, ◌⊎◌, inl, inr, ◌^◌, ◌<◌, ℕ, zero, suc, ◌+◌, ◌*◌, ◌≤◌, Bool, false, ◌≡◌, ap, ◌∙◌, Option,
  some, List, [], ◌++◌, map, length, take, drop, Str, arith, length-map,
}
use mathlib.Core.List.{Perm}
use go_research.Text.{decimal}
use go_research.Text.Decimal.{atoi-decimal}
use go_research.Store.{Store}
use go_research.Store.Ordered.{length-order_by, order_by-perm, order_by-IsOrdered, IsOrdered}
use go_research.Store.Queries.{list_sessions, SessionSummary, newer, summary_of, queried}
use go_research.Store.Queries.Pages.{
  HasTimes, take_all, drop-drop, take-append-drop, newer_total, newer_trans, newest_first,
  list_sessions-page,
}
use go_research.Server.History.{Answer, refused, ok, handle_research_list}

module _ (fails : ℕ → Bool) (online : (n : ℕ) → fails n ≡ false) (error_text : ℕ → Str)
    (created_at : Str → ℕ) (completed_at : Str → Option ℕ)
    (arrange : ℕ → List SessionSummary → List SessionSummary)
    (permutes : (n : ℕ) (rows : List SessionSummary) → Perm (arrange n rows) rows) where
  abbrev ask : (limit offset : ℕ) → Option Store → Answer (List SessionSummary) × Option Store
  ask limit offset =
      handle_research_list fails error_text created_at completed_at arrange (decimal limit)
        (decimal offset)

  -- A client that asks for `k` pages of `l` sessions, from an offset on, and stops at an error.
  pub walk : (k l offset : ℕ) → Option Store → List SessionSummary
  walk zero l offset s = []
  walk (suc k) l offset s =
      let (answer, s') = ask l offset s in
      let rest = walk k l (offset + l) s' in
      elim answer [ refused status message ↦ [] | ok items ↦ items ++ rest ]

  abbrev all_of : Store → List SessionSummary
  all_of s = newest_first fails online error_text created_at completed_at s

  abbrev pub Times : Store → Type 0
  Times s = HasTimes fails online error_text created_at completed_at s

  ask-page :
      (l offset : ℕ) (s : Store)
      → Times s
      → 1 ≤ l
      → l ≤ 100
      → offset < 2 ^ 63
      → ask l offset (some s) ≡ (ok (take l (drop offset (all_of s))), some (queried s))
  unfolding handle_research_list
  ask-page l offset s times low high fits =
      ap₂
        (λ m n.
          let (items, s') = list_sessions fails error_text created_at completed_at arrange m n s in
          elim items as (λ x. Answer (List SessionSummary) × Option Store) [
            | inl e ↦ (refused 500 e, some s')
            | inr page ↦ (ok page, some s')
          ])
        (atoi-decimal l (omega arith)) (atoi-decimal offset fits)
      ∙ ap
          (λ (r : (Str ⊎ List SessionSummary) × Store).
            elim r.0 as (λ x. Answer (List SessionSummary) × Option Store) [
              | inl e ↦ (refused 500 e, some r.1)
              | inr page ↦ (ok page, some r.1)
            ])
          (list_sessions-page fails online error_text created_at completed_at arrange permutes l
            offset s times low high)

  walk-take :
      (k l offset : ℕ) (s : Store)
      → Times s
      → 1 ≤ l
      → l ≤ 100
      → offset + k * l < 2 ^ 63
      → walk k l offset (some s) ≡ take (k * l) (drop offset (all_of s))
  unfolding walk
  walk-take zero l offset s times low high fits =
      let e : 0 ≡ 0 * l = omega arith in ap (λ n. take n (drop offset (all_of s))) e
  walk-take (suc k) l offset s times low high fits =
      let count : l + k * l ≡ suc k * l = omega arith in
      let rest = walk-take k l (offset + l) (queried s) times low high (omega (arith, count)) in
      let all = all_of s in
      ap
        (λ (r : Answer (List SessionSummary) × Option Store). elim r.0 [
          | refused status message ↦ []
          | ok items ↦ items ++ walk k l (offset + l) r.1
        ])
        (ask-page l offset s times low high (omega (arith, count)))
      ∙ ap (λ ys. take l (drop offset all) ++ ys)
          (rest ∙ ap (take (k * l)) (drop-drop offset l all))
      ∙ take-append-drop l (k * l) (drop offset all)
      ∙ ap (λ n. take n (drop offset all)) count

  -- Each session once, the newest first.
  pub record Whole (s : Store) (items : List SessionSummary) : Type 0 where
    pub rows : Perm items (map (summary_of fails error_text created_at completed_at) s.sessions)
    pub order : IsOrdered newer items

  -- While no query fails, nothing is written, and no two sessions have the same time of creation, a
  -- client that asks for page after page, each of the same number of sessions between 1 and 100,
  -- gets each session once, the newest first, in whatever order each query comes to the rows, when
  -- the pages are enough for the number of sessions, and the offsets fit an int of 64 bits.
  pub walk-Whole :
      (k l : ℕ) (s : Store)
      → Times s
      → 1 ≤ l
      → l ≤ 100
      → length s.sessions ≤ k * l
      → k * l < 2 ^ 63
      → Whole s (walk k l 0 (some s))
  walk-Whole k l s times low high enough fits_int =
      let summarize = summary_of fails error_text created_at completed_at in
      let rows = map summarize s.sessions in
      let fits : length (all_of s) ≤ k * l =
        omega (arith, length-order_by newer rows, length-map summarize s.sessions, enough) in
      let whole : walk k l 0 (some s) ≡ all_of s =
        walk-take k l 0 s times low high (omega (arith, fits_int))
        ∙ take_all (k * l) (all_of s) fits in
      rw whole (record {
        rows = order_by-perm newer rows;
        order = order_by-IsOrdered newer newer_total newer_trans rows;
      })
