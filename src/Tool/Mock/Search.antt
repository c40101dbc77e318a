-- ===== src/Tool/Mock/Search.antt =====
-- `Call` of internal/tool/search/mock.go. json.Unmarshal of the arguments, json.Marshal of the result,
-- url.QueryEscape and the verb %q are parameters.
use go_research.Prelude.{
  ℕ, zero, suc, ◌+◌, ◌<◌, ◌^◌, ◌≡◌, sym, ap, ◌∙◌, ◌⊎◌, inl, inr, List, [], ◌∷◌, ◌++◌, Str, codes,
  str_eq, leb, length, take, if◌then◌else◌, In, arith,
}
use go_research.Prelude.Int.{ℤ, pos, lebℤ, pos_part}
use go_research.Text.{trim_space, decimal}
use go_research.Dag.Graph.Add.{Distinct}
use go_research.Researcher.Dedup.{SearchItem, urls}
use go_research.Tool.{SearchArgs}
use go_research.Text.Decimal.{value_from}
use go_research.Tool.Mock.{itoa, value-itoa}

pub data MockError (D : Type 0) : Type 0 where
  bad_args : D → MockError D
  empty_query : MockError D

-- `truncate` of mock.go, which ends a text that it cuts with an ellipsis in UTF-8.
unfoldable pub shorten : Str → ℕ → Str
unfolding trim_space
shorten s n = if leb (length s) n then s else trim_space (take n s) ++ 226 ∷ 128 ∷ 166 ∷ []

module _ (query_escape quote : Str → Str) where
  -- The item of the loop's variable `i`.
  unfoldable pub mock_item : Str → ℕ → SearchItem
  unfolding shorten decimal itoa
  mock_item query i = record {
    title = codes "[mock #" ++ decimal (i + 1) ++ codes "] " ++ shorten query 60;
    url =
        codes "https://example.com/mock?q="
        ++ query_escape query
        ++ codes "&n="
        ++ itoa (pos (i + 1));
    snippet =
        codes "Mock excerpt #"
        ++ decimal (i + 1)
        ++ codes " for the query "
        ++ quote query
        ++ codes ". The Researcher should treat this as a placeholder citation "
        ++ codes "and synthesise findings from the LLM's own knowledge. "
        ++ codes "Set TAVILY_API_KEY in .env to use real search.";
  }

  -- The loop, from `i` on, with the number of rounds that are left.
  unfoldable pub mock_items : Str → (left i : ℕ) → List SearchItem
  unfolding mock_item
  mock_items query zero i = []
  mock_items query (suc left) i = mock_item query i ∷ mock_items query left (i + 1)

  abbrev pub mock_count : ℤ → ℕ
  mock_count max_items = if lebℤ max_items (pos 0) then 3 else pos_part max_items

  -- `Call`
  unfoldable pub mock_call :
      {D : Type 0}
      → (decode : Str → D ⊎ SearchArgs) (encode : List SearchItem → Str) → Str
      → MockError D ⊎ Str
  unfolding mock_items
  mock_call decode encode args_json = elim (decode args_json) [
    | inl d ↦ inl (bad_args d)
    | inr a ↦
        if str_eq a.query []
        then inl empty_query
        else inr (encode (mock_items a.query (mock_count a.max_items) 0))
  ]

  prefix-cancel : (p s t : Str) → p ++ s ≡ p ++ t → s ≡ t
  prefix-cancel [] s t h = h
  prefix-cancel (c ∷ p) s t h = prefix-cancel p s t cc

  url-injective :
      (query : Str) (i j : ℕ)
      → i + 1 < 10 ^ 20
      → j + 1 < 10 ^ 20
      → (mock_item query i).url ≡ (mock_item query j).url
      → i ≡ j
  unfolding mock_item
  url-injective query i j low high h =
      let base = codes "https://example.com/mock?q=" ++ query_escape query ++ codes "&n=" in
      let digits : itoa (pos (i + 1)) ≡ itoa (pos (j + 1)) = prefix-cancel base _ _ h in
      let values : i + 1 ≡ j + 1 =
        sym (value-itoa (i + 1) low) ∙ ap (value_from 0) digits ∙ value-itoa (j + 1) high in
      omega arith

  url_later :
      (query : Str) (left i j : ℕ)
      → j < i
      → i + left < 10 ^ 20
      → ¬ In (mock_item query j).url (urls (mock_items query left i))
  unfolding mock_items
  url_later query zero i j before fits m = m
  url_later query (suc left) i j before fits (inl e) =
      let same : j ≡ i = url-injective query j i (omega arith) (omega arith) e in
      absurd (omega arith)
  url_later query (suc left) i j before fits (inr m) =
      url_later query left (i + 1) j (omega arith) (omega arith) m

  -- The URLs of the items of one call are pairwise distinct, for any number of items below 10 to the
  -- power of 20, so that none of them is taken for another.
  pub mock_items-Distinct :
      (query : Str) (count i : ℕ) → i + count < 10 ^ 20 → Distinct (urls (mock_items query count i))
  unfolding mock_items
  mock_items-Distinct query zero i fits = tt
  mock_items-Distinct query (suc left) i fits = (
    url_later query left (i + 1) i (omega arith) (omega arith),
    mock_items-Distinct query left (i + 1) (omega arith),
  )
