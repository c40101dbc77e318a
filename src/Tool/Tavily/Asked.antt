-- ===== src/Tool/Tavily/Asked.antt =====
-- The request that `Call` of internal/tool/search/tavily.go is to send, and the items that it is to make of
-- the results, written without the functions of the model.
use go_research.Prelude.{
  not_blank, ℕ, zero, suc, refl, ◌∙◌, ◌∷◌, ◌++◌, codes, if◌then◌else◌, ◌≡◌, ◌≢◌, sym, ap, ◌⊎◌, inl,
  inr, List, [], map, Str, str_eq, str_eq_iff, Bool-cases, arith,
}
use go_research.Prelude.Int.{ℤ, pos, negsuc, lebℤ}
use go_research.Researcher.Dedup.{SearchItem}
use go_research.Tool.{SearchArgs}
use go_research.Tool.Tavily.{
  Tavily, TavilyReq, TavilyItem, or_default, Request, item_of, request_of,
}

-- `s`, or the default when it is empty.
abbrev pub IsOr : (s fallback v : Str) → Type 0
IsOr s fallback v = ((s ≡ []) × (v ≡ fallback)) ⊎ ((s ≢ []) × (v ≡ s))

pub or_default-IsOr : (s fallback : Str) → IsOr s fallback (or_default s fallback)
or_default-IsOr s fallback = elim (Bool-cases (str_eq s [])) [
  | inl blank ↦ rw blank (inl ((str_eq_iff s []).0 blank, refl))
  | inr some_text ↦ rw some_text (inr (λ e. ground (arith, str_eq_iff s []), refl))
]

IsOr-or_default : (s fallback v : Str) → IsOr s fallback v → v ≡ or_default s fallback
unfolding str_eq
IsOr-or_default s fallback v (inl (blank, same)) = rw (blank, same) refl
IsOr-or_default s fallback v (inr (some_text, same)) = rw (not_blank s some_text) same

-- What the arguments want at most: five when they name no positive number.
abbrev pub IsCount : ℤ → ℤ → Type 0
IsCount (pos zero) n = n ≡ pos 5
IsCount (pos (suc k)) n = n ≡ pos (suc k)
IsCount (negsuc k) n = n ≡ pos 5

abbrev count : ℤ → ℤ
count k = if lebℤ k (pos 0) then pos 5 else k

count_suc : (k : ℕ) → count (pos (suc k)) ≡ pos (suc k)
count_suc k = ground arith

count_negsuc : (k : ℕ) → count (negsuc k) ≡ pos 5
count_negsuc k = ground arith

count-IsCount : (k : ℤ) → IsCount k (count k)
count-IsCount (pos zero) = refl
count-IsCount (pos (suc k)) = count_suc k
count-IsCount (negsuc k) = count_negsuc k

IsCount-count : (k n : ℤ) → IsCount k n → n ≡ count k
IsCount-count (pos zero) n h = h
IsCount-count (pos (suc k)) n h = h ∙ sym (count_suc k)
IsCount-count (negsuc k) n h = h ∙ sym (count_negsuc k)

-- The same results, in order, each with its title, its URL and its content as the snippet.
abbrev pub Lists : List TavilyItem → List SearchItem → Type 0
Lists [] [] = Unit
Lists [] (i ∷ items) = ⊥
Lists (r ∷ results) [] = ⊥
Lists (r ∷ results) (i ∷ items) =
    (i.title ≡ r.title) × (i.url ≡ r.url) × (i.snippet ≡ r.content) × Lists results items

pub map-Lists : (results : List TavilyItem) → Lists results (map item_of results)
map-Lists [] = tt
map-Lists (r ∷ results) = (refl, refl, refl, map-Lists results)

item_eq : (i j : SearchItem) → i.title ≡ j.title → i.url ≡ j.url → i.snippet ≡ j.snippet → i ≡ j
item_eq i j title url text = cc

pub Lists-map :
    (results : List TavilyItem) (items : List SearchItem)
    → Lists results items
    → items ≡ map item_of results
Lists-map [] [] h = refl
Lists-map [] (i ∷ items) h = absurd h
Lists-map (r ∷ results) [] h = absurd h
Lists-map (r ∷ results) (i ∷ items) (title, url, text, rest) =
    let same = item_eq i (item_of r) title url text in rw (same, Lists-map results items rest) refl

module _ (t : Tavily) (encode_req : TavilyReq → Str) where
  -- The request for the arguments: to the endpoint, with the key, for the depth of the search.
  pub record Asks (a : SearchArgs) (q : Request) : Type 0 where
    pub url : IsOr t.endpoint (codes "https://api.tavily.com/search") q.url
    pub authorization : q.authorization ≡ codes "Bearer " ++ t.api_key
    pub depth : Str
    pub deep : IsOr t.search_depth (codes "basic") depth
    pub most : ℤ
    pub counted : IsCount a.max_items most
    pub body :
        q.body ≡ encode_req (record { query = a.query; search_depth = depth; max_results = most })

  pub request_of-Asks : (a : SearchArgs) → Asks a (request_of t encode_req a)
  request_of-Asks a = record {
    url = or_default-IsOr t.endpoint (codes "https://api.tavily.com/search");
    authorization = refl;
    depth = or_default t.search_depth (codes "basic");
    deep = or_default-IsOr t.search_depth (codes "basic");
    most = count a.max_items;
    counted = count-IsCount a.max_items;
    body = refl;
  }

  request_eq :
      (q r : Request) → q.url ≡ r.url → q.authorization ≡ r.authorization → q.body ≡ r.body → q ≡ r
  request_eq q r url authorization body = cc

  pub Asks-request_of : (a : SearchArgs) (q : Request) → Asks a q → q ≡ request_of t encode_req a
  Asks-request_of a q h =
      let depth = IsOr-or_default t.search_depth (codes "basic") h.depth h.deep in
      let most = IsCount-count a.max_items h.most h.counted in
      request_eq q (request_of t encode_req a)
        (IsOr-or_default t.endpoint (codes "https://api.tavily.com/search") q.url h.url)
        h.authorization
        (h.body
          ∙ ap
              (λ d. encode_req (record { query = a.query; search_depth = d; max_results = h.most }))
              depth
          ∙ ap
              (λ n. encode_req (record {
                query = a.query;
                search_depth = or_default t.search_depth (codes "basic");
                max_results = n;
              }))
              most)
