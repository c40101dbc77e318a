-- ===== src/Tool/Samples.antt =====
-- Tools and calls of internal/tool.
use go_research.Prelude.{
  ℕ, suc, ◌+◌, ◌≡◌, ◌≢◌, refl, sym, ◌∙◌, take, ap, ◌⊎◌, true, false, inl, inr, Option, none, some,
  List, [], ◌∷◌, ◌++◌, Str, codes,
}
use go_research.Prelude.Int.{ℤ, pos, negsuc}
use go_research.Tool.{Tool, SearchArgs, get, register_all, first_named, get-register_all}
use go_research.Researcher.Dedup.{urls}
use go_research.Tool.Mock.{itoa}
use go_research.Tool.Mock.Search.{mock_items}
use go_research.Tool.Cached.{Hashing, canonical, build_key, redis_key}
use go_research.Tool.Cached.Transparent.{
  Use, ask, lose, Asked, parts_of, serve, plain_all, serve-eq-plain_all,
}

abbrev tool : Str → ℕ → Tool ℕ
tool name body = record { name = name; body = body }

abbrev tools : List (Option (Tool ℕ))
tools =
    some (tool (codes "a") 1) ∷ none ∷ some (tool (codes "b") 2) ∷ some (tool (codes "a") 3) ∷ []

b_not_empty : codes "b" ≢ []
b_not_empty e = cc

get-register_all_example : get (register_all tools []) (codes "b") ≡ first_named (codes "b") tools
get-register_all_example = get-register_all tools (codes "b") b_not_empty

itoa_205 : itoa (pos 205) ≡ codes "205"
unfolding itoa
itoa_205 = refl

-- The first character of the arguments is the number of items; the tools answer with their namespace and
-- the query.
abbrev decode : Str → Unit {0} ⊎ SearchArgs
decode [] = inl tt
decode (n ∷ s) = inr (record { query = s; max_items = pos n })

abbrev answer : Str → SearchArgs → Unit {0} ⊎ Str
answer ns a = inr (ns ++ codes " about " ++ a.query)

abbrev inner : Str → Str → ℕ → Unit {0} ⊎ Str
inner ns [] now = inl tt
inner ns (n ∷ s) now = answer ns (record { query = s; max_items = pos n })

abbrev rank : ℤ → ℕ
rank (pos n) = n + n
rank (negsuc n) = suc (n + n)

-- A digest of at most 64 characters, and two digits for each of them.
abbrev twice : Str → Str
twice [] = []
twice (c ∷ s) = c ∷ c ∷ twice s

abbrev hashing : Hashing
hashing = record {
  marshal = λ p. rank p.m ∷ p.v ++ p.ns ++ 0 ∷ p.q;
  sum256 = λ s. take 64 s;
  encode_to_string = twice;
}

twice_eq : (s t : Str) → twice s ≡ twice t → s ≡ t
twice_eq [] [] e = refl
twice_eq [] (c ∷ t) e = absurd cc
twice_eq (c ∷ s) [] e = absurd cc
twice_eq (c ∷ s) (d ∷ t) e =
    let head : c ≡ d = cc in let rest : twice s ≡ twice t = cc in rw (head, twice_eq s t rest) refl

inr_args_eq : (a b : SearchArgs) → ◌≡◌ {A = Unit {0} ⊎ SearchArgs} (inr a) (inr b) → a ≡ b
inr_args_eq a b e = cc

abbrev one_item : SearchArgs
one_item = record { query = codes "q"; max_items = pos 1 }

abbrev two_items : SearchArgs
two_items = record { query = codes "q"; max_items = pos 2 }

abbrev mock_ns : Str
mock_ns = codes "mock"

abbrev tavily_ns : Str
tavily_ns = codes "tavily:basic"

-- The second call is a hit, the third one of another tool; the last one comes after the entry of the
-- first has expired, and its write fails.
abbrev uses : List Use
uses =
    ask mock_ns (1 ∷ codes "q") (record { get_failed = false; set_failed = false; now = 0 })
    ∷ ask mock_ns (1 ∷ codes "q") (record { get_failed = false; set_failed = false; now = 1 })
    ∷ ask tavily_ns (2 ∷ codes "q") (record { get_failed = false; set_failed = false; now = 2 })
    ∷ lose (redis_key (build_key hashing mock_ns one_item))
    ∷ ask mock_ns (1 ∷ codes "q") (record { get_failed = false; set_failed = true; now = 3 })
    ∷ []

-- The two keys that are used.
abbrev IsUsed : Str → SearchArgs → Type 0
IsUsed n a = ((n ≡ mock_ns) × (a ≡ one_item)) ⊎ ((n ≡ tavily_ns) × (a ≡ two_items))

uses-IsUsed : (n : Str) (a : SearchArgs) → Asked inner decode hashing answer uses n a → IsUsed n a
uses-IsUsed n a (inl (e, d)) = inl (sym e, sym (inr_args_eq one_item a d))
uses-IsUsed n a (inr (inl (e, d))) = inl (sym e, sym (inr_args_eq one_item a d))
uses-IsUsed n a (inr (inr (inl (e, d)))) = inr (sym e, sym (inr_args_eq two_items a d))
uses-IsUsed n a (inr (inr (inr (inl (e, d))))) = inl (sym e, sym (inr_args_eq one_item a d))
uses-IsUsed n a (inr (inr (inr (inr i)))) = absurd i

-- The texts of the two keys differ in the first character, which the digest keeps.
tell_apart :
    (C : Str → SearchArgs → Str) (n k : Str) (a b : SearchArgs)
    → IsUsed n a
    → IsUsed k b
    → ¬ (C mock_ns one_item ≡ C tavily_ns two_items)
    → C n a ≡ C k b
    → (n ≡ k) × (a ≡ b)
tell_apart C n k a b (inl (p, q)) (inl (r, s)) apart e = (p ∙ sym r, q ∙ sym s)
tell_apart C n k a b (inl (p, q)) (inr (r, s)) apart e = absurd (apart (rw (p, q, r, s) at e))
tell_apart C n k a b (inr (p, q)) (inl (r, s)) apart e = absurd (apart (sym (rw (p, q, r, s) at e)))
tell_apart C n k a b (inr (p, q)) (inr (r, s)) apart e = (p ∙ sym r, q ∙ sym s)

knows :
    (ns args_json : Str) (a : SearchArgs) (now : ℕ)
    → decode args_json ≡ inr a
    → inner ns args_json now ≡ answer ns a
knows ns [] a now d = absurd cc
knows ns (n ∷ s) a now d =
    ap (λ x. answer ns x) (inr_args_eq (record { query = s; max_items = pos n }) a d)

no_collision :
    (n k : Str) (a b : SearchArgs)
    → Asked inner decode hashing answer uses n a
    → Asked inner decode hashing answer uses k b
    → hashing.sum256 (canonical hashing n a) ≡ hashing.sum256 (canonical hashing k b)
    → canonical hashing n a ≡ canonical hashing k b
no_collision n k a b i j e =
    let (same, equal) =
      tell_apart (λ m c. hashing.sum256 (canonical hashing m c)) n k a b (uses-IsUsed n a i)
        (uses-IsUsed k b j) (λ h. cc) e in
    rw (same, equal) refl

readable :
    (n k : Str) (a b : SearchArgs)
    → Asked inner decode hashing answer uses n a
    → Asked inner decode hashing answer uses k b
    → hashing.marshal (parts_of n a) ≡ hashing.marshal (parts_of k b)
    → parts_of n a ≡ parts_of k b
readable n k a b i j e =
    let (same, equal) =
      tell_apart (λ m c. hashing.marshal (parts_of m c)) n k a b (uses-IsUsed n a i)
        (uses-IsUsed k b j) (λ h. cc) e in
    rw (same, equal) refl

serve-eq-plain_all_example :
    serve inner decode hashing uses [] ≡ plain_all inner decode hashing answer uses
serve-eq-plain_all_example =
    serve-eq-plain_all inner decode hashing answer uses knows twice_eq no_collision readable

abbrev same : Str → Str
same s = s

two_urls :
    urls (mock_items same same (codes "go") 2 0)
    ≡ codes "https://example.com/mock?q=go&n=1" ∷ codes "https://example.com/mock?q=go&n=2" ∷ []
unfolding mock_items
two_urls = refl
