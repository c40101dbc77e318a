-- ===== src/Tool/Cached/Transparent.antt =====
-- The cache of internal/tool/search/cached.go is not seen in the answers.
use go_research.Prelude.{
  ℕ, ◌≡◌, ◌≢◌, refl, sym, ap, ◌∙◌, ◌⊎◌, Bool, true, false, inl, inr, none, some, List, [], ◌∷◌, Str,
  str_eq, str_eq_iff, Map, lookup, lookup-insert, Bool-cases, Option-cases, Sum-cases, arith,
  if◌then◌else◌,
}
use go_research.Tool.{SearchArgs}
use go_research.Tool.Cached.{
  KeyParts, Hashing, cache_key_version, canonical, build_key, redis_key, Moment, set_search,
  CallError, undecodable, of_inner, fetch, call, call-hit, call-fetch,
}

-- A key of Redis expires.
abbrev pub expire : Str → Map Str → Map Str
expire key [] = []
expire key ((k, v) ∷ m) = let rest = expire key m in if str_eq k key then rest else (k, v) ∷ rest

lookup-expired : (key : Str) (m : Map Str) → lookup key (expire key m) ≡ none
unfolding lookup
lookup-expired key [] = refl
lookup-expired key ((k, w) ∷ m) = ground (arith, lookup-expired key m)

lookup-expire :
    (key id v : Str) (m : Map Str) → lookup id (expire key m) ≡ some v → lookup id m ≡ some v
unfolding lookup
lookup-expire key id v [] h = h
lookup-expire key id v ((k, w) ∷ m) h =
    ground
      (arith, lookup-expire key id v m, lookup-expired key m, str_eq_iff k key, str_eq_iff k id)

redis_key_eq : (a b : Str) → redis_key a ≡ redis_key b → a ≡ b
redis_key_eq a b e = cc

-- What a key has to tell apart.
abbrev pub parts_of : Str → SearchArgs → KeyParts
parts_of ns a = record { v = cache_key_version; ns = ns; q = a.query; m = a.max_items }

-- What happens to a cache that several tools share, each with its namespace.
pub data Use : Type 0 where
  ask : (namespace args_json : Str) → Moment → Use
  lose : (key : Str) → Use

module _ {E D : Type 0} (inner : (namespace : Str) → Str → ℕ → E ⊎ Str)
    (decode : Str → D ⊎ SearchArgs) (hs : Hashing) where
  -- The answers to all calls.
  pub serve : List Use → Map Str → List (CallError E D ⊎ Str)
  unfolding call
  serve [] m = []
  serve (lose key ∷ us) m = serve us (expire key m)
  serve (ask ns args_json t ∷ us) m =
      let (answer, m') = call (inner ns) decode hs ns args_json t m in answer ∷ serve us m'

  module _ (answer : (namespace : Str) → SearchArgs → E ⊎ Str) where
    -- The answers without a cache, of a tool that knows only the arguments.
    abbrev pub plain : (namespace : Str) → Str → CallError E D ⊎ Str
    plain ns args_json = elim (decode args_json) [
      | inl d ↦ inl (undecodable d)
      | inr args ↦ of_inner (answer ns args)
    ]

    abbrev pub plain_all : List Use → List (CallError E D ⊎ Str)
    plain_all [] = []
    plain_all (lose key ∷ us) = plain_all us
    plain_all (ask ns args_json t ∷ us) = plain ns args_json ∷ plain_all us

    -- The arguments of the calls in a list of uses.
    abbrev pub Asked : List Use → (namespace : Str) → SearchArgs → Type 0
    Asked [] ns a = ⊥
    Asked (lose key ∷ us) ns a = Asked us ns a
    Asked (ask n args_json t ∷ us) ns a = ((n ≡ ns) × (decode args_json ≡ inr a)) ⊎ Asked us ns a

    module _ (all : List Use) where
      -- What is stored under the key of a call is its answer.
      record Coherent (m : Map Str) : Type 0 where
        pub stored :
            (ns : Str) (a : SearchArgs) (out : Str)
            → Asked all ns a
            → lookup (redis_key (build_key hs ns a)) m ≡ some out
            → answer ns a ≡ inr out

    module _ (all : List Use)
        (knows : (ns args_json : Str) (a : SearchArgs) (now : ℕ)
          → decode args_json ≡ inr a
          → inner ns args_json now ≡ answer ns a)
        (hex : (s t : Str) → hs.encode_to_string s ≡ hs.encode_to_string t → s ≡ t)
        (no_collision : (n k : Str) (a b : SearchArgs)
          → Asked all n a
          → Asked all k b
          → hs.sum256 (canonical hs n a) ≡ hs.sum256 (canonical hs k b)
          → canonical hs n a ≡ canonical hs k b)
        (readable : (n k : Str) (a b : SearchArgs)
          → Asked all n a
          → Asked all k b
          → hs.marshal (parts_of n a) ≡ hs.marshal (parts_of k b)
          → parts_of n a ≡ parts_of k b) where
      same_answer :
          (n k : Str) (a b : SearchArgs)
          → Asked all n a
          → Asked all k b
          → build_key hs n a ≡ build_key hs k b
          → answer n a ≡ answer k b
      unfolding build_key
      same_answer n k a b i j e =
          let parts = readable n k a b i j (
            no_collision n k a b i j
              (hex (hs.sum256 (canonical hs n a)) (hs.sum256 (canonical hs k b)) e)) in
          cc

      stored-Coherent :
          (failed : Bool) (ns : Str) (a : SearchArgs) (out : Str) (m : Map Str)
          → Asked all ns a
          → answer ns a ≡ inr out
          → Coherent all m
          → Coherent all (set_search failed (build_key hs ns a) out m)
      unfolding set_search
      stored-Coherent true ns a out m i e c = c
      stored-Coherent false ns a out m i e c = record {
        stored = λ k b v j h.
            let key = build_key hs ns a in
            let other_key = build_key hs k b in
            let put = lookup-insert (redis_key key) (redis_key other_key) out m in
            elim (Bool-cases (str_eq (redis_key key) (redis_key other_key))) [
              | inr other ↦ c.stored k b v j (ground (arith, put))
              | inl same ↦
                  let equal =
                    redis_key_eq key other_key
                      ((str_eq_iff (redis_key key) (redis_key other_key)).0 same) in
                  let value : out ≡ v = ground (arith, put) in
                  sym (same_answer ns k a b i j equal) ∙ e ∙ ap inr value
            ];
      }

      fetch-Coherent :
          (ns args_json : Str) (a : SearchArgs) (t : Moment) (m : Map Str)
          → Asked all ns a
          → decode args_json ≡ inr a
          → Coherent all m
          → let r = fetch (inner ns) decode hs ns (build_key hs ns a) args_json t m in
            (r.0 ≡ of_inner (answer ns a)) × Coherent all r.1
      unfolding fetch
      fetch-Coherent ns args_json a t m i d c =
          let same = knows ns args_json a t.now d in
          elim (Sum-cases (answer ns a)) [
            | inl (e, bad) ↦ rw (fetch, same, bad) (refl, c)
            | inr (out, good) ↦
                rw (fetch, same, good) (refl, stored-Coherent t.set_failed ns a out m i good c)
          ]

      query-Coherent :
          (ns args_json : Str) (a : SearchArgs) (t : Moment) (m : Map Str)
          → Asked all ns a
          → decode args_json ≡ inr a
          → a.query ≢ []
          → Coherent all m
          → let r = call (inner ns) decode hs ns args_json t m in
            (r.0 ≡ of_inner (answer ns a)) × Coherent all r.1
      query-Coherent ns args_json a t m i d q c = elim (Bool-cases t.get_failed) [
        | inl bad ↦
            rw (call-fetch (inner ns) decode hs ns args_json a t m d q (inl bad))
              (fetch-Coherent ns args_json a t m i d c)
        | inr ok ↦ elim (Option-cases (lookup (redis_key (build_key hs ns a)) m)) [
          | inl miss ↦
              rw (call-fetch (inner ns) decode hs ns args_json a t m d q (inr miss))
                (fetch-Coherent ns args_json a t m i d c)
          | inr (out, hit) ↦
              rw (call-hit (inner ns) decode hs ns args_json out a t m d q ok hit)
                (rw (of_inner, c.stored ns a out i hit) refl, c)
        ]
      ]

      call-Coherent :
          (ns args_json : Str) (t : Moment) (m : Map Str)
          → ((a : SearchArgs) → decode args_json ≡ inr a → Asked all ns a)
          → Coherent all m
          → let r = call (inner ns) decode hs ns args_json t m in
            (r.0 ≡ plain ns args_json) × Coherent all r.1
      unfolding call
      call-Coherent ns args_json t m i c = elim (Sum-cases (decode args_json)) [
        | inl (d, bad) ↦ rw (call, plain, bad) (refl, c)
        | inr (a, good) ↦ elim (Bool-cases (str_eq a.query [])) [
          | inl blank ↦ rw (call, plain, good, blank, knows ns args_json a t.now good) (refl, c)
          | inr asked ↦
              rw (plain, good)
                (query-Coherent ns args_json a t m (i a good) good
                  (λ e. ground (arith, str_eq_iff a.query [])) c)
        ]
      ]

      serve-plain :
          (us : List Use) (m : Map Str)
          → ((ns : Str) (a : SearchArgs) → Asked us ns a → Asked all ns a)
          → Coherent all m
          → serve us m ≡ plain_all us
      unfolding serve
      serve-plain [] m i c = refl
      serve-plain (lose key ∷ us) m i c = serve-plain us (expire key m) i (record {
        stored = λ ns a out j h.
            c.stored ns a out j (lookup-expire key (redis_key (build_key hs ns a)) out m h);
      })
      serve-plain (ask ns args_json t ∷ us) m i c =
          let (same, c') = call-Coherent ns args_json t m (λ a d. i ns a (inl (refl, d))) c in
          rw (serve, same)
            (ap (λ rest. plain ns args_json ∷ rest)
              (serve-plain us (call (inner ns) decode hs ns args_json t m).1
                (λ k a j. i k a (inr j)) c'))

      -- From an empty cache that several tools may share, whatever they are asked in whatever
      -- order, whichever entries expire and whichever accesses of the cache fail: the answers are
      -- those of the inner tools without a cache. What a tool says depends on its namespace and the
      -- arguments only; SHA-256 has no collision among the key texts of these calls; the JSON of
      -- the parts of these keys can be read back, and so can what is encoded in hexadecimal.
      pub serve-eq-plain_all : serve all [] ≡ plain_all all
      unfolding lookup
      serve-eq-plain_all =
          serve-plain all [] (λ ns a i. i) (record { stored = λ ns a out i h. absurd cc })
