-- ===== src/Tool/Cached.antt =====
-- The search cache: internal/tool/search/cached.go on internal/cache/redis/cache.go. The Redis server is
-- a map, of which a key may expire or an access fail at any time. The inner tool, json.Unmarshal,
-- json.Marshal, SHA-256 and the hexadecimal encoding are parameters.
pub mod Transparent
use go_research.Prelude.{
  not_blank, ℕ, ◌≡◌, ◌≢◌, refl, sym, ap, ◌∙◌, ◌⊎◌, Bool, true, false, inl, inr, Option, none, some,
  List, [], ◌∷◌, ◌++◌, Str, codes, str_eq, str_eq_iff, Map, lookup, insert, lookup-insert,
  lookup-insert_self, Bool-cases, Option-cases, Sum-cases, arith, if◌then◌else◌, subst,
}
use go_research.Prelude.Int.{ℤ}
use go_research.Tool.{SearchArgs}

abbrev pub redis_key : Str → Str
redis_key key = codes "search:" ++ key

-- What happens to one call: whether the two accesses fail, and the moment of the inner call.
pub record Moment : Type 0 where
  pub get_failed : Bool
  pub set_failed : Bool
  pub now : ℕ

-- `GetSearch`: none is an error, `some none` a miss.
unfoldable pub get_search : Bool → Str → Map Str → Option (Option Str)
get_search true key m = none
get_search false key m = some (lookup (redis_key key) m)

-- `SetSearch`, of which the error is dropped.
unfoldable pub set_search : Bool → Str → Str → Map Str → Map Str
set_search true key result m = m
set_search false key result m = insert (redis_key key) result m

-- `NewCached`'s choice of a namespace
unfoldable pub namespace_of : Str → Str → Str
namespace_of inner_name namespace = if str_eq namespace [] then inner_name else namespace

-- What the key of a cached answer is made from.
pub record KeyParts : Type 0 where
  pub v : Str
  pub ns : Str
  pub q : Str
  pub m : ℤ

-- json.Marshal of a key's parts, sha256.Sum256 and hex.EncodeToString.
pub record Hashing : Type 0 where
  pub marshal : KeyParts → Str
  pub sum256 : Str → Str
  pub encode_to_string : Str → Str

abbrev pub cache_key_version : Str
cache_key_version = codes "v2"

abbrev pub canonical : Hashing → (namespace : Str) → SearchArgs → Str
canonical hs namespace args =
    hs.marshal
      (record { v = cache_key_version; ns = namespace; q = args.query; m = args.max_items })

-- `buildKey`
unfoldable pub build_key : Hashing → (namespace : Str) → SearchArgs → Str
build_key hs namespace args = hs.encode_to_string (hs.sum256 (canonical hs namespace args))

pub data CallError (E D : Type 0) : Type 0 where
  undecodable : D → CallError E D
  inner_failed : E → CallError E D

abbrev pub of_inner : {E D : Type 0} → E ⊎ Str → CallError E D ⊎ Str
of_inner (inl e) = inl (inner_failed e)
of_inner (inr out) = inr out

inr_eq : {A : Type 0} (v w : Str) → ◌≡◌ {A = A ⊎ Str} (inr v) (inr w) → v ≡ w
inr_eq v w e = cc

module _ {E D : Type 0} (inner : Str → ℕ → E ⊎ Str) (decode : Str → D ⊎ SearchArgs) (hs : Hashing)
    (namespace : Str) where
  -- What follows a miss, or an error of the cache.
  unfoldable pub fetch : Str → Str → Moment → Map Str → (CallError E D ⊎ Str) × Map Str
  unfolding set_search
  fetch key args_json t m = elim (inner args_json t.now) [
    | inl e ↦ (inl (inner_failed e), m)
    | inr out ↦ (inr out, set_search t.set_failed key out m)
  ]

  -- `Call`
  unfoldable pub call : Str → Moment → Map Str → (CallError E D ⊎ Str) × Map Str
  unfolding get_search fetch
  call args_json t m = elim (decode args_json) [
    | inl d ↦ (inl (undecodable d), m)
    | inr args ↦
        if str_eq args.query []
        then (of_inner (inner args_json t.now), m)
        else let key = build_key hs namespace args in
          elim (get_search t.get_failed key m) [
            | some (some hit) ↦ (inr hit, m)
            | some none ↦ fetch key args_json t m
            | none ↦ fetch key args_json t m
          ]
  ]

  pub call-hit :
      (args_json out : Str) (args : SearchArgs) (t : Moment) (m : Map Str)
      → decode args_json ≡ inr args
      → args.query ≢ []
      → t.get_failed ≡ false
      → lookup (redis_key (build_key hs namespace args)) m ≡ some out
      → call args_json t m ≡ (inr out, m)
  unfolding call get_search
  call-hit args_json out args t m d q ok there =
      rw (call, d, not_blank args.query q, ok, there) refl

  pub call-fetch :
      (args_json : Str) (args : SearchArgs) (t : Moment) (m : Map Str)
      → decode args_json ≡ inr args
      → args.query ≢ []
      → (t.get_failed ≡ true) ⊎ (lookup (redis_key (build_key hs namespace args)) m ≡ none)
      → call args_json t m ≡ fetch (build_key hs namespace args) args_json t m
  unfolding call get_search
  call-fetch args_json args t m d q (inl bad) = rw (call, d, not_blank args.query q, bad) refl
  call-fetch args_json args t m d q (inr miss) = elim (Bool-cases t.get_failed) [
    | inl bad ↦ rw (call, d, not_blank args.query q, bad) refl
    | inr ok ↦ rw (call, d, not_blank args.query q, ok, miss) refl
  ]

  -- After a call that could store its output, the same call returns that output and changes nothing,
  -- whatever the inner tool would say by then. No access to the cache fails, and the query is not
  -- empty.
  pub call-again :
      (args_json out : Str) (args : SearchArgs) (t u : Moment) (m : Map Str)
      → decode args_json ≡ inr args
      → args.query ≢ []
      → t.set_failed ≡ false
      → t.get_failed ≡ false
      → u.get_failed ≡ false
      → (call args_json t m).0 ≡ inr out
      → call args_json u (call args_json t m).1 ≡ (inr out, (call args_json t m).1)
  unfolding set_search fetch
  call-again args_json out args t u m d q ts tg ug h =
      let key = build_key hs namespace args in
      elim (Option-cases (lookup (redis_key key) m)) [
        | inr (v, there) ↦
            let first = call-hit args_json v args t m d q tg there in
            let same : v ≡ out = inr_eq v out (rw first at h) in
            rw first (
              subst (λ x. call args_json u m ≡ (inr x, m)) same
                (call-hit args_json v args u m d q ug there))
        | inl miss ↦
            let first = call-fetch args_json args t m d q (inr miss) in
            elim (Sum-cases (inner args_json t.now)) [
              | inl (e, bad) ↦ cc (rw (first, fetch, bad) at h)
              | inr (v, good) ↦
                  let same : v ≡ out = inr_eq v out (rw (first, fetch, good) at h) in
                  rw (first, fetch, good, ts, same)
                    (call-hit args_json out args u (insert (redis_key key) out m) d q ug
                      (lookup-insert_self (redis_key key) out m))
            ]
      ]
