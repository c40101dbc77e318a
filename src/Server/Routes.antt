-- ===== src/Server/Routes.antt =====
-- internal/server/routes.go and handler_health.go. The framework finds the handler of a request, and serves
-- the files; the ping of the database, whose time limit is left out, is a parameter.
mod Samples
use go_research.Prelude.{
  ℕ, Bool, true, false, not, ◌&&◌, ◌≡◌, ◌≢◌, refl, ◌↔◌, ◌⊎◌, inl, inr, Option, none, some, [], ◌∷◌,
  Str, codes, str_eq, str_eq_iff, str_eq_refl, Map, if◌then◌else◌, Bool-cases, arith,
}
use go_research.Server.{require_api_key, require_api_key-eq-true_iff}

-- What `routes` registers.
pub data Route : Type 0 where
  healthz index_file static_file chat research research_list research_get : Route

-- The group `/api`.
abbrev pub is_api : Route → Bool
is_api healthz = false
is_api index_file = false
is_api static_file = false
is_api chat = true
is_api research = true
is_api research_list = true
is_api research_get = true

-- Whether a request gets to its handler.
unfoldable pub admits : (api_key api_key_header authorization : Str) → Route → Bool
admits api_key api_key_header authorization route =
    let checks = is_api route && not (str_eq api_key []) in
    if checks then require_api_key api_key api_key_header authorization else true

-- `handleHealthz`: the status and the object. No database is none; its ping gives an error or none.
unfoldable pub handle_healthz :
    (tavily_api_key model : Str) (ping : Option (Option Str)) → ℕ × Map Str
handle_healthz tavily_api_key model ping =
    let search_mode = if not (str_eq tavily_api_key []) then codes "tavily" else codes "mock" in
    let out : Str → Map Str = λ persistence.
      (codes "status", codes "ok")
      ∷ (codes "model", model)
      ∷ (codes "search", search_mode)
      ∷ (codes "persistence", persistence)
      ∷ [] in
    elim ping [
      | none ↦ (200, out (codes "disabled"))
      | some none ↦ (200, out (codes "postgres"))
      | some (some e) ↦ (
        503,
        (codes "status", codes "degraded")
            ∷ (codes "model", model)
            ∷ (codes "persistence", codes "postgres")
            ∷ (codes "db_error", e)
            ∷ [],
      )
    ]

-- A request gets to its handler exactly when its route is not one of the API, or no key is configured,
-- or X-API-Key is the key, or there is no X-API-Key and Authorization is the key.
pub admits-eq-true_iff :
    (api_key api_key_header authorization : Str) (route : Route)
    → (admits api_key api_key_header authorization route ≡ true) ↔ (
        (is_api route ≡ false)
        ⊎ ((api_key ≡ [])
            ⊎ ((api_key_header ≡ api_key) ⊎ ((api_key_header ≡ []) × (authorization ≡ api_key)))))
unfolding admits
admits-eq-true_iff api_key api_key_header authorization route = elim (Bool-cases (is_api route)) [
  | inr public ↦ rw (admits, public) (λ h. inl refl, λ h. refl)
  | inl api ↦ elim (Bool-cases (str_eq api_key [])) [
    | inl open_to_all ↦
        rw (admits, api, open_to_all)
          (λ h. inr (inl ((str_eq_iff api_key []).0 open_to_all)), λ h. refl)
    | inr keyed ↦
        let same = require_api_key-eq-true_iff api_key api_key_header authorization in
        rw (admits, api, keyed)
          (
            λ h. inr (same.0 h),
            λ h. elim h [ inl public ↦ absurd cc | inr allowed ↦ same.1 allowed ],
          )
  ]
]
