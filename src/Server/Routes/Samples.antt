-- ===== src/Server/Routes/Samples.antt =====
-- Requests under internal/server/routes.go with a key.
use go_research.Prelude.{true, false, ◌≡◌, refl, ◌↔◌, ◌⊎◌, some, [], ◌∷◌, Str, codes, str_eq}
use go_research.Server.{require_api_key}
use go_research.Server.Routes.{
  is_api, admits, handle_healthz, healthz, research, admits-eq-true_iff,
}

abbrev no_header : Str
no_header = []

probe : admits (codes "k") no_header no_header healthz ≡ true
unfolding admits require_api_key str_eq
probe = refl

no_key : admits (codes "k") no_header no_header research ≡ false
unfolding admits require_api_key str_eq
no_key = refl

degraded : handle_healthz (codes "t") (codes "m") (some (some (codes "down"))) ≡ (
  503,
  (codes "status", codes "degraded")
      ∷ (codes "model", codes "m")
      ∷ (codes "persistence", codes "postgres")
      ∷ (codes "db_error", codes "down")
      ∷ [],
)
unfolding handle_healthz
degraded = refl

admits-eq-true_iff_example : (admits (codes "k") (codes "k") no_header research ≡ true) ↔ (
    (is_api research ≡ false)
    ⊎ ((codes "k" ≡ no_header)
        ⊎ ((codes "k" ≡ codes "k") ⊎ ((codes "k" ≡ no_header) × (no_header ≡ codes "k")))))
admits-eq-true_iff_example = admits-eq-true_iff (codes "k") (codes "k") no_header research
