-- ===== src/Errors/Examples.antt =====
-- The classification at concrete statuses.
use ai_gen.Prelude.{◌≡◌, ℕ, refl, true, false, none}
use ai_gen.Errors.{classify_status, url_expired, fatal}

forbidden : (classify_status 403 none true ≡ url_expired) × (classify_status 403 none false ≡ fatal)
unfolding classify_status
forbidden = (refl, refl)

abbrev unavailable : ℕ
unavailable = 503
