-- ===== src/Backoff/Examples.antt =====
-- The default backoff at concrete attempts.
use ai_gen.Prelude.{◌≡◌, ◌*◌, refl}
use ai_gen.Backoff.{default, ceiling_for, millis}

ceilings :
    (ceiling_for default 2 ≡ 2000 * millis)
    × (ceiling_for default 6 ≡ 30000 * millis)
    × (ceiling_for default 1000 ≡ 30000 * millis)
unfolding ceiling_for
ceilings = (refl, refl, refl)
