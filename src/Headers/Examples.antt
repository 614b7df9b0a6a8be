-- ===== src/Headers/Examples.antt =====
-- The parsers at concrete headers.
use ai_gen.Prelude.{◌≡◌, ◌*◌, refl, some, none, [], ◌∷◌, Text}
use ai_gen.Headers.{ContentRange, parse_content_range, parse_retry_after}

-- "bytes 10-12/20"
abbrev header : Text
header = 98 ∷ 121 ∷ 116 ∷ 101 ∷ 115 ∷ 32 ∷ 49 ∷ 48 ∷ 45 ∷ 49 ∷ 50 ∷ 47 ∷ 50 ∷ 48 ∷ []

abbrev range : ContentRange
range = record { start = 10; end = 12; total = some 20 }

parsed : parse_content_range header ≡ some range
unfolding parse_content_range
parsed = refl

-- "120"
abbrev seconds : Text
seconds = 49 ∷ 50 ∷ 48 ∷ []

capped : parse_retry_after (λ v. none) seconds (90 * 1000000000) ≡ some (90 * 1000000000)
unfolding parse_retry_after
capped = refl
