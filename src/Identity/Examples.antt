-- ===== src/Identity/Examples.antt =====
-- Verdicts and windows at concrete links.
use ai_gen.Prelude.{ℕ, ◌≡◌, refl, true, Option, none, some, List, [], ◌∷◌}
use ai_gen.Headers.{strong}
use ai_gen.Probe.{supported, is_supported}
use ai_gen.Identity.{ResourceSignals, compare, finalize, is_safe_to_resume}
use ai_gen.Identity.Verdicts.{resume_is_safe}

abbrev link : ResourceSignals
link = record {
  total_size = some 5000;
  etag = some (strong (34 ∷ 97 ∷ 34 ∷ []));
  last_modified = none;
  content_type = none;
  filename = none;
  range_support = supported;
}

abbrev no_mismatch : Option ℕ
no_mismatch = none

abbrev on_disk : List ℕ
on_disk = 1 ∷ 2 ∷ []

abbrev served : List ℕ
served = 1 ∷ 3 ∷ []

resumes : is_safe_to_resume (finalize (compare link link).0 (compare link link).1 none 4) ≡ true
unfolding compare
resumes = refl

resume_is_safe_example :
    (no_mismatch ≡ none)
    × ((size : ℕ) × (link.total_size ≡ some size) × (link.total_size ≡ some size))
    × (is_supported link.range_support ≡ true)
resume_is_safe_example = resume_is_safe link link no_mismatch 4 resumes
