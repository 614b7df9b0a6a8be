-- ===== src/Identity/Refresh/Examples.antt =====
-- A replacement link for a file of 20 bytes, of which the first three are on disk.
use ai_gen.Prelude.{
  ℕ, ◌*◌, ◌≤◌, ◌≡◌, refl, true, false, none, some, List, [], ◌∷◌, arith, length, take, suc, zero,
}
use ai_gen.Prelude.Result.{ok}
use ai_gen.RangeSet.{RangeSet}
use ai_gen.Headers.{strong}
use ai_gen.Probe.{ProbeResult, supported}
use ai_gen.Identity.{resume, choose_windows}
use ai_gen.Identity.Refresh.{
  Surroundings, replied, validate_replacement_url, ValidationReport, window_count, from_probe,
}
use ai_gen.Identity.Refresh.Matched.{AllMatch, ReadsWithin, validate-Sound}

abbrev probed : ProbeResult
probed = record {
  filename = 102 ∷ [];
  total_size = some 20;
  range_support = supported;
  etag = some (strong (34 ∷ 97 ∷ 34 ∷ []));
  last_modified = none;
  content_type = none;
  disposition_filename = none;
  transforming_encoding = false;
}

abbrev on_disk : List ℕ
on_disk = 7 ∷ 8 ∷ 9 ∷ []

abbrev around : Surroundings
around = record {
  probed = some (probed, []);
  client_built = true;
  opened = true;
  read_at = λ off len. some (take len on_disk);
  fetch = λ range. replied 206 (some on_disk);
}

length-take : (n : ℕ) (xs : List ℕ) → length (take n xs) ≤ n
length-take zero xs = omega arith
length-take (suc n) [] = omega arith
length-take (suc n) (x ∷ xs) = omega (arith, length-take n xs)

around-ReadsWithin : ReadsWithin around
around-ReadsWithin off len local h = ground (arith, length-take len on_disk)

abbrev completed : RangeSet
completed = record { start = 0; len = 3 } ∷ []

abbrev report : ValidationReport
report = record {
  verdict = resume (record {
    size_matches = true;
    etag_matches = true;
    etag_changed = false;
    last_modified_matches = false;
    filename_matches = true;
    content_type_matches = true;
    windows_verified = 1;
  });
  new_signals = from_probe probed;
  resolved_url = [];
  windows_checked = 1;
  bytes_verified = 3;
}

validated : validate_replacement_url (λ d. d) around (from_probe probed) completed [] ≡ ok report
unfolding validate_replacement_url
validated = refl

validate-Sound_example :
    AllMatch around (choose_windows (λ d. d) completed [] window_count) × (3 ≤ 4 * 65536)
validate-Sound_example =
    validate-Sound (λ d. d) around (from_probe probed) completed [] report around-ReadsWithin
      validated refl
