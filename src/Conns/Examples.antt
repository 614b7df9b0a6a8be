-- ===== src/Conns/Examples.antt =====
-- Starting and retiring at concrete numbers.
use ai_gen.Prelude.{ℕ, ◌*◌, ◌≡◌, refl, true, false, Option, none, some, []}
use ai_gen.Probe.{ProbeResult, supported}
use ai_gen.Conns.{Limits, HostHint, initial_conns}

abbrev probed : ProbeResult
probed = record {
  filename = [];
  total_size = some (100 * 1024 * 1024);
  range_support = supported;
  etag = none;
  last_modified = none;
  content_type = none;
  disposition_filename = none;
  transforming_encoding = false;
}

abbrev limits : Limits
limits = record { max_conns_per_download = 16; max_total_conns = 32 }

abbrev hint : HostHint
hint = record { best_conns = some 12; saturated = true }

abbrev chosen : Option ℕ
chosen = none

starts_with :
    (initial_conns probed limits chosen (some hint) ≡ 4)
    × (initial_conns probed limits (some 20) none ≡ 20)
unfolding initial_conns
starts_with = (refl, refl)
