-- ===== src/Governor/Examples.antt =====
-- crates/swiftload-core/src/task/governor.rs: a download that starts with four connections.
use ai_gen.Prelude.{
  ℕ, ◌*◌, ◌/◌, ◌≤◌, ◌≡◌, refl, true, false, none, some, List, [], ◌∷◌, arith, max64,
}
use ai_gen.Floats.{Ratio, ratio_floats}
use ai_gen.Governor.{
  Governor, GovernorConfig, default, Sample, back_off, millis, new, observe, observe_all,
}
use ai_gen.Governor.Bounds.{InBounds, new-InBounds, observe_all-InBounds}
use ai_gen.Governor.Backing.{observe_all-rate_limited}

abbrev settings : GovernorConfig Ratio
unfolding default
settings = default

abbrev started : Governor Ratio
unfolding new
started = new settings 4 0

abbrev sample_at : (now bytes : ℕ) → Sample
sample_at now bytes = record {
  now = now;
  bytes_total = bytes;
  conns = 4;
  errors_since_last = 0;
  rate_limited = none;
  disk_backpressure = false;
  remaining_bytes = 1000000000;
  probe_token = true;
}

abbrev refused : Sample
refused = record (sample_at (3000 * millis) 60000000) { rate_limited = some (some (5000 * millis)) }

-- The warmup, and a whole window at 20 MB a second: the baseline is known, and it doubles.
abbrev measured : List Sample
measured = sample_at (500 * millis) 10000000 ∷ sample_at (2000 * millis) 40000000 ∷ []

measured_grows : (observe_all started measured).k ≡ 8
unfolding observe_all observe new settings
measured_grows = refl

limited_halves : (observe started refused).1 ≡ back_off 2 (5000 * millis)
unfolding observe new settings
limited_halves = refl

started-InBounds : InBounds started
unfolding new settings
started-InBounds = new-InBounds settings 4 0 (ground arith)

observe_all-InBounds_example :
    InBounds (observe_all started measured)
    × ((observe_all started measured).ceiling ≤ started.ceiling)
    × ((observe_all started measured).cfg.max_conns ≡ started.cfg.max_conns)
observe_all-InBounds_example = observe_all-InBounds started measured started-InBounds

observe_all-rate_limited_example :
    (observe_all started (refused ∷ measured)).k ≤ max64 (started.k / 2) 1
observe_all-rate_limited_example =
    observe_all-rate_limited started refused (some (5000 * millis)) measured refl
