-- ===== src/Drive/Examples.antt =====
-- crates/swiftload-core/src/task/mod.rs: a download whose workers grow from two to four.
use ai_gen.Prelude.{ℕ, ◌*◌, true, false, none, some, List, [], ◌∷◌, arith}
use ai_gen.Floats.{Ratio, ratio_floats}
use ai_gen.Governor.{GovernorConfig, default, new, millis}
use ai_gen.Conns.{Limits, initial_conns}
use ai_gen.Probe.{ProbeResult, supported}
use ai_gen.Plan.{Plan}
use ai_gen.Worker.{exhausted}
use ai_gen.Drive.{Event, tick, joined, drive_loop, drive_start, governor_config}
use ai_gen.Drive.Live.{IsSteady, download-IsSteady}

abbrev probed : ProbeResult
probed = record {
  filename = [];
  total_size = some 1000000000;
  range_support = supported;
  etag = none;
  last_modified = none;
  content_type = none;
  disposition_filename = none;
  transforming_encoding = false;
}

abbrev limits : Limits
limits = record { max_conns_per_download = 16; max_total_conns = 32 }

abbrev whole_file : Plan
whole_file = record {
  total = some 1000000000;
  free = record { start = 0; len = 1000000000 } ∷ [];
  slots = [];
  next_id = 0;
}

abbrev read_at : (now bytes : ℕ) → Event
read_at now bytes = tick (record {
  now = now * millis;
  bytes_done = bytes;
  errors = 0;
  backpressured = false;
  plan = whole_file;
})

abbrev events : List Event
events = read_at 500 10000000 ∷ read_at 2000 40000000 ∷ joined exhausted ∷ []

abbrev settings : GovernorConfig Ratio
unfolding default
settings = default

download-IsSteady_example : IsSteady 16 (
    drive_loop true
      (drive_start
        (new (governor_config settings limits none) (initial_conns probed limits none none) 0)
        (initial_conns probed limits none none))
      events)
download-IsSteady_example =
    download-IsSteady settings probed limits none 0 events (omega arith) (omega arith)
