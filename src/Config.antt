-- ===== src/Config.antt =====
-- Constants of crates/swiftload-core/src/config.rs.
use ai_gen.Prelude.{ℕ, ◌*◌}

abbrev pub min_segment : ℕ
min_segment = 2 * 1024 * 1024

abbrev pub small_file_threshold : ℕ
small_file_threshold = 4 * 1024 * 1024

abbrev pub checkpoint_bytes : ℕ
checkpoint_bytes = 8 * 1024 * 1024

abbrev pub paranoid_rewind : ℕ
paranoid_rewind = 1024 * 1024
