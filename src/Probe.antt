-- ===== src/Probe.antt =====
-- crates/swiftload-core/src/task/probe.rs: what a probe learned about a resource, and whether it can be
-- resumed and split.
pub mod Follow
pub mod Interpret
mod Examples
use ai_gen.Prelude.{Bool, true, false, not, ◌&&◌, Option, none, some, ℕ, leb, Text}
use ai_gen.Config.{small_file_threshold}
use ai_gen.Headers.{Validator}

pub data RangeSupport : Type 0 where
  unknown supported unsupported lied : RangeSupport

-- `== RangeSupport::Supported`
abbrev pub is_supported : RangeSupport → Bool
is_supported supported = true
is_supported _ = false

-- The URL, the redirects and the HTTP version are left out.
pub record ProbeResult : Type 0 where
  pub filename : Text
  pub total_size : Option ℕ
  pub range_support : RangeSupport
  pub etag : Option Validator
  pub last_modified : Option Text
  pub content_type : Option Text
  pub disposition_filename : Option Text
  pub transforming_encoding : Bool

abbrev pub is_resumable : ProbeResult → Bool
is_resumable p = is_supported p.range_support && not p.transforming_encoding

abbrev large_enough : Option ℕ → Bool
large_enough none = false
large_enough (some s) = leb small_file_threshold s

abbrev pub is_segmentable : ProbeResult → Bool
is_segmentable p = is_resumable p && large_enough p.total_size
