-- ===== src/Probe/Interpret/Trust.antt =====
-- crates/swiftload-core/src/task/probe.rs: when a probe lets a download be split, and what it names it.
use ai_gen.Prelude.{ℕ, ◌≡◌, Bool, true, false, not, ◌&&◌, Option, none, some, ◌==◌}
use ai_gen.Headers.{ContentRange, parse_content_range, is_transforming_encoding, bind}
use ai_gen.Filename.Safe.{IsSafe}
use ai_gen.Probe.{ProbeResult, is_resumable}
use ai_gen.Probe.Follow.{Answer}
use ai_gen.Probe.Interpret.{is_some_and}

abbrev is_some : {A : Type 0} → Option A → Bool
is_some none = false
is_some (some a) = true

-- The response says which bytes of how many it carries.
abbrev pub states_range : Answer → Bool
states_range a = is_some (bind a.content_range parse_content_range)

abbrev pub is_encoded : Answer → Bool
is_encoded a = is_some_and a.content_encoding is_transforming_encoding

abbrev total_of : Option ContentRange → Option ℕ
total_of none = none
total_of (some cr) = cr.total

-- What a probe may conclude of a response.
pub record IsTrusted (a : Answer) (p : ProbeResult) : Type 0 where
  pub resumable : is_resumable p ≡ (a.status == 206 && states_range a && not (is_encoded a))
  pub size :
      (a.status == 206 && states_range a) ≡ true
      → p.total_size ≡ total_of (bind a.content_range parse_content_range)
  pub name : IsSafe p.filename
