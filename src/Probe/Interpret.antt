-- ===== src/Probe/Interpret.antt =====
-- crates/swiftload-core/src/task/probe.rs: what a probe reads from the response that it ended with.
pub mod Trust
use ai_gen.Prelude.{
  ℕ, Bool, true, false, not, ◌&&◌, Option, none, some, List, [], ◌∷◌, ◌==◌, if◌then◌else◌, Text,
  parse_u64,
}
use ai_gen.Headers.{
  ContentRange, parse_content_range, is_transforming_encoding, Validator, parse, bind,
}
use ai_gen.Filename.Header.{Percent, parse_content_disposition}
use ai_gen.Filename.Resolve.{resolve}
use ai_gen.Redirect.{Urls}
use ai_gen.Probe.{RangeSupport, supported, unsupported, ProbeResult}
use ai_gen.Probe.Follow.{Answer}

abbrev pub is_some_and : {A : Type 0} → Option A → (A → Bool) → Bool
is_some_and none f = false
is_some_and (some a) f = f a

-- What a 206 says of ranges and of the size, by its Content-Range.
abbrev pub partial_support : Option ContentRange → Option ℕ → RangeSupport × Option ℕ
partial_support (some cr) content_length = (supported, cr.total)
partial_support none content_length = (unsupported, content_length)

unfoldable pub support_of : ℕ → Option ContentRange → Option ℕ → RangeSupport × Option ℕ
support_of status content_range content_length =
    if status == 206
    then partial_support content_range content_length
    else (unsupported, content_length)

unfoldable pub interpret : {U : Type 0} ⦃urls : Urls U⦄ → Percent → U → Answer → ProbeResult
unfolding support_of parse_content_range resolve
interpret ⦃urls⦄ percent final_url a =
    let content_range = bind a.content_range parse_content_range in
    let content_length = bind a.content_length parse_u64 in
    let transforming = is_some_and a.content_encoding is_transforming_encoding in
    let both = support_of a.status content_range content_length in
    record {
      filename =
          resolve percent a.content_disposition (urls.path_segments final_url) a.content_type;
      total_size = both.1;
      range_support = if transforming then unsupported else both.0;
      etag = bind a.etag parse;
      last_modified = a.last_modified;
      disposition_filename = bind a.content_disposition (parse_content_disposition percent);
      content_type = a.content_type;
      transforming_encoding = transforming;
    }
