-- ===== src/Store/Examples.antt =====
-- crates/swiftload-core/src/store: two downloads, one of which is checkpointed, relinked and interrupted.
use ai_gen.Prelude.{ℕ, ◌≡◌, refl, true, none, some, List, [], ◌∷◌, Text}
use ai_gen.Prelude.Result.{ok}
use ai_gen.RangeSet.{Span, RangeSet, rewind_tails}
use ai_gen.RangeSet.Codec.{encode, decode}
use ai_gen.Store.{Row, needs_attention, failed, NewLink, as_str, resume_state}
use ai_gen.Store.Kept.{Op, saved, status_set, started, swapped, perform_all}

abbrev span : ℕ → ℕ → Span
span s l = record { start = s; len = l }

abbrev mine : Text
mine = 97 ∷ []

abbrev other : Text
other = 98 ∷ []

abbrev fresh_row : Text → Row
unfolding encode
fresh_row id = record {
  id = id;
  original_url = [];
  identity_hint = [];
  filename = [];
  dest_dir = [];
  part_path = [];
  category = [];
  content_type = none;
  http_version = none;
  max_connections = none;
  retry_count = 0;
  created_at = 0;
  current_url = [];
  final_url = [];
  url_refresh_count = 0;
  etag = none;
  last_modified = none;
  total_size = some 10000000;
  bytes_done = 0;
  completed_ranges = encode [];
  status = as_str failed;
  accept_ranges = 1;
  validation_state = [];
  completed_at = none;
  error_message = none;
  clean_shutdown = true;
}

abbrev rows : List Row
rows = fresh_row other ∷ fresh_row mine ∷ []

abbrev fetched : RangeSet
fetched = span 0 2000000 ∷ []

abbrev link : NewLink
link = record {
  new_url = mine;
  resolved = mine;
  etag = none;
  last_modified = none;
  total_size = none;
  accept_ranges = 1;
  validation = [];
}

abbrev ops : List Op
ops =
    started
    ∷ saved mine fetched 2000000
    ∷ saved other [] 0
    ∷ status_set mine needs_attention none 7
    ∷ swapped mine link
    ∷ []

abbrev resumed : RangeSet
resumed = span 0 951424 ∷ []

resumes : resume_state (perform_all ops rows) mine true ≡ ok (resumed, true)
unfolding resume_state perform_all fresh_row rewind_tails decode
resumes = refl
