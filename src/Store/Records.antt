-- ===== src/Store/Records.antt =====
-- crates/swiftload-core/src/store/mod.rs and models.rs: the records of the table, and the statements
-- that insert, read, list and delete them. Numbers that the database keeps as signed are below 2 ^ 63.
use ai_gen.Prelude.{
  ℕ, Bool, true, false, ◌&&◌, ◌||◌, Option, none, some, List, [], ◌∷◌, ◌++◌, leb, if◌then◌else◌,
  Text, same_text, saturating_sub,
}
use ai_gen.Prelude.Result.{Result, ok, ◌>>=◌}
use ai_gen.RangeSet.{RangeSet}
use ai_gen.RangeSet.Codec.{encode, decode}
use ai_gen.Store.{Row, StoreError, DownloadStatus, queued, as_str, from_db, find_row, ranges_of}

pub data ValidationState : Type 0 where
  not_required auto_verified content_verified user_confirmed rejected : ValidationState

abbrev pub validation_str : ValidationState → Text
validation_str not_required =
    110 ∷ 111 ∷ 116 ∷ 95 ∷ 114 ∷ 101 ∷ 113 ∷ 117 ∷ 105 ∷ 114 ∷ 101 ∷ 100 ∷ []
validation_str auto_verified =
    97 ∷ 117 ∷ 116 ∷ 111 ∷ 95 ∷ 118 ∷ 101 ∷ 114 ∷ 105 ∷ 102 ∷ 105 ∷ 101 ∷ 100 ∷ []
validation_str content_verified =
    99 ∷ 111 ∷ 110 ∷ 116 ∷ 101 ∷ 110 ∷ 116 ∷ 95 ∷ 118 ∷ 101 ∷ 114 ∷ 105 ∷ 102 ∷ 105 ∷ 101 ∷ 100 ∷ []
validation_str user_confirmed =
    117 ∷ 115 ∷ 101 ∷ 114 ∷ 95 ∷ 99 ∷ 111 ∷ 110 ∷ 102 ∷ 105 ∷ 114 ∷ 109 ∷ 101 ∷ 100 ∷ []
validation_str rejected = 114 ∷ 101 ∷ 106 ∷ 101 ∷ 99 ∷ 116 ∷ 101 ∷ 100 ∷ []

abbrev pub find_state : Text → List ValidationState → ValidationState
find_state s [] = not_required
find_state s (v ∷ vs) = if same_text s (validation_str v) then v else find_state s vs

abbrev pub validation_from_db : Text → ValidationState
validation_from_db s =
    find_state s (auto_verified ∷ content_verified ∷ user_confirmed ∷ rejected ∷ [])

pub record DownloadRecord : Type 0 where
  pub id : Text
  pub original_url : Text
  pub current_url : Text
  pub final_url : Text
  pub url_refresh_count : ℕ
  pub identity_hint : Text
  pub filename : Text
  pub dest_dir : Text
  pub part_path : Text
  pub category : Text
  pub total_size : Option ℕ
  pub bytes_done : ℕ
  pub completed_ranges : RangeSet
  pub status : DownloadStatus
  pub accept_ranges : ℕ
  pub etag : Option Text
  pub last_modified : Option Text
  pub content_type : Option Text
  pub http_version : Option Text
  pub validation_state : ValidationState
  pub max_connections : Option ℕ
  pub retry_count : ℕ
  pub created_at : ℕ
  pub completed_at : Option ℕ
  pub error_message : Option Text
  pub clean_shutdown : Bool

-- The identifier and the time are given.
abbrev pub new_record : (id : Text) (now : ℕ) → Text → Text → Text → Text → DownloadRecord
new_record id now url filename dest_dir part_path = record {
  id = id;
  original_url = url;
  current_url = url;
  final_url = url;
  url_refresh_count = 0;
  identity_hint = [];
  filename = filename;
  dest_dir = dest_dir;
  part_path = part_path;
  category = 111 ∷ 116 ∷ 104 ∷ 101 ∷ 114 ∷ [];
  total_size = none;
  bytes_done = 0;
  completed_ranges = [];
  status = queued;
  accept_ranges = 0;
  etag = none;
  last_modified = none;
  content_type = none;
  http_version = none;
  validation_state = not_required;
  max_connections = none;
  retry_count = 0;
  created_at = now;
  completed_at = none;
  error_message = none;
  clean_shutdown = false;
}

abbrev pub remaining : DownloadRecord → Option ℕ
remaining d = elim d.total_size [ none ↦ none | some t ↦ some (saturating_sub t d.bytes_done) ]

-- The columns of `INSERT INTO downloads`; the others have their defaults.
unfoldable pub row_of : DownloadRecord → Row
row_of d = record {
  id = d.id;
  original_url = d.original_url;
  identity_hint = d.identity_hint;
  filename = d.filename;
  dest_dir = d.dest_dir;
  part_path = d.part_path;
  category = d.category;
  content_type = d.content_type;
  http_version = d.http_version;
  max_connections = d.max_connections;
  retry_count = d.retry_count;
  created_at = d.created_at;
  current_url = d.current_url;
  final_url = d.final_url;
  url_refresh_count = d.url_refresh_count;
  etag = d.etag;
  last_modified = d.last_modified;
  total_size = d.total_size;
  bytes_done = d.bytes_done;
  completed_ranges = encode d.completed_ranges;
  status = as_str d.status;
  accept_ranges = d.accept_ranges;
  validation_state = validation_str d.validation_state;
  completed_at = none;
  error_message = none;
  clean_shutdown = false;
}

-- `row_to_record` behind the decoding of the set.
abbrev pub record_with : Row → RangeSet → DownloadRecord
record_with r ranges = record {
  id = r.id;
  original_url = r.original_url;
  current_url = r.current_url;
  final_url = r.final_url;
  url_refresh_count = r.url_refresh_count;
  identity_hint = r.identity_hint;
  filename = r.filename;
  dest_dir = r.dest_dir;
  part_path = r.part_path;
  category = r.category;
  total_size = r.total_size;
  bytes_done = r.bytes_done;
  completed_ranges = ranges;
  status = from_db r.status;
  accept_ranges = r.accept_ranges;
  etag = r.etag;
  last_modified = r.last_modified;
  content_type = r.content_type;
  http_version = r.http_version;
  validation_state = validation_from_db r.validation_state;
  max_connections = r.max_connections;
  retry_count = r.retry_count;
  created_at = r.created_at;
  completed_at = r.completed_at;
  error_message = r.error_message;
  clean_shutdown = r.clean_shutdown;
}

unfoldable pub row_to_record : Row → Result StoreError DownloadRecord
row_to_record r = ranges_of (decode r.completed_ranges) >>= (λ ranges. ok (record_with r ranges))

abbrev pub read_row : Option Row → Result StoreError (Option DownloadRecord)
read_row none = ok none
read_row (some r) = row_to_record r >>= (λ d. ok (some d))

unfoldable pub get : List Row → Text → Result StoreError (Option DownloadRecord)
unfolding row_to_record
get rows id = read_row (find_row id rows)

-- A second row with the same key is refused.
abbrev pub has_row : Text → List Row → Bool
has_row id [] = false
has_row id (r ∷ rs) = same_text r.id id || has_row id rs

unfoldable pub insert_row : List Row → DownloadRecord → Option (List Row)
unfolding row_of
insert_row rows d = if has_row d.id rows then none else some (rows ++ row_of d ∷ [])

unfoldable pub delete_row : List Row → Text → List Row
delete_row [] id = []
delete_row (r ∷ rs) id = let rest = delete_row rs id in if same_text r.id id then rest else r ∷ rest

-- `ORDER BY created_at DESC`, of rows with one time the first first.
unfoldable pub insert_newest : Row → List Row → List Row
insert_newest r [] = r ∷ []
insert_newest r (x ∷ xs) =
    let later = x ∷ insert_newest r xs in
    if leb x.created_at r.created_at then r ∷ x ∷ xs else later

unfoldable pub newest_first : List Row → List Row
unfolding insert_newest
newest_first [] = []
newest_first (r ∷ rs) = insert_newest r (newest_first rs)

unfoldable pub select : (Row → Bool) → List Row → List Row
select p [] = []
select p (r ∷ rs) = let rest = select p rs in if p r then r ∷ rest else rest

unfoldable pub read_rows : List Row → Result StoreError (List DownloadRecord)
unfolding row_to_record
read_rows [] = ok []
read_rows (r ∷ rs) = row_to_record r >>= (λ d. read_rows rs >>= (λ ds. ok (d ∷ ds)))

abbrev pub has_status : Option DownloadStatus → Row → Bool
has_status none r = true
has_status (some s) r = same_text r.status (as_str s)

unfoldable pub list : List Row → Option DownloadStatus → Result StoreError (List DownloadRecord)
unfolding read_rows newest_first select
list rows filter = read_rows (newest_first (select (has_status filter) rows))

-- The texts of `status IN (…)`.
abbrev pub is_waiting : Text → Bool
is_waiting s =
    same_text s (as_str DownloadStatus.paused)
    || same_text s (as_str DownloadStatus.failed)
    || same_text s (as_str DownloadStatus.needs_attention)
    || same_text s (as_str DownloadStatus.waiting_network)
    || same_text s (as_str queued)

unfoldable pub find_resumable_by_hint : List Row → Text → Result StoreError (List DownloadRecord)
unfolding read_rows newest_first select
find_resumable_by_hint rows hint =
    read_rows
      (newest_first (select (λ r. same_text r.identity_hint hint && is_waiting r.status) rows))
