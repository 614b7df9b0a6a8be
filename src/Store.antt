-- ===== src/Store.antt =====
-- crates/swiftload-core/src/store/mod.rs and models.rs: the rows of the table `downloads` and the
-- statements on them. A row has the columns that the statements read and write.
pub mod Kept
pub mod Records
pub mod Inserted
pub mod History
pub mod Numbered
mod Examples
use ai_gen.Prelude.{
  ℕ, suc, ◌+◌, Bool, true, false, not, ◌&&◌, ◌||◌, Option, none, some, List, [], ◌∷◌, if◌then◌else◌,
  Text, same_text,
}
use ai_gen.Prelude.Result.{Result, ok, err}
use ai_gen.Config.{paranoid_rewind}
use ai_gen.RangeSet.{RangeSet, rewind_tails}
use ai_gen.RangeSet.Codec.{DecodeError, encode, decode}

pub data DownloadStatus : Type 0 where
  queued active paused retrying waiting_network needs_attention completed failed cancelled :
      DownloadStatus

abbrev pub as_str : DownloadStatus → Text
as_str queued = 113 ∷ 117 ∷ 101 ∷ 117 ∷ 101 ∷ 100 ∷ []
as_str active = 97 ∷ 99 ∷ 116 ∷ 105 ∷ 118 ∷ 101 ∷ []
as_str paused = 112 ∷ 97 ∷ 117 ∷ 115 ∷ 101 ∷ 100 ∷ []
as_str retrying = 114 ∷ 101 ∷ 116 ∷ 114 ∷ 121 ∷ 105 ∷ 110 ∷ 103 ∷ []
as_str waiting_network =
    119 ∷ 97 ∷ 105 ∷ 116 ∷ 105 ∷ 110 ∷ 103 ∷ 95 ∷ 110 ∷ 101 ∷ 116 ∷ 119 ∷ 111 ∷ 114 ∷ 107 ∷ []
as_str needs_attention =
    110 ∷ 101 ∷ 101 ∷ 100 ∷ 115 ∷ 95 ∷ 97 ∷ 116 ∷ 116 ∷ 101 ∷ 110 ∷ 116 ∷ 105 ∷ 111 ∷ 110 ∷ []
as_str completed = 99 ∷ 111 ∷ 109 ∷ 112 ∷ 108 ∷ 101 ∷ 116 ∷ 101 ∷ 100 ∷ []
as_str failed = 102 ∷ 97 ∷ 105 ∷ 108 ∷ 101 ∷ 100 ∷ []
as_str cancelled = 99 ∷ 97 ∷ 110 ∷ 99 ∷ 101 ∷ 108 ∷ 108 ∷ 101 ∷ 100 ∷ []

-- The arms of `from_db`, in their order.
abbrev pub known : List DownloadStatus
known =
    active ∷ paused ∷ retrying ∷ waiting_network ∷ needs_attention ∷ completed ∷ failed ∷ cancelled
    ∷ []

abbrev pub find_status : Text → List DownloadStatus → DownloadStatus
find_status s [] = queued
find_status s (d ∷ ds) = if same_text s (as_str d) then d else find_status s ds

abbrev pub from_db : Text → DownloadStatus
from_db s = find_status s known

abbrev pub is_resumable : DownloadStatus → Bool
is_resumable active = false
is_resumable completed = false
is_resumable cancelled = false
is_resumable _ = true

pub record Row : Type 0 where
  pub id : Text
  pub original_url : Text
  pub identity_hint : Text
  pub filename : Text
  pub dest_dir : Text
  pub part_path : Text
  pub category : Text
  pub content_type : Option Text
  pub http_version : Option Text
  pub max_connections : Option ℕ
  pub retry_count : ℕ
  pub created_at : ℕ
  pub current_url : Text
  pub final_url : Text
  pub url_refresh_count : ℕ
  pub etag : Option Text
  pub last_modified : Option Text
  pub total_size : Option ℕ
  pub bytes_done : ℕ
  pub completed_ranges : List ℕ  -- the encoded set
  pub status : Text
  pub accept_ranges : ℕ
  pub validation_state : Text
  pub completed_at : Option ℕ
  pub error_message : Option Text
  pub clean_shutdown : Bool

pub data StoreError : Type 0 where
  not_found : Text → StoreError
  corrupt : StoreError

-- `UPDATE downloads SET … WHERE id = …`
abbrev pub update_where : Text → (Row → Row) → List Row → List Row
update_where id set [] = []
update_where id set (r ∷ rs) = (if same_text r.id id then set r else r) ∷ update_where id set rs

abbrev pub find_row : Text → List Row → Option Row
find_row id [] = none
find_row id (r ∷ rs) = if same_text r.id id then some r else find_row id rs

-- A statement that changed no row is an error of some methods.
abbrev pub found : Text → Option Row → Result StoreError Unit
found id none = err (not_found id)
found id (some r) = ok tt

unfoldable pub checkpoint : List Row → Text → RangeSet → ℕ → List Row × Result StoreError Unit
unfolding encode
checkpoint rows id ranges bytes_done = (
  update_where id (λ r. record r { completed_ranges = encode ranges; bytes_done = bytes_done })
      rows,
  found id (find_row id rows),
)

abbrev pub is_completed : DownloadStatus → Bool
is_completed completed = true
is_completed _ = false

unfoldable pub set_status : List Row → Text → DownloadStatus → Option Text → (now : ℕ) → List Row
set_status rows id status error now =
    update_where id
      (λ r. record r {
        status = as_str status;
        error_message = error;
        completed_at = if is_completed status then some now else r.completed_at;
      })
      rows

unfoldable pub mark_clean : List Row → Text → Bool → List Row
mark_clean rows id clean = update_where id (λ r. record r { clean_shutdown = clean }) rows

unfoldable pub clear_clean_flags : List Row → List Row
clear_clean_flags [] = []
clear_clean_flags (r ∷ rs) = record r { clean_shutdown = false } ∷ clear_clean_flags rs

-- What a link is replaced by.
pub record NewLink : Type 0 where
  pub new_url : Text
  pub resolved : Text
  pub etag : Option Text
  pub last_modified : Option Text
  pub total_size : Option ℕ
  pub accept_ranges : ℕ
  pub validation : Text

-- `COALESCE`
abbrev pub coalesce : Option ℕ → Option ℕ → Option ℕ
coalesce (some a) b = some a
coalesce none b = b

-- The history of addresses is another table.
unfoldable pub swap_url : List Row → Text → NewLink → List Row × Result StoreError Unit
swap_url rows id l = (
  update_where id
      (λ r. record r {
        current_url = l.new_url;
        final_url = l.resolved;
        url_refresh_count = r.url_refresh_count + 1;
        etag = l.etag;
        last_modified = l.last_modified;
        total_size = coalesce l.total_size r.total_size;
        accept_ranges = l.accept_ranges;
        validation_state = l.validation;
        status = as_str queued;
        error_message = none;
      })
      rows,
  found id (find_row id rows),
)

-- What the set of a row is decoded to.
abbrev pub ranges_of : Option (Result DecodeError RangeSet) → Result StoreError RangeSet
ranges_of (some (ok ranges)) = ok ranges
ranges_of _ = err corrupt

abbrev pub rewound : Bool → Bool → Result StoreError RangeSet → Result StoreError (RangeSet × Bool)
unfolding rewind_tails
rewound unclean paranoid (err e) = err e
rewound unclean paranoid (ok ranges) =
    ok (if unclean && paranoid then rewind_tails ranges paranoid_rewind else ranges, unclean)

abbrev pub state_of : Bool → Text → Option Row → Result StoreError (RangeSet × Bool)
unfolding decode rewound
state_of paranoid id none = err (not_found id)
state_of paranoid id (some r) =
    rewound (not r.clean_shutdown) paranoid (ranges_of (decode r.completed_ranges))

unfoldable pub resume_state : List Row → Text → Bool → Result StoreError (RangeSet × Bool)
unfolding state_of
resume_state rows id paranoid = state_of paranoid id (find_row id rows)
