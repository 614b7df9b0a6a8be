-- ===== src/Errors.antt =====
-- crates/swiftload-core/src/http/errors.rs: the classes of errors, and which class a status and an
-- I/O error have. A duration is its number of nanoseconds.
pub mod Classes
mod Examples
use ai_gen.Prelude.{
  ℕ, Bool, true, false, not, ◌&&◌, ◌||◌, Option, none, some, ltb, leb, ◌==◌, if◌then◌else◌,
}

pub data ErrorClass : Type 0 where
  transient_network transient_server : ErrorClass
  rate_limited : (retry_after : Option ℕ) → ErrorClass
  url_expired fatal range_unsupported range_lied resource_changed local_fatal network_down :
      ErrorClass

abbrev pub is_retryable : ErrorClass → Bool
is_retryable transient_network = true
is_retryable transient_server = true
is_retryable (rate_limited r) = true
is_retryable network_down = true
is_retryable _ = false

abbrev pub should_reduce_concurrency : ErrorClass → Bool
should_reduce_concurrency (rate_limited r) = true
should_reduce_concurrency _ = false

abbrev pub preserves_partial : ErrorClass → Bool
preserves_partial resource_changed = false
preserves_partial _ = true

-- The arms of the `match`, in their order.
unfoldable pub classify_status : ℕ → Option ℕ → Bool → ErrorClass
classify_status status retry_after url_previously_worked =
    if status == 429
    then rate_limited retry_after
    else if status == 503
    then rate_limited retry_after
    else if status == 500 || status == 502 || status == 504 || status == 408 || status == 425
    then transient_server
    else if status == 403 && url_previously_worked
    then url_expired
    else if status == 416
    then resource_changed
    else if status == 401 || status == 403 || status == 404 || status == 410 || status == 451
    then fatal
    else if leb 500 status && ltb status 600
    then transient_server
    else fatal

-- `std::io::ErrorKind`, with one constructor for the kinds that the source does not name.
pub data ErrorKind : Type 0 where
  permission_denied not_found invalid_input already_exists storage_full another : ErrorKind

-- The kind of an I/O error, and what its message, in lower case, contains.
pub record IoError : Type 0 where
  pub kind : ErrorKind
  pub says_no_space : Bool
  pub says_disk_full : Bool

unfoldable pub classify_io : IoError → ErrorClass
classify_io e = elim e.kind [
  | another ↦ if e.says_no_space || e.says_disk_full then local_fatal else transient_network
  | _ ↦ local_fatal
]
