-- ===== src/Publish.antt =====
-- crates/swiftload-core/src/task/mod.rs: the beginning and the end of `download`: what is believed of a
-- checkpoint, and what happens between the last worker and the published file. The disk is a parameter:
-- what hashing the partial file gives, which names are taken, and whether removing and renaming work.
pub mod Complete
mod Examples
use ai_gen.Prelude.{
  ℕ, Bool, true, false, not, ◌&&◌, ◌||◌, Option, none, some, List, [], ◌∷◌, if◌then◌else◌, Text,
  eq_ignore_ascii_case, length,
}
use ai_gen.Prelude.Result.{Result, ok, err, ◌>>=◌}
use ai_gen.Errors.{ErrorClass}
use ai_gen.RangeSet.{RangeSet, new, contains_all, gaps_in, total, truncate_to}
use ai_gen.Filename.Destination.{dedupe}

pub data CollisionPolicy : Type 0 where
  rename overwrite ask : CollisionPolicy

-- Those of `DownloadError` that come after the probe; `io` is an error of the disk.
pub data DownloadError : Type 0 where
  io cancelled checksum_mismatch : DownloadError
  failed : ErrorClass → DownloadError
  incomplete : (done total gaps : ℕ) → DownloadError

pub record Disk : Type 0 where
  pub hash_file : Option Text  -- `none` where it cannot be read
  pub exists : Text → Bool
  pub fresh : Text
  pub remove_works : Bool
  pub rename_works : Bool

-- What the end of `download` starts from.
pub record Driven : Type 0 where
  pub fatal : Option ErrorClass
  pub is_cancelled : Bool
  pub total_size : Option ℕ
  pub final_ranges : RangeSet
  pub hash_on_complete : Bool
  pub expected_sha256 : Option Text
  pub collision_policy : CollisionPolicy
  pub dest : Text

pub record Published : Type 0 where
  pub path : Text
  pub bytes : ℕ
  pub sha256 : Option Text

-- What the checkpoint is taken for: nothing, where the partial file is missing; and no more than the
-- file's length, where the size is not known.
unfoldable pub reconcile : Bool → Option ℕ → (file_len : ℕ) → RangeSet → RangeSet
unfolding truncate_to new
reconcile part_existed total_size file_len [] = elim total_size [
  | none ↦ truncate_to [] file_len
  | some t ↦ []
]
reconcile part_existed total_size file_len (x ∷ xs) =
    if not part_existed
    then new
    else elim total_size [ none ↦ truncate_to (x ∷ xs) file_len | some t ↦ x ∷ xs ]

-- `driven?`
abbrev pub check_driven : Option ErrorClass → Result DownloadError Unit
check_driven none = ok tt
check_driven (some c) = err (failed c)

abbrev pub check_cancelled : Bool → Result DownloadError Unit
check_cancelled true = err cancelled
check_cancelled false = ok tt

unfoldable pub check_coverage : Option ℕ → RangeSet → Result DownloadError Unit
unfolding contains_all gaps_in total
check_coverage none ranges = ok tt
check_coverage (some t) ranges =
    if not (contains_all ranges 0 t)
    then err (incomplete (total ranges) t (length (gaps_in ranges 0 t)))
    else ok tt

abbrev pub is_given : Option Text → Bool
is_given none = false
is_given (some s) = true

abbrev pub hash_result : Option Text → Result DownloadError (Option Text)
hash_result none = err io
hash_result (some h) = ok (some h)

abbrev pub hash_of : Bool → Option Text → Option Text → Result DownloadError (Option Text)
hash_of on_complete expected hashed =
    if on_complete || is_given expected then hash_result hashed else ok none

abbrev pub check_sum : (expected actual : Option Text) → Result DownloadError Unit
check_sum (some e) (some a) =
    if not (eq_ignore_ascii_case e a) then err checksum_mismatch else ok tt
check_sum _ _ = ok tt

unfoldable pub unique_destination : Disk → CollisionPolicy → Text → Text
unfolding dedupe
unique_destination disk rename dest = dedupe disk.exists disk.fresh dest
unique_destination disk overwrite dest = dest
unique_destination disk ask dest = dest

abbrev pub is_overwrite : CollisionPolicy → Bool
is_overwrite overwrite = true
is_overwrite _ = false

-- `fsx::finalize`
unfoldable pub finalize : Disk → Bool → Text → Result DownloadError Unit
finalize disk replace path =
    if disk.exists path && not (replace && disk.remove_works)
    then err io
    else if disk.rename_works
    then ok tt
    else err io

unfoldable pub publish : Disk → Driven → Result DownloadError Published
unfolding check_coverage unique_destination finalize total
publish disk d = do
  driven ← check_driven d.fatal
  goes_on ← check_cancelled d.is_cancelled
  covered ← check_coverage d.total_size d.final_ranges
  sha256 ← hash_of d.hash_on_complete d.expected_sha256 disk.hash_file
  matches ← check_sum d.expected_sha256 sha256
  let path = unique_destination disk d.collision_policy d.dest
  placed ← finalize disk (is_overwrite d.collision_policy) path
  ok (record { path = path; bytes = total d.final_ranges; sha256 = sha256 })
