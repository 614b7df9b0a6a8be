-- ===== src/Identity.antt =====
-- crates/swiftload-core/src/task/identity.rs: whether a replacement link serves the file that is partly
-- on disk. The digest, SHA-256, is a parameter.
pub mod Verdicts
pub mod Windows
pub mod Refresh
mod Examples
use ai_gen.Prelude.{
  ℕ, zero, suc, ◌+◌, ◌*◌, ◌-◌, ◌%◌, Bool, true, false, not, ◌&&◌, ◌||◌, Option, none, some, List,
  [], ◌∷◌, ◌++◌, map, ltb, leb, ◌==◌, if◌then◌else◌, length, take, add64, sub64, min64, u64_mod,
  bit_or, Text, same_text, same_option, eq_ignore_ascii_case,
}
use ai_gen.RangeSet.{RangeSet, Span, total}
use ai_gen.Headers.{Validator, raw, is_strong}
use ai_gen.Probe.{RangeSupport, is_supported}

abbrev pub window : ℕ
window = 64 * 1024

pub record ResourceSignals : Type 0 where
  pub total_size : Option ℕ
  pub etag : Option Validator
  pub last_modified : Option Text
  pub content_type : Option Text
  pub filename : Option Text
  pub range_support : RangeSupport

pub data RejectReason : Type 0 where
  size_mismatch : (old new : ℕ) → RejectReason
  content_mismatch : (offset : ℕ) → RejectReason
  bad_scheme auth_required : RejectReason

pub data Preliminary : Type 0 where
  accept verify_then_accept verify_then_confirm : Preliminary
  reject : RejectReason → Preliminary
  restart_only : Preliminary

pub record Evidence : Type 0 where
  pub size_matches : Bool
  pub etag_matches : Bool
  pub etag_changed : Bool
  pub last_modified_matches : Bool
  pub filename_matches : Bool
  pub content_type_matches : Bool
  pub windows_verified : ℕ

abbrev pub no_evidence : Evidence
no_evidence = record {
  size_matches = false;
  etag_matches = false;
  etag_changed = false;
  last_modified_matches = false;
  filename_matches = false;
  content_type_matches = false;
  windows_verified = 0;
}

-- Both are known, and the test holds of them.
abbrev pub both : {A : Type 0} → (A → A → Bool) → Option A → Option A → Bool
both test (some a) (some b) = test a b
both test (some a) none = false
both test none b = false

abbrev pub is_none : {A : Type 0} → Option A → Bool
is_none none = true
is_none (some a) = false

-- `compare` behind the gate on the sizes, where `sizes` is whether both are known and equal.
unfoldable pub compare_signals : Bool → ResourceSignals → ResourceSignals → Preliminary × Evidence
compare_signals sizes old new =
    let modified = both same_text old.last_modified new.last_modified in
    let etags = both (λ a b. same_text (raw a) (raw b)) old.etag new.etag in
    let etags_differ = both (λ a b. not (same_text (raw a) (raw b))) old.etag new.etag in
    let strong = both (λ a b. is_strong a && is_strong b) old.etag new.etag in
    let ev : Evidence = record {
      size_matches = sizes;
      etag_matches = etags;
      etag_changed = etags_differ;
      last_modified_matches = modified;
      filename_matches = both eq_ignore_ascii_case old.filename new.filename;
      content_type_matches = same_option old.content_type new.content_type;
      windows_verified = 0;
    } in
    if not (is_supported new.range_support)
    then (restart_only, ev)
    else if etags && (strong && sizes)
    then (accept, ev)
    else if sizes && (modified && (is_none old.etag && is_none new.etag))
    then (verify_then_accept, ev)
    else if etags && sizes
    then (verify_then_accept, ev)
    else (verify_then_confirm, ev)

-- `compare` by the two sizes.
unfoldable pub compare_sizes :
    Option ℕ → Option ℕ → ResourceSignals → ResourceSignals → Preliminary × Evidence
unfolding compare_signals
compare_sizes (some a) (some b) old new =
    if a == b then compare_signals true old new else (reject (size_mismatch a b), no_evidence)
compare_sizes (some a) none old new = compare_signals false old new
compare_sizes none b old new = compare_signals false old new

unfoldable pub compare : ResourceSignals → ResourceSignals → Preliminary × Evidence
unfolding compare_sizes
compare old new = compare_sizes old.total_size new.total_size old new

-- `position(|(a, b)| a != b)` of two lists of one length, from the offset on.
unfoldable pub first_mismatch : ℕ → List ℕ → List ℕ → Option ℕ
first_mismatch at [] remote = none
first_mismatch at (a ∷ local) [] = none
first_mismatch at (a ∷ local) (b ∷ remote) =
    let later = first_mismatch (suc at) local remote in if a == b then later else some at

unfoldable pub first_difference : ℕ → List ℕ → List ℕ → Option ℕ
unfolding first_mismatch
first_difference offset local remote =
    if not (length local == length remote)
    then some (offset + min64 (length local) (length remote))
    else first_mismatch offset local remote

pub data Verdict : Type 0 where
  resume confirm : Evidence → Verdict
  rejected : RejectReason → Verdict
  restart : Verdict

abbrev pub is_safe_to_resume : Verdict → Bool
is_safe_to_resume (resume ev) = true
is_safe_to_resume _ = false

abbrev pub needs_user : Verdict → Bool
needs_user (confirm ev) = true
needs_user restart = true
needs_user _ = false

-- The verdict where no window differed.
abbrev pub verdict_of : Preliminary → Evidence → Verdict
verdict_of accept ev = resume ev
verdict_of verify_then_accept ev = resume ev
verdict_of verify_then_confirm ev = confirm ev
verdict_of (reject r) ev = rejected r
verdict_of restart_only ev = restart

abbrev pub finalize : Preliminary → Evidence → (mismatch_at : Option ℕ) → (windows : ℕ) → Verdict
finalize pre ev none windows = verdict_of pre (record ev { windows_verified = windows })
finalize pre ev (some offset) windows = rejected (content_mismatch offset)

-- `locate`: the last byte of the set where the offset is beyond it.
abbrev pub last_byte : RangeSet → ℕ
last_byte [] = 0
last_byte (x ∷ []) = sub64 (add64 x.start x.len) 1
last_byte (x ∷ y ∷ ys) = last_byte (y ∷ ys)

unfoldable pub locate_loop : RangeSet → (last : ℕ) → ℕ → ℕ
locate_loop [] last logical = last
locate_loop (x ∷ xs) last logical =
    let later = locate_loop xs last (sub64 logical x.len) in
    if ltb logical x.len then add64 x.start logical else later

unfoldable pub locate : RangeSet → ℕ → ℕ
unfolding locate_loop
locate spans logical = locate_loop spans (last_byte spans) logical

-- The first eight bytes, the highest first.
unfoldable pub big_endian : ℕ → List ℕ → ℕ
big_endian v [] = v
big_endian v (b ∷ bs) = big_endian (bit_or (v * 256 % u64_mod) b) bs

-- A round adds a pick, so `count` rounds are enough.
unfoldable pub pick_loop :
    (digest : List ℕ → List ℕ) → RangeSet → ℕ → (fuel count : ℕ) → List ℕ → List ℕ → List ℕ
unfolding locate big_endian
pick_loop digest spans room zero count picks seed = picks
pick_loop digest spans room (suc fuel) count picks seed =
    if ltb (length picks) count
    then pick_loop digest spans room fuel count
        (picks ++ locate spans (big_endian 0 (take 8 seed) % room) ∷ []) (digest seed)
    else picks

unfoldable pub insert_number : ℕ → List ℕ → List ℕ
insert_number n [] = n ∷ []
insert_number n (m ∷ ms) =
    let later = m ∷ insert_number n ms in if leb n m then n ∷ m ∷ ms else later

-- `sort_unstable`
unfoldable pub sort_numbers : List ℕ → List ℕ
unfolding insert_number
sort_numbers [] = []
sort_numbers (n ∷ ns) = insert_number n (sort_numbers ns)

unfoldable pub dedup : List ℕ → List ℕ
dedup [] = []
dedup (n ∷ []) = n ∷ []
dedup (n ∷ m ∷ ms) = let later = dedup (m ∷ ms) in if n == m then later else n ∷ later

-- The picks before they are sorted, for a set of `size` bytes and windows of `win`.
unfoldable pub picks_of :
    (digest : List ℕ → List ℕ) → RangeSet → Text → (count size win : ℕ) → List ℕ
unfolding locate pick_loop
picks_of digest spans id count size win =
    if ltb win size
    then pick_loop digest spans (size - win) count count
        (locate spans 0 ∷ locate spans (size - win) ∷ []) (digest id)
    else locate spans 0 ∷ []

-- `choose_windows` of a set of `size` bytes.
unfoldable pub windows_of :
    (digest : List ℕ → List ℕ) → RangeSet → Text → (count size : ℕ) → List (ℕ × ℕ)
unfolding picks_of sort_numbers dedup
windows_of digest spans id count size =
    let win = min64 window size in
    if size == 0
    then []
    else map (λ p. (p, win)) (dedup (sort_numbers (picks_of digest spans id count size win)))

unfoldable pub choose_windows :
    (digest : List ℕ → List ℕ) → RangeSet → Text → (count : ℕ) → List (ℕ × ℕ)
unfolding total windows_of
choose_windows digest spans id count = windows_of digest spans id count (total spans)
