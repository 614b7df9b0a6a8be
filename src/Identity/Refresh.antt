-- ===== src/Identity/Refresh.antt =====
-- crates/swiftload-core/src/task/identity.rs: `validate_replacement_url`, which compares a replacement
-- link with what is on disk. What the probe, the disk and the network answer are parameters.
pub mod Budget
pub mod Matched
mod Examples
use ai_gen.Prelude.{
  ℕ, ◌+◌, Bool, true, false, not, ◌&&◌, Option, none, some, List, [], ◌∷◌, ltb, ◌==◌, if◌then◌else◌,
  length, add64, sub64, Text,
}
use ai_gen.Prelude.Result.{Result, ok, err}
use ai_gen.RangeSet.{RangeSet, total}
use ai_gen.Probe.{ProbeResult, is_supported}
use ai_gen.Worker.Request.{range_text}
use ai_gen.Identity.{
  ResourceSignals, Preliminary, Evidence, Verdict, rejected, content_mismatch, reject, restart_only,
  compare, finalize, first_difference, choose_windows,
}

abbrev pub window_count : ℕ
window_count = 4

abbrev pub from_probe : ProbeResult → ResourceSignals
from_probe p = record {
  total_size = p.total_size;
  etag = p.etag;
  last_modified = p.last_modified;
  content_type = p.content_type;
  filename = some p.filename;
  range_support = p.range_support;
}

pub record ValidationReport : Type 0 where
  pub verdict : Verdict
  pub new_signals : ResourceSignals
  pub resolved_url : Text
  pub windows_checked : ℕ
  pub bytes_verified : ℕ

pub data RefreshError : Type 0 where
  probe io client : RefreshError

-- What a request gives: no reply, or a status and a body that may break.
pub data Fetched : Type 0 where
  lost : Fetched
  replied : (status : ℕ) → Option (List ℕ) → Fetched

-- What the surroundings answer: the probe, whether a client can be made, whether the part file opens,
-- what `read_at` gives for an offset and the length of its buffer, and a request by its header `Range`.
pub record Surroundings : Type 0 where
  pub probed : Option (ProbeResult × Text)
  pub client_built : Bool
  pub opened : Bool
  pub read_at : ℕ → ℕ → Option (List ℕ)
  pub fetch : Text → Fetched

-- How the loop over the windows ends, with the bytes that were received.
pub data Checked : Type 0 where
  broken : RefreshError → Checked
  unconfirmed differed : (offset verified : ℕ) → Checked
  matched : (verified : ℕ) → Checked

-- The comparison of one window; `rest` is the loop over the later ones.
abbrev pub on_difference : Option ℕ → ℕ → (rest : ℕ → Checked) → Checked
on_difference none verified rest = rest verified
on_difference (some at) verified rest = differed at verified

abbrev pub on_body : ℕ → List ℕ → ℕ → (rest : ℕ → Checked) → Option (List ℕ) → Checked
on_body off local verified rest none = broken client
on_body off local verified rest (some remote) =
    on_difference (first_difference off local remote) (add64 verified (length remote)) rest

abbrev pub on_reply : ℕ → List ℕ → ℕ → (rest : ℕ → Checked) → Fetched → Checked
on_reply off local verified rest lost = broken client
on_reply off local verified rest (replied status body) =
    if status == 206 then on_body off local verified rest body else unconfirmed off verified

abbrev pub on_local : Surroundings → ℕ → ℕ → ℕ → (rest : ℕ → Checked) → Option (List ℕ) → Checked
on_local s off len verified rest none = broken io
on_local s off len verified rest (some local) =
    on_reply off local verified rest (s.fetch (range_text off (sub64 (add64 off len) 1)))

unfoldable pub check_windows : Surroundings → List (ℕ × ℕ) → (verified : ℕ) → Checked
unfolding first_difference range_text
check_windows s [] verified = matched verified
check_windows s ((off, len) ∷ windows) verified =
    on_local s off len verified (check_windows s windows) (s.read_at off len)

abbrev pub is_settled : Preliminary → Bool
is_settled (reject r) = true
is_settled restart_only = true
is_settled _ = false

-- The report behind the loop, for a number of windows.
abbrev pub conclude :
    Preliminary × Evidence
    → ResourceSignals
    → Text
    → ℕ
    → Checked
    → Result RefreshError ValidationReport
conclude (pre, ev) new url windows (broken e) = err e
conclude (pre, ev) new url windows (unconfirmed off verified) = ok (record {
  verdict = rejected (content_mismatch off);
  new_signals = new;
  resolved_url = url;
  windows_checked = verified;
  bytes_verified = verified;
})
conclude (pre, ev) new url windows (differed at verified) = ok (record {
  verdict = finalize pre ev (some at) windows;
  new_signals = new;
  resolved_url = url;
  windows_checked = windows;
  bytes_verified = verified;
})
conclude (pre, ev) new url windows (matched verified) = ok (record {
  verdict = finalize pre ev none windows;
  new_signals = new;
  resolved_url = url;
  windows_checked = windows;
  bytes_verified = verified;
})

abbrev pub unverified :
    Preliminary × Evidence → ResourceSignals → Text → Result RefreshError ValidationReport
unverified (pre, ev) new url = ok (record {
  verdict = finalize pre ev none 0;
  new_signals = new;
  resolved_url = url;
  windows_checked = 0;
  bytes_verified = 0;
})

-- What follows the comparison of the headers.
unfoldable pub verify :
    Surroundings
    → List (ℕ × ℕ)
    → (verifiable : Bool) → Preliminary × Evidence
    → ResourceSignals
    → Text
    → Result RefreshError ValidationReport
unfolding check_windows
verify s windows verifiable cmp new url =
    if not verifiable
    then unverified cmp new url
    else if not s.client_built
    then err client
    else if not s.opened
    then err io
    else conclude cmp new url (length windows) (check_windows s windows 0)

unfoldable pub validate_probed :
    (digest : List ℕ → List ℕ)
    → Surroundings
    → ResourceSignals
    → RangeSet
    → Text
    → ProbeResult
    → Text
    → Result RefreshError ValidationReport
unfolding verify compare choose_windows total
validate_probed digest s old completed id p url =
    let new = from_probe p in
    let cmp = compare old new in
    verify s (choose_windows digest completed id window_count)
      (ltb 0 (total completed) && (is_supported p.range_support && not (is_settled cmp.0))) cmp new
      url

abbrev pub validate_answer :
    (digest : List ℕ → List ℕ)
    → Surroundings
    → ResourceSignals
    → RangeSet
    → Text
    → Option (ProbeResult × Text)
    → Result RefreshError ValidationReport
unfolding validate_probed
validate_answer digest s old completed id none = err probe
validate_answer digest s old completed id (some (p, url)) =
    validate_probed digest s old completed id p url

unfoldable pub validate_replacement_url :
    (digest : List ℕ → List ℕ)
    → Surroundings
    → ResourceSignals
    → RangeSet
    → Text
    → Result RefreshError ValidationReport
unfolding validate_probed
validate_replacement_url digest s old completed id =
    validate_answer digest s old completed id s.probed
