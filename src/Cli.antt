-- ===== src/Cli.antt =====
-- crates/swiftload-cli/src/main.rs: what the commands do to the database. What is printed is left out;
-- the download itself is the checkpoints that it makes and how it ends.
pub mod Runs
pub mod Refreshed
mod Examples
use ai_gen.Prelude.{
  ℕ, Bool, true, false, not, ◌&&◌, Option, none, some, List, [], ◌∷◌, ◌++◌, ◌==◌, if◌then◌else◌,
  Text, parse_u64, same_text,
}
use ai_gen.Prelude.Result.{Result, ok, err, ◌>>=◌}
use ai_gen.Errors.{ErrorClass, url_expired}
use ai_gen.RangeSet.{RangeSet}
use ai_gen.Headers.{parse, as_header}
use ai_gen.Probe.{ProbeResult, RangeSupport, unknown, supported, unsupported, lied}
use ai_gen.Identity.{ResourceSignals, Verdict, resume, confirm, rejected, restart}
use ai_gen.Identity.Refresh.{Surroundings, ValidationReport, RefreshError, validate_replacement_url}
use ai_gen.Redact.{Urls, host_of}
use ai_gen.Store.{
  Row, StoreError, DownloadStatus, completed, active, paused, needs_attention, failed, NewLink,
  checkpoint, set_status, mark_clean, clear_clean_flags, resume_state,
}
use ai_gen.Store.Records.{
  DownloadRecord, ValidationState, auto_verified, content_verified, user_confirmed, validation_str,
  new_record, get,
}
use ai_gen.Store.History.{Db, insert, swap_recorded, record_host_profile}

-- "auto"
abbrev pub auto : Text
auto = 97 ∷ 117 ∷ 116 ∷ 111 ∷ []

-- `none` is an error; a number is that many connections.
abbrev pub parse_conns : Text → Option (Option ℕ)
parse_conns s =
    if same_text s auto
    then some none
    else elim (parse_u64 s) [ none ↦ none | some n ↦ some (some n) ]

abbrev pub range_support_code : RangeSupport → ℕ
range_support_code unknown = 0
range_support_code supported = 1
range_support_code unsupported = 2
range_support_code lied = 3

abbrev pub code_to_range_support : ℕ → RangeSupport
code_to_range_support c =
    if c == 1 then supported else if c == 2 then unsupported else if c == 3 then lied else unknown

unfoldable pub open_store : Db → Db
unfolding clear_clean_flags
open_store db = record db { downloads = clear_clean_flags db.downloads }

-- How a download ends, with what `run` reads of it: the connections and the speed it settled on, or the
-- class of its error and its text.
pub data Failure : Type 0 where
  cancelled other : Failure
  of_class : ErrorClass → Failure

pub data Ended : Type 0 where
  finished : (conns bps : ℕ) (saturated : Bool) → Ended
  stopped : Failure → Text → Ended

abbrev pub status_of : Failure → DownloadStatus
status_of cancelled = paused
status_of (of_class url_expired) = needs_attention
status_of (of_class _) = failed
status_of other = failed

-- The checkpoints that the download makes.
unfoldable pub saved : Text → List (RangeSet × ℕ) → List Row → List Row
unfolding checkpoint
saved id [] rows = rows
saved id ((ranges, bytes) ∷ later) rows = saved id later (checkpoint rows id ranges bytes).0

abbrev pub with_rows : Db → List Row → Db
with_rows db rows = record db { downloads = rows }

-- What `run` does when the download has ended.
unfoldable pub settle : Db → DownloadRecord → (host : Text) → (now : ℕ) → Ended → Db
unfolding set_status mark_clean record_host_profile
settle db rec host now (finished conns bps saturated) =
    let db' =
      with_rows db (mark_clean (set_status db.downloads rec.id completed none now) rec.id true) in
    elim rec.max_connections [
      | none ↦ record_host_profile db' host conns bps saturated
      | some n ↦ db'
    ]
settle db rec host now (stopped e message) =
    with_rows db
      (mark_clean (set_status db.downloads rec.id (status_of e) (some message) now) rec.id true)

unfoldable pub run :
    {U : Type 0} → Urls U → Db → DownloadRecord → List (RangeSet × ℕ) → (now : ℕ) → Ended → Db
unfolding settle saved set_status host_of
run urls db rec during now e =
    settle (with_rows db (saved rec.id during (set_status db.downloads rec.id active none now))) rec
      (host_of urls rec.current_url) now e

abbrev pub is_completed : DownloadStatus → Bool
is_completed completed = true
is_completed _ = false

pub data CliError : Type 0 where
  store_failed : StoreError → CliError
  no_download refused bad_conns probe_failed database : CliError
  refresh_failed : RefreshError → CliError

abbrev pub of_store : {A : Type 0} → Result StoreError A → Result CliError A
of_store (ok a) = ok a
of_store (err e) = err (store_failed e)

abbrev pub found : Option DownloadRecord → Result CliError DownloadRecord
found none = err no_download
found (some d) = ok d

-- The record of `cmd_get`, from what the probe says.
abbrev pub record_of :
    (id : Text) (now : ℕ)
    → Text
    → Text
    → Text
    → ProbeResult
    → (hint : Text) → (conns : Option ℕ) → (final_url http_version part : Text) → DownloadRecord
record_of id now url filename dir pr hint conns final_url http_version part =
    record (new_record id now url filename dir part) {
      total_size = pr.total_size;
      identity_hint = hint;
      etag = elim pr.etag [ none ↦ none | some e ↦ some (as_header e) ];
      last_modified = pr.last_modified;
      content_type = pr.content_type;
      http_version = some http_version;
      accept_ranges = range_support_code pr.range_support;
      max_connections = conns;
      final_url = final_url;
    }

-- `cmd_get` behind the probe, for the record that it makes; a database that refuses it is an error.
unfoldable pub cmd_get :
    {U : Type 0}
    → Urls U
    → Db
    → DownloadRecord
    → List (RangeSet × ℕ)
    → (now : ℕ) → Ended
    → Result CliError Db
unfolding insert run
cmd_get urls db rec during now e = elim (insert urls db rec now) [
  | none ↦ err database
  | some db' ↦ ok (run urls db' rec during now e)
]

abbrev pub run_from :
    {U : Type 0}
    → Urls U
    → Db
    → DownloadRecord
    → List (RangeSet × ℕ)
    → (now : ℕ) → Ended
    → Result CliError (RangeSet × Bool)
    → Result CliError Db
run_from urls db rec during now e (err x) = err x
run_from urls db rec during now e (ok state) =
    ok (run urls db (record rec { completed_ranges = state.0 }) during now e)

-- A resumed download starts from what the store gives back.
unfoldable pub cmd_resume :
    {U : Type 0}
    → Urls U
    → Db
    → (id : Text) → (paranoid : Bool) → List (RangeSet × ℕ)
    → (now : ℕ) → Ended
    → Result CliError Db
unfolding run get resume_state
cmd_resume urls db id paranoid during now e = do
  read ← of_store (get db.downloads id)
  rec ← found read
  if is_completed rec.status
      then ok db
      else run_from urls db rec during now e (of_store (resume_state db.downloads id paranoid))

-- What is known of the old link.
abbrev pub old_signals : DownloadRecord → ResourceSignals
old_signals rec = record {
  total_size = rec.total_size;
  etag = elim rec.etag [ none ↦ none | some t ↦ parse t ];
  last_modified = rec.last_modified;
  content_type = rec.content_type;
  filename = some rec.filename;
  range_support = code_to_range_support rec.accept_ranges;
}

-- Whether the verdict lets the command go on; `yes` is its flag.
abbrev pub is_allowed : Verdict → (agreed : Bool) → Bool
is_allowed (rejected r) agreed = false
is_allowed restart agreed = false
is_allowed (confirm ev) agreed = agreed
is_allowed (resume ev) agreed = true

abbrev pub validation_of : Verdict → ValidationState
validation_of (resume ev) = if ev.etag_matches then auto_verified else content_verified
validation_of (confirm ev) = user_confirmed
validation_of (rejected r) = user_confirmed
validation_of restart = user_confirmed

abbrev pub link_of : Text → ValidationReport → NewLink
link_of url report = record {
  new_url = url;
  resolved = report.resolved_url;
  etag = elim report.new_signals.etag [ none ↦ none | some e ↦ some (as_header e) ];
  last_modified = report.new_signals.last_modified;
  total_size = report.new_signals.total_size;
  accept_ranges = range_support_code report.new_signals.range_support;
  validation = validation_str (validation_of report.verdict);
}

-- "accepted_confirmed" and "accepted_auto"
abbrev pub outcome_of : Bool → Text
outcome_of true =
    97 ∷ 99 ∷ 99 ∷ 101 ∷ 112 ∷ 116 ∷ 101 ∷ 100 ∷ 95 ∷ 99 ∷ 111 ∷ 110 ∷ 102 ∷ 105 ∷ 114 ∷ 109 ∷ 101
    ∷ 100 ∷ []
outcome_of false = 97 ∷ 99 ∷ 99 ∷ 101 ∷ 112 ∷ 116 ∷ 101 ∷ 100 ∷ 95 ∷ 97 ∷ 117 ∷ 116 ∷ 111 ∷ []

abbrev pub refreshed : Option Db → Result CliError (Db × Bool)
refreshed none = err database
refreshed (some db) = ok (db, true)

-- What `cmd_refresh` does with a report up to the run, and whether there is one.
unfoldable pub swap_if_allowed :
    {U : Type 0}
    → Urls U
    → Db
    → (id url : Text) → (agreed dry_run : Bool) → (now : ℕ) → ValidationReport
    → Result CliError (Db × Bool)
unfolding swap_recorded
swap_if_allowed urls db id url agreed dry_run now report =
    if not (is_allowed report.verdict agreed)
    then err refused
    else if dry_run
    then ok (db, false)
    else refreshed (swap_recorded urls db id (link_of url report) (outcome_of agreed) now)

abbrev pub of_refresh : Result RefreshError ValidationReport → Result CliError ValidationReport
of_refresh (ok r) = ok r
of_refresh (err e) = err (refresh_failed e)

-- The run of a download whose address was replaced, from the set that was compared.
abbrev pub run_again :
    {U : Type 0}
    → Urls U
    → Db
    → (id : Text) → RangeSet
    → List (RangeSet × ℕ)
    → (now : ℕ) → Ended
    → Result CliError Db
run_again urls db id ranges during now e = do
  read ← of_store (get db.downloads id)
  rec ← found read
  ok (run urls db (record rec { completed_ranges = ranges }) during now e)

unfoldable pub cmd_refresh :
    {U : Type 0}
    → Urls U
    → (digest : List ℕ → List ℕ) → Surroundings
    → Db
    → (id url : Text) → (agreed dry_run paranoid : Bool) → List (RangeSet × ℕ)
    → (now : ℕ) → Ended
    → Result CliError Db
unfolding get resume_state parse validate_replacement_url swap_if_allowed run
cmd_refresh urls digest s db id url agreed dry_run paranoid during now e = do
  read ← of_store (get db.downloads id)
  rec ← found read
  state ← of_store (resume_state db.downloads id paranoid)
  report ← of_refresh (validate_replacement_url digest s (old_signals rec) state.0 id)
  swapped ← swap_if_allowed urls db id url agreed dry_run now report
  if swapped.1 then run_again urls swapped.0 id state.0 during now e else ok swapped.0
