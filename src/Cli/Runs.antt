-- ===== src/Cli/Runs.antt =====
-- What a run leaves of the row of its download, and what a resume starts from.
use ai_gen.Prelude.{
  ℕ, ◌≡◌, refl, ap, ◌∙◌, Bool, true, Option, none, some, List, [], ◌∷◌, if◌then◌else◌, Text,
  same_text_refl, option_all,
}
use mathlib.Core.Path.{subst}
use ai_gen.Prelude.Result.{ok}
use ai_gen.Config.{paranoid_rewind}
use ai_gen.RangeSet.{RangeSet, rewind_tails}
use ai_gen.RangeSet.Canonical.{DisjointFrom}
use ai_gen.RangeSet.Codec.{encode}
use ai_gen.Redact.{Urls, host_of}
use ai_gen.Store.{
  Row, DownloadStatus, completed, as_str, find_row, update_where, checkpoint, set_status,
  mark_clean, resume_state,
}
use ai_gen.Store.Kept.{
  find_row-update_where, perform_all, perform_all-resume_state, last_flags, last_sets, started,
}
use ai_gen.Store.Records.{DownloadRecord}
use ai_gen.Store.History.{Db, record_host_profile}
use ai_gen.Cli.{Ended, finished, stopped, status_of, saved, settle, run, open_store, with_rows}

-- The set that the last checkpoint had.
abbrev pub last_saved : List (RangeSet × ℕ) → List ℕ → List ℕ
last_saved [] before = before
last_saved ((ranges, bytes) ∷ later) before = last_saved later (encode ranges)

abbrev pub status_after : Ended → DownloadStatus
status_after (finished conns bps saturated) = completed
status_after (stopped e message) = status_of e

-- The row of a download that stopped cleanly, with its status and its set.
pub record Settled (id : Text) (status : DownloadStatus) (set : List ℕ) (rows : List Row)
    : Type 0 where
  pub row : Row
  pub here : find_row id rows ≡ some row
  pub named : row.id ≡ id
  pub marked : row.status ≡ as_str status
  pub held : row.completed_ranges ≡ set
  pub clean : row.clean_shutdown ≡ true

-- An update of the download's own row that leaves its name.
updated :
    (id : Text) (set : Row → Row) (rows : List Row) (r : Row)
    → ((x : Row) → (set x).id ≡ x.id)
    → find_row id rows ≡ some r
    → r.id ≡ id
    → find_row id (update_where id set rows) ≡ some (set r)
updated id set rows r k h e =
    find_row-update_where id id set rows r k h e
    ∙ ap (λ b. some (if b then set r else r)) (same_text_refl id)

saved-find_row :
    (id : Text) (during : List (RangeSet × ℕ)) (rows : List Row) (r : Row)
    → find_row id rows ≡ some r
    → r.id ≡ id
    → (x : Row) × (find_row id (saved id during rows) ≡ some x)
      × (x.id ≡ id)
      × (x.completed_ranges ≡ last_saved during r.completed_ranges)
unfolding saved checkpoint
saved-find_row id [] rows r h e = (r, h, e, refl)
saved-find_row id ((ranges, bytes) ∷ later) rows r h e =
    let r' : Row = record r { completed_ranges = encode ranges; bytes_done = bytes } in
    saved-find_row id later _ r'
      (updated id (λ x. record x { completed_ranges = encode ranges; bytes_done = bytes }) rows r
        (λ x. refl) h e)
      e

-- What is written when a download ends.
ended :
    (id : Text) (status : DownloadStatus) (error : Option Text) (now : ℕ) (rows : List Row)
    (r : Row)
    → find_row id rows ≡ some r
    → r.id ≡ id
    → Settled id status r.completed_ranges
        (mark_clean (set_status rows id status error now) id true)
unfolding set_status mark_clean
ended id status error now rows r h n =
    let first = updated id _ rows r (λ x. refl) h n in
    record {
      row = _;
      here = updated id (λ x. record x { clean_shutdown = true }) _ _ (λ x. refl) first n;
      named = n;
      marked = refl;
      held = refl;
      clean = refl;
    }

settle-Settled :
    (db : Db) (rec : DownloadRecord) (host : Text) (now : ℕ) (e : Ended) (r : Row)
    → find_row rec.id db.downloads ≡ some r
    → r.id ≡ rec.id
    → Settled rec.id (status_after e) r.completed_ranges (settle db rec host now e).downloads
unfolding settle record_host_profile
settle-Settled db rec host now (finished conns bps saturated) r h n =
    option_all (λ (d : Db). Settled rec.id completed r.completed_ranges d.downloads) _ _
      rec.max_connections (ended rec.id completed none now db.downloads r h n)
      (λ k. ended rec.id completed none now db.downloads r h n)
settle-Settled db rec host now (stopped e message) r h n =
    ended rec.id (status_of e) (some message) now db.downloads r h n

pub run-Settled :
    {U : Type 0} (urls : Urls U) (db : Db) (rec : DownloadRecord) (during : List (RangeSet × ℕ))
    (now : ℕ) (e : Ended) (r : Row)
    → find_row rec.id db.downloads ≡ some r
    → r.id ≡ rec.id
    → Settled rec.id
        (status_after e)
        (last_saved during r.completed_ranges)
        (run urls db rec during now e).downloads
unfolding run set_status
run-Settled urls db rec during now e r h n =
    let first = updated rec.id _ db.downloads r (λ x. refl) h n in
    let (x, found, name, held) = saved-find_row rec.id during _ _ first n in
    subst (λ set. Settled rec.id (status_after e) set (run urls db rec during now e).downloads) held
      (settle-Settled (with_rows db (saved rec.id during _)) rec (host_of urls rec.current_url) now
        e x found name)

-- The flag of a clean stop is lost before it is read: a download that a run left as stopped cleanly, with
-- the set of its last checkpoint, is resumed, after the store was opened again, as one that was
-- interrupted, and without the last bytes of each span where the settings are paranoid.
pub resume_after_clean_stop :
    {U : Type 0} (urls : Urls U) (db : Db) (rec : DownloadRecord) (during : List (RangeSet × ℕ))
    (now : ℕ) (e : Ended) (r : Row) (ranges : RangeSet) (paranoid : Bool)
    → find_row rec.id db.downloads ≡ some r
    → r.id ≡ rec.id
    → last_saved during r.completed_ranges ≡ encode ranges
    → DisjointFrom 0 ranges
    → resume_state (open_store (run urls db rec during now e)).downloads rec.id paranoid
      ≡ ok (if paranoid then rewind_tails ranges paranoid_rewind else ranges, true)
unfolding open_store perform_all last_flags last_sets
resume_after_clean_stop urls db rec during now e r ranges paranoid h n s c =
    let left = run-Settled urls db rec during now e r h n in
    perform_all-resume_state rec.id (started ∷ []) ranges true paranoid
      (run urls db rec during now e).downloads
      record {
        row = left.row;
        here = left.here;
        named = left.named;
        held = left.held ∙ s;
        flag = left.clean;
      }
      c
