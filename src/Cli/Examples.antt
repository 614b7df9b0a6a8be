-- ===== src/Cli/Examples.antt =====
-- One download of 20 bytes, of which three are on disk.
use ai_gen.Prelude.{
  ℕ, ◌≡◌, refl, Bool, true, false, none, some, List, [], ◌∷◌, arith, length, take, suc, zero, ◌≤◌,
  if◌then◌else◌, Text, same_text, ◌++◌,
}
use ai_gen.Prelude.Result.{ok}
use ai_gen.Config.{paranoid_rewind}
use ai_gen.RangeSet.{RangeSet, rewind_tails}
use ai_gen.RangeSet.Codec.{encode, decode}
use ai_gen.Probe.{ProbeResult, supported}
use ai_gen.Identity.{choose_windows}
use ai_gen.Identity.Refresh.{Surroundings, replied, window_count}
use ai_gen.Identity.Refresh.Matched.{AllMatch, ReadsWithin}
use ai_gen.Redact.{Urls}
use ai_gen.Store.{resume_state}
use ai_gen.Store.Records.{DownloadRecord, new_record, row_of, get, insert_row, delete_row}
use ai_gen.Store.Inserted.{as_stored, insert_get_delete}
use ai_gen.Store.History.{Db, user, push_url_history, url_history, entries_of}
use ai_gen.Store.Numbered.{IsNumbered, added, push_url_history_appends}
use ai_gen.Cli.{Ended, finished, run, open_store, cmd_refresh}
use ai_gen.Cli.Runs.{resume_after_clean_stop}
use ai_gen.Cli.Refreshed.{cmd_refresh-Matches}

-- No address can be parsed.
abbrev urls : Urls (Unit {0})
urls = record {
  parse = λ t. none;
  set_username = λ u t. u;
  set_password = λ u t. u;
  set_fragment = λ u t. u;
  query = λ u. none;
  set_query = λ u t. u;
  query_pairs = λ u. [];
  set_pairs = λ u ps. u;
  host_str = λ u. none;
  to_string = λ u. [];
}

abbrev mine : Text
mine = 97 ∷ []

abbrev fetched : RangeSet
fetched = record { start = 0; len = 3 } ∷ []

abbrev rec : DownloadRecord
rec = record (new_record mine 5 [] (102 ∷ []) [] []) {
  total_size = some 20;
  bytes_done = 3;
  completed_ranges = fetched;
  accept_ranges = 1;
}

abbrev db : Db
db = record { downloads = row_of rec ∷ []; url_history = []; host_profiles = [] }

no_rows : insert_row [] rec ≡ some (row_of rec ∷ [])
unfolding insert_row
no_rows = refl

insert_get_delete_example :
    (get (row_of rec ∷ []) mine
      ≡ (if same_text mine mine then ok (some (as_stored rec)) else get [] mine))
    × (get (delete_row (row_of rec ∷ []) mine) mine
        ≡ (if same_text mine mine then ok none else get [] mine))
insert_get_delete_example = insert_get_delete [] (row_of rec ∷ []) rec mine (omega arith) no_rows

ended : Ended
ended = finished 4 1000 false

resume_after_clean_stop_example :
    resume_state (open_store (run urls db rec ((fetched, 3) ∷ []) 7 ended)).downloads mine true
    ≡ ok (rewind_tails fetched paranoid_rewind, true)
unfolding row_of
resume_after_clean_stop_example =
    resume_after_clean_stop urls db rec ((fetched, 3) ∷ []) 7 ended (row_of rec) fetched true refl
      refl refl (omega arith)

abbrev probed : ProbeResult
probed = record {
  filename = 102 ∷ [];
  total_size = some 20;
  range_support = supported;
  etag = none;
  last_modified = none;
  content_type = none;
  disposition_filename = none;
  transforming_encoding = false;
}

abbrev on_disk : List ℕ
on_disk = 7 ∷ 8 ∷ 9 ∷ []

abbrev around : Surroundings
around = record {
  probed = some (probed, []);
  client_built = true;
  opened = true;
  read_at = λ off len. some (take len on_disk);
  fetch = λ range. replied 206 (some on_disk);
}

length-take : (n : ℕ) (xs : List ℕ) → length (take n xs) ≤ n
length-take zero xs = omega arith
length-take (suc n) [] = omega arith
length-take (suc n) (x ∷ xs) = omega (arith, length-take n xs)

around-ReadsWithin : ReadsWithin around
around-ReadsWithin off len local h = ground (arith, length-take len on_disk)

-- The verdict asks the user, who agrees.
refreshed : cmd_refresh urls (λ d. d) around db mine [] true true false [] 7 ended ≡ ok db
unfolding cmd_refresh row_of encode decode
refreshed = refl

cmd_refresh-Matches_example :
    (state : RangeSet × Bool) × (resume_state db.downloads mine false ≡ ok state)
    × AllMatch around (choose_windows (λ d. d) state.0 mine window_count)
cmd_refresh-Matches_example =
    cmd_refresh-Matches urls (λ d. d) around db mine [] true true false [] 7 ended db
      around-ReadsWithin refreshed

abbrev empty_db : Db
empty_db = record { downloads = row_of rec ∷ []; url_history = []; host_profiles = [] }

numbered : IsNumbered empty_db
unfolding entries_of
numbered id = tt

abbrev pushed : Db
pushed = record empty_db {
  url_history = added urls empty_db empty_db mine (120 ∷ []) user [] 3 9 ∷ [];
}

history_pushed : push_url_history urls empty_db mine (120 ∷ []) user [] 3 9 ≡ some pushed
unfolding push_url_history url_history row_of
history_pushed = refl

push_url_history_appends_example :
    IsNumbered pushed
    × (url_history pushed mine ≡ (
        if same_text mine mine
        then url_history empty_db mine
          ++ added urls empty_db pushed mine (120 ∷ []) user [] 3 9 ∷ []
        else url_history empty_db mine))
push_url_history_appends_example =
    push_url_history_appends urls empty_db pushed mine (120 ∷ []) user [] 3 9 mine numbered
      history_pushed
