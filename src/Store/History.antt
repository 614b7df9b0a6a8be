-- ===== src/Store/History.antt =====
-- crates/swiftload-core/src/store/mod.rs: the tables `url_history` and `host_profiles`, and the
-- statements that write to more than one table. The times are given.
use ai_gen.Prelude.{
  ℕ, ◌+◌, Bool, Option, none, some, List, [], ◌∷◌, ◌++◌, max64, leb, if◌then◌else◌, Text, same_text,
}
use ai_gen.Redact.{Urls, redact, host_of}
use ai_gen.Store.{Row, NewLink, find_row, swap_url}
use ai_gen.Store.Records.{DownloadRecord, insert_row, delete_row, has_row}

pub data UrlSource : Type 0 where
  user browser_extension auto_reresolve : UrlSource

-- A row of `url_history`.
pub record Entry : Type 0 where
  pub download_id : Text
  pub seq : ℕ
  pub url_redacted : Text
  pub host : Text
  pub source : UrlSource
  pub outcome : Text
  pub bytes_done_at_swap : ℕ
  pub added_at : ℕ

-- A row of `host_profiles`, but for its time.
pub record HostProfile : Type 0 where
  pub host : Text
  pub best_observed_conns : ℕ
  pub best_observed_bps : ℕ
  pub saturation_detected : Bool
  pub samples : ℕ

pub record Db : Type 0 where
  pub downloads : List Row
  pub url_history : List Entry
  pub host_profiles : List HostProfile

-- `COALESCE(MAX(seq) + 1, 0)` of the entries of a download.
unfoldable pub next_seq : Text → List Entry → ℕ
next_seq id [] = 0
next_seq id (e ∷ es) =
    let n = next_seq id es in if same_text e.download_id id then max64 (e.seq + 1) n else n

-- The entries of a download, which `url_history` gives in the order of their numbers.
unfoldable pub entries_of : Text → List Entry → List Entry
entries_of id [] = []
entries_of id (e ∷ es) =
    let rest = entries_of id es in if same_text e.download_id id then e ∷ rest else rest

unfoldable pub insert_by_seq : Entry → List Entry → List Entry
insert_by_seq e [] = e ∷ []
insert_by_seq e (x ∷ xs) =
    let later = x ∷ insert_by_seq e xs in if leb e.seq x.seq then e ∷ x ∷ xs else later

unfoldable pub by_seq : List Entry → List Entry
unfolding insert_by_seq
by_seq [] = []
by_seq (e ∷ es) = insert_by_seq e (by_seq es)

unfoldable pub url_history : Db → Text → List Entry
unfolding by_seq entries_of
url_history db id = by_seq (entries_of id db.url_history)

-- An entry needs its download, by the foreign key.
unfoldable pub push_url_history :
    {U : Type 0}
    → Urls U
    → Db
    → (id url : Text) → UrlSource
    → (outcome : Text) → (bytes now : ℕ) → Option Db
unfolding redact host_of next_seq
push_url_history urls db id url source outcome bytes now =
    let entry : Entry = record {
      download_id = id;
      seq = next_seq id db.url_history;
      url_redacted = redact urls url;
      host = host_of urls url;
      source = source;
      outcome = outcome;
      bytes_done_at_swap = bytes;
      added_at = now;
    } in
    if has_row id db.downloads
    then some (record db { url_history = db.url_history ++ entry ∷ [] })
    else none

-- "initial"
abbrev pub initial : Text
initial = 105 ∷ 110 ∷ 105 ∷ 116 ∷ 105 ∷ 97 ∷ 108 ∷ []

-- `none` is an error of the database.
unfoldable pub insert : {U : Type 0} → Urls U → Db → DownloadRecord → (now : ℕ) → Option Db
unfolding insert_row push_url_history
insert urls db d now = elim (insert_row db.downloads d) [
  | none ↦ none
  | some rows ↦
      push_url_history urls (record db { downloads = rows }) d.id d.original_url user initial 0 now
]

-- `swap_url` with its entry; the bytes are read before the update.
unfoldable pub swap_recorded :
    {U : Type 0} → Urls U → Db → (id : Text) → NewLink → (outcome : Text) → (now : ℕ) → Option Db
unfolding swap_url push_url_history
swap_recorded urls db id link outcome now = elim (find_row id db.downloads) [
  | none ↦ none
  | some r ↦
      push_url_history urls (record db { downloads = (swap_url db.downloads id link).0 }) id
        link.new_url user outcome r.bytes_done now
]

unfoldable pub forget : Text → List Entry → List Entry
forget id [] = []
forget id (e ∷ es) =
    let rest = forget id es in if same_text e.download_id id then rest else e ∷ rest

-- The entries go with their download, by `ON DELETE CASCADE`.
unfoldable pub delete : Db → Text → Db
unfolding delete_row forget
delete db id = record db {
  downloads = delete_row db.downloads id;
  url_history = forget id db.url_history;
}

unfoldable pub upsert : List HostProfile → Text → ℕ → ℕ → Bool → List HostProfile
upsert [] host conns bps saturated =
    record {
      host = host;
      best_observed_conns = conns;
      best_observed_bps = bps;
      saturation_detected = saturated;
      samples = 1;
    }
    ∷ []
upsert (p ∷ ps) host conns bps saturated =
    let rest = upsert ps host conns bps saturated in
    if same_text p.host host
    then record p {
      best_observed_conns = conns;
      best_observed_bps = bps;
      saturation_detected = saturated;
      samples = p.samples + 1;
    }
      ∷ ps
    else p ∷ rest

unfoldable pub record_host_profile : Db → Text → ℕ → ℕ → Bool → Db
unfolding upsert
record_host_profile db host conns bps saturated = record db {
  host_profiles = upsert db.host_profiles host conns bps saturated;
}

unfoldable pub find_profile : Text → List HostProfile → Option HostProfile
find_profile host [] = none
find_profile host (p ∷ ps) = if same_text p.host host then some p else find_profile host ps

unfoldable pub host_profile : Db → Text → Option HostProfile
unfolding find_profile
host_profile db host = find_profile host db.host_profiles
