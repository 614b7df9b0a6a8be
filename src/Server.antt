-- ===== src/Server.antt =====
-- crates/swiftload-testserver/src/lib.rs: the test server's state and `serve`, which answers a request
-- for a resource up to its body. The delays are left out, and so are the token buckets behind them.
pub mod Body
pub mod Routes
pub mod Ranges
pub mod Streamed
pub mod Accepted
pub mod Links
pub mod Fetched
mod Examples
use ai_gen.Prelude.{
  ℕ, zero, suc, ◌+◌, ◌-◌, ◌/◌, ◌%◌, Bool, true, false, not, ◌&&◌, Option, none, some, List, [], ◌∷◌,
  ◌++◌, ltb, leb, if◌then◌else◌, length, add64, sub64, min64, max64, saturating_sub, Text, trim,
  strip_prefix, split_once, parse_u64, same_text,
}
use ai_gen.Prelude.Decimal.{show_u64}
use ai_gen.Headers.{bind}

pub record Stats : Type 0 where
  pub accepts : ℕ
  pub open_conns : ℕ
  pub requests : ℕ
  pub bytes_served : ℕ
  pub range_requests : ℕ
  pub full_requests : ℕ
  pub resets_injected : ℕ
  pub status_403 : ℕ
  pub status_429 : ℕ

pub record AppState : Type 0 where
  pub stats : Stats
  pub signed : List (Text × List Text)
  pub live_streams : ℕ
  pub peak_streams : ℕ
  pub etag_tick : ℕ
  pub base_url : Text

-- `Yes`, `No` and `Lie`
pub data RangeMode : Type 0 where
  honest refusing lying : RangeMode

-- `Stable`, `Rotate` and `None`
pub data EtagMode : Type 0 where
  stable rotating absent : EtagMode

pub record Query : Type 0 where
  pub reset_at : Option ℕ
  pub token : Option Text
  pub n : Option ℕ
  pub name : Option Text
  pub stall : Option ℕ

pub record Scenario : Type 0 where
  pub seed : ℕ
  pub size : ℕ
  pub advertise_len : Bool
  pub ranges : RangeMode
  pub etag : EtagMode
  pub last_modified : Bool
  pub filename : Option Text
  pub gzip_anyway : Bool
  pub reset_at : Option ℕ
  pub stall_after : Option ℕ
  pub max_conn : Option ℕ

abbrev pub plain : ℕ → ℕ → Scenario
plain seed size = record {
  seed = seed;
  size = size;
  advertise_len = true;
  ranges = honest;
  etag = stable;
  last_modified = true;
  filename = none;
  gzip_anyway = false;
  reset_at = none;
  stall_after = none;
  max_conn = none;
}

abbrev pub or_else : Option Text → Option Text → Option Text
or_else (some a) b = some a
or_else none b = b

abbrev pub with_q : Scenario → Query → Scenario
with_q s q = record s {
  reset_at = q.reset_at;
  stall_after = q.stall;
  max_conn = q.n;
  filename = or_else q.name s.filename;
}

-- The headers of a reply, and the range of the content that its body streams: the first byte and how
-- many; a body that is a short text has none.
pub record Reply : Type 0 where
  pub status : ℕ
  pub accept_ranges : Option Text
  pub content_type : Option Text
  pub content_length : Option Text
  pub etag : Option Text
  pub last_modified : Option Text
  pub content_disposition : Option Text
  pub content_encoding : Option Text
  pub content_range : Option Text
  pub retry_after : Option Text
  pub location : Option Text
  pub streams : Option (ℕ × ℕ)

-- A reply with a short text for its body.
abbrev pub answer : ℕ → Reply
answer status = record {
  status = status;
  accept_ranges = none;
  content_type = none;
  content_length = none;
  etag = none;
  last_modified = none;
  content_disposition = none;
  content_encoding = none;
  content_range = none;
  retry_after = none;
  location = none;
  streams = none;
}

-- "bytes="
abbrev pub bytes_eq : Text
bytes_eq = 98 ∷ 121 ∷ 116 ∷ 101 ∷ 115 ∷ 61 ∷ []

-- The end of a range; an empty text is the end of the file.
abbrev pub range_end : ℕ → Text → Option ℕ
range_end size [] = some (saturating_sub size 1)
range_end size (c ∷ cs) = bind (parse_u64 (c ∷ cs)) (λ v. some (min64 v (saturating_sub size 1)))

abbrev pub in_order : ℕ → ℕ → Option (ℕ × ℕ)
in_order start end = if ltb end start then none else some (start, end)

abbrev pub range_of : ℕ → Text × Text → Option (ℕ × ℕ)
range_of size (a, b) =
    bind (parse_u64 (trim a)) (λ start. bind (range_end size (trim b)) (in_order start))

abbrev pub range_spec : ℕ → Text → Option (ℕ × ℕ)
range_spec size spec = bind (split_once 45 spec) (range_of size)

-- The header `Range` as text, if there is one.
unfoldable pub parse_range : Option Text → ℕ → Option (ℕ × ℕ)
parse_range header size = bind header (λ raw. bind (strip_prefix bytes_eq raw) (range_spec size))

abbrev pub is_honest : RangeMode → Bool
is_honest honest = true
is_honest refusing = false
is_honest lying = false

abbrev pub is_some : {A : Type 0} → Option A → Bool
is_some none = false
is_some (some a) = true

abbrev pub asks_for_bytes : Option Text → Bool
asks_for_bytes none = false
asks_for_bytes (some raw) = is_some (strip_prefix bytes_eq raw)

-- The requested range if it is honoured, and else the whole file.
abbrev pub span_of : Bool → ℕ → Option (ℕ × ℕ) → ℕ × ℕ
span_of true size (some r) = r
span_of true size none = (0, saturating_sub size 1)
span_of false size r = (0, saturating_sub size 1)

-- The lower-case hexadecimal digits of a number, at most `digits`.
unfoldable pub hex_digits : (digits : ℕ) → ℕ → Text
hex_digits zero n = []
hex_digits (suc digits) n =
    let d : ℕ = n % 16 in
    let c : ℕ = if ltb d 10 then 48 + d else 87 + d in
    let before = hex_digits digits (n / 16) in if ltb n 16 then c ∷ [] else before ++ c ∷ []

unfoldable pub zeros : ℕ → Text
zeros zero = []
zeros (suc n) = 48 ∷ zeros n

-- `{:016x}` and `{:08x}`
unfoldable pub show_hex : (width : ℕ) → ℕ → Text
unfolding hex_digits zeros
show_hex width n = let d = hex_digits 16 n in zeros (width - length d) ++ d

abbrev pub etag_of : AppState → Scenario → EtagMode → Option Text
etag_of st sc stable = some (34 ∷ (show_hex 16 sc.seed ++ 34 ∷ []))
etag_of st sc rotating = some (34 ∷ 114 ∷ 111 ∷ 116 ∷ 45 ∷ (show_hex 8 st.etag_tick ++ 34 ∷ []))
etag_of st sc absent = none

abbrev pub tick_of : EtagMode → ℕ → ℕ
tick_of rotating n = add64 n 1
tick_of stable n = n
tick_of absent n = n

-- "bytes" and "none"
abbrev pub advertised : RangeMode → Text
advertised honest = 98 ∷ 121 ∷ 116 ∷ 101 ∷ 115 ∷ []
advertised lying = 98 ∷ 121 ∷ 116 ∷ 101 ∷ 115 ∷ []
advertised refusing = 110 ∷ 111 ∷ 110 ∷ 101 ∷ []

-- "application/octet-stream"
abbrev pub octet_stream : Text
octet_stream =
    97 ∷ 112 ∷ 112 ∷ 108 ∷ 105 ∷ 99 ∷ 97 ∷ 116 ∷ 105 ∷ 111 ∷ 110 ∷ 47 ∷ 111 ∷ 99 ∷ 116 ∷ 101 ∷ 116
    ∷ 45 ∷ 115 ∷ 116 ∷ 114 ∷ 101 ∷ 97 ∷ 109 ∷ []

-- "Wed, 01 Jan 2025 00:00:00 GMT"
abbrev pub new_year : Text
new_year =
    87 ∷ 101 ∷ 100 ∷ 44 ∷ 32 ∷ 48 ∷ 49 ∷ 32 ∷ 74 ∷ 97 ∷ 110 ∷ 32 ∷ 50 ∷ 48 ∷ 50 ∷ 53 ∷ 32 ∷ 48 ∷ 48
    ∷ 58 ∷ 48 ∷ 48 ∷ 58 ∷ 48 ∷ 48 ∷ 32 ∷ 71 ∷ 77 ∷ 84 ∷ []

-- `attachment; filename="…"`
abbrev pub disposition_of : Option Text → Option Text
disposition_of none = none
disposition_of (some name) = some (
    97
    ∷ 116
    ∷ 116
    ∷ 97
    ∷ 99
    ∷ 104
    ∷ 109
    ∷ 101
    ∷ 110
    ∷ 116
    ∷ 59
    ∷ 32
    ∷ 102
    ∷ 105
    ∷ 108
    ∷ 101
    ∷ 110
    ∷ 97
    ∷ 109
    ∷ 101
    ∷ 61
    ∷ 34
    ∷ (name ++ 34 ∷ []))

-- "gzip"
abbrev pub gzip : Text
gzip = 103 ∷ 122 ∷ 105 ∷ 112 ∷ []

-- "bytes {start}-{end}/{size}"
unfoldable pub content_range_text : (start end size : ℕ) → Text
content_range_text start end size =
    98 ∷ 121 ∷ 116 ∷ 101 ∷ 115 ∷ 32 ∷ (show_u64 start ++ 45 ∷ (show_u64 end ++ 47 ∷ show_u64 size))

abbrev pub reply_of : AppState → Scenario → Bool → ℕ × ℕ → Reply
reply_of st sc ranged (start, end) =
    let body_len = sub64 (add64 end 1) start in
    record {
      status = if ranged then 206 else 200;
      accept_ranges = some (advertised sc.ranges);
      content_type = some octet_stream;
      content_length = if sc.advertise_len then some (show_u64 body_len) else none;
      etag = etag_of st sc sc.etag;
      last_modified = if sc.last_modified then some new_year else none;
      content_disposition = disposition_of sc.filename;
      content_encoding = if sc.gzip_anyway then some gzip else none;
      content_range = if ranged then some (content_range_text start end sc.size) else none;
      retry_after = none;
      location = none;
      streams = some (start, body_len);
    }

abbrev pub counted_request : AppState → AppState
counted_request st = record st { stats = record st.stats { requests = add64 st.stats.requests 1 } }

abbrev pub counted_429 : AppState → AppState
counted_429 st = record st { stats = record st.stats { status_429 = add64 st.stats.status_429 1 } }

abbrev pub counted_kind : Bool → AppState → AppState
counted_kind true st = record st {
  stats = record st.stats { range_requests = add64 st.stats.range_requests 1 };
}
counted_kind false st = record st {
  stats = record st.stats { full_requests = add64 st.stats.full_requests 1 };
}

-- The counters behind the headers: the tick of a rotating tag, and the live streams with their peak.
abbrev pub opened : EtagMode → AppState → AppState
opened etag st = record st {
  etag_tick = tick_of etag st.etag_tick;
  live_streams = add64 st.live_streams 1;
  peak_streams = max64 st.peak_streams (add64 st.live_streams 1);
}

abbrev pub is_full : Option ℕ → ℕ → Bool
is_full none live = false
is_full (some limit) live = leb limit live

-- `serve` behind the test of the connection cap.
unfoldable pub serve_open : AppState → Scenario → Option Text → AppState × Reply
unfolding parse_range content_range_text show_hex
serve_open st sc header =
    let requested = parse_range header sc.size in
    let ranged = is_honest sc.ranges && is_some requested in
    let st' = counted_kind (is_some requested) st in
    if is_honest sc.ranges && asks_for_bytes header && not (is_some requested)
    then (st', answer 416)
    else (opened sc.etag st', reply_of st' sc ranged (span_of ranged sc.size requested))

unfoldable pub serve : AppState → Scenario → Option Text → AppState × Reply
unfolding serve_open
serve st sc header =
    let st' = counted_request st in
    if is_full sc.max_conn st'.live_streams
    then (counted_429 st', record (answer 429) { retry_after = some (49 ∷ []) })
    else serve_open st' sc header
