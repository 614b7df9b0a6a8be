-- ===== src/Server/Routes.antt =====
-- crates/swiftload-testserver/src/lib.rs: the handlers of the routes. A path's parts and its query are
-- given as read; the random token of `h_mint` is a parameter.
use ai_gen.Prelude.{
  ℕ, ◌-◌, Bool, true, false, ◌&&◌, ◌||◌, Option, none, some, List, [], ◌∷◌, ◌++◌, ltb, leb, ◌==◌,
  if◌then◌else◌, add64, Text, same_text,
}
use ai_gen.Prelude.Decimal.{show_u64}
use ai_gen.Content.{seed_of}
use ai_gen.Server.{
  AppState, Stats, Scenario, Query, Reply, refusing, lying, rotating, absent, plain, with_q, answer,
  serve, counted_429,
}

unfoldable pub scenario_of : Text → ℕ → Query → Scenario
unfolding seed_of
scenario_of seed size q = with_q (plain (seed_of seed) size) q

unfoldable pub h_plain : AppState → Text → ℕ → Query → Option Text → AppState × Reply
unfolding serve scenario_of
h_plain st seed size q range = serve st (scenario_of seed size q) range

unfoldable pub h_norange : AppState → Text → ℕ → Query → Option Text → AppState × Reply
unfolding serve scenario_of
h_norange st seed size q range =
    serve st (record (scenario_of seed size q) { ranges = refusing }) range

unfoldable pub h_liar : AppState → Text → ℕ → Query → Option Text → AppState × Reply
unfolding serve scenario_of
h_liar st seed size q range = serve st (record (scenario_of seed size q) { ranges = lying }) range

unfoldable pub h_nolen : AppState → Text → ℕ → Query → Option Text → AppState × Reply
unfolding serve scenario_of
h_nolen st seed size q range =
    serve st (record (scenario_of seed size q) { advertise_len = false; ranges = refusing }) range

unfoldable pub h_throttle : AppState → Text → ℕ → Query → Option Text → AppState × Reply
unfolding serve scenario_of
h_throttle st seed size q range = serve st (scenario_of seed size q) range

abbrev pub or_number : Option ℕ → ℕ → ℕ
or_number (some n) d = n
or_number none d = d

unfoldable pub h_maxconn : AppState → Text → ℕ → Query → Option Text → AppState × Reply
unfolding serve scenario_of
h_maxconn st seed size q range =
    serve st (record (scenario_of seed size q) { max_conn = some (or_number q.n 6) }) range

unfoldable pub h_gzip : AppState → Text → ℕ → Query → Option Text → AppState × Reply
unfolding serve scenario_of
h_gzip st seed size q range =
    serve st (record (scenario_of seed size q) { gzip_anyway = true }) range

unfoldable pub h_rotate_etag : AppState → Text → ℕ → Query → Option Text → AppState × Reply
unfolding serve scenario_of
h_rotate_etag st seed size q range =
    serve st (record (scenario_of seed size q) { etag = rotating }) range

unfoldable pub h_nometa : AppState → Text → ℕ → Query → Option Text → AppState × Reply
unfolding serve scenario_of
h_nometa st seed size q range =
    serve st (record (scenario_of seed size q) { etag = absent; last_modified = false }) range

-- The tokens of a seed.
abbrev pub tokens_of : Text → List (Text × List Text) → Option (List Text)
tokens_of seed [] = none
tokens_of seed ((s, ts) ∷ rest) = if same_text s seed then some ts else tokens_of seed rest

abbrev pub contains : Text → List Text → Bool
contains t [] = false
contains t (x ∷ xs) = same_text x t || contains t xs

abbrev pub is_valid : Option Text → Option (List Text) → Bool
is_valid (some t) (some valid) = contains t valid
is_valid (some t) none = false
is_valid none valid = false

abbrev pub counted_403 : AppState → AppState
counted_403 st = record st { stats = record st.stats { status_403 = add64 st.stats.status_403 1 } }

unfoldable pub h_signed : AppState → Text → ℕ → Query → Option Text → AppState × Reply
unfolding h_plain
h_signed st seed size q range =
    if is_valid q.token (tokens_of seed st.signed)
    then h_plain st seed size q range
    else (counted_403 st, answer 403)

-- `entry(seed).or_default().insert(token)`
abbrev pub add_token : Text → Text → List (Text × List Text) → List (Text × List Text)
add_token seed token [] = (seed, token ∷ []) ∷ []
add_token seed token ((s, ts) ∷ rest) =
    let after = add_token seed token rest in
    if same_text s seed
    then (s, if contains token ts then ts else token ∷ ts) ∷ rest
    else (s, ts) ∷ after

abbrev pub remove_seed : Text → List (Text × List Text) → List (Text × List Text)
remove_seed seed [] = []
remove_seed seed ((s, ts) ∷ rest) =
    let after = remove_seed seed rest in if same_text s seed then after else (s, ts) ∷ after

-- "&expires=9999999999"
abbrev pub expires : Text
expires =
    38 ∷ 101 ∷ 120 ∷ 112 ∷ 105 ∷ 114 ∷ 101 ∷ 115 ∷ 61 ∷ 57 ∷ 57 ∷ 57 ∷ 57 ∷ 57 ∷ 57 ∷ 57 ∷ 57 ∷ 57
    ∷ 57 ∷ []

-- "{base}/signed/{seed}/{size}?token={token}&expires=9999999999"
abbrev pub signed_url : Text → Text → ℕ → Text → Text
signed_url base seed size token =
    base
    ++ (47
        ∷ 115
        ∷ 105
        ∷ 103
        ∷ 110
        ∷ 101
        ∷ 100
        ∷ 47
        ∷ (seed
            ++ 47
              ∷ (show_u64 size ++ (63 ∷ 116 ∷ 111 ∷ 107 ∷ 101 ∷ 110 ∷ 61 ∷ (token ++ expires)))))

-- The new address is the body.
unfoldable pub h_mint : AppState → (token : Text) → Text → Query → AppState × Text
h_mint st token seed q = (
  record st { signed = add_token seed token st.signed },
  signed_url st.base_url seed (or_number q.n 1048576) token,
)

unfoldable pub h_expire : AppState → Text → AppState × Reply
h_expire st seed = (record st { signed = remove_seed seed st.signed }, answer 200)

-- "/{seed}/{size}"
abbrev pub resource : Text → ℕ → Text
resource seed size = 47 ∷ (seed ++ 47 ∷ show_u64 size)

abbrev pub next_hop : ℕ → Text → ℕ → Text
next_hop hops seed size =
    if leb hops 1
    then 47 ∷ 112 ∷ 108 ∷ 97 ∷ 105 ∷ 110 ∷ resource seed size
    else 47
      ∷ 114
      ∷ 101
      ∷ 100
      ∷ 105
      ∷ 114
      ∷ 101
      ∷ 99
      ∷ 116
      ∷ 47
      ∷ (show_u64 (hops - 1) ++ resource seed size)

unfoldable pub h_redirect : ℕ → Text → ℕ → Reply
h_redirect hops seed size = record (answer 302) { location = some (next_hop hops seed size) }

abbrev pub counted_status : ℕ → AppState → AppState
counted_status code st =
    if code == 403 then counted_403 st else if code == 429 then counted_429 st else st

-- `StatusCode::from_u16` takes the numbers of three digits.
abbrev pub status_or_500 : ℕ → ℕ
status_or_500 code = if leb 100 code && ltb code 1000 then code else 500

unfoldable pub h_status : AppState → ℕ → Query → AppState × Reply
h_status st code q = (
  counted_status code st,
  record (answer (status_or_500 code)) {
    retry_after = if code == 429 || code == 503 then some (show_u64 (or_number q.n 1)) else none;
  },
)

pub record StatsSnapshot : Type 0 where
  pub counters : Stats
  pub peak_concurrent_streams : ℕ

abbrev pub snapshot : AppState → StatsSnapshot
snapshot st = record { counters = st.stats; peak_concurrent_streams = st.peak_streams }

unfoldable pub h_stats_reset : AppState → AppState × Reply
h_stats_reset st = (
  record st {
    stats = record st.stats {
      accepts = 0;
      requests = 0;
      bytes_served = 0;
      range_requests = 0;
      full_requests = 0;
      resets_injected = 0;
      status_403 = 0;
      status_429 = 0;
    };
    peak_streams = 0;
  },
  answer 200,
)
