-- ===== src/Server/Examples.antt =====
-- The test server with a file of 20 bytes, and a worker that fetches bytes 10 to 12 of it.
use ai_gen.Prelude.Decimal.{show_u64}
use ai_gen.Prelude.{List, ℕ, ◌≡◌, refl, true, false, none, some, [], ◌∷◌, arith, if◌then◌else◌}
use ai_gen.Backoff.{default}
use ai_gen.Plan.{ClaimSlot}
use ai_gen.Probe.{supported}
use ai_gen.Content.{byte_at}
use ai_gen.Server.Fetched.{Exchange, exchange-AllMatch}
use ai_gen.Worker.Faithful.{AllMatch, arrived}
use ai_gen.Worker.Request.{range_header}
use ai_gen.Worker.{Attempt, chunk, body_end, stream_once, WorkerCtx}
use ai_gen.Server.{serve, AppState, Stats, Scenario, Query, plain, answer}
use ai_gen.Server.Body.{body_stream}
use ai_gen.Server.Streamed.{Follows, body_stream-Follows}
use ai_gen.Server.Accepted.{Asks, reply, seen}
use ai_gen.Server.Routes.{h_signed, h_plain, counted_403}
use ai_gen.Server.Links.{minted, expired, perform_all, is_live, h_signed-is_live}

abbrev no_stats : Stats
no_stats = record {
  accepts = 0;
  open_conns = 0;
  requests = 0;
  bytes_served = 0;
  range_requests = 0;
  full_requests = 0;
  resets_injected = 0;
  status_403 = 0;
  status_429 = 0;
}

abbrev fresh : AppState
fresh = record {
  stats = no_stats;
  signed = [];
  live_streams = 0;
  peak_streams = 0;
  etag_tick = 0;
  base_url = [];
}

abbrev scenario : Scenario
scenario = plain 7 20

abbrev ctx : WorkerCtx
ctx = record {
  nanos_until = λ v. none;
  range_support = supported;
  total = some 20;
  backoff = default;
}

abbrev slot : ClaimSlot
slot = record { id = 0; cursor = 10; end = 13; active = true }

asks : Asks ctx scenario fresh slot
asks = record {
  ranged = refl;
  started = omega arith;
  inside = omega arith;
  sized = omega arith;
  same_total = refl;
  room = refl;
}

-- The body breaks after its first chunk.
abbrev flaky : Scenario
flaky = record scenario { size = 100000; reset_at = some 10 }

body_stream-Follows_example : Follows flaky 10 90000 0 (body_stream 90001 fresh flaky 10 90000)
body_stream-Follows_example =
    body_stream-Follows flaky 10 90000 90001 fresh (omega arith) (omega arith)

abbrev query : Query
query = record { reset_at = none; token = some (107 ∷ []); n = none; name = none; stall = none }

-- The link of another seed expires.
h_signed-is_live_example :
    h_signed
      (perform_all (minted (97 ∷ []) (107 ∷ []) query ∷ expired (98 ∷ []) ∷ []) fresh)
      (97 ∷ [])
      20
      query
      none
    ≡ (if is_live
          (107 ∷ [])
          (97 ∷ [])
          (minted (97 ∷ []) (107 ∷ []) query ∷ expired (98 ∷ []) ∷ [])
          false
        then h_plain
            (perform_all (minted (97 ∷ []) (107 ∷ []) query ∷ expired (98 ∷ []) ∷ []) fresh)
            (97 ∷ [])
            20
            query
            none
        else (
          counted_403
              (perform_all (minted (97 ∷ []) (107 ∷ []) query ∷ expired (98 ∷ []) ∷ []) fresh),
          answer 403,
        ))
h_signed-is_live_example =
    h_signed-is_live (minted (97 ∷ []) (107 ∷ []) query ∷ expired (98 ∷ []) ∷ []) fresh (107 ∷ [])
      (97 ∷ []) 20 query none refl refl

-- The whole body arrives in one chunk.
abbrev sent : List ℕ
unfolding body_stream
sent = (body_stream 4 fresh scenario 10 3).bytes

abbrev attempt : Attempt
unfolding body_stream serve range_header
attempt = record {
  reply = some (seen (reply ctx scenario fresh slot));
  rounds = arrived (chunk sent) ∷ arrived body_end ∷ [];
  retiring = false;
}

exchange : Exchange ctx scenario fresh fresh slot attempt 4 []
unfolding body_stream serve range_header show_u64
exchange = record {
  asks = asks;
  answered = refl;
  start = 10;
  len = 3;
  streamed = refl;
  arrives = refl;
  polled = omega arith;
  sized = omega arith;
}

exchange-AllMatch_example : AllMatch (byte_at 7) (stream_once ctx attempt slot).writes
exchange-AllMatch_example =
    exchange-AllMatch ctx scenario fresh fresh slot attempt 4 [] (omega arith) exchange
