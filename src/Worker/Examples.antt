-- ===== src/Worker/Examples.antt =====
-- A worker that fetches bytes 10 to 12 of a file of 20, at concrete replies.
use ai_gen.Prelude.{
  ℕ, ◌%◌, ◌≡◌, ◌≢◌, refl, sym, true, false, none, some, List, [], ◌∷◌, arith, Text,
}
use mathlib.Core.Path.{subst}
use ai_gen.Backoff.{default}
use ai_gen.Headers.{ContentRange, parse_content_range}
use ai_gen.Probe.{RangeSupport, supported}
use ai_gen.Plan.{ClaimSlot}
use ai_gen.Worker.{
  WorkerCtx, Response, Attempt, Round, chunk, stream_loop, stream_once, Try, fetch_claim, pending,
  streaming,
}
use ai_gen.Worker.Stream.{body, Good, stream_loop-Good}
use ai_gen.Worker.Faithful.{arrived, IsHonest, AllMatch, Matches, stream_once-AllMatch}
use ai_gen.Worker.Retry.{fetch_claim_returns, fetch_claim-AllMatch}

-- "bytes 10-12/20"
abbrev header : Text
header = 98 ∷ 121 ∷ 116 ∷ 101 ∷ 115 ∷ 32 ∷ 49 ∷ 48 ∷ 45 ∷ 49 ∷ 50 ∷ 47 ∷ 50 ∷ 48 ∷ []

abbrev range : ContentRange
range = record { start = 10; end = 12; total = some 20 }

header_parsed : parse_content_range header ≡ some range
unfolding parse_content_range
header_parsed = refl

abbrev ctx : RangeSupport → WorkerCtx
ctx s = record { nanos_until = λ v. none; range_support = s; total = some 20; backoff = default }

abbrev slot : ClaimSlot
slot = record { id = 0; cursor = 10; end = 13; active = true }

abbrev partial : Response
partial = record {
  status = 206;
  content_range = some header;
  retry_after = none;
  content_encoding = none;
}

abbrev whole : Response
whole = record partial { status = 200; content_range = none }

abbrev rounds : List Round
rounds = arrived (chunk (10 ∷ 11 ∷ [])) ∷ arrived (chunk (12 ∷ 13 ∷ [])) ∷ []

abbrev attempt : Attempt
attempt = record { reply = some partial; rounds = rounds; retiring = false }

abbrev lost : Attempt
lost = record { reply = none; rounds = []; retiring = false }

abbrev try : Attempt → Try
try a = record { cancelled = false; attempt = a; random = λ m. m; cancelled_waiting = false }

-- The file has n modulo 256 at n.
abbrev file : ℕ → ℕ
file n = n % 256

attempt-IsHonest : IsHonest file attempt
attempt-IsHonest r cr e f =
    let at : cr.start ≡ 10 = ground (arith, header_parsed) in
    subst (λ n. Matches file n (body rounds)) (sym at) (refl, (refl, (refl, (refl, tt))))

stream_loop-Good_example : Good true false slot (body rounds) (stream_loop true false rounds slot)
stream_loop-Good_example = stream_loop-Good true false rounds slot (omega arith)

stream_once-AllMatch_example : AllMatch file (stream_once (ctx supported) attempt slot).writes
stream_once-AllMatch_example =
    stream_once-AllMatch file (ctx supported) attempt slot refl (omega arith) attempt-IsHonest

lost-IsHonest : IsHonest file lost
lost-IsHonest r cr e f = tt

abbrev tries : List Try
tries = try lost ∷ try attempt ∷ []

fetch_claim-AllMatch_example : AllMatch file (fetch_claim (ctx supported) tries slot).writes
fetch_claim-AllMatch_example =
    fetch_claim-AllMatch file (ctx supported) tries slot refl (omega arith)
      (lost-IsHonest, (attempt-IsHonest, tt))

-- No retries are allowed.
abbrev strict : WorkerCtx
strict = record (ctx supported) { backoff = record default { max_attempts = 1 } }

abbrev refusals : List Try
refusals = try lost ∷ try lost ∷ []

lost_settles : (s : ClaimSlot) → (stream_once strict lost s).outcome ≢ streaming
unfolding stream_once
lost_settles s = ground arith

fetch_claim_returns_example : (fetch_claim strict refusals slot).result ≢ pending
fetch_claim_returns_example =
    fetch_claim_returns strict refusals slot (lost_settles, (lost_settles, tt)) (omega arith)
