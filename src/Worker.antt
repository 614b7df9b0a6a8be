-- ===== src/Worker.antt =====
-- crates/swiftload-core/src/task/worker.rs: one worker that fetches claims. What the network, the
-- writer and the other tasks do is input: a response, the rounds of the read loop, the tries of the
-- retry loop. A worker's calls into the writer are the list of its writes.
pub mod Stream
pub mod Verify
pub mod Faithful
pub mod Retry
pub mod Run
pub mod Request
mod Examples
use ai_gen.Prelude.{
  ℕ, suc, ◌+◌, ◌-◌, ◌*◌, Bool, true, false, not, ◌&&◌, Option, none, some, List, [], ◌∷◌, ◌++◌, ltb,
  leb, ◌==◌, if◌then◌else◌, length, take, add64, sub64, min64, Text,
}
use ai_gen.Prelude.Result.{Result, ok, err}
use ai_gen.Errors.{ErrorClass, rate_limited, classify_status, is_retryable}
use ai_gen.Backoff.{Backoff, delay_for}
use ai_gen.Backoff
use ai_gen.Headers.{
  ContentRange, bind, parse_content_range, parse_retry_after, is_transforming_encoding,
}
use ai_gen.Probe.{RangeSupport, is_supported}
use ai_gen.Plan.{ClaimSlot, is_done}

-- `nanos_until` reads an HTTP date.
pub record WorkerCtx : Type 0 where
  pub nanos_until : Text → Option ℕ
  pub range_support : RangeSupport
  pub total : Option ℕ
  pub backoff : Backoff

-- The status, and the headers that are present as text.
pub record Response : Type 0 where
  pub status : ℕ
  pub content_range : Option Text
  pub retry_after : Option Text
  pub content_encoding : Option Text

-- Both totals are known, and differ.
abbrev pub total_differs : Option ℕ → Option ℕ → Bool
total_differs (some a) (some b) = not (a == b)
total_differs (some a) none = false
total_differs none t = false

abbrev pub check_range : Option ℕ → ℕ → Option ContentRange → Option ErrorClass
check_range total start none = some ErrorClass.range_lied
check_range total start (some cr) =
    if not (cr.start == start)
    then some ErrorClass.range_lied
    else if total_differs cr.total total
    then some ErrorClass.resource_changed
    else none

-- The checks under `if use_range`.
abbrev pub check_partial : WorkerCtx → ℕ → Response → Option ErrorClass
check_partial ctx start r =
    if not (r.status == 206)
    then some (if start == 0 then ErrorClass.range_unsupported else ErrorClass.range_lied)
    else check_range ctx.total start (bind r.content_range parse_content_range)

abbrev pub is_encoded : Option Text → Bool
is_encoded none = false
is_encoded (some v) = is_transforming_encoding v

abbrev pub retry_cap : ℕ
retry_cap = 120 * 1000000000

-- What `stream_once` does with the response before it reads the body: the error that it returns.
unfoldable pub check_response : WorkerCtx → ℕ → Response → Option ErrorClass
check_response ctx start r =
    let retry_after = bind r.retry_after (λ v. parse_retry_after ctx.nanos_until v retry_cap) in
    let encoded =
      if is_encoded r.content_encoding then some ErrorClass.range_unsupported else none in
    if not (leb 200 r.status && ltb r.status 300)
    then some (classify_status r.status retry_after true)
    else if is_supported ctx.range_support
    then (elim (check_partial ctx start r) [ some e ↦ some e | none ↦ encoded ])
    else encoded

pub record Write : Type 0 where
  pub offset : ℕ
  pub bytes : List ℕ

-- What `resp.chunk()` under the idle timeout gives.
pub data ChunkEvent : Type 0 where
  elapsed broken body_end : ChunkEvent
  chunk : List ℕ → ChunkEvent

-- One round of the read loop: whether the download is cancelled, how many bytes a steal took off the
-- end of the claim meanwhile, what arrived, and whether the writer still runs.
pub record Round : Type 0 where
  pub cancelled : Bool
  pub stolen : ℕ
  pub event : ChunkEvent
  pub writer_up : Bool

-- `streaming` when the rounds are used up.
pub data Outcome : Type 0 where
  streaming ended : Outcome
  failed : ErrorClass → Outcome

pub record Streamed : Type 0 where
  pub writes : List Write
  pub slot : ClaimSlot
  pub outcome : Outcome

abbrev pub stolen_from : ℕ → ClaimSlot → ClaimSlot
stolen_from n s = record s { end = s.end - n }

abbrev pub advanced : ClaimSlot → ℕ → ClaimSlot
advanced s n = record s { cursor = add64 s.cursor n }

abbrev pub stop : ClaimSlot → Outcome → Streamed
stop s o = record { writes = []; slot = s; outcome = o }

-- Behind the loop: a ranged body that ended early is an error, but for a worker that retires.
abbrev pub body_over : Bool → Bool → ClaimSlot → Streamed
body_over ranged retiring s = stop s (
    if ranged && (ltb s.cursor s.end && not retiring)
    then failed ErrorClass.transient_network
    else ended)

abbrev pub then_write : Write → Streamed → Streamed
then_write w s = record s { writes = w ∷ s.writes }

-- The bytes of a chunk that the claim has room for.
abbrev pub room : ClaimSlot → List ℕ → ℕ
room s bytes = min64 (sub64 s.end s.cursor) (length bytes)

abbrev pub write_of : ClaimSlot → List ℕ → Write
write_of s bytes = record { offset = s.cursor; bytes = take (room s bytes) bytes }

-- A chunk with the claim as it stands when it arrived; `rest` is the remaining rounds.
unfoldable pub on_chunk :
    Bool → Bool → Bool → ClaimSlot → List ℕ → (rest : ClaimSlot → Streamed) → Streamed
on_chunk ranged retiring writer_up s bytes rest =
    let s' = advanced s (room s bytes) in
    let more = rest s' in
    if leb s.end s.cursor
    then body_over ranged retiring s
    else if not writer_up
    then stop s (failed ErrorClass.local_fatal)
    else then_write (write_of s bytes)
        (if ltb (room s bytes) (length bytes) then body_over ranged retiring s' else more)

unfoldable pub stream_loop : Bool → Bool → List Round → ClaimSlot → Streamed
unfolding on_chunk
stream_loop ranged retiring [] s = stop s streaming
stream_loop ranged retiring (r ∷ rs) s =
    let s' = stolen_from r.stolen s in
    if r.cancelled then stop s (failed ErrorClass.transient_network) else elim r.event [
      | elapsed ↦ stop s' (failed ErrorClass.transient_network)
      | broken ↦ stop s' (failed ErrorClass.transient_network)
      | body_end ↦ body_over ranged retiring s'
      | chunk bytes ↦ on_chunk ranged retiring r.writer_up s' bytes (stream_loop ranged retiring rs)
    ]

-- What one call of `stream_once` meets: the reply, if there is one, the rounds of its read loop, and
-- whether the worker is told to retire by the end of it.
pub record Attempt : Type 0 where
  pub reply : Option Response
  pub rounds : List Round
  pub retiring : Bool

unfoldable pub stream_once : WorkerCtx → Attempt → ClaimSlot → Streamed
unfolding stream_loop check_response
stream_once ctx a s = if leb s.end s.cursor then stop s ended else elim a.reply [
  | none ↦ stop s (failed ErrorClass.transient_network)
  | some resp ↦ elim (check_response ctx s.cursor resp) [
    | some e ↦ stop s (failed e)
    | none ↦ stream_loop (is_supported ctx.range_support) a.retiring a.rounds s
  ]
]

pub data WorkerExit : Type 0 where
  exhausted retired cancelled : WorkerExit
  failed : ErrorClass → WorkerExit

-- One round of the retry loop: whether the download is cancelled at its start, the attempt, the
-- random number of the delay, and whether the download is cancelled during the delay.
pub record Try : Type 0 where
  pub cancelled : Bool
  pub attempt : Attempt
  pub random : ℕ → ℕ
  pub cancelled_waiting : Bool

-- `pending` when the tries, or the rounds of one, are used up.
pub data FetchResult : Type 0 where
  pending done : FetchResult
  stopped : WorkerExit → FetchResult

-- `waits` has the delays that the worker slept, and `errors` what it added to the shared counter.
pub record Fetched : Type 0 where
  pub writes : List Write
  pub slot : ClaimSlot
  pub waits : List ℕ
  pub errors : ℕ
  pub result : FetchResult

abbrev pub settled : List Write → ClaimSlot → ℕ → FetchResult → Fetched
settled ws s n r = record { writes = ws; slot = s; waits = []; errors = n; result = r }

abbrev pub wait_for : WorkerCtx → (ℕ → ℕ) → ℕ → ErrorClass → ℕ
wait_for ctx random attempt (rate_limited (some d)) = d
wait_for ctx random attempt _ = delay_for random ctx.backoff attempt

abbrev pub slept : List Write → ℕ → Fetched → Fetched
slept ws wait f = record f {
  writes = ws ++ f.writes;
  waits = wait ∷ f.waits;
  errors = suc f.errors;
}

-- The error arm of the retry loop; `again` is the next round.
unfoldable pub on_error : WorkerCtx → Try → ℕ → Streamed → ErrorClass → (again : Fetched) → Fetched
on_error ctx t attempt got class again =
    if not (is_retryable class)
    then settled got.writes got.slot 1 (stopped (failed class))
    else if Backoff.exhausted ctx.backoff attempt
    then settled got.writes got.slot 1 (stopped (failed class))
    else slept got.writes (wait_for ctx t.random attempt class)
        (if t.cancelled_waiting then settled [] got.slot 0 (stopped cancelled) else again)

abbrev pub on_outcome : WorkerCtx → Try → ℕ → Streamed → (again : Fetched) → Outcome → Fetched
on_outcome ctx t attempt got again streaming = settled got.writes got.slot 0 pending
on_outcome ctx t attempt got again ended = settled got.writes got.slot 0 done
on_outcome ctx t attempt got again (failed class) = on_error ctx t attempt got class again

-- One round of the retry loop, where `got` is what `stream_once` returns.
abbrev pub on_try : WorkerCtx → Try → ℕ → ClaimSlot → (got : Streamed) → (again : Fetched) → Fetched
on_try ctx t attempt s got again =
    if is_done s
    then settled [] s 0 done
    else if t.cancelled
    then settled [] s 0 (stopped cancelled)
    else on_outcome ctx t attempt got again got.outcome

unfoldable pub fetch_loop : WorkerCtx → ℕ → List Try → ClaimSlot → Fetched
unfolding on_error stream_once
fetch_loop ctx attempt [] s = settled [] s 0 pending
fetch_loop ctx attempt (t ∷ ts) s =
    let got = stream_once ctx t.attempt s in
    on_try ctx t attempt s got (fetch_loop ctx (suc attempt) ts got.slot)

unfoldable pub fetch_claim : WorkerCtx → List Try → ClaimSlot → Fetched
unfolding fetch_loop
fetch_claim ctx tries s = fetch_loop ctx 0 tries s
