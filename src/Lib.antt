-- ===== src/Lib.antt =====
-- SwiftLoad, a download engine that splits a file into ranges, fetches them on several connections
-- and can resume after a crash. This library models the core crate, crates/swiftload-core, what the
-- commands of crates/swiftload-cli do to the database, and the server of crates/swiftload-testserver.
--
-- The parts, and how they interact. A `RangeSet` (crates/swiftload-core/src/util/intervals.rs) says
-- which bytes of the file are on disk; it is encoded into the database, and read back to resume. A
-- `Plan` (crates/swiftload-core/src/task/plan.rs) is built over the gaps of that set, and hands them
-- to the workers as claims; an idle worker steals the tail of the largest claim. A worker
-- (crates/swiftload-core/src/task/worker.rs) requests the range of its claim, checks the response,
-- streams the body to the writer at the claim's cursor, and retries by the class of an error
-- (crates/swiftload-core/src/http/errors.rs) and the backoff (crates/swiftload-core/src/util/backoff.rs).
-- The writer (crates/swiftload-core/src/task/writer.rs) coalesces what the workers send, writes it, and
-- checkpoints the set behind a sync. A replacement link is compared with what is known and with the
-- bytes on disk (crates/swiftload-core/src/task/identity.rs).
-- The store (crates/swiftload-core/src/store/mod.rs) keeps the encoded set of each download, and gives it
-- back to resume, cut at its tails after a crash. The download task
-- (crates/swiftload-core/src/task/mod.rs) probes the resource, decides what to believe of a checkpoint,
-- drives the workers, checks that the set that was written is the whole file, and publishes it. The
-- probe (crates/swiftload-core/src/task/probe.rs) follows redirects by the rules of
-- crates/swiftload-core/src/http/redirect.rs. The governor (crates/swiftload-core/src/task/governor.rs) is
-- given samples of the throughput and decides how many workers run. A download's name
-- (crates/swiftload-core/src/util/filename.rs) comes from the server, and is made safe before a file is
-- created.
-- The identity check fetches windows of a replacement link and compares them with the disk. The command
-- line (crates/swiftload-cli/src/main.rs) runs, resumes and relinks downloads over the store, whose
-- history of addresses is redacted (crates/swiftload-core/src/util/redact.rs). The test server
-- (crates/swiftload-testserver/src/lib.rs) serves content (crates/swiftload-testserver/src/content.rs) to
-- the workers.
--
-- Files:
--   Prelude, Prelude/*      shared names: tests, lists, u64 arithmetic, bit operations, `Result`, text
--   Config                  constants of crates/swiftload-core/src/config.rs
--   RangeSet                the operations of `RangeSet`, by the names of its methods
--   RangeSet/Canonical      the bytes that a set covers, and the canonical form of its spans
--   RangeSet/Insert, Extensional, Contains, Gaps, Trim
--                           theorems on insert, on equality of sets, on the queries, on what removes
--   RangeSet/Refinement     a series of operations against the same series on sets of numbers
--   RangeSet/Codec, Codec/* encode, decode and the varints they use
--   Plan, Plan/Pieces       the methods of `Plan` and `ClaimSlot`, and the lists of gaps they work on
--   Plan/Spans, Slots       which bytes a list of gaps, and a store of claims, hold
--   Plan/Owners, Invariant, History, Seed
--                           who owns a byte, the invariant of the plan, histories of it, seeding
--   Errors, Errors/Classes  crates/swiftload-core/src/http/errors.rs
--   Backoff, Backoff/Bounds crates/swiftload-core/src/util/backoff.rs
--   Headers, Headers/Consistent
--                           crates/swiftload-core/src/http/headers.rs
--   Probe                   what crates/swiftload-core/src/task/probe.rs learns about a resource
--   Worker                  `stream_once` and `fetch_claim` of worker.rs
--   Worker/Stream, Verify, Faithful, Retry
--                           what is written, which responses are accepted, whose bytes they are, and
--                           how often a claim is tried
--   Worker/Run              the loop `run` of a worker, over the plan's steps
--   Writer                  run, flush_pending, handle_control and durable_checkpoint of writer.rs
--   Writer/Effects, Durable what the log of the writer satisfies, step by step and over a run
--   Writer/Complete         that a flush writes all that is pending
--   Identity                compare, finalize, first_difference and choose_windows of identity.rs
--   Identity/Verdicts, Windows
--                           what a verdict rests on, and where the windows lie
--   Conns, Conns/Bounds     initial_conns and retire_down_to of crates/swiftload-core/src/task/mod.rs
--   Rate, Rate/Laws         the meter and the token bucket of crates/swiftload-core/src/util/rate.rs
--   Store, Store/Kept       the statements of crates/swiftload-core/src/store/mod.rs on a table of rows
--   Drive, Drive/Live       the events of `drive` of mod.rs, and how many workers it runs
--   Publish, Publish/Complete
--                           the checkpoint that is believed, the checks before a file is published
--   Redirect                next_url and is_cross_origin of crates/swiftload-core/src/http/redirect.rs
--   Probe/Follow, Follow/Requests
--                           the redirect loop of probe.rs, and the requests that it makes
--   Probe/Interpret, Interpret/Trust
--                           what is read of the last response, and what that rests on
--   Floats                  the operations on f64, as an interface
--   Governor                the methods of `Governor`
--   Governor/Bounds, Backing
--                           the bounds of the number of connections, and backing off
--   Filename                `sanitize` of filename.rs and what it calls
--   Filename/Chars, Measured, Safe
--                           which characters, which length, and what a sanitized name is
--   Filename/Header, Header/*
--                           parse_content_disposition and split_header_params
--   Filename/Resolve, Resolve/Laws
--                           resolve and extension_for_mime
--   Filename/Destination, Destination/*
--                           resolve_destination and dedupe
--   Worker/Request          the header `Range` of a worker's request
--   Headers/Printed         a `Content-Range` that is printed and read
--   Identity/Refresh        validate_replacement_url of identity.rs
--   Identity/Refresh/Budget, Matched
--                           how many windows there are, and what has been compared
--   Store/Records, History  the records of a download, its statements, and the other tables
--   Store/Inserted, Numbered
--                           what is read of an inserted record, and the numbers of a history
--   Redact, Redact/Secrets  redact and host_of, and what a redacted address can tell
--   Cli                     the commands, by the names of their functions, on the database
--   Cli/Runs, Refreshed     what a run leaves behind, and when an address is replaced
--   Content, Content/Filled the content of the test server, and `fill` against `byte_at`
--   Server, Server/Body, Routes
--                           `serve`, `body_stream` and the handlers of the test server
--   Server/Ranges, Streamed the ranges that it reads, and the bytes of its bodies
--   Server/Accepted, Fetched, Links
--                           what a worker makes of its replies, and writes of its bodies, and the life
--                           of a signed link
--   */Examples              runs at concrete inputs
--
-- Integers. A u64 is a native number; `add64` and `sub64` wrap as a release build does, and the
-- theorems name the bound below 2 ^ 64 that they need. The bit operations are those of the language,
-- related to arithmetic in Prelude/Bits. A duration is a number of nanoseconds, a text the list of its
-- bytes.
--
-- Loops. `decode` runs on fuel, as many rounds as there are bytes; a result is proved to come out. The
-- loop of `seed` runs `n` rounds at most, since each makes the list longer by one. `put_varint`
-- recurses on a number that falls. The loops of a worker go over the turns, rounds and tries that its
-- surroundings provide: what the network, the writer and the other tasks do is a list. They end in
-- `streaming` and `pending` when that list is used up. The body of the test server is read as often as
-- it is polled; a poll more than it has bytes is enough. `drive` goes over a list of events, a probe over
-- the redirects that are allowed, and `dedupe` over the numbers that it tries. The others are
-- structural.
--
-- Shared objects. The `Arc<ClaimSlot>`s that plan and workers share are slots of a store, with a
-- number for the pointer; the mutex of the plan makes each method one step, and a history is a list
-- of such steps in any order. A worker's own claim is a slot that a round may shrink, as a steal does.
--
-- Not modelled: the network, the file system, the engine of the database, the parsing of arguments and
-- what is printed, the delays of the test server, and the benchmarks, which call libraries. Metrics and
-- states for display are left out. What the program asks of the url crate, of a percent decoder, of the
-- HTTP client and of floating-point numbers is a parameter, with no law assumed but for redaction, where
-- `Documented` says what the url crate does; a panic of such a call (a duration from a negative number)
-- is outside the model.
pub mod Prelude
pub mod Config
pub mod Content
pub mod Server
pub mod Errors
pub mod Backoff
pub mod Headers
pub mod RangeSet
pub mod Plan
pub mod Probe
pub mod Redirect
pub mod Redact
pub mod Cli
pub mod Worker
pub mod Writer
pub mod Identity
pub mod Conns
pub mod Floats
pub mod Governor
pub mod Drive
pub mod Publish
pub mod Store
pub mod Rate
pub mod Filename
