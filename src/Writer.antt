-- ===== src/Writer.antt =====
-- crates/swiftload-core/src/task/writer.rs: the task that owns the file. What it does to the outside is
-- a log, the latest first: positional writes, syncs of the data, and checkpoints. `io n` tells whether
-- the effect behind a log of length `n` succeeds; one that fails leaves no entry.
pub mod Effects
pub mod Durable
pub mod Complete
mod Examples
use ai_gen.Prelude.{
  ℕ, suc, ◌+◌, ◌*◌, Bool, true, false, not, ◌&&◌, ◌||◌, Option, none, some, List, [], ◌∷◌, ◌++◌,
  ltb, leb, ◌==◌, if◌then◌else◌, length, add64,
}
use ai_gen.Config.{checkpoint_bytes}
use ai_gen.RangeSet.{RangeSet, insert, total}
use ai_gen.Worker.{Write}

abbrev pub max_coalesce : ℕ
max_coalesce = 1024 * 1024

pub data Effect : Type 0 where
  wrote : (offset : ℕ) → (bytes : List ℕ) → Effect
  synced : Effect
  checkpointed : (completed : RangeSet) → (size : ℕ) → Effect

pub record Writer : Type 0 where
  pub done : RangeSet
  pub since_checkpoint : ℕ
  pub pending : List Write
  pub pending_bytes : ℕ
  pub log : List Effect

-- `sort_unstable_by_key(offset)`
unfoldable pub insert_write : Write → List Write → List Write
insert_write w [] = w ∷ []
insert_write w (v ∷ vs) =
    let later = v ∷ insert_write w vs in if leb w.offset v.offset then w ∷ v ∷ vs else later

unfoldable pub sort_by_offset : List Write → List Write
unfolding insert_write
sort_by_offset [] = []
sort_by_offset (w ∷ ws) = insert_write w (sort_by_offset ws)

-- `write_at(…)?`, and what is recorded of it; the Boolean is whether it succeeded.
unfoldable pub write_out : (io : ℕ → Bool) → Writer → ℕ → List ℕ → Writer × Bool
write_out io w start buf =
    if io (length w.log)
    then (
      record w {
        done = insert w.done start (length buf);
        since_checkpoint = w.since_checkpoint + length buf;
        log = wrote start buf ∷ w.log;
      },
      true,
    )
    else (w, false)

-- `?` on a result that is a state and whether it succeeded.
abbrev pub and_then : Writer × Bool → (Writer → Writer × Bool) → Writer × Bool
and_then (w, true) f = f w
and_then (w, false) f = (w, false)

unfoldable pub flush_loop : (io : ℕ → Bool) → Writer → ℕ → List ℕ → List Write → Writer × Bool
unfolding write_out
flush_loop io w start [] [] = (w, true)
flush_loop io w start (b ∷ buf) [] = write_out io w start (b ∷ buf)
flush_loop io w start [] (c ∷ cs) = flush_loop io w c.offset c.bytes cs
flush_loop io w start (b ∷ buf) (c ∷ cs) =
    let merged = flush_loop io w start ((b ∷ buf) ++ c.bytes) cs in
    let apart =
      and_then (write_out io w start (b ∷ buf)) (λ w'. flush_loop io w' c.offset c.bytes cs) in
    if add64 start (length (b ∷ buf)) == c.offset
      && leb (length (b ∷ buf) + length c.bytes) max_coalesce
    then merged
    else apart

-- `flush_pending` by the chunks that are pending.
unfoldable pub flush_chunks : (io : ℕ → Bool) → Writer → List Write → Writer × Bool
unfolding flush_loop sort_by_offset
flush_chunks io w [] = (w, true)
flush_chunks io w (c ∷ cs) =
    and_then (flush_loop io (record w { pending = [] }) 0 [] (sort_by_offset (c ∷ cs)))
      (λ w'. (record w' { pending_bytes = 0 }, true))

abbrev pub flush_pending : (io : ℕ → Bool) → Writer → Writer × Bool
flush_pending io w = flush_chunks io w w.pending

-- Make the data durable, then record it.
unfoldable pub durable_checkpoint : (io : ℕ → Bool) → Writer → Writer × Bool
durable_checkpoint io w =
    let at_sync = record w { log = synced ∷ w.log } in
    let recorded = record w { log = checkpointed w.done (total w.done) ∷ synced ∷ w.log } in
    if not (io (length w.log))
    then (w, false)
    else if io (suc (length w.log))
    then (recorded, true)
    else (at_sync, false)

pub data WriteMsg : Type 0 where
  data_msg : Write → WriteMsg
  sync finish : WriteMsg

-- Whether the task runs on, and with what it returned.
pub data Status : Type 0 where
  running returned_ok returned_err : Status

-- `draining` is the inner loop that takes what else is queued.
pub record Run : Type 0 where
  pub writer : Writer
  pub draining : Bool
  pub status : Status

-- A message, whether it was in the queue when the inner loop asked for it, and whether the interval of
-- the checkpoints is over at the end of the round before it.
pub record Arrival : Type 0 where
  pub msg : WriteMsg
  pub ready : Bool
  pub interval_over : Bool

abbrev pub goes_on : Bool → Writer → Run
goes_on draining w = record { writer = w; draining = draining; status = running }

-- `?` of the main loop: an error ends the task.
abbrev pub or_return : Writer × Bool → (Writer → Run) → Run
or_return (w, true) f = f w
or_return (w, false) f = record { writer = w; draining = false; status = returned_err }

abbrev pub push : Writer → Write → Writer
push w c = record w {
  pending = w.pending ++ c ∷ [];
  pending_bytes = w.pending_bytes + length c.bytes;
}

abbrev pub reset : Writer → Writer
reset w = record w { since_checkpoint = 0 }

-- `handle_control` behind the flush; `next` is what the caller does when the task does not exit. The
-- result of the checkpoint goes to whoever asked.
unfoldable pub handle_control : (io : ℕ → Bool) → Writer → WriteMsg → (next : Writer → Run) → Run
unfolding durable_checkpoint
handle_control io w (data_msg c) next = next w
handle_control io w sync next = next (reset (durable_checkpoint io w).0)
handle_control io w finish next = record {
  writer = (durable_checkpoint io w).0;
  draining = false;
  status = returned_ok;
}

-- The end of a round with data: flush, and a checkpoint where one is due.
unfoldable pub end_round : (io : ℕ → Bool) → Bool → Writer → (next : Writer → Run) → Run
unfolding flush_chunks durable_checkpoint
end_round io interval_over w next = or_return (flush_pending io w) (λ w'.
    if leb checkpoint_bytes w'.since_checkpoint || interval_over
    then or_return (durable_checkpoint io w') (λ w''. next (reset w''))
    else next w')

-- The outer loop with the message that it received.
unfoldable pub on_received : (io : ℕ → Bool) → WriteMsg → Writer → Run
unfolding flush_chunks handle_control
on_received io (data_msg c) w = goes_on true (push w c)
on_received io m w = or_return (flush_pending io w) (λ w'. handle_control io w' m (goes_on false))

-- The inner loop with a message that is queued.
unfoldable pub on_queued : (io : ℕ → Bool) → Bool → WriteMsg → Writer → Run
unfolding flush_chunks handle_control end_round
on_queued io interval_over (data_msg c) w = goes_on true (push w c)
on_queued io interval_over m w =
    or_return (flush_pending io w)
      (λ w'. handle_control io w' m (λ w''. end_round io interval_over w'' (goes_on false)))

unfoldable pub step_running : (io : ℕ → Bool) → Arrival → Bool → Writer → Run
unfolding on_received on_queued end_round
step_running io a false w = on_received io a.msg w
step_running io a true w =
    if ltb w.pending_bytes max_coalesce && a.ready
    then on_queued io a.interval_over a.msg w
    else end_round io a.interval_over w (on_received io a.msg)

-- When all senders are gone.
unfoldable pub close : (io : ℕ → Bool) → Writer → Run
unfolding flush_chunks durable_checkpoint
close io w = or_return (flush_pending io w) (λ w'.
    or_return (durable_checkpoint io w')
      (λ w''. record { writer = w''; draining = false; status = returned_ok }))

abbrev pub is_running : Status → Bool
is_running running = true
is_running returned_ok = false
is_running returned_err = false

-- The messages in their order, and then the closing of the channel.
unfoldable pub run_loop : (io : ℕ → Bool) → (interval_over : Bool) → List Arrival → Run → Run
unfolding step_running end_round close
run_loop io interval_over [] r =
    if not (is_running r.status)
    then r
    else if r.draining
    then end_round io interval_over r.writer (close io)
    else close io r.writer
run_loop io interval_over (a ∷ later) r =
    let r' = run_loop io interval_over later (step_running io a r.draining r.writer) in
    if is_running r.status then r' else r

abbrev pub start : RangeSet → Writer
start initial = record {
  done = initial;
  since_checkpoint = 0;
  pending = [];
  pending_bytes = 0;
  log = [];
}

unfoldable pub run : (io : ℕ → Bool) → (interval_over : Bool) → List Arrival → RangeSet → Run
unfolding run_loop
run io interval_over later initial = run_loop io interval_over later (goes_on false (start initial))
