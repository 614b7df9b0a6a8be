-- ===== src/Writer/Examples.antt =====
-- A run of the writer: three chunks, a sync and the end.
use ai_gen.Prelude.{ℕ, ◌≡◌, ◌||◌, refl, true, false, List, [], ◌∷◌, arith}
use ai_gen.RangeSet.{insert, total}
use ai_gen.RangeSet.Canonical.{covers, IsCanonical}
use ai_gen.Writer.{
  Writer, flush_pending, flush_chunks, sort_by_offset, wrote, synced, checkpointed, WriteMsg,
  data_msg, finish, Arrival, run, sort_by_offset,
}
use ai_gen.Writer.Complete.{has, flush_pending_complete}

abbrev queued : WriteMsg → Arrival
queued m = record { msg = m; ready = true; interval_over = false }

abbrev data_at : ℕ → List ℕ → Arrival
data_at offset bytes = queued (data_msg (record { offset = offset; bytes = bytes }))

-- The second chunk comes before the first one in the file.
abbrev arrivals : List Arrival
arrivals =
    data_at 2 (12 ∷ 13 ∷ []) ∷ data_at 0 (10 ∷ 11 ∷ []) ∷ data_at 7 (17 ∷ []) ∷ queued finish ∷ []

merged :
    (run (λ n. true) false arrivals []).writer.log
    ≡ checkpointed (record { start = 0; len = 4 } ∷ record { start = 7; len = 1 } ∷ []) 5
      ∷ synced
      ∷ wrote 7 (17 ∷ [])
      ∷ wrote 0 (10 ∷ 11 ∷ 12 ∷ 13 ∷ [])
      ∷ []
unfolding run insert total sort_by_offset
merged = refl

-- Two chunks that touch, in the wrong order.
abbrev waiting : Writer
waiting = record {
  done = [];
  since_checkpoint = 0;
  pending =
      record { offset = 2; bytes = 12 ∷ 13 ∷ [] }
      ∷ record { offset = 0; bytes = 10 ∷ 11 ∷ [] }
      ∷ [];
  pending_bytes = 4;
  log = [];
}

flushes : (flush_pending (λ n. true) waiting).1 ≡ true
unfolding flush_chunks sort_by_offset
flushes = refl

flush_pending_complete_example :
    IsCanonical (flush_pending (λ n. true) waiting).0.done
    × ((b : ℕ)
        → covers (flush_pending (λ n. true) waiting).0.done b
          ≡ (covers waiting.done b || has waiting.pending b))
flush_pending_complete_example =
    flush_pending_complete (λ n. true) waiting (omega arith, (omega arith, tt)) tt flushes
