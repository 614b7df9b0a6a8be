-- ===== src/RangeSet/Examples.antt =====
-- Runs of the `RangeSet` operations, and the theorems about them at concrete sets.
use ai_gen.Prelude.{ℕ, ◌≤◌, ◌<◌, ◌≡◌, ◌↔◌, refl, true, some, List, [], ◌∷◌, arith}
use ai_gen.Prelude.Result.{Result, ok, err}
use ai_gen.RangeSet.{
  Span, RangeSet, from_pairs, insert, contains_all, first_gap_at_or_after, gaps_in, remove,
  truncate_to, rewind_tails, total, end, new,
}
use ai_gen.RangeSet.Canonical.{covers}
use ai_gen.RangeSet.Refinement.{
  Op, add, take_away, cut, reload, apply_all, replay, Stands, apply_all-Stands,
}
use ai_gen.RangeSet.Contains.{contains_all_iff}
use ai_gen.RangeSet.Codec.{DecodeError, encode, decode}
use ai_gen.RangeSet.Codec.RoundTrip.{decode-encode}
use ai_gen.RangeSet.Codec.Decode.{Decoded, decode-Decoded}

abbrev span : ℕ → ℕ → Span
span s l = record { start = s; len = l }

abbrev two : RangeSet
two = span 0 100 ∷ span 200 100 ∷ []

insert_runs : insert two 90 120 ≡ span 0 300 ∷ []
unfolding insert
insert_runs = refl

from_pairs_runs :
    from_pairs (span 500 100 ∷ span 0 100 ∷ span 100 100 ∷ []) ≡ span 0 200 ∷ span 500 100 ∷ []
unfolding from_pairs new insert
from_pairs_runs = refl

totals : (total two ≡ 200) × (end two ≡ 300)
unfolding total end
totals = (refl, refl)

gaps_run : gaps_in two 50 400 ≡ span 100 100 ∷ span 300 100 ∷ []
unfolding gaps_in
gaps_run = refl

remove_runs : remove two 50 200 ≡ span 0 50 ∷ span 250 50 ∷ []
unfolding remove
remove_runs = refl

trims_run :
    (truncate_to two 250 ≡ span 0 100 ∷ span 200 50 ∷ [])
    × (rewind_tails two 10 ≡ span 0 90 ∷ span 200 90 ∷ [])
unfolding truncate_to rewind_tails
trims_run = (refl, refl)

first_gap_runs : first_gap_at_or_after two 50 ≡ some (100, some 200)
unfolding first_gap_at_or_after
first_gap_runs = refl

bytes_run : decode (encode two) ≡ some (ok two)
unfolding decode encode
bytes_run = refl

truncated_run : decode (0x80 ∷ []) ≡ some (err DecodeError.truncated)
unfolding decode
truncated_run = refl

contains_all_iff_example :
    (contains_all two 210 300 ≡ true) ↔ ((b : ℕ) → 210 ≤ b → b < 300 → covers two b ≡ true)
contains_all_iff_example = contains_all_iff two 210 300 (omega arith) (omega arith)

decode-encode_example : decode (encode two) ≡ some (ok two)
decode-encode_example = decode-encode two (omega arith)

decode-Decoded_example :
    (r : Result DecodeError RangeSet) × (decode (0 ∷ 5 ∷ 0 ∷ []) ≡ some r) × Decoded r
decode-Decoded_example = decode-Decoded (0 ∷ 5 ∷ 0 ∷ [])

abbrev history : List Op
history = take_away 50 200 ∷ reload ∷ add 40 30 ∷ cut 280 ∷ []

abbrev other_history : List Op
other_history = cut 280 ∷ take_away 60 190 ∷ add 40 30 ∷ take_away 70 1 ∷ []

history_runs : apply_all history two ≡ span 0 70 ∷ span 250 30 ∷ []
unfolding apply_all insert remove truncate_to encode decode
history_runs = refl

apply_all-Stands_example : Stands (apply_all history two) (replay history (covers two))
apply_all-Stands_example =
    apply_all-Stands history two (covers two) (omega arith, (tt, (omega arith, (tt, tt))))
      record { canonical = omega arith; same = λ b. refl }
