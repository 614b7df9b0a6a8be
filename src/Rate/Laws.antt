-- ===== src/Rate/Laws.antt =====
-- crates/swiftload-core/src/util/rate.rs: the totals and the peak of a meter, and what a bucket grants.
use ai_gen.Prelude.{
  ℕ, ◌+◌, ◌≤◌, ◌≡◌, refl, ◌∙◌, some, List, [], ◌∷◌, arith, leb, max64, add64, saturating_sub, IsU64,
  if_both, option_all, add64_lem,
}
use ai_gen.Floats.{Floats}
use ai_gen.Rate.{
  Smooth, SpeedMeter, smoothed, window_peak, peak_window, record_bytes, TokenBucket, refilled,
  take_tokens,
}

-- The bytes of a series of records.
abbrev pub sum_of : List (ℕ × ℕ) → ℕ
sum_of [] = 0
sum_of ((bytes, now) ∷ rest) = bytes + sum_of rest

-- A meter with this total and a peak that is at least `p`.
pub record Counts {F : Type 0} (t p : ℕ) (m : SpeedMeter F) : Type 0 where
  pub total : m.total_bytes ≡ t
  pub peak : p ≤ m.peak_bps

module _ {F : Type 0} ⦃R : Floats F⦄ ⦃S : Smooth F⦄ where
  window_peak_le :
      (m : SpeedMeter F) (bytes start now : ℕ) → m.peak_bps ≤ window_peak m bytes start now
  window_peak_le m bytes start now =
      let elapsed = R.as_secs (saturating_sub now start) in
      if_both (λ v. m.peak_bps ≤ v) (R.lt (R.thousandths 0) elapsed)
        (max64 m.peak_bps (R.to_nat (R.div (R.of_nat bytes) elapsed))) m.peak_bps (ground arith)
        (ground arith)

  record_bytes-Counts :
      (m : SpeedMeter F) (bytes now : ℕ)
      → Counts (add64 m.total_bytes bytes) m.peak_bps (record_bytes m bytes now)
  unfolding record_bytes
  record_bytes-Counts m bytes now =
      let window_bytes = add64 m.window_bytes bytes in
      let counted : SpeedMeter F = record m {
        total_bytes = add64 m.total_bytes bytes;
        window_bytes = window_bytes;
        ewma_bps = smoothed m bytes now;
        last_update = some now;
      } in
      option_all (Counts (add64 m.total_bytes bytes) m.peak_bps)
        (record counted { window_start = some now }) _ m.window_start
        (record { total = refl; peak = ground arith })
        (λ start.
          if_both (Counts (add64 m.total_bytes bytes) m.peak_bps)
            (leb peak_window (saturating_sub now start))
            (record counted {
              peak_bps = window_peak m window_bytes start now;
              window_start = some now;
              window_bytes = 0;
            })
            counted (record { total = refl; peak = window_peak_le m window_bytes start now })
            (record { total = refl; peak = ground arith }))

  unfoldable pub record_all : SpeedMeter F → List (ℕ × ℕ) → SpeedMeter F
  record_all m [] = m
  record_all m ((bytes, now) ∷ rest) = record_all (record_bytes m bytes now) rest

  -- Over any series of records that fits u64 the total is the sum of the bytes, and the peak never falls.
  pub record_all-Counts :
      (m : SpeedMeter F) (events : List (ℕ × ℕ))
      → IsU64 (m.total_bytes + sum_of events)
      → Counts (m.total_bytes + sum_of events) m.peak_bps (record_all m events)
  unfolding record_all
  record_all-Counts m [] h = record { total = ground arith; peak = ground arith }
  record_all-Counts m ((bytes, now) ∷ rest) h =
      let one = record_bytes-Counts m bytes now in
      let total : (record_bytes m bytes now).total_bytes ≡ m.total_bytes + bytes =
        one.total ∙ add64_lem m.total_bytes bytes (ground arith) in
      let later = record_all-Counts (record_bytes m bytes now) rest (ground (arith, total)) in
      record {
        total = ground (arith, later.total, total);
        peak = ground (arith, later.peak, one.peak);
      }

  -- A bucket grants no more than is wanted, and no more whole bytes than it holds then.
  pub take_tokens_le :
      (b : TokenBucket F) (want now : ℕ)
      → ((take_tokens b want now).1 ≤ want)
        × ((take_tokens b want now).1 ≤ R.to_nat (refilled b now))
  unfolding take_tokens
  take_tokens_le b want now = (ground arith, ground arith)
