-- ===== src/Rate.antt =====
-- crates/swiftload-core/src/util/rate.rs: throughput as it is shown, and a token bucket. The operations on
-- f64 are an interface, with those that only this file uses.
pub mod Laws
mod Examples
use ai_gen.Prelude.{
  ℕ, ◌+◌, ◌*◌, Bool, true, false, not, ◌&&◌, Option, none, some, leb, ltb, ◌==◌, if◌then◌else◌,
  min64, max64, add64, saturating_sub,
}
use ai_gen.Floats.{Floats}

-- `exp` of what is not positive, `+`, `*` and negation.
pub record Smooth (F : Type 0) : Type 0 where
  pub plus : F → F → F
  pub times : F → F → F
  pub neg : F → F
  pub exp : F → F

abbrev pub ewma_window : ℕ
ewma_window = 3 * 1000000000

abbrev pub peak_window : ℕ
peak_window = 1000000000

pub record SpeedMeter (F : Type 0) : Type 0 where
  pub ewma_bps : F
  pub last_update : Option ℕ
  pub window_start : Option ℕ
  pub window_bytes : ℕ
  pub peak_bps : ℕ
  pub total_bytes : ℕ

unfoldable pub new_meter : {F : Type 0} ⦃R : Floats F⦄ → SpeedMeter F
new_meter ⦃R⦄ = record {
  ewma_bps = R.thousandths 0;
  last_update = none;
  window_start = none;
  window_bytes = 0;
  peak_bps = 0;
  total_bytes = 0;
}

module _ {F : Type 0} ⦃R : Floats F⦄ ⦃S : Smooth F⦄ where
  -- `1.0 - (-dt / EWMA_WINDOW).exp()`
  abbrev pub alpha : F → F
  alpha dt = R.sub (R.thousandths 1000) (S.exp (R.div (S.neg dt) (R.as_secs ewma_window)))

  -- The average moved towards a rate.
  abbrev pub moved : F → F → F → F
  moved ewma dt rate = S.plus ewma (S.times (alpha dt) (R.sub rate ewma))

  unfoldable pub smoothed : SpeedMeter F → ℕ → (now : ℕ) → F
  smoothed m bytes now = elim m.last_update [
    | none ↦ m.ewma_bps
    | some last ↦
        let dt = R.as_secs (saturating_sub now last) in
        if R.lt (R.thousandths 0) dt
        then moved m.ewma_bps dt (R.div (R.of_nat bytes) dt)
        else m.ewma_bps
  ]

  -- The end of a window that began at `start`.
  abbrev pub window_peak : SpeedMeter F → (bytes start now : ℕ) → ℕ
  window_peak m bytes start now =
      let elapsed = R.as_secs (saturating_sub now start) in
      if R.lt (R.thousandths 0) elapsed
      then max64 m.peak_bps (R.to_nat (R.div (R.of_nat bytes) elapsed))
      else m.peak_bps

  unfoldable pub record_bytes : SpeedMeter F → ℕ → (now : ℕ) → SpeedMeter F
  unfolding smoothed
  record_bytes m bytes now =
      let window_bytes = add64 m.window_bytes bytes in
      let counted = record m {
        total_bytes = add64 m.total_bytes bytes;
        window_bytes = window_bytes;
        ewma_bps = smoothed m bytes now;
        last_update = some now;
      } in
      elim m.window_start [
        | none ↦ record counted { window_start = some now }
        | some start ↦
            if leb peak_window (saturating_sub now start)
            then record counted {
              peak_bps = window_peak m window_bytes start now;
              window_start = some now;
              window_bytes = 0;
            }
            else counted
      ]

  unfoldable pub tick : SpeedMeter F → (now : ℕ) → SpeedMeter F
  tick m now = elim m.last_update [
    | none ↦ m
    | some last ↦
        let dt = R.as_secs (saturating_sub now last) in
        if R.lt (R.thousandths 0) dt
        then record m { ewma_bps = moved m.ewma_bps dt (R.thousandths 0); last_update = some now }
        else m
  ]

  unfoldable pub current_bps : SpeedMeter F → ℕ
  current_bps m =
      R.to_nat (if R.lt (R.thousandths 0) m.ewma_bps then m.ewma_bps else R.thousandths 0)

  unfoldable pub average_bps : SpeedMeter F → (active : ℕ) → ℕ
  average_bps m active =
      if R.le (R.as_secs active) (R.thousandths 0)
      then 0
      else R.to_nat (R.div (R.of_nat m.total_bytes) (R.as_secs active))

  unfoldable pub eta : SpeedMeter F → (remaining : ℕ) → Option ℕ
  unfolding current_bps
  eta m remaining =
      let bps = current_bps m in
      if bps == 0 then none else some (R.from_secs (R.div (R.of_nat remaining) (R.of_nat bps)))

pub record TokenBucket (F : Type 0) : Type 0 where
  pub capacity : ℕ
  pub tokens : F
  pub refill_per_sec : ℕ
  pub last : Option ℕ

module _ {F : Type 0} ⦃R : Floats F⦄ ⦃S : Smooth F⦄ where
  unfoldable pub new_bucket : ℕ → TokenBucket F
  new_bucket bytes_per_sec = record {
    capacity = max64 bytes_per_sec 1;
    tokens = R.of_nat bytes_per_sec;
    refill_per_sec = bytes_per_sec;
    last = none;
  }

  -- The tokens at `now`, no more than the bucket holds.
  unfoldable pub refilled : TokenBucket F → (now : ℕ) → F
  refilled b now = elim b.last [
    | none ↦ b.tokens
    | some last ↦
        let dt = R.as_secs (saturating_sub now last) in
        let more = S.plus b.tokens (S.times dt (R.of_nat b.refill_per_sec)) in
        if R.le more (R.of_nat b.capacity) then more else R.of_nat b.capacity
  ]

  -- `take`, with what it grants.
  unfoldable pub take_tokens : TokenBucket F → (want now : ℕ) → TokenBucket F × ℕ
  unfolding refilled
  take_tokens b want now =
      let tokens = refilled b now in
      let granted = min64 want (R.to_nat tokens) in
      (record b { tokens = R.sub tokens (R.of_nat granted); last = some now }, granted)
