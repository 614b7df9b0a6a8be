-- ===== src/Backoff.antt =====
-- crates/swiftload-core/src/util/backoff.rs: exponential backoff with full jitter. A duration is its
-- number of nanoseconds; the random number is a parameter.
pub mod Bounds
mod Examples
use ai_gen.Prelude.{
  ℕ, ◌+◌, ◌-◌, ◌*◌, ◌/◌, ◌%◌, ◌^◌, Bool, Option, none, some, ltb, leb, ◌==◌, if◌then◌else◌, min64,
  u64_mod, u64_max,
}

abbrev pub millis : ℕ
millis = 1000000

-- The longest `Duration`.
abbrev pub longest_duration : ℕ
longest_duration = u64_max * 1000000000 + 999999999

pub record Backoff : Type 0 where
  pub base : ℕ
  pub cap : ℕ
  pub max_attempts : ℕ

abbrev pub default : Backoff
default = record { base = 500 * millis; cap = 30000 * millis; max_attempts = 8 }

-- `1u32.checked_shl(shift).unwrap_or(u32::MAX)`
abbrev pub factor : ℕ → ℕ
factor shift = if ltb shift 32 then 2 ^ shift else 2 ^ 32 - 1

-- `Duration::checked_mul(…).unwrap_or(cap)`
abbrev pub mul_or : ℕ → ℕ → ℕ → ℕ
mul_or d k cap = if leb (d * k) longest_duration then d * k else cap

unfoldable pub ceiling_for : Backoff → ℕ → ℕ
ceiling_for b attempt = min64 (mul_or b.base (factor (min64 attempt 32)) b.cap) b.cap

-- `random` is `rand::random_range(0..=m)`.
unfoldable pub delay_for : (random : ℕ → ℕ) → Backoff → ℕ → ℕ
unfolding ceiling_for
delay_for random b attempt =
    let m = ceiling_for b attempt / millis % u64_mod in if m == 0 then 0 else random m * millis

abbrev pub exhausted : Backoff → ℕ → Bool
exhausted b attempt = leb b.max_attempts attempt
