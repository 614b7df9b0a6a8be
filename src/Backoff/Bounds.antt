-- ===== src/Backoff/Bounds.antt =====
-- The window of the delays: it never passes the cap, it grows, and every delay lies in it.
use native.Mathlib.Nat.{pow-suc}
use ai_gen.Prelude.{
  ℕ, zero, suc, ◌*◌, ◌/◌, ◌%◌, ◌^◌, ◌≤◌, arith, leb, if◌then◌else◌, u64_mod, min64, dec_lt,
}
use ai_gen.Backoff.{Backoff, factor, ceiling_for, delay_for, millis, longest_duration}

pow_mono : (a b : ℕ) → a ≤ b → 2 ^ a ≤ 2 ^ b
pow_mono a zero h = ground arith
pow_mono a (suc b) h = elim (dec_lt b a) [
  | yes p ↦ ground arith
  | no q ↦ omega (arith, pow_mono a b (omega arith), pow-suc 2 b)
]

factor_mono : (a b : ℕ) → a ≤ b → factor a ≤ factor b
factor_mono a b h = ground (arith, pow_mono a b h, pow_mono a 31)

mul_mono : (c a b : ℕ) → a ≤ b → c * a ≤ c * b
mul_mono zero a b h = omega arith
mul_mono (suc c) a b h = omega (arith, mul_mono c a b h)

clip : ℕ → ℕ → ℕ
clip cap x = min64 (if leb x longest_duration then x else cap) cap

clip_mono : (cap x y : ℕ) → x ≤ y → clip cap x ≤ clip cap y
unfolding clip
clip_mono cap x y h = ground arith

-- A later attempt has no smaller window, and no window passes the cap.
pub ceiling_for_mono :
    (b : Backoff) (i j : ℕ)
    → i ≤ j
    → (ceiling_for b i ≤ ceiling_for b j) × (ceiling_for b j ≤ b.cap)
unfolding ceiling_for
ceiling_for_mono b i j h = (
  ground (
    arith,
    clip_mono b.cap (b.base * factor (min64 i 32)) (b.base * factor (min64 j 32)),
    mul_mono b.base (factor (min64 i 32)) (factor (min64 j 32)),
    factor_mono (min64 i 32) (min64 j 32),
  ),
  ground arith,
)

-- If the random number is in the range that was asked for, the delay is at most the ceiling.
pub delay_for_le :
    (random : ℕ → ℕ) (b : Backoff) (attempt : ℕ)
    → ((m : ℕ) → random m ≤ m)
    → delay_for random b attempt ≤ ceiling_for b attempt
unfolding delay_for
delay_for_le random b attempt fair = ground (arith, fair (ceiling_for b attempt / millis % u64_mod))
