-- ===== src/Prelude/Bits.antt =====
-- The bit operations that the program uses, as arithmetic: masks of one byte, by evaluation at every
-- byte, and the union of numbers whose bits do not overlap, for every width.
use Prim.Native.Nat.{
  ℕ, zero, suc, ◌+◌, ◌*◌, ◌/◌, ◌%◌, ◌^◌, ◌≤◌, ◌<◌, max, bit_and, bit_or, digits, bit_or-bitwise,
}
use mathlib.Core.Path.{◌≡◌, refl, ap, ◌∙◌}
use mathlib.Core.Bool.{Bool, true, ◌&&◌}
use native.Mathlib.Omega.{arith}
use native.Mathlib.Nat.{pow-suc}
use ai_gen.Prelude.Tests.{◌==◌}

-- `f` and `g` agree at every number below `n`.
same_below : (ℕ → ℕ) → (ℕ → ℕ) → ℕ → Bool
same_below f g zero = true
same_below f g (suc n) = f n == g n && same_below f g n

same_below_sound : (f g : ℕ → ℕ) (n i : ℕ) → same_below f g n ≡ true → i < n → f i ≡ g i
unfolding same_below
same_below_sound f g zero i h p = absurd (omega arith)
same_below_sound f g (suc n) i h p = ground (arith, same_below_sound f g n i)

pub mask_low : (b : ℕ) → b < 256 → bit_and b 0x7f ≡ b % 128
unfolding same_below
mask_low b = same_below_sound (λ x. bit_and x 0x7f) (λ x. x % 128) 256 b refl

pub mask_top : (b : ℕ) → b < 256 → bit_and b 0x80 ≡ b / 128 * 128
unfolding same_below
mask_top b = same_below_sound (λ x. bit_and x 0x80) (λ x. x / 128 * 128) 256 b refl

pub with_top : (b : ℕ) → b < 256 → bit_or b 0x80 ≡ b % 128 + 128
unfolding same_below
with_top b = same_below_sound (λ x. bit_or x 0x80) (λ x. x % 128 + 128) 256 b refl

-- The recursion on binary digits behind `bit_or`, when the second number has `k` zeros at its end
-- and the first has no more than `k` digits.
union_digits :
    (n a k x b : ℕ) → a ≤ n → a < 2 ^ k → b ≡ x * 2 ^ k → digits (λ c. c) max n a b ≡ a + b
union_digits zero zero k x b p q e = omega arith
union_digits zero (suc a) k x b p q e = absurd (omega arith)
union_digits (suc n) zero k x b p q e = omega arith
union_digits (suc n) (suc a) zero x b p q e = absurd (omega arith)
union_digits (suc n) (suc a) (suc k) x b p q e =
    let twice : 2 ^ suc k ≡ 2 * 2 ^ k = omega (arith, pow-suc 2 k) in
    let half : b / 2 ≡ x * 2 ^ k = omega (arith, ap (λ (t : ℕ). x * t) twice) in
    omega (
      arith,
      half,
      twice,
      ap (λ (t : ℕ). x * t) twice,
      union_digits n (suc a / 2) k x (b / 2) (omega arith) (omega arith) half,
    )

pub bit_or_shifted : (a x k : ℕ) → a < 2 ^ k → bit_or a (x * 2 ^ k) ≡ a + x * 2 ^ k
bit_or_shifted a x k h = bit_or-bitwise a _ ∙ union_digits a a k x _ (omega arith) h refl
