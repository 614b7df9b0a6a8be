-- ===== src/RangeSet/Codec/Laxness.antt =====
-- Encodings that the decoder accepts although no canonical set has them.
use ai_gen.Prelude.{
  ℕ, ◌+◌, ◌*◌, ◌^◌, ◌≤◌, ◌<◌, ◌≡◌, ◌%◌, true, false, some, List, [], ◌∷◌, arith, IsU64, bit_and,
}
use ai_gen.Prelude.Result.{ok}
use ai_gen.Prelude.Bits.{mask_low, mask_top}
use ai_gen.RangeSet.{RangeSet, contains_all}
use ai_gen.RangeSet.Canonical.{covers, IsCanonical}
use ai_gen.RangeSet.Codec.{get_loop, get_varint, encode, decode}
use ai_gen.RangeSet.Codec.RoundTrip.{decode-encode}

-- Two spans of which the second starts where the first ends.
abbrev pub touching : ℕ → ℕ → ℕ → RangeSet
touching start len more =
    record { start = start; len = len } ∷ record { start = start + len; len = more } ∷ []

-- `decode` accepts two touching spans as they stand, for all lengths within u64: the result is not
-- canonical, every byte from the first start to the last end is covered, and `contains_all` denies it.
pub decode-touching :
    (start len more : ℕ)
    → 0 < len
    → 0 < more
    → IsU64 (start + len + more)
    → (decode (encode (touching start len more)) ≡ some (ok (touching start len more)))
      × (¬ (IsCanonical (touching start len more)))
      × ((b : ℕ) → start ≤ b → b < start + len + more → covers (touching start len more) b ≡ true)
      × (contains_all (touching start len more) start (start + len + more) ≡ false)
unfolding contains_all
decode-touching start len more p q u = (
  decode-encode (touching start len more) (omega arith),
  λ c. omega arith,
  λ b l r. ground arith,
  ground arith,
)

-- Nine bytes 0x80, and a last byte whose bits all lie beyond 64: the value is `g * 2 ^ 64`.
abbrev pub beyond_u64 : ℕ → List ℕ
beyond_u64 g = 0x80 ∷ 0x80 ∷ 0x80 ∷ 0x80 ∷ 0x80 ∷ 0x80 ∷ 0x80 ∷ 0x80 ∷ 0x80 ∷ (2 * g) ∷ []

-- Bits beyond 64 are dropped with no error: for every `g` below 64, the encoding of `g * 2 ^ 64` is
-- read as 0.
pub get_varint_drops_bits : (g : ℕ) → g < 64 → get_varint (beyond_u64 g) ≡ ok (0, [])
unfolding get_varint get_loop
get_varint_drops_bits g h =
    let dropped : bit_and (2 * g) 0x7f * 2 ^ 63 % 2 ^ 64 ≡ 0 =
      omega (arith, mask_low (2 * g) (omega arith)) in
    ground (arith, mask_top (2 * g), dropped)
