-- ===== src/Content.antt =====
-- crates/swiftload-testserver/src/content.rs: the bytes that the test server serves, as a function of a
-- seed and an offset.
pub mod Filled
mod Examples
use Prim.Native.Nat.{bit_xor}
use ai_gen.Prelude.{
  ℕ, zero, suc, ◌+◌, ◌-◌, ◌/◌, ◌%◌, ◌^◌, List, [], ◌∷◌, ◌++◌, ltb, ◌==◌, if◌then◌else◌, get_or,
  add64, mul64, bit_or, Text,
}

-- The steps of the `let z`s of `splitmix64`.
abbrev pub mixed : ℕ → ℕ → ℕ → ℕ
mixed z shift factor = mul64 (bit_xor z (z / 2 ^ shift)) factor

unfoldable pub splitmix64 : ℕ → ℕ
splitmix64 x =
    let z =
      mixed (mixed (add64 x 0x9E3779B97F4A7C15) 30 0xBF58476D1CE4E5B9) 27 0x94D049BB133111EB in
    bit_xor z (z / 2 ^ 31)

unfoldable pub seed_loop : ℕ → Text → ℕ
seed_loop h [] = h
seed_loop h (b ∷ bs) = seed_loop (mul64 (bit_xor h b) 0x100000001b3) bs

unfoldable pub seed_of : Text → ℕ
unfolding seed_loop
seed_of name = bit_or (seed_loop 0xcbf29ce484222325 name) 1

-- The first `n` bytes of a number, the low one first.
unfoldable pub low_bytes : ℕ → ℕ → List ℕ
low_bytes zero v = []
low_bytes (suc n) v = (v % 256) ∷ low_bytes n (v / 256)

unfoldable pub to_le_bytes : ℕ → List ℕ
unfolding low_bytes
to_le_bytes v = low_bytes 8 v

unfoldable pub block_value : ℕ → ℕ → ℕ
unfolding splitmix64
block_value seed block = splitmix64 (bit_xor seed (mul64 block 0x9E3779B97F4A7C15))

unfoldable pub byte_at : ℕ → ℕ → ℕ
unfolding block_value to_le_bytes
byte_at seed offset = get_or (to_le_bytes (block_value seed (offset / 8))) (offset % 8) 0

-- The loops of `fill`, on how many bytes of the buffer are left; the result is what they write. The
-- unaligned tail:
unfoldable pub fill_tail : ℕ → ℕ → ℕ → List ℕ
unfolding byte_at
fill_tail seed off zero = []
fill_tail seed off (suc left) = byte_at seed off ∷ fill_tail seed (add64 off 1) left

-- The aligned body, of at most `rounds` rounds:
unfoldable pub fill_body : (rounds : ℕ) → ℕ → ℕ → ℕ → List ℕ
unfolding fill_tail block_value to_le_bytes
fill_body zero seed off left = fill_tail seed off left
fill_body (suc rounds) seed off left =
    let rest = fill_body rounds seed (add64 off 8) (left - 8) in
    if ltb left 8 then fill_tail seed off left else to_le_bytes (block_value seed (off / 8)) ++ rest

-- The unaligned head:
unfoldable pub fill_head : ℕ → ℕ → ℕ → List ℕ
unfolding byte_at fill_body
fill_head seed off zero = []
fill_head seed off (suc left) =
    let rest = fill_head seed (add64 off 1) left in
    if off % 8 == 0 then fill_body (suc left) seed off (suc left) else byte_at seed off ∷ rest

unfoldable pub fill : (seed start len : ℕ) → List ℕ
unfolding fill_head
fill seed start len = fill_head seed start len

unfoldable pub chunk : (seed start len : ℕ) → List ℕ
unfolding fill
chunk seed start len = fill seed start len
