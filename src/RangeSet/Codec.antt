-- ===== src/RangeSet/Codec.antt =====
-- The varint encoding of a set in intervals.rs: `encode`, `decode`, `put_varint`, `get_varint`. A
-- byte slice with an index is the list of the bytes from that index on.
pub mod RoundTrip
pub mod Laxness
pub mod Decode
use mathlib.Core.Logic.{dite}
use mathlib.Core.WellFounded.{Acc}
use ai_gen.Prelude.{
  ℕ, zero, suc, ◌+◌, ◌*◌, ◌/◌, ◌%◌, ◌^◌, ◌≤◌, ◌<◌, Option, none, some, List, [], ◌∷◌, ◌++◌, arith,
  bit_and, bit_or, lt_wf, dec_lt, leb, ◌==◌, if◌then◌else◌, length, u64_mod, add64, sub64,
  checked_add,
}
use ai_gen.Prelude.Result.{Result, ok, err, ◌>>=◌}
use ai_gen.RangeSet.{Span, RangeSet, span_end}

pub data DecodeError : Type 0 where
  truncated overflow zero_length : DecodeError

shrinks : (v : ℕ) → 127 < v → v / 128 < v
shrinks v h = omega arith

-- `(v as u8) | 0x80` while `v >= 0x80`, and `v as u8` at the end.
put_loop : (v : ℕ) → Acc ◌<◌ v → List ℕ
put_loop v (Acc.intro _ smaller) =
    dite (dec_lt 127 v)
      (λ more. bit_or (v % 256) 0x80 ∷ put_loop (v / 128) (smaller (v / 128) (shrinks v more)))
      (λ _. (v % 256) ∷ [])

unfoldable pub put_varint : List ℕ → ℕ → List ℕ
unfolding put_loop shrinks lt_wf dec_lt
put_varint out v = out ++ put_loop v (lt_wf.apply v)

-- `u64::from(b & 0x7f).checked_shl(shift)`: `None` exactly for a shift of 64 or more.
abbrev checked_shl : ℕ → ℕ → Option ℕ
checked_shl x shift = if leb 64 shift then none else some (x * 2 ^ shift % u64_mod)

abbrev ok_or : Option ℕ → DecodeError → Result DecodeError ℕ
ok_or none e = err e
ok_or (some x) e = ok x

get_loop : List ℕ → ℕ → ℕ → Result DecodeError (ℕ × List ℕ)
get_loop [] v shift = err truncated
get_loop (b ∷ rest) v shift =
    let go_on = λ (v' : ℕ). get_loop rest v' (shift + 7) in
    if leb 64 shift then err overflow else do
      part ← ok_or (checked_shl (bit_and b 0x7f) shift) overflow
      let v' = bit_or v part
      if bit_and b 0x80 == 0 then ok (v', rest) else go_on v'

unfoldable pub get_varint : List ℕ → Result DecodeError (ℕ × List ℕ)
unfolding get_loop
get_varint bytes = get_loop bytes 0 0

encode_loop : ℕ → RangeSet → List ℕ → List ℕ
encode_loop prev_end [] out = out
encode_loop prev_end (x ∷ xs) out =
    encode_loop (span_end x) xs (put_varint (put_varint out (sub64 x.start prev_end)) x.len)

unfoldable pub encode : RangeSet → List ℕ
unfolding encode_loop put_varint
encode spans = encode_loop 0 spans []

-- One round of the `while` loop: the span that is read, its end, and the bytes that are left.
decode_span : ℕ → List ℕ → Result DecodeError (Span × ℕ × List ℕ)
decode_span prev_end bytes = do
  (gap, bytes') ← get_varint bytes
  (len, rest) ← get_varint bytes'
  if len == 0 then err zero_length else do
    start ← ok_or (checked_add prev_end gap) overflow
    end ← ok_or (checked_add start len) overflow
    ok (record { start = start; len = len }, end, rest)

-- The loop over the bytes; `none` means that the fuel ran out.
decode_loop : ℕ → ℕ → List ℕ → List Span → Option (Result DecodeError RangeSet)
decode_loop fuel prev_end [] spans = some (ok spans)
decode_loop zero prev_end (b ∷ bytes) spans = none
decode_loop (suc fuel) prev_end (b ∷ bytes) spans = elim (decode_span prev_end (b ∷ bytes)) [
  | ok (x, end, rest) ↦ decode_loop fuel end rest (spans ++ x ∷ [])
  | err e ↦ some (err e)
]

-- Each round takes two bytes or more, so as many rounds as there are bytes are enough.
unfoldable pub decode : List ℕ → Option (Result DecodeError RangeSet)
unfolding decode_loop decode_span get_varint
decode bytes = decode_loop (length bytes) 0 bytes []
