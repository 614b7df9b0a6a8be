-- ===== src/RangeSet/Codec/RoundTrip.antt =====
-- Reading back what `put_varint` and `encode` wrote.
use mathlib.Core.WellFounded.{Acc}
use mathlib.Core.List.{append-nil, append_assoc}
use native.Mathlib.Nat.{div-add-mod}
use native.Mathlib.Numerals.{towards_suc}
use ai_gen.Prelude.{
  ℕ, zero, suc, ◌+◌, ◌-◌, ◌*◌, ◌/◌, ◌%◌, ◌^◌, ◌≤◌, ◌<◌, ◌≡◌, refl, sym, ap, ◌∙◌, some, List, [],
  ◌∷◌, ◌++◌, arith, ltb, if◌then◌else◌, length, length-append, IsU64, bit_or, sub64,
}
use ai_gen.Prelude.Bits.{mask_low, mask_top, with_top, bit_or_shifted}
use ai_gen.Prelude.Result.{ok}
use ai_gen.RangeSet.{Span, RangeSet, span_end}
use ai_gen.RangeSet.Canonical.{DisjointFrom}
use ai_gen.RangeSet.Codec.{
  put_loop, put_varint, get_loop, get_varint, encode_loop, encode, decode_span, decode_loop, decode,
}

-- The seven-bit groups of `v`, lowest first, for `v` below 128 ^ (k + 1).
groups : ℕ → ℕ → List ℕ
groups zero v = v ∷ []
groups (suc k) v =
    let higher = groups k (v / 128) in if ltb v 128 then v ∷ [] else (v % 128 + 128) ∷ higher

top_set : (v : ℕ) → bit_or (v % 256) 0x80 ≡ v % 128 + 128
top_set v = omega (arith, with_top (v % 256) (omega arith))

put_loop-groups : (k v : ℕ) (w : Acc ◌<◌ v) → v < 128 ^ suc k → put_loop v w ≡ groups k v
unfolding put_loop groups
put_loop-groups zero v (Acc.intro _ smaller) h = ground arith
put_loop-groups (suc k) v (Acc.intro _ smaller) h =
    grind (arith, top_set v, λ (w : Acc ◌<◌ (v / 128)). put_loop-groups k (v / 128) w (omega arith))

put_varint-groups : (out : List ℕ) (v : ℕ) → IsU64 v → put_varint out v ≡ out ++ groups 9 v
unfolding put_varint
put_varint-groups out v h = rw (put_loop-groups 9 v _ (omega arith))

get_loop_last :
    (g v shift : ℕ) (rest : List ℕ)
    → g < 128
    → shift < 64
    → v < 2 ^ shift
    → IsU64 (v + g * 2 ^ shift)
    → get_loop (g ∷ rest) v shift ≡ ok (v + g * 2 ^ shift, rest)
unfolding get_loop
get_loop_last g v shift rest hg hs hv fits =
    ground (arith, mask_low g, mask_top g, bit_or_shifted v g shift)

get_loop_inner :
    (g v shift : ℕ) (rest : List ℕ)
    → g < 128
    → shift < 64
    → v < 2 ^ shift
    → IsU64 (v + g * 2 ^ shift)
    → get_loop ((g + 128) ∷ rest) v shift ≡ get_loop rest (v + g * 2 ^ shift) (shift + 7)
unfolding get_loop
get_loop_inner g v shift rest hg hs hv fits =
    ground (arith, mask_low (g + 128), mask_top (g + 128), bit_or_shifted v g shift)

pow_seven : (s : ℕ) → 2 ^ (s + 7) ≡ 128 * 2 ^ s
pow_seven s = simp towards_suc (omega arith)

group_bound : (g v s : ℕ) → g < 128 → v < 2 ^ s → v + g * 2 ^ s < 2 ^ (s + 7)
group_bound g v s hg hv = grind (arith, pow_seven s)

regroup : (v s : ℕ) → v * 2 ^ s ≡ v % 128 * 2 ^ s + v / 128 * 2 ^ (s + 7)
regroup v s = omega (
  arith,
  ap (λ (t : ℕ). t * 2 ^ s) (div-add-mod v 128),
  ap (λ (t : ℕ). v / 128 * t) (pow_seven s),
)

get_loop-groups :
    (k w v shift : ℕ) (rest : List ℕ)
    → w < 128 ^ suc k
    → shift + 7 * k < 64
    → v < 2 ^ shift
    → IsU64 (v + w * 2 ^ shift)
    → get_loop (groups k w ++ rest) v shift ≡ ok (v + w * 2 ^ shift, rest)
unfolding groups
get_loop-groups zero w v shift rest hw hs hv fits =
    get_loop_last w v shift rest hw (omega arith) hv fits
get_loop-groups (suc k) w v shift rest hw hs hv fits = ground (
  arith,
  get_loop_last w v shift rest,
  regroup w shift,
  group_bound (w % 128) v shift,
  get_loop_inner (w % 128) v shift (groups k (w / 128) ++ rest),
  get_loop-groups k (w / 128) (v + w % 128 * 2 ^ shift) (shift + 7) rest (omega arith),
)

get_varint-groups :
    (v : ℕ) (rest : List ℕ) → IsU64 v → get_varint (groups 9 v ++ rest) ≡ ok (v, rest)
unfolding get_varint
get_varint-groups v rest h = ground (arith, get_loop-groups 9 v 0 0 rest)

-- A u64 is read back from what `put_varint` wrote, and the bytes behind it are left as they are.
pub get_varint-put_varint :
    (v : ℕ) (rest : List ℕ) → IsU64 v → get_varint (put_varint [] v ++ rest) ≡ ok (v, rest)
get_varint-put_varint v rest h = rw (put_varint-groups [] v h) (get_varint-groups v rest h)

-- What `encode` writes from `prev_end` on, in plain arithmetic.
encoding : ℕ → RangeSet → List ℕ
encoding prev_end [] = []
encoding prev_end (x ∷ xs) =
    groups 9 (x.start - prev_end) ++ (groups 9 x.len ++ encoding (x.start + x.len) xs)

encode_loop-encoding :
    (prev_end low : ℕ) (xs : RangeSet) (out : List ℕ)
    → DisjointFrom low xs
    → prev_end ≤ low
    → encode_loop prev_end xs out ≡ out ++ encoding prev_end xs
unfolding encode_loop encoding
encode_loop-encoding prev_end low [] out c p = sym (append-nil out)
encode_loop-encoding prev_end low (x ∷ xs) out c p =
    let gap : sub64 x.start prev_end ≡ x.start - prev_end = omega arith in
    let stop : span_end x ≡ x.start + x.len = omega arith in
    rw
      (
        stop,
        gap,
        encode_loop-encoding (x.start + x.len) (x.start + x.len) xs _ c.3 (omega arith),
        put_varint-groups _ x.len (omega arith),
        put_varint-groups out (x.start - prev_end) (omega arith),
      )
      (simp append_assoc)

decode_span_lem :
    (prev_end : ℕ) (x : Span) (rest : List ℕ)
    → prev_end ≤ x.start
    → 0 < x.len
    → IsU64 (x.start + x.len)
    → decode_span prev_end (groups 9 (x.start - prev_end) ++ (groups 9 x.len ++ rest))
      ≡ ok (x, x.start + x.len, rest)
unfolding decode_span
decode_span_lem prev_end x rest p q u = ground (
  arith,
  get_varint-groups (x.start - prev_end) (groups 9 x.len ++ rest),
  get_varint-groups x.len rest,
)

decode_loop_step :
    (fuel prev_end stop : ℕ) (bytes rest : List ℕ) (spans : List Span) (x : Span)
    → decode_span prev_end bytes ≡ ok (x, stop, rest)
    → decode_loop (suc fuel) prev_end bytes spans ≡ decode_loop fuel stop rest (spans ++ x ∷ [])
unfolding decode_loop
decode_loop_step fuel prev_end stop [] rest spans x e = unfold decode_span get_varint get_loop in cc
decode_loop_step fuel prev_end stop (b ∷ bytes) rest spans x e = rw (e, decode_loop) refl

decode_loop-encoding :
    (fuel prev_end low : ℕ) (xs spans : RangeSet)
    → DisjointFrom low xs
    → prev_end ≤ low
    → length xs ≤ fuel
    → decode_loop fuel prev_end (encoding prev_end xs) spans ≡ some (ok (spans ++ xs))
unfolding encoding
decode_loop-encoding fuel prev_end low [] spans c p q = unfold decode_loop in rw append-nil
decode_loop-encoding zero prev_end low (x ∷ xs) spans c p q = absurd (omega arith)
decode_loop-encoding (suc fuel) prev_end low (x ∷ xs) spans c p q =
    decode_loop_step fuel prev_end _ _ _ spans x
      (decode_span_lem prev_end x (encoding (x.start + x.len) xs) (omega arith) c.1 c.2)
    ∙ decode_loop-encoding fuel (x.start + x.len) (x.start + x.len) xs (spans ++ x ∷ []) c.3
        (omega arith) (omega arith)
    ∙ ap (λ s. some (ok s)) (append_assoc spans (x ∷ []) xs)

length-groups : (k v : ℕ) → 1 ≤ length (groups k v)
unfolding groups
length-groups zero v = omega arith
length-groups (suc k) v = ground arith

length-encoding : (prev_end : ℕ) (xs : RangeSet) → length xs ≤ length (encoding prev_end xs)
unfolding encoding
length-encoding prev_end [] = omega arith
length-encoding prev_end (x ∷ xs) =
    rw (length-append, length-append)
      (omega (arith, length-groups 9 (x.start - prev_end), length-encoding (x.start + x.len) xs))

-- Every sorted and disjoint list of spans is read back from its encoding: the decoder ends, with no
-- error, and with the same spans.
pub decode-encode : (xs : RangeSet) → DisjointFrom 0 xs → decode (encode xs) ≡ some (ok xs)
unfolding decode encode
decode-encode xs c =
    rw (encode_loop-encoding 0 0 xs [] c (omega arith))
      (decode_loop-encoding _ 0 0 xs [] c (omega arith) (length-encoding 0 xs))
