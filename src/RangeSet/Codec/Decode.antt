-- ===== src/RangeSet/Codec/Decode.antt =====
-- `decode` on any bytes, well formed or not.
use mathlib.Core.List.{append-nil, append_assoc}
use ai_gen.Prelude.{
  ℕ, zero, suc, ◌+◌, ◌*◌, ◌^◌, ◌≤◌, ◌<◌, ◌≡◌, ◌⊎◌, inl, inr, refl, sym, ◌%◌, ◌∙◌, some, List, [],
  ◌∷◌, ◌++◌, arith, length, IsU64, bit_and, bit_or,
}
use ai_gen.Prelude.Result.{Result, ok, err}
use ai_gen.RangeSet.{Span, RangeSet}
use ai_gen.RangeSet.Canonical.{DisjointFrom}
use ai_gen.RangeSet.Codec.{DecodeError, get_loop, get_varint, decode_span, decode_loop, decode}

get_loop_shorter :
    (bytes : List ℕ) (v shift w : ℕ) (rest : List ℕ)
    → get_loop bytes v shift ≡ ok (w, rest)
    → length rest < length bytes
unfolding get_loop
get_loop_shorter [] v shift w rest e = cc
get_loop_shorter (b ∷ bytes) v shift w rest e = ground (
  arith,
  get_loop_shorter bytes (bit_or v (bit_and b 0x7f * 2 ^ shift % 2 ^ 64)) (shift + 7) w rest,
)

get_varint_shorter :
    (bytes : List ℕ) (w : ℕ) (rest : List ℕ)
    → get_varint bytes ≡ ok (w, rest)
    → length rest < length bytes
unfolding get_varint
get_varint_shorter bytes w rest e = get_loop_shorter bytes 0 0 w rest e

Result-cases : {E A : Type 0} (r : Result E A) → ((a : A) × (r ≡ ok a)) ⊎ ((e : E) × (r ≡ err e))
Result-cases (ok a) = inl (a, refl)
Result-cases (err e) = inr (e, refl)

decode_span_ok :
    (prev_end stop : ℕ) (bytes rest : List ℕ) (x : Span)
    → decode_span prev_end bytes ≡ ok (x, stop, rest)
    → (prev_end ≤ x.start)
      × (0 < x.len)
      × IsU64 (x.start + x.len)
      × (stop ≡ x.start + x.len)
      × (length rest < length bytes)
unfolding decode_span
decode_span_ok prev_end stop bytes rest x e = elim (Result-cases (get_varint bytes)) [
  | inl ((gap, later), p) ↦ elim (Result-cases (get_varint later)) [
    | inl ((len, left), q) ↦
        ground (arith, get_varint_shorter bytes gap later p, get_varint_shorter later len left q)
    | inr (x, q) ↦ cc
  ]
  | inr (x, p) ↦ cc
]

-- The spans that a run of the loop adds behind those it was given.
abbrev Adds : ℕ → List Span → Result DecodeError RangeSet → Type 0
Adds prev_end spans (ok found) = (xs : List Span) × (found ≡ spans ++ xs) × DisjointFrom prev_end xs
Adds prev_end spans (err e) = Unit

Adds-cons :
    (prev_end stop : ℕ) (spans : List Span) (x : Span) (r : Result DecodeError RangeSet)
    → prev_end ≤ x.start
    → 0 < x.len
    → IsU64 (x.start + x.len)
    → stop ≡ x.start + x.len
    → Adds stop (spans ++ x ∷ []) r
    → Adds prev_end spans r
Adds-cons prev_end stop spans x (ok found) p q u s (xs, e, d) =
    (x ∷ xs, e ∙ append_assoc spans (x ∷ []) xs, (p, q, u, rw s at d))
Adds-cons prev_end stop spans x (err e) p q u s adds = tt

decode_loop_ends :
    (fuel prev_end : ℕ) (bytes : List ℕ) (spans : List Span)
    → length bytes ≤ fuel
    → (r : Result DecodeError RangeSet) × (decode_loop fuel prev_end bytes spans ≡ some r)
      × Adds prev_end spans r
unfolding decode_loop
decode_loop_ends fuel prev_end [] spans h = (ok spans, refl, ([], sym (append-nil spans), tt))
decode_loop_ends zero prev_end (b ∷ bytes) spans h = absurd (omega arith)
decode_loop_ends (suc fuel) prev_end (b ∷ bytes) spans h =
    elim (Result-cases (decode_span prev_end (b ∷ bytes))) [
      | inl ((x, stop, rest), e) ↦
          let (p, q, u, s, shorter) = decode_span_ok prev_end stop (b ∷ bytes) rest x e in
          let (r, runs, adds) = decode_loop_ends fuel stop rest (spans ++ x ∷ []) (omega arith) in
          (r, rw (e, decode_loop) runs, Adds-cons prev_end stop spans x r p q u s adds)
      | inr (x, e) ↦ (err x, rw (e, decode_loop) refl, tt)
    ]

-- What decoding promises of its result: an error, or spans that are sorted and disjoint.
abbrev pub Decoded : Result DecodeError RangeSet → Type 0
Decoded (ok xs) = DisjointFrom 0 xs
Decoded (err e) = Unit

Adds-Decoded : (r : Result DecodeError RangeSet) → Adds 0 [] r → Decoded r
Adds-Decoded (ok found) (xs, e, d) = rw e d
Adds-Decoded (err e) a = tt

-- Decoding ends on every list of bytes, and what it accepts is sorted and disjoint, has no empty
-- span, and ends within u64.
pub decode-Decoded :
    (bytes : List ℕ) → (r : Result DecodeError RangeSet) × (decode bytes ≡ some r) × Decoded r
unfolding decode
decode-Decoded bytes =
    let (r, runs, adds) = decode_loop_ends (length bytes) 0 bytes [] (omega arith) in
    (r, runs, Adds-Decoded r adds)
