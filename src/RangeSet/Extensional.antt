-- ===== src/RangeSet/Extensional.antt =====
-- The canonical form is canonical: two sets with the same bytes are the same list of spans.
use ai_gen.Prelude.{ℕ, ◌+◌, ◌≡◌, refl, true, false, [], ◌∷◌, arith, IsU64}
use mathlib.Core.Path.{ap₂}
use ai_gen.RangeSet.{Span, RangeSet, insert}
use ai_gen.RangeSet.Canonical.{in_range, covers, CanonicalFrom, IsCanonical, covers-below}
use ai_gen.RangeSet.Insert.{insert-IsCanonical, covers-insert}

abbrev SameBytes : RangeSet → RangeSet → Type 0
SameBytes xs ys = (b : ℕ) → covers xs b ≡ covers ys b

covers_first :
    (low : ℕ) (x : Span) (xs : RangeSet)
    → CanonicalFrom low (x ∷ xs)
    → covers (x ∷ xs) x.start ≡ true
covers_first low x xs c = ground arith

covers_end :
    (low : ℕ) (x : Span) (xs : RangeSet)
    → CanonicalFrom low (x ∷ xs)
    → covers (x ∷ xs) (x.start + x.len) ≡ false
covers_end low x xs c = ground (arith, covers-below (x.start + x.len + 1) xs (x.start + x.len))

heads_agree :
    (low low' : ℕ) (x y : Span) (xs ys : RangeSet)
    → CanonicalFrom low (x ∷ xs)
    → CanonicalFrom low' (y ∷ ys)
    → SameBytes (x ∷ xs) (y ∷ ys)
    → (x.start ≡ y.start) × (x.len ≡ y.len)
heads_agree low low' x y xs ys c d h = ground (
  arith,
  h x.start,
  h y.start,
  h (x.start + x.len),
  h (y.start + y.len),
  covers_first low x xs c,
  covers_first low' y ys d,
  covers_end low x xs c,
  covers_end low' y ys d,
  covers-below (x.start + x.len + 1) xs y.start,
  covers-below (y.start + y.len + 1) ys x.start,
  covers-below (x.start + x.len + 1) xs (y.start + y.len),
  covers-below (y.start + y.len + 1) ys (x.start + x.len),
)

tails_agree :
    (low low' b : ℕ) (x y : Span) (xs ys : RangeSet)
    → CanonicalFrom low (x ∷ xs)
    → CanonicalFrom low' (y ∷ ys)
    → SameBytes (x ∷ xs) (y ∷ ys)
    → covers xs b ≡ covers ys b
tails_agree low low' b x y xs ys c d h = ground (
  arith,
  heads_agree low low' x y xs ys c d h,
  h b,
  covers-below (x.start + x.len + 1) xs b,
  covers-below (y.start + y.len + 1) ys b,
)

Span_eq : (x y : Span) → x.start ≡ y.start → x.len ≡ y.len → x ≡ y
Span_eq x y p q = λ i. record { start = p i; len = q i }

SameBytes-eq :
    (low low' : ℕ) (xs ys : RangeSet)
    → CanonicalFrom low xs
    → CanonicalFrom low' ys
    → SameBytes xs ys
    → xs ≡ ys
SameBytes-eq low low' [] [] c d h = refl
SameBytes-eq low low' [] (y ∷ ys) c d h = cc (h y.start, covers_first low' y ys d)
SameBytes-eq low low' (x ∷ xs) [] c d h = cc (h x.start, covers_first low x xs c)
SameBytes-eq low low' (x ∷ xs) (y ∷ ys) c d h =
    let (starts, lens) = heads_agree low low' x y xs ys c d h in
    ap₂ ◌∷◌ (Span_eq x y starts lens) (
      SameBytes-eq (x.start + x.len + 1) (y.start + y.len + 1) xs ys c.3 d.3
        (λ b. tails_agree low low' b x y xs ys c d h))

-- Two canonical sets that cover the same bytes have the same spans.
pub covers-extensional :
    (xs ys : RangeSet)
    → IsCanonical xs
    → IsCanonical ys
    → ((b : ℕ) → covers xs b ≡ covers ys b)
    → xs ≡ ys
covers-extensional = SameBytes-eq 0 0

-- Inserting two ranges that end within u64 into a canonical set gives the same spans in either
-- order.
pub insert_comm :
    (xs : RangeSet) (s l t m : ℕ)
    → IsCanonical xs
    → IsU64 (s + l)
    → IsU64 (t + m)
    → insert (insert xs s l) t m ≡ insert (insert xs t m) s l
insert_comm xs s l t m c p q =
    let first = insert-IsCanonical xs s l c p in
    let second = insert-IsCanonical xs t m c q in
    covers-extensional (insert (insert xs s l) t m) (insert (insert xs t m) s l)
      (insert-IsCanonical (insert xs s l) t m first q)
      (insert-IsCanonical (insert xs t m) s l second p)
      λ b. ground (
        arith,
        covers-insert (insert xs s l) t m b first q,
        covers-insert (insert xs t m) s l b second p,
        covers-insert xs s l b c p,
        covers-insert xs t m b c q,
      )

-- Inserting a range within u64 whose bytes a canonical set already covers leaves the spans as they are.
pub insert_present :
    (xs : RangeSet) (s l : ℕ)
    → IsCanonical xs
    → IsU64 (s + l)
    → ((b : ℕ) → in_range b s l ≡ true → covers xs b ≡ true)
    → insert xs s l ≡ xs
insert_present xs s l c p held =
    covers-extensional (insert xs s l) xs (insert-IsCanonical xs s l c p) c
      λ b. ground (arith, covers-insert xs s l b c p, held b)
