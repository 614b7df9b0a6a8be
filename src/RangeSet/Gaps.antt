-- ===== src/RangeSet/Gaps.antt =====
-- The holes of a set: `gaps_in` and `first_gap_at_or_after`.
use ai_gen.Prelude.{
  ℕ, Bool, ◌⊎◌, ◌+◌, ◌≤◌, ◌<◌, ◌≡◌, ◌&&◌, refl, true, false, not, [], ◌∷◌, arith, IsU64, ltb, leb,
  Option, some, none,
}
use ai_gen.RangeSet.{Span, RangeSet, gaps_loop, gaps_in, gap_loop, first_gap_at_or_after}
use ai_gen.RangeSet.Canonical.{covers, CanonicalFrom, IsCanonical, covers-below, CanonicalFrom-mono}

-- Byte `b` is a hole between `cursor` and `e`.
abbrev is_hole : RangeSet → ℕ → ℕ → ℕ → Bool
is_hole xs cursor e b = leb cursor b && ltb b e && not (covers xs b)

covers-gaps_loop_step :
    (low e cursor b : ℕ) (x : Span) (xs : RangeSet)
    → CanonicalFrom low (x ∷ xs)
    → IsU64 e
    → covers xs b ≡ false ⊎ (x.start + x.len < b)
    → covers (gaps_loop e xs cursor) b ≡ is_hole xs cursor e b
    → covers (gaps_loop e xs (x.start + x.len)) b ≡ is_hole xs (x.start + x.len) e b
    → covers (gaps_loop e (x ∷ xs) cursor) b ≡ is_hole (x ∷ xs) cursor e b
unfolding gaps_loop
covers-gaps_loop_step low e cursor b x xs c u later ih ih' = ground arith

covers-later :
    (low b : ℕ) (x : Span) (xs : RangeSet)
    → CanonicalFrom low (x ∷ xs)
    → covers xs b ≡ false ⊎ (x.start + x.len < b)
covers-later low b x xs c = ground (arith, covers-below (x.start + x.len + 1) xs b)

covers-gaps_loop :
    (low e cursor b : ℕ) (xs : RangeSet)
    → CanonicalFrom low xs
    → IsU64 e
    → covers (gaps_loop e xs cursor) b ≡ is_hole xs cursor e b
covers-gaps_loop low e cursor b [] c u = unfold gaps_loop in ground arith
covers-gaps_loop low e cursor b (x ∷ xs) c u =
    covers-gaps_loop_step low e cursor b x xs c u (covers-later low b x xs c)
      (covers-gaps_loop (x.start + x.len + 1) e cursor b xs c.3 u)
      (covers-gaps_loop (x.start + x.len + 1) e (x.start + x.len) b xs c.3 u)

-- In a canonical set, for an end within u64, the gaps in a window cover exactly the bytes of the
-- window that the set does not cover.
pub covers-gaps_in :
    (xs : RangeSet) (start end b : ℕ)
    → IsCanonical xs
    → IsU64 end
    → covers (gaps_in xs start end) b ≡ (leb start b && ltb b end && not (covers xs b))
unfolding gaps_in
covers-gaps_in xs s e b c u = ground (arith, covers-gaps_loop 0 e s b xs c u)

gaps_loop-CanonicalFrom_step :
    (low e cursor : ℕ) (x : Span) (xs : RangeSet)
    → CanonicalFrom low (x ∷ xs)
    → IsU64 e
    → CanonicalFrom cursor (gaps_loop e xs cursor)
    → CanonicalFrom (x.start + x.len) (gaps_loop e xs (x.start + x.len))
    → CanonicalFrom cursor (gaps_loop e (x ∷ xs) cursor)
unfolding gaps_loop
gaps_loop-CanonicalFrom_step low e cursor x xs c u ih ih' = ground (
  arith,
  CanonicalFrom-mono (x.start + x.len) cursor (gaps_loop e xs (x.start + x.len)),
  CanonicalFrom-mono (x.start + x.len) (x.start + 1) (gaps_loop e xs (x.start + x.len)),
)

gaps_loop-CanonicalFrom :
    (low e cursor : ℕ) (xs : RangeSet)
    → CanonicalFrom low xs
    → IsU64 e
    → CanonicalFrom cursor (gaps_loop e xs cursor)
gaps_loop-CanonicalFrom low e cursor [] c u = unfold gaps_loop in ground arith
gaps_loop-CanonicalFrom low e cursor (x ∷ xs) c u =
    gaps_loop-CanonicalFrom_step low e cursor x xs c u
      (gaps_loop-CanonicalFrom (x.start + x.len + 1) e cursor xs c.3 u)
      (gaps_loop-CanonicalFrom (x.start + x.len + 1) e (x.start + x.len) xs c.3 u)

-- The gaps in a window of a canonical set come in ascending order, disjoint, none of them empty,
-- with covered bytes between any two, and none starts before the window.
pub gaps_in-CanonicalFrom :
    (xs : RangeSet) (start end : ℕ)
    → IsCanonical xs
    → IsU64 end
    → CanonicalFrom start (gaps_in xs start end)
unfolding gaps_in
gaps_in-CanonicalFrom xs s e c u = ground (arith, gaps_loop-CanonicalFrom 0 e s xs c u)

-- `b` lies before the end of a gap; an open-ended gap has none.
abbrev pub before_end : Option ℕ → ℕ → Bool
before_end none b = true
before_end (some until) b = ltb b until

abbrev EndsGap : RangeSet → ℕ → Option ℕ → Type 0
EndsGap xs from none = Unit
EndsGap xs from (some until) = (from < until) × (covers xs until ≡ true)

gap_loop_covered :
    (low pos b : ℕ) (xs : RangeSet)
    → CanonicalFrom low xs
    → pos ≤ b
    → b < (gap_loop xs pos).0
    → covers xs b ≡ true
unfolding gap_loop
gap_loop_covered low pos b [] c p q = ground arith
gap_loop_covered low pos b (x ∷ xs) c p q = ground (
  arith,
  gap_loop_covered (x.start + x.len + 1) pos b xs c.3,
  gap_loop_covered (x.start + x.len + 1) (x.start + x.len) b xs c.3,
)

gap_loop_hole :
    (low pos b : ℕ) (xs : RangeSet)
    → CanonicalFrom low xs
    → (gap_loop xs pos).0 ≤ b
    → before_end (gap_loop xs pos).1 b ≡ true
    → (pos ≤ b) × (covers xs b ≡ false)
unfolding gap_loop
gap_loop_hole low pos b [] c p q = ground arith
gap_loop_hole low pos b (x ∷ xs) c p q = ground (
  arith,
  gap_loop_hole (x.start + x.len + 1) pos b xs c.3,
  gap_loop_hole (x.start + x.len + 1) (x.start + x.len) b xs c.3,
  covers-below (x.start + x.len + 1) xs b,
)

gap_loop_end :
    (low pos : ℕ) (xs : RangeSet)
    → CanonicalFrom low xs
    → (pos ≤ (gap_loop xs pos).0) × EndsGap xs (gap_loop xs pos).0 (gap_loop xs pos).1
unfolding gap_loop
gap_loop_end low pos [] c = ground arith
gap_loop_end low pos (x ∷ xs) c = ground (
  arith,
  gap_loop_end (x.start + x.len + 1) pos xs c.3,
  gap_loop_end (x.start + x.len + 1) (x.start + x.len) xs c.3,
)

-- `gap` is the first hole at or after `pos`: every byte from `pos` up to it is covered, no byte of
-- it is, and where it has an end, that is a covered byte behind its start.
pub record IsFirstGap (xs : RangeSet) (pos : ℕ) (gap : ℕ × Option ℕ) : Type 0 where
  pub after_pos : pos ≤ gap.0
  pub covered : (b : ℕ) → pos ≤ b → b < gap.0 → covers xs b ≡ true
  pub hole : (b : ℕ) → gap.0 ≤ b → before_end gap.1 b ≡ true → covers xs b ≡ false
  pub closed : EndsGap xs gap.0 gap.1

-- On a canonical set there always is a result, and it is the first hole at or after `pos`.
pub first_gap_at_or_after-IsFirstGap :
    (xs : RangeSet) (pos : ℕ)
    → IsCanonical xs
    → (gap : ℕ × Option ℕ) × (first_gap_at_or_after xs pos ≡ some gap) × IsFirstGap xs pos gap
unfolding first_gap_at_or_after
first_gap_at_or_after-IsFirstGap xs pos c = (
  gap_loop xs pos,
  refl,
  record {
    after_pos = (gap_loop_end 0 pos xs c).0;
    covered = λ b p q. gap_loop_covered 0 pos b xs c p q;
    hole = λ b p q. (gap_loop_hole 0 pos b xs c p q).1;
    closed = (gap_loop_end 0 pos xs c).1;
  },
)
