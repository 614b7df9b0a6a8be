-- ===== src/RangeSet/Canonical.antt =====
-- What a `RangeSet` stands for, independently of its operations, and the canonical form of the
-- module comment of intervals.rs: sorted, disjoint, not adjacent, no empty span, ends within u64.
use ai_gen.Prelude.{
  ℕ, ◌+◌, ◌≤◌, ◌<◌, ◌≡◌, Bool, false, ◌&&◌, ◌||◌, List, [], ◌∷◌, arith, ltb, leb, IsU64,
}
use ai_gen.RangeSet.{Span, RangeSet}

-- Byte `b` lies in `[start, start + len)`.
abbrev pub in_range : ℕ → ℕ → ℕ → Bool
in_range b start len = leb start b && ltb b (start + len)

abbrev pub covers : List Span → ℕ → Bool
covers [] b = false
covers (x ∷ xs) b = in_range b x.start x.len || covers xs b

-- Canonical, and every span starts at `low` or later.
abbrev pub CanonicalFrom : ℕ → List Span → Type 0
CanonicalFrom low [] = Unit
CanonicalFrom low (x ∷ xs) =
    (low ≤ x.start) × (0 < x.len) × IsU64 (x.start + x.len) × CanonicalFrom (x.start + x.len + 1) xs

abbrev pub IsCanonical : RangeSet → Type 0
IsCanonical = CanonicalFrom 0

pub CanonicalFrom-mono :
    (low low' : ℕ) (xs : List Span) → low' ≤ low → CanonicalFrom low xs → CanonicalFrom low' xs
CanonicalFrom-mono low low' [] h c = tt
CanonicalFrom-mono low low' (x ∷ xs) h c = (omega arith, c.1, c.2, c.3)

pub covers-below :
    (low : ℕ) (xs : List Span) (b : ℕ) → CanonicalFrom low xs → b < low → covers xs b ≡ false
covers-below low [] b c h = ground arith
covers-below low (x ∷ xs) b c h = ground (arith, covers-below (x.start + x.len + 1) xs b)

-- Sorted and disjoint from `low` on, with no empty span, within u64; spans may touch.
abbrev pub DisjointFrom : ℕ → List Span → Type 0
DisjointFrom low [] = Unit
DisjointFrom low (x ∷ xs) =
    (low ≤ x.start) × (0 < x.len) × IsU64 (x.start + x.len) × DisjointFrom (x.start + x.len) xs

pub CanonicalFrom-DisjointFrom :
    (low low' : ℕ) (xs : List Span) → low' ≤ low → CanonicalFrom low xs → DisjointFrom low' xs
CanonicalFrom-DisjointFrom low low' [] h c = tt
CanonicalFrom-DisjointFrom low low' (x ∷ xs) h c = (
  omega arith,
  c.1,
  c.2,
  CanonicalFrom-DisjointFrom (x.start + x.len + 1) (x.start + x.len) xs (omega arith) c.3,
)

pub DisjointFrom-mono :
    (low low' : ℕ) (xs : List Span) → low' ≤ low → DisjointFrom low xs → DisjointFrom low' xs
DisjointFrom-mono low low' [] h c = tt
DisjointFrom-mono low low' (x ∷ xs) h c = (omega arith, c.1, c.2, c.3)
