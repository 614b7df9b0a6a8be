-- ===== src/RangeSet/Trim.antt =====
-- `remove`, `truncate_to` and `rewind_tails`, which only take bytes away.
use ai_gen.Prelude.{
  ℕ, sym, ◌∙◌, ◌+◌, ◌-◌, ◌↔◌, zero, suc, ◌≤◌, ◌<◌, ◌≡◌, ◌&&◌, true, not, [], ◌∷◌, arith, IsU64, ltb,
}
use ai_gen.RangeSet.{
  Span, RangeSet, remove_loop, remove, truncate_to, rewind_loop, rewind_tails, contains_all,
}
use ai_gen.RangeSet.Contains.{contains_all_iff}
use ai_gen.RangeSet.Canonical.{in_range, covers, CanonicalFrom, IsCanonical, CanonicalFrom-mono}

covers-remove_loop_step :
    (low s l b : ℕ) (x : Span) (xs : RangeSet)
    → CanonicalFrom low (x ∷ xs)
    → IsU64 (s + l)
    → 0 < l
    → covers (remove_loop s (s + l) xs) b ≡ (covers xs b && not (in_range b s l))
    → covers (remove_loop s (s + l) (x ∷ xs)) b ≡ (covers (x ∷ xs) b && not (in_range b s l))
unfolding remove_loop
covers-remove_loop_step low s l b x xs c u h ih = ground arith

covers-remove_loop :
    (low s l b : ℕ) (xs : RangeSet)
    → CanonicalFrom low xs
    → IsU64 (s + l)
    → 0 < l
    → covers (remove_loop s (s + l) xs) b ≡ (covers xs b && not (in_range b s l))
covers-remove_loop low s l b [] c u h = unfold remove_loop in ground arith
covers-remove_loop low s l b (x ∷ xs) c u h =
    covers-remove_loop_step low s l b x xs c u h
      (covers-remove_loop (x.start + x.len + 1) s l b xs c.3 u h)

remove_loop-CanonicalFrom_step :
    (low s l : ℕ) (x : Span) (xs : RangeSet)
    → CanonicalFrom low (x ∷ xs)
    → IsU64 (s + l)
    → 0 < l
    → CanonicalFrom (x.start + x.len + 1) (remove_loop s (s + l) xs)
    → CanonicalFrom low (remove_loop s (s + l) (x ∷ xs))
unfolding remove_loop
remove_loop-CanonicalFrom_step low s l x xs c u h ih = ground (
  arith,
  CanonicalFrom-mono (x.start + x.len + 1) low (remove_loop s (s + l) xs),
  CanonicalFrom-mono (x.start + x.len + 1) (s + 1) (remove_loop s (s + l) xs),
)

remove_loop-CanonicalFrom :
    (low s l : ℕ) (xs : RangeSet)
    → CanonicalFrom low xs
    → IsU64 (s + l)
    → 0 < l
    → CanonicalFrom low (remove_loop s (s + l) xs)
remove_loop-CanonicalFrom low s l [] c u h = unfold remove_loop in tt
remove_loop-CanonicalFrom low s l (x ∷ xs) c u h =
    remove_loop-CanonicalFrom_step low s l x xs c u h
      (remove_loop-CanonicalFrom (x.start + x.len + 1) s l xs c.3 u h)

covers-truncate_to :
    (low limit b : ℕ) (xs : RangeSet)
    → CanonicalFrom low xs
    → covers (truncate_to xs limit) b ≡ (covers xs b && ltb b limit)
unfolding truncate_to
covers-truncate_to low limit b [] c = ground arith
covers-truncate_to low limit b (x ∷ xs) c =
    ground (arith, covers-truncate_to (x.start + x.len + 1) limit b xs c.3)

truncate_to-CanonicalFrom :
    (low limit : ℕ) (xs : RangeSet)
    → CanonicalFrom low xs
    → CanonicalFrom low (truncate_to xs limit)
unfolding truncate_to
truncate_to-CanonicalFrom low limit [] c = tt
truncate_to-CanonicalFrom low limit (x ∷ xs) c =
    let later = truncate_to-CanonicalFrom (x.start + x.len + 1) limit xs c.3 in
    ground (
      arith,
      later,
      CanonicalFrom-mono (x.start + x.len + 1) low (truncate_to xs limit),
      CanonicalFrom-mono (x.start + x.len + 1) (limit + 1) (truncate_to xs limit),
    )

covers-rewind_loop :
    (low m b : ℕ) (xs : RangeSet)
    → CanonicalFrom low xs
    → IsU64 (b + m + 1)
    → 0 < m
    → covers (rewind_loop m xs) b ≡ contains_all xs b (b + m + 1)
unfolding rewind_loop contains_all
covers-rewind_loop low m b [] c u h = ground arith
covers-rewind_loop low m b (x ∷ xs) c u h =
    ground (arith, covers-rewind_loop (x.start + x.len + 1) m b xs c.3 u h)

rewind_loop-CanonicalFrom :
    (low m : ℕ) (xs : RangeSet) → CanonicalFrom low xs → CanonicalFrom low (rewind_loop m xs)
unfolding rewind_loop
rewind_loop-CanonicalFrom low m [] c = tt
rewind_loop-CanonicalFrom low m (x ∷ xs) c =
    let later = rewind_loop-CanonicalFrom (x.start + x.len + 1) m xs c.3 in
    ground (
      arith,
      later,
      CanonicalFrom-mono (x.start + x.len + 1) low (rewind_loop m xs),
      CanonicalFrom-mono (x.start + x.len + 1) (x.start + (x.len - m) + 1) (rewind_loop m xs),
    )

contains_all_one :
    (low b : ℕ) (xs : RangeSet)
    → CanonicalFrom low xs
    → IsU64 (b + 1)
    → covers xs b ≡ contains_all xs b (b + 0 + 1)
unfolding contains_all
contains_all_one low b [] c u = ground arith
contains_all_one low b (x ∷ xs) c u =
    ground (arith, contains_all_one (x.start + x.len + 1) b xs c.3 u)

covers-rewind_tails :
    (xs : RangeSet) (m b : ℕ)
    → IsCanonical xs
    → IsU64 (b + m + 1)
    → covers (rewind_tails xs m) b ≡ contains_all xs b (b + m + 1)
unfolding rewind_tails
covers-rewind_tails xs zero b c u = contains_all_one 0 b xs c (omega arith)
covers-rewind_tails xs (suc m) b c u =
    ground (arith, covers-rewind_loop 0 (suc m) b xs c u (omega arith))

rewind_tails-IsCanonical :
    (xs : RangeSet) (m : ℕ) → IsCanonical xs → IsCanonical (rewind_tails xs m)
unfolding rewind_tails
rewind_tails-IsCanonical xs m c = ground (arith, rewind_loop-CanonicalFrom 0 m xs c)

-- Removing a range that ends within u64 from a canonical set takes away exactly its bytes, and the
-- set stays canonical.
pub covers-remove :
    (xs : RangeSet) (start len b : ℕ)
    → IsCanonical xs
    → IsU64 (start + len)
    → (covers (remove xs start len) b ≡ (covers xs b && not (in_range b start len)))
      × IsCanonical (remove xs start len)
unfolding remove
covers-remove xs s l b c u =
    ground (arith, covers-remove_loop 0 s l b xs c u, remove_loop-CanonicalFrom 0 s l xs c u)

-- Truncating a canonical set keeps exactly the covered bytes below the limit, and keeps the set
-- canonical.
pub covers-truncate :
    (xs : RangeSet) (limit b : ℕ)
    → IsCanonical xs
    → (covers (truncate_to xs limit) b ≡ (covers xs b && ltb b limit))
      × IsCanonical (truncate_to xs limit)
covers-truncate xs limit b c =
    (covers-truncate_to 0 limit b xs c, truncate_to-CanonicalFrom 0 limit xs c)

-- A byte of a canonical set survives the rewind exactly if it and the `margin` bytes behind it are
-- all covered, and the set stays canonical; `b + margin + 1` is taken to be within u64.
pub covers-rewind :
    (xs : RangeSet) (margin b : ℕ)
    → IsCanonical xs
    → IsU64 (b + margin + 1)
    → ((covers (rewind_tails xs margin) b ≡ true)
        ↔ ((a : ℕ) → b ≤ a → a ≤ b + margin → covers xs a ≡ true))
      × IsCanonical (rewind_tails xs margin)
covers-rewind xs m b c u =
    let held = contains_all_iff xs b (b + m + 1) c u in
    (
      (
        λ h a p q. held.0 (sym (covers-rewind_tails xs m b c u) ∙ h) a p (omega arith),
        λ h. covers-rewind_tails xs m b c u ∙ held.1 (λ a p q. h a p (omega arith)),
      ),
      rewind_tails-IsCanonical xs m c,
    )
