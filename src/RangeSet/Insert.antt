-- ===== src/RangeSet/Insert.antt =====
-- `RangeSet::insert` against a one-pass merge, and what it does to the set of bytes.
use ai_gen.Prelude.{
  ℕ, zero, suc, ◌+◌, ◌-◌, ◌≤◌, ◌<◌, ◌≡◌, refl, ◌∙◌, true, false, ◌||◌, [], ◌∷◌, arith, ltb, leb,
  if◌then◌else◌, dec_lt, IsU64, min64, max64, partition_point, get_or, drop,
}
use ai_gen.RangeSet.{Span, RangeSet, span_end, merge_at, insert, no_span}
use ai_gen.RangeSet.Canonical.{in_range, covers, CanonicalFrom, IsCanonical}

-- The end of the merge that starts at `x` and takes in every later span that starts by `e`.
absorbed_end : ℕ → Span → RangeSet → ℕ
absorbed_end e x [] = max64 e (x.start + x.len)
absorbed_end e x (y ∷ ys) =
    let later = absorbed_end e y ys in if leb y.start e then later else max64 e (x.start + x.len)

absorbed_rest : ℕ → RangeSet → RangeSet
absorbed_rest e [] = []
absorbed_rest e (y ∷ ys) = let later = absorbed_rest e ys in if leb y.start e then later else y ∷ ys

merge_in : ℕ → ℕ → RangeSet → RangeSet
merge_in s l [] = record { start = s; len = l } ∷ []
merge_in s l (x ∷ xs) =
    let later = merge_in s l xs in
    if ltb (x.start + x.len) s
    then x ∷ later
    else if ltb (s + l) x.start
    then record { start = s; len = l } ∷ x ∷ xs
    else record { start = min64 s x.start; len = absorbed_end (s + l) x xs - min64 s x.start }
      ∷ absorbed_rest (s + l) xs

absorbed_end_bounds :
    (e : ℕ) (x : Span) (xs : RangeSet)
    → IsU64 e
    → CanonicalFrom x.start (x ∷ xs)
    → (e ≤ absorbed_end e x xs)
      × (x.start + x.len ≤ absorbed_end e x xs)
      × IsU64 (absorbed_end e x xs)
unfolding absorbed_end
absorbed_end_bounds e x [] h c = ground arith
absorbed_end_bounds e x (y ∷ ys) h c = ground (arith, absorbed_end_bounds e y ys)

absorbed_rest-CanonicalFrom :
    (e : ℕ) (x : Span) (xs : RangeSet)
    → IsU64 e
    → CanonicalFrom x.start (x ∷ xs)
    → CanonicalFrom (absorbed_end e x xs + 1) (absorbed_rest e xs)
unfolding absorbed_end absorbed_rest
absorbed_rest-CanonicalFrom e x [] h c = tt
absorbed_rest-CanonicalFrom e x (y ∷ ys) h c = ground (arith, absorbed_rest-CanonicalFrom e y ys)

merge_in-CanonicalFrom :
    (low s l : ℕ) (xs : RangeSet)
    → low ≤ s
    → 0 < l
    → IsU64 (s + l)
    → CanonicalFrom low xs
    → CanonicalFrom low (merge_in s l xs)
unfolding merge_in
merge_in-CanonicalFrom low s l [] a b h c = (a, b, h, tt)
merge_in-CanonicalFrom low s l (x ∷ xs) a b h c = ground (
  arith,
  merge_in-CanonicalFrom (x.start + x.len + 1) s l xs,
  absorbed_end_bounds (s + l) x xs,
  absorbed_rest-CanonicalFrom (s + l) x xs,
)

covers-absorbed :
    (s e b : ℕ) (x : Span) (xs : RangeSet)
    → IsU64 e
    → CanonicalFrom x.start (x ∷ xs)
    → s ≤ x.start + x.len
    → x.start ≤ e
    → s ≤ e
    → (in_range b (min64 s x.start) (absorbed_end e x xs - min64 s x.start)
        || covers (absorbed_rest e xs) b)
      ≡ (covers (x ∷ xs) b || in_range b s (e - s))
unfolding absorbed_end absorbed_rest
covers-absorbed s e b x [] h c p q r = ground arith
covers-absorbed s e b x (y ∷ ys) h c p q r =
    ground (arith, absorbed_end_bounds e y ys, covers-absorbed s e b y ys)

covers-merge_in :
    (low s l b : ℕ) (xs : RangeSet)
    → 0 < l
    → IsU64 (s + l)
    → CanonicalFrom low xs
    → covers (merge_in s l xs) b ≡ (covers xs b || in_range b s l)
unfolding merge_in
covers-merge_in low s l b [] a h c = ground arith
covers-merge_in low s l b (x ∷ xs) a h c = ground (
  arith,
  covers-merge_in (x.start + x.len + 1) s l b xs,
  covers-absorbed s (s + l) b x xs,
  absorbed_end_bounds (s + l) x xs,
)

abbrev starts_by : ℕ → RangeSet → ℕ
starts_by e = partition_point (λ (x : Span). leb x.start e)

absorbed_end_lem :
    (e : ℕ) (x : Span) (xs : RangeSet)
    → CanonicalFrom x.start (x ∷ xs)
    → max64 e (span_end (get_or (x ∷ xs) (starts_by e xs) no_span)) ≡ absorbed_end e x xs
unfolding absorbed_end
absorbed_end_lem e x [] c = ground arith
absorbed_end_lem e x (y ∷ ys) c = ground (arith, absorbed_end_lem e y ys)

absorbed_rest_lem : (e : ℕ) (xs : RangeSet) → drop (starts_by e xs) xs ≡ absorbed_rest e xs
unfolding absorbed_rest
absorbed_rest_lem e [] = refl
absorbed_rest_lem e (y ∷ ys) = ground (arith, absorbed_rest_lem e ys)

abbrev ends_before : ℕ → RangeSet → ℕ
ends_before s = partition_point (λ (x : Span). ltb (span_end x) s)

merge_at-cons :
    (lo hi s l e : ℕ) (x : Span) (xs : RangeSet)
    → merge_at (suc lo) (suc hi) s l e (x ∷ xs) ≡ x ∷ merge_at lo hi s l e xs
unfolding merge_at
merge_at-cons lo zero s l e x xs = ground arith
merge_at-cons lo (suc hi) s l e x xs = ground arith

insert_lem :
    (s l : ℕ) (xs : RangeSet)
    → 0 < l
    → IsU64 (s + l)
    → insert xs s l ≡ merge_at (ends_before s xs) (starts_by (s + l) xs) s l (s + l) xs
unfolding insert
insert_lem s l xs p h = ground arith

merge_at_first :
    (s l : ℕ) (x : Span) (xs : RangeSet)
    → IsU64 (s + l)
    → CanonicalFrom x.start (x ∷ xs)
    → x.start ≤ s + l
    → merge_at 0 (suc (starts_by (s + l) xs)) s l (s + l) (x ∷ xs)
      ≡ record { start = min64 s x.start; len = absorbed_end (s + l) x xs - min64 s x.start }
        ∷ absorbed_rest (s + l) xs
unfolding merge_at
merge_at_first s l x xs h c p = ground (
  arith,
  absorbed_end_lem (s + l) x xs,
  absorbed_rest_lem (s + l) xs,
  absorbed_end_bounds (s + l) x xs,
)

merge_at-merge_in :
    (low s l : ℕ) (xs : RangeSet)
    → 0 < l
    → IsU64 (s + l)
    → CanonicalFrom low xs
    → merge_at (ends_before s xs) (starts_by (s + l) xs) s l (s + l) xs ≡ merge_in s l xs
unfolding merge_in
merge_at-merge_in low s l [] p h c = unfold merge_at in refl
merge_at-merge_in low s l (x ∷ xs) p h c = elim (dec_lt (x.start + x.len) s) [
  | yes before ↦
      let earlier : ltb (span_end x) s ≡ true = ground arith in
      let starts : leb x.start (s + l) ≡ true = ground arith in
      rw (earlier, starts)
        (rw merge_at-cons (ground (arith, merge_at-merge_in (x.start + x.len + 1) s l xs)))
  | no late ↦
      let touches : ltb (span_end x) s ≡ false = ground arith in
      elim (dec_lt (s + l) x.start) [
        | yes after ↦
            let follows : leb x.start (s + l) ≡ false = ground arith in
            rw (touches, follows) (unfold merge_at in ground arith)
        | no meets ↦
            let starts : leb x.start (s + l) ≡ true = ground arith in
            rw (touches, starts) (ground (arith, merge_at_first s l x xs))
      ]
]

insert-merge_in :
    (s l : ℕ) (xs : RangeSet)
    → 0 < l
    → IsU64 (s + l)
    → IsCanonical xs
    → insert xs s l ≡ merge_in s l xs
insert-merge_in s l xs p h c = insert_lem s l xs p h ∙ merge_at-merge_in 0 s l xs p h c

insert_zero : (s : ℕ) (xs : RangeSet) → insert xs s 0 ≡ xs
unfolding insert
insert_zero s xs = refl

-- Inserting a range that ends within u64 keeps the set canonical.
pub insert-IsCanonical :
    (xs : RangeSet) (start len : ℕ)
    → IsCanonical xs
    → IsU64 (start + len)
    → IsCanonical (insert xs start len)
insert-IsCanonical xs s zero c h = rw insert_zero c
insert-IsCanonical xs s (suc l) c h =
    rw (insert-merge_in s (suc l) xs (omega arith) h c)
      (merge_in-CanonicalFrom 0 s (suc l) xs (omega arith) (omega arith) h c)

-- After an insert into a canonical set, of a range that ends within u64, the bytes covered are
-- those of the set and those of the range, and no others.
pub covers-insert :
    (xs : RangeSet) (start len b : ℕ)
    → IsCanonical xs
    → IsU64 (start + len)
    → covers (insert xs start len) b ≡ (covers xs b || in_range b start len)
covers-insert xs s zero b c h = rw insert_zero (ground arith)
covers-insert xs s (suc l) b c h =
    rw (insert-merge_in s (suc l) xs (omega arith) h c)
      (covers-merge_in 0 s (suc l) b xs (omega arith) h c)
