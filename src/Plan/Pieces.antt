-- ===== src/Plan/Pieces.antt =====
-- plan.rs, the lists of unclaimed gaps: the longest one, sorting, merging, and splitting to seed the
-- workers.
use ai_gen.Prelude.{
  ℕ, zero, suc, ◌+◌, ◌-◌, ◌*◌, ◌/◌, ◌%◌, ◌||◌, Option, none, some, List, [], ◌∷◌, ◌++◌, ltb, leb,
  ◌==◌, if◌then◌else◌, length, get_or, take, drop, u64_mod, add64, sub64, max64,
}
use ai_gen.Config.{min_segment}
use ai_gen.RangeSet.{Span, span_end, no_span}

abbrev pub split_align : ℕ
split_align = 1024 * 1024

-- `v.div_ceil(SPLIT_ALIGN) * SPLIT_ALIGN`
abbrev pub align_up : ℕ → ℕ
align_up v = (v + (split_align - 1)) / split_align * split_align % u64_mod

-- `max_by_key(len)` with its index: the last of the longest spans.
unfoldable pub longest : List Span → Option ℕ
longest [] = none
longest (x ∷ xs) = elim (longest xs) [
  | none ↦ some 0
  | some i ↦ if leb x.len (get_or xs i no_span).len then some (suc i) else some 0
]

-- `sort_unstable_by_key(start)`
unfoldable pub insert_sorted : Span → List Span → List Span
insert_sorted x [] = x ∷ []
insert_sorted x (y ∷ ys) =
    let later = y ∷ insert_sorted x ys in if leb x.start y.start then x ∷ y ∷ ys else later

unfoldable pub sort_by_start : List Span → List Span
unfolding insert_sorted
sort_by_start [] = []
sort_by_start (x ∷ xs) = insert_sorted x (sort_by_start xs)

-- The loop of `merge_free` behind its first round; `last` is `out.last_mut()`.
unfoldable pub merge_loop : Span → List Span → List Span
merge_loop last [] = last ∷ []
merge_loop last (x ∷ xs) =
    let joined =
      merge_loop (record last { len = sub64 (max64 (span_end last) (span_end x)) last.start }) xs in
    let apart = last ∷ merge_loop x xs in if leb x.start (span_end last) then joined else apart

unfoldable pub merge_free : List Span → List Span
unfolding merge_loop
merge_free [] = []
merge_free (x ∷ xs) = merge_loop x xs

-- One round of the `while` of `seed`: `none` where the source breaks.
unfoldable pub split_at : List Span → ℕ → Option (List Span)
split_at free idx =
    let piece = get_or free idx no_span in
    let half = align_up (piece.len / 2) in
    if ltb piece.len (min_segment * 2)
    then none
    else if half == 0 || leb piece.len half
    then none
    else some (
        sort_by_start (
          (take idx free ++ record { start = piece.start; len = half } ∷ drop (suc idx) free)
          ++ record { start = add64 piece.start half; len = sub64 piece.len half } ∷ []))

unfoldable pub split_longest : List Span → Option (List Span)
unfolding longest split_at
split_longest free = elim (longest free) [ none ↦ none | some idx ↦ split_at free idx ]

-- A round makes the list longer by one, so `n` rounds are enough.
unfoldable pub seed_loop : ℕ → ℕ → List Span → List Span
unfolding split_longest
seed_loop zero n free = free
seed_loop (suc fuel) n free =
    if ltb (length free) n
    then (elim (split_longest free) [ none ↦ free | some free' ↦ seed_loop fuel n free' ])
    else free
