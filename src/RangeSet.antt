-- ===== src/RangeSet.antt =====
-- crates/swiftload-core/src/util/intervals.rs: `RangeSet`, its operations and queries. The spans
-- are the `Vec<(u64, u64)>` of the source; a method that mutates returns the new list.
pub mod Canonical
mod Examples
pub mod Insert
pub mod Codec
pub mod Extensional
pub mod Contains
pub mod Gaps
pub mod Trim
pub mod Refinement
use ai_gen.Prelude.{
  ℕ, ◌-◌, Bool, true, false, not, ◌&&◌, ◌||◌, Option, none, some, List, [], ◌∷◌, ◌++◌, ltb, leb,
  ◌==◌, if◌then◌else◌, get_or, take, drop, partition_point, add64, sub64, saturating_add, min64,
  max64,
}

pub record Span : Type 0 where
  pub start : ℕ
  pub len : ℕ

abbrev pub RangeSet : Type 0
RangeSet = List Span

unfoldable pub new : RangeSet
new = []

-- `s + l`
abbrev pub span_end : Span → ℕ
span_end x = add64 x.start x.len

unfoldable pub total : RangeSet → ℕ
total [] = 0
total (x ∷ xs) = add64 x.len (total xs)

-- one past the last span, or 0
unfoldable pub end : RangeSet → ℕ
end [] = 0
end (x ∷ []) = span_end x
end (x ∷ y ∷ ys) = end (y ∷ ys)

-- `self.spans.splice(lo..hi, [x])`; `Vec::insert` at `lo` is the case `hi = lo`
abbrev pub splice : ℕ → ℕ → Span → RangeSet → RangeSet
splice lo hi x xs = take lo xs ++ x ∷ drop hi xs

abbrev pub no_span : Span
no_span = record { start = 0; len = 0 }

-- `insert` from the test `lo >= hi` on. Where `lo < hi` both indices are in range, so the default of
-- `get_or` is not reached.
merge_at : ℕ → ℕ → ℕ → ℕ → ℕ → RangeSet → RangeSet
merge_at lo hi start len end spans =
    let merged_start = min64 start (get_or spans lo no_span).start in
    let merged_end = max64 end (span_end (get_or spans (hi - 1) no_span)) in
    if leb hi lo
    then splice lo lo (record { start = start; len = len }) spans
    else splice lo hi (record { start = merged_start; len = sub64 merged_end merged_start }) spans

unfoldable pub insert : RangeSet → ℕ → ℕ → RangeSet
unfolding merge_at
insert spans start len =
    if len == 0
    then spans
    else let end = saturating_add start len in
      let lo = partition_point (λ (x : Span). ltb (span_end x) start) spans in
      let hi = partition_point (λ (x : Span). leb x.start end) spans in
      merge_at lo hi start len end spans

insert_all : List Span → RangeSet → RangeSet
insert_all [] s = s
insert_all (p ∷ ps) s = insert_all ps (insert s p.start p.len)

unfoldable pub from_pairs : List Span → RangeSet
unfolding insert_all
from_pairs pairs = insert_all pairs new

-- `iter().any(…)`
any_span : (Span → Bool) → RangeSet → Bool
any_span p [] = false
any_span p (x ∷ xs) = p x || any_span p xs

unfoldable pub contains_all : RangeSet → ℕ → ℕ → Bool
unfolding any_span
contains_all spans start end =
    if leb end start
    then true
    else any_span (λ x. leb x.start start && leb (add64 start (sub64 end start)) (span_end x)) spans

-- The `for` loop with its two `continue`s; the caller has `Some` of every result.
gap_loop : RangeSet → ℕ → ℕ × Option ℕ
gap_loop [] cursor = (cursor, none)
gap_loop (x ∷ xs) cursor =
    let behind = gap_loop xs cursor in
    let inside = gap_loop xs (span_end x) in
    if leb (span_end x) cursor
    then behind
    else if leb x.start cursor
    then inside
    else (cursor, some x.start)

unfoldable pub first_gap_at_or_after : RangeSet → ℕ → Option (ℕ × Option ℕ)
unfolding gap_loop
first_gap_at_or_after spans pos = some (gap_loop spans pos)

-- `if keep { out.push(x) }`, where `rest` is what is pushed later.
abbrev pub push_if : Bool → Span → List Span → List Span
push_if keep x rest = if keep then x ∷ rest else rest

abbrev final_gap : ℕ → ℕ → List Span
final_gap end cursor =
    push_if (ltb cursor end) (record { start = cursor; len = sub64 end cursor }) []

gaps_loop : ℕ → RangeSet → ℕ → List Span
gaps_loop end [] cursor = final_gap end cursor
gaps_loop end (x ∷ xs) cursor =
    let behind = gaps_loop end xs cursor in
    let cursor' = max64 cursor (span_end x) in
    let later = gaps_loop end xs cursor' in
    if leb (span_end x) cursor
    then behind
    else if leb end x.start
    then final_gap end cursor
    else push_if (ltb cursor x.start)
        (record { start = cursor; len = sub64 (min64 x.start end) cursor })
        (if leb end cursor' then [] else later)

unfoldable pub gaps_in : RangeSet → ℕ → ℕ → List Span
unfolding gaps_loop
gaps_in spans start end = if leb end start then [] else gaps_loop end spans start

remove_loop : ℕ → ℕ → RangeSet → RangeSet
remove_loop start end [] = []
remove_loop start end (x ∷ xs) =
    if leb (span_end x) start || leb end x.start
    then x ∷ remove_loop start end xs
    else push_if (ltb x.start start) (record { start = x.start; len = sub64 start x.start })
        (push_if (ltb end (span_end x)) (record { start = end; len = sub64 (span_end x) end })
          (remove_loop start end xs))

unfoldable pub remove : RangeSet → ℕ → ℕ → RangeSet
unfolding remove_loop
remove spans start len = if len == 0 then spans else remove_loop start (add64 start len) spans

-- `retain_mut`
unfoldable pub truncate_to : RangeSet → ℕ → RangeSet
truncate_to [] limit = []
truncate_to (x ∷ xs) limit =
    push_if (not (leb limit x.start))
      (if ltb limit (span_end x) then record x { len = sub64 limit x.start } else x)
      (truncate_to xs limit)

rewind_loop : ℕ → RangeSet → RangeSet
rewind_loop margin [] = []
rewind_loop margin (x ∷ xs) =
    push_if (not (leb x.len margin)) (record x { len = sub64 x.len margin }) (rewind_loop margin xs)

unfoldable pub rewind_tails : RangeSet → ℕ → RangeSet
unfolding rewind_loop
rewind_tails spans margin = if margin == 0 then spans else rewind_loop margin spans
