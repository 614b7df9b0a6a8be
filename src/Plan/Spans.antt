-- ===== src/Plan/Spans.antt =====
-- How often a list of spans holds a byte, and what sorting and merging make of it.
use ai_gen.Prelude.{
  dec_lt, inl, inr, Option-cases, max64, sub64, ℕ, zero, suc, ◌+◌, ◌≤◌, ◌<◌, ◌≡◌, refl, Bool, true,
  false, none, some, List, [], ◌∷◌, ◌++◌, arith, length, get_or, take, drop, IsU64, ◌∙◌,
}
use ai_gen.RangeSet.{Span, no_span, span_end}
use ai_gen.RangeSet.Canonical.{
  in_range, DisjointFrom, CanonicalFrom, IsCanonical, DisjointFrom-mono,
}
use ai_gen.Plan.Pieces.{longest, insert_sorted, sort_by_start, merge_loop, merge_free}

abbrev pub bit : Bool → ℕ
bit true = 1
bit false = 0

-- How many spans hold byte `b`.
abbrev pub hits : List Span → ℕ → ℕ
hits [] b = 0
hits (x ∷ xs) b = bit (in_range b x.start x.len) + hits xs b

-- No span is empty, and all end within u64.
abbrev pub AllFit : List Span → Type 0
AllFit [] = Unit
AllFit (x ∷ xs) = (0 < x.len) × IsU64 (x.start + x.len) × AllFit xs

abbrev pub SortedFrom : ℕ → List Span → Type 0
SortedFrom low [] = Unit
SortedFrom low (x ∷ xs) = (low ≤ x.start) × SortedFrom x.start xs

pub hits-append : (xs ys : List Span) (b : ℕ) → hits (xs ++ ys) b ≡ hits xs b + hits ys b
hits-append [] ys b = omega arith
hits-append (x ∷ xs) ys b = omega (arith, hits-append xs ys b)

pub AllFit-append : (xs ys : List Span) → AllFit xs → AllFit ys → AllFit (xs ++ ys)
AllFit-append [] ys p q = q
AllFit-append (x ∷ xs) ys p q = (p.0, p.1, AllFit-append xs ys p.2 q)

pub longest_bound : (xs : List Span) (i : ℕ) → longest xs ≡ some i → i < length xs
unfolding longest
longest_bound [] i e = cc
longest_bound (x ∷ xs) i e = elim (Option-cases (longest xs)) [
  | inl p ↦ ground arith
  | inr (j, p) ↦ ground (arith, longest_bound xs j p)
]

pub longest-none : (xs : List Span) → longest xs ≡ none → xs ≡ []
unfolding longest
longest-none [] e = refl
longest-none (x ∷ xs) e = ground arith

-- Taking out the span at an index.
pub hits_without :
    (xs : List Span) (i b : ℕ)
    → i < length xs
    → hits (take i xs ++ drop (suc i) xs) b
        + bit (in_range b (get_or xs i no_span).start (get_or xs i no_span).len)
      ≡ hits xs b
hits_without [] i b h = absurd (omega arith)
hits_without (x ∷ xs) zero b h = omega arith
hits_without (x ∷ xs) (suc i) b h = omega (arith, hits_without xs i b (omega arith))

pub AllFit-without : (xs : List Span) (i : ℕ) → AllFit xs → AllFit (take i xs ++ drop (suc i) xs)
AllFit-without [] zero c = tt
AllFit-without [] (suc i) c = tt
AllFit-without (x ∷ xs) zero c = c.2
AllFit-without (x ∷ xs) (suc i) c = (c.0, c.1, AllFit-without xs i c.2)

pub AllFit-at :
    (xs : List Span) (i : ℕ)
    → i < length xs
    → AllFit xs
    → (0 < (get_or xs i no_span).len)
      × IsU64 ((get_or xs i no_span).start + (get_or xs i no_span).len)
AllFit-at [] i h c = absurd (omega arith)
AllFit-at (x ∷ xs) zero h c = (c.0, c.1)
AllFit-at (x ∷ xs) (suc i) h c = AllFit-at xs i (omega arith) c.2

hits-insert_sorted :
    (x : Span) (ys : List Span) (b : ℕ) → hits (insert_sorted x ys) b ≡ hits (x ∷ ys) b
unfolding insert_sorted
hits-insert_sorted x [] b = refl
hits-insert_sorted x (y ∷ ys) b = ground (arith, hits-insert_sorted x ys b)

insert_sorted-AllFit : (x : Span) (ys : List Span) → AllFit (x ∷ ys) → AllFit (insert_sorted x ys)
unfolding insert_sorted
insert_sorted-AllFit x [] c = c
insert_sorted-AllFit x (y ∷ ys) c = ground (arith, insert_sorted-AllFit x ys)

insert_sorted-SortedFrom :
    (low : ℕ) (x : Span) (ys : List Span)
    → low ≤ x.start
    → SortedFrom low ys
    → SortedFrom low (insert_sorted x ys)
unfolding insert_sorted
insert_sorted-SortedFrom low x [] h c = (h, tt)
insert_sorted-SortedFrom low x (y ∷ ys) h c = ground (arith, insert_sorted-SortedFrom y.start x ys)

pub hits-sort_by_start : (xs : List Span) (b : ℕ) → hits (sort_by_start xs) b ≡ hits xs b
unfolding sort_by_start
hits-sort_by_start [] b = refl
hits-sort_by_start (x ∷ xs) b =
    hits-insert_sorted x (sort_by_start xs) b ∙ omega (arith, hits-sort_by_start xs b)

pub sort_by_start-AllFit : (xs : List Span) → AllFit xs → AllFit (sort_by_start xs)
unfolding sort_by_start
sort_by_start-AllFit [] c = tt
sort_by_start-AllFit (x ∷ xs) c =
    insert_sorted-AllFit x (sort_by_start xs) (c.0, c.1, sort_by_start-AllFit xs c.2)

pub sort_by_start-SortedFrom : (xs : List Span) → SortedFrom 0 (sort_by_start xs)
unfolding sort_by_start
sort_by_start-SortedFrom [] = tt
sort_by_start-SortedFrom (x ∷ xs) =
    insert_sorted-SortedFrom 0 x (sort_by_start xs) (omega arith) (sort_by_start-SortedFrom xs)

-- A sorted list in which no byte is held twice is disjoint.
pub sorted-DisjointFrom :
    (low : ℕ) (xs : List Span)
    → SortedFrom low xs
    → AllFit xs
    → ((b : ℕ) → hits xs b ≤ 1)
    → DisjointFrom low xs
sorted-DisjointFrom low [] s c h = tt
sorted-DisjointFrom low (x ∷ []) s c h = (s.0, c.0, c.1, tt)
sorted-DisjointFrom low (x ∷ y ∷ ys) s c h =
    let apart : x.start + x.len ≤ y.start = ground (arith, h y.start) in
    let rest =
      sorted-DisjointFrom y.start (y ∷ ys) (omega arith, s.1.1) c.2 (λ b. omega (arith, h b)) in
    (s.0, c.0, c.1, (apart, rest.1, rest.2, rest.3))

abbrev join : Span → Span → Span
join last x = record { start = last.start; len = last.len + x.len }

merge_loop_touch :
    (low : ℕ) (last x : Span) (xs : List Span)
    → DisjointFrom low (last ∷ x ∷ xs)
    → x.start ≤ last.start + last.len
    → merge_loop last (x ∷ xs) ≡ merge_loop (join last x) xs
unfolding merge_loop
merge_loop_touch low last x xs c h =
    let joined : sub64 (max64 (span_end last) (span_end x)) last.start ≡ last.len + x.len =
      ground arith in
    rw joined (ground arith)

merge_loop_apart :
    (low : ℕ) (last x : Span) (xs : List Span)
    → DisjointFrom low (last ∷ x ∷ xs)
    → last.start + last.len < x.start
    → merge_loop last (x ∷ xs) ≡ last ∷ merge_loop x xs
unfolding merge_loop
merge_loop_apart low last x xs c h = ground arith

join-DisjointFrom :
    (low : ℕ) (last x : Span) (xs : List Span)
    → DisjointFrom low (last ∷ x ∷ xs)
    → x.start ≤ last.start + last.len
    → DisjointFrom low (join last x ∷ xs)
join-DisjointFrom low last x xs c h = (
  c.0,
  omega arith,
  omega arith,
  DisjointFrom-mono (x.start + x.len) (last.start + (last.len + x.len)) xs (omega arith) c.3.3,
)

merge_loop-CanonicalFrom :
    (low : ℕ) (last : Span) (xs : List Span)
    → DisjointFrom low (last ∷ xs)
    → CanonicalFrom low (merge_loop last xs)
merge_loop-CanonicalFrom low last [] c = unfold merge_loop in c
merge_loop-CanonicalFrom low last (x ∷ xs) c = elim (dec_lt (last.start + last.len) x.start) [
  | yes apart ↦ rw (merge_loop_apart low last x xs c apart) (
    c.0,
    c.1,
    c.2,
    merge_loop-CanonicalFrom (last.start + last.len + 1) x xs (omega arith, c.3.1, c.3.2, c.3.3),
  )
  | no near ↦ rw (merge_loop_touch low last x xs c (omega arith)) (
      merge_loop-CanonicalFrom low (join last x) xs
        (join-DisjointFrom low last x xs c (omega arith)))
]

hits-merge_loop :
    (low b : ℕ) (last : Span) (xs : List Span)
    → DisjointFrom low (last ∷ xs)
    → hits (merge_loop last xs) b ≡ hits (last ∷ xs) b
hits-merge_loop low b last [] c = unfold merge_loop in refl
hits-merge_loop low b last (x ∷ xs) c = elim (dec_lt (last.start + last.len) x.start) [
  | yes apart ↦
      rw (merge_loop_apart low last x xs c apart)
        (omega (arith, hits-merge_loop (last.start + last.len) b x xs c.3))
  | no near ↦ rw (merge_loop_touch low last x xs c (omega arith)) (
      hits-merge_loop low b (join last x) xs (join-DisjointFrom low last x xs c (omega arith))
      ∙ ground arith)
]

pub merge_free-IsCanonical : (xs : List Span) → DisjointFrom 0 xs → IsCanonical (merge_free xs)
unfolding merge_free
merge_free-IsCanonical [] c = tt
merge_free-IsCanonical (x ∷ xs) c = merge_loop-CanonicalFrom 0 x xs c

pub hits-merge_free :
    (xs : List Span) (b : ℕ) → DisjointFrom 0 xs → hits (merge_free xs) b ≡ hits xs b
unfolding merge_free
hits-merge_free [] b c = refl
hits-merge_free (x ∷ xs) b c = hits-merge_loop 0 b x xs c

pub CanonicalFrom-AllFit : (low : ℕ) (xs : List Span) → CanonicalFrom low xs → AllFit xs
CanonicalFrom-AllFit low [] c = tt
CanonicalFrom-AllFit low (x ∷ xs) c = (c.1, c.2, CanonicalFrom-AllFit (x.start + x.len + 1) xs c.3)
