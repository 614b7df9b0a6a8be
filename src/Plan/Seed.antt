-- ===== src/Plan/Seed.antt =====
-- `seed` cuts the unclaimed gaps into more pieces and changes nothing else.
use ai_gen.Prelude.{
  ℕ, ◌⊎◌, zero, suc, ◌+◌, ◌-◌, ◌*◌, ◌/◌, ◌≤◌, ◌<◌, ◌≡◌, refl, true, false, none, some, List, [],
  ◌∷◌, ◌++◌, arith, ltb, leb, IsU64, ◌∙◌, ◌==◌, ◌||◌, inl, inr, Option-cases, Bool-cases, length,
  get_or, take, drop, add64, sub64,
}
use mathlib.Core.Path.{subst}
use ai_gen.Config.{min_segment}
use ai_gen.RangeSet.{Span, no_span}
use ai_gen.RangeSet.Canonical.{in_range}
use ai_gen.Plan.{Plan, seed}
use ai_gen.Plan.Pieces.{
  align_up, longest, sort_by_start, insert_sorted, split_at, split_longest, seed_loop,
}
use ai_gen.Plan.Spans.{
  bit, hits, AllFit, hits-append, AllFit-append, longest_bound, AllFit-at, hits-sort_by_start,
  sort_by_start-AllFit,
}
use ai_gen.Plan.Owners.{owners, IsValid}

-- Writing at an index, in the form of the source.
hits_written :
    (xs : List Span) (i b : ℕ) (x : Span)
    → i < length xs
    → hits (take i xs ++ x ∷ drop (suc i) xs) b
        + bit (in_range b (get_or xs i no_span).start (get_or xs i no_span).len)
      ≡ hits xs b + bit (in_range b x.start x.len)
hits_written [] i b x h = absurd (omega arith)
hits_written (y ∷ ys) zero b x h = omega arith
hits_written (y ∷ ys) (suc i) b x h = omega (arith, hits_written ys i b x (omega arith))

AllFit-written :
    (xs : List Span) (i : ℕ) (x : Span)
    → 0 < x.len
    → IsU64 (x.start + x.len)
    → AllFit xs
    → AllFit (take i xs ++ x ∷ drop (suc i) xs)
AllFit-written [] zero x p u c = (p, u, tt)
AllFit-written [] (suc i) x p u c = (p, u, tt)
AllFit-written (y ∷ ys) zero x p u c = (p, u, c.2)
AllFit-written (y ∷ ys) (suc i) x p u c = (c.0, c.1, AllFit-written ys i x p u c.2)

-- The gap at `i` cut after `half` bytes.
cut : List Span → ℕ → ℕ → List Span
cut free i half =
    let piece = get_or free i no_span in
    (take i free ++ record { start = piece.start; len = half } ∷ drop (suc i) free)
    ++ record { start = piece.start + half; len = piece.len - half } ∷ []

hits-cut :
    (free : List Span) (i half b : ℕ)
    → i < length free
    → half < (get_or free i no_span).len
    → hits (cut free i half) b ≡ hits free b
unfolding cut
hits-cut free i half b h p =
    let piece = get_or free i no_span in
    rw hits-append
      (ground (arith, hits_written free i b (record { start = piece.start; len = half }) h))

cut-AllFit :
    (free : List Span) (i half : ℕ)
    → i < length free
    → 0 < half
    → half < (get_or free i no_span).len
    → AllFit free
    → AllFit (cut free i half)
unfolding cut
cut-AllFit free i half h p q c =
    let fits = AllFit-at free i h c in
    AllFit-append _ _ (AllFit-written free i _ p (omega arith) c) (omega arith, omega arith, tt)

-- A split is refused, or it cuts the longest gap strictly inside.
split_at_cases :
    (free : List Span) (i : ℕ)
    → i < length free
    → AllFit free
    → (split_at free i ≡ none)
      ⊎ ((half : ℕ) × (0 < half)
          × (half < (get_or free i no_span).len)
          × (split_at free i ≡ some (sort_by_start (cut free i half))))
unfolding split_at cut
split_at_cases free i h c =
    let fits = AllFit-at free i h c in
    let piece = get_or free i no_span in
    let half = align_up (piece.len / 2) in
    elim (Bool-cases (ltb piece.len (min_segment * 2))) [
      | inl small ↦ inl (rw small refl)
      | inr large ↦ elim (Bool-cases (half == 0 || leb piece.len half)) [
        | inl outside ↦ inl (rw (large, outside) refl)
        | inr inside ↦ inr (
          half,
          ground arith,
          ground arith,
          let stop : add64 piece.start half ≡ piece.start + half = ground arith in
              let left : sub64 piece.len half ≡ piece.len - half = ground arith in
              rw (large, inside, stop, left) refl,
        )
      ]
    ]

-- A round of the loop keeps the bytes, and makes the list longer by one.
record Rearranged (free free' : List Span) : Type 0 where
  fits : AllFit free'
  same : (b : ℕ) → hits free' b ≡ hits free b

split_longest_at :
    (free : List Span) (i : ℕ) → longest free ≡ some i → split_longest free ≡ split_at free i
unfolding split_longest
split_longest_at free i e = rw (e, split_longest) refl

split_longest-none : (free : List Span) → longest free ≡ none → split_longest free ≡ none
unfolding split_longest
split_longest-none free e = rw (e, split_longest) refl

split_longest_keeps :
    (free free' : List Span) → AllFit free → split_longest free ≡ some free' → Rearranged free free'
split_longest_keeps free free' c e = elim (Option-cases (longest free)) [
  | inl n ↦ cc (split_longest-none free n)
  | inr (i, f) ↦
      let bound = longest_bound free i f in
      elim (split_at_cases free i bound c) [
        | inl n ↦ cc (split_longest_at free i f)
        | inr (half, p, q, r) ↦
            let known : sort_by_start (cut free i half) ≡ free' = cc (split_longest_at free i f) in
            subst (Rearranged free) known (record {
              fits = sort_by_start-AllFit (cut free i half) (cut-AllFit free i half bound p q c);
              same = λ b. hits-sort_by_start (cut free i half) b ∙ hits-cut free i half b bound q;
            })
      ]
]

seed_loop_keeps :
    (fuel n : ℕ) (free : List Span) → AllFit free → Rearranged free (seed_loop fuel n free)
unfolding seed_loop
seed_loop_keeps zero n free c = record { fits = c; same = λ b. refl }
seed_loop_keeps (suc fuel) n free c = elim (Bool-cases (ltb (length free) n)) [
  | inr enough ↦ rw enough (record { fits = c; same = λ b. refl })
  | inl more ↦ elim (Option-cases (split_longest free)) [
    | inl e ↦ rw more (rw (e, seed_loop) (record { fits = c; same = λ b. refl }))
    | inr (free', e) ↦
        let step = split_longest_keeps free free' c e in
        let rest = seed_loop_keeps fuel n free' step.fits in
        rw more
          (rw (e, seed_loop) (record { fits = rest.fits; same = λ b. rest.same b ∙ step.same b }))
  ]
]

-- Seeding a valid plan for any number of workers leaves each byte as many owners as it had, and the
-- plan valid.
pub seed-IsValid :
    (p : Plan) (n : ℕ)
    → IsValid p
    → ((b : ℕ) → owners (seed p n) b ≡ owners p b) × IsValid (seed p n)
unfolding seed
seed-IsValid p n v = elim (Bool-cases (leb n 1 || leb n (length p.free))) [
  | inl none_needed ↦ rw none_needed (λ b. refl, v)
  | inr needed ↦
      let cuts = seed_loop_keeps n n p.free v.fits in
      rw needed (
        λ b. omega (arith, cuts.same b),
        record {
          fits = cuts.fits;
          store = v.store;
          exclusive = λ b. omega (arith, cuts.same b, v.exclusive b);
        },
      )
]

half_of_small :
    (len : ℕ)
    → min_segment * 2 + 2 ≤ len
    → len < 5 * 1024 * 1024
    → align_up (len / 2) ≡ 3 * 1024 * 1024
half_of_small len p q = omega arith

-- Of a gap within u64 of at least 4 MiB and two bytes, but below 5 MiB, the second piece is smaller than
-- `min_segment`.
pub seed_small_piece :
    (start len : ℕ)
    → min_segment * 2 + 2 ≤ len
    → len < 5 * 1024 * 1024
    → IsU64 (start + len)
    → (rest : ℕ) × (split_longest (record { start = start; len = len } ∷ [])
        ≡ some (
            record { start = start; len = 3 * 1024 * 1024 }
            ∷ record { start = start + 3 * 1024 * 1024; len = rest }
            ∷ []))
      × (rest < min_segment)
unfolding split_longest split_at longest sort_by_start insert_sorted
seed_small_piece start len p q u =
    let half = half_of_small len p q in
    let large : ltb len (min_segment * 2) ≡ false = ground arith in
    let inside : leb len (3 * 1024 * 1024) ≡ false = ground arith in
    let stop : add64 start (3 * 1024 * 1024) ≡ start + 3 * 1024 * 1024 = ground arith in
    let left : sub64 len (3 * 1024 * 1024) ≡ len - 3 * 1024 * 1024 = ground arith in
    let order : leb start (start + 3 * 1024 * 1024) ≡ true = ground arith in
    (len - 3 * 1024 * 1024, rw (half, large, inside, stop, left, order) refl, omega arith)
