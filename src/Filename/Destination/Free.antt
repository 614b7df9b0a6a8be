-- ===== src/Filename/Destination/Free.antt =====
-- crates/swiftload-core/src/util/filename.rs: the name that `dedupe` picks.
use ai_gen.Prelude.{
  ℕ, zero, suc, ◌+◌, ◌≡◌, ◌≤◌, ◌<◌, refl, Bool, true, false, not, Option, none, some, ◌∷◌, ◌++◌,
  Text, arith, sym, ap, ◌∙◌, dec_lt, if_both_eq,
}
use ai_gen.Filename.{rsplit_once, dot}
use ai_gen.Filename.Destination.{parts_of, candidate_of, first_free, or_fresh, dedupe}
use mathlib.Core.Path.{subst⁻¹}

abbrev pub numbered_of : Text → ℕ → Text
numbered_of filename n = candidate_of (parts_of filename (rsplit_once dot filename)) n

-- A number of the range whose name is free where all smaller ones are taken; or all are taken.
Found : (Text → Bool) → Text × Option Text → (n count : ℕ) → Option Text → Type 0
Found exists parts n count none =
    (i : ℕ) → n ≤ i → i < n + count → exists (candidate_of parts i) ≡ true
Found exists parts n count (some name) =
    (exists name ≡ false)
    × ((k : ℕ) × (n ≤ k)
        × (k < n + count)
        × (name ≡ candidate_of parts k)
        × ((i : ℕ) → n ≤ i → i < k → exists (candidate_of parts i) ≡ true))

Found-later :
    (exists : Text → Bool) (parts : Text × Option Text) (n count : ℕ) (r : Option Text)
    → exists (candidate_of parts n) ≡ true
    → Found exists parts (n + 1) count r
    → Found exists parts n (suc count) r
unfolding Found
Found-later exists parts n count none e h = λ i low high. elim (dec_lt n i) [
  | yes p ↦ h i (ground arith) (ground arith)
  | no p ↦ ap (λ j. exists (candidate_of parts j)) (ground (arith, p)) ∙ e
]
Found-later exists parts n count (some name) e (free, (k, low, high, named, taken)) = (
  free,
  (
    k,
    ground arith,
    ground arith,
    named,
    λ i a b. elim (dec_lt n i) [
      | yes p ↦ taken i (ground arith) b
      | no p ↦ ap (λ j. exists (candidate_of parts j)) (ground (arith, p)) ∙ e
    ],
  ),
)

by_test :
    {A : Type 0} (P : A → Type 0) (b : Bool) (x y : A)
    → (b ≡ false → P x)
    → (b ≡ true → P y)
    → P (elim b [ false ↦ x | true ↦ y ])
by_test P false x y p q = p refl
by_test P true x y p q = q refl

first_free-Found :
    (exists : Text → Bool) (parts : Text × Option Text) (count n : ℕ)
    → Found exists parts n count (first_free exists parts n count)
unfolding first_free Found
first_free-Found exists parts zero n = λ i h k. ground arith
first_free-Found exists parts (suc count) n =
    by_test (Found exists parts n (suc count)) (exists (candidate_of parts n)) _ _
      (λ e. (e, (n, ground arith, ground arith, refl, λ i a b. ground arith)))
      (λ e. Found-later exists parts n count _ e (first_free-Found exists parts count (n + 1)))

-- What `dedupe` returns: the name itself where it is free; else the name with the smallest number from
-- 2 to 9999 that makes it free; else, all of these being taken, the identifier behind the stem.
pub data Picked (exists : Text → Bool) (fresh filename : Text) : Text → Type 0 where
  itself : exists filename ≡ false → Picked exists fresh filename filename
  smallest :
      (k : ℕ)
      → exists filename ≡ true
      → 2 ≤ k
      → k < 10000
      → exists (numbered_of filename k) ≡ false
      → ((i : ℕ) → 2 ≤ i → i < k → exists (numbered_of filename i) ≡ true)
      → Picked exists fresh filename (numbered_of filename k)
  identified :
      exists filename ≡ true
      → ((i : ℕ) → 2 ≤ i → i < 10000 → exists (numbered_of filename i) ≡ true)
      → Picked exists fresh filename
          ((parts_of filename (rsplit_once dot filename)).0 ++ (45 ∷ fresh))

or_fresh-Picked :
    (exists : Text → Bool) (fresh filename : Text) (r : Option Text)
    → exists filename ≡ true
    → Found exists (parts_of filename (rsplit_once dot filename)) 2 9998 r
    → Picked exists fresh filename
        (or_fresh (parts_of filename (rsplit_once dot filename)).0 fresh r)
unfolding Found
or_fresh-Picked exists fresh filename none e h = identified e h
or_fresh-Picked exists fresh filename (some name) e (free, (k, low, high, named, taken)) =
    subst⁻¹ (Picked exists fresh filename) named
      (smallest k e low high (ap exists (sym named) ∙ free) taken)

-- The name that `dedupe` picks is the name itself where that is free, else the name with the smallest
-- number from 2 to 9999 that makes it free, else, all of these being taken, the stem of the name with
-- the identifier behind it.
pub dedupe-Picked :
    (exists : Text → Bool) (fresh filename : Text)
    → Picked exists fresh filename (dedupe exists fresh filename)
unfolding dedupe
dedupe-Picked exists fresh filename =
    if_both_eq (Picked exists fresh filename) (not (exists filename)) _ _
      (λ e. itself (ground (arith, e)))
      (λ e.
        or_fresh-Picked exists fresh filename _ (ground (arith, e))
          (first_free-Found exists (parts_of filename (rsplit_once dot filename)) 9998 2))
