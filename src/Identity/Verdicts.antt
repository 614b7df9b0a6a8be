-- ===== src/Identity/Verdicts.antt =====
-- What a verdict to resume rests on.
use ai_gen.Prelude.{
  ℕ, suc, ◌≡◌, ◌↔◌, Bool, true, false, Option, none, some, List, [], ◌∷◌, refl, ap, arith, ◌==◌,
  length, Bool-cases, inl, inr,
}
use ai_gen.Probe.{is_supported}
use ai_gen.Identity.{
  verdict_of, ResourceSignals, Evidence, compare, compare_signals, compare_sizes, finalize,
  is_safe_to_resume, first_mismatch, first_difference,
}

first_mismatch_iff :
    (at : ℕ) (xs ys : List ℕ) → length xs ≡ length ys → (first_mismatch at xs ys ≡ none) ↔ (xs ≡ ys)
unfolding first_mismatch
first_mismatch_iff at [] [] e = (λ h. refl, λ h. refl)
first_mismatch_iff at [] (y ∷ ys) e = absurd (omega arith)
first_mismatch_iff at (x ∷ xs) [] e = absurd (omega arith)
first_mismatch_iff at (x ∷ xs) (y ∷ ys) e =
    let k = first_mismatch_iff (suc at) xs ys (omega arith) in
    (λ h. ground (arith, k.0), λ h. ground (arith, k.1))

-- `first_difference` finds nothing exactly when the two buffers are equal, whatever the offset is.
pub first_difference_iff :
    (offset : ℕ) (xs ys : List ℕ) → (first_difference offset xs ys ≡ none) ↔ (xs ≡ ys)
unfolding first_difference
first_difference_iff offset xs ys = elim (Bool-cases (length xs == length ys)) [
  | inr differ ↦
      (λ h. absurd (ground (arith, differ)), λ h. absurd (ground (arith, differ, ap length h)))
  | inl same ↦ let k = first_mismatch_iff offset xs ys (ground (arith, same)) in rw same k
]

signals_resume :
    (sizes : Bool) (old new : ResourceSignals) (ev : Evidence)
    → is_safe_to_resume (verdict_of (compare_signals sizes old new).0 ev) ≡ true
    → (sizes ≡ true) × (is_supported new.range_support ≡ true)
unfolding compare_signals
signals_resume true old new ev h = (refl, ground arith)
signals_resume false old new ev h = ground arith

sizes_resume :
    (a b : Option ℕ) (old new : ResourceSignals) (ev : Evidence)
    → is_safe_to_resume (verdict_of (compare_sizes a b old new).0 ev) ≡ true
    → ((size : ℕ) × (a ≡ some size) × (b ≡ some size)) × (is_supported new.range_support ≡ true)
unfolding compare_sizes
sizes_resume (some a) (some b) old new ev h = elim (Bool-cases (a == b)) [
  | inr differ ↦ absurd (ground (arith, differ))
  | inl same ↦
      let k = signals_resume true old new ev (ground (arith, same)) in
      ((a, refl, ap (λ n. some n) (ground (arith, same))), k.1)
]
sizes_resume (some a) none old new ev h = absurd (ground (arith, signals_resume false old new ev h))
sizes_resume none b old new ev h = absurd (ground (arith, signals_resume false old new ev h))

-- A verdict that is safe to resume means that no window differed, that both sizes are known and equal,
-- and that the replacement serves ranges.
pub resume_is_safe :
    (old new : ResourceSignals) (mismatch : Option ℕ) (windows : ℕ)
    → is_safe_to_resume (finalize (compare old new).0 (compare old new).1 mismatch windows) ≡ true
    → (mismatch ≡ none)
      × ((size : ℕ) × (old.total_size ≡ some size) × (new.total_size ≡ some size))
      × (is_supported new.range_support ≡ true)
unfolding compare
resume_is_safe old new (some at) windows h = absurd (ground arith)
resume_is_safe old new none windows h =
    let k = sizes_resume old.total_size new.total_size old new _ h in (refl, k.0, k.1)
