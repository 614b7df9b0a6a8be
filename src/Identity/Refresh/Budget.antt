-- ===== src/Identity/Refresh/Budget.antt =====
-- How much a comparison may ask for: at most four windows of at most 64 KiB.
use ai_gen.Prelude.{
  ℕ, zero, suc, ◌+◌, ◌-◌, ◌%◌, ◌≤◌, ◌≡◌, refl, List, [], ◌∷◌, ◌++◌, map, arith, ltb, ◌==◌, length,
  length-append, min64, take, Text, if_both, if_both_eq,
}
use ai_gen.RangeSet.{RangeSet, total}
use ai_gen.Identity.{
  window, locate, big_endian, pick_loop, insert_number, sort_numbers, dedup, picks_of, windows_of,
  choose_windows,
}

abbrev pub AllShort : ℕ → List (ℕ × ℕ) → Type 0
AllShort win [] = Unit {0}
AllShort win (w ∷ ws) = (w.1 ≤ win) × AllShort win ws

pick_loop-length :
    (digest : List ℕ → List ℕ) (spans : RangeSet) (room fuel count : ℕ) (picks seed : List ℕ)
    → length picks ≤ count
    → length (pick_loop digest spans room fuel count picks seed) ≤ count
unfolding pick_loop
pick_loop-length digest spans room zero count picks seed h = h
pick_loop-length digest spans room (suc fuel) count picks seed h =
    let p : ℕ = locate spans (big_endian 0 (take 8 seed) % room) in
    if_both_eq (λ (ps : List ℕ). length ps ≤ count) (ltb (length picks) count) _ _
      (λ more. pick_loop-length digest spans room fuel count (picks ++ p ∷ []) (digest seed) (
        let one : length picks + 1 ≤ count = ground arith in
        omega (arith, length-append {0} picks (p ∷ []), one)))
      (λ full. h)

insert_number-length : (n : ℕ) (ms : List ℕ) → length (insert_number n ms) ≡ suc (length ms)
unfolding insert_number
insert_number-length n [] = refl
insert_number-length n (m ∷ ms) = ground (arith, insert_number-length n ms)

sort_numbers-length : (ns : List ℕ) → length (sort_numbers ns) ≡ length ns
unfolding sort_numbers
sort_numbers-length [] = refl
sort_numbers-length (n ∷ ns) =
    omega (arith, insert_number-length n (sort_numbers ns), sort_numbers-length ns)

dedup-length : (ns : List ℕ) → length (dedup ns) ≤ length ns
unfolding dedup
dedup-length [] = omega arith
dedup-length (n ∷ []) = omega arith
dedup-length (n ∷ m ∷ ms) = ground (arith, dedup-length (m ∷ ms))

length-windows : (win : ℕ) (ps : List ℕ) → length {A = ℕ × ℕ} (map (λ p. (p, win)) ps) ≡ length ps
length-windows win [] = refl
length-windows win (p ∷ ps) = omega (arith, length-windows win ps)

windows-AllShort :
    (win most : ℕ) (ps : List ℕ) → win ≤ most → AllShort most (map (λ p. (p, win)) ps)
windows-AllShort win most [] h = tt
windows-AllShort win most (p ∷ ps) h = (h, windows-AllShort win most ps h)

picks_of-length :
    (digest : List ℕ → List ℕ) (spans : RangeSet) (id : Text) (count size win : ℕ)
    → 2 ≤ count
    → length (picks_of digest spans id count size win) ≤ count
unfolding picks_of
picks_of-length digest spans id count size win h =
    if_both (λ (ps : List ℕ). length ps ≤ count) (ltb win size) _ _
      (pick_loop-length digest spans (size - win) count count _ (digest id) h)
      (let e : 1 ≤ count = omega arith in e)

-- There are at most as many windows as asked for, and none is longer than a window is.
pub choose_windows_budget :
    (digest : List ℕ → List ℕ) (spans : RangeSet) (id : Text) (count : ℕ)
    → 2 ≤ count
    → (length (choose_windows digest spans id count) ≤ count)
      × AllShort window (choose_windows digest spans id count)
unfolding choose_windows windows_of
choose_windows_budget digest spans id count h =
    let size : ℕ = total spans in
    let win : ℕ = min64 window size in
    let ps : List ℕ = picks_of digest spans id count size win in
    if_both (λ (ws : List (ℕ × ℕ)). (length ws ≤ count) × AllShort window ws) (size == 0) _ _
      (omega arith, tt)
      (
        omega (
          arith,
          length-windows win (dedup (sort_numbers ps)),
          dedup-length (sort_numbers ps),
          sort_numbers-length ps,
          picks_of-length digest spans id count size win h,
        ),
        windows-AllShort win window (dedup (sort_numbers ps)) (ground arith),
      )

-- Nothing on disk is nothing to compare with.
pub choose_windows-empty :
    (digest : List ℕ → List ℕ) (spans : RangeSet) (id : Text) (count : ℕ)
    → total spans ≡ 0
    → choose_windows digest spans id count ≡ []
unfolding choose_windows windows_of
choose_windows-empty digest spans id count e = rw e refl
