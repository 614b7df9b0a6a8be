-- ===== src/Identity/Windows.antt =====
-- Where the windows lie, against the bytes that are on disk.
use ai_gen.Prelude.{
  ℕ, zero, suc, ◌+◌, ◌-◌, ◌≤◌, ◌<◌, ◌≡◌, true, false, List, [], ◌∷◌, ◌++◌, map, refl, ap, ◌∙◌,
  arith, ltb, leb, ◌==◌, length, min64, IsU64, Bool-cases, inl, inr, Text,
}
use ai_gen.RangeSet.{RangeSet, Span, total}
use ai_gen.RangeSet.Canonical.{in_range, covers, CanonicalFrom, IsCanonical}
use ai_gen.Identity.{
  window, last_byte, locate_loop, locate, pick_loop, insert_number, sort_numbers, dedup, picks_of,
  windows_of, choose_windows,
}

abbrev pub window_start : ℕ × ℕ → ℕ
window_start (p, win) = p

-- Two spans, from byte 0 on, with a gap between them.
abbrev pub gapped : ℕ → ℕ → ℕ → RangeSet
gapped first gap second =
    record { start = 0; len = first } ∷ record { start = first + gap; len = second } ∷ []

-- Each number is a byte of the set.
abbrev pub AllIn : RangeSet → List ℕ → Type 0
AllIn spans [] = Unit {0}
AllIn spans (n ∷ ns) = (covers spans n ≡ true) × AllIn spans ns

last_byte-covers :
    (low : ℕ) (x : Span) (xs : RangeSet)
    → CanonicalFrom low (x ∷ xs)
    → covers (x ∷ xs) (last_byte (x ∷ xs)) ≡ true
last_byte-covers low x [] c = ground arith
last_byte-covers low x (y ∷ ys) c = ground (arith, last_byte-covers (x.start + x.len + 1) y ys c.3)

locate_loop-covers :
    (low : ℕ) (xs spans : RangeSet) (last logical : ℕ)
    → CanonicalFrom low xs
    → covers spans last ≡ true
    → ((b : ℕ) → covers xs b ≡ true → covers spans b ≡ true)
    → covers spans (locate_loop xs last logical) ≡ true
unfolding locate_loop
locate_loop-covers low [] spans last logical c l k = l
locate_loop-covers low (x ∷ xs) spans last logical c l k = elim (Bool-cases (ltb logical x.len)) [
  | inl here ↦ rw here (k _ (ground (arith, here)))
  | inr later ↦ rw later (
      locate_loop-covers (x.start + x.len + 1) xs spans last _ c.3 l
        (λ b h. k b (ground (arith, h))))
]

locate-covers :
    (x : Span) (xs : RangeSet) (logical : ℕ)
    → IsCanonical (x ∷ xs)
    → covers (x ∷ xs) (locate (x ∷ xs) logical) ≡ true
unfolding locate
locate-covers x xs logical c =
    locate_loop-covers 0 (x ∷ xs) (x ∷ xs) _ logical c (last_byte-covers 0 x xs c) (λ b h. h)

AllIn-append :
    (spans : RangeSet) (ns : List ℕ) (n : ℕ)
    → AllIn spans ns
    → covers spans n ≡ true
    → AllIn spans (ns ++ n ∷ [])
AllIn-append spans [] n a h = (h, tt)
AllIn-append spans (m ∷ ms) n a h = (a.0, AllIn-append spans ms n a.1 h)

insert_number-AllIn :
    (spans : RangeSet) (n : ℕ) (ns : List ℕ)
    → covers spans n ≡ true
    → AllIn spans ns
    → AllIn spans (insert_number n ns)
unfolding insert_number
insert_number-AllIn spans n [] h a = (h, tt)
insert_number-AllIn spans n (m ∷ ms) h a = elim (Bool-cases (leb n m)) [
  | inl first ↦ rw first (h, a)
  | inr behind ↦ rw behind (a.0, insert_number-AllIn spans n ms h a.1)
]

sort_numbers-AllIn :
    (spans : RangeSet) (ns : List ℕ) → AllIn spans ns → AllIn spans (sort_numbers ns)
unfolding sort_numbers
sort_numbers-AllIn spans [] a = tt
sort_numbers-AllIn spans (n ∷ ns) a =
    insert_number-AllIn spans n (sort_numbers ns) a.0 (sort_numbers-AllIn spans ns a.1)

dedup-AllIn : (spans : RangeSet) (ns : List ℕ) → AllIn spans ns → AllIn spans (dedup ns)
unfolding dedup
dedup-AllIn spans [] a = tt
dedup-AllIn spans (n ∷ []) a = a
dedup-AllIn spans (n ∷ m ∷ ms) a = elim (Bool-cases (n == m)) [
  | inl same ↦ rw same (dedup-AllIn spans (m ∷ ms) a.1)
  | inr differ ↦ rw differ (a.0, dedup-AllIn spans (m ∷ ms) a.1)
]

pick_loop-AllIn :
    (digest : List ℕ → List ℕ) (x : Span) (xs : RangeSet) (room fuel count : ℕ)
    (picks seed : List ℕ)
    → IsCanonical (x ∷ xs)
    → AllIn (x ∷ xs) picks
    → AllIn (x ∷ xs) (pick_loop digest (x ∷ xs) room fuel count picks seed)
unfolding pick_loop
pick_loop-AllIn digest x xs room zero count picks seed c a = a
pick_loop-AllIn digest x xs room (suc fuel) count picks seed c a =
    elim (Bool-cases (ltb (length picks) count)) [
      | inr enough ↦ rw enough a
      | inl more ↦ rw more (
          pick_loop-AllIn digest x xs room fuel count _ (digest seed) c
            (AllIn-append (x ∷ xs) picks _ a (locate-covers x xs _ c)))
    ]

picks_of-AllIn :
    (digest : List ℕ → List ℕ) (x : Span) (xs : RangeSet) (id : Text) (count size win : ℕ)
    → IsCanonical (x ∷ xs)
    → AllIn (x ∷ xs) (picks_of digest (x ∷ xs) id count size win)
unfolding picks_of
picks_of-AllIn digest x xs id count size win c = elim (Bool-cases (ltb win size)) [
  | inr small ↦ rw small (locate-covers x xs 0 c, tt)
  | inl large ↦ rw large (
      pick_loop-AllIn digest x xs (size - win) count count _ (digest id) c
        (locate-covers x xs 0 c, (locate-covers x xs (size - win) c, tt)))
]

starts-AllIn :
    (spans : RangeSet) (win : ℕ) (ns : List ℕ)
    → AllIn spans ns
    → AllIn spans (map window_start (map (λ p. (p, win)) ns))
starts-AllIn spans win [] a = tt
starts-AllIn spans win (n ∷ ns) a = (a.0, starts-AllIn spans win ns a.1)

windows_of-AllIn :
    (digest : List ℕ → List ℕ) (x : Span) (xs : RangeSet) (id : Text) (count size : ℕ)
    → IsCanonical (x ∷ xs)
    → AllIn (x ∷ xs) (map window_start (windows_of digest (x ∷ xs) id count size))
unfolding windows_of
windows_of-AllIn digest x xs id count size c =
    let picks = picks_of digest (x ∷ xs) id count size (min64 window size) in
    elim (Bool-cases (size == 0)) [
      | inl empty ↦ rw empty tt
      | inr some_bytes ↦ rw some_bytes (
          starts-AllIn (x ∷ xs) (min64 window size) (dedup (sort_numbers picks)) (
            dedup-AllIn (x ∷ xs) (sort_numbers picks) (
              sort_numbers-AllIn (x ∷ xs) picks
                (picks_of-AllIn digest x xs id count size (min64 window size) c))))
    ]

-- Each window on a canonical set starts at a byte of the set, whatever the digest is.
pub choose_windows-AllIn :
    (digest : List ℕ → List ℕ) (spans : RangeSet) (id : Text) (count : ℕ)
    → IsCanonical spans
    → AllIn spans (map window_start (choose_windows digest spans id count))
unfolding choose_windows
choose_windows-AllIn digest [] id count c = tt
choose_windows-AllIn digest (x ∷ xs) id count c =
    windows_of-AllIn digest x xs id count (total (x ∷ xs)) c

picks_small :
    (digest : List ℕ → List ℕ) (spans : RangeSet) (id : Text) (count size win : ℕ)
    → ltb win size ≡ false
    → picks_of digest spans id count size win ≡ locate spans 0 ∷ []
unfolding picks_of
picks_small digest spans id count size win h = rw h refl

locate_first : (x : Span) (xs : RangeSet) → x.start ≡ 0 → 0 < x.len → locate (x ∷ xs) 0 ≡ 0
unfolding locate locate_loop
locate_first x xs e h = ground arith

windows_small :
    (digest : List ℕ → List ℕ) (x : Span) (xs : RangeSet) (id : Text) (count size : ℕ)
    → x.start ≡ 0
    → 0 < x.len
    → 0 < size
    → size ≤ window
    → windows_of digest (x ∷ xs) id count size ≡ (0, size) ∷ []
unfolding windows_of sort_numbers insert_number dedup
windows_small digest x xs id count size e h p q =
    let some_bytes : (size == 0) ≡ false = ground arith in
    let all : min64 window size ≡ size = ground arith in
    let picks =
      picks_small digest (x ∷ xs) id count size (min64 window size) (ground arith)
      ∙ ap (λ (n : ℕ). n ∷ []) (locate_first x xs e h) in
    rw some_bytes (
      ap (λ ns. map (λ (n : ℕ). (n, min64 window size)) (dedup (sort_numbers ns))) picks
      ∙ ap (λ (w : ℕ). (0, w) ∷ []) all)

-- Of two spans within u64 that are not empty, with a gap between them, and that are no longer than a window together, the one window that
-- is chosen reaches over the gap: it has the first byte of the gap, which is not on disk.
pub window_over_gap :
    (digest : List ℕ → List ℕ) (id : Text) (count first gap second : ℕ)
    → 0 < first
    → 0 < gap
    → 0 < second
    → first + second ≤ window
    → IsU64 (first + gap + second)
    → (choose_windows digest (gapped first gap second) id count ≡ (0, first + second) ∷ [])
      × (in_range first 0 (first + second) ≡ true)
      × (covers (gapped first gap second) first ≡ false)
unfolding choose_windows total
window_over_gap digest id count first gap second p q r s u =
    let size : total (gapped first gap second) ≡ first + second = ground arith in
    let behind : RangeSet = record { start = first + gap; len = second } ∷ [] in
    (
      ap (windows_of digest (gapped first gap second) id count) size
          ∙ windows_small digest (record { start = 0; len = first }) behind id count
              (first + second) refl p (omega arith) s,
      ground arith,
      ground arith,
    )
