-- ===== src/Prelude/Decimal.antt =====
-- A number printed in decimal, as `Display` for u64 does, and read back.
use Prim.Native.Nat.{ℕ, zero, suc, ◌+◌, ◌-◌, ◌*◌, ◌/◌, ◌%◌, ◌≤◌, ◌<◌, ◌^◌}
use mathlib.Core.Path.{◌≡◌, refl, sym, ap, ◌∙◌}
use mathlib.Core.Bool.{◌&&◌}
use mathlib.Core.Logic.{inl, inr}
use mathlib.Core.Option.{none, some}
use mathlib.Core.List.{[], ◌∷◌, ◌++◌}
use native.Mathlib.Omega.{arith}
use native.Mathlib.Nat.{pow-suc}
use ai_gen.Prelude.Tests.{ltb, leb, if◌then◌else◌, Bool-cases, ltb_of_lt}
use ai_gen.Prelude.Words.{u64_mod, IsU64}
use ai_gen.Prelude.Texts.{Text, trim, trim_start, trim_end, split_once, parse_digits, parse_u64}

-- At most `digits` digits; a u64 has 20.
unfoldable pub show_digits : (digits : ℕ) → ℕ → Text
show_digits zero n = []
show_digits (suc digits) n =
    let before = show_digits digits (n / 10) in
    if ltb n 10 then (48 + n) ∷ [] else before ++ (48 + n % 10) ∷ []

unfoldable pub show_u64 : ℕ → Text
unfolding show_digits
show_u64 n = show_digits 20 n

abbrev pub AllDigits : Text → Type 0
AllDigits [] = Unit {0}
AllDigits (c ∷ cs) = ((48 ≤ c) × (c ≤ 57)) × AllDigits cs

AllDigits-append : (a b : Text) → AllDigits a → AllDigits b → AllDigits (a ++ b)
AllDigits-append [] b p q = q
AllDigits-append (c ∷ cs) b p q = (p.0, AllDigits-append cs b p.1 q)

show_digits-AllDigits : (f n : ℕ) → AllDigits (show_digits f n)
unfolding show_digits
show_digits-AllDigits zero n = tt
show_digits-AllDigits (suc f) n = elim (Bool-cases (ltb n 10)) [
  | inl low ↦ rw low ((ground arith, ground arith), tt)
  | inr high ↦ rw high (
      AllDigits-append (show_digits f (n / 10)) _ (show_digits-AllDigits f (n / 10))
        ((omega arith, omega arith), tt))
]

-- Reading one more digit.
parse_digits-snoc :
    (s : Text) (c v w : ℕ)
    → parse_digits s v ≡ some w
    → (48 ≤ c) × (c ≤ 57)
    → w * 10 + (c - 48) < u64_mod
    → parse_digits (s ++ c ∷ []) v ≡ some (w * 10 + (c - 48))
parse_digits-snoc [] c v w h d k = ground arith
parse_digits-snoc (x ∷ xs) c v w h d k =
    elim (Bool-cases (leb 48 x && leb x 57 && ltb (v * 10 + (x - 48)) u64_mod)) [
      | inl good ↦ rw good (
          parse_digits-snoc xs c (v * 10 + (x - 48)) w
            (sym (ap (λ b. if b then parse_digits xs (v * 10 + (x - 48)) else none) good) ∙ h) d k)
      | inr bad ↦ absurd (ground (arith, bad))
    ]

-- Reading the digits of a number, where those before the last one read as its tenth.
read_last :
    (s : Text) (n : ℕ)
    → n < u64_mod
    → parse_digits s 0 ≡ some (n / 10)
    → parse_digits (s ++ (48 + n % 10) ∷ []) 0 ≡ some n
read_last s n u h =
    parse_digits-snoc s (48 + n % 10) 0 (n / 10) h (omega arith, omega arith) (omega arith)
    ∙ ap some (let e : n / 10 * 10 + (48 + n % 10 - 48) ≡ n = omega arith in e)

one_digit : (n : ℕ) → n < 10 → parse_digits ((48 + n) ∷ []) 0 ≡ some n
one_digit n h = ground arith

parse_digits-show_digits :
    (f n : ℕ) → n < 10 ^ suc f → n < u64_mod → parse_digits (show_digits (suc f) n) 0 ≡ some n
unfolding show_digits
parse_digits-show_digits zero n h u =
    rw (ltb_of_lt n 10 (omega (arith, pow-suc 10 0))) (one_digit n (omega (arith, pow-suc 10 0)))
parse_digits-show_digits (suc f) n h u = elim (Bool-cases (ltb n 10)) [
  | inl low ↦ rw low (one_digit n (ground arith))
  | inr high ↦ rw high (
      read_last (show_digits (suc f) (n / 10)) n u
        (parse_digits-show_digits f (n / 10) (omega (arith, pow-suc 10 (suc f))) (omega arith)))
]

pub show_u64-AllDigits : (n : ℕ) → AllDigits (show_u64 n)
unfolding show_u64
show_u64-AllDigits n = show_digits-AllDigits 20 n

abbrev pub IsFilled : Text → Type 0
IsFilled [] = ⊥
IsFilled (c ∷ cs) = Unit {0}

pub IsFilled-append : (a b : Text) → IsFilled b → IsFilled (a ++ b)
IsFilled-append [] b h = h
IsFilled-append (c ∷ cs) b h = tt

pub show_u64-IsFilled : (n : ℕ) → IsFilled (show_u64 n)
unfolding show_u64 show_digits
show_u64-IsFilled n = elim (Bool-cases (ltb n 10)) [
  | inl low ↦ rw low tt
  | inr high ↦ rw high (IsFilled-append (show_digits 19 (n / 10)) _ tt)
]

parse_u64_digits : (s : Text) → AllDigits s → IsFilled s → parse_u64 s ≡ parse_digits s 0
parse_u64_digits [] d h = absurd h
parse_u64_digits (c ∷ cs) d h = ground arith

pub parse_u64-show_u64 : (n : ℕ) → IsU64 n → parse_u64 (show_u64 n) ≡ some n
unfolding show_u64
parse_u64-show_u64 n h =
    parse_u64_digits (show_u64 n) (show_u64-AllDigits n) (show_u64-IsFilled n)
    ∙ parse_digits-show_digits 19 n (omega arith) h

pub trim_end-append : (a b : Text) → IsFilled b → trim_end b ≡ b → trim_end (a ++ b) ≡ a ++ b
trim_end-append [] b f h = h
trim_end-append (c ∷ cs) b f h =
    keeps c (cs ++ b) (IsFilled-append cs b f) (trim_end-append cs b f h)
  where
    keeps : (c : ℕ) (s : Text) → IsFilled s → trim_end s ≡ s → trim_end (c ∷ s) ≡ c ∷ s
    keeps c [] f h = absurd f
    keeps c (d ∷ ds) f h = rw h refl

trim_end_digits : (s : Text) → AllDigits s → trim_end s ≡ s
trim_end_digits [] d = refl
trim_end_digits (c ∷ []) d = ground arith
trim_end_digits (c ∷ e ∷ cs) d = rw (trim_end_digits (e ∷ cs) d.1) refl

pub trim_end-show_u64 : (n : ℕ) → trim_end (show_u64 n) ≡ show_u64 n
trim_end-show_u64 n = trim_end_digits (show_u64 n) (show_u64-AllDigits n)

-- A text that starts with a digit has nothing to trim at its start.
trim_start_digit : (s r : Text) → AllDigits s → IsFilled s → trim_start (s ++ r) ≡ s ++ r
trim_start_digit [] r d f = absurd f
trim_start_digit (c ∷ cs) r d f = ground arith

pub trim_start-show_u64 : (n : ℕ) (r : Text) → trim_start (show_u64 n ++ r) ≡ show_u64 n ++ r
trim_start-show_u64 n r =
    trim_start_digit (show_u64 n) r (show_u64-AllDigits n) (show_u64-IsFilled n)

trim_digits : (s : Text) → AllDigits s → IsFilled s → trim s ≡ s
trim_digits [] d f = absurd f
trim_digits (c ∷ cs) d f =
    ap trim_end (let e : trim_start (c ∷ cs) ≡ c ∷ cs = ground arith in e)
    ∙ trim_end_digits (c ∷ cs) d

pub trim-show_u64 : (n : ℕ) → trim (show_u64 n) ≡ show_u64 n
trim-show_u64 n = trim_digits (show_u64 n) (show_u64-AllDigits n) (show_u64-IsFilled n)

split_once_digits :
    (mark : ℕ) (s r : Text)
    → mark < 48
    → AllDigits s
    → split_once mark (s ++ mark ∷ r) ≡ some (s, r)
split_once_digits mark [] r h d = ground arith
split_once_digits mark (c ∷ cs) r h d = ground (arith, split_once_digits mark cs r)

pub split_once-show_u64 :
    (mark n : ℕ) (r : Text)
    → mark < 48
    → split_once mark (show_u64 n ++ mark ∷ r) ≡ some (show_u64 n, r)
split_once-show_u64 mark n r h = split_once_digits mark (show_u64 n) r h (show_u64-AllDigits n)

-- A mark is not among the digits before it.
pub split_once-append :
    (mark : ℕ) (s r a b : Text)
    → mark < 48
    → AllDigits s
    → split_once mark r ≡ some (a, b)
    → split_once mark (s ++ r) ≡ some (s ++ a, b)
split_once-append mark [] r a b h d e = e
split_once-append mark (c ∷ cs) r a b h d e = ground (arith, split_once-append mark cs r a b)
