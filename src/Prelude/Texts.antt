-- ===== src/Prelude/Texts.antt =====
-- Text as the list of its bytes, with the operations of `str` that the program uses on ASCII.
use Prim.Native.Nat.{ℕ, ◌+◌, ◌-◌, ◌*◌}
use mathlib.Core.Path.{◌≡◌, refl}
use mathlib.Core.Bool.{Bool, true, false, ◌&&◌, ◌||◌}
use mathlib.Core.Option.{Option, none, some}
use mathlib.Core.List.{List, [], ◌∷◌, map}
use native.Mathlib.Omega.{arith}
use ai_gen.Prelude.Tests.{ltb, leb, ◌==◌, if◌then◌else◌}
use ai_gen.Prelude.Words.{u64_mod, IsU64}

abbrev pub Text : Type 0
Text = List ℕ

abbrev pub same_text : Text → Text → Bool
same_text [] [] = true
same_text [] (y ∷ ys) = false
same_text (x ∷ xs) [] = false
same_text (x ∷ xs) (y ∷ ys) = x == y && same_text xs ys

-- `to_ascii_lowercase` of a byte
abbrev pub lower : ℕ → ℕ
lower c = if leb 65 c && leb c 90 then c + 32 else c

abbrev pub eq_ignore_ascii_case : Text → Text → Bool
eq_ignore_ascii_case a b = same_text (map lower a) (map lower b)

-- `==` on `Option<String>`
abbrev pub same_option : Option Text → Option Text → Bool
same_option none none = true
same_option none (some b) = false
same_option (some a) none = false
same_option (some a) (some b) = same_text a b

pub same_text_sound : (a b : Text) → same_text a b ≡ true → a ≡ b
same_text_sound [] [] h = refl
same_text_sound [] (y ∷ ys) h = ground arith
same_text_sound (x ∷ xs) [] h = ground arith
same_text_sound (x ∷ xs) (y ∷ ys) h = ground (arith, same_text_sound xs ys)

pub same_text_refl : (a : Text) → same_text a a ≡ true
same_text_refl [] = refl
same_text_refl (c ∷ cs) = ground (arith, same_text_refl cs)

pub same_text_sym : (a b : Text) → same_text a b ≡ same_text b a
same_text_sym [] [] = refl
same_text_sym [] (y ∷ ys) = refl
same_text_sym (x ∷ xs) [] = refl
same_text_sym (x ∷ xs) (y ∷ ys) = ground (arith, same_text_sym xs ys)

-- `char::is_whitespace` on ASCII
abbrev pub is_space : ℕ → Bool
is_space c = c == 32 || (leb 9 c && leb c 13)

abbrev pub trim_start : Text → Text
trim_start [] = []
trim_start (c ∷ cs) = if is_space c then trim_start cs else c ∷ cs

abbrev pub trim_end : Text → Text
trim_end [] = []
trim_end (c ∷ cs) = elim (trim_end cs) [
  | [] ↦ if is_space c then [] else c ∷ []
  | d ∷ ds ↦ c ∷ d ∷ ds
]

abbrev pub trim : Text → Text
trim s = trim_end (trim_start s)

abbrev pub strip_prefix : Text → Text → Option Text
strip_prefix [] s = some s
strip_prefix (p ∷ ps) [] = none
strip_prefix (p ∷ ps) (c ∷ cs) = if p == c then strip_prefix ps cs else none

abbrev pub split_once : ℕ → Text → Option (Text × Text)
split_once mark [] = none
split_once mark (c ∷ cs) =
    if c == mark
    then some ([], cs)
    else elim (split_once mark cs) [ none ↦ none | some (a, b) ↦ some (c ∷ a, b) ]

-- The digits of `u64::from_str`, behind the value that has been read; too large a value is an error.
abbrev pub parse_digits : Text → ℕ → Option ℕ
parse_digits [] v = some v
parse_digits (c ∷ cs) v =
    if leb 48 c && leb c 57 && ltb (v * 10 + (c - 48)) u64_mod
    then parse_digits cs (v * 10 + (c - 48))
    else none

-- `str::parse::<u64>`: a sign `+` is allowed before a digit.
abbrev pub parse_u64 : Text → Option ℕ
parse_u64 [] = none
parse_u64 (c ∷ cs) =
    if c == 43
    then elim cs [ [] ↦ none | d ∷ ds ↦ parse_digits (d ∷ ds) 0 ]
    else parse_digits (c ∷ cs) 0

pub parse_digits-IsU64 : (s : Text) (v n : ℕ) → IsU64 v → parse_digits s v ≡ some n → IsU64 n
parse_digits-IsU64 [] v n u h = ground arith
parse_digits-IsU64 (c ∷ cs) v n u h = ground (arith, parse_digits-IsU64 cs (v * 10 + (c - 48)) n)

pub parse_u64-IsU64 : (s : Text) (n : ℕ) → parse_u64 s ≡ some n → IsU64 n
parse_u64-IsU64 [] n h = ground arith
parse_u64-IsU64 (c ∷ []) n h = ground (arith, parse_digits-IsU64 (c ∷ []) 0 n)
parse_u64-IsU64 (c ∷ d ∷ ds) n h =
    ground (arith, parse_digits-IsU64 (c ∷ d ∷ ds) 0 n, parse_digits-IsU64 (d ∷ ds) 0 n)
