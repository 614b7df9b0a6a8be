-- ===== src/Filename/Chars.antt =====
-- crates/swiftload-core/src/util/filename.rs: the characters that the steps of `sanitize` leave.
use ai_gen.Prelude.{
  ℕ, ◌+◌, ◌≡◌, refl, Bool, true, false, not, ◌||◌, Option, none, some, [], ◌∷◌, ◌++◌, map, ◌==◌,
  Text, arith, Bool-cases, inl, inr,
}
use ai_gen.Filename.{
  has, trim_start_by, trim_end_by, add_or_drop, last_piece, retained, is_kept, is_invalid,
  is_separator, repaired, truncate_from, len_utf16, rsplit_once, put_before, is_whitespace, cleaned,
}

-- No character of the text is accepted by `p`.
abbrev pub IsFree : (ℕ → Bool) → Text → Type 0
IsFree p s = has p s ≡ false

pub trim_start_by-IsFree : (p q : ℕ → Bool) (s : Text) → IsFree p s → IsFree p (trim_start_by q s)
trim_start_by-IsFree p q [] h = refl
trim_start_by-IsFree p q (c ∷ cs) h = ground (arith, trim_start_by-IsFree p q cs)

add_or_drop-IsFree :
    (p q : ℕ → Bool) (c : ℕ) (s : Text) → p c ≡ false → IsFree p s → IsFree p (add_or_drop q c s)
add_or_drop-IsFree p q c [] h k = ground arith
add_or_drop-IsFree p q c (d ∷ ds) h k = ground arith

pub trim_end_by-IsFree : (p q : ℕ → Bool) (s : Text) → IsFree p s → IsFree p (trim_end_by q s)
trim_end_by-IsFree p q [] h = refl
trim_end_by-IsFree p q (c ∷ cs) h =
    add_or_drop-IsFree p q c (trim_end_by q cs) (ground arith)
      (trim_end_by-IsFree p q cs (ground arith))

pub last_piece-IsFree : (p : ℕ → Bool) (s : Text) → IsFree p (last_piece p s)
last_piece-IsFree p [] = refl
last_piece-IsFree p (c ∷ cs) = ground (arith, last_piece-IsFree p cs)

pub retained-IsFree : (p q : ℕ → Bool) (s : Text) → IsFree p s → IsFree p (retained q s)
retained-IsFree p q [] h = refl
retained-IsFree p q (c ∷ cs) h = ground (arith, retained-IsFree p q cs)

pub truncate_from-IsFree :
    (p : ℕ → Bool) (s : Text) (used max : ℕ) → IsFree p s → IsFree p (truncate_from used s max)
unfolding truncate_from
truncate_from-IsFree p [] used max h = refl
truncate_from-IsFree p (c ∷ cs) used max h =
    ground (arith, truncate_from-IsFree p cs (used + len_utf16 c) max)

pub append-IsFree : (p : ℕ → Bool) (s t : Text) → IsFree p s → IsFree p t → IsFree p (s ++ t)
append-IsFree p [] t h k = k
append-IsFree p (c ∷ cs) t h k = ground (arith, append-IsFree p cs t)

-- What `rsplit_once` says of a text.
abbrev pub Splits : ℕ → Text → Option (Text × Text) → Type 0
Splits mark s none = IsFree (λ c. c == mark) s
Splits mark s (some (a, b)) = (s ≡ a ++ (mark ∷ b)) × IsFree (λ c. c == mark) b

put_before-Splits :
    (mark c : ℕ) (cs : Text) (r : Option (Text × Text))
    → Splits mark cs r
    → Splits mark (c ∷ cs) (put_before c r cs mark)
put_before-Splits mark c cs none h = ground arith
put_before-Splits mark c cs (some (a, b)) h = ground (arith, h)

pub rsplit_once-Splits : (mark : ℕ) (s : Text) → Splits mark s (rsplit_once mark s)
unfolding rsplit_once
rsplit_once-Splits mark [] = refl
rsplit_once-Splits mark (c ∷ cs) =
    put_before-Splits mark c cs (rsplit_once mark cs) (rsplit_once-Splits mark cs)

pub append-IsFree_left : (p : ℕ → Bool) (s t : Text) → IsFree p (s ++ t) → IsFree p s
append-IsFree_left p [] t h = refl
append-IsFree_left p (c ∷ cs) t h = ground (arith, append-IsFree_left p cs t)

pub append-IsFree_right : (p : ℕ → Bool) (s t : Text) → IsFree p (s ++ t) → IsFree p t
append-IsFree_right p [] t h = h
append-IsFree_right p (c ∷ cs) t h = ground (arith, append-IsFree_right p cs t)

-- A character that may not stand in a name.
unfoldable pub is_unsafe : ℕ → Bool
is_unsafe c = not (is_kept c) || is_invalid c || is_separator c

repaired-safe : (c : ℕ) → is_kept c ≡ true → is_separator c ≡ false → is_unsafe (repaired c) ≡ false
unfolding is_unsafe
repaired-safe c h k = elim (Bool-cases (is_invalid c)) [
  | inl e ↦ rw e refl
  | inr e ↦ rw (e, h, e, k) refl
]

map-repaired-IsFree :
    (s : Text)
    → IsFree (λ c. not (is_kept c)) s
    → IsFree is_separator s
    → IsFree is_unsafe (map repaired s)
map-repaired-IsFree [] h k = refl
map-repaired-IsFree (c ∷ cs) h k = ground (arith, map-repaired-IsFree cs, repaired-safe c)

retained-kept : (p : ℕ → Bool) (s : Text) → IsFree (λ c. not (p c)) (retained p s)
retained-kept p [] = refl
retained-kept p (c ∷ cs) = ground (arith, retained-kept p cs)

pub cleaned-IsFree : (raw : Text) → IsFree is_unsafe (cleaned raw)
unfolding cleaned
cleaned-IsFree raw =
    let last = last_piece is_separator raw in
    let start = trim_start_by is_whitespace last in
    let both = trim_end_by is_whitespace start in
    map-repaired-IsFree (retained is_kept both) (retained-kept is_kept both) (
      retained-IsFree is_separator is_kept both (
        trim_end_by-IsFree is_separator is_whitespace start (
          trim_start_by-IsFree is_separator is_whitespace last
            (last_piece-IsFree is_separator raw))))
