-- ===== src/Filename/Safe.antt =====
-- crates/swiftload-core/src/util/filename.rs: what `sanitize` returns, whatever it is given.
use ai_gen.Prelude.{
  ℕ, ◌+◌, ◌≤◌, ◌≡◌, ◌⊎◌, refl, sym, Bool, false, ◌||◌, Option, none, some, [], ◌∷◌, ◌==◌,
  if◌then◌else◌, Text, arith, inl, inr, same_text, if_both_eq, if_both,
}
use mathlib.Core.Path.{subst}
use ai_gen.Filename.{
  is_whitespace, trim_start_by, trim_end_by, add_or_drop, utf16_len, truncate_by_utf16,
  truncate_split, truncate_preserving_extension, rsplit_once, is_extension, is_empty, dot, space,
  max_stem_utf16, is_reserved, cleaned, without_traversal, trimmed, renamed, sanitize, all_dots,
  download,
}
use ai_gen.Filename.Chars.{
  IsFree, Splits, rsplit_once-Splits, is_unsafe, cleaned-IsFree, append-IsFree, append-IsFree_left,
  append-IsFree_right, truncate_from-IsFree, trim_start_by-IsFree, trim_end_by-IsFree,
}
use ai_gen.Filename.Measured.{truncate_preserving_extension-IsMeasured}

abbrev pub ends_in : (ℕ → Bool) → Text → Bool
ends_in p [] = false
ends_in p (c ∷ []) = p c
ends_in p (c ∷ d ∷ ds) = ends_in p (d ∷ ds)

abbrev pub is_stripped : ℕ → Bool
is_stripped c = c == space || c == dot

-- A name that is safe to create: one component, no reserved device, no character that misleads, and no
-- dot or space at its end unless it was cut there.
pub record IsSafe (s : Text) : Type 0 where
  pub clean : IsFree is_unsafe s
  pub not_empty : is_empty s ≡ false
  pub not_here : same_text s (dot ∷ []) ≡ false
  pub not_parent : same_text s (dot ∷ dot ∷ []) ≡ false
  pub within : utf16_len s ≤ max_stem_utf16
  pub not_reserved : is_reserved s ≡ false
  pub tidy : (ends_in is_stripped s ≡ false) ⊎ (max_stem_utf16 ≤ utf16_len s + 1)

add_or_drop-ends :
    (p : ℕ → Bool) (c : ℕ) (s : Text) → ends_in p s ≡ false → ends_in p (add_or_drop p c s) ≡ false
add_or_drop-ends p c [] h = ground arith
add_or_drop-ends p c (d ∷ ds) h = h

trim_end_by-ends : (p : ℕ → Bool) (s : Text) → ends_in p (trim_end_by p s) ≡ false
trim_end_by-ends p [] = refl
trim_end_by-ends p (c ∷ cs) = add_or_drop-ends p c (trim_end_by p cs) (trim_end_by-ends p cs)

trim_start_by-ends :
    (p q : ℕ → Bool) (s : Text) → ends_in p s ≡ false → ends_in p (trim_start_by q s) ≡ false
trim_start_by-ends p q [] h = refl
trim_start_by-ends p q (c ∷ []) h = ground arith
trim_start_by-ends p q (c ∷ d ∷ ds) h = ground (arith, trim_start_by-ends p q (d ∷ ds) h)

-- Before the truncation: the same but for the length.
record IsName (s : Text) : Type 0 where
  clean : IsFree is_unsafe s
  not_empty : is_empty s ≡ false
  not_reserved : is_reserved s ≡ false
  tidy : ends_in is_stripped s ≡ false

trimmed-IsFree : (s : Text) → IsFree is_unsafe s → IsFree is_unsafe (trimmed s)
unfolding trimmed
trimmed-IsFree s h =
    let kept =
      if_both (IsFree is_unsafe)
        (same_text s (dot ∷ []) || same_text s (dot ∷ dot ∷ []) || all_dots s) [] s refl h in
    trim_start_by-IsFree is_unsafe is_whitespace _ (trim_end_by-IsFree is_unsafe is_stripped _ kept)

trimmed-ends : (s : Text) → ends_in is_stripped (trimmed s) ≡ false
unfolding trimmed
trimmed-ends s =
    let stripped = trim_end_by is_stripped (without_traversal s) in
    trim_start_by-ends is_stripped is_whitespace stripped
      (trim_end_by-ends is_stripped (without_traversal s))

mark-IsName :
    (s : Text)
    → IsFree is_unsafe s
    → is_empty s ≡ false
    → ends_in is_stripped s ≡ false
    → IsName (if is_reserved s then 95 ∷ s else s)
unfolding is_unsafe
mark-IsName [] h e t = ground arith
mark-IsName (c ∷ cs) h e t =
    if_both_eq IsName (is_reserved (c ∷ cs)) _ _
      (λ r. record { clean = h; not_empty = refl; not_reserved = refl; tidy = t })
      (λ r. record { clean = h; not_empty = refl; not_reserved = r; tidy = t })

renamed-IsName :
    (s : Text) → IsFree is_unsafe s → ends_in is_stripped s ≡ false → IsName (renamed s)
unfolding renamed is_unsafe
renamed-IsName [] h t = mark-IsName download refl refl refl
renamed-IsName (c ∷ cs) h t = mark-IsName (c ∷ cs) h refl t

truncate_split-IsFree :
    (p : ℕ → Bool) (name : Text) (r : Option (Text × Text))
    → p dot ≡ false
    → Splits dot name r
    → IsFree p name
    → IsFree p (truncate_split name r)
unfolding truncate_split truncate_by_utf16
truncate_split-IsFree p name none d e h = truncate_from-IsFree p name 0 max_stem_utf16 h
truncate_split-IsFree p name (some (stem, ext)) d e h =
    let parts = subst (IsFree p) e.0 h in
    if_both (IsFree p) (is_extension ext) _ _
      (append-IsFree p _ (dot ∷ ext)
        (truncate_from-IsFree p stem 0 _ (append-IsFree_left p stem (dot ∷ ext) parts))
        (append-IsFree_right p stem (dot ∷ ext) parts))
      (truncate_from-IsFree p name 0 max_stem_utf16 h)

truncate_preserving_extension-IsFree :
    (p : ℕ → Bool) (name : Text)
    → p dot ≡ false
    → IsFree p name
    → IsFree p (truncate_preserving_extension name)
unfolding truncate_preserving_extension
truncate_preserving_extension-IsFree p name d h =
    if_both (IsFree p) _ _ _ h
      (truncate_split-IsFree p name (rsplit_once dot name) d (rsplit_once-Splits dot name) h)

-- A text that does not end in a dot, and one that is long, is no traversal.
IsProper : Text → Type 0
IsProper s = (same_text s (dot ∷ []) ≡ false) × (same_text s (dot ∷ dot ∷ []) ≡ false)

tidy-IsProper : (s : Text) → ends_in is_stripped s ≡ false → IsProper s
unfolding IsProper
tidy-IsProper [] h = (refl, refl)
tidy-IsProper (c ∷ []) h = ground arith
tidy-IsProper (c ∷ d ∷ []) h = ground arith
tidy-IsProper (c ∷ d ∷ e ∷ es) h = ground arith

long-IsProper : (s : Text) → max_stem_utf16 ≤ utf16_len s + 1 → (is_empty s ≡ false) × IsProper s
unfolding utf16_len IsProper
long-IsProper [] h = ground arith
long-IsProper (c ∷ []) h = ground arith
long-IsProper (c ∷ d ∷ []) h = ground arith
long-IsProper (c ∷ d ∷ e ∷ es) h = ground arith

truncated-IsSafe : (name : Text) → IsName name → IsSafe (truncate_preserving_extension name)
unfolding IsProper is_unsafe
truncated-IsSafe name n =
    let m = truncate_preserving_extension-IsMeasured name n.not_reserved in
    let c = truncate_preserving_extension-IsFree is_unsafe name refl n.clean in
    elim m.same_or_long [
      | inl e ↦
          let p = tidy-IsProper name n.tidy in
          subst IsSafe (sym e) record {
            clean = n.clean;
            not_empty = n.not_empty;
            not_here = p.0;
            not_parent = p.1;
            within = subst (λ s. utf16_len s ≤ max_stem_utf16) e m.within;
            not_reserved = n.not_reserved;
            tidy = inl n.tidy;
          }
      | inr l ↦
          let p = long-IsProper _ l in
          record {
            clean = c;
            not_empty = p.0;
            not_here = p.1.0;
            not_parent = p.1.1;
            within = m.within;
            not_reserved = m.not_reserved;
            tidy = inr l;
          }
    ]

-- Whatever a server sends, `sanitize` returns a name that is safe to create: not empty, neither "." nor
-- "..", without separators, control characters, direction overrides and characters that Windows
-- refuses, no reserved device, within 200 UTF-16 units, and without a dot or a space at its end unless
-- it was cut to 199 or 200 units.
pub sanitize-IsSafe : (raw : Text) → IsSafe (sanitize raw)
unfolding sanitize
sanitize-IsSafe raw = truncated-IsSafe (renamed (trimmed (cleaned raw))) (
    renamed-IsName (trimmed (cleaned raw)) (trimmed-IsFree (cleaned raw) (cleaned-IsFree raw))
      (trimmed-ends (cleaned raw)))
