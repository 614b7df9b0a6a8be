-- ===== src/Filename/Measured.antt =====
-- crates/swiftload-core/src/util/filename.rs: what truncation does to the length of a name and to what
-- stands before its first dot.
use ai_gen.Prelude.{
  ℕ, ◌+◌, ◌*◌, ◌≤◌, ◌<◌, ◌≡◌, ◌⊎◌, refl, sym, ap, ◌∙◌, Bool, true, false, ◌&&◌, Option, none, some,
  List, [], ◌∷◌, ◌++◌, map, leb, Text, arith, Bool-cases, inl, inr, length, same_text, lower,
  saturating_sub, if_both_eq,
}
use ai_gen.Filename.{
  truncate_from, len_utf16, utf16_len, truncate_by_utf16, truncate_split,
  truncate_preserving_extension, rsplit_once, is_extension, dot, max_stem_utf16, stem_of, any_same,
  reserved, is_reserved,
}
use ai_gen.Filename.Chars.{Splits, rsplit_once-Splits}

pub utf16_len-append : (s t : Text) → utf16_len (s ++ t) ≡ utf16_len s + utf16_len t
unfolding utf16_len
utf16_len-append [] t = ground arith
utf16_len-append (c ∷ cs) t = ground (arith, utf16_len-append cs t)

-- What is kept is within the limit, and where not all is kept it misses the limit by one unit at most.
pub utf16_len-truncate_from :
    (s : Text) (used max : ℕ)
    → used ≤ max
    → (used + utf16_len (truncate_from used s max) ≤ max)
      × (max < used + utf16_len s → max ≤ used + utf16_len (truncate_from used s max) + 1)
unfolding utf16_len truncate_from
utf16_len-truncate_from [] used max h = ground arith
utf16_len-truncate_from (c ∷ cs) used max h =
    ground (arith, utf16_len-truncate_from cs (used + len_utf16 c) max)

-- Before the first dot nothing has changed, or there is more of it than the limit less one unit.
pub stem_of-truncate_from :
    (s : Text) (used max : ℕ)
    → used ≤ max
    → (stem_of (truncate_from used s max) ≡ stem_of s)
      ⊎ (max ≤ used + utf16_len (stem_of (truncate_from used s max)) + 1)
unfolding utf16_len truncate_from
stem_of-truncate_from [] used max h = inl refl
stem_of-truncate_from (c ∷ cs) used max h =
    ground (arith, stem_of-truncate_from cs (used + len_utf16 c) max)

pub stem_of-append : (s t : Text) → stem_of (s ++ (dot ∷ t)) ≡ stem_of s
stem_of-append [] t = refl
stem_of-append (c ∷ cs) t = ground (arith, stem_of-append cs t)

same_text-length : (a b : Text) → same_text (map lower a) (map lower b) ≡ true → length a ≡ length b
same_text-length [] [] h = refl
same_text-length [] (c ∷ cs) h = ground arith
same_text-length (c ∷ cs) [] h = ground arith
same_text-length (c ∷ cs) (d ∷ ds) h = ground (arith, same_text-length cs ds)

abbrev all_within : ℕ → List Text → Bool
all_within n [] = true
all_within n (r ∷ rs) = leb (length r) n && all_within n rs

any_same-length :
    (n : ℕ) (s : Text) (rs : List Text)
    → all_within n rs ≡ true
    → any_same s rs ≡ true
    → length s ≤ n
any_same-length n s [] h k = ground arith
any_same-length n s (r ∷ rs) h k = ground (arith, any_same-length n s rs, same_text-length r s)

pub utf16_len-length : (s : Text) → utf16_len s ≤ 2 * length s
unfolding utf16_len
utf16_len-length [] = ground arith
utf16_len-length (c ∷ cs) = ground (arith, utf16_len-length cs)

-- No reserved name has more than four characters.
any_same-reserved : (s : Text) → 8 < utf16_len s → any_same s reserved ≡ false
any_same-reserved s h = elim (Bool-cases (any_same s reserved)) [
  | inl e ↦ ground (arith, any_same-length 4 s reserved refl e, utf16_len-length s)
  | inr e ↦ e
]

pub is_reserved-truncate_from :
    (s : Text) (max : ℕ)
    → 10 ≤ max
    → is_reserved s ≡ false
    → is_reserved (truncate_from 0 s max) ≡ false
is_reserved-truncate_from s max h k = elim (stem_of-truncate_from s 0 max (ground arith)) [
  | inl e ↦ ap (λ t. any_same t reserved) e ∙ k
  | inr e ↦ any_same-reserved (stem_of (truncate_from 0 s max)) (ground arith)
]

-- What truncation leaves: no more than the limit, the name itself or nearly all of the limit, and no
-- reserved name.
pub record IsMeasured (name s : Text) : Type 0 where
  pub within : utf16_len s ≤ max_stem_utf16
  pub same_or_long : (s ≡ name) ⊎ (max_stem_utf16 ≤ utf16_len s + 1)
  pub not_reserved : is_reserved s ≡ false

truncate_whole-IsMeasured :
    (name : Text)
    → max_stem_utf16 < utf16_len name
    → is_reserved name ≡ false
    → IsMeasured name (truncate_by_utf16 name max_stem_utf16)
unfolding truncate_by_utf16
truncate_whole-IsMeasured name h k =
    let t = utf16_len-truncate_from name 0 max_stem_utf16 (ground arith) in
    record {
      within = ground (arith, t.0);
      same_or_long = inr (ground (arith, t.1));
      not_reserved = is_reserved-truncate_from name max_stem_utf16 (ground arith) k;
    }

truncate_parts-IsMeasured :
    (name stem ext : Text)
    → name ≡ stem ++ (dot ∷ ext)
    → utf16_len ext ≤ 16
    → max_stem_utf16 < utf16_len name
    → is_reserved name ≡ false
    → IsMeasured name
        (truncate_by_utf16 stem (saturating_sub max_stem_utf16 (utf16_len ext + 1)) ++ (dot ∷ ext))
unfolding truncate_by_utf16 utf16_len
truncate_parts-IsMeasured name stem ext e short long k =
    let budget = saturating_sub max_stem_utf16 (utf16_len ext + 1) in
    let kept = truncate_from 0 stem budget in
    let t = utf16_len-truncate_from stem 0 budget (ground arith) in
    let whole = ap utf16_len e ∙ utf16_len-append stem (dot ∷ ext) in
    let size = utf16_len-append kept (dot ∷ ext) in
    let same : is_reserved name ≡ is_reserved stem =
      ap is_reserved e ∙ ap (λ x. any_same x reserved) (stem_of-append stem ext) in
    let after : is_reserved (kept ++ (dot ∷ ext)) ≡ is_reserved kept =
      ap (λ x. any_same x reserved) (stem_of-append kept ext) in
    record {
      within = ground (arith, size, t.0);
      same_or_long = inr (ground (arith, size, t.1, whole));
      not_reserved = after ∙ is_reserved-truncate_from stem budget (ground arith) (sym same ∙ k);
    }

truncate_split-IsMeasured :
    (name : Text) (r : Option (Text × Text))
    → Splits dot name r
    → max_stem_utf16 < utf16_len name
    → is_reserved name ≡ false
    → IsMeasured name (truncate_split name r)
unfolding truncate_split
truncate_split-IsMeasured name none e h k = truncate_whole-IsMeasured name h k
truncate_split-IsMeasured name (some (stem, ext)) e h k =
    if_both_eq (IsMeasured name) (is_extension ext) _ _
      (λ q. truncate_parts-IsMeasured name stem ext e.0 (ground (arith, q)) h k)
      (λ q. truncate_whole-IsMeasured name h k)

pub truncate_preserving_extension-IsMeasured :
    (name : Text) → is_reserved name ≡ false → IsMeasured name (truncate_preserving_extension name)
unfolding truncate_preserving_extension
truncate_preserving_extension-IsMeasured name k =
    if_both_eq (IsMeasured name) (leb (utf16_len name) max_stem_utf16) _ _
      (λ q. record { within = ground (arith, q); same_or_long = inl refl; not_reserved = k })
      (λ q.
        truncate_split-IsMeasured name (rsplit_once dot name) (rsplit_once-Splits dot name)
          (ground (arith, q)) k)
