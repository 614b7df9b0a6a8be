-- ===== src/Headers/Printed.antt =====
-- A `Content-Range` that is printed as servers do is read back.
use ai_gen.Prelude.{
  ℕ, ◌≤◌, ◌<◌, ◌≡◌, ap, ◌∙◌, false, none, some, [], ◌∷◌, ◌++◌, arith, ltb, if◌then◌else◌, IsU64,
  Text, trim, trim_start, trim_end, split_once, strip_prefix, parse_u64,
}
use ai_gen.Prelude.Decimal.{
  show_u64, parse_u64-show_u64, trim-show_u64, split_once-show_u64, show_u64-IsFilled, IsFilled,
  split_once-append, trim_end-append, trim_end-show_u64, trim_start-show_u64, AllDigits,
  show_u64-AllDigits,
}
use ai_gen.Headers.{
  ContentRange, bind, parse_content_range, parse_total, with_spec, with_range, with_numbers,
  with_start, checked, consistent, bytes_unit,
}

parse_total_digits :
    (t : Text) → AllDigits t → IsFilled t → parse_total t ≡ bind (parse_u64 t) (λ n. some (some n))
parse_total_digits [] d f = absurd f
parse_total_digits (c ∷ []) d f = ground arith
parse_total_digits (c ∷ e ∷ cs) d f = ground arith

module _ (start end size : ℕ) (u : IsU64 size) (o : start ≤ end) (h : end < size) where
  total_read : parse_total (trim (show_u64 size)) ≡ some (some size)
  total_read =
      ap parse_total (trim-show_u64 size)
      ∙ parse_total_digits (show_u64 size) (show_u64-AllDigits size) (show_u64-IsFilled size)
      ∙ ap (λ n. bind n (λ k. some (some k))) (parse_u64-show_u64 size u)

  abbrev printed : ContentRange
  printed = record { start = start; end = end; total = some size }

  checked_read : checked start end (trim (show_u64 size)) ≡ some printed
  checked_read =
      ap (λ b. if b then none else bind (parse_total (trim (show_u64 size))) (consistent start end))
        (let e : ltb end start ≡ false = ground arith in e)
      ∙ ap (λ t. bind t (consistent start end)) total_read
      ∙ ground arith

  end_read : with_start (show_u64 end) (show_u64 size) start ≡ some printed
  end_read =
      ap (λ t. bind (parse_u64 t) (λ e. checked start e (trim (show_u64 size)))) (trim-show_u64 end)
      ∙ ap (λ n. bind n (λ e. checked start e (trim (show_u64 size))))
          (parse_u64-show_u64 end (omega arith))
      ∙ checked_read

  -- The numbers behind the unit.
  abbrev range_spec : Text
  range_spec = show_u64 start ++ 45 ∷ show_u64 end

  range_trimmed : trim range_spec ≡ range_spec
  range_trimmed =
      ap trim_end (trim_start-show_u64 start (45 ∷ show_u64 end))
      ∙ trim_end-append (show_u64 start) (45 ∷ show_u64 end) tt
          (trim_end-append (45 ∷ []) (show_u64 end) (show_u64-IsFilled end) (trim_end-show_u64 end))

  range_read : with_range (range_spec, show_u64 size) ≡ some printed
  range_read =
      ap (λ t. bind (split_once 45 t) (with_numbers (show_u64 size))) range_trimmed
      ∙ ap (λ p. bind p (with_numbers (show_u64 size)))
          (split_once-show_u64 45 start (show_u64 end) (omega arith))
      ∙ ap (λ t. bind (parse_u64 t) (with_start (show_u64 end) (show_u64 size)))
          (trim-show_u64 start)
      ∙ ap (λ n. bind n (with_start (show_u64 end) (show_u64 size)))
          (parse_u64-show_u64 start (omega arith))
      ∙ end_read

  abbrev spec : Text
  spec = show_u64 start ++ 45 ∷ (show_u64 end ++ 47 ∷ show_u64 size)

  spec_split : split_once 47 spec ≡ some (range_spec, show_u64 size)
  spec_split =
      split_once-append 47 (show_u64 start) (45 ∷ (show_u64 end ++ 47 ∷ show_u64 size))
        (45 ∷ show_u64 end) (show_u64 size) (omega arith) (show_u64-AllDigits start)
        (ap (λ o. elim o [ none ↦ none | some (a, b) ↦ some (45 ∷ a, b) ])
          (split_once-show_u64 47 end (show_u64 size) (omega arith)))

  abbrev header : Text
  header = 98 ∷ 121 ∷ 116 ∷ 101 ∷ 115 ∷ 32 ∷ spec

  header_trimmed : trim header ≡ header
  header_trimmed =
      trim_end-append (98 ∷ 121 ∷ 116 ∷ 101 ∷ 115 ∷ 32 ∷ show_u64 start)
        (45 ∷ (show_u64 end ++ 47 ∷ show_u64 size)) tt
        (trim_end-append (45 ∷ show_u64 end) (47 ∷ show_u64 size) tt (
          trim_end-append (47 ∷ []) (show_u64 size) (show_u64-IsFilled size)
            (trim_end-show_u64 size)))

  pub parse_content_range-printed : parse_content_range header ≡ some printed
  unfolding parse_content_range
  parse_content_range-printed =
      ap (λ t. bind (strip_prefix bytes_unit t) (λ s. with_spec (trim_start s))) header_trimmed
      ∙ ap with_spec (trim_start-show_u64 start (45 ∷ (show_u64 end ++ 47 ∷ show_u64 size)))
      ∙ ap (λ p. bind p with_range) spec_split
      ∙ range_read
