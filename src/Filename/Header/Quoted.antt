-- ===== src/Filename/Header/Quoted.antt =====
-- crates/swiftload-core/src/util/filename.rs: the name that stands quoted in a header is read as it is.
use ai_gen.Prelude.{
  ℕ, ◌≡◌, refl, sym, ap, ◌∙◌, Bool, true, false, ◌||◌, Option, none, some, List, [], ◌∷◌, ◌++◌,
  ◌==◌, Text, arith,
}
use mathlib.Core.List.{append_assoc, append-nil}
use ai_gen.Filename.{trim_end_by, add_or_drop, is_whitespace, is_empty}
use ai_gen.Filename.Chars.{IsFree}
use ai_gen.Filename.Header.{
  Splitting, split_step, split_loop, split_end, split_header_params, quote, escape, semicolon,
  Percent, Param, plain, skip, extended, unquoted, unescaped, read_param, read_plain, plain_of,
  param_loop, parse_content_disposition,
}

abbrev pub is_mark : ℕ → Bool
is_mark c = c == quote || c == escape

-- attachment;
abbrev pub disposition : Text
disposition = 97 ∷ 116 ∷ 116 ∷ 97 ∷ 99 ∷ 104 ∷ 109 ∷ 101 ∷ 110 ∷ 116 ∷ []

--  filename="
abbrev pub opening : Text
opening = 32 ∷ 102 ∷ 105 ∷ 108 ∷ 101 ∷ 110 ∷ 97 ∷ 109 ∷ 101 ∷ 61 ∷ 34 ∷ []

split_loop-append :
    (t : Splitting) (a b : Text) → split_loop t (a ++ b) ≡ split_loop (split_loop t a) b
unfolding split_loop
split_loop-append t [] b = refl
split_loop-append t (c ∷ cs) b = split_loop-append (split_step t c) cs b

abbrev quoting : List Text → Text → Splitting
quoting parts cur = record { parts = parts; cur = cur; in_quotes = true; escaped = false }

split_step-quoting :
    (parts : List Text) (cur : Text) (c : ℕ)
    → is_mark c ≡ false
    → split_step (quoting parts cur) c ≡ quoting parts (cur ++ (c ∷ []))
unfolding split_step
split_step-quoting parts cur c h = ground arith

-- Within quotes every character is taken, a semicolon too.
split_loop-quoting :
    (parts : List Text) (cur v : Text)
    → IsFree is_mark v
    → split_loop (quoting parts cur) v ≡ quoting parts (cur ++ v)
unfolding split_loop
split_loop-quoting parts cur [] h = ap (quoting parts) (sym (append-nil cur))
split_loop-quoting parts cur (c ∷ cs) h =
    ap (λ t. split_loop t cs) (split_step-quoting parts cur c (ground arith))
    ∙ split_loop-quoting parts (cur ++ (c ∷ [])) cs (ground arith)
    ∙ ap (quoting parts) (append_assoc cur (c ∷ []) cs)

split-quoted :
    (v : Text)
    → IsFree is_mark v
    → split_header_params (disposition ++ (semicolon ∷ opening) ++ v ++ (quote ∷ []))
      ≡ disposition ∷ (opening ++ v ++ (quote ∷ [])) ∷ []
unfolding split_header_params split_loop split_step
split-quoted v h = ap split_end (
    split_loop-append (quoting (disposition ∷ []) opening) v (quote ∷ [])
    ∙ ap (λ t. split_loop t (quote ∷ [])) (split_loop-quoting (disposition ∷ []) opening v h))

trim_end_by-last :
    (p : ℕ → Bool) (v : Text) (m : ℕ) → p m ≡ false → trim_end_by p (v ++ (m ∷ [])) ≡ v ++ (m ∷ [])
trim_end_by-last p [] m h = ground arith
trim_end_by-last p (c ∷ []) m h = ground arith
trim_end_by-last p (c ∷ d ∷ ds) m h = ap (add_or_drop p c) (trim_end_by-last p (d ∷ ds) m h)

trim_end_by-drop :
    (p : ℕ → Bool) (v : Text) (m : ℕ) → p m ≡ true → IsFree p v → trim_end_by p (v ++ (m ∷ [])) ≡ v
trim_end_by-drop p [] m h k = ground arith
trim_end_by-drop p (c ∷ []) m h k = ground arith
trim_end_by-drop p (c ∷ d ∷ ds) m h k =
    ap (add_or_drop p c) (trim_end_by-drop p (d ∷ ds) m h (ground arith))

unescaped-IsFree : (v : Text) → IsFree is_mark v → unescaped v ≡ v
unescaped-IsFree [] h = refl
unescaped-IsFree (c ∷ cs) h = ground (arith, unescaped-IsFree cs)

is_mark-quote : (v : Text) → IsFree is_mark v → IsFree (λ c. c == quote) v
is_mark-quote [] h = refl
is_mark-quote (c ∷ cs) h = ground (arith, is_mark-quote cs)

unquoted-quoted :
    (v : Text) → is_empty v ≡ false → IsFree is_mark v → unquoted (quote ∷ (v ++ (quote ∷ []))) ≡ v
unquoted-quoted [] e h = ground arith
unquoted-quoted (c ∷ cs) e h =
    ground
      (arith, trim_end_by-drop (λ c. c == quote) (c ∷ cs) quote refl (is_mark-quote (c ∷ cs) h))

read_plain-quoted :
    (v : Text)
    → is_empty v ≡ false
    → IsFree is_mark v
    → read_plain (quote ∷ (v ++ (quote ∷ []))) ≡ plain v
read_plain-quoted [] e h = ground arith
read_plain-quoted (c ∷ cs) e h =
    ap plain_of (unquoted-quoted (c ∷ cs) e h) ∙ ap plain (unescaped-IsFree (c ∷ cs) h)

read_param-quoted :
    (p : Percent) (v : Text)
    → is_empty v ≡ false
    → IsFree is_mark v
    → read_param p (opening ++ v ++ (quote ∷ [])) ≡ plain v
unfolding read_param
read_param-quoted p [] e h = ground arith
read_param-quoted p (c ∷ cs) e h =
    ap (λ r. read_plain (add_or_drop is_whitespace quote r))
      (trim_end_by-last is_whitespace (c ∷ cs) quote refl)
    ∙ read_plain-quoted (c ∷ cs) e h

-- A name without quotes and backslashes that a header gives in quotes is the name that is read, be there
-- semicolons and equals signs in it.
pub parse_content_disposition-quoted :
    (p : Percent) (v : Text)
    → is_empty v ≡ false
    → IsFree is_mark v
    → parse_content_disposition p (disposition ++ (semicolon ∷ opening) ++ v ++ (quote ∷ []))
      ≡ some v
unfolding parse_content_disposition param_loop
parse_content_disposition-quoted p v e h =
    ap (param_loop p none) (split-quoted v h)
    ∙ ap {A = Param}
        (λ r. elim r as (λ x. Option Text) [ skip ↦ none | extended s ↦ some s | plain s ↦ some s ])
        (read_param-quoted p v e h)
