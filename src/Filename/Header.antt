-- ===== src/Filename/Header.antt =====
-- crates/swiftload-core/src/util/filename.rs: the name that a `Content-Disposition` header gives. What
-- the percent decoder and the lossy UTF-8 decoder make of a text is a parameter.
pub mod Split
pub mod Quoted
use ai_gen.Prelude.{
  ℕ, ◌+◌, Bool, true, false, not, ◌&&◌, ◌||◌, Option, none, some, List, [], ◌∷◌, ◌++◌, map, ◌==◌,
  if◌then◌else◌, Text, same_text, lower, eq_ignore_ascii_case, split_once,
}
use ai_gen.Filename.{trim_start_by, trim_end_by, is_whitespace, is_empty}

-- A percent-encoded text decoded as UTF-8, or as one character per byte.
pub record Percent : Type 0 where
  pub utf8 : Text → Text
  pub latin1 : Text → Text

abbrev pub quote : ℕ
quote = 34

abbrev pub escape : ℕ
escape = 92

abbrev pub semicolon : ℕ
semicolon = 59

-- The variables of `split_header_params`.
pub record Splitting : Type 0 where
  pub parts : List Text
  pub cur : Text
  pub in_quotes : Bool
  pub escaped : Bool

-- One character.
unfoldable pub split_step : Splitting → ℕ → Splitting
split_step t c =
    let pushed = t.cur ++ (c ∷ []) in
    if c == escape && (t.in_quotes && not t.escaped)
    then record t { escaped = true; cur = pushed }
    else if c == quote && not t.escaped
    then record t { in_quotes = not t.in_quotes; cur = pushed }
    else if c == semicolon && not t.in_quotes
    then record t { parts = t.parts ++ (t.cur ∷ []); cur = [] }
    else record t { escaped = false; cur = pushed }

unfoldable pub split_loop : Splitting → Text → Splitting
unfolding split_step
split_loop t [] = t
split_loop t (c ∷ cs) = split_loop (split_step t c) cs

abbrev pub split_start : Splitting
split_start = record { parts = []; cur = []; in_quotes = false; escaped = false }

abbrev pub split_end : Splitting → List Text
split_end t = t.parts ++ (t.cur ∷ [])

unfoldable pub split_header_params : Text → List Text
unfolding split_loop
split_header_params header = split_end (split_loop split_start header)

abbrev pub trim_chars : Text → Text
trim_chars s = trim_end_by is_whitespace (trim_start_by is_whitespace s)

-- "filename"
abbrev pub filename_key : Text
filename_key = 102 ∷ 105 ∷ 108 ∷ 101 ∷ 110 ∷ 97 ∷ 109 ∷ 101 ∷ []

-- "filename*"
abbrev pub filename_star_key : Text
filename_star_key = 102 ∷ 105 ∷ 108 ∷ 101 ∷ 110 ∷ 97 ∷ 109 ∷ 101 ∷ 42 ∷ []

-- "utf-8"
abbrev pub utf8_name : Text
utf8_name = 117 ∷ 116 ∷ 102 ∷ 45 ∷ 56 ∷ []

abbrev pub starts_quote : Text → Bool
starts_quote [] = false
starts_quote (c ∷ cs) = c == quote

-- `replace("\\\"", "\"")`: the backslash before each quote is dropped.
abbrev pub unescaped : Text → Text
unescaped [] = []
unescaped (c ∷ cs) = if c == escape && starts_quote cs then unescaped cs else c ∷ unescaped cs

-- What a parameter says: nothing, an extended name, or a plain one.
pub data Param : Type 0 where
  skip : Param
  extended plain : Text → Param

abbrev pub non_empty : (Text → Param) → Text → Param
non_empty f [] = skip
non_empty f (c ∷ cs) = f (c ∷ cs)

-- charset'language'value
abbrev pub read_extended : Percent → Option (Text × Text) → Param
read_extended p none = skip
read_extended p (some (charset, rest)) =
    let utf8 = eq_ignore_ascii_case charset utf8_name || is_empty charset in
    elim (split_once 39 rest) [
      | none ↦ skip
      | some (lang, encoded) ↦
          non_empty extended (if utf8 then p.utf8 encoded else p.latin1 encoded)
    ]

abbrev pub unquoted : Text → Text
unquoted value = trim_end_by (λ c. c == quote) (trim_start_by (λ c. c == quote) value)

abbrev pub plain_of : Text → Param
plain_of [] = skip
plain_of (c ∷ cs) = plain (unescaped (c ∷ cs))

abbrev pub read_plain : Text → Param
read_plain value = plain_of (unquoted value)

abbrev pub read_pair : Percent → Option (Text × Text) → Param
read_pair p none = skip
read_pair p (some (key, value)) =
    let name = map lower (trim_chars key) in
    if same_text name filename_star_key
    then read_extended p (split_once 39 (trim_chars value))
    else if same_text name filename_key
    then read_plain (trim_chars value)
    else skip

unfoldable pub read_param : Percent → Text → Param
read_param p part = read_pair p (split_once 61 part)

abbrev pub first_of : Option Text → Text → Option Text
first_of none v = some v
first_of (some u) v = some u

-- The loop of `parse_content_disposition`, behind the plain name that has been seen.
unfoldable pub param_loop : Percent → Option Text → List Text → Option Text
unfolding read_param
param_loop p seen [] = seen
param_loop p seen (part ∷ parts) = elim (read_param p part) [
  | skip ↦ param_loop p seen parts
  | extended s ↦ some s
  | plain s ↦ param_loop p (first_of seen s) parts
]

unfoldable pub parse_content_disposition : Percent → Text → Option Text
unfolding param_loop split_header_params
parse_content_disposition p header = param_loop p none (split_header_params header)
