-- ===== src/Filename.antt =====
-- crates/swiftload-core/src/util/filename.rs: making an untrusted name safe. A `str` is the list of its
-- code points.
pub mod Chars
pub mod Measured
pub mod Safe
pub mod Header
pub mod Resolve
pub mod Destination
mod Examples
use ai_gen.Prelude.{
  ℕ, ◌+◌, ◌-◌, ◌*◌, Bool, true, false, not, ◌&&◌, ◌||◌, Option, none, some, List, [], ◌∷◌, ◌++◌,
  map, ltb, leb, ◌==◌, if◌then◌else◌, saturating_sub, Text, same_text, eq_ignore_ascii_case,
}

abbrev pub max_stem_utf16 : ℕ
max_stem_utf16 = 200

abbrev pub slash : ℕ
slash = 47

abbrev pub backslash : ℕ
backslash = 92

abbrev pub dot : ℕ
dot = 46

abbrev pub space : ℕ
space = 32

abbrev pub numbered : Text → List ℕ → List Text
numbered stem [] = []
numbered stem (d ∷ ds) = (stem ++ (d ∷ [])) ∷ numbered stem ds

abbrev pub digits_of_ports : List ℕ
digits_of_ports = 49 ∷ 50 ∷ 51 ∷ 52 ∷ 53 ∷ 54 ∷ 55 ∷ 56 ∷ 57 ∷ []

-- CON, PRN, AUX, NUL, COM1 to COM9, LPT1 to LPT9
abbrev pub reserved : List Text
reserved =
    (67 ∷ 79 ∷ 78 ∷ [])
    ∷ (80 ∷ 82 ∷ 78 ∷ [])
    ∷ (65 ∷ 85 ∷ 88 ∷ [])
    ∷ (78 ∷ 85 ∷ 76 ∷ [])
    ∷ (numbered (67 ∷ 79 ∷ 77 ∷ []) digits_of_ports ++ numbered (76 ∷ 80 ∷ 84 ∷ []) digits_of_ports)

-- "download"
abbrev pub download : Text
download = 100 ∷ 111 ∷ 119 ∷ 110 ∷ 108 ∷ 111 ∷ 97 ∷ 100 ∷ []

-- `char::is_whitespace`
abbrev pub is_whitespace : ℕ → Bool
is_whitespace c =
    (leb 9 c && leb c 13)
    || c == 32
    || c == 133
    || c == 160
    || c == 5760
    || (leb 8192 c && leb c 8202)
    || c == 8232
    || c == 8233
    || c == 8239
    || c == 8287
    || c == 12288

-- `char::is_control`
abbrev pub is_control : ℕ → Bool
is_control c = leb c 31 || (leb 127 c && leb c 159)

-- U+202A to U+202E, U+2066 to U+2069, U+200E, U+200F and U+FEFF
abbrev pub is_bidi : ℕ → Bool
is_bidi c =
    (leb 8234 c && leb c 8238) || (leb 8294 c && leb c 8297) || c == 8206 || c == 8207 || c == 65279

abbrev pub is_kept : ℕ → Bool
is_kept c = not (is_control c) && not (is_bidi c)

-- < > : " | ? *
abbrev pub is_invalid : ℕ → Bool
is_invalid c = c == 60 || c == 62 || c == 58 || c == 34 || c == 124 || c == 63 || c == 42

abbrev pub repaired : ℕ → ℕ
repaired c = if is_invalid c then 95 else c

abbrev pub is_separator : ℕ → Bool
is_separator c = c == slash || c == backslash

abbrev pub trim_start_by : (ℕ → Bool) → Text → Text
trim_start_by p [] = []
trim_start_by p (c ∷ cs) = if p c then trim_start_by p cs else c ∷ cs

abbrev pub add_or_drop : (ℕ → Bool) → ℕ → Text → Text
add_or_drop p c [] = if p c then [] else c ∷ []
add_or_drop p c (d ∷ ds) = c ∷ d ∷ ds

-- `trim_end_matches`
abbrev pub trim_end_by : (ℕ → Bool) → Text → Text
trim_end_by p [] = []
trim_end_by p (c ∷ cs) = add_or_drop p c (trim_end_by p cs)

abbrev pub has : (ℕ → Bool) → Text → Bool
has p [] = false
has p (c ∷ cs) = p c || has p cs

-- The first piece of `rsplit`: what follows the last character that `p` accepts.
abbrev pub last_piece : (ℕ → Bool) → Text → Text
last_piece p [] = []
last_piece p (c ∷ cs) = if has p cs then last_piece p cs else if p c then cs else c ∷ cs

abbrev pub retained : (ℕ → Bool) → Text → Text
retained p [] = []
retained p (c ∷ cs) = if p c then c ∷ retained p cs else retained p cs

abbrev pub is_dot : ℕ → Bool
is_dot c = c == dot

abbrev pub all_dots : Text → Bool
all_dots s = not (has (λ c. not (is_dot c)) s)

-- The first piece of `split('.')`.
abbrev pub stem_of : Text → Text
stem_of [] = []
stem_of (c ∷ cs) = if is_dot c then [] else c ∷ stem_of cs

abbrev pub any_same : Text → List Text → Bool
any_same s [] = false
any_same s (r ∷ rs) = eq_ignore_ascii_case r s || any_same s rs

abbrev pub is_reserved : Text → Bool
is_reserved name = any_same (stem_of name) reserved

abbrev pub len_utf16 : ℕ → ℕ
len_utf16 c = if ltb c 65536 then 1 else 2

unfoldable pub utf16_len : Text → ℕ
utf16_len [] = 0
utf16_len (c ∷ cs) = len_utf16 c + utf16_len cs

-- The loop of `truncate_by_utf16`, behind the units that have been used.
unfoldable pub truncate_from : ℕ → Text → ℕ → Text
truncate_from used [] max = []
truncate_from used (c ∷ cs) max =
    let rest = truncate_from (used + len_utf16 c) cs max in
    if ltb max (used + len_utf16 c) then [] else c ∷ rest

unfoldable pub truncate_by_utf16 : Text → ℕ → Text
unfolding truncate_from
truncate_by_utf16 s max = truncate_from 0 s max

abbrev pub put_before : ℕ → Option (Text × Text) → Text → ℕ → Option (Text × Text)
put_before c (some (a, b)) cs mark = some (c ∷ a, b)
put_before c none cs mark = if c == mark then some ([], cs) else none

unfoldable pub rsplit_once : ℕ → Text → Option (Text × Text)
rsplit_once mark [] = none
rsplit_once mark (c ∷ cs) = put_before c (rsplit_once mark cs) cs mark

abbrev pub is_empty : Text → Bool
is_empty [] = true
is_empty (c ∷ cs) = false

-- What follows the last dot is an extension only where it is short.
abbrev pub is_extension : Text → Bool
unfolding utf16_len
is_extension ext = not (is_empty ext) && leb (utf16_len ext) 16

unfoldable pub truncate_split : Text → Option (Text × Text) → Text
unfolding utf16_len truncate_by_utf16
truncate_split name none = truncate_by_utf16 name max_stem_utf16
truncate_split name (some (stem, ext)) =
    if is_extension ext
    then truncate_by_utf16 stem (saturating_sub max_stem_utf16 (utf16_len ext + 1)) ++ (dot ∷ ext)
    else truncate_by_utf16 name max_stem_utf16

unfoldable pub truncate_preserving_extension : Text → Text
unfolding utf16_len truncate_split rsplit_once
truncate_preserving_extension name =
    if leb (utf16_len name) max_stem_utf16 then name else truncate_split name (rsplit_once dot name)

-- The rules 1 to 4: the last component, without the characters that mislead, the invalid ones replaced.
unfoldable pub cleaned : Text → Text
cleaned raw = map repaired (
    retained is_kept
      (trim_end_by is_whitespace (trim_start_by is_whitespace (last_piece is_separator raw))))

-- The rule on "." and "..".
abbrev pub without_traversal : Text → Text
without_traversal name =
    if same_text name (dot ∷ []) || same_text name (dot ∷ dot ∷ []) || all_dots name
    then []
    else name

-- The rule 5.
unfoldable pub trimmed : Text → Text
trimmed name =
    trim_start_by is_whitespace (trim_end_by (λ c. c == space || c == dot) (without_traversal name))

-- A name for what has none, and the rule 6.
unfoldable pub renamed : Text → Text
renamed trimmed =
    let name = if is_empty trimmed then download else trimmed in
    if is_reserved name then 95 ∷ name else name

unfoldable pub sanitize : Text → Text
unfolding cleaned trimmed renamed truncate_preserving_extension
sanitize raw = truncate_preserving_extension (renamed (trimmed (cleaned raw)))
