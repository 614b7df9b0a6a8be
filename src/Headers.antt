-- ===== src/Headers.antt =====
-- crates/swiftload-core/src/http/headers.rs: the parsers of response headers. A header value is a
-- text of visible ASCII; the parser of HTTP dates and the clock are parameters.
pub mod Consistent
pub mod Printed
mod Examples
use ai_gen.Prelude.{
  ℕ, ◌+◌, ◌*◌, Bool, true, false, not, ◌||◌, Option, none, some, List, [], ◌∷◌, ◌++◌, map, ltb, leb,
  ◌==◌, if◌then◌else◌, min64, add64, sub64, Text, trim, trim_start, strip_prefix, split_once,
  parse_u64, lower, same_text,
}
use ai_gen.Prelude.Result.{◌>>=◌}

pub record ContentRange : Type 0 where
  pub start : ℕ
  pub end : ℕ
  pub total : Option ℕ

abbrev pub len : ContentRange → ℕ
len r = sub64 (add64 r.end 1) r.start

-- "bytes"
abbrev pub bytes_unit : Text
bytes_unit = 98 ∷ 121 ∷ 116 ∷ 101 ∷ 115 ∷ []

abbrev pub bind : {A B : Type 0} → Option A → (A → Option B) → Option B
bind none f = none
bind (some a) f = f a

-- The total after the slash: "*" is a total that the server does not commit to.
abbrev pub parse_total : Text → Option (Option ℕ)
parse_total t = if same_text t (42 ∷ []) then some none else bind (parse_u64 t) (λ n. some (some n))

-- `end >= t` for a total that is known
abbrev pub past_total : ℕ → Option ℕ → Bool
past_total end none = false
past_total end (some t) = leb t end

abbrev pub consistent : ℕ → ℕ → Option ℕ → Option ContentRange
consistent start end total =
    if past_total end total then none else some (record { start = start; end = end; total = total })

-- `parse_content_range` from the test `end < start` on; the functions below it go up to its start.
abbrev pub checked : ℕ → ℕ → Text → Option ContentRange
checked start end total =
    if ltb end start then none else bind (parse_total total) (λ known. consistent start end known)

abbrev pub with_start : Text → Text → ℕ → Option ContentRange
with_start b total start = bind (parse_u64 (trim b)) (λ end. checked start end (trim total))

abbrev pub with_numbers : Text → Text × Text → Option ContentRange
with_numbers total (a, b) = bind (parse_u64 (trim a)) (with_start b total)

abbrev pub with_range : Text × Text → Option ContentRange
with_range (range, total) = bind (split_once 45 (trim range)) (with_numbers total)

abbrev pub with_spec : Text → Option ContentRange
with_spec spec = bind (split_once 47 spec) with_range

unfoldable pub parse_content_range : Text → Option ContentRange
parse_content_range v =
    bind (strip_prefix bytes_unit (trim v)) (λ spec. with_spec (trim_start spec))

-- A duration is its number of nanoseconds; `nanos_until` reads an HTTP date, and has the nanoseconds
-- from now to then, or 0 when it is past.
unfoldable pub parse_retry_after : (nanos_until : Text → Option ℕ) → Text → ℕ → Option ℕ
parse_retry_after nanos_until v cap = elim (parse_u64 (trim v)) [
  | some secs ↦ some (min64 (secs * 1000000000) cap)
  | none ↦ bind (nanos_until (trim v)) (λ d. some (min64 d cap))
]

-- "identity"
abbrev pub identity : Text
identity = 105 ∷ 100 ∷ 101 ∷ 110 ∷ 116 ∷ 105 ∷ 116 ∷ 121 ∷ []

abbrev pub is_transforming_encoding : Text → Bool
is_transforming_encoding v =
    let w = map lower (trim v) in not (same_text w [] || same_text w identity)

pub data Validator : Type 0 where
  strong weak : Text → Validator

-- A value that is not empty, behind `trim`.
abbrev parse_trimmed : Text → Validator
parse_trimmed v = elim (strip_prefix (87 ∷ 47 ∷ []) v) [
  | some rest ↦ weak (trim rest)
  | none ↦ elim (strip_prefix (119 ∷ 47 ∷ []) v) [ some rest ↦ weak (trim rest) | none ↦ strong v ]
]

unfoldable pub parse : Text → Option Validator
parse v = let w = trim v in if same_text w [] then none else some (parse_trimmed w)

abbrev pub is_strong : Validator → Bool
is_strong (strong s) = true
is_strong (weak s) = false

abbrev pub raw : Validator → Text
raw (strong s) = s
raw (weak s) = s

abbrev pub as_header : Validator → Text
as_header (strong s) = s
as_header (weak s) = 87 ∷ 47 ∷ s
