-- ===== src/Filename/Destination.antt =====
-- crates/swiftload-core/src/util/filename.rs: where a name is put. A `Path` is its components; what
-- exists on the disk and a fresh identifier are parameters.
pub mod Inside
pub mod Free
use ai_gen.Prelude.{
  ℕ, suc, zero, ◌+◌, ◌-◌, ◌/◌, ◌%◌, Bool, true, false, not, ◌&&◌, ◌||◌, Option, none, some, List,
  [], ◌∷◌, ◌++◌, ◌==◌, if◌then◌else◌, Text, same_text, ltb, length,
}
use ai_gen.Prelude.Result.{Result, ok, err}
use ai_gen.Filename.{sanitize, rsplit_once, dot, slash, is_empty}

pub data FilenameError : Type 0 where
  escapes not_unicode : FilenameError

-- `std::path::Component`
pub data Component : Type 0 where
  root_dir cur_dir parent_dir : Component
  normal : Text → Component

-- The pieces of a text between the separators.
abbrev pub add_char : ℕ → List Text → List Text
add_char c [] = (c ∷ []) ∷ []
add_char c (p ∷ ps) = (c ∷ p) ∷ ps

abbrev pub pieces : Text → List Text
pieces [] = [] ∷ []
pieces (c ∷ cs) = if c == slash then [] ∷ pieces cs else add_char c (pieces cs)

-- The component that a piece inside a path stands for: an empty one and "." stand for none.
abbrev pub component_of : Text → List Component
component_of piece =
    if is_empty piece || same_text piece (dot ∷ [])
    then []
    else if same_text piece (dot ∷ dot ∷ [])
    then parent_dir ∷ []
    else normal piece ∷ []

abbrev pub components_of : List Text → List Component
components_of [] = []
components_of (p ∷ ps) = component_of p ++ components_of ps

abbrev pub is_absolute : Text → Bool
is_absolute [] = false
is_absolute (c ∷ cs) = c == slash

-- `Path::join`: an absolute path replaces what it is joined to.
unfoldable pub join_path : List Component → Text → List Component
join_path dir name =
    if is_absolute name
    then root_dir ∷ components_of (pieces name)
    else dir ++ components_of (pieces name)

-- `PathBuf::pop`, which leaves the root.
abbrev pub pop : List Component → List Component
pop [] = []
pop (root_dir ∷ []) = root_dir ∷ []
pop (cur_dir ∷ []) = []
pop (parent_dir ∷ []) = []
pop (normal s ∷ []) = []
pop (c ∷ d ∷ ds) = c ∷ pop (d ∷ ds)

-- `PathBuf::push` of one component.
abbrev pub push : List Component → Component → List Component
push out root_dir = root_dir ∷ []
push out cur_dir = out ++ (cur_dir ∷ [])
push out parent_dir = out ++ (parent_dir ∷ [])
push out (normal s) = out ++ (normal s ∷ [])

-- One component of the loop of `normalize_lexically`.
abbrev pub normalize_step : List Component → Component → List Component
normalize_step out cur_dir = out
normalize_step out parent_dir = pop out
normalize_step out root_dir = push out root_dir
normalize_step out (normal s) = push out (normal s)

unfoldable pub normalize_from : List Component → List Component → List Component
normalize_from out [] = out
normalize_from out (c ∷ cs) = normalize_from (normalize_step out c) cs

unfoldable pub normalize_lexically : List Component → List Component
unfolding normalize_from
normalize_lexically path = normalize_from [] path

abbrev pub same_component : Component → Component → Bool
same_component root_dir root_dir = true
same_component cur_dir cur_dir = true
same_component parent_dir parent_dir = true
same_component (normal s) (normal t) = same_text s t
same_component _ _ = false

-- `strip_prefix`, which gives something where `starts_with` holds.
unfoldable pub strip_base : List Component → List Component → Option (List Component)
strip_base path [] = some path
strip_base [] (b ∷ bs) = none
strip_base (c ∷ cs) (b ∷ bs) = if same_component c b then strip_base cs bs else none

unfoldable pub inside :
    List Component → Option (List Component) → Result FilenameError (List Component)
inside normalized none = err escapes
inside normalized (some rel) = if length rel == 1 then ok normalized else err escapes

unfoldable pub resolve_destination : List Component → Text → Result FilenameError (List Component)
unfolding sanitize join_path normalize_lexically strip_base inside
resolve_destination dir filename =
    let normalized = normalize_lexically (join_path dir (sanitize filename)) in
    inside normalized (strip_base normalized (normalize_lexically dir))

-- The decimal digits of a number below 10000.
abbrev pub digit : ℕ → ℕ
digit n = 48 + n % 10

abbrev pub decimal : ℕ → Text
decimal n =
    if ltb n 10
    then digit n ∷ []
    else if ltb n 100
    then digit (n / 10) ∷ digit n ∷ []
    else if ltb n 1000
    then digit (n / 100) ∷ digit (n / 10) ∷ digit n ∷ []
    else digit (n / 1000) ∷ digit (n / 100) ∷ digit (n / 10) ∷ digit n ∷ []

-- The name before its extension, and the extension.
abbrev pub parts_of : Text → Option (Text × Text) → Text × Option Text
parts_of name none = (name, none)
parts_of name (some (s, e)) = if is_empty s then (name, none) else (s, some e)

-- " ("
abbrev pub open_number : Text
open_number = 32 ∷ 40 ∷ []

abbrev pub candidate_of : Text × Option Text → ℕ → Text
candidate_of (stem, none) n = stem ++ open_number ++ decimal n ++ (41 ∷ [])
candidate_of (stem, some e) n = stem ++ open_number ++ decimal n ++ (41 ∷ dot ∷ e)

-- The loop of `dedupe` over `count` numbers from `n`. `exists` tells which names the directory has.
unfoldable pub first_free : (Text → Bool) → Text × Option Text → ℕ → ℕ → Option Text
first_free exists parts n zero = none
first_free exists parts n (suc count) = elim (exists (candidate_of parts n)) [
  | false ↦ some (candidate_of parts n)
  | true ↦ first_free exists parts (n + 1) count
]

abbrev pub or_fresh : Text → Text → Option Text → Text
or_fresh stem fresh (some name) = name
or_fresh stem fresh none = stem ++ (45 ∷ fresh)

-- The numbers 2 to 9999, and then a fresh identifier.
unfoldable pub dedupe : (Text → Bool) → Text → Text → Text
dedupe exists fresh filename =
    let parts = parts_of filename (rsplit_once dot filename) in
    if not (exists filename)
    then filename
    else elim (first_free exists parts 2 9998) [ some name ↦ name | none ↦ parts.0 ++ (45 ∷ fresh) ]
