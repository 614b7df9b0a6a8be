-- ===== src/Filename/Resolve/Laws.antt =====
-- crates/swiftload-core/src/util/filename.rs: every name that `resolve` gives is safe, and one that the
-- header gives comes first.
use ai_gen.Prelude.{
  ◌≡◌, refl, Bool, true, false, not, ◌&&◌, Option, none, some, List, [], ◌∷◌, ◌++◌, leb, Text,
  same_text, arith, if_both, inl, map, lower,
}
use ai_gen.Filename.{sanitize, download, dot, has, is_empty, is_reserved, utf16_len, max_stem_utf16}
use ai_gen.Filename.Chars.{is_unsafe}
use ai_gen.Filename.Safe.{IsSafe, sanitize-IsSafe, ends_in, is_stripped}
use ai_gen.Filename.Header.{Percent, parse_content_disposition, trim_chars, semicolon}
use ai_gen.Filename.Resolve.{
  extensions, find_type, extension_for_mime, before, last_segment, telling, from_header,
  from_segments, from_type, from_segment, download_as, or_else, resolve,
}

-- The tests that make a name safe.
seven :
    (a b c d e f g : Bool)
    → (not a && not b && not c && not d && e && not f && not g) ≡ true
    → (a ≡ false) × (b ≡ false) × (c ≡ false) × (d ≡ false) × (e ≡ true) × (f ≡ false) × (g ≡ false)
seven a b c d e f g h = ground arith

and_both : (a b : Bool) → (a && b) ≡ true → (a ≡ true) × (b ≡ true)
and_both a b h = ground arith

passes : Text → Bool
unfolding is_unsafe utf16_len
passes s =
    not (has is_unsafe s)
    && not (is_empty s)
    && not (same_text s (dot ∷ []))
    && not (same_text s (dot ∷ dot ∷ []))
    && leb (utf16_len s) max_stem_utf16
    && not (is_reserved s)
    && not (ends_in is_stripped s)

-- The table's names pass the tests, and so does the name without an extension.
passes-IsSafe : (s : Text) → passes s ≡ true → IsSafe s
unfolding passes
passes-IsSafe s h =
    let facts =
      seven (has is_unsafe s) (is_empty s) (same_text s (dot ∷ [])) (same_text s (dot ∷ dot ∷ []))
        (leb (utf16_len s) max_stem_utf16) (is_reserved s) (ends_in is_stripped s) h in
    record {
      clean = facts.0;
      not_empty = facts.1;
      not_here = facts.2;
      not_parent = facts.3;
      within = ground (arith, facts.4);
      not_reserved = facts.5;
      tidy = inl facts.6;
    }

abbrev all_pass : List (Text × Text) → Bool
unfolding passes
all_pass [] = true
all_pass ((mime, ext) ∷ rest) = passes (download ++ (dot ∷ ext)) && all_pass rest

find_type-passes :
    (base : Text) (table : List (Text × Text))
    → all_pass table ≡ true
    → passes (download_as (find_type base table)) ≡ true
unfolding passes
find_type-passes base [] h = refl
find_type-passes base ((mime, ext) ∷ rest) h =
    let both = and_both (passes (download ++ (dot ∷ ext))) (all_pass rest) h in
    if_both (λ r. passes (download_as r) ≡ true) (same_text base mime) (some ext)
      (find_type base rest) both.0 (find_type-passes base rest both.1)

from_type-IsSafe : (content_type : Option Text) → IsSafe (from_type content_type)
unfolding extension_for_mime passes
from_type-IsSafe none = passes-IsSafe download refl
from_type-IsSafe (some mime) =
    passes-IsSafe _
      (find_type-passes (map lower (trim_chars (before semicolon mime))) extensions refl)

Safely : Option Text → Type 0
Safely none = Unit {0}
Safely (some s) = IsSafe s

telling-Safely : (name : Option Text) → Safely (telling name)
unfolding telling Safely
telling-Safely none = tt
telling-Safely (some name) =
    if_both Safely (same_text (sanitize name) download) none (some (sanitize name)) tt
      (sanitize-IsSafe name)

from_header-Safely : (p : Percent) (header : Option Text) → Safely (from_header p header)
unfolding Safely from_header
from_header-Safely p none = tt
from_header-Safely p (some header) = telling-Safely (parse_content_disposition p header)

from_segment-Safely : (p : Percent) (segment : Option Text) → Safely (from_segment p segment)
unfolding Safely from_segment
from_segment-Safely p none = tt
from_segment-Safely p (some segment) = telling-Safely (some (p.utf8 segment))

from_segments-Safely :
    (p : Percent) (segments : Option (List Text)) → Safely (from_segments p segments)
unfolding Safely
from_segments-Safely p none = tt
from_segments-Safely p (some segments) = from_segment-Safely p (last_segment segments)

or_else-IsSafe : (o : Option Text) (t : Text) → Safely o → IsSafe t → IsSafe (or_else o t)
unfolding Safely
or_else-IsSafe none t h k = k
or_else-IsSafe (some s) t h k = h

-- Whatever the header, the address and the media type, and whatever the percent decoder makes of them,
-- the name of a download is safe to create.
pub resolve-IsSafe :
    (p : Percent) (content_disposition : Option Text) (segments : Option (List Text))
    (content_type : Option Text)
    → IsSafe (resolve p content_disposition segments content_type)
unfolding resolve
resolve-IsSafe p content_disposition segments content_type =
    or_else-IsSafe (from_header p content_disposition) _ (from_header-Safely p content_disposition)
      (or_else-IsSafe (from_segments p segments) (from_type content_type)
        (from_segments-Safely p segments) (from_type-IsSafe content_type))
