-- ===== src/Filename/Resolve.antt =====
-- crates/swiftload-core/src/util/filename.rs: the name of a download, from the header, the address or
-- the media type.
pub mod Laws
use ai_gen.Prelude.{
  ℕ, Bool, true, false, not, Option, none, some, List, [], ◌∷◌, ◌++◌, map, ◌==◌, if◌then◌else◌,
  Text, same_text, lower,
}
use ai_gen.Filename.{is_empty, sanitize, download, dot}
use ai_gen.Filename.Header.{Percent, trim_chars, parse_content_disposition, semicolon}

-- "application/"
abbrev application : Text
application = 97 ∷ 112 ∷ 112 ∷ 108 ∷ 105 ∷ 99 ∷ 97 ∷ 116 ∷ 105 ∷ 111 ∷ 110 ∷ 47 ∷ []

-- "text/"
abbrev text_of : Text
text_of = 116 ∷ 101 ∷ 120 ∷ 116 ∷ 47 ∷ []

-- "image/"
abbrev image : Text
image = 105 ∷ 109 ∷ 97 ∷ 103 ∷ 101 ∷ 47 ∷ []

-- "video/"
abbrev video : Text
video = 118 ∷ 105 ∷ 100 ∷ 101 ∷ 111 ∷ 47 ∷ []

-- "audio/"
abbrev audio : Text
audio = 97 ∷ 117 ∷ 100 ∷ 105 ∷ 111 ∷ 47 ∷ []

-- The media types and their extensions.
abbrev pub extensions : List (Text × Text)
extensions =
    -- application/zip
    (application ++ (122 ∷ 105 ∷ 112 ∷ []), 122 ∷ 105 ∷ 112 ∷ [])
    ∷  -- application/pdf
        (application ++ (112 ∷ 100 ∷ 102 ∷ []), 112 ∷ 100 ∷ 102 ∷ [])
    ∷  -- application/json
        (application ++ (106 ∷ 115 ∷ 111 ∷ 110 ∷ []), 106 ∷ 115 ∷ 111 ∷ 110 ∷ [])
    ∷  -- application/x-tar
        (application ++ (120 ∷ 45 ∷ 116 ∷ 97 ∷ 114 ∷ []), 116 ∷ 97 ∷ 114 ∷ [])
    ∷  -- application/gzip
        (application ++ (103 ∷ 122 ∷ 105 ∷ 112 ∷ []), 103 ∷ 122 ∷ [])
    ∷  -- application/x-gzip
        (application ++ (120 ∷ 45 ∷ 103 ∷ 122 ∷ 105 ∷ 112 ∷ []), 103 ∷ 122 ∷ [])
    ∷  -- application/x-7z-compressed
        (
          application
              ++ (120 ∷ 45 ∷ 55 ∷ 122 ∷ 45 ∷ 99 ∷ 111 ∷ 109 ∷ 112 ∷ 114 ∷ 101 ∷ 115 ∷ 115 ∷ 101
                  ∷ 100 ∷ []),
          55 ∷ 122 ∷ [],
        )
    ∷  -- application/vnd.microsoft.portable-executable
        (
          application
              ++ (118 ∷ 110 ∷ 100 ∷ 46 ∷ 109 ∷ 105 ∷ 99 ∷ 114 ∷ 111 ∷ 115 ∷ 111 ∷ 102 ∷ 116 ∷ 46
                  ∷ 112 ∷ 111 ∷ 114 ∷ 116 ∷ 97 ∷ 98 ∷ 108 ∷ 101 ∷ 45 ∷ 101 ∷ 120 ∷ 101 ∷ 99 ∷ 117
                  ∷ 116 ∷ 97 ∷ 98 ∷ 108 ∷ 101 ∷ []),
          101 ∷ 120 ∷ 101 ∷ [],
        )
    ∷  -- application/x-msdownload
        (
          application ++ (120 ∷ 45 ∷ 109 ∷ 115 ∷ 100 ∷ 111 ∷ 119 ∷ 110 ∷ 108 ∷ 111 ∷ 97 ∷ 100 ∷ []),
          101 ∷ 120 ∷ 101 ∷ [],
        )
    ∷  -- application/octet-stream
        (
          application ++ (111 ∷ 99 ∷ 116 ∷ 101 ∷ 116 ∷ 45 ∷ 115 ∷ 116 ∷ 114 ∷ 101 ∷ 97 ∷ 109 ∷ []),
          98 ∷ 105 ∷ 110 ∷ [],
        )
    ∷  -- text/plain
        (text_of ++ (112 ∷ 108 ∷ 97 ∷ 105 ∷ 110 ∷ []), 116 ∷ 120 ∷ 116 ∷ [])
    ∷  -- text/html
        (text_of ++ (104 ∷ 116 ∷ 109 ∷ 108 ∷ []), 104 ∷ 116 ∷ 109 ∷ 108 ∷ [])
    ∷  -- text/csv
        (text_of ++ (99 ∷ 115 ∷ 118 ∷ []), 99 ∷ 115 ∷ 118 ∷ [])
    ∷  -- image/jpeg
        (image ++ (106 ∷ 112 ∷ 101 ∷ 103 ∷ []), 106 ∷ 112 ∷ 103 ∷ [])
    ∷  -- image/png
        (image ++ (112 ∷ 110 ∷ 103 ∷ []), 112 ∷ 110 ∷ 103 ∷ [])
    ∷  -- image/gif
        (image ++ (103 ∷ 105 ∷ 102 ∷ []), 103 ∷ 105 ∷ 102 ∷ [])
    ∷  -- image/webp
        (image ++ (119 ∷ 101 ∷ 98 ∷ 112 ∷ []), 119 ∷ 101 ∷ 98 ∷ 112 ∷ [])
    ∷  -- video/mp4
        (video ++ (109 ∷ 112 ∷ 52 ∷ []), 109 ∷ 112 ∷ 52 ∷ [])
    ∷  -- video/x-matroska
        (
          video ++ (120 ∷ 45 ∷ 109 ∷ 97 ∷ 116 ∷ 114 ∷ 111 ∷ 115 ∷ 107 ∷ 97 ∷ []),
          109 ∷ 107 ∷ 118 ∷ [],
        )
    ∷  -- audio/mpeg
        (audio ++ (109 ∷ 112 ∷ 101 ∷ 103 ∷ []), 109 ∷ 112 ∷ 51 ∷ [])
    ∷  -- audio/flac
        (audio ++ (102 ∷ 108 ∷ 97 ∷ 99 ∷ []), 102 ∷ 108 ∷ 97 ∷ 99 ∷ [])
    ∷ []

abbrev pub find_type : Text → List (Text × Text) → Option Text
find_type base [] = none
find_type base ((mime, ext) ∷ rest) =
    let later = find_type base rest in if same_text base mime then some ext else later

abbrev pub before : ℕ → Text → Text
before mark [] = []
before mark (c ∷ cs) = if c == mark then [] else c ∷ before mark cs

unfoldable pub extension_for_mime : Text → Option Text
extension_for_mime mime = find_type (map lower (trim_chars (before semicolon mime))) extensions

-- `rfind(|s| !s.is_empty())`
abbrev pub last_segment : List Text → Option Text
last_segment [] = none
last_segment (s ∷ ss) = elim (last_segment ss) [
  | some t ↦ some t
  | none ↦ if is_empty s then none else some s
]

-- A sanitized name, where it says anything.
unfoldable pub telling : Option Text → Option Text
unfolding sanitize
telling none = none
telling (some name) = let s = sanitize name in if same_text s download then none else some s

abbrev pub from_header : Percent → Option Text → Option Text
unfolding telling parse_content_disposition
from_header p none = none
from_header p (some header) = telling (parse_content_disposition p header)

abbrev pub from_segment : Percent → Option Text → Option Text
unfolding telling
from_segment p none = none
from_segment p (some segment) = telling (some (p.utf8 segment))

-- The URL's segments are the parser's; `none` where it has no path.
abbrev pub from_segments : Percent → Option (List Text) → Option Text
from_segments p none = none
from_segments p (some segments) = from_segment p (last_segment segments)

abbrev pub download_as : Option Text → Text
download_as none = download
download_as (some ext) = download ++ (dot ∷ ext)

abbrev pub from_type : Option Text → Text
unfolding extension_for_mime
from_type none = download
from_type (some mime) = download_as (extension_for_mime mime)

abbrev pub or_else : Option Text → Text → Text
or_else (some s) t = s
or_else none t = t

unfoldable pub resolve : Percent → Option Text → Option (List Text) → Option Text → Text
resolve p content_disposition segments content_type =
    or_else (from_header p content_disposition)
      (or_else (from_segments p segments) (from_type content_type))
