-- ===== src/Filename/Examples.antt =====
-- crates/swiftload-core/src/util/filename.rs: the names of the module's tests.
use ai_gen.Prelude.{◌≡◌, refl, List, [], ◌∷◌, ◌++◌, Text, same_text}
use ai_gen.Filename.{sanitize, download, rsplit_once}
use ai_gen.Filename.Safe.{IsSafe, sanitize-IsSafe}
use ai_gen.Filename.Header.{Percent, semicolon, quote}
use ai_gen.Filename.Header.Quoted.{disposition, opening}
use ai_gen.Filename.Destination.{Component, root_dir, parent_dir, normal, first_free, dedupe}
use ai_gen.Filename.Destination.Free.{Picked, dedupe-Picked}

-- ../../etc/passwd
abbrev climbing : Text
climbing = 46 ∷ 46 ∷ 47 ∷ 46 ∷ 46 ∷ 47 ∷ 101 ∷ 116 ∷ 99 ∷ 47 ∷ 112 ∷ 97 ∷ 115 ∷ 115 ∷ 119 ∷ 100 ∷ []

-- passwd
abbrev passwd : Text
passwd = 112 ∷ 97 ∷ 115 ∷ 115 ∷ 119 ∷ 100 ∷ []

-- con.txt and _con.txt
abbrev device : Text
device = 99 ∷ 111 ∷ 110 ∷ 46 ∷ 116 ∷ 120 ∷ 116 ∷ []

abbrev marked_device : Text
marked_device = 95 ∷ 99 ∷ 111 ∷ 110 ∷ 46 ∷ 116 ∷ 120 ∷ 116 ∷ []

-- a;b.txt
abbrev listed : Text
listed = 97 ∷ 59 ∷ 98 ∷ 46 ∷ 116 ∷ 120 ∷ 116 ∷ []

abbrev listed_header : Text
listed_header = disposition ++ (semicolon ∷ opening) ++ listed ++ (quote ∷ [])

-- A decoder for texts without escapes.
abbrev verbatim : Percent
verbatim = record { utf8 = λ s. s; latin1 = λ s. s }

-- /home/../dl
abbrev folder : List Component
folder = root_dir ∷ normal passwd ∷ parent_dir ∷ normal download ∷ []

climbing_sanitized : sanitize climbing ≡ passwd
unfolding sanitize
climbing_sanitized = refl

device_sanitized : sanitize device ≡ marked_device
unfolding sanitize
device_sanitized = refl

dedupe_taken :
    dedupe (λ s. same_text s device) [] device
    ≡ 99 ∷ 111 ∷ 110 ∷ 32 ∷ 40 ∷ 50 ∷ 41 ∷ 46 ∷ 116 ∷ 120 ∷ 116 ∷ []
unfolding dedupe first_free rsplit_once
dedupe_taken = refl

sanitize-IsSafe_example : IsSafe (sanitize climbing)
sanitize-IsSafe_example = sanitize-IsSafe climbing

dedupe-Picked_example :
    Picked (λ s. same_text s device) passwd device (dedupe (λ s. same_text s device) passwd device)
dedupe-Picked_example = dedupe-Picked (λ s. same_text s device) passwd device
