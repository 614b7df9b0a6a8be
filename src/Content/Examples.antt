-- ===== src/Content/Examples.antt =====
-- The content of one seed, at concrete offsets.
use ai_gen.Prelude.{◌≡◌, arith}
use ai_gen.Content.{chunk}
use ai_gen.Content.Filled.{bytes_from, chunk-bytes_from}

-- A head of three bytes, two blocks, and a tail.
chunk-bytes_from_example : chunk 7 5 21 ≡ bytes_from 7 5 21
chunk-bytes_from_example = chunk-bytes_from 7 5 21 (omega arith)
