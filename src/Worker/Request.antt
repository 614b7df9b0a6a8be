-- ===== src/Worker/Request.antt =====
-- crates/swiftload-core/src/task/worker.rs: the header `Range` of a request.
use ai_gen.Prelude.{ℕ, Option, none, some, ◌∷◌, ◌++◌, sub64, Text, if◌then◌else◌}
use ai_gen.Prelude.Decimal.{show_u64}
use ai_gen.Plan.{ClaimSlot}
use ai_gen.Probe.{is_supported}
use ai_gen.Worker.{WorkerCtx}

-- "bytes={first}-{last}"
unfoldable pub range_text : (first last : ℕ) → Text
range_text first last = 98 ∷ 121 ∷ 116 ∷ 101 ∷ 115 ∷ 61 ∷ (show_u64 first ++ 45 ∷ show_u64 last)

-- The header that `stream_once` sends for the rest of its claim.
unfoldable pub range_header : WorkerCtx → ClaimSlot → Option Text
unfolding range_text
range_header ctx s =
    if is_supported ctx.range_support then some (range_text s.cursor (sub64 s.end 1)) else none
