-- ===== src/Conns.antt =====
-- crates/swiftload-core/src/task/mod.rs: how many connections a download starts with, and how workers
-- are told to stand down.
pub mod Bounds
mod Examples
use ai_gen.Prelude.{
  ℕ, zero, suc, ◌+◌, ◌*◌, ◌/◌, ◌-◌, Bool, true, false, not, Option, none, some, List, [], ◌∷◌, ltb,
  leb, ◌==◌, if◌then◌else◌, min64, max64, saturating_sub,
}
use ai_gen.Config.{min_segment, small_file_threshold}
use ai_gen.Probe.{ProbeResult, is_resumable}

-- The two limits of the settings.
pub record Limits : Type 0 where
  pub max_conns_per_download : ℕ
  pub max_total_conns : ℕ

pub record HostHint : Type 0 where
  pub best_conns : Option ℕ
  pub saturated : Bool

abbrev pub large : ℕ
large = 32 * 1024 * 1024

abbrev pub unhinted : ℕ → ℕ
unhinted size = if ltb size large then 2 else 4

-- What a host that was measured before suggests.
abbrev pub hinted : ℕ → Bool → Option ℕ → ℕ
hinted size saturated none = unhinted size
hinted size saturated (some k) =
    if leb large size then (if saturated then min64 k 4 else k) else unhinted size

abbrev pub base_conns : ℕ → Option ℕ → Option HostHint → ℕ
base_conns size (some k) hint = k
base_conns size none none = unhinted size
base_conns size none (some h) = hinted size h.saturated h.best_conns

abbrev pub ceiling_conns : Limits → Option ℕ → ℕ
ceiling_conns limits none = limits.max_conns_per_download
ceiling_conns limits (some k) = k

-- `initial_conns` for a resumable file of `size` bytes.
unfoldable pub sized_conns : Limits → ℕ → Option ℕ → Option HostHint → ℕ
sized_conns limits size override hint =
    let by_size = max64 (size / min_segment) 1 in
    if ltb size small_file_threshold
    then 1
    else max64
        (min64
          (min64 (min64 (base_conns size override hint) by_size) (ceiling_conns limits override))
          limits.max_total_conns)
        1

abbrev pub conns_for : Limits → Option ℕ → Option ℕ → Option HostHint → ℕ
conns_for limits none override hint = 1
conns_for limits (some size) override hint = sized_conns limits size override hint

unfoldable pub initial_conns : ProbeResult → Limits → Option ℕ → Option HostHint → ℕ
unfolding sized_conns
initial_conns p limits override hint =
    if not (is_resumable p) then 1 else conns_for limits p.total_size override hint

-- The loop of `retire_down_to`: cancels the first token that is not cancelled, `excess` times. A token
-- is whether it is cancelled.
unfoldable pub retire_loop : ℕ → List Bool → List Bool
retire_loop excess [] = []
retire_loop zero (t ∷ ts) = t ∷ ts
retire_loop (suc excess) (true ∷ ts) = true ∷ retire_loop (suc excess) ts
retire_loop (suc excess) (false ∷ ts) = true ∷ retire_loop excess ts

unfoldable pub retire_down_to : List Bool → (live target : ℕ) → List Bool
unfolding retire_loop
retire_down_to tokens live target = retire_loop (saturating_sub live (max64 target 1)) tokens
