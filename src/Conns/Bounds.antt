-- ===== src/Conns/Bounds.antt =====
-- The limits on the number of connections.
use ai_gen.Prelude.{
  ℕ, zero, suc, ◌/◌, ◌-◌, ◌≤◌, ◌≡◌, Bool, true, false, not, Option, none, some, List, [], ◌∷◌, refl,
  arith, min64, max64, if◌then◌else◌,
}
use ai_gen.Config.{min_segment}
use ai_gen.Probe.{ProbeResult, is_resumable}
use ai_gen.Conns.{
  Limits, HostHint, ceiling_conns, sized_conns, conns_for, initial_conns, retire_loop,
  retire_down_to,
}

-- The number `k` respects every limit.
pub record WithinLimits (limits : Limits) (override : Option ℕ) (k : ℕ) : Type 0 where
  pub positive : 1 ≤ k
  pub total : k ≤ max64 limits.max_total_conns 1
  pub own : k ≤ max64 (ceiling_conns limits override) 1

sized_conns-WithinLimits :
    (limits : Limits) (size : ℕ) (override : Option ℕ) (hint : Option HostHint)
    → WithinLimits limits override (sized_conns limits size override hint)
      × (sized_conns limits size override hint ≤ max64 (size / min_segment) 1)
unfolding sized_conns
sized_conns-WithinLimits limits size override hint =
    (record { positive = ground arith; total = ground arith; own = ground arith }, ground arith)

one-WithinLimits : (limits : Limits) (override : Option ℕ) → WithinLimits limits override 1
one-WithinLimits limits override = record {
  positive = omega arith;
  total = ground arith;
  own = ground arith;
}

conns_bounds :
    (resumable : Bool) (limits : Limits) (t : Option ℕ) (override : Option ℕ)
    (hint : Option HostHint)
    → WithinLimits limits override (if not resumable then 1 else conns_for limits t override hint)
      × (resumable ≡ false → (if not resumable then 1 else conns_for limits t override hint) ≡ 1)
      × ((size : ℕ)
          → t ≡ some size
          → (if not resumable then 1 else conns_for limits t override hint)
            ≤ max64 (size / min_segment) 1)
conns_bounds false limits t override hint =
    (one-WithinLimits limits override, λ h. refl, λ size e. ground arith)
conns_bounds true limits none override hint =
    (one-WithinLimits limits override, λ h. refl, λ size e. ground arith)
conns_bounds true limits (some n) override hint =
    let sized = sized_conns-WithinLimits limits n override hint in
    (sized.0, λ h. ground arith, λ size e. ground (arith, sized.1))

-- A download starts with at least one connection, and with no more than the cap for one download (or the
-- number that the user gave), the cap for all, or one per minimum segment, where those are not 0; and
-- with one if it cannot be resumed.
pub initial_conns_bounds :
    (p : ProbeResult) (limits : Limits) (override : Option ℕ) (hint : Option HostHint)
    → WithinLimits limits override (initial_conns p limits override hint)
      × (is_resumable p ≡ false → initial_conns p limits override hint ≡ 1)
      × ((size : ℕ)
          → p.total_size ≡ some size
          → initial_conns p limits override hint ≤ max64 (size / min_segment) 1)
unfolding initial_conns
initial_conns_bounds p limits override hint =
    conns_bounds (is_resumable p) limits p.total_size override hint

-- How many workers were not told to stand down.
abbrev pub live_count : List Bool → ℕ
live_count [] = 0
live_count (true ∷ ts) = live_count ts
live_count (false ∷ ts) = suc (live_count ts)

retire_loop_count : (n : ℕ) (ts : List Bool) → live_count (retire_loop n ts) ≡ live_count ts - n
unfolding retire_loop
retire_loop_count n [] = omega arith
retire_loop_count zero (t ∷ ts) = omega arith
retire_loop_count (suc n) (true ∷ ts) = retire_loop_count (suc n) ts
retire_loop_count (suc n) (false ∷ ts) = omega (arith, retire_loop_count n ts)

-- Where `live` counts the tokens that are not cancelled, retiring leaves as many as the target, or one
-- for a target of 0, and never more than there were.
pub retire_down_to_count :
    (tokens : List Bool) (target : ℕ)
    → live_count (retire_down_to tokens (live_count tokens) target)
      ≡ min64 (live_count tokens) (max64 target 1)
unfolding retire_down_to
retire_down_to_count tokens target =
    ground (arith, retire_loop_count (live_count tokens - max64 target 1) tokens)
