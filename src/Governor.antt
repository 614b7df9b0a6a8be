-- ===== src/Governor.antt =====
-- crates/swiftload-core/src/task/governor.rs: the state machine that picks the number of connections. A
-- method that mutates returns the new governor. An `Instant` is its distance in nanoseconds from a
-- fixed start.
pub mod Bounds
pub mod Backing
mod Examples
use ai_gen.Prelude.{
  ℕ, suc, ◌+◌, ◌-◌, ◌*◌, ◌/◌, ◌%◌, ◌^◌, Bool, true, false, not, ◌&&◌, ◌||◌, Option, none, some, ltb,
  leb, ◌==◌, if◌then◌else◌, min64, max64, mul64, add64, saturating_sub, List, [], ◌∷◌,
}
use ai_gen.Config.{min_segment}
use ai_gen.Floats.{Floats}

abbrev pub millis : ℕ
millis = 1000000

abbrev pub warmup_bytes_per_conn : ℕ
warmup_bytes_per_conn = 512 * 1024

abbrev pub dwell_bytes_per_conn : ℕ
dwell_bytes_per_conn = 2 * 1024 * 1024

abbrev pub min_sample : ℕ
min_sample = 150 * millis

abbrev pub min_dwell : ℕ
min_dwell = 250 * millis

pub record GovernorConfig (F : Type 0) : Type 0 where
  pub warmup : ℕ
  pub dwell : ℕ
  pub gain_threshold : F
  pub reprobe_interval : ℕ
  pub saturation_ratio : F
  pub max_conns : ℕ

unfoldable pub default : {F : Type 0} ⦃R : Floats F⦄ → GovernorConfig F
default ⦃R⦄ = record {
  warmup = 400 * millis;
  dwell = 1200 * millis;
  gain_threshold = R.thousandths 150;
  reprobe_interval = 30000 * millis;
  saturation_ratio = R.thousandths 600;
  max_conns = 32;
}

pub record Sample : Type 0 where
  pub now : ℕ
  pub bytes_total : ℕ
  pub conns : ℕ
  pub errors_since_last : ℕ
  pub rate_limited : Option (Option ℕ)
  pub disk_backpressure : Bool
  pub remaining_bytes : ℕ
  pub probe_token : Bool

pub data Decision : Type 0 where
  hold : Decision
  spawn_to retire_to release_token : ℕ → Decision
  back_off : (conns wait : ℕ) → Decision

pub data Phase : Type 0 where
  baseline ramp settled backing_off : Phase

pub data StopReason : Type 0 where
  still_ramping saturated server_penalised rate_limited disk_bound not_enough_work reached_ceiling :
      StopReason

pub record Window : Type 0 where
  pub started : ℕ
  pub start_bytes : ℕ

pub record Governor (F : Type 0) : Type 0 where
  pub cfg : GovernorConfig F
  pub phase : Phase
  pub k : ℕ
  pub ceiling : ℕ
  pub best : Option (ℕ × F)
  pub base : Option (ℕ × F)  -- `baseline`
  pub window : Option Window
  pub changed_at : ℕ
  pub bytes_at_change : ℕ
  pub mid_candidate : Option ℕ
  pub last_probe : ℕ
  pub reprobe_interval : ℕ
  pub consecutive_backpressure : ℕ
  pub last_bytes : ℕ
  pub recent_backpressure : Bool
  pub stop_reason : StopReason
  pub saturation_detected : Bool

unfoldable pub new : {F : Type 0} → GovernorConfig F → ℕ → ℕ → Governor F
new cfg k0 now = record {
  cfg = cfg;
  phase = baseline;
  k = max64 k0 1;
  ceiling = cfg.max_conns;
  best = none;
  base = none;
  window = none;
  changed_at = now;
  bytes_at_change = 0;
  mid_candidate = none;
  last_probe = now;
  reprobe_interval = cfg.reprobe_interval;
  consecutive_backpressure = 0;
  last_bytes = 0;
  recent_backpressure = false;
  stop_reason = still_ramping;
  saturation_detected = false;
}

abbrev pub max_by_work : ℕ → ℕ
max_by_work remaining = max64 (remaining / min_segment) 1

abbrev pub change_to : {F : Type 0} → Governor F → ℕ → ℕ → Governor F
change_to g k now = record g {
  k = k;
  changed_at = now;
  window = none;
  bytes_at_change = g.last_bytes;
}

abbrev pub growth_limit : {F : Type 0} → Governor F → Sample → ℕ
growth_limit g s = min64 (min64 g.ceiling g.cfg.max_conns) (max_by_work s.remaining_bytes)

unfoldable pub try_grow : {F : Type 0} → Governor F → Sample → Governor F × Decision
try_grow g s =
    let next = min64 (mul64 g.k 2) (growth_limit g s) in
    let stopped =
      if leb (max_by_work s.remaining_bytes) g.k then not_enough_work else reached_ceiling in
    if not s.probe_token
    then (record g { phase = settled }, hold)
    else if g.recent_backpressure
    then (
      record g { stop_reason = disk_bound; phase = settled; last_probe = s.now },
      release_token g.k,
    )
    else if leb next g.k
    then (
      record g { stop_reason = stopped; phase = settled; last_probe = s.now },
      release_token g.k,
    )
    else (change_to (record g { phase = ramp }) next s.now, spawn_to next)

-- The end of `judge`: settle at a level, and cap below the one that did not pay.
abbrev pub settle_at : {F : Type 0} → Governor F → ℕ → ℕ → Sample → Governor F × Decision
settle_at g level settle s = (
  change_to
      (record g {
        phase = settled;
        last_probe = s.now;
        ceiling = min64 g.ceiling (max64 (saturating_sub level 1) settle);
      })
      settle s.now,
  release_token settle,
)

-- `judge` where the gain was too small: `paid` is whether this level measured better than the last.
unfoldable pub fall_back : {F : Type 0} → Governor F → ℕ → ℕ → Bool → Sample → Governor F × Decision
fall_back g prev_k level better s =
    let mid = (prev_k + level) / 2 in
    elim g.mid_candidate [
      | some m ↦
          settle_at (record g { mid_candidate = none }) level
            (max64 (min64 (if better then m else prev_k) g.ceiling) 1) s
      | none ↦
          if ltb prev_k mid && ltb mid level
          then (change_to (record g { mid_candidate = some mid }) mid s.now, retire_to mid)
          else settle_at g level (max64 (min64 prev_k g.ceiling) 1) s
    ]

-- The gain in throughput over the last level, and what it is per connection.
unfoldable pub gain_over : {F : Type 0} ⦃R : Floats F⦄ → (prev_bps bps : F) → F
gain_over ⦃R⦄ prev_bps bps =
    if R.lt (R.thousandths 0) prev_bps
    then R.sub (R.div bps prev_bps) (R.thousandths 1000)
    else R.thousandths 1000

unfoldable pub per_conn : {F : Type 0} ⦃R : Floats F⦄ → ℕ → F → ℕ → F → F
per_conn ⦃R⦄ prev_k prev_bps level bps =
    if R.lt (R.thousandths 0) prev_bps && ltb 0 level
    then R.div (R.div bps (R.of_nat level)) (R.div prev_bps (R.of_nat prev_k))
    else R.thousandths 1000

-- Why the level did not pay.
unfoldable pub blame : {F : Type 0} ⦃R : Floats F⦄ → Governor F → F → F → Governor F
blame ⦃R⦄ g gain ratio =
    if R.le ratio g.cfg.saturation_ratio
    then record g {
      saturation_detected = true;
      stop_reason =
          if R.lt gain (R.sub (R.thousandths 0) (R.thousandths 50))
          then server_penalised
          else saturated;
    }
    else record g { stop_reason = saturated }

-- `judge` where there is an earlier level to compare with.
unfoldable pub judge_against :
    {F : Type 0} ⦃R : Floats F⦄ → Governor F → ℕ → F → ℕ → F → Sample → Governor F × Decision
unfolding gain_over per_conn blame try_grow fall_back
judge_against ⦃R⦄ g prev_k prev_bps level bps s =
    let gain = gain_over prev_bps bps in
    if R.le g.cfg.gain_threshold gain
    then try_grow (record g { base = some (level, bps); mid_candidate = none }) s
    else fall_back (blame g gain (per_conn prev_k prev_bps level bps)) prev_k level
        (R.lt prev_bps bps) s

unfoldable pub judge :
    {F : Type 0} ⦃R : Floats F⦄ → Governor F → ℕ → F → Sample → Governor F × Decision
unfolding judge_against try_grow
judge g level bps s = elim g.base [
  | none ↦ try_grow (record g { base = some (level, bps) }) s
  | some b ↦ judge_against g b.0 b.1 level bps s
]

unfoldable pub effective_dwell :
    {F : Type 0} ⦃R : Floats F⦄ → Governor F → (elapsed moved remaining : ℕ) → ℕ
effective_dwell ⦃R⦄ g elapsed moved remaining =
    let bps = R.div (R.of_nat moved) (R.as_secs elapsed) in
    let share = R.div (R.div (R.of_nat remaining) bps) (R.of_nat 6) in
    let floor = R.as_secs min_dwell in
    if ltb elapsed min_dwell || moved == 0
    then g.cfg.dwell
    else if R.le bps (R.thousandths 0)
    then g.cfg.dwell
    else min64 (R.from_secs (if R.lt floor share then share else floor)) g.cfg.dwell

-- The end of `measure`, at a complete window: by the phase.
unfoldable pub on_rate :
    {F : Type 0} ⦃R : Floats F⦄ → Governor F → F → Sample → Governor F × Decision
unfolding judge try_grow
on_rate g bps s = elim g.phase [
  | baseline ↦ try_grow (record g { base = some (g.k, bps); phase = ramp }) s
  | ramp ↦ judge g g.k bps s
  | _ ↦ (g, hold)
]

unfoldable pub close_window : {F : Type 0} ⦃R : Floats F⦄ → Governor F → F → Sample → Governor F
close_window ⦃R⦄ g bps s =
    let better : Bool = elim g.best [ none ↦ true | some b ↦ R.lt b.1 bps ] in
    let best = if better then some (g.k, bps) else g.best in
    record g { window = none; changed_at = s.now; best = best }

unfoldable pub measure_window :
    {F : Type 0} ⦃R : Floats F⦄ → Governor F → Window → Sample → Governor F × Decision
unfolding effective_dwell on_rate close_window
measure_window ⦃R⦄ g w s =
    let elapsed = saturating_sub s.now w.started in
    let moved = saturating_sub s.bytes_total w.start_bytes in
    let dwell = effective_dwell g elapsed moved s.remaining_bytes in
    let enough_bytes = leb (mul64 dwell_bytes_per_conn g.k) moved in
    let bps = R.div (R.of_nat moved) (R.as_secs elapsed) in
    if ltb elapsed min_sample || (ltb elapsed dwell && not enough_bytes)
    then (record g { window = some w }, hold)
    else on_rate (close_window g bps s) bps s

unfoldable pub measure : {F : Type 0} ⦃R : Floats F⦄ → Governor F → Sample → Governor F × Decision
unfolding measure_window
measure g s =
    let moved = saturating_sub s.bytes_total g.bytes_at_change in
    let enough_bytes = leb (mul64 warmup_bytes_per_conn g.k) moved in
    let enough_time = leb g.cfg.warmup (saturating_sub s.now g.changed_at) in
    elim g.window [
      | some w ↦ measure_window g w s
      | none ↦
          if not enough_bytes && not enough_time
          then (g, hold)
          else measure_window g record { started = s.now; start_bytes = s.bytes_total } s
    ]

abbrev pub is_rate_limited : StopReason → Bool
is_rate_limited rate_limited = true
is_rate_limited _ = false

unfoldable pub maybe_reprobe : {F : Type 0} → Governor F → Sample → Governor F × Decision
maybe_reprobe g s =
    let next = min64 (add64 g.k 2) (growth_limit g s) in
    if g.saturation_detected || is_rate_limited g.stop_reason
    then (g, hold)
    else if not s.probe_token || ltb 0 s.errors_since_last
    then (g, hold)
    else if ltb (saturating_sub s.now g.last_probe) g.reprobe_interval
    then (g, hold)
    else if ltb s.remaining_bytes (min_segment * 4)
    then (g, hold)
    else if leb next g.k
    then (g, hold)
    else (
      change_to
          (record g { reprobe_interval = g.reprobe_interval * 2; base = g.best; phase = ramp }) next
          s.now,
      spawn_to next,
    )

-- The first case of `observe`: the server asked for fewer requests.
unfoldable pub on_rate_limit : {F : Type 0} → Governor F → Option ℕ → Sample → Governor F × Decision
on_rate_limit g retry_after s =
    let k = max64 (g.k / 2) 1 in
    let wait : ℕ = elim retry_after [ some d ↦ d | none ↦ 1000 * millis ] in
    (
      change_to
          (record g {
            ceiling = k;
            saturation_detected = true;
            stop_reason = rate_limited;
            phase = backing_off;
          })
          k s.now,
      back_off k wait,
    )

-- The last case: what the phase does.
unfoldable pub by_phase : {F : Type 0} ⦃R : Floats F⦄ → Governor F → Sample → Governor F × Decision
unfolding measure maybe_reprobe
by_phase g s = elim g.phase [
  | backing_off ↦ (record g { phase = settled }, hold)
  | settled ↦ maybe_reprobe g s
  | _ ↦ measure g s
]

-- The case of an error burst, and what follows it.
unfoldable pub on_errors : {F : Type 0} ⦃R : Floats F⦄ → Governor F → Sample → Governor F × Decision
unfolding by_phase
on_errors g s =
    if leb 2 s.errors_since_last && ltb 1 g.k
    then (
      change_to (record g { ceiling = min64 g.ceiling g.k; phase = settled }) (g.k - 1) s.now,
      retire_to (g.k - 1),
    )
    else by_phase g s

-- The case of a slow disk, and what follows it. `backpressure` is a u32.
unfoldable pub on_disk : {F : Type 0} ⦃R : Floats F⦄ → Governor F → Sample → Governor F × Decision
unfolding on_errors
on_disk g s =
    let backpressure = (g.consecutive_backpressure + 1) % 2 ^ 32 in
    let counted = if s.disk_backpressure then backpressure else 0 in
    let g1 = record g {
      recent_backpressure = s.disk_backpressure;
      consecutive_backpressure = counted;
    } in
    if s.disk_backpressure && leb 6 counted
    then (record g1 { ceiling = g.k; stop_reason = disk_bound; phase = settled }, hold)
    else on_errors g1 s

unfoldable pub observe : {F : Type 0} ⦃R : Floats F⦄ → Governor F → Sample → Governor F × Decision
unfolding on_rate_limit on_disk
observe g s = elim s.rate_limited [
  | some retry_after ↦ on_rate_limit (record g { last_bytes = s.bytes_total }) retry_after s
  | none ↦ on_disk (record g { last_bytes = s.bytes_total }) s
]

unfoldable pub endgame_target : {F : Type 0} → Governor F → ℕ → Option ℕ
endgame_target g remaining =
    if ltb remaining min_segment
    then some 1
    else if ltb remaining (min_segment * 2)
    then some (min64 2 g.k)
    else none

unfoldable pub wants_probe_token : {F : Type 0} → Governor F → Bool
wants_probe_token g = elim g.phase [ baseline ↦ true | ramp ↦ true | _ ↦ false ]

-- The samples of a download, one after the other.
unfoldable pub observe_all : {F : Type 0} ⦃R : Floats F⦄ → Governor F → List Sample → Governor F
unfolding observe
observe_all g [] = g
observe_all g (s ∷ ss) = observe_all (observe g s).0 ss
