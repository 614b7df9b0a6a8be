-- ===== src/Drive/Live.antt =====
-- crates/swiftload-core/src/task/mod.rs: how many workers `drive` runs.
use ai_gen.Prelude.{
  ℕ, zero, suc, ◌+◌, ◌≤◌, ◌≡◌, refl, ◌∙◌, Bool, true, Option, none, some, List, [], ◌∷◌,
  if◌then◌else◌, arith, min64, saturating_sub, if_both,
}
use mathlib.Core.Path.{subst}
use ai_gen.Floats.{Floats}
use ai_gen.Probe.{ProbeResult}
use ai_gen.Conns.{Limits, HostHint, initial_conns}
use ai_gen.Conns.Bounds.{initial_conns_bounds}
use ai_gen.Plan.{useful_workers, outstanding}
use ai_gen.Governor.{
  GovernorConfig, new, Governor, Sample, Decision, hold, spawn_to, retire_to, release_token,
  back_off, observe, endgame_target,
}
use ai_gen.Governor.Bounds.{InBounds, new-InBounds, Means, observe-Means, observe-InBounds}
use ai_gen.Drive.{
  Pool, Reading, Event, joined, panicked, tick, cancel, Driving, spawn_worker, spawn_workers,
  no_workers, stand_down, apply_decision, apply_endgame, sample_of, adapt, left, unless_empty,
  on_event, drive_loop, drive_start, governor_config,
}

-- At most `m` workers run, and ever ran.
pub record AtMost (m : ℕ) (p : Pool) : Type 0 where
  pub now : p.conns ≤ p.peak
  pub ever : p.peak ≤ m

spawn_workers-AtMost :
    (n m : ℕ) (p : Pool) → AtMost m p → p.conns + n ≤ m → AtMost m (spawn_workers n p)
unfolding spawn_workers spawn_worker
spawn_workers-AtMost zero m p h k = h
spawn_workers-AtMost (suc n) m p h k =
    spawn_workers-AtMost n m (spawn_worker p)
      (record { now = ground arith; ever = ground (arith, h.ever, h.now) }) (ground (arith, k))

stand_down-AtMost : (m : ℕ) (p : Pool) (target : ℕ) → AtMost m p → AtMost m (stand_down p target)
unfolding stand_down
stand_down-AtMost m p target h = record { now = h.now; ever = h.ever }

apply_endgame-AtMost :
    (m : ℕ) (p : Pool) (target : Option ℕ) → AtMost m p → AtMost m (apply_endgame p target)
unfolding apply_endgame
apply_endgame-AtMost m p none h = h
apply_endgame-AtMost m p (some target) h = stand_down-AtMost m p target h

apply_decision-AtMost :
    {F : Type 0} (useful m k : ℕ) (s : Sample) (g : Governor F) (p : Pool) (d : Decision)
    → AtMost m p
    → Means k s g d
    → g.k ≤ m
    → AtMost m (apply_decision useful p d)
unfolding apply_decision Means
apply_decision-AtMost useful m k s g p hold h t b = h
apply_decision-AtMost useful m k s g p (spawn_to n) h t b =
    spawn_workers-AtMost (saturating_sub (min64 n useful) p.conns) m p h
      (ground (arith, t.0, b, h.now, h.ever))
apply_decision-AtMost useful m k s g p (retire_to n) h t b = stand_down-AtMost m p n h
apply_decision-AtMost useful m k s g p (release_token n) h t b = stand_down-AtMost m p n h
apply_decision-AtMost useful m k s g p (back_off n wait) h t b = stand_down-AtMost m p n h

left-AtMost : (m : ℕ) (p : Pool) → AtMost m p → AtMost m (left p)
left-AtMost m p h = record { now = ground (arith, h.now); ever = h.ever }

-- The governor within its bounds and its settings, and no more workers than these allow.
pub record IsSteady {F : Type 0} (m : ℕ) (d : Driving F) : Type 0 where
  pub bounds : InBounds d.gov
  pub settings : d.gov.cfg.max_conns ≡ m
  pub workers : AtMost m d.pool

module _ {F : Type 0} ⦃R : Floats F⦄ where
  adapt-IsSteady : (m : ℕ) (d : Driving F) (r : Reading) → IsSteady m d → IsSteady m (adapt d r)
  unfolding adapt
  adapt-IsSteady m d r h =
      let s = sample_of r d.pool d.last_errors in
      let bounds = observe-InBounds d.gov s h.bounds in
      let means = observe-Means d.gov s h.bounds.some_conn h.bounds.below in
      let within : (observe d.gov s).0.k ≤ m =
        ground (arith, bounds.0.below, bounds.0.ceiling_below, bounds.2, h.settings) in
      let pool =
        apply_decision-AtMost (useful_workers r.plan) m d.gov.k s (observe d.gov s).0 d.pool
          (observe d.gov s).1 h.workers means within in
      record {
        bounds = bounds.0;
        settings = bounds.2 ∙ h.settings;
        workers =
            apply_endgame-AtMost m _ (endgame_target (observe d.gov s).0 (outstanding r.plan)) pool;
      }

  on_event-IsSteady :
      (adaptive : Bool) (m : ℕ) (d : Driving F) (e : Event)
      → IsSteady m d
      → IsSteady m (on_event adaptive d e)
  unfolding on_event
  on_event-IsSteady adaptive m d (joined exit) h = record {
    bounds = h.bounds;
    settings = h.settings;
    workers = left-AtMost m d.pool h.workers;
  }
  on_event-IsSteady adaptive m d panicked h = record {
    bounds = h.bounds;
    settings = h.settings;
    workers = left-AtMost m d.pool h.workers;
  }
  on_event-IsSteady adaptive m d cancel h = record {
    bounds = h.bounds;
    settings = h.settings;
    workers = h.workers;
  }
  on_event-IsSteady adaptive m d (tick r) h =
      let ticked = if_both (IsSteady m) adaptive (adapt d r) d (adapt-IsSteady m d r h) h in
      if_both (IsSteady m) d.cancelled (record d { stopped = true })
        (unless_empty (if adaptive then adapt d r else d))
        (record { bounds = h.bounds; settings = h.settings; workers = h.workers })
        (record { bounds = ticked.bounds; settings = ticked.settings; workers = ticked.workers })

  drive_loop-IsSteady :
      (adaptive : Bool) (m : ℕ) (d : Driving F) (es : List Event)
      → IsSteady m d
      → IsSteady m (drive_loop adaptive d es)
  unfolding drive_loop
  drive_loop-IsSteady adaptive m d [] h = h
  drive_loop-IsSteady adaptive m d (e ∷ es) h =
      if_both (IsSteady m) d.stopped d (drive_loop adaptive (on_event adaptive d e) es) h (
        drive_loop-IsSteady adaptive m (on_event adaptive d e) es
          (on_event-IsSteady adaptive m d e h))

  -- Whatever happens to a download whose governor is within its bounds at the start, no more workers run
  -- at any time than its settings allow, and the governor stays within its bounds.
  pub drive_start-IsSteady :
      (adaptive : Bool) (gov : Governor F) (k0 : ℕ) (es : List Event)
      → InBounds gov
      → k0 ≤ gov.cfg.max_conns
      → IsSteady gov.cfg.max_conns (drive_loop adaptive (drive_start gov k0) es)
  unfolding drive_start
  drive_start-IsSteady adaptive gov k0 es h k =
      drive_loop-IsSteady adaptive gov.cfg.max_conns (drive_start gov k0) es (record {
        bounds = h;
        settings = refl;
        workers =
            spawn_workers-AtMost k0 gov.cfg.max_conns no_workers
              (record { now = ground arith; ever = ground arith }) (ground arith);
      })

  -- A download that the user gave no number for, with a cap per download between 1 and 32, never runs more
  -- workers than that cap, whatever its events, and its governor stays within its bounds.
  pub download-IsSteady :
      (base : GovernorConfig F) (probed : ProbeResult) (limits : Limits) (hint : Option HostHint)
      (now : ℕ) (es : List Event)
      → 1 ≤ limits.max_conns_per_download
      → limits.max_conns_per_download ≤ 32
      → IsSteady limits.max_conns_per_download (
          drive_loop true
            (drive_start
              (new (governor_config base limits none) (initial_conns probed limits none hint) now)
              (initial_conns probed limits none hint))
            es)
  unfolding governor_config new
  download-IsSteady base probed limits hint now es low high =
      let k0 = initial_conns probed limits none hint in
      let bound = (initial_conns_bounds probed limits none hint).0 in
      let cfg = governor_config base limits none in
      let k0_le : k0 ≤ limits.max_conns_per_download = ground (arith, bound.own) in
      let cap : cfg.max_conns ≡ limits.max_conns_per_download = ground arith in
      subst (λ m. IsSteady m (drive_loop true (drive_start (new cfg k0 now) k0) es)) cap
        (drive_start-IsSteady true (new cfg k0 now) k0 es
          (new-InBounds cfg k0 now (ground (arith, bound.positive, k0_le, cap)))
          (ground (arith, k0_le, cap)))
