-- ===== src/Drive.antt =====
-- crates/swiftload-core/src/task/mod.rs: `drive`, which runs workers as the governor decides. What happens
-- to it is a list of events: a worker that ends, and a tick with what is read at it.
pub mod Live
mod Examples
use ai_gen.Prelude.{
  ℕ, zero, suc, ◌+◌, ◌-◌, ◌%◌, ◌^◌, Bool, true, false, not, ◌&&◌, ◌||◌, Option, none, some, List,
  [], ◌∷◌, ◌++◌, ◌==◌, if◌then◌else◌, add64, sub64, min64, max64, saturating_sub,
}
use ai_gen.Floats.{Floats}
use ai_gen.Errors.{ErrorClass}
use ai_gen.Plan.{Plan, outstanding, useful_workers}
use ai_gen.Worker.{WorkerExit, failed}
use ai_gen.Governor.{
  Governor, GovernorConfig, Sample, Decision, hold, spawn_to, retire_to, release_token, back_off,
  observe, endgame_target, StopReason,
}
use ai_gen.Conns.{Limits, retire_down_to}
use ai_gen.Prelude.Result.{Result, ok, err}

-- The workers: a token for each that was started, whether it is cancelled; how many run, and the most
-- that ever ran.
pub record Pool : Type 0 where
  pub tokens : List Bool
  pub conns : ℕ
  pub peak : ℕ

unfoldable pub spawn_worker : Pool → Pool
spawn_worker p = record {
  tokens = p.tokens ++ (false ∷ []);
  conns = p.conns + 1;
  peak = max64 p.peak (p.conns + 1);
}

unfoldable pub spawn_workers : ℕ → Pool → Pool
unfolding spawn_worker
spawn_workers zero p = p
spawn_workers (suc n) p = spawn_workers n (spawn_worker p)

abbrev pub no_workers : Pool
no_workers = record { tokens = []; conns = 0; peak = 0 }

unfoldable pub stand_down : Pool → ℕ → Pool
unfolding retire_down_to
stand_down p target = record p { tokens = retire_down_to p.tokens p.conns target }

unfoldable pub apply_decision : ℕ → Pool → Decision → Pool
unfolding spawn_workers stand_down
apply_decision useful p hold = p
apply_decision useful p (spawn_to k) = spawn_workers (saturating_sub (min64 k useful) p.conns) p
apply_decision useful p (retire_to k) = stand_down p k
apply_decision useful p (release_token k) = stand_down p k
apply_decision useful p (back_off conns wait) = stand_down p conns

abbrev pub apply_endgame : Pool → Option ℕ → Pool
unfolding stand_down
apply_endgame p none = p
apply_endgame p (some target) = stand_down p target

-- What a tick reads: the clock, the bytes that are done, the errors so far, and the plan.
pub record Reading : Type 0 where
  pub now : ℕ
  pub bytes_done : ℕ
  pub errors : ℕ
  pub backpressured : Bool
  pub plan : Plan

pub data Event : Type 0 where
  joined : WorkerExit → Event
  panicked : Event  -- a worker's task that did not return
  tick : Reading → Event
  cancel : Event  -- the user's, between two events

-- The variables of `drive`. `stopped` is that its loop has ended.
pub record Driving (F : Type 0) : Type 0 where
  pub gov : Governor F
  pub pool : Pool
  pub last_errors : ℕ
  pub fatal : Option ErrorClass
  pub cancelled : Bool
  pub stopped : Bool

unfoldable pub sample_of : Reading → Pool → ℕ → Sample
unfolding outstanding
sample_of r pool last_errors = record {
  now = r.now;
  bytes_total = r.bytes_done;
  conns = pool.conns;
  errors_since_last = sub64 r.errors last_errors % 2 ^ 32;
  rate_limited = none;
  disk_backpressure = r.backpressured;
  remaining_bytes = outstanding r.plan;
  probe_token = true;
}

-- A tick of an adaptive download.
unfoldable pub adapt : {F : Type 0} ⦃R : Floats F⦄ → Driving F → Reading → Driving F
unfolding sample_of observe apply_decision apply_endgame endgame_target useful_workers
adapt d r =
    let seen = observe d.gov (sample_of r d.pool d.last_errors) in
    let pool = apply_decision (useful_workers r.plan) d.pool seen.1 in
    record d {
      gov = seen.0;
      pool = apply_endgame pool (endgame_target seen.0 (outstanding r.plan));
      last_errors = r.errors;
    }

abbrev pub first_failure : Option ErrorClass → WorkerExit → Option ErrorClass
first_failure (some c) exit = some c
first_failure none (failed c) = some c
first_failure none exit = none

abbrev pub is_failed : WorkerExit → Bool
is_failed (failed c) = true
is_failed exit = false

abbrev pub left : Pool → Pool
left p = record p { conns = p.conns - 1 }

-- The end of the loop's body: with no worker left the loop ends.
abbrev pub unless_empty : {F : Type 0} → Driving F → Driving F
unless_empty d = record d { stopped = d.stopped || d.pool.conns == 0 }

unfoldable pub on_event : {F : Type 0} ⦃R : Floats F⦄ → Bool → Driving F → Event → Driving F
unfolding adapt
on_event adaptive d (joined exit) = unless_empty (record d {
  pool = left d.pool;
  fatal = first_failure d.fatal exit;
  cancelled = d.cancelled || is_failed exit;
})
on_event adaptive d panicked = unless_empty (record d { pool = left d.pool })
on_event adaptive d (tick r) =
    if d.cancelled
    then record d { stopped = true }
    else unless_empty (if adaptive then adapt d r else d)
on_event adaptive d cancel = record d { cancelled = true }

unfoldable pub drive_loop : {F : Type 0} ⦃R : Floats F⦄ → Bool → Driving F → List Event → Driving F
unfolding on_event
drive_loop adaptive d [] = d
drive_loop adaptive d (e ∷ es) =
    let rest = drive_loop adaptive (on_event adaptive d e) es in if d.stopped then d else rest

unfoldable pub drive_start : {F : Type 0} → Governor F → ℕ → Driving F
unfolding spawn_workers
drive_start gov k0 = record {
  gov = gov;
  pool = spawn_workers k0 no_workers;
  last_errors = 0;
  fatal = none;
  cancelled = false;
  stopped = false;
}

-- `GovernorSummary`, and what `drive` returns.
pub record GovernorSummary : Type 0 where
  pub stop_reason : StopReason
  pub saturation_detected : Bool
  pub settled_conns : ℕ

unfoldable pub drive_result : {F : Type 0} → Driving F → Result ErrorClass GovernorSummary
drive_result d = elim d.fatal [
  | some c ↦ err c
  | none ↦ ok (record {
    stop_reason = d.gov.stop_reason;
    saturation_detected = d.gov.saturation_detected;
    settled_conns = d.gov.k;
  })
]

-- The configuration of the governor in `download`, given the user's own number.
unfoldable pub governor_config :
    {F : Type 0} → GovernorConfig F → Limits → Option ℕ → GovernorConfig F
governor_config base limits override =
    let wanted : ℕ = elim override [ some k ↦ k | none ↦ limits.max_conns_per_download ] in
    record base { max_conns = min64 wanted 32 }
