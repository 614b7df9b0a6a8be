-- ===== src/Governor/Bounds.antt =====
-- crates/swiftload-core/src/task/governor.rs: the target stays within its bounds, and what each
-- decision says of the new target.
use ai_gen.Prelude.{
  ℕ, ◌/◌, ◌≤◌, ◌<◌, ◌≡◌, refl, Bool, true, Option, none, some, max64, List, [], ◌∷◌, arith, if_both,
  option_all_eq, ◌∙◌, option_all,
}
use ai_gen.Floats.{Floats}
use ai_gen.Governor.{
  Governor, Sample, Decision, hold, spawn_to, retire_to, release_token, back_off, baseline, ramp,
  settled, backing_off, max_by_work, try_grow, fall_back, judge, judge_against, on_rate,
  close_window, measure_window, measure, maybe_reprobe, on_rate_limit, by_phase, on_errors, on_disk,
  observe, observe_all, blame, gain_over, per_conn, new, GovernorConfig, Window, Phase,
}

-- The bounds of a governor: at least one connection, within a ceiling within the settings.
pub record InBounds {F : Type 0} (g : Governor F) : Type 0 where
  pub some_conn : 1 ≤ g.k
  pub below : g.k ≤ g.ceiling
  pub ceiling_below : g.ceiling ≤ g.cfg.max_conns

-- What a decision taken from the target `k` says of the sample and the new governor.
unfoldable pub Means : {F : Type 0} → ℕ → Sample → Governor F → Decision → Type 0
Means k s g hold = g.k ≡ k
Means k s g (spawn_to n) =
    (g.k ≡ n)
    × (k < n)
    × (n ≤ max_by_work s.remaining_bytes)
    × (s.probe_token ≡ true)
    × (s.rate_limited ≡ none)
Means k s g (retire_to n) = (g.k ≡ n) × (n < k)
Means k s g (release_token n) = g.k ≡ n
Means k s g (back_off n wait) =
    (g.k ≡ n)
    × (g.ceiling ≡ n)
    × (n ≡ max64 (k / 2) 1)
    × ((retry_after : Option ℕ) × (s.rate_limited ≡ some retry_after))

-- A step from a governor with target `k`, ceiling `c` and settings `m`.
unfoldable pub Sound : {F : Type 0} → (k c m : ℕ) → Sample → Governor F × Decision → Type 0
unfolding Means
Sound k c m s (g, d) =
    (1 ≤ g.k) × (g.k ≤ g.ceiling) × (g.ceiling ≤ c) × (g.cfg.max_conns ≡ m) × Means k s g d

phase_all :
    {A : Type 0} (P : A → Type 0) {b r w o : A} (phase : Phase)
    → P b
    → P r
    → P w
    → P o
    → P (elim phase [ baseline ↦ b | ramp ↦ r | settled ↦ w | backing_off ↦ o ])
phase_all P baseline p q r s = p
phase_all P ramp p q r s = q
phase_all P settled p q r s = r
phase_all P backing_off p q r s = s

module _ {F : Type 0} ⦃R : Floats F⦄ where
  pub try_grow-Sound :
      (g : Governor F) (s : Sample)
      → 1 ≤ g.k
      → g.k ≤ g.ceiling
      → s.rate_limited ≡ none
      → Sound g.k g.ceiling g.cfg.max_conns s (try_grow g s)
  unfolding Sound Means try_grow
  try_grow-Sound g s h1 h2 h3 = ground arith

  pub fall_back-Sound :
      (g : Governor F) (k c m prev_k : ℕ) (better : Bool) (s : Sample)
      → 1 ≤ k
      → k ≤ c
      → g.k ≡ k
      → g.ceiling ≡ c
      → g.cfg.max_conns ≡ m
      → Sound k c m s (fall_back g prev_k k better s)
  unfolding Sound Means fall_back
  fall_back-Sound g k c m prev_k better s h1 h2 h3 h4 h5 = ground arith

  pub maybe_reprobe-Sound :
      (g : Governor F) (s : Sample)
      → 1 ≤ g.k
      → g.k ≤ g.ceiling
      → s.rate_limited ≡ none
      → Sound g.k g.ceiling g.cfg.max_conns s (maybe_reprobe g s)
  unfolding Sound Means maybe_reprobe
  maybe_reprobe-Sound g s h1 h2 h3 = ground arith

  judge_against-Sound :
      (g : Governor F) (prev_k : ℕ) (prev_bps bps : F) (s : Sample)
      → 1 ≤ g.k
      → g.k ≤ g.ceiling
      → s.rate_limited ≡ none
      → Sound g.k g.ceiling g.cfg.max_conns s (judge_against g prev_k prev_bps g.k bps s)
  unfolding judge_against blame
  judge_against-Sound g prev_k prev_bps bps s h1 h2 h3 =
      let gain = gain_over prev_bps bps in
      let fallen = blame g gain (per_conn prev_k prev_bps g.k bps) in
      if_both (Sound g.k g.ceiling g.cfg.max_conns s) (R.le g.cfg.gain_threshold gain) _ _
        (try_grow-Sound (record g { base = some (g.k, bps); mid_candidate = none }) s h1 h2 h3)
        (fall_back-Sound fallen g.k g.ceiling g.cfg.max_conns prev_k (R.lt prev_bps bps) s h1 h2
          (ground arith) (ground arith) (ground arith))

  on_rate-Sound :
      (g : Governor F) (bps : F) (s : Sample)
      → 1 ≤ g.k
      → g.k ≤ g.ceiling
      → s.rate_limited ≡ none
      → Sound g.k g.ceiling g.cfg.max_conns s (on_rate g bps s)
  unfolding on_rate judge Sound Means
  on_rate-Sound g bps s h1 h2 h3 =
      phase_all (Sound g.k g.ceiling g.cfg.max_conns s) g.phase
        (try_grow-Sound (record g { base = some (g.k, bps); phase = ramp }) s h1 h2 h3)
        (option_all (Sound g.k g.ceiling g.cfg.max_conns s) _ _ g.base
          (try_grow-Sound (record g { base = some (g.k, bps) }) s h1 h2 h3)
          (λ b. judge_against-Sound g b.0 b.1 bps s h1 h2 h3))
        (h1, h2, ground arith, refl, refl) (h1, h2, ground arith, refl, refl)

  measure_window-Sound :
      (g : Governor F) (w : Window) (s : Sample)
      → 1 ≤ g.k
      → g.k ≤ g.ceiling
      → s.rate_limited ≡ none
      → Sound g.k g.ceiling g.cfg.max_conns s (measure_window g w s)
  unfolding measure_window close_window Sound Means
  measure_window-Sound g w s h1 h2 h3 =
      if_both (Sound g.k g.ceiling g.cfg.max_conns s) _ _ _ (h1, h2, ground arith, refl, refl)
        (on_rate-Sound (close_window g _ s) _ s h1 h2 h3)

  measure-Sound :
      (g : Governor F) (s : Sample)
      → 1 ≤ g.k
      → g.k ≤ g.ceiling
      → s.rate_limited ≡ none
      → Sound g.k g.ceiling g.cfg.max_conns s (measure g s)
  unfolding measure Sound Means
  measure-Sound g s h1 h2 h3 =
      option_all (Sound g.k g.ceiling g.cfg.max_conns s) _ (λ w. measure_window g w s) g.window
        (if_both (Sound g.k g.ceiling g.cfg.max_conns s) _ _ _ (h1, h2, ground arith, refl, refl)
          (measure_window-Sound g _ s h1 h2 h3))
        (λ w. measure_window-Sound g w s h1 h2 h3)

  by_phase-Sound :
      (g : Governor F) (s : Sample)
      → 1 ≤ g.k
      → g.k ≤ g.ceiling
      → s.rate_limited ≡ none
      → Sound g.k g.ceiling g.cfg.max_conns s (by_phase g s)
  unfolding by_phase Sound Means
  by_phase-Sound g s h1 h2 h3 =
      phase_all (Sound g.k g.ceiling g.cfg.max_conns s) g.phase (measure-Sound g s h1 h2 h3)
        (measure-Sound g s h1 h2 h3) (maybe_reprobe-Sound g s h1 h2 h3)
        (h1, h2, ground arith, refl, refl)

  on_errors-Sound :
      (g : Governor F) (s : Sample)
      → 1 ≤ g.k
      → g.k ≤ g.ceiling
      → s.rate_limited ≡ none
      → Sound g.k g.ceiling g.cfg.max_conns s (on_errors g s)
  unfolding on_errors Sound Means
  on_errors-Sound g s h1 h2 h3 = ground (arith, by_phase-Sound g s h1 h2 h3)

  on_disk-Sound :
      (g : Governor F) (s : Sample)
      → 1 ≤ g.k
      → g.k ≤ g.ceiling
      → s.rate_limited ≡ none
      → Sound g.k g.ceiling g.cfg.max_conns s (on_disk g s)
  unfolding on_disk Sound Means
  on_disk-Sound g s h1 h2 h3 =
      if_both (Sound g.k g.ceiling g.cfg.max_conns s) _ _ _ (h1, ground arith, h2, refl, refl)
        (on_errors-Sound _ s h1 h2 h3)

  observe-Sound :
      (g : Governor F) (s : Sample)
      → 1 ≤ g.k
      → g.k ≤ g.ceiling
      → Sound g.k g.ceiling g.cfg.max_conns s (observe g s)
  unfolding observe Sound Means on_rate_limit
  observe-Sound g s h1 h2 =
      option_all_eq (Sound g.k g.ceiling g.cfg.max_conns s) _
        (λ r. on_rate_limit (record g { last_bytes = s.bytes_total }) r s) s.rate_limited
        (on_disk-Sound (record g { last_bytes = s.bytes_total }) s h1 h2)
        (λ r e. (ground arith, ground arith, ground arith, refl, (refl, refl, refl, (r, e))))

  -- A decision taken within the bounds agrees with the new governor: holding keeps the number of
  -- connections, growth is strict, needs the token, is no more than the work left can use and never
  -- answers a rate limit, a retreat is strict, and backing off halves (to one at least), makes that the
  -- ceiling, and happens only at a rate limit.
  pub observe-Means :
      (g : Governor F) (s : Sample)
      → 1 ≤ g.k
      → g.k ≤ g.ceiling
      → Means g.k s (observe g s).0 (observe g s).1
  unfolding Sound
  observe-Means g s h1 h2 = (observe-Sound g s h1 h2).4

  pub observe-InBounds :
      (g : Governor F) (s : Sample)
      → InBounds g
      → InBounds (observe g s).0
        × ((observe g s).0.ceiling ≤ g.ceiling)
        × ((observe g s).0.cfg.max_conns ≡ g.cfg.max_conns)
  unfolding Sound
  observe-InBounds g s h =
      let t = observe-Sound g s h.some_conn h.below in
      let c = h.ceiling_below in
      (
        record { some_conn = t.0; below = t.1; ceiling_below = ground (arith, t.2, c, t.3) },
        t.2,
        t.3,
      )

  -- Over any samples the number of connections stays between one and the ceiling, the ceiling within
  -- the settings' maximum, and the ceiling never rises.
  pub observe_all-InBounds :
      (g : Governor F) (ss : List Sample)
      → InBounds g
      → InBounds (observe_all g ss)
        × ((observe_all g ss).ceiling ≤ g.ceiling)
        × ((observe_all g ss).cfg.max_conns ≡ g.cfg.max_conns)
  unfolding observe_all
  observe_all-InBounds g [] h = (h, ground arith, refl)
  observe_all-InBounds g (s ∷ ss) h =
      let one = observe-InBounds g s h in
      let rest = observe_all-InBounds (observe g s).0 ss one.0 in
      (rest.0, ground (arith, rest.1, one.1), rest.2 ∙ one.2)

pub new-InBounds :
    {F : Type 0} (cfg : GovernorConfig F) (k0 now : ℕ)
    → max64 k0 1 ≤ cfg.max_conns
    → InBounds (new cfg k0 now)
unfolding new
new-InBounds cfg k0 now h = record {
  some_conn = ground arith;
  below = h;
  ceiling_below = ground arith;
}
