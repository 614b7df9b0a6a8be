-- ===== src/Governor/Backing.antt =====
-- crates/swiftload-core/src/task/governor.rs: after the server asked for fewer requests, the number of
-- connections never grows again.
use ai_gen.Prelude.{
  ℕ, ◌/◌, ◌≤◌, ◌≡◌, ◌⊎◌, refl, true, ◌&&◌, Option, some, ltb, leb, max64, List, [], ◌∷◌, arith,
  if_both, if_both_eq, option_all_eq, sym, inl, inr,
}
use mathlib.Core.Path.{subst}
use ai_gen.Floats.{Floats}
use ai_gen.Governor.{
  Governor, Sample, Decision, hold, baseline, ramp, settled, backing_off, Phase, maybe_reprobe,
  on_rate_limit, by_phase, on_errors, on_disk, observe, observe_all,
}

-- The server is known not to bear more, and no measurement is under way.
pub record IsQuiet {F : Type 0} (g : Governor F) : Type 0 where
  pub detected : g.saturation_detected ≡ true
  pub idle : (g.phase ≡ settled) ⊎ (g.phase ≡ backing_off)
  pub some_conn : 1 ≤ g.k

-- A quiet step: quiet after it, and no growth.
unfoldable pub StaysQuiet : {F : Type 0} → ℕ → Governor F × Decision → Type 0
StaysQuiet k (g, d) = IsQuiet g × (g.k ≤ k)

idle_all :
    {A : Type 0} (P : A → Type 0) (b r w o : A) (phase : Phase)
    → (phase ≡ settled) ⊎ (phase ≡ backing_off)
    → P w
    → P o
    → P (elim phase [ baseline ↦ b | ramp ↦ r | settled ↦ w | backing_off ↦ o ])
idle_all P b r w o baseline h p q = ground arith
idle_all P b r w o ramp h p q = ground arith
idle_all P b r w o settled h p q = p
idle_all P b r w o backing_off h p q = q

module _ {F : Type 0} ⦃R : Floats F⦄ where
  pub on_rate_limit-StaysQuiet :
      (g : Governor F) (r : Option ℕ) (s : Sample)
      → StaysQuiet (max64 (g.k / 2) 1) (on_rate_limit g r s)
  unfolding StaysQuiet on_rate_limit
  on_rate_limit-StaysQuiet g r s =
      (record { detected = refl; idle = inr refl; some_conn = ground arith }, ground arith)

  maybe_reprobe-detected :
      (g : Governor F) (s : Sample) → g.saturation_detected ≡ true → maybe_reprobe g s ≡ (g, hold)
  unfolding maybe_reprobe
  maybe_reprobe-detected g s h = ground arith

  by_phase-StaysQuiet : (g : Governor F) (s : Sample) → IsQuiet g → StaysQuiet g.k (by_phase g s)
  unfolding by_phase StaysQuiet
  by_phase-StaysQuiet g s q =
      idle_all (StaysQuiet g.k) _ _ _ _ g.phase q.idle
        (subst (StaysQuiet g.k) (sym (maybe_reprobe-detected g s q.detected)) (q, ground arith))
        (record { detected = q.detected; idle = inl refl; some_conn = q.some_conn }, ground arith)

  on_errors-StaysQuiet : (g : Governor F) (s : Sample) → IsQuiet g → StaysQuiet g.k (on_errors g s)
  unfolding on_errors StaysQuiet
  on_errors-StaysQuiet g s q =
      if_both_eq (StaysQuiet g.k) (leb 2 s.errors_since_last && ltb 1 g.k) _ _
        (λ e. (
          record { detected = q.detected; idle = inl refl; some_conn = ground arith },
          ground arith,
        ))
        (λ e. by_phase-StaysQuiet g s q)

  on_disk-StaysQuiet : (g : Governor F) (s : Sample) → IsQuiet g → StaysQuiet g.k (on_disk g s)
  unfolding on_disk StaysQuiet
  on_disk-StaysQuiet g s q =
      if_both (StaysQuiet g.k) _ _ _
        (record { detected = q.detected; idle = inl refl; some_conn = q.some_conn }, ground arith)
        (on_errors-StaysQuiet _ s
          record { detected = q.detected; idle = q.idle; some_conn = q.some_conn })

  observe-StaysQuiet : (g : Governor F) (s : Sample) → IsQuiet g → StaysQuiet g.k (observe g s)
  unfolding observe StaysQuiet
  observe-StaysQuiet g s q =
      let g1 = record g { last_bytes = s.bytes_total } in
      option_all_eq (StaysQuiet g.k) _ (λ r. on_rate_limit g1 r s) s.rate_limited
        (λ e.
          on_disk-StaysQuiet g1 s
            record { detected = q.detected; idle = q.idle; some_conn = q.some_conn })
        (λ r e.
          let t = on_rate_limit-StaysQuiet g1 r s in
          let p = q.some_conn in (t.0, ground (arith, t.1)))

  observe_all-IsQuiet :
      (g : Governor F) (ss : List Sample)
      → IsQuiet g
      → IsQuiet (observe_all g ss) × ((observe_all g ss).k ≤ g.k)
  unfolding observe_all StaysQuiet
  observe_all-IsQuiet g [] q = (q, ground arith)
  observe_all-IsQuiet g (s ∷ ss) q =
      let one = observe-StaysQuiet g s q in
      let rest = observe_all-IsQuiet (observe g s).0 ss one.0 in
      (rest.0, ground (arith, rest.1, one.1))

  observe-rate_limited :
      (g : Governor F) (s : Sample) (retry_after : Option ℕ)
      → s.rate_limited ≡ some retry_after
      → StaysQuiet (max64 (g.k / 2) 1) (observe g s)
  unfolding observe
  observe-rate_limited g s r h =
      let g1 = record g { last_bytes = s.bytes_total } in
      option_all_eq (StaysQuiet (max64 (g.k / 2) 1)) _ (λ r. on_rate_limit g1 r s) s.rate_limited
        (λ e. ground (arith, e, h)) (λ r' e. on_rate_limit-StaysQuiet g1 r' s)

  -- Once a sample says that the server asked for fewer requests, the number of connections is at most
  -- half of what it was (but at least one), whatever samples follow.
  pub observe_all-rate_limited :
      (g : Governor F) (s : Sample) (retry_after : Option ℕ) (ss : List Sample)
      → s.rate_limited ≡ some retry_after
      → (observe_all g (s ∷ ss)).k ≤ max64 (g.k / 2) 1
  unfolding observe_all StaysQuiet
  observe_all-rate_limited g s r ss h =
      let one = observe-rate_limited g s r h in
      let rest = observe_all-IsQuiet (observe g s).0 ss one.0 in ground (arith, one.1, rest.1)
