-- ===== src/Worker/Retry.antt =====
-- The retry loop: how often it tries, that it comes to an end, and what it writes over all tries.
use ai_gen.Prelude.{
  if_all, ℕ, suc, ◌-◌, ◌≤◌, ◌<◌, ◌≡◌, ◌≢◌, true, not, List, [], ◌∷◌, ◌++◌, refl, sym, arith, leb,
  length, IsU64, Bool-cases, inl, inr, if◌then◌else◌,
}
use mathlib.Core.Path.{subst}
use ai_gen.Errors.{ErrorClass, is_retryable}
use ai_gen.Probe.{is_supported}
use ai_gen.Plan.{ClaimSlot, is_done}
use ai_gen.Worker.{
  WorkerCtx, Streamed, stream_once, Outcome, streaming, ended, failed, Write, Try, Fetched, pending,
  stopped, settled, on_error, on_outcome, on_try, fetch_loop, fetch_claim, cancelled,
}
use ai_gen.Worker.Faithful.{AllMatch, IsHonest, stream_once-AllMatch, stream_once_shrinks}

-- How often a loop that is at `attempt` may still retry.
abbrev pub budget : WorkerCtx → ℕ → ℕ
budget ctx attempt = ctx.backoff.max_attempts - attempt

record Bounded (n : ℕ) (f : Fetched) : Type 0 where
  waits : length f.waits ≤ n
  errors : f.errors ≤ suc n

on_error-Bounded :
    (ctx : WorkerCtx) (t : Try) (attempt : ℕ) (got : Streamed) (class : ErrorClass)
    (again : Fetched)
    → Bounded (budget ctx (suc attempt)) again
    → Bounded (budget ctx attempt) (on_error ctx t attempt got class again)
unfolding on_error
on_error-Bounded ctx t attempt got class again b = record {
  waits = ground (arith, b.waits);
  errors = ground (arith, b.errors);
}

on_outcome-Bounded :
    (ctx : WorkerCtx) (t : Try) (attempt : ℕ) (got : Streamed) (again : Fetched) (o : Outcome)
    → Bounded (budget ctx (suc attempt)) again
    → Bounded (budget ctx attempt) (on_outcome ctx t attempt got again o)
on_outcome-Bounded ctx t attempt got again streaming b = record {
  waits = omega arith;
  errors = omega arith;
}
on_outcome-Bounded ctx t attempt got again ended b = record {
  waits = omega arith;
  errors = omega arith;
}
on_outcome-Bounded ctx t attempt got again (failed class) b =
    on_error-Bounded ctx t attempt got class again b

on_try-Bounded :
    (ctx : WorkerCtx) (t : Try) (attempt : ℕ) (s : ClaimSlot) (got : Streamed) (again : Fetched)
    → Bounded (budget ctx (suc attempt)) again
    → Bounded (budget ctx attempt) (on_try ctx t attempt s got again)
on_try-Bounded ctx t attempt s got again b =
    if_all (Bounded (budget ctx attempt)) (is_done s) t.cancelled _ _ _
      (record { waits = omega arith; errors = omega arith })
      (record { waits = omega arith; errors = omega arith })
      (on_outcome-Bounded ctx t attempt got again got.outcome b)

fetch_loop-Bounded :
    (ctx : WorkerCtx) (attempt : ℕ) (ts : List Try) (s : ClaimSlot)
    → Bounded (budget ctx attempt) (fetch_loop ctx attempt ts s)
unfolding fetch_loop
fetch_loop-Bounded ctx attempt [] s = record { waits = omega arith; errors = omega arith }
fetch_loop-Bounded ctx attempt (t ∷ ts) s =
    on_try-Bounded ctx t attempt s (stream_once ctx t.attempt s) _
      (fetch_loop-Bounded ctx (suc attempt) ts (stream_once ctx t.attempt s).slot)

-- Fetching a claim sleeps at most `max_attempts` times, and adds at most one more to the counter of
-- errors.
pub fetch_claim_bounded :
    (ctx : WorkerCtx) (ts : List Try) (s : ClaimSlot)
    → (length (fetch_claim ctx ts s).waits ≤ ctx.backoff.max_attempts)
      × ((fetch_claim ctx ts s).errors ≤ suc ctx.backoff.max_attempts)
unfolding fetch_claim
fetch_claim_bounded ctx ts s =
    let b = fetch_loop-Bounded ctx 0 ts s in (omega (arith, b.waits), omega (arith, b.errors))

-- No attempt waits for the network without end.
abbrev pub AllSettle : WorkerCtx → List Try → Type 0
AllSettle ctx [] = Unit {0}
AllSettle ctx (t ∷ ts) =
    ((s : ClaimSlot) → (stream_once ctx t.attempt s).outcome ≢ streaming) × AllSettle ctx ts

on_error_settles :
    (ctx : WorkerCtx) (t : Try) (attempt : ℕ) (got : Streamed) (class : ErrorClass)
    (again : Fetched)
    → (attempt < ctx.backoff.max_attempts → again.result ≢ pending)
    → (on_error ctx t attempt got class again).result ≢ pending
unfolding on_error
on_error_settles ctx t attempt got class again k = ground arith

on_outcome_settles :
    (ctx : WorkerCtx) (t : Try) (attempt : ℕ) (got : Streamed) (again : Fetched) (o : Outcome)
    → o ≢ streaming
    → (attempt < ctx.backoff.max_attempts → again.result ≢ pending)
    → (on_outcome ctx t attempt got again o).result ≢ pending
on_outcome_settles ctx t attempt got again streaming n k = absurd (n refl)
on_outcome_settles ctx t attempt got again ended n k = ground arith
on_outcome_settles ctx t attempt got again (failed class) n k =
    on_error_settles ctx t attempt got class again k

on_try_settles :
    (ctx : WorkerCtx) (t : Try) (attempt : ℕ) (s : ClaimSlot) (got : Streamed) (again : Fetched)
    → got.outcome ≢ streaming
    → (attempt < ctx.backoff.max_attempts → again.result ≢ pending)
    → (on_try ctx t attempt s got again).result ≢ pending
on_try_settles ctx t attempt s got again n k =
    if_all (λ (f : Fetched). f.result ≢ pending) (is_done s) t.cancelled _ _ _ (ground arith)
      (ground arith) (on_outcome_settles ctx t attempt got again got.outcome n k)

fetch_loop_settles :
    (ctx : WorkerCtx) (attempt : ℕ) (ts : List Try) (s : ClaimSlot)
    → AllSettle ctx ts
    → budget ctx attempt < length ts
    → (fetch_loop ctx attempt ts s).result ≢ pending
unfolding fetch_loop
fetch_loop_settles ctx attempt [] s a h = absurd (omega arith)
fetch_loop_settles ctx attempt (t ∷ ts) s a h =
    on_try_settles ctx t attempt s (stream_once ctx t.attempt s) _ (a.0 s) (λ more.
      fetch_loop_settles ctx (suc attempt) ts (stream_once ctx t.attempt s).slot a.1 (omega arith))

-- If no attempt waits without end, `max_attempts + 1` tries are enough: fetching the claim returns.
pub fetch_claim_returns :
    (ctx : WorkerCtx) (ts : List Try) (s : ClaimSlot)
    → AllSettle ctx ts
    → ctx.backoff.max_attempts < length ts
    → (fetch_claim ctx ts s).result ≢ pending
unfolding fetch_claim
fetch_claim_returns ctx ts s a h = fetch_loop_settles ctx 0 ts s a (omega arith)

AllMatch-append :
    (file : ℕ → ℕ) (xs ys : List Write)
    → AllMatch file xs
    → AllMatch file ys
    → AllMatch file (xs ++ ys)
AllMatch-append file [] ys a b = b
AllMatch-append file (x ∷ xs) ys a b = (a.0, AllMatch-append file xs ys a.1 b)

on_error-AllMatch :
    (file : ℕ → ℕ) (ctx : WorkerCtx) (t : Try) (attempt : ℕ) (got : Streamed) (class : ErrorClass)
    (again : Fetched)
    → AllMatch file got.writes
    → AllMatch file again.writes
    → AllMatch file (on_error ctx t attempt got class again).writes
unfolding on_error
on_error-AllMatch file ctx t attempt got class again a b =
    if_all (λ (f : Fetched). AllMatch file f.writes) (not (is_retryable class))
      (leb ctx.backoff.max_attempts attempt) _ _ _ a a
      (AllMatch-append file got.writes _ a (elim (Bool-cases t.cancelled_waiting) [
        | inl gone ↦ rw gone tt
        | inr on ↦
            subst
              (λ c.
                AllMatch file
                  (if c then settled [] got.slot 0 (stopped cancelled) else again).writes)
              (sym on) b
      ]))

on_outcome-AllMatch :
    (file : ℕ → ℕ) (ctx : WorkerCtx) (t : Try) (attempt : ℕ) (got : Streamed) (again : Fetched)
    (o : Outcome)
    → AllMatch file got.writes
    → AllMatch file again.writes
    → AllMatch file (on_outcome ctx t attempt got again o).writes
on_outcome-AllMatch file ctx t attempt got again streaming a b = a
on_outcome-AllMatch file ctx t attempt got again ended a b = a
on_outcome-AllMatch file ctx t attempt got again (failed class) a b =
    on_error-AllMatch file ctx t attempt got class again a b

abbrev pub AllHonest : (ℕ → ℕ) → List Try → Type 0
AllHonest file [] = Unit {0}
AllHonest file (t ∷ ts) = IsHonest file t.attempt × AllHonest file ts

fetch_loop-AllMatch :
    (file : ℕ → ℕ) (ctx : WorkerCtx) (attempt : ℕ) (ts : List Try) (s : ClaimSlot)
    → is_supported ctx.range_support ≡ true
    → IsU64 s.end
    → AllHonest file ts
    → AllMatch file (fetch_loop ctx attempt ts s).writes
unfolding fetch_loop
fetch_loop-AllMatch file ctx attempt [] s r u h = tt
fetch_loop-AllMatch file ctx attempt (t ∷ ts) s r u h =
    let got = stream_once ctx t.attempt s in
    let smaller = stream_once_shrinks ctx t.attempt s u in
    if_all (λ (f : Fetched). AllMatch file f.writes) (is_done s) t.cancelled _ _ _ tt tt
      (on_outcome-AllMatch file ctx t attempt got (fetch_loop ctx (suc attempt) ts got.slot)
        got.outcome (stream_once-AllMatch file ctx t.attempt s r u h.0)
        (fetch_loop-AllMatch file ctx (suc attempt) ts got.slot r (omega (arith, smaller)) h.1))

-- For a claim that ends within u64, with ranges and honest partial bodies, every byte that is written over all tries of a claim is the
-- file's byte at its offset.
pub fetch_claim-AllMatch :
    (file : ℕ → ℕ) (ctx : WorkerCtx) (ts : List Try) (s : ClaimSlot)
    → is_supported ctx.range_support ≡ true
    → IsU64 s.end
    → AllHonest file ts
    → AllMatch file (fetch_claim ctx ts s).writes
unfolding fetch_claim
fetch_claim-AllMatch file ctx ts s r u h = fetch_loop-AllMatch file ctx 0 ts s r u h
