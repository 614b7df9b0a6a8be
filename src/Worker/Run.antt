-- ===== src/Worker/Run.antt =====
-- crates/swiftload-core/src/task/worker.rs: `run`, the loop of a worker over the plan that it shares.
use ai_gen.Prelude.{Bool, Option, none, some, List, [], ◌∷◌, if◌then◌else◌, ◌++◌, if_all, if_both}
use ai_gen.Errors.{fatal}
use ai_gen.Plan.{Plan, Grant, claim, ClaimSlot, request, release}
use ai_gen.Plan
use ai_gen.Plan.History.{World, ask, give, Reach, here, next}
use ai_gen.Worker.{
  WorkerCtx, WorkerExit, exhausted, retired, cancelled, failed, Try, Write, Fetched, FetchResult,
  pending, done, stopped, fetch_claim,
}

-- A round of the loop: what the worker finds at its start, the tries of its claim, and what happens to
-- the shared plan while it fetches, by its own advances and by the calls of others.
pub record Turn : Type 0 where
  pub cancelled : Bool
  pub retiring : Bool
  pub tries : List Try
  pub meanwhile : World → World

-- How far a run came; `exit` is `none` where the turns are used up.
pub record Ran : Type 0 where
  pub world : World
  pub writes : List Write
  pub exit : Option WorkerExit

abbrev pub exits : World → List Write → WorkerExit → Ran
exits w ws e = record { world = w; writes = ws; exit = some e }

abbrev pub with_writes : List Write → Ran → Ran
with_writes ws r = record r { writes = ws ++ r.writes }

abbrev pub released : World → ClaimSlot → World
released w slot = record w { plan = release w.plan slot.id }

-- What follows the fetch of a claim; `again` is the rest of the loop.
unfoldable pub on_fetched : World → ClaimSlot → (World → Ran) → Fetched → FetchResult → Ran
on_fetched w slot again f done = with_writes f.writes (again (released w slot))
on_fetched w slot again f (stopped exit) = exits (released w slot) f.writes exit
on_fetched w slot again f pending = record { world = w; writes = f.writes; exit = none }

unfoldable pub on_grant : WorkerCtx → Turn → (World → Ran) → World → Grant → Ran
unfolding on_fetched fetch_claim
on_grant ctx t again w Plan.exhausted = exits w [] exhausted
on_grant ctx t again w (claim slot) =
    let f = fetch_claim ctx t.tries slot in on_fetched (t.meanwhile w) slot again f f.result

unfoldable pub serve_claims : WorkerCtx → List Turn → World → Ran
unfolding on_grant request
serve_claims ctx [] w = record { world = w; writes = []; exit = none }
serve_claims ctx (t ∷ ts) w =
    let asked = request w.plan in
    if t.cancelled
    then exits w [] cancelled
    else if t.retiring
    then exits w [] retired
    else on_grant ctx t (serve_claims ctx ts) (record w { plan = asked.0 }) asked.1

-- `built` tells whether the HTTP client of the worker could be made.
unfoldable pub run_worker : WorkerCtx → Bool → List Turn → World → Ran
unfolding serve_claims
run_worker ctx built ts w = if built then serve_claims ctx ts w else exits w [] (failed fatal)

-- While a worker fetches, the plan is used by its methods only.
abbrev pub AllSteps : List Turn → Type 0
AllSteps [] = Unit {0}
AllSteps (t ∷ ts) = ((w : World) → Reach w (t.meanwhile w)) × AllSteps ts

Reach-trans : {u v w : World} → Reach u v → Reach v w → Reach u w
Reach-trans r here = r
Reach-trans r (next s t) = next (Reach-trans r s) t

on_fetched-Reach :
    (u w : World) (slot : ClaimSlot) (again : World → Ran) (f : Fetched) (r : FetchResult)
    → Reach u w
    → ((v : World) → Reach u v → Reach u (again v).world)
    → Reach u (on_fetched w slot again f r).world
unfolding on_fetched
on_fetched-Reach u w slot again f done h k = k (released w slot) (next h (give slot.id))
on_fetched-Reach u w slot again f (stopped exit) h k = next h (give slot.id)
on_fetched-Reach u w slot again f pending h k = h

on_grant-Reach :
    (u w : World) (ctx : WorkerCtx) (t : Turn) (again : World → Ran) (g : Grant)
    → Reach u w
    → ((v : World) → Reach v (t.meanwhile v))
    → ((v : World) → Reach u v → Reach u (again v).world)
    → Reach u (on_grant ctx t again w g).world
unfolding on_grant
on_grant-Reach u w ctx t again Plan.exhausted h m k = h
on_grant-Reach u w ctx t again (claim slot) h m k =
    on_fetched-Reach u (t.meanwhile w) slot again (fetch_claim ctx t.tries slot) _
      (Reach-trans h (m w)) k

-- A run of a worker leaves the plan as a series of calls of its methods does.
pub serve_claims-Reach :
    (ctx : WorkerCtx) (ts : List Turn) (u w : World)
    → AllSteps ts
    → Reach u w
    → Reach u (serve_claims ctx ts w).world
unfolding serve_claims
serve_claims-Reach ctx [] u w a h = h
serve_claims-Reach ctx (t ∷ ts) u w a h =
    if_all (λ (r : Ran). Reach u r.world) t.cancelled t.retiring _ _ _ h h
      (on_grant-Reach u (record w { plan = (request w.plan).0 }) ctx t (serve_claims ctx ts)
        (request w.plan).1 (next h ask) a.0 (λ v r. serve_claims-Reach ctx ts u v a.1 r))

pub run_worker-Reach :
    (ctx : WorkerCtx) (built : Bool) (ts : List Turn) (w : World)
    → AllSteps ts
    → Reach w (run_worker ctx built ts w).world
unfolding run_worker
run_worker-Reach ctx built ts w a =
    if_both (λ (r : Ran). Reach w r.world) built _ _ (serve_claims-Reach ctx ts w w a here) here
