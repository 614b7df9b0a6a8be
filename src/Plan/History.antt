-- ===== src/Plan/History.antt =====
-- Histories of a plan: workers ask for work, advance and release in any order. What the workers
-- advanced over is logged, and no byte of the download gets lost on the way.
use ai_gen.Prelude.{
  ℕ, ◌+◌, ◌≤◌, ◌≡◌, refl, some, List, [], ◌∷◌, arith, ltb, IsU64, not, ◌&&◌, add64,
}
use ai_gen.RangeSet.{Span, RangeSet, gaps_in}
use ai_gen.RangeSet.Canonical.{covers, CanonicalFrom, IsCanonical, covers-below}
use ai_gen.RangeSet.Gaps.{covers-gaps_in, gaps_in-CanonicalFrom}
use ai_gen.Plan.{ClaimSlot, Plan, new, request, find, release, advance}
use ai_gen.Plan.Spans.{bit, hits, CanonicalFrom-AllFit}
use ai_gen.Plan.Owners.{owners, IsValid}

-- `fetched` has a span for each `advance`: the bytes that the worker handed to the writer.
pub record World : Type 0 where
  pub plan : Plan
  pub fetched : List Span

abbrev pub advanced : ClaimSlot → ℕ → Span
advanced s n = record { start = s.cursor; len = n }

-- One call of a worker. `advance` may pass the end of the claim: a steal lowers the end while a
-- chunk is on its way.
pub data Step (w : World) : World → Type 0 where
  ask : Step w (record w { plan = (request w.plan).0 })
  give : (id : ℕ) → Step w (record w { plan = release w.plan id })
  move :
      (id n : ℕ) (s : ClaimSlot)
      → find id w.plan.slots ≡ some s
      → IsU64 (s.cursor + n)
      → Step w (record w { plan = advance w.plan id n; fetched = advanced s n ∷ w.fetched })

pub data Reach (w : World) : World → Type 0 where
  here : Reach w w
  next : {u v : World} → Reach w u → Step u v → Reach w v

abbrev moved : ℕ → ClaimSlot → ClaimSlot
moved n s = record s { cursor = add64 s.cursor n }

-- What holds between two steps, for the byte `b` and `n` owners that it had at the start.
record Inv (b n : ℕ) (w : World) : Type 0 where
  valid : IsValid w.plan
  kept : n ≤ owners w.plan b + hits w.fetched b

hits-CanonicalFrom :
    (low b : ℕ) (xs : List Span) → CanonicalFrom low xs → hits xs b ≡ bit (covers xs b)
hits-CanonicalFrom low b [] c = refl
hits-CanonicalFrom low b (x ∷ xs) c = ground (
  arith,
  hits-CanonicalFrom (x.start + x.len + 1) b xs c.3,
  covers-below (x.start + x.len + 1) xs b,
)

owners-new :
    (t b : ℕ) (completed : RangeSet)
    → IsCanonical completed
    → IsU64 t
    → owners (new (some t) completed) b ≡ bit (ltb b t && not (covers completed b))
unfolding new
owners-new t b completed c u = ground (
  arith,
  hits-CanonicalFrom 0 b (gaps_in completed 0 t) (gaps_in-CanonicalFrom completed 0 t c u),
  covers-gaps_in completed 0 t b c u,
)

-- A plan over the gaps of a canonical set, for a size within u64, is valid, and exactly the bytes
-- of the file that the set does not cover have an owner.
pub new-IsValid :
    (t : ℕ) (completed : RangeSet)
    → IsCanonical completed
    → IsU64 t
    → IsValid (new (some t) completed)
      × ((b : ℕ) → owners (new (some t) completed) b ≡ bit (ltb b t && not (covers completed b)))
new-IsValid t completed c u = (
  record {
    fits =
        unfold new in
        CanonicalFrom-AllFit 0 (gaps_in completed 0 t) (gaps_in-CanonicalFrom completed 0 t c u);
    store = unfold new in tt;
    exclusive = λ b. rw (owners-new t b completed c u) (ground arith);
  },
  λ b. owners-new t b completed c u,
)
