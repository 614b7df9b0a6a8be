-- ===== src/Plan/Examples.antt =====
-- A run of a plan with a steal, and the theorems about plans at concrete ones.
use ai_gen.Prelude.{ℕ, ◌*◌, ◌≡◌, refl, true, some, [], ◌∷◌, arith}
use ai_gen.RangeSet.{RangeSet, gaps_in}
use ai_gen.Plan.{
  ClaimSlot, Plan, claim, take_free, new, request, release, advance, find, victim, seed,
  split_point,
}
use ai_gen.Plan.Pieces.{longest, sort_by_start}
use ai_gen.Plan.Owners.{owners, IsValid}
use ai_gen.Plan.Seed.{seed-IsValid}
use ai_gen.Plan.Pieces.{split_longest}
use ai_gen.Plan.Invariant.{request-IsValid, release-IsValid}
use ai_gen.Plan.History.{advanced, World, new-IsValid}

-- Sixteen megabytes of which the first four are on disk.
abbrev mb : ℕ
mb = 1048576

abbrev completed : RangeSet
completed = record { start = 0; len = 4 * mb } ∷ []

abbrev fresh : Plan
fresh = record {
  total = some (16 * mb);
  free = record { start = 4 * mb; len = 12 * mb } ∷ [];
  slots = [];
  next_id = 0;
}

new_runs : new (some (16 * mb)) completed ≡ fresh
unfolding new gaps_in
new_runs = refl

stolen :
    (request (request fresh).0).1
    ≡ claim (record { id = 1; cursor = 10 * mb; end = 16 * mb; active = true })
unfolding request longest victim split_point
stolen = refl

seeded :
    (seed fresh 4).free
    ≡ record { start = 4 * mb; len = 3 * mb }
      ∷ record { start = 7 * mb; len = 3 * mb }
      ∷ record { start = 10 * mb; len = 3 * mb }
      ∷ record { start = 13 * mb; len = 3 * mb }
      ∷ []
unfolding seed longest sort_by_start
seeded = refl

abbrev after_ask : Plan
after_ask = (request fresh).0

fresh-IsValid : IsValid fresh
unfolding new gaps_in
fresh-IsValid = (new-IsValid (16 * mb) completed (omega arith) (omega arith)).0

after_ask-IsValid : IsValid after_ask
after_ask-IsValid = request-IsValid fresh fresh-IsValid

release-IsValid_example :
    ((b : ℕ) → owners (release after_ask 0) b ≡ owners after_ask b) × IsValid (release after_ask 0)
release-IsValid_example = release-IsValid after_ask 0 after_ask-IsValid

released : (release after_ask 0).free ≡ record { start = 4 * mb; len = 12 * mb } ∷ []
unfolding release request longest take_free find ai_gen.Plan.Pieces.merge_free sort_by_start
released = refl

-- One worker asks, fetches the whole gap, and releases.
abbrev before : World
before = record { plan = new (some (16 * mb)) completed; fetched = [] }

abbrev asked : World
asked = record before { plan = (request before.plan).0 }

abbrev whole : ClaimSlot
whole = record { id = 0; cursor = 4 * mb; end = 16 * mb; active = true }

abbrev fetched_all : World
fetched_all = record asked {
  plan = advance asked.plan 0 (12 * mb);
  fetched = advanced whole (12 * mb) ∷ [];
}

abbrev drained : World
drained = record fetched_all { plan = release fetched_all.plan 0 }

seed-IsValid_example : ((b : ℕ) → owners (seed fresh 4) b ≡ owners fresh b) × IsValid (seed fresh 4)
seed-IsValid_example = seed-IsValid fresh 4 fresh-IsValid
