-- ===== src/Plan.antt =====
-- crates/swiftload-core/src/task/plan.rs: claims, and the plan that hands them out, splits them and
-- takes them back. The `Arc`s of the live claims point into the store that `slots` is; an `id`
-- stands for the pointer. The mutex makes each method one step.
mod Examples
pub mod Pieces
pub mod Spans
pub mod Slots
pub mod Owners
pub mod Invariant
pub mod History
pub mod Seed
use Pieces.{align_up, longest, sort_by_start, merge_free, seed_loop}
use ai_gen.Prelude.{
  ℕ, zero, suc, ◌+◌, ◌-◌, ◌*◌, ◌/◌, ◌%◌, Bool, true, false, not, ◌&&◌, ◌||◌, Option, none, some,
  List, [], ◌∷◌, ◌++◌, ltb, leb, ◌==◌, if◌then◌else◌, length, get_or, take, drop, u64_mod, u64_max,
  add64, sub64, saturating_sub, max64,
}
use ai_gen.Config.{min_segment}
use ai_gen.RangeSet.{Span, RangeSet, span_end, no_span, gaps_in, end}

pub record ClaimSlot : Type 0 where
  pub id : ℕ
  pub cursor : ℕ
  pub end : ℕ
  pub active : Bool

pub record Plan : Type 0 where
  pub total : Option ℕ
  pub free : List Span
  pub slots : List ClaimSlot
  pub next_id : ℕ  -- no part of the source: the next pointer that `Arc::new` returns

pub data Grant : Type 0 where
  claim : ClaimSlot → Grant
  exhausted : Grant

abbrev pub remaining : ClaimSlot → ℕ
remaining s = saturating_sub s.end s.cursor

unfoldable pub is_done : ClaimSlot → Bool
is_done s = leb s.end s.cursor

unfoldable pub new : Option ℕ → RangeSet → Plan
new total completed = record {
  total = total;
  free = elim total [
    | some t ↦ gaps_in completed 0 t
    | none ↦ record { start = end completed; len = sub64 u64_max (end completed) } ∷ []
  ];
  slots = [];
  next_id = 0;
}

unfoldable pub seed : Plan → ℕ → Plan
unfolding seed_loop
seed p n = if leb n 1 || leb n (length p.free) then p else record p { free = seed_loop n n p.free }

unfoldable pub unclaimed : List Span → ℕ
unclaimed [] = 0
unclaimed (x ∷ xs) = add64 x.len (unclaimed xs)

held_bytes : List ClaimSlot → ℕ
held_bytes [] = 0
held_bytes (s ∷ ss) = if s.active then add64 (remaining s) (held_bytes ss) else held_bytes ss

unfoldable pub outstanding : Plan → ℕ
unfolding held_bytes
outstanding p = add64 (unclaimed p.free) (held_bytes p.slots)

-- `filter(is_active).max_by_key(remaining)`: the last of the active slots with most left.
unfoldable pub victim : List ClaimSlot → Option ClaimSlot
victim [] = none
victim (s ∷ ss) = elim (victim ss) [
  | none ↦ if s.active then some s else none
  | some t ↦ if s.active && ltb (remaining t) (remaining s) then some s else some t
]

-- A store to a field of the slot behind a pointer.
unfoldable pub update : ℕ → (ClaimSlot → ClaimSlot) → List ClaimSlot → List ClaimSlot
update id f [] = []
update id f (s ∷ ss) = (if s.id == id then f s else s) ∷ update id f ss

abbrev pub new_slot : Plan → ℕ → ℕ → ClaimSlot
new_slot p start end = record { id = p.next_id; cursor = start; end = end; active = true }

unfoldable pub split_point : ClaimSlot → ℕ
split_point v = align_up (add64 v.cursor (remaining v / 2))

-- `victim.end.store(at)`
abbrev pub ending : ℕ → ClaimSlot → ClaimSlot
ending at s = record s { end = at }

-- `request` where `free` is empty.
unfoldable pub steal : Plan → ClaimSlot → Plan × Grant
unfolding update
steal p v =
    let split = split_point v in
    let slot = new_slot p split v.end in
    if ltb (remaining v) (min_segment * 2)
    then (p, exhausted)
    else if leb split v.cursor || leb v.end split
    then (p, exhausted)
    else (
      record p { slots = update v.id (ending split) p.slots ++ slot ∷ []; next_id = suc p.next_id },
      claim slot,
    )

unfoldable pub take_free : Plan → ℕ → Plan × Grant
take_free p idx =
    let piece = get_or p.free idx no_span in
    let slot = new_slot p piece.start (span_end piece) in
    (
      record p {
        free = take idx p.free ++ drop (suc idx) p.free;
        slots = p.slots ++ slot ∷ [];
        next_id = suc p.next_id;
      },
      claim slot,
    )

unfoldable pub request : Plan → Plan × Grant
unfolding steal take_free
request p = elim (longest p.free) [
  | some idx ↦ take_free p idx
  | none ↦ elim (victim p.slots) [ none ↦ (p, exhausted) | some v ↦ steal p v ]
]

unfoldable pub find : ℕ → List ClaimSlot → Option ClaimSlot
find id [] = none
find id (s ∷ ss) = if s.id == id then some s else find id ss

unfoldable pub give_back : List Span → ℕ → ℕ → List Span
give_back free start len =
    merge_free (sort_by_start (free ++ record { start = start; len = len } ∷ []))

-- `retain(|s| !Arc::ptr_eq(s, slot) || s.is_active())`
unfoldable pub retain : ℕ → List ClaimSlot → List ClaimSlot
retain id [] = []
retain id (s ∷ ss) = if not (s.id == id) || s.active then s ∷ retain id ss else retain id ss

-- `deactivate`
abbrev pub deactivated : ClaimSlot → ClaimSlot
deactivated s = record s { active = false }

-- A worker releases the claim that it was granted, once; that is a slot of the store.
unfoldable pub release : Plan → ℕ → Plan
unfolding give_back retain update
release p id = elim (find id p.slots) [
  | none ↦ p
  | some s ↦ record p {
    free = if ltb s.cursor s.end then give_back p.free s.cursor (sub64 s.end s.cursor) else p.free;
    slots = retain id (update id deactivated p.slots);
  }
]

unfoldable pub return_range : Plan → ℕ → ℕ → Plan
unfolding give_back
return_range p start len = if len == 0 then p else record p { free = give_back p.free start len }

-- `ClaimSlot::advance`
unfoldable pub advance : Plan → ℕ → ℕ → Plan
unfolding update
advance p id n = record p {
  slots = update id (λ s. record s { cursor = add64 s.cursor n }) p.slots;
}

unfoldable pub useful_workers : Plan → ℕ
unfolding outstanding
useful_workers p = let n = outstanding p / min_segment in if leb n 1 then 1 else n
