-- ===== src/Plan/Owners.antt =====
-- Who has a byte: the unclaimed gaps and the active claims together. Handing out work and taking it
-- back moves bytes between the two and neither loses nor doubles one.
use ai_gen.Prelude.{
  ℕ, ◌||◌, Bool-cases, suc, ◌+◌, ◌*◌, ◌≤◌, ◌<◌, ◌≡◌, refl, true, none, some, [], ◌∷◌, ◌++◌, arith,
  ltb, leb, inl, inr, Option-cases,
}
use ai_gen.Config.{min_segment}
use ai_gen.Plan.{
  split_point, ending, ClaimSlot, Plan, Grant, claim, exhausted, remaining, new_slot, victim, steal,
  take_free, request, find, update,
}
use ai_gen.Plan.Pieces.{longest}
use ai_gen.Plan.Spans.{hits, AllFit, longest_bound, hits_without, AllFit-at}
use ai_gen.Plan.Slots.{held, StoreFrom, held-append, held-update, victim-find}

-- How many parties have byte `b`: unclaimed gaps, and active claims.
abbrev pub owners : Plan → ℕ → ℕ
owners p b = hits p.free b + held p.slots b

-- Gaps are not empty and end within u64, the pointers are distinct and older than `next_id`, and no
-- byte has two owners.
pub record IsValid (p : Plan) : Type 0 where
  pub fits : AllFit p.free
  pub store : StoreFrom 0 p.next_id p.slots
  pub exclusive : (b : ℕ) → owners p b ≤ 1

owners-take_free :
    (p : Plan) (i b : ℕ)
    → longest p.free ≡ some i
    → AllFit p.free
    → owners (take_free p i).0 b ≡ owners p b
unfolding take_free
owners-take_free p i b e c =
    let bound = longest_bound p.free i e in
    rw held-append (ground (arith, AllFit-at p.free i bound c, hits_without p.free i b bound))

-- Lowering the end of an active claim and handing the freed tail to a new one moves bytes only.
held_split :
    (p : Plan) (v : ClaimSlot) (at b : ℕ)
    → StoreFrom 0 p.next_id p.slots
    → find v.id p.slots ≡ some v
    → v.active ≡ true
    → v.cursor ≤ at
    → at ≤ v.end
    → held (update v.id (ending at) p.slots ++ new_slot p at v.end ∷ []) b ≡ held p.slots b
held_split p v at b st e a lo hi =
    rw held-append (ground (arith, held-update 0 p.next_id v.id b (ending at) p.slots v st e))

-- A steal is refused, or it splits the victim's claim strictly inside.
pub data Steal (p : Plan) (v : ClaimSlot) : Plan × Grant → Type 0 where
  refused : Steal p v (p, exhausted)
  split :
      (at : ℕ)
      → v.cursor < at
      → at < v.end
      → Steal p v (
        record p {
          slots = update v.id (ending at) p.slots ++ new_slot p at v.end ∷ [];
          next_id = suc p.next_id;
        },
        claim (new_slot p at v.end),
      )

pub steal_cases : (p : Plan) (v : ClaimSlot) → Steal p v (steal p v)
unfolding steal
steal_cases p v = elim (Bool-cases (ltb (remaining v) (min_segment * 2))) [
  | inl small ↦ rw small refused
  | inr large ↦ elim (Bool-cases (leb (split_point v) v.cursor || leb v.end (split_point v))) [
    | inl outside ↦ rw (large, outside) refused
    | inr inside ↦ rw (large, inside) (split (split_point v) (ground arith) (ground arith))
  ]
]

owners-Steal :
    (p : Plan) (v : ClaimSlot) (b : ℕ) {r : Plan × Grant}
    → StoreFrom 0 p.next_id p.slots
    → find v.id p.slots ≡ some v
    → v.active ≡ true
    → Steal p v r
    → owners r.0 b ≡ owners p b
owners-Steal p v b st f a refused = refl
owners-Steal p v b st f a (split at lo hi) =
    omega (arith, held_split p v at b st f a (omega arith) (omega arith))

pub request_free : (p : Plan) (i : ℕ) → longest p.free ≡ some i → request p ≡ take_free p i
unfolding request
request_free p i e = rw (e, request) refl

pub request_idle :
    (p : Plan) → longest p.free ≡ none → victim p.slots ≡ none → request p ≡ (p, exhausted)
unfolding request
request_idle p e n = rw (e, request) (rw n refl)

pub request-steal :
    (p : Plan) (v : ClaimSlot)
    → longest p.free ≡ none
    → victim p.slots ≡ some v
    → request p ≡ steal p v
unfolding request
request-steal p v e f = rw (e, request) (rw f refl)

-- Whatever `request` answers, each byte has as many owners as before; gaps are taken to fit u64, and
-- pointers to be distinct.
pub owners-request :
    (p : Plan) (b : ℕ)
    → AllFit p.free
    → StoreFrom 0 p.next_id p.slots
    → owners (request p).0 b ≡ owners p b
owners-request p b c st = elim (Option-cases (longest p.free)) [
  | inr (i, e) ↦ rw (request_free p i e) (owners-take_free p i b e c)
  | inl e ↦ elim (Option-cases (victim p.slots)) [
    | inl n ↦ rw (request_idle p e n) refl
    | inr (v, f) ↦
        let facts = victim-find 0 p.next_id p.slots v st f in
        rw (request-steal p v e f) (owners-Steal p v b st facts.0 facts.1 (steal_cases p v))
  ]
]
