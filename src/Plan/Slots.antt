-- ===== src/Plan/Slots.antt =====
-- The store of claims: how many active claims hold a byte, and what the updates do to that.
use ai_gen.Prelude.{
  ℕ, suc, ◌+◌, ◌≤◌, ◌<◌, ◌≡◌, refl, Bool, true, ◌&&◌, some, List, [], ◌∷◌, ◌++◌, arith, ltb, leb,
  IsU64, inl, inr, Option-cases,
}
use ai_gen.Plan.{deactivated, ClaimSlot, update, retain, find, victim}
use ai_gen.Plan.Spans.{bit}

abbrev pub holds : ClaimSlot → ℕ → Bool
holds s b = s.active && leb s.cursor b && ltb b s.end

-- How many active claims hold byte `b`.
abbrev pub held : List ClaimSlot → ℕ → ℕ
held [] b = 0
held (s ∷ ss) b = bit (holds s b) + held ss b

-- Pointers are distinct: each is at least `low`, later ones are larger, and all lie below `next`;
-- cursors and ends are
-- u64s, and all claims are active.
abbrev pub StoreFrom : ℕ → ℕ → List ClaimSlot → Type 0
StoreFrom low next [] = Unit
StoreFrom low next (s ∷ ss) =
    (low ≤ s.id)
    × (s.id < next)
    × IsU64 s.cursor
    × IsU64 s.end
    × (s.active ≡ true)
    × StoreFrom (suc s.id) next ss

pub held-append : (ss ts : List ClaimSlot) (b : ℕ) → held (ss ++ ts) b ≡ held ss b + held ts b
held-append [] ts b = omega arith
held-append (s ∷ ss) ts b = omega (arith, held-append ss ts b)

pub StoreFrom-push :
    (low next : ℕ) (ss : List ClaimSlot) (c e : ℕ)
    → low ≤ next
    → StoreFrom low next ss
    → IsU64 c
    → IsU64 e
    → StoreFrom low (suc next) (ss ++ record { id = next; cursor = c; end = e; active = true } ∷ [])
StoreFrom-push low next [] c e h st p q = (h, omega arith, p, q, refl, tt)
StoreFrom-push low next (s ∷ ss) c e h st p q = (
  st.0,
  omega arith,
  st.2,
  st.3,
  st.4,
  StoreFrom-push (suc s.id) next ss c e (omega arith) st.5 p q,
)

-- A store to one slot keeps the pointers, where the new fields are u64s.
pub update-StoreFrom :
    (low next id : ℕ) (f : ClaimSlot → ClaimSlot) (ss : List ClaimSlot)
    → ((s : ClaimSlot)
        → IsU64 s.cursor
        → IsU64 s.end
        → ((f s).id ≡ s.id) × IsU64 (f s).cursor × IsU64 (f s).end × ((f s).active ≡ s.active))
    → StoreFrom low next ss
    → StoreFrom low next (update id f ss)
unfolding update
update-StoreFrom low next id f [] h st = tt
update-StoreFrom low next id f (s ∷ ss) h st =
    let rest = update-StoreFrom (suc s.id) next id f ss h st.5 in
    ground (arith, h s st.2 st.3, rest)

-- A pointer below all of the store's changes nothing.
update_absent :
    (low next id b : ℕ) (f : ClaimSlot → ClaimSlot) (ss : List ClaimSlot)
    → StoreFrom low next ss
    → id < low
    → held (update id f ss) b ≡ held ss b
unfolding update
update_absent low next id b f [] st h = refl
update_absent low next id b f (s ∷ ss) st h =
    ground (arith, update_absent (suc s.id) next id b f ss st.5)

-- A store to the slot that is found changes what that one slot holds.
pub held-update :
    (low next id b : ℕ) (f : ClaimSlot → ClaimSlot) (ss : List ClaimSlot) (s : ClaimSlot)
    → StoreFrom low next ss
    → find id ss ≡ some s
    → held (update id f ss) b + bit (holds s b) ≡ held ss b + bit (holds (f s) b)
unfolding update find
held-update low next id b f [] s st e = cc
held-update low next id b f (t ∷ ss) s st e = ground (
  arith,
  update_absent (suc t.id) next id b f ss st.5,
  held-update (suc t.id) next id b f ss s st.5,
)

pub victim-find :
    (low next : ℕ) (ss : List ClaimSlot) (v : ClaimSlot)
    → StoreFrom low next ss
    → victim ss ≡ some v
    → (find v.id ss ≡ some v) × (v.active ≡ true) × (low ≤ v.id) × IsU64 v.cursor × IsU64 v.end
unfolding victim find
victim-find low next [] v st e = cc
victim-find low next (s ∷ ss) v st e = elim (Option-cases (victim ss)) [
  | inl p ↦ ground arith
  | inr (t, p) ↦ ground (arith, victim-find (suc s.id) next ss t st.5 p)
]

released_absent :
    (low next id b : ℕ) (ss : List ClaimSlot)
    → StoreFrom low next ss
    → id < low
    → held (retain id (update id deactivated ss)) b ≡ held ss b
unfolding update retain
released_absent low next id b [] st h = refl
released_absent low next id b (s ∷ ss) st h =
    ground (arith, released_absent (suc s.id) next id b ss st.5)

-- Deactivating a slot and dropping it takes away what it held, and no more.
pub held_released :
    (low next id b : ℕ) (ss : List ClaimSlot) (s : ClaimSlot)
    → StoreFrom low next ss
    → find id ss ≡ some s
    → held (retain id (update id deactivated ss)) b + bit (holds s b) ≡ held ss b
unfolding update retain find
held_released low next id b [] s st e = cc
held_released low next id b (t ∷ ss) s st e = ground (
  arith,
  released_absent (suc t.id) next id b ss st.5,
  held_released (suc t.id) next id b ss s st.5,
)

StoreFrom-mono :
    (low low' next : ℕ) (ss : List ClaimSlot)
    → low' ≤ low
    → StoreFrom low next ss
    → StoreFrom low' next ss
StoreFrom-mono low low' next [] h st = tt
StoreFrom-mono low low' next (s ∷ ss) h st = (omega arith, st.1, st.2, st.3, st.4, st.5)

pub released-StoreFrom :
    (low next id : ℕ) (ss : List ClaimSlot)
    → StoreFrom low next ss
    → StoreFrom low next (retain id (update id deactivated ss))
unfolding update retain
released-StoreFrom low next id [] st = tt
released-StoreFrom low next id (s ∷ ss) st =
    let rest = released-StoreFrom (suc s.id) next id ss st.5 in
    ground (arith, rest, StoreFrom-mono (suc s.id) low next (retain id (update id deactivated ss)))

pub find-StoreFrom :
    (low next id : ℕ) (ss : List ClaimSlot) (s : ClaimSlot)
    → StoreFrom low next ss
    → find id ss ≡ some s
    → (s.id ≡ id) × IsU64 s.cursor × IsU64 s.end × (s.active ≡ true)
unfolding find
find-StoreFrom low next id [] s st e = cc
find-StoreFrom low next id (t ∷ ss) s st e =
    ground (arith, find-StoreFrom (suc t.id) next id ss s st.5)
