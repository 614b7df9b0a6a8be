-- ===== src/Plan/Invariant.antt =====
-- The invariant of a plan, kept by each method, and the histories of a plan and its workers.
use ai_gen.Prelude.{
  ℕ, ◌+◌, ◌-◌, ◌≤◌, ◌<◌, ◌≡◌, refl, ltb_of_lt, ltb_of_le, sym, none, some, List, [], ◌∷◌, ◌++◌,
  arith, IsU64, ◌∙◌, inl, inr, Option-cases, sub64, dec_lt,
}
use mathlib.Core.Path.{subst}
use ai_gen.RangeSet.{Span}
use ai_gen.RangeSet.Canonical.{in_range, DisjointFrom, IsCanonical}
use ai_gen.Plan.{
  deactivated, ClaimSlot, Plan, Grant, victim, take_free, request, find, give_back, update, retain,
  release, ending,
}
use ai_gen.Plan.Pieces.{longest, sort_by_start}
use ai_gen.Plan.Spans.{
  bit, hits, AllFit, hits-append, AllFit-append, longest_bound, AllFit-without, AllFit-at,
  hits-sort_by_start, sort_by_start-AllFit, sort_by_start-SortedFrom, sorted-DisjointFrom,
  merge_free-IsCanonical, hits-merge_free, CanonicalFrom-AllFit,
}
use ai_gen.Plan.Slots.{
  StoreFrom, StoreFrom-push, update-StoreFrom, victim-find, held_released, released-StoreFrom,
  find-StoreFrom,
}
use ai_gen.Plan.Owners.{
  owners, IsValid, owners-request, Steal, refused, split, steal_cases, request_free, request_idle,
  request-steal,
}

-- The shape of a plan, without the claim that no byte has two owners.
abbrev IsWellFormed : Plan → Type 0
IsWellFormed p = AllFit p.free × StoreFrom 0 p.next_id p.slots

take_free-IsWellFormed :
    (p : Plan) (i : ℕ) → longest p.free ≡ some i → IsWellFormed p → IsWellFormed (take_free p i).0
unfolding take_free
take_free-IsWellFormed p i e (c, st) =
    let piece = AllFit-at p.free i (longest_bound p.free i e) c in
    (
      AllFit-without p.free i c,
      StoreFrom-push 0 p.next_id p.slots _ _ (omega arith) st (omega arith) (omega arith),
    )

Steal-IsWellFormed :
    (p : Plan) (v : ClaimSlot) {r : Plan × Grant}
    → IsU64 v.end
    → IsWellFormed p
    → Steal p v r
    → IsWellFormed r.0
Steal-IsWellFormed p v u w refused = w
Steal-IsWellFormed p v u (c, st) (split at lo hi) =
    let kept =
      update-StoreFrom 0 p.next_id v.id (ending at) p.slots (λ s p q. (refl, p, omega arith, refl))
        st in
    (c, StoreFrom-push 0 p.next_id _ at v.end (omega arith) kept (omega arith) u)

request-IsWellFormed : (p : Plan) → IsWellFormed p → IsWellFormed (request p).0
request-IsWellFormed p w = elim (Option-cases (longest p.free)) [
  | inr (i, e) ↦ rw (request_free p i e) (take_free-IsWellFormed p i e w)
  | inl e ↦ elim (Option-cases (victim p.slots)) [
    | inl n ↦ rw (request_idle p e n) w
    | inr (v, f) ↦
        let facts = victim-find 0 p.next_id p.slots v w.1 f in
        rw (request-steal p v e f) (Steal-IsWellFormed p v facts.4 w (steal_cases p v))
  ]
]

pub request-IsValid : (p : Plan) → IsValid p → IsValid (request p).0
request-IsValid p v =
    let w = request-IsWellFormed p (v.fits, v.store) in
    record {
      fits = w.0;
      store = w.1;
      exclusive = λ b. omega (arith, owners-request p b v.fits v.store, v.exclusive b);
    }

-- Giving a range back to the gaps, where no gap holds any of it.
hits-give_back :
    (free : List Span) (s l : ℕ)
    → AllFit free
    → 0 < l
    → IsU64 (s + l)
    → ((b : ℕ) → hits free b + bit (in_range b s l) ≤ 1)
    → ((b : ℕ) → hits (give_back free s l) b ≡ hits free b + bit (in_range b s l))
      × IsCanonical (give_back free s l)
unfolding give_back
hits-give_back free s l c p u h =
    let back : List Span = free ++ record { start = s; len = l } ∷ [] in
    let fits : AllFit back = AllFit-append free _ c (p, u, tt) in
    let same : (b : ℕ) → hits (sort_by_start back) b ≡ hits free b + bit (in_range b s l) = λ b.
      hits-sort_by_start back b
      ∙ omega (arith, hits-append free (record { start = s; len = l } ∷ []) b) in
    let apart : DisjointFrom 0 (sort_by_start back) =
      sorted-DisjointFrom 0 (sort_by_start back) (sort_by_start-SortedFrom back)
        (sort_by_start-AllFit back fits) (λ b. omega (arith, same b, h b)) in
    (
      λ b. hits-merge_free (sort_by_start back) b apart ∙ same b,
      merge_free-IsCanonical (sort_by_start back) apart,
    )

-- The plan after a release, by what was left of the claim.
released : Plan → ℕ → List Span → Plan
released p id free = record p { free = free; slots = retain id (update id deactivated p.slots) }

release_left :
    (p : Plan) (id : ℕ) (s : ClaimSlot)
    → find id p.slots ≡ some s
    → IsU64 s.end
    → s.cursor < s.end
    → release p id ≡ released p id (give_back p.free s.cursor (s.end - s.cursor))
unfolding release released
release_left p id s e u h =
    let short : sub64 s.end s.cursor ≡ s.end - s.cursor = omega arith in
    rw (e, release) (rw (ltb_of_lt s.cursor s.end h, short) refl)

release_empty :
    (p : Plan) (id : ℕ) (s : ClaimSlot)
    → find id p.slots ≡ some s
    → s.end ≤ s.cursor
    → release p id ≡ released p id p.free
unfolding release released
release_empty p id s e h = rw (e, release) (rw (ltb_of_le s.cursor s.end h) refl)

release_absent : (p : Plan) (id : ℕ) → find id p.slots ≡ none → release p id ≡ p
unfolding release
release_absent p id e = rw (e, release) refl

-- `q` is well formed, and each byte has as many owners in it as in `p`.
record Keeps (p q : Plan) : Type 0 where
  fits : AllFit q.free
  store : StoreFrom 0 q.next_id q.slots
  same : (b : ℕ) → owners q b ≡ owners p b

Keeps-IsValid : (p q : Plan) → IsValid p → Keeps p q → IsValid q
Keeps-IsValid p q v k = record {
  fits = k.fits;
  store = k.store;
  exclusive = λ b. omega (arith, k.same b, v.exclusive b);
}

release_left-Keeps :
    (p : Plan) (id : ℕ) (s : ClaimSlot)
    → IsValid p
    → find id p.slots ≡ some s
    → s.cursor < s.end
    → Keeps p (released p id (give_back p.free s.cursor (s.end - s.cursor)))
unfolding released
release_left-Keeps p id s v e left =
    let facts = find-StoreFrom 0 p.next_id id p.slots s v.store e in
    let kept = λ (b : ℕ). held_released 0 p.next_id id b p.slots s v.store e in
    let room : ((b : ℕ) → hits p.free b + bit (in_range b s.cursor (s.end - s.cursor)) ≤ 1) =
      λ b. ground (arith, kept b, v.exclusive b) in
    let back =
      hits-give_back p.free s.cursor (s.end - s.cursor) v.fits (omega arith) (omega arith) room in
    record {
      fits = CanonicalFrom-AllFit 0 _ back.1;
      store = released-StoreFrom 0 p.next_id id p.slots v.store;
      same = λ b. ground (arith, kept b, back.0 b);
    }

release_empty-Keeps :
    (p : Plan) (id : ℕ) (s : ClaimSlot)
    → IsValid p
    → find id p.slots ≡ some s
    → s.end ≤ s.cursor
    → Keeps p (released p id p.free)
unfolding released
release_empty-Keeps p id s v e none_left =
    let kept = λ (b : ℕ). held_released 0 p.next_id id b p.slots s v.store e in
    record {
      fits = v.fits;
      store = released-StoreFrom 0 p.next_id id p.slots v.store;
      same = λ b. ground (arith, kept b);
    }

Keeps-self : (p : Plan) → IsValid p → Keeps p p
Keeps-self p v = record { fits = v.fits; store = v.store; same = λ b. refl }

release-Keeps : (p : Plan) (id : ℕ) → IsValid p → Keeps p (release p id)
release-Keeps p id v = elim (Option-cases (find id p.slots)) [
  | inl e ↦ subst (Keeps p) (sym (release_absent p id e)) (Keeps-self p v)
  | inr (s, e) ↦
      let facts = find-StoreFrom 0 p.next_id id p.slots s v.store e in
      elim (dec_lt s.cursor s.end) [
        | yes left ↦
            subst (Keeps p) (sym (release_left p id s e facts.2 left))
              (release_left-Keeps p id s v e left)
        | no done ↦
            subst (Keeps p) (sym (release_empty p id s e (omega arith)))
              (release_empty-Keeps p id s v e (omega arith))
      ]
]

-- Releasing a claim of a valid plan leaves each byte as many owners as it had, and the plan valid.
pub release-IsValid :
    (p : Plan) (id : ℕ)
    → IsValid p
    → ((b : ℕ) → owners (release p id) b ≡ owners p b) × IsValid (release p id)
release-IsValid p id v =
    let kept = release-Keeps p id v in (kept.same, Keeps-IsValid p (release p id) v kept)
