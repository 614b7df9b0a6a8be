-- ===== src/RangeSet/Contains.antt =====
-- `contains_all`, which looks for one span that holds the whole query.
use ai_gen.Prelude.{ℕ, ◌+◌, ◌≤◌, ◌<◌, ◌≡◌, ◌↔◌, true, [], ◌∷◌, arith, IsU64, dec_lt}
use ai_gen.RangeSet.{RangeSet, contains_all}
use ai_gen.RangeSet.Canonical.{covers, CanonicalFrom, IsCanonical, covers-below}

abbrev AllCovered : RangeSet → ℕ → ℕ → Type 0
AllCovered xs start end = (b : ℕ) → start ≤ b → b < end → covers xs b ≡ true

contains_all_sound :
    (low s e b : ℕ) (xs : RangeSet)
    → CanonicalFrom low xs
    → IsU64 e
    → contains_all xs s e ≡ true
    → s ≤ b
    → b < e
    → covers xs b ≡ true
unfolding contains_all
contains_all_sound low s e b [] c u h p q = ground arith
contains_all_sound low s e b (x ∷ xs) c u h p q =
    ground (arith, contains_all_sound (x.start + x.len + 1) s e b xs)

contains_all_complete :
    (low s e : ℕ) (xs : RangeSet)
    → CanonicalFrom low xs
    → IsU64 e
    → AllCovered xs s e
    → contains_all xs s e ≡ true
unfolding contains_all
contains_all_complete low s e [] c u h = ground (arith, h s)
contains_all_complete low s e (x ∷ xs) c u h = elim (dec_lt s (x.start + x.len)) [
  | yes inside ↦ ground (
    arith,
    h s,
    h (x.start + x.len),
    covers-below (x.start + x.len + 1) xs s,
    covers-below (x.start + x.len + 1) xs (x.start + x.len),
  )
  | no past ↦ ground (
    arith,
    contains_all_complete (x.start + x.len + 1) s e xs c.3 u (λ b p q. ground (arith, h b p q)),
  )
]

-- On a canonical set, for an end within u64, the query holds exactly if every byte from `start` up
-- to `end` is covered.
pub contains_all_iff :
    (xs : RangeSet) (start end : ℕ)
    → IsCanonical xs
    → IsU64 end
    → (contains_all xs start end ≡ true) ↔ ((b : ℕ) → start ≤ b → b < end → covers xs b ≡ true)
contains_all_iff xs s e c u =
    (λ h b p q. contains_all_sound 0 s e b xs c u h p q, contains_all_complete 0 s e xs c u)
