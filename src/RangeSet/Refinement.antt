-- ===== src/RangeSet/Refinement.antt =====
-- crates/swiftload-core/src/util/intervals.rs: the set over any series of its operations, saved and
-- read back in between, against the bytes it stands for, as a test on numbers.
use ai_gen.Prelude.{
  ℕ, ◌+◌, ◌≡◌, sym, ◌∙◌, ap, Bool, not, ◌&&◌, ◌||◌, Option, none, some, List, [], ◌∷◌, arith, ltb,
  IsU64,
}
use ai_gen.Prelude.Result.{Result, ok, err}
use mathlib.Core.Path.{subst⁻¹}
use ai_gen.RangeSet.{RangeSet, insert, remove, truncate_to}
use ai_gen.RangeSet.Canonical.{in_range, covers, IsCanonical, CanonicalFrom-DisjointFrom}
use ai_gen.RangeSet.Insert.{covers-insert, insert-IsCanonical}
use ai_gen.RangeSet.Trim.{covers-remove, covers-truncate}
use ai_gen.RangeSet.Extensional.{covers-extensional}
use ai_gen.RangeSet.Codec.{DecodeError, encode, decode}
use ai_gen.RangeSet.Codec.RoundTrip.{decode-encode}

pub data Op : Type 0 where
  add take_away : (start len : ℕ) → Op
  cut : (limit : ℕ) → Op
  reload : Op

abbrev pub loaded : Option (Result DecodeError RangeSet) → RangeSet
loaded none = []
loaded (some (err e)) = []
loaded (some (ok xs)) = xs

abbrev pub apply : Op → RangeSet → RangeSet
apply (add start len) xs = insert xs start len
apply (take_away start len) xs = remove xs start len
apply (cut limit) xs = truncate_to xs limit
apply reload xs = loaded (decode (encode xs))

unfoldable pub apply_all : List Op → RangeSet → RangeSet
apply_all [] xs = xs
apply_all (op ∷ ops) xs = apply_all ops (apply op xs)

-- The same on the set of bytes.
abbrev pub Bytes : Type 0
Bytes = ℕ → Bool

abbrev pub effect : Op → Bytes → Bytes
effect (add start len) f b = f b || in_range b start len
effect (take_away start len) f b = f b && not (in_range b start len)
effect (cut limit) f b = f b && ltb b limit
effect reload f b = f b

unfoldable pub replay : List Op → Bytes → Bytes
replay [] f = f
replay (op ∷ ops) f = replay ops (effect op f)

-- The ranges end within u64.
abbrev pub IsFit : Op → Type 0
IsFit (add start len) = IsU64 (start + len)
IsFit (take_away start len) = IsU64 (start + len)
IsFit (cut limit) = Unit {0}
IsFit reload = Unit {0}

abbrev pub AllFit : List Op → Type 0
AllFit [] = Unit {0}
AllFit (op ∷ ops) = IsFit op × AllFit ops

-- A set in canonical form that stands for the bytes.
pub record Stands (xs : RangeSet) (f : Bytes) : Type 0 where
  pub canonical : IsCanonical xs
  pub same : (b : ℕ) → covers xs b ≡ f b

apply-Stands :
    (op : Op) (xs : RangeSet) (f : Bytes)
    → IsFit op
    → Stands xs f
    → Stands (apply op xs) (effect op f)
apply-Stands (add s l) xs f fit h = record {
  canonical = insert-IsCanonical xs s l h.canonical fit;
  same = λ b. covers-insert xs s l b h.canonical fit ∙ ap (λ v. v || in_range b s l) (h.same b);
}
apply-Stands (take_away s l) xs f fit h = record {
  canonical = (covers-remove xs s l 0 h.canonical fit).1;
  same = λ b.
      (covers-remove xs s l b h.canonical fit).0 ∙ ap (λ v. v && not (in_range b s l)) (h.same b);
}
apply-Stands (cut n) xs f fit h = record {
  canonical = (covers-truncate xs n 0 h.canonical).1;
  same = λ b. (covers-truncate xs n b h.canonical).0 ∙ ap (λ v. v && ltb b n) (h.same b);
}
apply-Stands reload xs f fit h =
    let read = decode-encode xs (CanonicalFrom-DisjointFrom 0 0 xs (omega arith) h.canonical) in
    subst⁻¹ (λ r. Stands (loaded r) f) read h

-- Any series of insertions, removals and truncations whose ranges end within u64, with the set encoded
-- and decoded at any point between, gives a canonical set that covers exactly the bytes that the same
-- series gives on the set of bytes.
pub apply_all-Stands :
    (ops : List Op) (xs : RangeSet) (f : Bytes)
    → AllFit ops
    → Stands xs f
    → Stands (apply_all ops xs) (replay ops f)
unfolding apply_all replay
apply_all-Stands [] xs f fit h = h
apply_all-Stands (op ∷ ops) xs f fit h =
    apply_all-Stands ops (apply op xs) (effect op f) fit.1 (apply-Stands op xs f fit.0 h)

-- Two series that give the same bytes give the same spans, so the representation is unique.
pub apply_all-replay :
    (ops others : List Op) (xs : RangeSet) (f : Bytes)
    → AllFit ops
    → AllFit others
    → Stands xs f
    → ((b : ℕ) → replay ops f b ≡ replay others f b)
    → apply_all ops xs ≡ apply_all others xs
apply_all-replay ops others xs f fit fits h e =
    let one = apply_all-Stands ops xs f fit h in
    let two = apply_all-Stands others xs f fits h in
    covers-extensional (apply_all ops xs) (apply_all others xs) one.canonical two.canonical
      (λ b. one.same b ∙ e b ∙ sym (two.same b))
