-- ===== src/Headers/Consistent.antt =====
-- What a parsed `Content-Range` is known to satisfy, and the cap on `Retry-After`.
use ai_gen.Prelude.{
  ℕ, ◌≤◌, ◌<◌, ◌≡◌, Option, none, some, arith, ltb, IsU64, Text, trim, min64, trim_start,
  strip_prefix, split_once, parse_u64, parse_u64-IsU64, Bool-cases, Option-cases, inl, inr, refl,
}
use ai_gen.Headers.{
  ContentRange, bytes_unit, parse_total, consistent, checked, with_start, with_numbers, with_range,
  with_spec, bind, parse_content_range, parse_retry_after,
}

-- A total bounds the range, where there is one.
abbrev pub WithinTotal : ℕ → Option ℕ → Type 0
WithinTotal end none = Unit {0}
WithinTotal end (some t) = (end < t) × IsU64 t

pub record IsConsistent (r : ContentRange) : Type 0 where
  pub order : r.start ≤ r.end
  pub fits : IsU64 r.end
  pub within : WithinTotal r.end r.total

-- What holds of every result of the continuation holds of every result of `bind`.
bind_all :
    {A B : Type 0} (P : B → Type 0) (o : Option A) (f : A → Option B)
    → ((a : A) → o ≡ some a → (b : B) → f a ≡ some b → P b)
    → (b : B) → bind o f ≡ some b
    → P b
bind_all P none f k b h = ground arith
bind_all P (some a) f k b h = k a refl b h

consistent-IsConsistent :
    (start end : ℕ) (total : Option ℕ) (r : ContentRange)
    → start ≤ end
    → IsU64 end
    → ((t : ℕ) → total ≡ some t → IsU64 t)
    → consistent start end total ≡ some r
    → IsConsistent r
consistent-IsConsistent start end none r p u w h = record {
  order = ground arith;
  fits = ground arith;
  within = ground arith;
}
consistent-IsConsistent start end (some t) r p u w h = record {
  order = ground arith;
  fits = ground arith;
  within = ground (arith, w t refl);
}

parse_total-IsU64 :
    (s : Text) (total : Option ℕ) → parse_total s ≡ some total → (t : ℕ) → total ≡ some t → IsU64 t
parse_total-IsU64 s total h t e = elim (Option-cases (parse_u64 s)) [
  | inl n ↦ ground arith
  | inr (m, f) ↦ ground (arith, parse_u64-IsU64 s m f)
]

checked-IsConsistent :
    (start end : ℕ) (t : Text) (r : ContentRange)
    → IsU64 end
    → checked start end t ≡ some r
    → IsConsistent r
checked-IsConsistent start end t r u h = elim (Bool-cases (ltb end start)) [
  | inl early ↦ absurd (ground (arith, early))
  | inr order ↦
      bind_all IsConsistent (parse_total t) (λ total. consistent start end total)
        (λ total e r h.
          consistent-IsConsistent start end total r (ground arith) u (parse_total-IsU64 t total e)
            h)
        r (ground (arith, order))
]

with_range-IsConsistent :
    (p : Text × Text) (r : ContentRange) → with_range p ≡ some r → IsConsistent r
with_range-IsConsistent (range, total) =
    bind_all IsConsistent (split_once 45 (trim range)) (with_numbers total) (λ (a, b) _.
      bind_all IsConsistent (parse_u64 (trim a)) (with_start b total) (λ start _.
        bind_all IsConsistent (parse_u64 (trim b)) (λ end. checked start end (trim total))
          (λ end e r.
            checked-IsConsistent start end (trim total) r (parse_u64-IsU64 (trim b) end e))))

-- A range that is accepted does not end before it starts, nor at or past its own total, and its
-- numbers fit u64.
pub parse_content_range-IsConsistent :
    (v : Text) (r : ContentRange) → parse_content_range v ≡ some r → IsConsistent r
unfolding parse_content_range
parse_content_range-IsConsistent v =
    bind_all IsConsistent (strip_prefix bytes_unit (trim v)) (λ spec. with_spec (trim_start spec))
      (λ spec _.
        bind_all IsConsistent (split_once 47 (trim_start spec)) with_range
          (λ p _. with_range-IsConsistent p))

-- Whatever the header says, the wait is at most the cap.
pub parse_retry_after_le :
    (nanos_until : Text → Option ℕ) (v : Text) (cap d : ℕ)
    → parse_retry_after nanos_until v cap ≡ some d
    → d ≤ cap
unfolding parse_retry_after
parse_retry_after_le nanos_until v cap d h = elim (Option-cases (parse_u64 (trim v))) [
  | inl n ↦
      bind_all (λ d. d ≤ cap) (nanos_until (trim v)) (λ x. some (min64 x cap))
        (λ x e y k. ground arith) d (ground (arith, n))
  | inr (s, f) ↦ ground (arith, f)
]
