-- ===== src/Writer/Complete.antt =====
-- A flush that succeeds has written all that was pending, and nothing else.
use ai_gen.Prelude.{
  ℕ, ◌+◌, ◌≡◌, Bool, true, false, ◌&&◌, ◌||◌, List, [], ◌∷◌, ◌++◌, refl, sym, ap, ◌∙◌, arith, leb,
  ◌==◌, length, length-append, add64, IsU64, Bool-cases, inl, inr,
}
use mathlib.Core.Path.{subst}
use ai_gen.RangeSet.{RangeSet, insert}
use ai_gen.RangeSet.Canonical.{covers, in_range, IsCanonical}
use ai_gen.RangeSet.Insert.{covers-insert, insert-IsCanonical}
use ai_gen.Worker.{Write}
use ai_gen.Writer.{
  max_coalesce, Writer, insert_write, sort_by_offset, write_out, and_then, flush_loop, flush_chunks,
  flush_pending,
}
use ai_gen.Writer.Effects.{AllFit, sort_by_offset-AllFit}

-- Byte `b` is in one of the chunks.
abbrev pub has : List Write → ℕ → Bool
has [] b = false
has (c ∷ cs) b = in_range b c.offset (length c.bytes) || has cs b

-- The set after a flush has what it had, and what `extra` says.
record Grown (before : RangeSet) (extra : ℕ → Bool) (after : RangeSet) : Type 0 where
  canonical : IsCanonical after
  same : (b : ℕ) → covers after b ≡ (covers before b || extra b)

has-insert_write :
    (c : Write) (cs : List Write) (b : ℕ)
    → has (insert_write c cs) b ≡ (in_range b c.offset (length c.bytes) || has cs b)
unfolding insert_write
has-insert_write c [] b = refl
has-insert_write c (d ∷ ds) b = elim (Bool-cases (leb c.offset d.offset)) [
  | inl first ↦ rw first refl
  | inr behind ↦ rw behind (ground (arith, has-insert_write c ds b))
]

has-sort_by_offset : (cs : List Write) (b : ℕ) → has (sort_by_offset cs) b ≡ has cs b
unfolding sort_by_offset
has-sort_by_offset [] b = refl
has-sort_by_offset (c ∷ cs) b =
    has-insert_write c (sort_by_offset cs) b
    ∙ ap (λ h. in_range b c.offset (length c.bytes) || h) (has-sort_by_offset cs b)

write_out-Grown :
    (io : ℕ → Bool) (w : Writer) (start : ℕ) (buf : List ℕ)
    → IsU64 (start + length buf)
    → IsCanonical w.done
    → Grown w.done (λ b. in_range b start (length buf)) (insert w.done start (length buf))
write_out-Grown io w start buf u c = record {
  canonical = insert-IsCanonical w.done start (length buf) c u;
  same = λ b. covers-insert w.done start (length buf) b c u;
}

or_assoc : (a b c : Bool) → ((a || b) || c) ≡ (a || (b || c))
or_assoc a b c = ground arith

joined :
    (b start n m : ℕ) → in_range b start (n + m) ≡ (in_range b start n || in_range b (start + n) m)
joined b start n m = ground arith

or_nothing : (a r : Bool) → (a || r) ≡ (a || (r || false))
or_nothing a r = ground arith

none_in : (b start : ℕ) → in_range b start 0 ≡ false
none_in b start = ground arith

-- Writing the buffer, and then whatever `f` does.
and_then-Grown :
    (io : ℕ → Bool) (w : Writer) (start : ℕ) (buf : List ℕ) (extra : ℕ → Bool)
    (f : Writer → Writer × Bool)
    → IsU64 (start + length buf)
    → IsCanonical w.done
    → ((v : Writer) → IsCanonical v.done → (f v).1 ≡ true → Grown v.done extra (f v).0.done)
    → (and_then (write_out io w start buf) f).1 ≡ true
    → Grown w.done
        (λ b. in_range b start (length buf) || extra b)
        (and_then (write_out io w start buf) f).0.done
unfolding write_out
and_then-Grown io w start buf extra f u c k h = elim (Bool-cases (io (length w.log))) [
  | inr fails ↦ absurd (ground (arith, rw fails at h))
  | inl works ↦
      let g = write_out-Grown io w start buf u c in
      let l = k _ g.canonical (rw works at h) in
      rw works (record {
        canonical = l.canonical;
        same = λ b.
            l.same b
            ∙ ap (λ r. r || extra b) (g.same b)
            ∙ or_assoc (covers w.done b) (in_range b start (length buf)) (extra b);
      })
]

merged-Grown :
    (before after : RangeSet) (start : ℕ) (buf : List ℕ) (d : Write) (ds : List Write)
    → start + length buf ≡ d.offset
    → Grown before (λ b. in_range b start (length (buf ++ d.bytes)) || has ds b) after
    → Grown before (λ b. in_range b start (length buf) || has (d ∷ ds) b) after
merged-Grown before after start buf d ds e g = record {
  canonical = g.canonical;
  same = λ b.
      let n = length buf in
      let m = length d.bytes in
      let both : in_range b start (length (buf ++ d.bytes))
          ≡ (in_range b start n || in_range b d.offset m) =
        ap (in_range b start) (length-append buf d.bytes)
        ∙ joined b start n m
        ∙ ap (λ o. in_range b start n || in_range b o m) e in
      g.same b
      ∙ ap (λ r. covers before b || (r || has ds b)) both
      ∙ ap (λ r. covers before b || r)
          (or_assoc (in_range b start n) (in_range b d.offset m) (has ds b));
}

flush_loop-Grown :
    (io : ℕ → Bool) (w : Writer) (start : ℕ) (buf : List ℕ) (cs : List Write)
    → IsU64 (start + length buf)
    → AllFit cs
    → IsCanonical w.done
    → (flush_loop io w start buf cs).1 ≡ true
    → Grown w.done
        (λ b. in_range b start (length buf) || has cs b)
        (flush_loop io w start buf cs).0.done
unfolding flush_loop write_out
flush_loop-Grown io w start [] [] u f c h = record { canonical = c; same = λ b. ground arith }
flush_loop-Grown io w start (x ∷ buf) [] u f c h = elim (Bool-cases (io (length w.log))) [
  | inr fails ↦ absurd (ground (arith, rw fails at h))
  | inl works ↦
      let g = write_out-Grown io w start (x ∷ buf) u c in
      rw works (record { canonical = g.canonical; same = λ b. g.same b ∙ or_nothing _ _ })
]
flush_loop-Grown io w start [] (d ∷ ds) u f c h =
    let g = flush_loop-Grown io w d.offset d.bytes ds f.0 f.1 c h in
    record {
      canonical = g.canonical;
      same = λ b.
          g.same b ∙ ap (λ e. covers w.done b || (e || has (d ∷ ds) b)) (sym (none_in b start));
    }
flush_loop-Grown io w start (x ∷ buf) (d ∷ ds) u f c h =
    elim (Bool-cases (
      add64 start (length (x ∷ buf)) == d.offset
      && leb (length (x ∷ buf) + length d.bytes) max_coalesce)) [
        | inl merged ↦
            let e : start + length (x ∷ buf) ≡ d.offset = ground (arith, merged) in
            let fits : IsU64 (start + length ((x ∷ buf) ++ d.bytes)) =
              omega (arith, length-append (x ∷ buf) d.bytes, f.0, e) in
            rw merged (
              merged-Grown w.done _ start (x ∷ buf) d ds e
                (flush_loop-Grown io w start ((x ∷ buf) ++ d.bytes) ds fits f.1 c (rw merged at h)))
        | inr apart ↦ rw apart (
            and_then-Grown io w start (x ∷ buf) (has (d ∷ ds))
              (λ v. flush_loop io v d.offset d.bytes ds) u c
              (λ v cv hv. flush_loop-Grown io v d.offset d.bytes ds f.0 f.1 cv hv) (rw apart at h))
      ]

and_then_ok :
    (p : Writer × Bool) (f : Writer → Writer × Bool)
    → (and_then p f).1 ≡ true
    → (p.1 ≡ true) × (and_then p f ≡ f p.0)
and_then_ok (w, true) f h = (refl, refl)
and_then_ok (w, false) f h = ground arith

flush_chunks-Grown :
    (io : ℕ → Bool) (w : Writer) (cs : List Write)
    → AllFit cs
    → IsCanonical w.done
    → (flush_chunks io w cs).1 ≡ true
    → Grown w.done (has cs) (flush_chunks io w cs).0.done
unfolding flush_chunks
flush_chunks-Grown io w [] f c h = record { canonical = c; same = λ b. ground arith }
flush_chunks-Grown io w (d ∷ ds) f c h =
    let sorted = sort_by_offset (d ∷ ds) in
    let empty : Writer = record w { pending = [] } in
    let ok =
      and_then_ok (flush_loop io empty 0 [] sorted) (λ v. (record v { pending_bytes = 0 }, true))
        h in
    let g =
      flush_loop-Grown io empty 0 [] sorted (omega arith) (sort_by_offset-AllFit (d ∷ ds) f) c
        ok.0 in
    subst (λ r. Grown w.done (has (d ∷ ds)) r.0.done) (sym ok.1)
      (record {
        canonical = g.canonical;
        same = λ b.
            g.same b
            ∙ ap (λ e. covers w.done b || (e || has sorted b)) (none_in b 0)
            ∙ ap (λ e. covers w.done b || e) (has-sort_by_offset (d ∷ ds) b);
      })

-- A flush that succeeds leaves a canonical set with exactly the bytes that it had and those of the
-- chunks that were pending; the chunks are taken to end within u64, and the set to be canonical.
pub flush_pending_complete :
    (io : ℕ → Bool) (w : Writer)
    → AllFit w.pending
    → IsCanonical w.done
    → (flush_pending io w).1 ≡ true
    → IsCanonical (flush_pending io w).0.done
      × ((b : ℕ) → covers (flush_pending io w).0.done b ≡ (covers w.done b || has w.pending b))
flush_pending_complete io w f c h =
    let g = flush_chunks-Grown io w w.pending f c h in (g.canonical, g.same)
