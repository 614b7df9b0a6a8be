-- ===== src/Writer/Effects.antt =====
-- The effects of the writer, and what holds of its log and its set between them.
use ai_gen.Prelude.{
  ℕ, suc, ◌+◌, ◌≡◌, Bool, true, false, ◌&&◌, ◌||◌, List, [], ◌∷◌, ◌++◌, sym, ◌∙◌, arith, leb, ◌==◌,
  length, length-append, add64, IsU64, Bool-cases, inl, inr,
}
use ai_gen.RangeSet.{RangeSet, total}
use ai_gen.RangeSet.Canonical.{covers, in_range, IsCanonical}
use ai_gen.RangeSet.Insert.{covers-insert, insert-IsCanonical}
use ai_gen.Worker.{Write}
use ai_gen.Writer.{
  max_coalesce, Effect, wrote, synced, checkpointed, Writer, insert_write, sort_by_offset,
  write_out, and_then, flush_loop, flush_chunks, durable_checkpoint, Run, or_return, reset, start,
}

-- Byte `b` was written.
abbrev pub logged : List Effect → ℕ → Bool
logged [] b = false
logged (wrote start bytes ∷ es) b = in_range b start (length bytes) || logged es b
logged (synced ∷ es) b = logged es b
logged (checkpointed s n ∷ es) b = logged es b

-- The log behind a checkpoint of `s` begins with a sync, and all of `s` was there or written by then.
abbrev pub Backed : RangeSet → RangeSet → List Effect → Type 0
Backed initial s [] = true ≡ false
Backed initial s (wrote start bytes ∷ es) = true ≡ false
Backed initial s (synced ∷ es) =
    (b : ℕ) → covers s b ≡ true → (covers initial b || logged es b) ≡ true
Backed initial s (checkpointed t n ∷ es) = true ≡ false

abbrev pub AllBacked : RangeSet → List Effect → Type 0
AllBacked initial [] = Unit {0}
AllBacked initial (wrote start bytes ∷ es) = AllBacked initial es
AllBacked initial (synced ∷ es) = AllBacked initial es
AllBacked initial (checkpointed s n ∷ es) = Backed initial s es × AllBacked initial es

-- Every chunk ends within u64.
abbrev pub AllFit : List Write → Type 0
AllFit [] = Unit {0}
AllFit (c ∷ cs) = IsU64 (c.offset + length c.bytes) × AllFit cs

pub record Inv (initial : RangeSet) (w : Writer) : Type 0 where
  pub canonical : IsCanonical w.done
  pub same : (b : ℕ) → covers w.done b ≡ (covers initial b || logged w.log b)
  pub backed : AllBacked initial w.log
  pub fits : AllFit w.pending

or_swap : (a i l r : Bool) → a ≡ (i || l) → (a || r) ≡ (i || (r || l))
or_swap a i l r h = ground arith

write_out-Inv :
    (io : ℕ → Bool) (initial : RangeSet) (w : Writer) (start : ℕ) (buf : List ℕ)
    → IsU64 (start + length buf)
    → Inv initial w
    → Inv initial (write_out io w start buf).0
unfolding write_out
write_out-Inv io initial w start buf u i = elim (Bool-cases (io (length w.log))) [
  | inr fails ↦ rw fails i
  | inl works ↦ rw works (record {
    canonical = insert-IsCanonical w.done start (length buf) i.canonical u;
    same = λ b.
        covers-insert w.done start (length buf) b i.canonical u
        ∙ or_swap (covers w.done b) (covers initial b) (logged w.log b)
            (in_range b start (length buf)) (i.same b);
    backed = i.backed;
    fits = i.fits;
  })
]

pub and_then-Inv :
    (initial : RangeSet) (p : Writer × Bool) (f : Writer → Writer × Bool)
    → Inv initial p.0
    → ((w : Writer) → Inv initial w → Inv initial (f w).0)
    → Inv initial (and_then p f).0
and_then-Inv initial (w, true) f i k = k w i
and_then-Inv initial (w, false) f i k = i

pub or_return-Inv :
    (initial : RangeSet) (p : Writer × Bool) (f : Writer → Run)
    → Inv initial p.0
    → ((w : Writer) → Inv initial w → Inv initial (f w).writer)
    → Inv initial (or_return p f).writer
or_return-Inv initial (w, true) f i k = k w i
or_return-Inv initial (w, false) f i k = i

flush_loop-Inv :
    (io : ℕ → Bool) (initial : RangeSet) (w : Writer) (start : ℕ) (buf : List ℕ) (cs : List Write)
    → IsU64 (start + length buf)
    → AllFit cs
    → Inv initial w
    → Inv initial (flush_loop io w start buf cs).0
unfolding flush_loop
flush_loop-Inv io initial w start [] [] u f i = i
flush_loop-Inv io initial w start (b ∷ buf) [] u f i =
    write_out-Inv io initial w start (b ∷ buf) u i
flush_loop-Inv io initial w start [] (c ∷ cs) u f i =
    flush_loop-Inv io initial w c.offset c.bytes cs f.0 f.1 i
flush_loop-Inv io initial w start (b ∷ buf) (c ∷ cs) u f i =
    elim (Bool-cases (
      add64 start (length (b ∷ buf)) == c.offset
      && leb (length (b ∷ buf) + length c.bytes) max_coalesce)) [
        | inl merged ↦
            let joined : IsU64 (start + length ((b ∷ buf) ++ c.bytes)) =
              ground (arith, length-append (b ∷ buf) c.bytes, f.0, merged) in
            rw merged (flush_loop-Inv io initial w start ((b ∷ buf) ++ c.bytes) cs joined f.1 i)
        | inr apart ↦ rw apart (
            and_then-Inv initial (write_out io w start (b ∷ buf))
              (λ w'. flush_loop io w' c.offset c.bytes cs)
              (write_out-Inv io initial w start (b ∷ buf) u i)
              (λ w' i'. flush_loop-Inv io initial w' c.offset c.bytes cs f.0 f.1 i'))
      ]

insert_write-AllFit :
    (c : Write) (cs : List Write)
    → IsU64 (c.offset + length c.bytes)
    → AllFit cs
    → AllFit (insert_write c cs)
unfolding insert_write
insert_write-AllFit c [] u f = (u, tt)
insert_write-AllFit c (d ∷ ds) u f = elim (Bool-cases (leb c.offset d.offset)) [
  | inl first ↦ rw first (u, f)
  | inr behind ↦ rw behind (f.0, insert_write-AllFit c ds u f.1)
]

pub sort_by_offset-AllFit : (cs : List Write) → AllFit cs → AllFit (sort_by_offset cs)
unfolding sort_by_offset
sort_by_offset-AllFit [] f = tt
sort_by_offset-AllFit (c ∷ cs) f =
    insert_write-AllFit c (sort_by_offset cs) f.0 (sort_by_offset-AllFit cs f.1)

pub flush_chunks-Inv :
    (io : ℕ → Bool) (initial : RangeSet) (w : Writer) (cs : List Write)
    → AllFit cs
    → Inv initial w
    → Inv initial (flush_chunks io w cs).0
unfolding flush_chunks
flush_chunks-Inv io initial w [] f i = i
flush_chunks-Inv io initial w (c ∷ cs) f i =
    and_then-Inv initial _ _
      (flush_loop-Inv io initial (record w { pending = [] }) 0 [] (sort_by_offset (c ∷ cs))
        (omega arith) (sort_by_offset-AllFit (c ∷ cs) f)
        (record { canonical = i.canonical; same = i.same; backed = i.backed; fits = tt }))
      (λ w' i'. record {
        canonical = i'.canonical;
        same = i'.same;
        backed = i'.backed;
        fits = i'.fits;
      })

synced-Inv :
    (initial : RangeSet) (w : Writer)
    → Inv initial w
    → Inv initial (record w { log = synced ∷ w.log })
synced-Inv initial w i = record {
  canonical = i.canonical;
  same = i.same;
  backed = i.backed;
  fits = i.fits;
}

recorded-Inv :
    (initial : RangeSet) (w : Writer)
    → Inv initial w
    → Inv initial (record w { log = checkpointed w.done (total w.done) ∷ synced ∷ w.log })
recorded-Inv initial w i = record {
  canonical = i.canonical;
  same = i.same;
  backed = (λ b c. sym (i.same b) ∙ c, i.backed);
  fits = i.fits;
}

pub durable_checkpoint-Inv :
    (io : ℕ → Bool) (initial : RangeSet) (w : Writer)
    → Inv initial w
    → Inv initial (durable_checkpoint io w).0
unfolding durable_checkpoint
durable_checkpoint-Inv io initial w i = elim (Bool-cases (io (length w.log))) [
  | inr fails ↦ rw fails i
  | inl works ↦ elim (Bool-cases (io (suc (length w.log)))) [
    | inl records ↦ rw (works, records) (recorded-Inv initial w i)
    | inr fails ↦ rw (works, fails) (synced-Inv initial w i)
  ]
]

pub reset-Inv : (initial : RangeSet) (w : Writer) → Inv initial w → Inv initial (reset w)
reset-Inv initial w i = record {
  canonical = i.canonical;
  same = i.same;
  backed = i.backed;
  fits = i.fits;
}
