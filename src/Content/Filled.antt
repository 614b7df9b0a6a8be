-- ===== src/Content/Filled.antt =====
-- `fill`, which makes eight bytes at a time, writes what `byte_at` says.
use ai_gen.Prelude.{
  ℕ, zero, suc, ◌+◌, ◌-◌, ◌/◌, ◌%◌, ◌<◌, ◌≡◌, refl, sym, ap, ◌∙◌, List, [], ◌∷◌, ◌++◌, arith, ltb,
  ◌==◌, get_or, add64, u64_mod, length, Bool-cases, inl, inr,
}
use ai_gen.Content.{
  byte_at, to_le_bytes, low_bytes, block_value, fill_tail, fill_body, fill_head, fill, chunk,
}

-- The bytes of the file with this seed, from an offset on.
unfoldable pub bytes_from : (seed offset len : ℕ) → List ℕ
bytes_from seed offset zero = []
bytes_from seed offset (suc len) = byte_at seed offset ∷ bytes_from seed (suc offset) len

module _ (seed : ℕ) where
  pub bytes_from-append :
      (o a b : ℕ) → bytes_from seed o (a + b) ≡ bytes_from seed o a ++ bytes_from seed (o + a) b
  unfolding bytes_from
  bytes_from-append o zero b =
      ap (λ (p : ℕ × ℕ). bytes_from seed p.0 p.1)
        (let e : ◌≡◌ {A = ℕ × ℕ} (o, 0 + b) (o + 0, b) = ground arith in e)
  bytes_from-append o (suc a) b =
      ap (bytes_from seed o) (let e : suc a + b ≡ suc (a + b) = omega arith in e)
      ∙ ap (λ bs. byte_at seed o ∷ bs)
          (bytes_from-append (suc o) a b
            ∙ ap (λ n. bytes_from seed (suc o) a ++ bytes_from seed n b)
                (let e : suc o + a ≡ o + suc a = omega arith in e))

  pub length-bytes_from : (o n : ℕ) → length (bytes_from seed o n) ≡ n
  unfolding bytes_from
  length-bytes_from o zero = refl
  length-bytes_from o (suc n) = omega (arith, length-bytes_from (suc o) n)

  fill_tail-bytes_from :
      (off left : ℕ) → off + left < u64_mod → fill_tail seed off left ≡ bytes_from seed off left
  unfolding fill_tail bytes_from
  fill_tail-bytes_from off zero h = refl
  fill_tail-bytes_from off (suc left) h =
      ap (λ o. byte_at seed off ∷ fill_tail seed o left)
        (let e : add64 off 1 ≡ suc off = omega arith in e)
      ∙ ap (λ bs. byte_at seed off ∷ bs) (fill_tail-bytes_from (suc off) left (omega arith))

  -- A byte of the block that starts at an aligned offset, by its place in the block.
  placed :
      (off o k : ℕ)
      → off % 8 ≡ 0
      → k < 8
      → o ≡ k + off
      → byte_at seed o ≡ get_or (to_le_bytes (block_value seed (off / 8))) k 0
  unfolding byte_at
  placed off o k a h e =
      ap (λ b. get_or (to_le_bytes (block_value seed b)) (o % 8) 0)
        (let f : o / 8 ≡ off / 8 = omega arith in f)
      ∙ ap (λ i. get_or (to_le_bytes (block_value seed (off / 8))) i 0)
          (let f : o % 8 ≡ k = omega arith in f)

  -- Eight bytes from an aligned offset are those of one block.
  block_bytes :
      (off n : ℕ)
      → off % 8 ≡ 0
      → bytes_from seed off (suc (suc (suc (suc (suc (suc (suc (suc n))))))))
        ≡ to_le_bytes (block_value seed (off / 8))
          ++ bytes_from seed (suc (suc (suc (suc (suc (suc (suc (suc off)))))))) n
  unfolding bytes_from to_le_bytes low_bytes
  block_bytes off n a =
      let p0 = placed off off 0 a (omega arith) (omega arith) in
      let p1 = placed off (suc off) 1 a (omega arith) (omega arith) in
      let p2 = placed off (suc (suc off)) 2 a (omega arith) (omega arith) in
      let p3 = placed off (suc (suc (suc off))) 3 a (omega arith) (omega arith) in
      let p4 = placed off (suc (suc (suc (suc off)))) 4 a (omega arith) (omega arith) in
      let p5 = placed off (suc (suc (suc (suc (suc off))))) 5 a (omega arith) (omega arith) in
      let p6 = placed off (suc (suc (suc (suc (suc (suc off)))))) 6 a (omega arith) (omega arith) in
      let p7 =
        placed off (suc (suc (suc (suc (suc (suc (suc off))))))) 7 a (omega arith) (omega arith) in
      λ i.
        p0 i
        ∷ p1 i
        ∷ p2 i
        ∷ p3 i
        ∷ p4 i
        ∷ p5 i
        ∷ p6 i
        ∷ p7 i
        ∷ bytes_from seed (suc (suc (suc (suc (suc (suc (suc (suc off)))))))) n

  block_then :
      (off n left : ℕ)
      → off % 8 ≡ 0
      → left ≡ 8 + n
      → off + left < u64_mod
      → bytes_from seed off left
        ≡ to_le_bytes (block_value seed (off / 8)) ++ bytes_from seed (add64 off 8) n
  block_then off n left a e h =
      ap (bytes_from seed off)
        (let f : left ≡ suc (suc (suc (suc (suc (suc (suc (suc n))))))) = omega arith in f)
      ∙ block_bytes off n a
      ∙ ap (λ o. to_le_bytes (block_value seed (off / 8)) ++ bytes_from seed o n)
          (let f : suc (suc (suc (suc (suc (suc (suc (suc off))))))) ≡ add64 off 8 = omega arith in
            f)

  fill_body-bytes_from :
      (rounds off left : ℕ)
      → off % 8 ≡ 0
      → off + left < u64_mod
      → fill_body rounds seed off left ≡ bytes_from seed off left
  unfolding fill_body
  fill_body-bytes_from zero off left a h = fill_tail-bytes_from off left h
  fill_body-bytes_from (suc rounds) off left a h = elim (Bool-cases (ltb left 8)) [
    | inl few ↦ rw few (fill_tail-bytes_from off left h)
    | inr more ↦ rw more (
        ap (λ bs. to_le_bytes (block_value seed (off / 8)) ++ bs)
          (fill_body-bytes_from rounds (add64 off 8) (left - 8) (omega arith) (ground arith))
        ∙ sym (block_then off (left - 8) left a (ground arith) h))
  ]

  fill_head-bytes_from :
      (off left : ℕ) → off + left < u64_mod → fill_head seed off left ≡ bytes_from seed off left
  unfolding fill_head bytes_from
  fill_head-bytes_from off zero h = refl
  fill_head-bytes_from off (suc left) h = elim (Bool-cases (off % 8 == 0)) [
    | inl aligned ↦ rw aligned (fill_body-bytes_from (suc left) off (suc left) (ground arith) h)
    | inr not_yet ↦ rw not_yet (
        ap (λ bs. byte_at seed off ∷ bs)
          (ap (λ o. fill_head seed o left) (let e : add64 off 1 ≡ suc off = omega arith in e)
            ∙ fill_head-bytes_from (suc off) left (omega arith)))
  ]

-- Where the offsets stay within u64, `chunk` has at each place the byte that `byte_at` gives for its
-- offset, whatever the alignment of its start and its end.
pub chunk-bytes_from :
    (seed start len : ℕ) → start + len < u64_mod → chunk seed start len ≡ bytes_from seed start len
unfolding chunk fill
chunk-bytes_from seed start len h = fill_head-bytes_from seed start len h

-- Two chunks that meet are one chunk.
pub chunk-append :
    (seed start a b : ℕ)
    → start + (a + b) < u64_mod
    → chunk seed start (a + b) ≡ chunk seed start a ++ chunk seed (start + a) b
chunk-append seed start a b h =
    chunk-bytes_from seed start (a + b) h
    ∙ bytes_from-append seed start a b
    ∙ ap (λ bs. bs ++ bytes_from seed (start + a) b)
        (sym (chunk-bytes_from seed start a (omega arith)))
    ∙ ap (λ bs. chunk seed start a ++ bs) (sym (chunk-bytes_from seed (start + a) b (omega arith)))

pub length-chunk :
    (seed start len : ℕ) → start + len < u64_mod → length (chunk seed start len) ≡ len
length-chunk seed start len h =
    ap length (chunk-bytes_from seed start len h) ∙ length-bytes_from seed start len
