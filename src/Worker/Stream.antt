-- ===== src/Worker/Stream.antt =====
-- What the read loop writes: one run of bytes from the cursor on, inside the claim, taken from the
-- front of the body in its order.
use mathlib.Core.List.{append_assoc}
use mathlib.Core.Path.{subst}
use ai_gen.Prelude.{◌⊎◌}
use ai_gen.Prelude.{
  ℕ, zero, suc, ◌+◌, ◌≤◌, ◌<◌, ◌≡◌, Bool, true, false, List, [], ◌∷◌, ◌++◌, refl, sym, ap, ◌∙◌,
  arith, ltb, leb, length, take, drop, add64, IsU64, if◌then◌else◌, Bool-cases, inl, inr,
}
use ai_gen.Errors.{ErrorClass}
use ai_gen.Plan.{ClaimSlot}
use ai_gen.Worker.{
  Write, Round, ChunkEvent, elapsed, broken, body_end, chunk, Outcome, ended, failed, Streamed,
  stolen_from, advanced, stop, body_over, then_write, room, write_of, on_chunk, stream_loop,
}

-- The body, as far as it arrived.
abbrev pub body : List Round → List ℕ
body [] = []
body (r ∷ rs) = elim r.event [ chunk bytes ↦ bytes ++ body rs | _ ↦ body rs ]

abbrev pub written : List Write → List ℕ
written [] = []
written (w ∷ ws) = w.bytes ++ written ws

-- Each write starts where the one before it ended; they start at `from` and end at `to`.
abbrev pub Contiguous : ℕ → List Write → ℕ → Type 0
Contiguous from [] to = from ≡ to
Contiguous from (w ∷ ws) to = (w.offset ≡ from) × Contiguous (from + length w.bytes) ws to

pub record IsPrefix (xs ys : List ℕ) : Type 0 where
  pub rest : List ℕ
  pub split : xs ++ rest ≡ ys

-- What a run of the loop from `s` leaves, where `received` is the body.
pub record Good (ranged retiring : Bool) (s : ClaimSlot) (received : List ℕ) (t : Streamed)
    : Type 0 where
  pub run : Contiguous s.cursor t.writes t.slot.cursor
  pub inside : (t.slot.cursor ≡ s.cursor) ⊎ (t.slot.cursor ≤ s.end)
  pub front : IsPrefix (written t.writes) received
  pub shrunk : t.slot.end ≤ s.end
  pub kept : (t.slot.id ≡ s.id) × (t.slot.active ≡ s.active)
  pub complete : t.outcome ≡ ended → ranged ≡ true → retiring ≡ false → t.slot.end ≤ t.slot.cursor

take_prefix : (n : ℕ) (xs : List ℕ) → take n xs ++ drop n xs ≡ xs
take_prefix zero xs = refl
take_prefix (suc n) [] = refl
take_prefix (suc n) (x ∷ xs) = ap (λ r. x ∷ r) (take_prefix n xs)

length-take : (n : ℕ) (xs : List ℕ) → n ≤ length xs → length (take n xs) ≡ n
length-take zero xs h = refl
length-take (suc n) [] h = absurd (omega arith)
length-take (suc n) (x ∷ xs) h = omega (arith, length-take n xs (omega arith))

pub take_all : (xs : List ℕ) → take (length xs) xs ≡ xs
take_all [] = refl
take_all (x ∷ xs) = ap (λ r. x ∷ r) (take_all xs)

stop-Good :
    (ranged retiring : Bool) (s s' : ClaimSlot) (received : List ℕ) (o : Outcome)
    → s'.cursor ≡ s.cursor
    → s'.end ≤ s.end
    → (s'.id ≡ s.id) × (s'.active ≡ s.active)
    → (o ≡ ended → ranged ≡ true → retiring ≡ false → s'.end ≤ s'.cursor)
    → Good ranged retiring s received (stop s' o)
stop-Good ranged retiring s s' received o c e k f = record {
  run = sym c;
  inside = inl c;
  front = record { rest = received; split = refl };
  shrunk = e;
  kept = k;
  complete = f;
}

body_over-Good :
    (ranged retiring : Bool) (s s' : ClaimSlot) (received : List ℕ)
    → s'.cursor ≡ s.cursor
    → s'.end ≤ s.end
    → (s'.id ≡ s.id) × (s'.active ≡ s.active)
    → Good ranged retiring s received (body_over ranged retiring s')
body_over-Good ranged retiring s s' received c e k =
    stop-Good ranged retiring s s' received _ c e k (λ o r t. ground arith)

then_write-Good :
    (ranged retiring : Bool) (s : ClaimSlot) (bytes behind received : List ℕ) (t : Streamed)
    → IsU64 s.end
    → s.cursor < s.end
    → take (room s bytes) bytes ++ behind ≡ received
    → Good ranged retiring (advanced s (room s bytes)) behind t
    → Good ranged retiring s received (then_write (write_of s bytes) t)
then_write-Good ranged retiring s bytes behind received t u p e g =
    let n = room s bytes in
    let few : n ≤ length bytes = ground arith in
    let fits : s.cursor + n ≤ s.end = ground arith in
    let taken = length-take n bytes few in
    let next : add64 s.cursor n ≡ s.cursor + length (take n bytes) = omega arith in
    record {
      run = (refl, subst (λ c. Contiguous c t.writes t.slot.cursor) next g.run);
      inside = inr (ground (arith, g.inside));
      front = record {
        rest = g.front.rest;
        split =
            append_assoc (take n bytes) (written t.writes) g.front.rest
            ∙ ap (λ r. take n bytes ++ r) g.front.split
            ∙ e;
      };
      shrunk = g.shrunk;
      kept = g.kept;
      complete = g.complete;
    }

on_chunk-Good :
    (ranged retiring up : Bool) (s : ClaimSlot) (bytes received : List ℕ)
    (rest : ClaimSlot → Streamed)
    → IsU64 s.end
    → ((t : ClaimSlot) → IsU64 t.end → Good ranged retiring t received (rest t))
    → Good ranged retiring s (bytes ++ received) (on_chunk ranged retiring up s bytes rest)
unfolding on_chunk
on_chunk-Good ranged retiring up s bytes received rest u again =
    elim (Bool-cases (leb s.end s.cursor)) [
      | inl over ↦ rw over (body_over-Good ranged retiring s s _ refl (omega arith) (refl, refl))
      | inr open_claim ↦ elim (Bool-cases up) [
        | inr down ↦
            rw (open_claim, down)
              (stop-Good ranged retiring s s _ _ refl (omega arith) (refl, refl)
                (λ o. ground arith))
        | inl running ↦ elim (Bool-cases (ltb (room s bytes) (length bytes))) [
          | inl cut ↦
              rw (open_claim, running, cut)
                (then_write-Good ranged retiring s bytes (drop (room s bytes) bytes ++ received) _ _
                  u (ground arith)
                  (sym (
                      append_assoc (take (room s bytes) bytes) (drop (room s bytes) bytes) received)
                    ∙ ap (λ xs. xs ++ received) (take_prefix (room s bytes) bytes))
                  (body_over-Good ranged retiring (advanced s (room s bytes)) _ _ refl (omega arith)
                    (refl, refl)))
          | inr whole ↦
              let all : room s bytes ≡ length bytes = ground arith in
              rw (open_claim, running, whole)
                (then_write-Good ranged retiring s bytes received _ _ u (ground arith)
                  (ap (λ xs. xs ++ received) (ap (λ n. take n bytes) all ∙ take_all bytes))
                  (again (advanced s (room s bytes)) u))
        ]
      ]
    ]

stolen-Good :
    (ranged retiring : Bool) (n : ℕ) (s : ClaimSlot) (received : List ℕ) (t : Streamed)
    → Good ranged retiring (stolen_from n s) received t
    → Good ranged retiring s received t
stolen-Good ranged retiring n s received t g = record {
  run = g.run;
  inside = ground (arith, g.inside);
  front = g.front;
  shrunk = omega (arith, g.shrunk);
  kept = g.kept;
  complete = g.complete;
}

-- One round with its event; `later` is the body behind it.
round-Good :
    (ranged retiring cancelled up : Bool) (event : ChunkEvent) (n : ℕ) (s : ClaimSlot)
    (later : List ℕ) (rest : ClaimSlot → Streamed)
    → IsU64 s.end
    → ((t : ClaimSlot) → IsU64 t.end → Good ranged retiring t later (rest t))
    → Good ranged retiring s
        (elim event [ chunk bytes ↦ bytes ++ later | _ ↦ later ])
        (if cancelled then stop s (failed ErrorClass.transient_network) else elim event [
          | elapsed ↦ stop (stolen_from n s) (failed ErrorClass.transient_network)
          | broken ↦ stop (stolen_from n s) (failed ErrorClass.transient_network)
          | body_end ↦ body_over ranged retiring (stolen_from n s)
          | chunk bytes ↦ on_chunk ranged retiring up (stolen_from n s) bytes rest
        ])
round-Good ranged retiring true up event n s later rest u k =
    stop-Good ranged retiring s s _ _ refl (omega arith) (refl, refl) (λ o. ground arith)
round-Good ranged retiring false up elapsed n s later rest u k =
    stop-Good ranged retiring s (stolen_from n s) _ _ refl (omega arith) (refl, refl)
      (λ o. ground arith)
round-Good ranged retiring false up broken n s later rest u k =
    stop-Good ranged retiring s (stolen_from n s) _ _ refl (omega arith) (refl, refl)
      (λ o. ground arith)
round-Good ranged retiring false up body_end n s later rest u k =
    body_over-Good ranged retiring s (stolen_from n s) _ refl (omega arith) (refl, refl)
round-Good ranged retiring false up (chunk bytes) n s later rest u k =
    stolen-Good ranged retiring n s _ _
      (on_chunk-Good ranged retiring up (stolen_from n s) bytes later rest (omega arith) k)

-- For a claim that ends within u64, whatever arrives and whatever is stolen meanwhile, the writes form one run from the cursor to the
-- new cursor, none ends past the claim, and their bytes are the front of the body; the claim does not
-- grow; and when a ranged body ends well for a worker that does not retire, the claim is done.
pub stream_loop-Good :
    (ranged retiring : Bool) (rs : List Round) (s : ClaimSlot)
    → IsU64 s.end
    → Good ranged retiring s (body rs) (stream_loop ranged retiring rs s)
unfolding stream_loop
stream_loop-Good ranged retiring [] s u =
    stop-Good ranged retiring s s _ _ refl (omega arith) (refl, refl) (λ o. ground arith)
stream_loop-Good ranged retiring (r ∷ rs) s u =
    round-Good ranged retiring r.cancelled r.writer_up r.event r.stolen s (body rs) _ u
      (λ t. stream_loop-Good ranged retiring rs t)
