-- ===== src/Worker/Faithful.antt =====
-- Which bytes a call of `stream_once` puts where, against the file that the server serves.
use mathlib.Core.Path.{subst}
use mathlib.Core.List.{append_assoc}
use ai_gen.Prelude.{
  ℕ, suc, ◌+◌, ◌≤◌, ◌≡◌, Bool, true, false, List, [], ◌∷◌, ◌++◌, none, some, refl, sym, arith, leb,
  length, IsU64, Bool-cases, Option-cases, inl, inr,
}
use ai_gen.Errors.{ErrorClass}
use ai_gen.Headers.{ContentRange, bind, parse_content_range}
use ai_gen.Probe.{is_supported}
use ai_gen.Plan.{ClaimSlot}
use ai_gen.Worker.{
  WorkerCtx, Response, check_response, Attempt, Round, ChunkEvent, Streamed, stream_once,
  stream_loop, Write, ended, failed, stop,
}
use ai_gen.Worker.Stream.{body, written, Contiguous, stream_loop-Good}
use ai_gen.Worker.Verify.{check_response_iff}

-- `xs` is what `file` has from `at` on.
abbrev pub Matches : (ℕ → ℕ) → ℕ → List ℕ → Type 0
Matches file at [] = Unit {0}
Matches file at (x ∷ xs) = (x ≡ file at) × Matches file (suc at) xs

abbrev pub AllMatch : (ℕ → ℕ) → List Write → Type 0
AllMatch file [] = Unit {0}
AllMatch file (w ∷ ws) = Matches file w.offset w.bytes × AllMatch file ws

-- The body of a partial response is the part of the file that its header names.
abbrev pub IsHonest : (ℕ → ℕ) → Attempt → Type 0
IsHonest file a =
    (r : Response) (cr : ContentRange)
    → a.reply ≡ some r
    → bind r.content_range parse_content_range ≡ some cr
    → Matches file cr.start (body a.rounds)

pub Matches-append :
    (file : ℕ → ℕ) (at : ℕ) (xs ys : List ℕ)
    → Matches file at (xs ++ ys)
    → Matches file at xs × Matches file (at + length xs) ys
Matches-append file at [] ys m = (tt, subst (λ n. Matches file n ys) (omega arith) m)
Matches-append file at (x ∷ xs) ys m =
    let (front, back) = Matches-append file (suc at) xs ys m.1 in
    ((m.0, front), subst (λ n. Matches file n ys) (omega arith) back)

Contiguous-AllMatch :
    (file : ℕ → ℕ) (from to : ℕ) (ws : List Write) (rest : List ℕ)
    → Contiguous from ws to
    → Matches file from (written ws ++ rest)
    → AllMatch file ws
Contiguous-AllMatch file from to [] rest c m = tt
Contiguous-AllMatch file from to (w ∷ ws) rest c m =
    let whole = subst (Matches file from) (append_assoc w.bytes (written ws) rest) m in
    let (front, back) = Matches-append file from w.bytes (written ws ++ rest) whole in
    (
      subst (λ n. Matches file n w.bytes) (sym c.0) front,
      Contiguous-AllMatch file (from + length w.bytes) to ws rest c.1 back,
    )

loop-AllMatch :
    (file : ℕ → ℕ) (ranged retiring : Bool) (rs : List Round) (s : ClaimSlot)
    → IsU64 s.end
    → Matches file s.cursor (body rs)
    → AllMatch file (stream_loop ranged retiring rs s).writes
loop-AllMatch file ranged retiring rs s u m =
    let g = stream_loop-Good ranged retiring rs s u in
    Contiguous-AllMatch file s.cursor _ _ g.front.rest g.run
      (subst (Matches file s.cursor) (sym g.front.split) m)

once_lost :
    (ctx : WorkerCtx) (a : Attempt) (s : ClaimSlot)
    → leb s.end s.cursor ≡ false
    → a.reply ≡ none
    → stream_once ctx a s ≡ stop s (failed ErrorClass.transient_network)
unfolding stream_once
once_lost ctx a s p e = rw p (rw (e, stream_once) refl)

once_refused :
    (ctx : WorkerCtx) (a : Attempt) (s : ClaimSlot) (r : Response) (class : ErrorClass)
    → leb s.end s.cursor ≡ false
    → a.reply ≡ some r
    → check_response ctx s.cursor r ≡ some class
    → stream_once ctx a s ≡ stop s (failed class)
unfolding stream_once
once_refused ctx a s r class p e f = rw p (rw (e, stream_once) (rw f refl))

once_streams :
    (ctx : WorkerCtx) (a : Attempt) (s : ClaimSlot) (r : Response)
    → leb s.end s.cursor ≡ false
    → a.reply ≡ some r
    → check_response ctx s.cursor r ≡ none
    → stream_once ctx a s ≡ stream_loop (is_supported ctx.range_support) a.retiring a.rounds s
unfolding stream_once
once_streams ctx a s r p e n = rw p (rw (e, stream_once) (rw n refl))

-- With ranges, and a server whose partial bodies are what their headers say, every byte that is
-- written is the file's byte at its offset, whatever else the server and the other tasks do.
pub stream_once-AllMatch :
    (file : ℕ → ℕ) (ctx : WorkerCtx) (a : Attempt) (s : ClaimSlot)
    → is_supported ctx.range_support ≡ true
    → IsU64 s.end
    → IsHonest file a
    → AllMatch file (stream_once ctx a s).writes
unfolding stream_once
stream_once-AllMatch file ctx a s supported u honest = elim (Bool-cases (leb s.end s.cursor)) [
  | inl over ↦ rw over tt
  | inr open_claim ↦ elim (Option-cases a.reply) [
    | inl lost ↦ rw (once_lost ctx a s open_claim lost) tt
    | inr (r, e) ↦ elim (Option-cases (check_response ctx s.cursor r)) [
      | inr (class, f) ↦ rw (once_refused ctx a s r class open_claim e f) tt
      | inl n ↦
          let v = (check_response_iff ctx s.cursor r supported).0 n in
          rw (once_streams ctx a s r open_claim e n) (
            loop-AllMatch file _ a.retiring a.rounds s u (
              subst (λ at. Matches file at (body a.rounds)) v.placed (honest r v.range e v.parsed)))
    ]
  ]
]

-- The end of a claim does not move up while it is fetched.
pub stream_once_shrinks :
    (ctx : WorkerCtx) (a : Attempt) (s : ClaimSlot)
    → IsU64 s.end
    → (stream_once ctx a s).slot.end ≤ s.end
unfolding stream_once
stream_once_shrinks ctx a s u = elim (Bool-cases (leb s.end s.cursor)) [
  | inl over ↦ rw over (omega arith)
  | inr open_claim ↦ elim (Option-cases a.reply) [
    | inl lost ↦ rw (once_lost ctx a s open_claim lost) (omega arith)
    | inr (r, e) ↦ elim (Option-cases (check_response ctx s.cursor r)) [
      | inr (class, f) ↦ rw (once_refused ctx a s r class open_claim e f) (omega arith)
      | inl n ↦
          rw (once_streams ctx a s r open_claim e n)
            (stream_loop-Good (is_supported ctx.range_support) a.retiring a.rounds s u).shrunk
    ]
  ]
]

-- A round in which nothing else happens.
abbrev pub arrived : ChunkEvent → Round
arrived e = record { cancelled = false; stolen = 0; event = e; writer_up = true }

abbrev stopped_at : ClaimSlot → List ℕ → ℕ → ℕ → Streamed
stopped_at s bytes c e = record {
  writes = record { offset = s.cursor; bytes = bytes } ∷ [];
  slot = record s { cursor = c; end = e };
  outcome = ended;
}
