-- ===== src/Server/Fetched.antt =====
-- What a worker writes of what the test server sends.
use ai_gen.Prelude.{
  ℕ, zero, suc, ◌+◌, ◌<◌, ◌≡◌, refl, sym, ap, ◌∙◌, true, some, unwrap, List, ◌++◌, arith, IsU64,
  u64_mod, Bool-cases, inl, inr,
}
use mathlib.Core.Path.{subst}
use ai_gen.Content.{byte_at}
use ai_gen.Content.Filled.{bytes_from}
use ai_gen.Headers.{ContentRange, bind, parse_content_range}
use ai_gen.Plan.{ClaimSlot}
use ai_gen.Server.{AppState, Scenario, is_honest}
use ai_gen.Server.Body.{body_stream}
use ai_gen.Server.Streamed.{body_stream-Follows}
use ai_gen.Server.Accepted.{Asks, reply, seen, streamed_range, streams_range, placed, unplaced}
use ai_gen.Worker.{WorkerCtx, Response, Attempt, stream_once}
use ai_gen.Worker.Stream.{body}
use ai_gen.Worker.Faithful.{Matches, AllMatch, IsHonest, Matches-append, stream_once-AllMatch}

Matches-bytes_from : (seed at n : ℕ) → Matches (byte_at seed) at (bytes_from seed at n)
unfolding bytes_from
Matches-bytes_from seed at zero = tt
Matches-bytes_from seed at (suc n) = (refl, Matches-bytes_from seed (suc at) n)

module _ (ctx : WorkerCtx) (sc : Scenario) (st later : AppState) (slot : ClaimSlot) (a : Attempt)
    (polls : ℕ) (lost : List ℕ) where
  -- The attempt of the worker is answered by the server; what arrives is what the body's stream gives,
  -- but for what is lost on the way at its end.
  pub record Exchange : Type 0 where
    pub asks : Asks ctx sc st slot
    pub answered : a.reply ≡ some (seen (reply ctx sc st slot))
    pub start : ℕ
    pub len : ℕ
    pub streamed : (reply ctx sc st slot).streams ≡ some (start, len)
    pub arrives : (body_stream polls later sc start len).bytes ≡ body a.rounds ++ lost
    pub polled : len < polls
    pub sized : start + len < u64_mod

  module _ (x : Exchange) where
    body-Matches : Matches (byte_at sc.seed) x.start (body a.rounds)
    body-Matches =
        let f = body_stream-Follows sc x.start x.len polls later x.sized x.polled in
        (Matches-append (byte_at sc.seed) x.start (body a.rounds) lost (
          subst (Matches (byte_at sc.seed) x.start)
            (ap (λ o. bytes_from sc.seed o f.count)
                (let e : x.start ≡ x.start + 0 = omega arith in e)
              ∙ sym f.content
              ∙ x.arrives)
            (Matches-bytes_from sc.seed x.start f.count))).0

    exchange-IsHonest : IsHonest (byte_at sc.seed) a
    exchange-IsHonest r cr e p =
        let same : seen (reply ctx sc st slot) ≡ r = unwrap _ r (sym x.answered ∙ e) in
        let read : bind (reply ctx sc st slot).content_range parse_content_range ≡ some cr =
          ap (λ (q : Response). bind q.content_range parse_content_range) same ∙ p in
        elim (Bool-cases (is_honest sc.ranges)) [
          | inr other ↦ absurd (cc (sym (unplaced ctx sc st slot x.asks other) ∙ read))
          | inl honest_mode ↦
              let at : slot.cursor ≡ cr.start =
                ap (λ (c : ContentRange). c.start)
                  (unwrap _ cr (sym (placed ctx sc st slot x.asks honest_mode) ∙ read)) in
              let from : x.start ≡ slot.cursor =
                ap (λ (q : ℕ × ℕ). q.0)
                  (unwrap (x.start, x.len) (streamed_range slot sc.size true)
                    (sym x.streamed ∙ streams_range ctx sc st slot x.asks true honest_mode)) in
              subst (λ o. Matches (byte_at sc.seed) o (body a.rounds)) (from ∙ at) body-Matches
        ]

-- A worker that uses ranges, and asks the test server below its connection cap for the rest of a claim
-- that lies in the file, writes nothing but the file's bytes at their offsets, in every mode of the
-- server: where it honours ranges, refuses them, ignores them or claims an encoding, and whether its body
-- ends, stalls, is reset or is lost on the way. The body's stream is polled more often than it has bytes.
pub exchange-AllMatch :
    (ctx : WorkerCtx) (sc : Scenario) (st later : AppState) (slot : ClaimSlot) (a : Attempt)
    (polls : ℕ) (lost : List ℕ)
    → IsU64 slot.end
    → Exchange ctx sc st later slot a polls lost
    → AllMatch (byte_at sc.seed) (stream_once ctx a slot).writes
exchange-AllMatch ctx sc st later slot a polls lost u x =
    stream_once-AllMatch (byte_at sc.seed) ctx a slot x.asks.ranged u
      (exchange-IsHonest ctx sc st later slot a polls lost x)
