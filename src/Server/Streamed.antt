-- ===== src/Server/Streamed.antt =====
-- What a body of the test server has in it, however it ends.
use ai_gen.Prelude.{
  ℕ, zero, suc, ◌+◌, ◌-◌, ◌≤◌, ◌<◌, ◌≡◌, ◌≢◌, refl, sym, ap, ◌∙◌, true, Option, none, some, ◌++◌,
  arith, leb, min64, add64, sub64, u64_mod, if_both_eq,
}
use ai_gen.Content.{chunk}
use ai_gen.Content.Filled.{bytes_from, bytes_from-append, chunk-bytes_from}
use ai_gen.Server.{AppState, Scenario}
use ai_gen.Server.Body.{
  Served, Ending, complete, stalled, reset, unread, body_loop, body_stream, chunk_size, reached,
  ends, then_bytes, counted_bytes, counted_reset,
}

-- From the offset behind the `sent` bytes on, the content of the file; all of it where the body is
-- complete. With enough polls it ends.
pub record Follows (sc : Scenario) (start len sent : ℕ) (r : Served) : Type 0 where
  pub count : ℕ
  pub within : sent + count ≤ len
  pub content : r.bytes ≡ bytes_from sc.seed (start + sent) count
  pub whole : r.ending ≡ complete → sent + count ≡ len
  pub cut : r.ending ≡ stalled → sc.stall_after ≢ none
  pub broken : r.ending ≡ reset → sc.reset_at ≢ none
  pub ended : r.ending ≢ unread

module _ (sc : Scenario) (start len : ℕ) (fits : start + len < u64_mod) where
  nothing_left :
      (st : AppState) (sent : ℕ)
      → sent ≤ len
      → leb len sent ≡ true
      → Follows sc start len sent (ends st complete)
  unfolding bytes_from
  nothing_left st sent h e = record {
    count = 0;
    within = omega arith;
    content = refl;
    whole = λ q. ground arith;
    cut = λ q. absurd (cc);
    broken = λ q. absurd (cc);
    ended = λ q. cc;
  }

  stops :
      (st : AppState) (sent : ℕ) (e : Ending)
      → sent ≤ len
      → e ≢ complete
      → (e ≡ stalled → sc.stall_after ≢ none)
      → (e ≡ reset → sc.reset_at ≢ none)
      → e ≢ unread
      → Follows sc start len sent (ends st e)
  unfolding bytes_from
  stops st sent e h c s r u = record {
    count = 0;
    within = omega arith;
    content = refl;
    whole = λ q. absurd (c q);
    cut = s;
    broken = r;
    ended = u;
  }

  adds :
      (sent n : ℕ) (r : Served)
      → sent + n ≤ len
      → Follows sc start len (add64 sent n) r
      → Follows sc start len sent (then_bytes (chunk sc.seed (add64 start sent) n) r)
  adds sent n r h f =
      let at : add64 sent n ≡ sent + n = omega arith in
      record {
        count = n + f.count;
        within = omega (arith, f.within, at);
        content =
            ap (λ bs. bs ++ r.bytes) (chunk-bytes_from sc.seed (add64 start sent) n (omega arith))
            ∙ ap (λ o. bytes_from sc.seed o n ++ r.bytes)
                (let e : add64 start sent ≡ start + sent = omega arith in e)
            ∙ ap (λ bs. bytes_from sc.seed (start + sent) n ++ bs) f.content
            ∙ ap (λ o. bytes_from sc.seed (start + sent) n ++ bytes_from sc.seed o f.count)
                (let e : start + add64 sent n ≡ start + sent + n = omega arith in e)
            ∙ sym (bytes_from-append sc.seed (start + sent) n f.count);
        whole = λ q. omega (arith, f.whole q, at);
        cut = f.cut;
        broken = f.broken;
        ended = f.ended;
      }

  is_set : (o : Option ℕ) (sent : ℕ) → reached o sent ≡ true → o ≢ none
  is_set none sent h e = ground arith
  is_set (some at) sent h e = cc

  body_loop-Follows :
      (polls : ℕ) (st : AppState) (sent : ℕ)
      → sent ≤ len
      → len < polls + sent
      → Follows sc start len sent (body_loop polls st sc start len sent)
  unfolding body_loop
  body_loop-Follows zero st sent h p = absurd (omega arith)
  body_loop-Follows (suc polls) st sent h p =
      let n : ℕ = min64 chunk_size (sub64 len sent) in
      if_both_eq (Follows sc start len sent) (leb len sent) _ _
        (λ over. nothing_left st sent h over)
        (λ more.
          let some_left : sent < len = ground arith in
          let room : sub64 len sent ≡ len - sent = omega arith in
          let fits_in : sent + n ≤ len = ground arith in
          let positive : 0 < n = ground arith in
          let at : add64 sent n ≡ sent + n = omega arith in
          if_both_eq (Follows sc start len sent) (reached sc.stall_after sent) _ _
            (λ stuck.
              stops st sent stalled h (λ q. cc) (λ q. is_set sc.stall_after sent stuck)
                (λ q. absurd (cc)) (λ q. cc))
            (λ going.
              if_both_eq (Follows sc start len sent) (reached sc.reset_at sent) _ _
                (λ lost.
                  stops (counted_reset st) sent reset h (λ q. cc) (λ q. absurd (cc))
                    (λ q. is_set sc.reset_at sent lost) (λ q. cc))
                (λ kept.
                  adds sent n (body_loop polls (counted_bytes n st) sc start len (add64 sent n))
                    fits_in
                    (body_loop-Follows polls (counted_bytes n st) (add64 sent n) (omega arith)
                      (omega arith)))))

-- Where the offsets stay within u64, a body has the file's content from its start on, however it ends;
-- the whole of its length if it is complete; it stalls or is reset only where the scenario says so; and
-- one poll more than it has bytes is enough for it to end.
pub body_stream-Follows :
    (sc : Scenario) (start len polls : ℕ) (st : AppState)
    → start + len < u64_mod
    → len < polls
    → Follows sc start len 0 (body_stream polls st sc start len)
unfolding body_stream
body_stream-Follows sc start len polls st h p =
    body_loop-Follows sc start len h polls st 0 (omega arith) (omega arith)
