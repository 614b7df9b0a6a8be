-- ===== src/Server/Accepted.antt =====
-- What a worker makes of the replies of the test server.
use ai_gen.Prelude.{
  ℕ, ◌-◌, ◌≤◌, ◌<◌, ◌≡◌, refl, ap, ◌∙◌, Bool, true, false, ◌&&◌, Option, none, some, arith, IsU64,
  sub64, add64, min64, Text,
}
use ai_gen.Headers.{bind, parse_content_range}
use ai_gen.Headers.Printed.{parse_content_range-printed}
use ai_gen.Probe.{is_supported}
use ai_gen.Plan.{ClaimSlot}
use ai_gen.Server.{
  AppState, Scenario, Reply, serve, serve_open, parse_range, content_range_text, is_honest, is_full,
  asks_for_bytes, reply_of, span_of, counted_kind, counted_request,
}
use ai_gen.Server.Ranges.{parse_range-range_text}
use ai_gen.Worker.{WorkerCtx, Response, total_differs}
use ai_gen.Worker.Request.{range_header}

-- What a worker reads of a reply.
abbrev pub seen : Reply → Response
seen r = record {
  status = r.status;
  content_range = r.content_range;
  retry_after = r.retry_after;
  content_encoding = r.content_encoding;
}

no_refusal : (a b : Bool) → (a && b && false) ≡ false
no_refusal a b = ground arith

-- The reply to a request for a range that is read, below the connection cap.
serve-reply :
    (st : AppState) (sc : Scenario) (header : Option Text) (r : ℕ × ℕ)
    → is_full sc.max_conn st.live_streams ≡ false
    → parse_range header sc.size ≡ some r
    → (serve st sc header).1
      ≡ reply_of
          (counted_kind true (counted_request st))
          sc
          (is_honest sc.ranges && true)
          (span_of (is_honest sc.ranges && true) sc.size (some r))
unfolding serve serve_open
serve-reply st sc header r f p =
    rw f (rw p (rw (no_refusal (is_honest sc.ranges) (asks_for_bytes header)) refl))

-- Where a body starts in the file, and how long it is.
abbrev pub streamed_range : ClaimSlot → ℕ → Bool → ℕ × ℕ
streamed_range slot size true = (slot.cursor, slot.end - slot.cursor)
streamed_range slot size false = (0, size)

abbrev pub spanned : Bool → ℕ × ℕ → ℕ → ℕ × ℕ
spanned b r size = span_of (b && true) size (some r)

module _ (ctx : WorkerCtx) (sc : Scenario) (st : AppState) (slot : ClaimSlot) where
  -- A worker that uses ranges asks for the rest of a claim that is not empty and lies in a file of
  -- the size that it knows, if it knows one; the server is below its connection cap.
  pub record Asks : Type 0 where
    pub ranged : is_supported ctx.range_support ≡ true
    pub started : slot.cursor < slot.end
    pub inside : slot.end ≤ sc.size
    pub sized : IsU64 sc.size
    pub same_total : total_differs (some sc.size) ctx.total ≡ false
    pub room : is_full sc.max_conn st.live_streams ≡ false

  abbrev pub reply : Reply
  reply = (serve st sc (range_header ctx slot)).1

  module _ (a : Asks) where
    range_read : parse_range (range_header ctx slot) sc.size ≡ some (slot.cursor, slot.end - 1)
    unfolding range_header
    range_read = rw (a.ranged) (
        parse_range-range_text sc.size slot.cursor (sub64 slot.end 1)
          (omega (arith, a.sized, a.started, a.inside))
          (omega (arith, a.sized, a.started, a.inside))
          (omega (arith, a.sized, a.started, a.inside)) (omega (arith, a.started, a.inside))
        ∙ ap (λ e. some (slot.cursor, e))
            (let e : min64 (sub64 slot.end 1) (sc.size - 1) ≡ slot.end - 1 =
                ground (arith, a.sized, a.started, a.inside) in
              e))

    replied :
        (b : Bool)
        → is_honest sc.ranges ≡ b
        → reply
          ≡ reply_of
              (counted_kind true (counted_request st))
              sc
              (b && true)
              (spanned b (slot.cursor, slot.end - 1) sc.size)
    replied b e =
        serve-reply st sc (range_header ctx slot) (slot.cursor, slot.end - 1) a.room range_read
        ∙ ap
            (λ h.
              reply_of (counted_kind true (counted_request st)) sc (h && true)
                (spanned h (slot.cursor, slot.end - 1) sc.size))
            e

    -- The reply of an honest server streams the rest of the claim.
    honest_streams :
        is_honest sc.ranges ≡ true → reply.streams ≡ some (slot.cursor, slot.end - slot.cursor)
    honest_streams e =
        ap (λ (r : Reply). r.streams) (replied true e)
        ∙ ap (λ n. some (slot.cursor, n))
            (let f : sub64 (add64 (slot.end - 1) 1) slot.cursor ≡ slot.end - slot.cursor =
                omega (arith, a.sized, a.started, a.inside) in
              f)

    pub placed :
        is_honest sc.ranges ≡ true
        → bind reply.content_range parse_content_range
          ≡ some (record { start = slot.cursor; end = slot.end - 1; total = some sc.size })
    unfolding content_range_text
    placed e =
        ap (λ (r : Reply). bind r.content_range parse_content_range) (replied true e)
        ∙ parse_content_range-printed slot.cursor (slot.end - 1) sc.size a.sized
            (omega (arith, a.started)) (omega (arith, a.started, a.inside))

    pub unplaced : is_honest sc.ranges ≡ false → bind reply.content_range parse_content_range ≡ none
    unplaced e = ap (λ (r : Reply). bind r.content_range parse_content_range) (replied false e)

    -- A server that does not honour ranges streams the whole file.
    pub streams_range :
        (b : Bool) → is_honest sc.ranges ≡ b → reply.streams ≡ some (streamed_range slot sc.size b)
    streams_range true e = honest_streams e
    streams_range false e =
        ap (λ (r : Reply). r.streams) (replied false e)
        ∙ ap (λ n. some (0, n))
            (let f : sub64 (add64 (sc.size - 1) 1) 0 ≡ sc.size =
                omega (arith, a.sized, a.started, a.inside) in
              f)
