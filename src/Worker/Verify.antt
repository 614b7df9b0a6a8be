-- ===== src/Worker/Verify.antt =====
-- What a response must satisfy before a byte of it is written.
use ai_gen.Prelude.{
  ℕ, ◌≡◌, sym, true, false, ◌&&◌, Option, none, some, ◌↔◌, refl, arith, ltb, leb, ◌==◌, Bool-cases,
  Option-cases, inl, inr,
}
use mathlib.Core.Path.{subst}
use ai_gen.Headers.{ContentRange, bind, parse_content_range}
use ai_gen.Probe.{is_supported}
use ai_gen.Worker.{
  WorkerCtx, Response, check_range, check_partial, check_response, is_encoded, total_differs,
}

-- A partial response for the offset that was asked for, of the size that is known, and not encoded.
pub record Verified (ctx : WorkerCtx) (start : ℕ) (r : Response) : Type 0 where
  pub partial : r.status ≡ 206
  pub range : ContentRange
  pub parsed : bind r.content_range parse_content_range ≡ some range
  pub placed : range.start ≡ start
  pub same_total : total_differs range.total ctx.total ≡ false
  pub plain : is_encoded r.content_encoding ≡ false

check_range-cases :
    (total : Option ℕ) (start : ℕ) (found : Option ContentRange)
    → check_range total start found ≡ none
    → (cr : ContentRange) × (found ≡ some cr)
      × (cr.start ≡ start)
      × (total_differs cr.total total ≡ false)
check_range-cases total start none h = ground arith
check_range-cases total start (some cr) h = (cr, refl, ground arith, ground arith)

check_partial-cases :
    (ctx : WorkerCtx) (start : ℕ) (r : Response)
    → check_partial ctx start r ≡ none
    → (r.status ≡ 206)
      × ((cr : ContentRange) × (bind r.content_range parse_content_range ≡ some cr)
          × (cr.start ≡ start)
          × (total_differs cr.total ctx.total ≡ false))
check_partial-cases ctx start r h = elim (Bool-cases (r.status == 206)) [
  | inr other ↦ absurd (ground (arith, other))
  | inl partial ↦ (
    ground (arith, partial),
    check_range-cases ctx.total start (bind r.content_range parse_content_range)
        (ground (arith, partial)),
  )
]

-- The result by that of the ranged checks, where the status is a success.
accepted :
    (ctx : WorkerCtx) (start : ℕ) (r : Response)
    → is_supported ctx.range_support ≡ true
    → check_response ctx start r ≡ none
    → (check_partial ctx start r ≡ none) × (is_encoded r.content_encoding ≡ false)
unfolding check_response
accepted ctx start r s h = elim (Bool-cases (leb 200 r.status && ltb r.status 300)) [
  | inr other ↦ absurd (ground (arith, s, other))
  | inl success ↦ elim (Option-cases (check_partial ctx start r)) [
    | inr (e, f) ↦ absurd (ground (arith, s, success, f))
    | inl n ↦ (n, ground (arith, s, success, n))
  ]
]

Verified-accepted :
    (ctx : WorkerCtx) (start : ℕ) (r : Response)
    → is_supported ctx.range_support ≡ true
    → Verified ctx start r
    → check_response ctx start r ≡ none
unfolding check_response
Verified-accepted ctx start r s v =
    let found : check_range ctx.total start (bind r.content_range parse_content_range) ≡ none =
      subst (λ o. check_range ctx.total start o ≡ none) (sym v.parsed)
        (ground (arith, v.placed, v.same_total)) in
    let fits : check_partial ctx start r ≡ none = ground (arith, v.partial, found) in
    ground (arith, s, v.partial, fits, v.plain)

pub check_response_iff :
    (ctx : WorkerCtx) (start : ℕ) (r : Response)
    → is_supported ctx.range_support ≡ true
    → (check_response ctx start r ≡ none) ↔ Verified ctx start r
check_response_iff ctx start r s = (
  λ h.
      let (n, plain) = accepted ctx start r s h in
      let (partial, (cr, parsed, placed, total)) = check_partial-cases ctx start r n in
      record {
        partial = partial;
        range = cr;
        parsed = parsed;
        placed = placed;
        same_total = total;
        plain = plain;
      },
  Verified-accepted ctx start r s,
)
