-- ===== src/Server/Ranges.antt =====
-- Which ranges the test server reads from a request.
use ai_gen.Prelude.{
  ℕ, ◌-◌, ◌≤◌, ◌<◌, ◌≡◌, refl, ap, ◌∙◌, Option, none, some, [], ◌∷◌, arith, min64, saturating_sub,
  IsU64, Text, trim, split_once, strip_prefix, parse_u64,
}
use ai_gen.Prelude.Decimal.{
  show_u64, parse_u64-show_u64, trim-show_u64, split_once-show_u64, show_u64-IsFilled, IsFilled,
}
use ai_gen.Headers.{bind}
use ai_gen.Server.{parse_range, range_of, range_end, in_order, bytes_eq}
use ai_gen.Worker.Request.{range_text}

range_end-printed :
    (size : ℕ) (s : Text)
    → IsFilled s
    → range_end size s ≡ bind (parse_u64 s) (λ v. some (min64 v (saturating_sub size 1)))
range_end-printed size [] f = absurd f
range_end-printed size (c ∷ cs) f = refl

-- The header that a worker sends for a range is read as that range, cut at the end of the file.
pub parse_range-range_text :
    (size first last : ℕ)
    → IsU64 first
    → IsU64 last
    → first ≤ last
    → first < size
    → parse_range (some (range_text first last)) size ≡ some (first, min64 last (size - 1))
unfolding parse_range range_text
parse_range-range_text size first last u v o h =
    ap (λ o. bind o (range_of size)) (split_once-show_u64 45 first (show_u64 last) (omega arith))
    ∙ ap (λ t. bind (parse_u64 t) (λ s. bind (range_end size (trim (show_u64 last))) (in_order s)))
        (trim-show_u64 first)
    ∙ ap (λ n. bind n (λ s. bind (range_end size (trim (show_u64 last))) (in_order s)))
        (parse_u64-show_u64 first u)
    ∙ ap (λ t. bind (range_end size t) (in_order first)) (trim-show_u64 last)
    ∙ ap (λ e. bind e (in_order first))
        (range_end-printed size (show_u64 last) (show_u64-IsFilled last))
    ∙ ap (λ n. bind (bind n (λ w. some (min64 w (saturating_sub size 1)))) (in_order first))
        (parse_u64-show_u64 last v)
    ∙ ground arith

bind-some :
    {A B : Type 0} (o : Option A) (f : A → Option B) (b : B)
    → bind o f ≡ some b
    → (a : A) × (o ≡ some a) × (f a ≡ some b)
bind-some none f b h = cc
bind-some (some a) f b h = (a, refl, h)

range_end-le : (size : ℕ) (t : Text) (e : ℕ) → range_end size t ≡ some e → e ≤ size - 1
range_end-le size [] e h = ground arith
range_end-le size (c ∷ cs) e h =
    let (v, p, q) = bind-some (parse_u64 (c ∷ cs)) _ e h in ground arith

in_order-le : (start end s e : ℕ) → in_order start end ≡ some (s, e) → (s ≤ e) × (end ≡ e)
in_order-le start end s e h = (ground arith, ground arith)

-- A range that is read lies in the file, or, for an empty file, is its first byte.
pub parse_range_bounds :
    (header : Option Text) (size s e : ℕ)
    → parse_range header size ≡ some (s, e)
    → (s ≤ e) × (e ≤ size - 1)
unfolding parse_range
parse_range_bounds header size s e h =
    let (raw, p, h1) = bind-some header _ (s, e) h in
    let (spec, q, h2) = bind-some (strip_prefix bytes_eq raw) _ (s, e) h1 in
    let (parts, r, h3) = bind-some (split_once 45 spec) _ (s, e) h2 in
    let (start, u, h4) = bind-some (parse_u64 (trim parts.0)) _ (s, e) h3 in
    let (end, v, h5) = bind-some (range_end size (trim parts.1)) (in_order start) (s, e) h4 in
    let (le, same) = in_order-le start end s e h5 in
    (le, omega (arith, range_end-le size (trim parts.1) end v))
