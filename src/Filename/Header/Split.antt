-- ===== src/Filename/Header/Split.antt =====
-- crates/swiftload-core/src/util/filename.rs: `split_header_params` loses nothing of the header.
use ai_gen.Prelude.{
  ℕ, ◌≡◌, refl, sym, ap, ◌∙◌, Bool, true, false, not, ◌&&◌, List, [], ◌∷◌, ◌++◌, ◌==◌,
  if◌then◌else◌, Text, arith,
}
use mathlib.Core.List.{append_assoc, append-nil}
use ai_gen.Filename.Header.{
  Splitting, split_step, split_loop, split_start, split_end, split_header_params, quote, escape,
  semicolon,
}

-- The pieces with the mark between them.
unfoldable pub join : ℕ → List Text → Text
join mark [] = []
join mark (x ∷ []) = x
join mark (x ∷ y ∷ ys) = x ++ (mark ∷ join mark (y ∷ ys))

abbrev with_last : List Text → Text → List Text
with_last parts cur = parts ++ (cur ∷ [])

join-with_last :
    (mark : ℕ) (x : Text) (parts : List Text) (cur : Text)
    → join mark (x ∷ with_last parts cur) ≡ x ++ (mark ∷ join mark (with_last parts cur))
unfolding join
join-with_last mark x [] cur = refl
join-with_last mark x (y ∷ ys) cur = refl

-- The last piece grows at the end of the text.
join-push :
    (mark : ℕ) (parts : List Text) (cur more : Text)
    → join mark (with_last parts (cur ++ more)) ≡ join mark (with_last parts cur) ++ more
unfolding join
join-push mark [] cur more = refl
join-push mark (x ∷ parts) cur more =
    join-with_last mark x parts (cur ++ more)
    ∙ ap (λ r. x ++ (mark ∷ r)) (join-push mark parts cur more)
    ∙ sym (append_assoc x (mark ∷ join mark (with_last parts cur)) more)
    ∙ ap (λ r. r ++ more) (sym (join-with_last mark x parts cur))

-- A new piece is the mark at the end of the text.
join-next :
    (mark : ℕ) (parts : List Text) (cur : Text)
    → join mark (with_last (with_last parts cur) [])
      ≡ join mark (with_last parts cur) ++ (mark ∷ [])
unfolding join
join-next mark [] cur = refl
join-next mark (x ∷ parts) cur =
    join-with_last mark x (with_last parts cur) []
    ∙ ap (λ r. x ++ (mark ∷ r)) (join-next mark parts cur)
    ∙ sym (append_assoc x (mark ∷ join mark (with_last parts cur)) (mark ∷ []))
    ∙ ap (λ r. r ++ (mark ∷ [])) (sym (join-with_last mark x parts cur))

Joined : Splitting → Text → Type 0
Joined t s = join semicolon (split_end t) ≡ s

if_four :
    {A : Type 0} (P : A → Type 0) (a b c : Bool) (x y z w : A)
    → P x
    → P y
    → (c ≡ true → P z)
    → P w
    → P (if a then x else if b then y else if c then z else w)
if_four P true b c x y z w p q r s = p
if_four P false true c x y z w p q r s = q
if_four P false false true x y z w p q r s = r refl
if_four P false false false x y z w p q r s = s

split_step-Joined :
    (t : Splitting) (c : ℕ) → Joined (split_step t c) (join semicolon (split_end t) ++ (c ∷ []))
unfolding split_step Joined
split_step-Joined t c =
    let pushed = join-push semicolon t.parts t.cur (c ∷ []) in
    let goal = join semicolon (split_end t) ++ (c ∷ []) in
    if_four (λ u. Joined u goal) (c == escape && (t.in_quotes && not t.escaped))
      (c == quote && not t.escaped) (c == semicolon && not t.in_quotes) _ _ _ _ pushed pushed
      (λ e.
        join-next semicolon t.parts t.cur
        ∙ ap (λ m. join semicolon (split_end t) ++ (m ∷ [])) (ground (arith, e)))
      pushed

split_loop-Joined :
    (t : Splitting) (s : Text) → Joined (split_loop t s) (join semicolon (split_end t) ++ s)
unfolding split_loop Joined
split_loop-Joined t [] = sym (append-nil (join semicolon (split_end t)))
split_loop-Joined t (c ∷ cs) =
    split_loop-Joined (split_step t c) cs
    ∙ ap (λ r. r ++ cs) (split_step-Joined t c)
    ∙ append_assoc (join semicolon (split_end t)) (c ∷ []) cs

-- The parameters of a header with a semicolon between them are the header.
pub join-split_header_params :
    (header : Text) → join semicolon (split_header_params header) ≡ header
unfolding split_header_params join Joined
join-split_header_params header = split_loop-Joined split_start header
