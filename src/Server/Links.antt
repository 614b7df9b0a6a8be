-- ===== src/Server/Links.antt =====
-- Which signed links the test server serves, over the whole life of a link.
use ai_gen.Prelude.{
  ℕ, ◌≡◌, refl, sym, ap, ◌∙◌, Bool, true, false, not, ◌&&◌, ◌||◌, Option, some, List, [], ◌∷◌,
  arith, if◌then◌else◌, Bool-cases, inl, inr, Text, same_text, same_text_sound, same_text_refl,
  if_both,
}
use ai_gen.Server.{
  AppState, Scenario, Query, Reply, answer, serve, serve_open, is_full, counted_request, is_honest,
  asks_for_bytes, is_some, parse_range, counted_kind,
}
use ai_gen.Server.Routes.{
  h_plain, h_signed, h_mint, h_expire, tokens_of, contains, is_valid, scenario_of, add_token,
  remove_seed, counted_403,
}

abbrev valid : Text → Text → List (Text × List Text) → Bool
valid token seed m = is_valid (some token) (tokens_of seed m)

contains_added :
    (t k : Text) (ts : List Text)
    → contains t (if contains k ts then ts else k ∷ ts) ≡ (same_text k t || contains t ts)
contains_added t k ts = elim (Bool-cases (contains k ts)) [
  | inr new ↦ rw new refl
  | inl old ↦ elim (Bool-cases (same_text k t)) [
    | inr other ↦ rw old (rw other refl)
    | inl same ↦ rw old (rw same (ap (λ x. contains x ts) (sym (same_text_sound k t same)) ∙ old))
  ]
]

-- Another text than `x` is not the text that `x` is.
differs :
    (x s seed : Text) → same_text x s ≡ false → same_text x seed ≡ true → same_text s seed ≡ false
differs x s seed n h = elim (Bool-cases (same_text s seed)) [
  | inr no_match ↦ no_match
  | inl e ↦ cc (
      sym (same_text_refl x)
      ∙ ap (same_text x) (same_text_sound x seed h ∙ sym (same_text_sound s seed e))
      ∙ n)
]

valid_cons :
    (t seed x : Text) (ts : List Text) (rest : List (Text × List Text))
    → valid t seed ((x, ts) ∷ rest)
      ≡ (if same_text x seed then contains t ts else valid t seed rest)
valid_cons t seed x ts rest = ground arith

-- The first entry is for the seed that a token is added to.
added_here :
    (t seed s k x : Text) (ts : List Text) (rest : List (Text × List Text))
    → same_text x s ≡ true
    → valid t seed ((x, if contains k ts then ts else k ∷ ts) ∷ rest)
      ≡ ((same_text s seed && same_text k t) || valid t seed ((x, ts) ∷ rest))
added_here t seed s k x ts rest e =
    let named : same_text s seed ≡ same_text x seed =
      ap (λ a. same_text a seed) (sym (same_text_sound x s e)) in
    elim (Bool-cases (same_text x seed)) [
      | inl h ↦ rw (named ∙ h) (rw h (contains_added t k ts))
      | inr h ↦ rw (named ∙ h) (rw h refl)
    ]

valid-add_token :
    (t seed s k : Text) (m : List (Text × List Text))
    → valid t seed (add_token s k m) ≡ ((same_text s seed && same_text k t) || valid t seed m)
valid-add_token t seed s k [] = ground arith
valid-add_token t seed s k ((x, ts) ∷ rest) = elim (Bool-cases (same_text x s)) [
  | inl e ↦ rw e (added_here t seed s k x ts rest e)
  | inr e ↦ rw e (elim (Bool-cases (same_text x seed)) [
    | inl h ↦ rw (differs x s seed e h) (rw h refl)
    | inr h ↦ rw h (valid-add_token t seed s k rest)
  ])
]

valid-remove_seed :
    (t seed s : Text) (m : List (Text × List Text))
    → valid t seed (remove_seed s m) ≡ (if same_text s seed then false else valid t seed m)
valid-remove_seed t seed s [] = ground arith
valid-remove_seed t seed s ((x, ts) ∷ rest) = elim (Bool-cases (same_text x s)) [
  | inl e ↦
      let named : same_text x seed ≡ same_text s seed =
        ap (λ a. same_text a seed) (same_text_sound x s e) in
      rw e (
        valid-remove_seed t seed s rest ∙ elim (Bool-cases (same_text s seed)) [
          | inl h ↦ rw h refl
          | inr h ↦ rw (named ∙ h) (rw h refl)
        ])
  | inr e ↦ rw e (elim (Bool-cases (same_text x seed)) [
    | inl h ↦ rw (differs x s seed e h) (rw h refl)
    | inr h ↦ rw h (valid-remove_seed t seed s rest)
  ])
]

-- What is done to the server: links are made and expire, and requests are answered.
pub data Op : Type 0 where
  minted : (seed token : Text) → Query → Op
  expired : (seed : Text) → Op
  asked : Scenario → Option Text → Op
  visited : (seed : Text) → ℕ → Query → Option Text → Op

unfoldable pub perform : Op → AppState → AppState
unfolding h_mint h_expire serve h_signed
perform (minted seed token q) st = (h_mint st token seed q).0
perform (expired seed) st = (h_expire st seed).0
perform (asked sc header) st = (serve st sc header).0
perform (visited seed size q range) st = (h_signed st seed size q range).0

unfoldable pub perform_all : List Op → AppState → AppState
unfolding perform
perform_all [] st = st
perform_all (op ∷ ops) st = perform_all ops (perform op st)

-- Whether a token is live: made for the seed, and not expired since.
abbrev pub live_after : Text → Text → Op → Bool → Bool
live_after token seed (minted s k q) before = (same_text s seed && same_text k token) || before
live_after token seed (expired s) before = if same_text s seed then false else before
live_after token seed (asked sc header) before = before
live_after token seed (visited s size q range) before = before

unfoldable pub is_live : Text → Text → List Op → Bool → Bool
is_live token seed [] before = before
is_live token seed (op ∷ ops) before = is_live token seed ops (live_after token seed op before)

kind_signed : (b : Bool) (st : AppState) → (counted_kind b st).signed ≡ st.signed
kind_signed true st = refl
kind_signed false st = refl

serve_open-signed :
    (st : AppState) (sc : Scenario) (header : Option Text)
    → (serve_open st sc header).0.signed ≡ st.signed
unfolding serve_open
serve_open-signed st sc header =
    let b = is_some (parse_range header sc.size) in
    if_both (λ (r : AppState × Reply). r.0.signed ≡ st.signed)
      (is_honest sc.ranges && asks_for_bytes header && not b) _ _ (kind_signed b st)
      (kind_signed b st)

serve-signed :
    (st : AppState) (sc : Scenario) (header : Option Text)
    → (serve st sc header).0.signed ≡ st.signed
unfolding serve
serve-signed st sc header =
    if_both (λ (r : AppState × Reply). r.0.signed ≡ st.signed) (is_full sc.max_conn st.live_streams)
      _ _ refl (serve_open-signed (counted_request st) sc header)

visit-signed :
    (st : AppState) (s : Text) (size : ℕ) (q : Query) (range : Option Text)
    → (h_signed st s size q range).0.signed ≡ st.signed
unfolding h_signed h_plain
visit-signed st s size q range =
    if_both (λ (r : AppState × Reply). r.0.signed ≡ st.signed)
      (is_valid q.token (tokens_of s st.signed)) _ _ (serve-signed st (scenario_of s size q) range)
      refl

perform-valid :
    (t seed : Text) (op : Op) (st : AppState)
    → valid t seed (perform op st).signed ≡ live_after t seed op (valid t seed st.signed)
unfolding perform h_mint h_expire
perform-valid t seed (minted s k q) st = valid-add_token t seed s k st.signed
perform-valid t seed (expired s) st = valid-remove_seed t seed s st.signed
perform-valid t seed (asked sc header) st = ap (valid t seed) (serve-signed st sc header)
perform-valid t seed (visited s size q range) st =
    ap (valid t seed) (visit-signed st s size q range)

perform_all-valid :
    (t seed : Text) (ops : List Op) (st : AppState)
    → valid t seed (perform_all ops st).signed ≡ is_live t seed ops (valid t seed st.signed)
unfolding perform_all is_live
perform_all-valid t seed [] st = refl
perform_all-valid t seed (op ∷ ops) st =
    perform_all-valid t seed ops (perform op st)
    ∙ ap (is_live t seed ops) (perform-valid t seed op st)

-- Whatever links were made, expired and visited, and whatever requests were served, at a server that had
-- no links before: a signed address is served, as the plain one would be, if its token was made for the
-- seed and the seed's links did not expire since, and is refused with 403 otherwise.
pub h_signed-is_live :
    (ops : List Op) (st : AppState) (token seed : Text) (size : ℕ) (q : Query) (range : Option Text)
    → st.signed ≡ []
    → q.token ≡ some token
    → h_signed (perform_all ops st) seed size q range ≡ (
        if is_live token seed ops false
        then h_plain (perform_all ops st) seed size q range
        else (counted_403 (perform_all ops st), answer 403))
unfolding h_signed
h_signed-is_live ops st token seed size q range e k =
    ap
      (λ b.
        if b
        then h_plain (perform_all ops st) seed size q range
        else (counted_403 (perform_all ops st), answer 403))
      (ap (λ t. is_valid t (tokens_of seed (perform_all ops st).signed)) k
        ∙ perform_all-valid token seed ops st
        ∙ ap (λ m. is_live token seed ops (valid token seed m)) e)
