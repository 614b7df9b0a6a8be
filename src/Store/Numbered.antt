-- ===== src/Store/Numbered.antt =====
-- The history of addresses of each download: numbered without gaps, in order, and redacted.
use ai_gen.Prelude.{
  ℕ, suc, ◌+◌, ◌≡◌, refl, sym, ap, ◌∙◌, none, some, unwrap, List, [], ◌∷◌, ◌++◌, arith, leb_of_le,
  ◌==◌, if◌then◌else◌, length, Text, same_text, same_text_sound, Bool-cases, if_both_eq, inl, inr,
}
use mathlib.Core.Path.{subst}
use ai_gen.Redact.{Urls, redact, host_of}
use ai_gen.Store.Records.{has_row}
use ai_gen.Store.History.{
  Db, Entry, UrlSource, next_seq, entries_of, by_seq, insert_by_seq, url_history, push_url_history,
}

-- Numbers one after the other from `n` on.
abbrev pub AllFrom : ℕ → List Entry → Type 0
AllFrom n [] = Unit {0}
AllFrom n (e ∷ es) = (e.seq ≡ n) × AllFrom (suc n) es

next_seq-AllFrom :
    (id : Text) (es : List Entry) (n : ℕ)
    → AllFrom n (entries_of id es)
    → next_seq id es ≡ (if length (entries_of id es) == 0 then 0 else n + length (entries_of id es))
unfolding next_seq entries_of
next_seq-AllFrom id [] n h = refl
next_seq-AllFrom id (e ∷ es) n h = elim (Bool-cases (same_text e.download_id id)) [
  | inr other ↦ rw other (
      next_seq-AllFrom id es n (
        subst (AllFrom n) (ap (λ b. if b then e ∷ entries_of id es else entries_of id es) other) h))
  | inl mine ↦
      let k : AllFrom n (e ∷ entries_of id es) =
        subst (AllFrom n) (ap (λ b. if b then e ∷ entries_of id es else entries_of id es) mine) h in
      rw mine (ground (arith, k.0, next_seq-AllFrom id es (suc n) k.1))
]

AllFrom-append :
    (n : ℕ) (es : List Entry) (e : Entry)
    → AllFrom n es
    → e.seq ≡ n + length es
    → AllFrom n (es ++ e ∷ [])
AllFrom-append n [] e h k = (omega (arith, k), tt)
AllFrom-append n (x ∷ xs) e h k = (h.0, AllFrom-append (suc n) xs e h.1 (omega (arith, k)))

by_seq-AllFrom : (n : ℕ) (es : List Entry) → AllFrom n es → by_seq es ≡ es
unfolding by_seq
by_seq-AllFrom n [] h = refl
by_seq-AllFrom n (e ∷ es) h =
    ap (insert_by_seq e) (by_seq-AllFrom (suc n) es h.1) ∙ goes_first n e es h
  where
    goes_first :
        (n : ℕ) (e : Entry) (es : List Entry) → AllFrom n (e ∷ es) → insert_by_seq e es ≡ e ∷ es
    goes_first n e [] h = refl
    goes_first n e (x ∷ xs) h = rw (leb_of_le e.seq x.seq (omega (arith, h.0, h.1.0))) refl

entries_of-append :
    (id : Text) (es : List Entry) (e : Entry)
    → entries_of id (es ++ e ∷ [])
      ≡ (if same_text e.download_id id then entries_of id es ++ e ∷ [] else entries_of id es)
unfolding entries_of
entries_of-append id [] e = refl
entries_of-append id (x ∷ xs) e = ground (arith, entries_of-append id xs e)

-- Every history is numbered from 0 on.
abbrev pub IsNumbered : Db → Type 0
IsNumbered db = (id : Text) → AllFrom 0 (entries_of id db.url_history)

url_history-IsNumbered :
    (db : Db) (id : Text) → IsNumbered db → url_history db id ≡ entries_of id db.url_history
unfolding url_history
url_history-IsNumbered db id w = by_seq-AllFrom 0 (entries_of id db.url_history) (w id)

next_seq-length :
    (db : Db) (id : Text)
    → IsNumbered db
    → next_seq id db.url_history ≡ length (entries_of id db.url_history)
next_seq-length db id w = ground (arith, next_seq-AllFrom id db.url_history 0 (w id))

module _ {U : Type 0} (urls : Urls U) (db after : Db) (id url : Text) (source : UrlSource)
    (outcome : Text) (bytes now : ℕ) where
  -- The entry that is appended to the history of `id`, with the next number.
  abbrev pub added : Entry
  added = record {
    download_id = id;
    seq = length (url_history db id);
    url_redacted = redact urls url;
    host = host_of urls url;
    source = source;
    outcome = outcome;
    bytes_done_at_swap = bytes;
    added_at = now;
  }

  pushed :
      IsNumbered db
      → push_url_history urls db id url source outcome bytes now ≡ some after
      → after ≡ record db { url_history = db.url_history ++ added ∷ [] }
  unfolding push_url_history
  pushed w h = elim (Bool-cases (has_row id db.downloads)) [
    | inr no_row ↦ absurd (ground (arith, no_row))
    | inl row ↦
        let result : Db = record db {
          url_history = db.url_history ++ record added { seq = next_seq id db.url_history } ∷ [];
        } in
        sym (unwrap result after (sym (ap (λ b. if b then some result else none) row) ∙ h))
        ∙ ap {B = Db}
            (λ n. record db { url_history = db.url_history ++ record added { seq = n } ∷ [] })
            (next_seq-length db id w ∙ ap length (sym (url_history-IsNumbered db id w)))
  ]

  -- The entries of a download after it.
  entries_after :
      (other : Text)
      → after ≡ record db { url_history = db.url_history ++ added ∷ [] }
      → entries_of other after.url_history ≡ (
          if same_text id other
          then entries_of other db.url_history ++ added ∷ []
          else entries_of other db.url_history)
  entries_after other e =
      ap {A = Db} (λ d. entries_of other d.url_history) e
      ∙ entries_of-append other db.url_history added

  pushed-IsNumbered :
      IsNumbered db
      → after ≡ record db { url_history = db.url_history ++ added ∷ [] }
      → IsNumbered after
  pushed-IsNumbered w e other = subst (AllFrom 0) (sym (entries_after other e)) (
      if_both_eq (AllFrom 0) (same_text id other) _ _
        (λ mine. AllFrom-append 0 (entries_of other db.url_history) added (w other) (
          ap length (url_history-IsNumbered db id w)
          ∙ ap (λ t. length (entries_of t db.url_history)) (same_text_sound id other mine)
          ∙ (let z : length (entries_of other db.url_history)
                  ≡ 0 + length (entries_of other db.url_history) =
                omega arith in
              z)))
        (λ theirs. w other))

-- Where every history is numbered from 0 on without gaps, an address that is pushed is appended to the
-- history of its download with the next number and without its secrets, every other history is as it
-- was, and every history is numbered so again.
pub push_url_history_appends :
    {U : Type 0} (urls : Urls U) (db after : Db) (id url : Text) (source : UrlSource)
    (outcome : Text) (bytes now : ℕ) (other : Text)
    → IsNumbered db
    → push_url_history urls db id url source outcome bytes now ≡ some after
    → IsNumbered after
      × (url_history after other ≡ (
          if same_text id other
          then url_history db other ++ added urls db after id url source outcome bytes now ∷ []
          else url_history db other))
push_url_history_appends urls db after id url source outcome bytes now other w h =
    let e = pushed urls db after id url source outcome bytes now w h in
    let v = pushed-IsNumbered urls db after id url source outcome bytes now w e in
    (
      v,
      url_history-IsNumbered after other v
          ∙ entries_after urls db after id url source outcome bytes now other e
          ∙ ap
              (λ es.
                if same_text id other
                then es ++ added urls db after id url source outcome bytes now ∷ []
                else es)
              (sym (url_history-IsNumbered db other w)),
    )
