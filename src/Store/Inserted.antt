-- ===== src/Store/Inserted.antt =====
-- What is read of a record that was inserted, whatever else is in the table.
use ai_gen.Prelude.{
  ◌≡◌, refl, sym, ap, ◌∙◌, true, false, none, some, unwrap, List, [], ◌∷◌, ◌++◌, arith,
  if◌then◌else◌, Text, same_text, same_text_sound, same_text_sym, Bool-cases, inl, inr,
}
use ai_gen.Prelude.Result.{ok, ◌>>=◌}
use ai_gen.RangeSet.Canonical.{DisjointFrom}
use ai_gen.RangeSet.Codec.RoundTrip.{decode-encode}
use ai_gen.Store.{Row, find_row, ranges_of}
use ai_gen.Store.Kept.{from_db-as_str}
use ai_gen.Store.Records.{
  ValidationState, validation_str, validation_from_db, DownloadRecord, row_of, record_with,
  row_to_record, read_row, get, has_row, insert_row, delete_row,
}

validation_from_db-validation_str :
    (v : ValidationState) → validation_from_db (validation_str v) ≡ v
validation_from_db-validation_str v = ground arith

-- What the table keeps of a record: the three columns that an insertion leaves at their defaults.
abbrev pub as_stored : DownloadRecord → DownloadRecord
as_stored d = record d { completed_at = none; error_message = none; clean_shutdown = false }

row_to_record-row_of :
    (d : DownloadRecord)
    → DisjointFrom 0 d.completed_ranges
    → row_to_record (row_of d) ≡ ok (as_stored d)
unfolding row_to_record row_of
row_to_record-row_of d c =
    ap (λ o. ranges_of o >>= (λ ranges. ok (record_with (row_of d) ranges)))
      (decode-encode d.completed_ranges c)
    ∙ (λ i. ok (record (as_stored d) {
      status = from_db-as_str d.status i;
      validation_state = validation_from_db-validation_str d.validation_state i;
    }))

find_row-append :
    (id : Text) (rows : List Row) (r : Row)
    → has_row id rows ≡ false
    → same_text r.id id ≡ true
    → find_row id (rows ++ r ∷ []) ≡ some r
find_row-append id [] r h e = rw e refl
find_row-append id (x ∷ xs) r h e = ground (arith, find_row-append id xs r)

find_row-append_other :
    (id : Text) (rows : List Row) (r : Row)
    → same_text r.id id ≡ false
    → find_row id (rows ++ r ∷ []) ≡ find_row id rows
find_row-append_other id [] r e = rw e refl
find_row-append_other id (x ∷ xs) r e =
    ap (λ rest. if same_text x.id id then some x else rest) (find_row-append_other id xs r e)

find_row-delete_row :
    (id other : Text) (rows : List Row)
    → find_row id (delete_row rows other) ≡ (if same_text id other then none else find_row id rows)
unfolding delete_row
find_row-delete_row id other [] = ground arith
find_row-delete_row id other (x ∷ xs) = elim (Bool-cases (same_text x.id other)) [
  | inl e ↦
      let named : same_text x.id id ≡ same_text id other =
        same_text_sym x.id id ∙ ap (same_text id) (same_text_sound x.id other e) in
      rw e (
        find_row-delete_row id other xs ∙ elim (Bool-cases (same_text id other)) [
          | inl h ↦ rw h refl
          | inr h ↦ rw h (ap (λ b. if b then some x else find_row id xs) (sym (named ∙ h)))
        ])
  | inr e ↦ rw e (elim (Bool-cases (same_text x.id id)) [
    | inl h ↦
        let apart : same_text id other ≡ false =
          ap (λ a. same_text a other) (sym (same_text_sound x.id id h)) ∙ e in
        rw h (rw apart refl)
    | inr h ↦ rw h (find_row-delete_row id other xs)
  ])
]

insert_row-some :
    (rows after : List Row) (d : DownloadRecord)
    → insert_row rows d ≡ some after
    → (has_row d.id rows ≡ false) × (after ≡ rows ++ row_of d ∷ [])
unfolding insert_row
insert_row-some rows after d h = elim (Bool-cases (has_row d.id rows)) [
  | inl taken ↦ absurd (ground (arith, taken))
  | inr fresh ↦ (
    fresh,
    unwrap after (rows ++ row_of d ∷ [])
        (sym h ∙ ap (λ b. if b then none else some (rows ++ row_of d ∷ [])) fresh),
  )
]

get-inserted :
    (rows : List Row) (d : DownloadRecord) (id : Text)
    → DisjointFrom 0 d.completed_ranges
    → has_row d.id rows ≡ false
    → get (rows ++ row_of d ∷ []) id
      ≡ (if same_text d.id id then ok (some (as_stored d)) else get rows id)
unfolding get row_of
get-inserted rows d id c fresh = elim (Bool-cases (same_text d.id id)) [
  | inr e ↦ rw e (ap read_row (find_row-append_other id rows (row_of d) e))
  | inl e ↦
      let here : has_row id rows ≡ false =
        ap (λ a. has_row a rows) (sym (same_text_sound d.id id e)) ∙ fresh in
      rw e (
        ap read_row (find_row-append id rows (row_of d) here e)
        ∙ ap (λ r. r >>= (λ x. ok (some x))) (row_to_record-row_of d c))
]

-- The row that was added last is the one that is deleted, with the rows of its name.
get-deleted :
    (rows : List Row) (d : DownloadRecord) (id : Text)
    → get (delete_row (rows ++ row_of d ∷ []) d.id) id
      ≡ (if same_text d.id id then ok none else get rows id)
unfolding get row_of
get-deleted rows d id =
    ap read_row (find_row-delete_row id d.id (rows ++ row_of d ∷ []))
    ∙ (elim (Bool-cases (same_text d.id id)) [
      | inl e ↦ rw (same_text_sym id d.id ∙ e) (rw e refl)
      | inr e ↦
          rw (same_text_sym id d.id ∙ e)
            (rw e (ap read_row (find_row-append_other id rows (row_of d) e)))
    ])

-- What becomes of a download that is inserted under a new identifier and then read: the record is read
-- back, with no completion, no error and no clean stop; every other download is read as before; and
-- once it is deleted, it is gone, and the others are read as before.
pub insert_get_delete :
    (rows after : List Row) (d : DownloadRecord) (id : Text)
    → DisjointFrom 0 d.completed_ranges
    → insert_row rows d ≡ some after
    → (get after id ≡ (if same_text d.id id then ok (some (as_stored d)) else get rows id))
      × (get (delete_row after d.id) id ≡ (if same_text d.id id then ok none else get rows id))
insert_get_delete rows after d id c h =
    let (fresh, e) = insert_row-some rows after d h in
    (
      ap (λ (t : List Row). get t id) e ∙ get-inserted rows d id c fresh,
      ap (λ (t : List Row). get (delete_row t d.id) id) e ∙ get-deleted rows d id,
    )
