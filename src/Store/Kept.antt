-- ===== src/Store/Kept.antt =====
-- crates/swiftload-core/src/store/mod.rs: the checkpoint of a download survives what else is done to the
-- table.
use ai_gen.Prelude.{
  ℕ, unwrap, ◌≡◌, refl, sym, ap, ◌∙◌, Bool, true, false, not, ◌&&◌, Option, some, List, [], ◌∷◌,
  if◌then◌else◌, Text, same_text, arith, if_both, if_both_eq, Bool-cases, inl, inr,
}
use ai_gen.Prelude.Result.{ok}
use ai_gen.Config.{paranoid_rewind}
use ai_gen.RangeSet.{RangeSet, rewind_tails}
use ai_gen.RangeSet.Canonical.{DisjointFrom}
use ai_gen.RangeSet.Codec.{encode, decode}
use ai_gen.RangeSet.Codec.RoundTrip.{decode-encode}
use ai_gen.Store.{
  Row, DownloadStatus, NewLink, update_where, find_row, checkpoint, set_status, mark_clean,
  clear_clean_flags, swap_url, resume_state, state_of, rewound, ranges_of, as_str, from_db,
}

-- What is done to the table, on the row of any download.
pub data Op : Type 0 where
  saved : Text → RangeSet → ℕ → Op
  status_set : Text → DownloadStatus → Option Text → ℕ → Op
  marked : Text → Bool → Op
  started : Op
  swapped : Text → NewLink → Op

unfoldable pub perform : Op → List Row → List Row
unfolding checkpoint set_status mark_clean clear_clean_flags swap_url
perform (saved id ranges bytes_done) rows = (checkpoint rows id ranges bytes_done).0
perform (status_set id status error now) rows = set_status rows id status error now
perform (marked id clean) rows = mark_clean rows id clean
perform started rows = clear_clean_flags rows
perform (swapped id link) rows = (swap_url rows id link).0

unfoldable pub perform_all : List Op → List Row → List Row
unfolding perform
perform_all [] rows = rows
perform_all (op ∷ ops) rows = perform_all ops (perform op rows)

-- The set that was saved last for `id`, and whether its last flag says that it stopped cleanly.
abbrev pub last_set : Text → Op → RangeSet → RangeSet
last_set id (saved other ranges bytes_done) before = if same_text id other then ranges else before
last_set id _ before = before

abbrev pub last_flag : Text → Op → Bool → Bool
last_flag id (marked other clean) before = if same_text id other then clean else before
last_flag id started before = false
last_flag id _ before = before

unfoldable pub last_sets : Text → List Op → RangeSet → RangeSet
last_sets id [] before = before
last_sets id (op ∷ ops) before = last_sets id ops (last_set id op before)

unfoldable pub last_flags : Text → List Op → Bool → Bool
last_flags id [] before = before
last_flags id (op ∷ ops) before = last_flags id ops (last_flag id op before)

-- The table has a row for `id` with this set and this flag.
pub record Holds (id : Text) (ranges : RangeSet) (clean : Bool) (rows : List Row) : Type 0 where
  pub row : Row
  pub here : find_row id rows ≡ some row
  pub named : row.id ≡ id
  pub held : row.completed_ranges ≡ encode ranges
  pub flag : row.clean_shutdown ≡ clean

-- An update that leaves the name reaches the row of `id` exactly if it is for `id`.
pub find_row-update_where :
    (id other : Text) (set : Row → Row) (rows : List Row) (r : Row)
    → ((x : Row) → (set x).id ≡ x.id)
    → find_row id rows ≡ some r
    → r.id ≡ id
    → find_row id (update_where other set rows) ≡ some (if same_text id other then set r else r)
find_row-update_where id other set [] r k h e = ground arith
find_row-update_where id other set (x ∷ xs) r k h e =
    let y : Row = if same_text x.id other then set x else x in
    let name : y.id ≡ x.id =
      if_both (λ z. z.id ≡ x.id) (same_text x.id other) (set x) x (k x) refl in
    let tested = ap (λ t. same_text t id) name in
    elim (Bool-cases (same_text x.id id)) [
      | inl m ↦
          let same : x ≡ r =
            unwrap x r (sym (ap (λ b. if b then some x else find_row id xs) m) ∙ h) in
          ap (λ b. if b then some y else find_row id (update_where other set xs)) (tested ∙ m)
          ∙ ap some (
              ap {B = Row} (λ z. if same_text z.id other then set z else z) same
              ∙ ap (λ t. if same_text t other then set r else r) e)
      | inr m ↦
          ap (λ b. if b then some y else find_row id (update_where other set xs)) (tested ∙ m)
          ∙ find_row-update_where id other set xs r k
              (sym (ap (λ b. if b then some x else find_row id xs) m) ∙ h) e
    ]

update_where-Holds :
    (id other : Text) (set : Row → Row) (ranges after : RangeSet) (clean flag : Bool)
    (rows : List Row)
    → ((x : Row) → (set x).id ≡ x.id)
    → ((x : Row)
        → x.completed_ranges ≡ encode ranges
        → x.clean_shutdown ≡ clean
        → same_text id other ≡ true
        → ((set x).completed_ranges ≡ encode after) × ((set x).clean_shutdown ≡ flag))
    → (same_text id other ≡ false → (after ≡ ranges) × (flag ≡ clean))
    → Holds id ranges clean rows
    → Holds id after flag (update_where other set rows)
update_where-Holds id other set ranges after clean flag rows k into past h =
    let y : Row = if same_text id other then set h.row else h.row in
    let parts : (y.id ≡ id) × (y.completed_ranges ≡ encode after) × (y.clean_shutdown ≡ flag) =
      if_both_eq
        (λ z. (z.id ≡ id) × (z.completed_ranges ≡ encode after) × (z.clean_shutdown ≡ flag))
        (same_text id other) (set h.row) h.row
        (λ m. let p = into h.row h.held h.flag m in (k h.row ∙ h.named, p.0, p.1))
        (λ m. let p = past m in (h.named, h.held ∙ ap encode (sym p.0), h.flag ∙ sym p.1)) in
    record {
      row = y;
      here = find_row-update_where id other set rows h.row k h.here h.named;
      named = parts.0;
      held = parts.1;
      flag = parts.2;
    }

pub clear_clean_flags-find_row :
    (id : Text) (rows : List Row) (r : Row)
    → find_row id rows ≡ some r
    → find_row id (clear_clean_flags rows) ≡ some (record r { clean_shutdown = false })
unfolding clear_clean_flags
clear_clean_flags-find_row id [] r h = ground arith
clear_clean_flags-find_row id (x ∷ xs) r h = elim (Bool-cases (same_text x.id id)) [
  | inl m ↦
      ap
        (λ b.
          if b
          then some (record x { clean_shutdown = false })
          else find_row id (clear_clean_flags xs))
        m
      ∙ ap {B = Option Row} (λ z. some (record z { clean_shutdown = false }))
          (unwrap x r (sym (ap (λ b. if b then some x else find_row id xs) m) ∙ h))
  | inr m ↦
      ap
        (λ b.
          if b
          then some (record x { clean_shutdown = false })
          else find_row id (clear_clean_flags xs))
        m
      ∙ clear_clean_flags-find_row id xs r
          (sym (ap (λ b. if b then some x else find_row id xs) m) ∙ h)
]

perform-Holds :
    (id : Text) (op : Op) (ranges : RangeSet) (clean : Bool) (rows : List Row)
    → Holds id ranges clean rows
    → Holds id (last_set id op ranges) (last_flag id op clean) (perform op rows)
unfolding perform checkpoint set_status mark_clean swap_url
perform-Holds id (saved other xs n) ranges clean rows h =
    update_where-Holds id other _ ranges _ clean clean rows (λ x. refl)
      (λ x p q m. (ap (λ b. encode (if b then xs else ranges)) (sym m), q))
      (λ m. (ap (λ b. if b then xs else ranges) m, refl)) h
perform-Holds id (status_set other s e now) ranges clean rows h =
    update_where-Holds id other _ ranges ranges clean clean rows (λ x. refl) (λ x p q m. (p, q))
      (λ m. (refl, refl)) h
perform-Holds id (marked other b) ranges clean rows h =
    update_where-Holds id other _ ranges ranges clean _ rows (λ x. refl)
      (λ x p q m. (p, ap (λ t. if t then b else clean) (sym m)))
      (λ m. (refl, ap (λ t. if t then b else clean) m)) h
perform-Holds id started ranges clean rows h = record {
  row = record h.row { clean_shutdown = false };
  here = clear_clean_flags-find_row id rows h.row h.here;
  named = h.named;
  held = h.held;
  flag = refl;
}
perform-Holds id (swapped other link) ranges clean rows h =
    update_where-Holds id other _ ranges ranges clean clean rows (λ x. refl) (λ x p q m. (p, q))
      (λ m. (refl, refl)) h

perform_all-Holds :
    (id : Text) (ops : List Op) (ranges : RangeSet) (clean : Bool) (rows : List Row)
    → Holds id ranges clean rows
    → Holds id (last_sets id ops ranges) (last_flags id ops clean) (perform_all ops rows)
unfolding perform_all last_sets last_flags
perform_all-Holds id [] ranges clean rows h = h
perform_all-Holds id (op ∷ ops) ranges clean rows h =
    perform_all-Holds id ops (last_set id op ranges) (last_flag id op clean) (perform op rows)
      (perform-Holds id op ranges clean rows h)

Holds-resume_state :
    (id : Text) (ranges : RangeSet) (clean paranoid : Bool) (rows : List Row)
    → DisjointFrom 0 ranges
    → Holds id ranges clean rows
    → resume_state rows id paranoid
      ≡ ok
          (if not clean && paranoid then rewind_tails ranges paranoid_rewind else ranges, not clean)
unfolding resume_state state_of rewound
Holds-resume_state id ranges clean paranoid rows c h =
    ap (state_of paranoid id) h.here
    ∙ ap (λ b. rewound (not b) paranoid (ranges_of (decode h.row.completed_ranges))) h.flag
    ∙ ap (λ bytes. rewound (not clean) paranoid (ranges_of (decode bytes))) h.held
    ∙ ap (λ r. rewound (not clean) paranoid (ranges_of r)) (decode-encode ranges c)

pub perform_all-resume_state :
    (id : Text) (ops : List Op) (ranges : RangeSet) (clean paranoid : Bool) (rows : List Row)
    → Holds id ranges clean rows
    → DisjointFrom 0 (last_sets id ops ranges)
    → resume_state (perform_all ops rows) id paranoid
      ≡ ok (
        if not (last_flags id ops clean) && paranoid
            then rewind_tails (last_sets id ops ranges) paranoid_rewind
            else last_sets id ops ranges,
        not (last_flags id ops clean),
      )
perform_all-resume_state id ops ranges clean paranoid rows h c =
    Holds-resume_state id (last_sets id ops ranges) (last_flags id ops clean) paranoid
      (perform_all ops rows) c (perform_all-Holds id ops ranges clean rows h)

-- Every status is read back from the text that it is stored as.
pub from_db-as_str : (s : DownloadStatus) → from_db (as_str s) ≡ s
from_db-as_str s = ground arith
