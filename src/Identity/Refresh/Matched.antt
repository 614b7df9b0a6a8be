-- ===== src/Identity/Refresh/Matched.antt =====
-- What a replacement link has been compared with before a download goes on with it.
use ai_gen.Prelude.{
  ℕ, ◌+◌, ◌*◌, ◌≤◌, ◌≡◌, refl, sym, ap, ◌∙◌, Bool, true, false, not, ◌&&◌, Option, none, some, List,
  [], ◌∷◌, arith, ltb, ◌==◌, if◌then◌else◌, length, add64, sub64, Text, Bool-cases, inl, inr,
}
use mathlib.Core.Path.{subst}
use ai_gen.Prelude.Result.{Result, ok, err}
use ai_gen.RangeSet.{RangeSet, total}
use ai_gen.Probe.{ProbeResult, is_supported}
use ai_gen.Worker.Request.{range_text}
use ai_gen.Identity.{
  ResourceSignals, Preliminary, Evidence, Verdict, resume, confirm, rejected, restart, reject,
  restart_only, compare, compare_sizes, compare_signals, finalize, verdict_of, first_difference,
  choose_windows, accept, verify_then_accept, verify_then_confirm,
}
use ai_gen.Identity.Verdicts.{first_difference_iff}
use ai_gen.Identity.Refresh.Budget.{AllShort, choose_windows_budget, choose_windows-empty}
use ai_gen.Identity.Refresh.{
  client, io, Surroundings, Checked, validate_answer, Fetched, lost, replied, broken, unconfirmed,
  differed, matched, on_difference, on_body, on_reply, on_local, check_windows, is_settled,
  conclude, verify, validate_probed, validate_replacement_url, ValidationReport, RefreshError,
  from_probe, window_count,
}

-- The verdicts behind which a download goes on, at once or when the user agrees.
abbrev pub goes_on : Verdict → Bool
goes_on (resume ev) = true
goes_on (confirm ev) = true
goes_on (rejected r) = false
goes_on restart = false

-- The link has sent, as a partial response, just what is on disk there.
abbrev pub Matches : Surroundings → ℕ × ℕ → Type 0
Matches s (off, len) =
    (local : List ℕ) × (s.read_at off len ≡ some local)
    × (s.fetch (range_text off (sub64 (add64 off len) 1)) ≡ replied 206 (some local))

abbrev pub AllMatch : Surroundings → List (ℕ × ℕ) → Type 0
AllMatch s [] = Unit {0}
AllMatch s (w ∷ ws) = Matches s w × AllMatch s ws

module _ (off verified n : ℕ) (local : List ℕ) (rest : ℕ → Checked) where
  on_difference-matched :
      (d : Option ℕ) (v : ℕ)
      → on_difference d v rest ≡ matched n
      → (d ≡ none) × (rest v ≡ matched n)
  on_difference-matched none v h = (refl, h)
  on_difference-matched (some at) v h = cc

  on_body-matched :
      (body : Option (List ℕ))
      → on_body off local verified rest body ≡ matched n
      → (body ≡ some local) × (rest (add64 verified (length local)) ≡ matched n)
  on_body-matched none h = cc
  on_body-matched (some remote) h =
      let (same, later) = on_difference-matched (first_difference off local remote) _ h in
      let e : local ≡ remote = (first_difference_iff off local remote).0 same in
      (ap (λ bs. some bs) (sym e), ap (λ bs. rest (add64 verified (length bs))) e ∙ later)

  on_reply-matched :
      (f : Fetched)
      → on_reply off local verified rest f ≡ matched n
      → (f ≡ replied 206 (some local)) × (rest (add64 verified (length local)) ≡ matched n)
  on_reply-matched lost h = cc
  on_reply-matched (replied status body) h = elim (Bool-cases (status == 206)) [
    | inr other ↦ absurd (ground (arith, other))
    | inl partial ↦
        let (same, later) = on_body-matched body (
          sym (
            ap (λ b. if b then on_body off local verified rest body else unconfirmed off verified)
              partial)
          ∙ h) in
        (
          ap (λ c. replied c body) (let e : status ≡ 206 = ground (arith, partial) in e)
              ∙ ap (λ b. replied 206 b) same,
          later,
        )
  ]

on_local-matched :
    (s : Surroundings) (off len verified n : ℕ) (rest : ℕ → Checked) (o : Option (List ℕ))
    → s.read_at off len ≡ o
    → on_local s off len verified rest o ≡ matched n
    → (m : Matches s (off, len)) × (rest (add64 verified (length m.0)) ≡ matched n)
on_local-matched s off len verified n rest none e h = cc
on_local-matched s off len verified n rest (some local) e h =
    let (f, later) =
      on_reply-matched off verified n local rest
        (s.fetch (range_text off (sub64 (add64 off len) 1))) h in
    ((local, e, f), later)

-- What `read_at` gives fits its buffer.
abbrev pub ReadsWithin : Surroundings → Type 0
ReadsWithin s = (off len : ℕ) (local : List ℕ) → s.read_at off len ≡ some local → length local ≤ len

check_windows-matched :
    (s : Surroundings) (ws : List (ℕ × ℕ)) (verified n : ℕ)
    → check_windows s ws verified ≡ matched n
    → AllMatch s ws
unfolding check_windows
check_windows-matched s [] verified n h = tt
check_windows-matched s ((off, len) ∷ ws) verified n h =
    let (m, later) =
      on_local-matched s off len verified n (check_windows s ws) (s.read_at off len) refl h in
    (m, check_windows-matched s ws (add64 verified (length m.0)) n later)

check_windows-le :
    (s : Surroundings) (ws : List (ℕ × ℕ)) (verified n : ℕ)
    → ReadsWithin s
    → AllShort 65536 ws
    → check_windows s ws verified ≡ matched n
    → n ≤ verified + length ws * 65536
unfolding check_windows
check_windows-le s [] verified n r a h = ground arith
check_windows-le s ((off, len) ∷ ws) verified n r a h =
    let (m, later) =
      on_local-matched s off len verified n (check_windows s ws) (s.read_at off len) refl h in
    omega (
      arith,
      r off len m.0 m.1,
      a.0,
      check_windows-le s ws (add64 verified (length m.0)) n r a.1 later,
    )

-- Headers that settle nothing come with ranges.
signals_settled :
    (b : Bool) (old new : ResourceSignals)
    → is_settled (compare_signals b old new).0 ≡ false
    → is_supported new.range_support ≡ true
unfolding compare_signals
signals_settled b old new h = elim (Bool-cases (is_supported new.range_support)) [
  | inl e ↦ e
  | inr e ↦ absurd (ground (arith, e))
]

sizes_settled :
    (a b : Option ℕ) (old new : ResourceSignals)
    → is_settled (compare_sizes a b old new).0 ≡ false
    → is_supported new.range_support ≡ true
unfolding compare_sizes
sizes_settled (some a) (some b) old new h = elim (Bool-cases (a == b)) [
  | inr differ ↦ absurd (ground (arith, differ))
  | inl same ↦ signals_settled true old new (ground (arith, same))
]
sizes_settled (some a) none old new h = signals_settled false old new h
sizes_settled none b old new h = signals_settled false old new h

goes_on-is_settled :
    (pre : Preliminary) (ev : Evidence)
    → goes_on (verdict_of pre ev) ≡ true
    → is_settled pre ≡ false
goes_on-is_settled accept ev h = refl
goes_on-is_settled verify_then_accept ev h = refl
goes_on-is_settled verify_then_confirm ev h = refl
goes_on-is_settled (reject r) ev h = cc
goes_on-is_settled restart_only ev h = cc

-- What a report that goes on says, where the loop was run over the windows.
pub record Sound (s : Surroundings) (ws : List (ℕ × ℕ)) (r : ValidationReport) : Type 0 where
  pub all_match : AllMatch s ws
  pub cheap : r.bytes_verified ≤ length ws * 65536

conclude-Sound :
    (s : Surroundings) (ws : List (ℕ × ℕ)) (cmp : Preliminary × Evidence) (new : ResourceSignals)
    (url : Text) (c : Checked) (r : ValidationReport)
    → ReadsWithin s
    → AllShort 65536 ws
    → check_windows s ws 0 ≡ c
    → conclude cmp new url (length ws) c ≡ ok r
    → goes_on r.verdict ≡ true
    → Sound s ws r
conclude-Sound s ws (pre, ev) new url (broken e) r w a h k g = absurd (cc)
conclude-Sound s ws (pre, ev) new url (unconfirmed off v) r w a h k g = absurd (ground arith)
conclude-Sound s ws (pre, ev) new url (differed at v) r w a h k g = absurd (ground arith)
conclude-Sound s ws (pre, ev) new url (matched v) r w a h k g = record {
  all_match = check_windows-matched s ws 0 v h;
  cheap = ground (arith, check_windows-le s ws 0 v w a h);
}

reached :
    (c o : Bool) (e f : RefreshError) (z : Result RefreshError ValidationReport)
    (r : ValidationReport)
    → c ≡ true
    → o ≡ true
    → (if not c then err e else if not o then err f else z) ≡ ok r
    → z ≡ ok r
reached true true e f z r c o h = h
reached true false e f z r c o h = absurd (cc)
reached false o e f z r c d h = absurd (cc)

verify-Sound :
    (s : Surroundings) (ws : List (ℕ × ℕ)) (b : Bool) (cmp : Preliminary × Evidence)
    (new : ResourceSignals) (url : Text) (r : ValidationReport)
    → ReadsWithin s
    → AllShort 65536 ws
    → (is_settled cmp.0 ≡ false → b ≡ false → ws ≡ [])
    → verify s ws b cmp new url ≡ ok r
    → goes_on r.verdict ≡ true
    → Sound s ws r
unfolding verify
verify-Sound s ws false (pre, ev) new url r w a n h g =
    let report : r.verdict ≡ finalize pre ev none 0 = ground arith in
    let none_left : ws ≡ [] = n (goes_on-is_settled pre _ (ap goes_on (sym report) ∙ g)) refl in
    record { all_match = subst (AllMatch s) (sym none_left) tt; cheap = ground arith }
verify-Sound s ws true cmp new url r w a n h g = elim (Bool-cases s.client_built) [
  | inr no_client ↦ absurd (ground (arith, no_client))
  | inl client_ok ↦ elim (Bool-cases s.opened) [
    | inr no_file ↦ absurd (ground (arith, client_ok, no_file))
    | inl file ↦
        conclude-Sound s ws cmp new url (check_windows s ws 0) r w a refl
          (reached s.client_built s.opened client io _ r client_ok file h) g
  ]
]

module _ (digest : List ℕ → List ℕ) (s : Surroundings) (old : ResourceSignals)
    (completed : RangeSet) (id : Text) where
  abbrev windows : List (ℕ × ℕ)
  windows = choose_windows digest completed id window_count

  -- Where the comparison is skipped though the headers settle nothing, there is nothing on disk.
  skipped :
      (p : ProbeResult)
      → is_settled (compare old (from_probe p)).0 ≡ false
      → (ltb 0 (total completed)
          && (is_supported p.range_support && not (is_settled (compare old (from_probe p)).0)))
        ≡ false
      → windows ≡ []
  unfolding compare
  skipped p e h =
      choose_windows-empty digest completed id window_count
        (ground (arith, sizes_settled old.total_size p.total_size old (from_probe p) e))

  validate_answer-Sound :
      (a : Option (ProbeResult × Text)) (r : ValidationReport)
      → ReadsWithin s
      → validate_answer digest s old completed id a ≡ ok r
      → goes_on r.verdict ≡ true
      → AllMatch s windows × (r.bytes_verified ≤ 4 * 65536)
  unfolding validate_probed
  validate_answer-Sound none r w h g = cc
  validate_answer-Sound (some (p, url)) r w h g =
      let (few, short) = choose_windows_budget digest completed id window_count (omega arith) in
      let sound =
        verify-Sound s windows _ (compare old (from_probe p)) (from_probe p) url r w short
          (skipped p) h g in
      (sound.all_match, omega (arith, sound.cheap, few))

-- A replacement link that a download goes on with, at once or when the user agrees, has sent exactly the
-- bytes that are on disk in every window that was chosen of them, as partial responses; and that took
-- no more than four windows of 64 KiB, where the disk fills no more than its buffer.
pub validate-Sound :
    (digest : List ℕ → List ℕ) (s : Surroundings) (old : ResourceSignals) (completed : RangeSet)
    (id : Text) (r : ValidationReport)
    → ReadsWithin s
    → validate_replacement_url digest s old completed id ≡ ok r
    → goes_on r.verdict ≡ true
    → AllMatch s (choose_windows digest completed id window_count) × (r.bytes_verified ≤ 4 * 65536)
unfolding validate_replacement_url
validate-Sound digest s old completed id r w h g =
    validate_answer-Sound digest s old completed id s.probed r w h g
