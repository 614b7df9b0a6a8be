-- ===== src/Cli/Refreshed.antt =====
-- When the address of a download is replaced.
use ai_gen.Prelude.{ℕ, ◌≡◌, refl, ap, Bool, true, List, arith, Text, Bool-cases, inl, inr}
use ai_gen.Prelude.Result.{Result, ok, err, ◌>>=◌}
use ai_gen.RangeSet.{RangeSet}
use ai_gen.Identity.{Verdict, resume, confirm, rejected, restart, choose_windows}
use ai_gen.Identity.Refresh.{
  Surroundings, ValidationReport, RefreshError, window_count, validate_replacement_url,
}
use ai_gen.Identity.Refresh.Matched.{AllMatch, ReadsWithin, goes_on, validate-Sound}
use ai_gen.Redact.{Urls}
use ai_gen.Store.{StoreError, resume_state}
use ai_gen.Store.Records.{get}
use ai_gen.Store.History.{Db}
use ai_gen.Cli.{
  Ended, of_store, of_refresh, is_allowed, swap_if_allowed, cmd_refresh, found, old_signals,
}

>>=-ok :
    {E A B : Type 0} (m : Result E A) (f : A → Result E B) (b : B)
    → (m >>= f) ≡ ok b
    → (a : A) × (m ≡ ok a) × (f a ≡ ok b)
>>=-ok (ok a) f b h = (a, refl, h)
>>=-ok (err e) f b h = absurd (cc)

of_store-ok : {A : Type 0} (m : Result StoreError A) (a : A) → of_store m ≡ ok a → m ≡ ok a
of_store-ok (ok a) b h = ap (λ r. elim r [ ok x ↦ ok x | err e ↦ ok a ]) h
of_store-ok (err e) b h = absurd (cc)

of_refresh-ok :
    (m : Result RefreshError ValidationReport) (r : ValidationReport)
    → of_refresh m ≡ ok r
    → m ≡ ok r
of_refresh-ok (ok a) b h = ap (λ r. elim r [ ok x ↦ ok x | err e ↦ ok a ]) h
of_refresh-ok (err e) b h = absurd (cc)

allowed-goes_on : (v : Verdict) (agreed : Bool) → is_allowed v agreed ≡ true → goes_on v ≡ true
allowed-goes_on (resume ev) agreed h = refl
allowed-goes_on (confirm ev) agreed h = refl
allowed-goes_on (rejected r) agreed h = h
allowed-goes_on restart agreed h = h

swap_if_allowed-ok :
    {U : Type 0} (urls : Urls U) (db : Db) (id url : Text) (agreed dry_run : Bool) (now : ℕ)
    (report : ValidationReport) (r : Db × Bool)
    → swap_if_allowed urls db id url agreed dry_run now report ≡ ok r
    → is_allowed report.verdict agreed ≡ true
unfolding swap_if_allowed
swap_if_allowed-ok urls db id url agreed dry_run now report r h =
    elim (Bool-cases (is_allowed report.verdict agreed)) [
      | inl yes_it_is ↦ yes_it_is
      | inr no_it_is_not ↦ absurd (ground (arith, no_it_is_not))
    ]

-- The command that replaces an address succeeds only for a replacement that has sent exactly the bytes
-- that are on disk, in every window of the set that the download would resume with.
pub cmd_refresh-Matches :
    {U : Type 0} (urls : Urls U) (digest : List ℕ → List ℕ) (s : Surroundings) (db : Db)
    (id url : Text) (agreed dry_run paranoid : Bool) (during : List (RangeSet × ℕ)) (now : ℕ)
    (e : Ended) (after : Db)
    → ReadsWithin s
    → cmd_refresh urls digest s db id url agreed dry_run paranoid during now e ≡ ok after
    → (state : RangeSet × Bool) × (resume_state db.downloads id paranoid ≡ ok state)
      × AllMatch s (choose_windows digest state.0 id window_count)
unfolding cmd_refresh
cmd_refresh-Matches urls digest s db id url agreed dry_run paranoid during now e after w h =
    let (read, a, h1) = >>=-ok (of_store (get db.downloads id)) _ after h in
    let (rec, b, h2) = >>=-ok (found read) _ after h1 in
    let (state, c, h3) = >>=-ok (of_store (resume_state db.downloads id paranoid)) _ after h2 in
    let (report, d, h4) =
      >>=-ok (of_refresh (validate_replacement_url digest s (old_signals rec) state.0 id)) _ after
        h3 in
    let (swapped, f, h5) =
      >>=-ok (swap_if_allowed urls db id url agreed dry_run now report) _ after h4 in
    let allowed = swap_if_allowed-ok urls db id url agreed dry_run now report swapped f in
    (
      state,
      of_store-ok (resume_state db.downloads id paranoid) state c,
      (validate-Sound digest s (old_signals rec) state.0 id report w (of_refresh-ok _ report d)
          (allowed-goes_on report.verdict agreed allowed)).0,
    )
