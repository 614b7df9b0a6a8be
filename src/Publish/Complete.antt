-- ===== src/Publish/Complete.antt =====
-- crates/swiftload-core/src/task/mod.rs: when a file is published.
use ai_gen.Prelude.{
  ℕ, unwrap, ◌<◌, ◌≡◌, refl, ap, Bool, true, false, not, Option, none, some, [], if◌then◌else◌,
  Text, arith, IsU64, eq_ignore_ascii_case,
}
use mathlib.Core.Path.{subst}
use ai_gen.Prelude.Result.{Result, ok, err, ◌>>=◌}
use ai_gen.RangeSet.{RangeSet, contains_all, total}
use ai_gen.RangeSet.Canonical.{covers, IsCanonical}
use ai_gen.RangeSet.Contains.{contains_all_iff}
use ai_gen.Publish.{
  DownloadError, Disk, Driven, Published, check_driven, check_cancelled, check_coverage, hash_of,
  check_sum, unique_destination, is_overwrite, finalize, publish, checksum_mismatch,
}

-- Where a chain has a result, its first step has one, and the rest from it.
bind_ok :
    {E A B : Type 0} (m : Result E A) (f : A → Result E B) (b : B)
    → (m >>= f) ≡ ok b
    → (a : A) × (m ≡ ok a) × (f a ≡ ok b)
bind_ok (ok a) f b h = (a, refl, h)
bind_ok (err e) f b h = ground arith

check_driven_ok : (d : Driven) (u : Unit) → check_driven d.fatal ≡ ok u → d.fatal ≡ none
check_driven_ok d u h = ground arith

check_cancelled_ok : (c : Bool) (u : Unit) → check_cancelled c ≡ ok u → c ≡ false
check_cancelled_ok c u h = ground arith

unwrap_ok : {E A : Type 0} (a b : A) → ◌≡◌ {A = Result E A} (ok a) (ok b) → a ≡ b
unwrap_ok {E = E} {A = A} a b h =
    ap {A = Result E A} {B = A} (λ r. elim r as (λ x. A) [ err e ↦ a | ok x ↦ x ]) h

-- A check that passed found its condition.
kept :
    (b : Bool) (e : DownloadError) (u : Unit) → (if not b then err e else ok tt) ≡ ok u → b ≡ true
kept true e u h = refl
kept false e u h = ground arith

check_coverage_ok :
    (size : Option ℕ) (ranges : RangeSet) (u : Unit)
    → check_coverage size ranges ≡ ok u
    → (t : ℕ) → size ≡ some t
    → contains_all ranges 0 t ≡ true
unfolding check_coverage
check_coverage_ok none ranges u h t e = ground arith
check_coverage_ok (some s) ranges u h t e =
    subst (λ v. contains_all ranges 0 v ≡ true) (unwrap s t e)
      (kept (contains_all ranges 0 s) _ u h)

-- The checksum that was asked for is that of the file.
abbrev pub Matches : Option Text → Option Text → Option Text → Type 0
Matches expected hashed sha256 =
    (e : Text)
    → expected ≡ some e
    → (h : Text) × (hashed ≡ some h) × (sha256 ≡ some h) × (eq_ignore_ascii_case e h ≡ true)

sum_ok :
    (on_complete : Bool) (expected hashed sha256 : Option Text) (u : Unit)
    → hash_of on_complete expected hashed ≡ ok sha256
    → check_sum expected sha256 ≡ ok u
    → Matches expected hashed sha256
sum_ok c expected none sha u p q = λ e x. ground (arith, p, x)
sum_ok c none (some h) sha u p q = λ e x. ground (arith, x)
sum_ok c (some a) (some h) none u p q = λ e x. ground (arith, p, x)
sum_ok c (some a) (some h) (some s) u p q = λ e x.
    let same : s ≡ h = ground (arith, p) in
    let found = kept (eq_ignore_ascii_case a s) checksum_mismatch u q in
    (
      h,
      refl,
      ap some same,
      subst (λ v. eq_ignore_ascii_case v h ≡ true) (unwrap a e x)
          (subst (λ v. eq_ignore_ascii_case a v ≡ true) same found),
    )

-- Nothing is overwritten that the policy does not say to overwrite.
finalize_ok :
    (disk : Disk) (replace : Bool) (path : Text) (u : Unit)
    → finalize disk replace path ≡ ok u
    → replace ≡ false
    → disk.exists path ≡ false
unfolding finalize
finalize_ok disk replace path u h r = ground arith

-- What a published file is.
pub record IsComplete (disk : Disk) (d : Driven) (out : Published) : Type 0 where
  pub no_failure : d.fatal ≡ none
  pub not_cancelled : d.is_cancelled ≡ false
  pub whole : (t b : ℕ) → d.total_size ≡ some t → b < t → covers d.final_ranges b ≡ true
  pub checksum : Matches d.expected_sha256 disk.hash_file out.sha256
  pub size : out.bytes ≡ total d.final_ranges
  pub no_clobber : is_overwrite d.collision_policy ≡ false → disk.exists out.path ≡ false

-- A file is published only if no worker failed and nobody cancelled, every byte of a known size is in the
-- set of what was written, and a checksum that was asked for is that of the file; and it takes the place
-- of another only if the settings say so.
pub publish-IsComplete :
    (disk : Disk) (d : Driven) (out : Published)
    → IsCanonical d.final_ranges
    → ((t : ℕ) → d.total_size ≡ some t → IsU64 t)
    → publish disk d ≡ ok out
    → IsComplete disk d out
unfolding publish
publish-IsComplete disk d out c w h =
    let (u1, p1, h1) = bind_ok (check_driven d.fatal) _ out h in
    let (u2, p2, h2) = bind_ok (check_cancelled d.is_cancelled) _ out h1 in
    let (u3, p3, h3) = bind_ok (check_coverage d.total_size d.final_ranges) _ out h2 in
    let (sha, p4, h4) =
      bind_ok (hash_of d.hash_on_complete d.expected_sha256 disk.hash_file) _ out h3 in
    let (u5, p5, h5) = bind_ok (check_sum d.expected_sha256 sha) _ out h4 in
    let path = unique_destination disk d.collision_policy d.dest in
    let (u6, p6, h6) = bind_ok (finalize disk (is_overwrite d.collision_policy) path) _ out h5 in
    let final : Published = record { path = path; bytes = total d.final_ranges; sha256 = sha } in
    subst (IsComplete disk d) (unwrap_ok final out h6) (record {
      no_failure = check_driven_ok d u1 p1;
      not_cancelled = check_cancelled_ok d.is_cancelled u2 p2;
      whole = λ t b e below.
          (contains_all_iff d.final_ranges 0 t c (w t e)).0
            (check_coverage_ok d.total_size d.final_ranges u3 p3 t e) b (omega arith) below;
      checksum = sum_ok d.hash_on_complete d.expected_sha256 disk.hash_file sha u5 p4 p5;
      size = refl;
      no_clobber = finalize_ok disk (is_overwrite d.collision_policy) path u6 p6;
    })

-- What may be believed of a checkpoint: nothing that it does not say, nothing at all without the partial
-- file, and nothing behind the end of a file whose size is not known.
pub record IsBelieved (part_existed : Bool) (size : Option ℕ) (file_len : ℕ)
    (completed believed : RangeSet) : Type 0 where
  pub canonical : IsCanonical believed
  pub no_more : (b : ℕ) → covers believed b ≡ true → covers completed b ≡ true
  pub missing : part_existed ≡ false → believed ≡ []
  pub unsized : size ≡ none → (b : ℕ) → covers believed b ≡ true → b < file_len
