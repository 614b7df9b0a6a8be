-- ===== src/Publish/Examples.antt =====
-- crates/swiftload-core/src/task/mod.rs: a file of 300 bytes.
use ai_gen.Prelude.{ℕ, ◌≡◌, refl, true, false, none, some, [], ◌∷◌, Text, arith}
use ai_gen.Prelude.Result.{ok, err}
use ai_gen.RangeSet.{Span, RangeSet}
use ai_gen.Publish.{Disk, Driven, Published, publish, rename, incomplete}
use ai_gen.Publish.Complete.{IsComplete, publish-IsComplete}

abbrev span : ℕ → ℕ → Span
span s l = record { start = s; len = l }

abbrev full : RangeSet
full = span 0 300 ∷ []

abbrev two : RangeSet
two = span 0 100 ∷ span 200 100 ∷ []

abbrev digest : Text
digest = 97 ∷ 49 ∷ []

abbrev capital_digest : Text
capital_digest = 65 ∷ 49 ∷ []

abbrev name : Text
name = 102 ∷ []

abbrev disk : Disk
disk = record {
  hash_file = some digest;
  exists = λ s. false;
  fresh = [];
  remove_works = false;
  rename_works = true;
}

abbrev driven : Driven
driven = record {
  fatal = none;
  is_cancelled = false;
  total_size = some 300;
  final_ranges = full;
  hash_on_complete = false;
  expected_sha256 = some capital_digest;
  collision_policy = rename;
  dest = name;
}

abbrev out : Published
out = record { path = name; bytes = 300; sha256 = some digest }

publish_runs : publish disk driven ≡ ok out
unfolding publish
publish_runs = refl

with_gap : publish disk (record driven { final_ranges = two }) ≡ err (incomplete 200 300 1)
unfolding publish
with_gap = refl

publish-IsComplete_example : IsComplete disk driven out
publish-IsComplete_example =
    publish-IsComplete disk driven out (omega arith) (λ t h. ground arith) publish_runs
