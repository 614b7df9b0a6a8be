-- ===== src/Rate/Examples.antt =====
-- crates/swiftload-core/src/util/rate.rs: a bucket of ten bytes, and a meter over two seconds.
use ai_gen.Prelude.{◌+◌, ◌*◌, ◌≡◌, refl, [], ◌∷◌}
use ai_gen.Floats.{Ratio, whole, ratio_floats}
use ai_gen.Rate.{record_bytes, Smooth, new_meter, TokenBucket, new_bucket, take_tokens}
use ai_gen.Rate.Laws.{record_all}

-- Fractions, with a constant in place of the exponential.
instance abbrev ratio_smooth : Smooth Ratio
ratio_smooth = record {
  plus = λ x y. record {
    plus = x.plus * y.under + y.plus * x.under;
    minus = x.minus * y.under + y.minus * x.under;
    under = x.under * y.under;
  };
  times = λ x y. record {
    plus = x.plus * y.plus + x.minus * y.minus;
    minus = x.plus * y.minus + x.minus * y.plus;
    under = x.under * y.under;
  };
  neg = λ x. record { plus = x.minus; minus = x.plus; under = x.under };
  exp = λ x. whole 1 2;
}

abbrev bucket : TokenBucket Ratio
unfolding new_bucket
bucket = new_bucket 10

grants : (take_tokens bucket 25 0).1 ≡ 10
unfolding take_tokens new_bucket bucket
grants = refl

peaks : (record_all {F = Ratio} new_meter ((0, 0) ∷ (3000, 2000000000) ∷ [])).peak_bps ≡ 1500
unfolding record_all new_meter record_bytes
peaks = refl
