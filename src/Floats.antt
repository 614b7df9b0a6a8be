-- ===== src/Floats.antt =====
-- What the program does with `f64`: an interface, since rounding is the machine's. A duration is its
-- number of nanoseconds.
use ai_gen.Prelude.{ℕ, ◌+◌, ◌*◌, ◌/◌, Bool, leb, ltb}

pub record Floats (F : Type 0) : Type 0 where
  pub of_nat : ℕ → F  -- `n as f64`
  pub to_nat : F → ℕ  -- `x as u64`
  pub as_secs : ℕ → F
  pub from_secs : F → ℕ
  pub thousandths : ℕ → F  -- a literal that is not negative
  pub div : F → F → F
  pub sub : F → F → F
  pub le : F → F → Bool
  pub lt : F → F → Bool

-- The interface can be met: differences of fractions, with exact arithmetic.
pub record Ratio : Type 0 where
  pub plus : ℕ
  pub minus : ℕ
  pub under : ℕ

abbrev pub whole : ℕ → ℕ → Ratio
whole n d = record { plus = n; minus = 0; under = d }

-- Division is exact where the divisor is a positive fraction with nothing taken off.
instance abbrev pub ratio_floats : Floats Ratio
ratio_floats = record {
  of_nat = λ n. whole n 1;
  to_nat = λ x. x.plus / x.under;
  as_secs = λ n. whole n 1000000000;
  from_secs = λ x. x.plus * 1000000000 / x.under;
  thousandths = λ n. whole n 1000;
  div = λ x y. record {
    plus = x.plus * y.under;
    minus = x.minus * y.under;
    under = x.under * y.plus;
  };
  sub = λ x y. record {
    plus = x.plus * y.under + y.minus * x.under;
    minus = x.minus * y.under + y.plus * x.under;
    under = x.under * y.under;
  };
  le = λ x y. leb (x.plus * y.under + y.minus * x.under) (y.plus * x.under + x.minus * y.under);
  lt = λ x y. ltb (x.plus * y.under + y.minus * x.under) (y.plus * x.under + x.minus * y.under);
}
