-- ===== src/Floats/Naturals.antt =====
-- Natural numbers in the place of floats: a model of exact arithmetic, at which the theorems are tried.
use insist.Base.{ℕ, ◌+◌, ◌-◌, ◌*◌, ◌/◌, arith, ltb, if◌then◌else◌}
use insist.Floats.{Floats}
use insist.Floats.Exact.{IsSum}

-- The larger one.
abbrev pub larger : ℕ → ℕ → ℕ
larger a b = if ltb a b then b else a

abbrev pub naturals : Floats
naturals = record {
  Float = ℕ;
  zero_float = 0;
  lowest_float = 0;
  negative_infinity = 0;
  plus = ◌+◌;
  minus = ◌-◌;
  times = ◌*◌;
  over = ◌/◌;
  fmaxf = larger;
  expf = λ a. a + 1;
  fast_expf = λ a. 1;
  rsqrt_of = λ n. 1;
}

pub naturals-plus : IsSum naturals.plus naturals.zero_float
naturals-plus = record {
  assoc = λ a b c. omega arith;
  comm = λ a b. omega arith;
  unit_left = λ a. omega arith;
}

pub naturals-fmaxf : IsSum naturals.fmaxf naturals.negative_infinity
naturals-fmaxf = record {
  assoc = λ a b c. ground arith;
  comm = λ a b. ground arith;
  unit_left = λ a. ground arith;
}
