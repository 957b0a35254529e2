-- ===== src/Core/Samples.antt =====
-- Floats for the tests of the components: tenths of natural numbers.
use grasp.Prelude.{ℕ, ◌+◌, ◌-◌, ◌*◌, ◌/◌, ◌^◌, min, max, ltb, leb}
use grasp.Core.Float32.{Float32}
use grasp.Core.Float64.{Float64}

abbrev pub singles : Float32 ℕ
singles = record {
  zero = 0;
  one = 10;
  add = λ a b. a + b;
  min = min;
  max = max;
  le = leb;
  lt = ltb;
  sub = λ a b. a - b;
  mul = λ a b. a * b / 10;
  div = λ a b. a * 10 / b;
  of_nat = λ n. n * 10;
  as_usize = λ a. a / 10;
  decimal = λ n k. n * 10 / 10 ^ k;
}

abbrev pub doubles : Float64 ℕ
doubles = record {
  of_nat = λ n. n * 10;
  decimal = λ n k. n * 10 / 10 ^ k;
  mul = λ a b. a * b / 10;
  ceil = λ a. (a + 9) / 10 * 10;
  as_usize = λ a. a / 10;
  as_u32 = λ a. a / 10;
  as_secs = λ nanos. nanos / 100000000;
}
