-- ===== src/Core/Float64.antt =====
-- The 64-bit floats of the source, as an interface: a type of floats and the operations that the
-- code performs on them. No law of them is assumed here.
use grasp.Prelude.{ℕ}

pub record Float64 (D : Type 0) : Type 0 where
  -- `n as f64` for an unsigned integer
  pub of_nat : ℕ → D
  -- the literal `n / 10 ^ k`
  pub decimal : (n k : ℕ) → D
  pub mul : D → D → D
  pub ceil : D → D
  -- `x as usize` and `x as u32`, which round towards zero and saturate
  pub as_usize : D → ℕ
  pub as_u32 : D → ℕ
  -- `Duration::as_secs_f64` of a number of nanoseconds
  pub as_secs : ℕ → D
