-- ===== src/Core/Float32.antt =====
-- The 32-bit floats of the source, as an interface: a type of floats and the operations that the
-- code performs on them. No law of them is assumed here.
use grasp.Prelude.{ℕ, Bool, if◌then◌else◌}

pub record Float32 (F : Type 0) : Type 0 where
  pub zero : F
  pub one : F
  pub add : F → F → F
  pub min : F → F → F
  pub max : F → F → F
  -- `partial_cmp` says `Less` or `Equal`
  pub le : F → F → Bool
  -- the operator `<`
  pub lt : F → F → Bool
  pub sub : F → F → F
  pub mul : F → F → F
  pub div : F → F → F
  -- `n as f32` for an unsigned integer
  pub of_nat : ℕ → F
  -- `x as usize`, which rounds towards zero and saturates
  pub as_usize : F → ℕ
  -- the literal `n / 10 ^ k`
  pub decimal : (n k : ℕ) → F

module _ {F : Type 0} (fl : Float32 F) where
  -- `f32::clamp`.
  abbrev pub clamp : F → F → F → F
  clamp x lo hi = if fl.lt x lo then lo else (if fl.lt hi x then hi else x)
