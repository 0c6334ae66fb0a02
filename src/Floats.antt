-- ===== src/Floats.antt =====
-- The processor's floating-point arithmetic, which the program uses for cycle times and history
-- lengths, as a parameter: a number is the bit pattern of a `double`, and `narrow` rounds to
-- `float`. No law of it is assumed here.
use kogmo_rtdb.Base.{ℕ, ℤ, Bool}

pub record FloatOps : Type 0 where
  pub lt : ℕ → ℕ → Bool
  pub le : ℕ → ℕ → Bool
  pub add : ℕ → ℕ → ℕ
  pub sub : ℕ → ℕ → ℕ
  pub mul : ℕ → ℕ → ℕ
  pub div : ℕ → ℕ → ℕ
  pub narrow : ℕ → ℕ
  -- conversion from an integer, and to one (rounding towards zero) that is not negative, or any
  pub of_int : ℤ → ℕ
  pub to_int : ℕ → ℕ
  pub to_signed : ℕ → ℤ
  -- the constants 0.001 (of the source) and 1e-1
  pub milli : ℕ
  pub tenth : ℕ
