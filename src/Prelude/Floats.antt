-- ===== src/Prelude/Floats.antt =====
-- Go's floating-point numbers, of which the models use comparisons only: a parameter of them.
-- Models no code of the repository.
use mathlib.Core.Bool.{Bool}

pub record Floats (F : Type 0) : Type 0 where
  -- x < y and x <= y
  pub less : F → F → Bool
  pub at_most : F → F → Bool
  -- the constants 0.0 and 1.0
  pub zero_f : F
  pub one_f : F
