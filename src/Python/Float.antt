-- ===== src/Python/Float.antt =====
-- Python's floating-point numbers, as an interface: the arithmetic is the machine's, which rounds, so
-- that the code that uses it takes it as a parameter. An integer that meets a float is converted
-- first; `trunc` is `int(x)`.
pub mod Exact
use project_tetris.Base.{ℤ, Bool}

pub record Float : Type 1 where
  pub F : Type 0
  pub of_int : ℤ → F
  pub add : F → F → F
  pub sub : F → F → F
  pub mul : F → F → F
  pub div : F → F → F
  pub lt : F → F → Bool
  pub le : F → F → Bool
  pub trunc : F → ℤ
