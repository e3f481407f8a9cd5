-- ===== src/Python/Float/Exact.antt =====
-- Fractions: an arithmetic that does not round, which meets the interface of the floating-point
-- numbers and runs.
use project_tetris.Base.{ℕ, suc, ◌*◌, ◌/◌, ℤ, pos, negsuc, ◌+ℤ◌, ◌-ℤ◌, ◌*ℤ◌, ltb_ℤ, leb_ℤ, sub_ℕ}
use project_tetris.Python.Float.{Float}

-- The second number is the denominator.
abbrev pub Fraction : Type 0
Fraction = ℤ × ℕ

-- The numerator over `d`, for the fraction whose denominator is `e`.
abbrev scaled : ℤ → ℕ → ℤ
scaled n d = n *ℤ pos d

abbrev divided : ℤ → ℕ → ℤ → ℕ → Fraction
divided n d (pos k) e = (scaled n e, d * k)
divided n d (negsuc k) e = (pos 0 -ℤ scaled n e, d * suc k)

-- Division of a natural number, with its sign.
abbrev truncated : ℤ → ℕ → ℤ
truncated (pos n) d = pos (n / d)
truncated (negsuc n) d = sub_ℕ 0 (suc n / d)

abbrev pub exact : Float
exact = record {
  F = Fraction;
  of_int = λ n. (n, 1);
  add = λ (n, d) (m, e). (scaled n e +ℤ scaled m d, d * e);
  sub = λ (n, d) (m, e). (scaled n e -ℤ scaled m d, d * e);
  mul = λ (n, d) (m, e). (n *ℤ m, d * e);
  div = λ (n, d) (m, e). divided n d m e;
  lt = λ (n, d) (m, e). ltb_ℤ (scaled n e) (scaled m d);
  le = λ (n, d) (m, e). leb_ℤ (scaled n e) (scaled m d);
  trunc = λ (n, d). truncated n d;
}
