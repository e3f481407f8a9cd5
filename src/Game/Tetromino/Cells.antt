-- ===== src/Game/Tetromino/Cells.antt =====
-- The shape tables of client/tetris/config/define.py: every piece has four cells in a box of 4 by 4.
use project_tetris.Base.{ℕ, ◌≤◌, ◌≡◌, arith, length, All, pos}
use project_tetris.Python.Exec.{Ensures, Ensures-then}
use project_tetris.Python.Index.{get_item-All}
use project_tetris.Game.Tetromino.{
  ShapeKey, key_i, key_j, key_l, key_o, key_s, key_t, key_z, key_g, Shape, rotations, shape_at,
}

abbrev pub IsShape : Shape → Type 0
IsShape s = (length s ≡ 4) × All (λ (c : ℕ × ℕ). (c.0 ≤ 3) × (c.1 ≤ 3)) s

rotations-IsShape : (key : ShapeKey) → Ensures (All IsShape) (rotations key)
unfolding rotations
rotations-IsShape key_i = omega arith
rotations-IsShape key_j = omega arith
rotations-IsShape key_l = omega arith
rotations-IsShape key_o = omega arith
rotations-IsShape key_s = omega arith
rotations-IsShape key_t = omega arith
rotations-IsShape key_z = omega arith
rotations-IsShape key_g = tt

pub shape_at-IsShape : (key : ShapeKey) (r : ℕ) → Ensures IsShape (shape_at key r)
unfolding shape_at
shape_at-IsShape key r =
    Ensures-then (All IsShape) IsShape (rotations key) _ (rotations-IsShape key)
      λ turns h. get_item-All IsShape turns (pos r) h
