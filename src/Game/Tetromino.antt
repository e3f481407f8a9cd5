-- ===== src/Game/Tetromino.antt =====
-- client/tetris/game/tetromino.py, with the shape tables of client/tetris/config/define.py and the
-- constants of client/tetris/game/define.py.
pub mod Rotation
pub mod Cells
use project_tetris.Base.{
  ℕ, zero, suc, ◌+◌, Option, none, some, List, [], ◌∷◌, map, length, ℤ, pos, ◌+ℤ◌,
}
use project_tetris.Python.Exec.{Result, ok, err, key_error, ◌>>=◌, or_raise}
use project_tetris.Python.Index.{get_item, mod_ℤ}

-- The keys of the block textures; 'G' marks a grey cell and is no tetromino.
pub data ShapeKey : Type 0 where
  key_i key_j key_l key_o key_s key_t key_z key_g : ShapeKey

abbrev pub Shape : Type 0
Shape = List (ℕ × ℕ)

abbrev pub board_cols : ℕ
board_cols = 10

abbrev pub hidden_rows : ℕ
hidden_rows = 5

abbrev pub valid_rows : ℕ
valid_rows = 20

abbrev pub board_rows : ℕ
board_rows = valid_rows + hidden_rows

-- `SHAPES`: for each key the list of its rotations, each of four cells.
unfoldable pub shapes : ShapeKey → Option (List Shape)
shapes key_i =
    some (((0, 1) ∷ (1, 1) ∷ (2, 1) ∷ (3, 1) ∷ []) ∷ ((2, 0) ∷ (2, 1) ∷ (2, 2) ∷ (2, 3) ∷ []) ∷ [])
shapes key_j = some (
    ((0, 0) ∷ (0, 1) ∷ (1, 1) ∷ (2, 1) ∷ [])
    ∷ ((1, 0) ∷ (2, 0) ∷ (1, 1) ∷ (1, 2) ∷ [])
    ∷ ((0, 1) ∷ (1, 1) ∷ (2, 1) ∷ (2, 2) ∷ [])
    ∷ ((1, 0) ∷ (1, 1) ∷ (0, 2) ∷ (1, 2) ∷ [])
    ∷ [])
shapes key_l = some (
    ((2, 0) ∷ (0, 1) ∷ (1, 1) ∷ (2, 1) ∷ [])
    ∷ ((1, 0) ∷ (1, 1) ∷ (1, 2) ∷ (2, 2) ∷ [])
    ∷ ((0, 1) ∷ (1, 1) ∷ (2, 1) ∷ (0, 2) ∷ [])
    ∷ ((0, 0) ∷ (1, 0) ∷ (1, 1) ∷ (1, 2) ∷ [])
    ∷ [])
shapes key_o = some (((1, 0) ∷ (2, 0) ∷ (1, 1) ∷ (2, 1) ∷ []) ∷ [])
shapes key_s =
    some (((1, 1) ∷ (2, 1) ∷ (0, 2) ∷ (1, 2) ∷ []) ∷ ((1, 0) ∷ (1, 1) ∷ (2, 1) ∷ (2, 2) ∷ []) ∷ [])
shapes key_t = some (
    ((1, 0) ∷ (0, 1) ∷ (1, 1) ∷ (2, 1) ∷ [])
    ∷ ((1, 0) ∷ (1, 1) ∷ (2, 1) ∷ (1, 2) ∷ [])
    ∷ ((0, 1) ∷ (1, 1) ∷ (2, 1) ∷ (1, 2) ∷ [])
    ∷ ((1, 0) ∷ (0, 1) ∷ (1, 1) ∷ (1, 2) ∷ [])
    ∷ [])
shapes key_z =
    some (((0, 1) ∷ (1, 1) ∷ (1, 2) ∷ (2, 2) ∷ []) ∷ ((2, 0) ∷ (1, 1) ∷ (2, 1) ∷ (1, 2) ∷ []) ∷ [])
shapes key_g = none

-- `SHAPES_INDEX`, which the server's numbers of the pieces go through.
unfoldable pub shapes_index : ℤ → Option ShapeKey
shapes_index (pos zero) = some key_i
shapes_index (pos (suc zero)) = some key_j
shapes_index (pos (suc (suc zero))) = some key_l
shapes_index (pos (suc (suc (suc zero)))) = some key_o
shapes_index (pos (suc (suc (suc (suc zero))))) = some key_s
shapes_index (pos (suc (suc (suc (suc (suc zero)))))) = some key_t
shapes_index (pos (suc (suc (suc (suc (suc (suc zero))))))) = some key_z
shapes_index (pos (suc (suc (suc (suc (suc (suc (suc zero)))))))) = some key_g
shapes_index _ = none

pub record Tetromino : Type 0 where
  pub shape_key : ShapeKey
  pub x : ℤ
  pub y : ℤ
  pub rotation : ℕ

-- `SHAPES[key]`
unfoldable pub rotations : ShapeKey → Result (List Shape)
unfolding shapes
rotations key = or_raise (shapes key) key_error

-- `SHAPES[key][rotation]`
unfoldable pub shape_at : ShapeKey → ℕ → Result Shape
unfolding rotations
shape_at key rotation = do turns ← rotations key; get_item turns (pos rotation)

abbrev pub place : ℤ → ℤ → ℕ × ℕ → ℤ × ℤ
place x y (cx, cy) = (x +ℤ pos cx, y +ℤ pos cy)

-- The property `blocks`: the four cells at the current rotation and place.
unfoldable pub blocks : Tetromino → Result (List (ℤ × ℤ))
blocks t = do shape ← shape_at t.shape_key t.rotation; ok (map (place t.x t.y) shape)

unfoldable pub rotated : Tetromino → ℤ → Result Tetromino
unfolding rotations
rotated t delta = do
  turns ← rotations t.shape_key
  ok (record t { rotation = mod_ℤ (pos t.rotation +ℤ delta) (length turns) })
