-- ===== src/Game/Board/Clearing.antt =====
-- `init`, `reset` and `clear` of client/tetris/game/tetris_board.py on a grid of the right size.
use project_tetris.Base.{ℕ, zero, suc, ◌≡◌, refl, ap, none, [], ◌∷◌, arith, length, replicate, All}
use project_tetris.Python.Exec.{ok}
use project_tetris.Game.Tetromino.{board_cols}
use project_tetris.Game.Board.{
  Board, Row, Grid, empty_row, empty_grid, clear_row, clear_rows, clear_board, init, reset,
  forget_round, forget_shapes, after_clear,
}
use project_tetris.Game.Board.Invariant.{IsRow, IsBoard}

clear_row_lem : (n : ℕ) (row : Row) → length row ≡ n → clear_row n row ≡ (ok tt, replicate n none)
unfolding clear_row
clear_row_lem zero [] h = refl
clear_row_lem zero (c ∷ row) h = absurd (omega arith)
clear_row_lem (suc n) [] h = absurd (omega arith)
clear_row_lem (suc n) (c ∷ row) h = rw (clear_row_lem n row (omega arith))

clear_rows_lem :
    (n : ℕ) (g : Grid)
    → length g ≡ n
    → All IsRow g
    → clear_rows n g ≡ (ok tt, replicate n empty_row)
unfolding clear_rows
clear_rows_lem zero [] h all = refl
clear_rows_lem zero (row ∷ g) h all = absurd (omega arith)
clear_rows_lem (suc n) [] h all = absurd (omega arith)
clear_rows_lem (suc n) (row ∷ g) h all =
    ground (arith, clear_row_lem board_cols row all.0, clear_rows_lem n g (omega arith) all.1)

pub clear_board_lem :
    (b : Board) → IsBoard b → clear_board b ≡ (ok tt, record b { grid = empty_grid })
unfolding clear_board
clear_board_lem b h = rw (clear_rows_lem 25 b.grid h.0 h.1)

-- On a grid of 25 rows of 10 cells `init` raises nothing, empties every cell and forgets both
-- shapes, and leaves the animations as they are.
pub init_lem :
    (b : Board) → IsBoard b → init b ≡ (ok tt, forget_shapes (record b { grid = empty_grid }))
unfolding init
init_lem b h = ap (after_clear forget_shapes) (clear_board_lem b h)

-- On a grid of 25 rows of 10 cells `reset` raises nothing, empties every cell, forgets both shapes
-- and the effects, and sets the game-over animation back to the bottom line.
pub reset_lem :
    (b : Board) → IsBoard b → reset b ≡ (ok tt, forget_round (record b { grid = empty_grid }))
unfolding reset
reset_lem b h = ap (after_clear forget_round) (clear_board_lem b h)
