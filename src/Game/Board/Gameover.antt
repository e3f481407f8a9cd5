-- ===== src/Game/Board/Gameover.antt =====
-- The game-over animation of client/tetris/game/tetris_board.py: `find_anim_start_line` and
-- `animate_gameover`.
pub mod Frames
pub mod StartLine
use project_tetris.Base.{
  ℕ, zero, suc, ◌+◌, ◌-◌, ◌≡◌, Bool, true, false, ◌&&◌, ◌||◌, Option, none, some, [], ◌∷◌, ltb,
  if◌then◌else◌, get_elem?, length, set, ℤ, pos, ◌-ℤ◌,
}
use project_tetris.Python.Exec.{Result, ok, err, index_error, ◌>>=◌, ◌>>◌}
use project_tetris.Python.Index.{get_item, py_index, or_index_error}
use project_tetris.Game.Tetromino.{key_g, board_cols, board_rows}
use project_tetris.Game.Board.{Board, Cell, Row, Grid}

abbrev pub is_colored : Cell → Bool
is_colored none = false
is_colored (some key_g) = false
is_colored (some _) = true

-- Does one of the first `n` cells of a row hold a coloured block?
unfoldable pub has_color : ℕ → Row → Result Bool
has_color zero row = ok false
has_color (suc n) [] = err index_error
has_color (suc n) (c ∷ row) = do rest ← has_color n row; ok (is_colored c || rest)

-- The loop goes up from `line`, and stops at line 0 whatever stands there.
unfoldable pub start_line : Grid → ℕ → Result ℕ
unfolding has_color
start_line g zero = do row ← or_index_error (get_elem? g zero); has_color board_cols row; ok zero
start_line g (suc line) = do
  row ← or_index_error (get_elem? g (suc line))
  escape ← has_color board_cols row
  elim escape [ true ↦ ok (suc line) | false ↦ start_line g line ]

-- The state where the loop raises is left out: it is reached only from a grid that is too small.
unfoldable pub find_anim_start_line : Board → Result Board
unfolding start_line
find_anim_start_line b = do
  line ← start_line b.grid (board_rows - 1)
  ok (record b { anim_target_line = pos line })

abbrev pub greyed : Cell → Cell
greyed none = none
greyed (some _) = some key_g

abbrev pub is_empty : Cell → Bool
is_empty none = true
is_empty (some _) = false

-- The loop of `animate_gameover` over the first `n` cells; the flag says that all were empty.
unfoldable pub grey_cells : ℕ → Row → Result Bool × Row
grey_cells zero row = (ok true, row)
grey_cells (suc n) [] = (err index_error, [])
grey_cells (suc n) (c ∷ row) =
    let (r, row') = grey_cells n row in
    (elim r [ ok done ↦ ok (is_empty c && done) | err e ↦ err e ], greyed c ∷ row')

abbrev greyed_line : Board → ℕ → Result Bool × Row → Result Bool × Board
greyed_line b j (ok done, row) =
    (ok done, record b { grid = set b.grid j row; anim_target_line = b.anim_target_line -ℤ pos 1 })
greyed_line b j (err e, row) = (err e, record b { grid = set b.grid j row })

abbrev grey_row_at : Board → ℕ → Option Row → Result Bool × Board
grey_row_at b j none = (err index_error, b)
grey_row_at b j (some row) = greyed_line b j (grey_cells board_cols row)

abbrev grey_line : Board → Option ℕ → Result Bool × Board
grey_line b none = (err index_error, b)
grey_line b (some j) = grey_row_at b j (get_elem? b.grid j)

-- One frame: every 100 ms one line turns grey, and an empty line ends the animation.
unfoldable pub animate_gameover : Board → ℕ → Result Bool × Board
unfolding grey_cells
animate_gameover b dt_ms =
    let elapsed = b.anim_elapsed_ms + dt_ms in
    if ltb 100 elapsed
    then grey_line (record b { anim_elapsed_ms = elapsed - 100 })
        (py_index (length b.grid) b.anim_target_line)
    else (ok false, record b { anim_elapsed_ms = elapsed })
