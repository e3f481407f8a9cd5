-- ===== src/Game/Board/Landing.antt =====
-- Where the falling piece would land: `make_landing_tetromino` of
-- client/tetris/game/tetris_board.py. `none` means that the loop ran out of fuel.
pub mod Drop
pub mod Free
pub mod Rest
use project_tetris.Base.{
  ℕ, zero, suc, ◌≡◌, Bool, true, false, ◌||◌, Option, none, some, List, [], ◌∷◌, if◌then◌else◌,
  length, ℤ, pos, negsuc, ◌+ℤ◌, ltb_ℤ, leb_ℤ,
}
use project_tetris.Python.Exec.{Result, ok, err, ◌>>=◌}
use project_tetris.Python.Index.{get_item}
use project_tetris.Game.Tetromino.{Tetromino, board_cols, board_rows, blocks}
use project_tetris.Game.Board.{Board, Cell, Grid}

abbrev pub outside : ℤ → ℤ → Bool
outside x y =
    ltb_ℤ x (pos 0) || (leb_ℤ (pos board_cols) x || (ltb_ℤ y (pos 0) || leb_ℤ (pos board_rows) y))

-- An occupied cell stops the piece, and after an empty one the loop goes on.
abbrev pub unless_occupied : Cell → Result Bool → Result Bool
unless_occupied (some _) rest = ok true
unless_occupied none rest = rest

-- The `for` loop over the cells of the moved piece: does one of them stop it?
unfoldable pub is_blocked : Grid → List (ℤ × ℤ) → Result Bool
is_blocked g [] = ok false
is_blocked g ((x, y) ∷ cells) =
    let rest = is_blocked g cells in
    if outside x y
    then ok true
    else do row ← get_item g y; cell ← get_item row x; unless_occupied cell rest

abbrev pub one_down : Tetromino → Tetromino
one_down t = record t { y = t.y +ℤ pos 1 }

unfoldable pub stops : Grid → Tetromino → Result Bool
unfolding is_blocked
stops g t = do cells ← blocks t; is_blocked g cells

unfoldable pub descend : ℕ → Grid → Tetromino → Option (Result Tetromino)
descend zero g landing = none
descend (suc fuel) g landing = elim (stops g (one_down landing)) [
  | err e ↦ some (err e)
  | ok true ↦ some (ok landing)
  | ok false ↦ descend fuel g (one_down landing)
]

-- A piece inside the grid falls through 25 rows at most, and may enter it from 3 rows above.
abbrev pub landing_fuel : ℕ
landing_fuel = 30

abbrev landed : Option (Result Tetromino) → Option (Result (Option Tetromino))
landed none = none
landed (some (ok t)) = some (ok (some t))
landed (some (err e)) = some (err e)

abbrev landing_of : Grid → Option Tetromino → Option (Result (Option Tetromino))
landing_of g none = some (ok none)
landing_of g (some t) = landed (descend landing_fuel g t)

unfoldable pub make_landing_tetromino : Board → Option (Result (Option Tetromino))
unfolding descend
make_landing_tetromino b = landing_of b.grid b.current_tetromino
