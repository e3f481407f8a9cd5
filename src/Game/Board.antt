-- ===== src/Game/Board.antt =====
-- client/tetris/game/tetris_board.py: the grid, the falling piece, and the calls by which packets
-- and frames change them. Surfaces and textures are left out; `sounds` is the list of the effects
-- played so far, and `combo` the attribute that `reset` and `clear` add.
pub mod Landing
pub mod Gameover
pub mod Invariant
pub mod Clearing
pub mod Lines
pub mod Placing
pub mod Calls
use project_tetris.Base.{
  ℕ, zero, suc, ◌+◌, ◌-◌, ◌≡◌, Bool, true, false, ◌&&◌, ◌||◌, Option, none, some, List, [], ◌∷◌,
  ◌++◌, ltb, leb, if◌then◌else◌, length, get_elem?, set, replicate, ℤ, pos, negsuc, ◌+ℤ◌, ◌*ℤ◌,
  eq_ℤ,
}
use project_tetris.Python.Exec.{Result, ok, err, index_error, or_raise, ◌>>=◌}
use project_tetris.Python.Index.{py_index, get_item, set_item, del_item, or_index_error}
use project_tetris.Game.Tetromino.{
  ShapeKey, key_g, Tetromino, board_cols, board_rows, blocks, rotated,
}
use project_tetris.Game.Combo
use project_tetris.Game.Combo.{ComboAnimation, make_combo}

abbrev pub Cell : Type 0
Cell = Option ShapeKey

abbrev pub Row : Type 0
Row = List Cell

abbrev pub Grid : Type 0
Grid = List Row

-- The keys of `rm.sounds.sound_effects` that the board plays.
pub data Effect : Type 0 where
  effect_move effect_fix effect_clearline effect_addline : Effect

pub record Board : Type 0 where
  pub grid : Grid
  pub current_tetromino : Option Tetromino
  pub next_tetromino_shape : Option ShapeKey
  pub combo_effects : List ComboAnimation
  pub combo : Option ℕ
  pub anim_elapsed_ms : ℕ
  pub anim_target_line : ℤ
  pub cell_length : ℕ
  pub full_grid_x : ℤ
  pub full_grid_y : ℤ
  pub sounds : List Effect

abbrev pub Outcome : Type 0
Outcome = Result (Unit {0}) × Board

abbrev pub empty_row : Row
empty_row = replicate board_cols none

abbrev pub empty_grid : Grid
empty_grid = replicate board_rows empty_row

-- `rm.sounds.sound_effects[effect].play()`
abbrev pub play : Effect → Board → Board
play e b = record b { sounds = b.sounds ++ (e ∷ []) }

-- `self.grid[y][x] = cell`
unfoldable pub set_cell : Grid → ℤ → ℤ → Cell → Result Grid
set_cell g x y cell = do
  j ← or_index_error (py_index (length g) y)
  row ← or_index_error (get_elem? g j)
  row' ← set_item row x cell
  ok (set g j row')

-- The loop of `fix`: the cells written before an IndexError stay written.
unfoldable pub fix_cells : List (ℤ × ℤ) → ShapeKey → Grid → Result (Unit {0}) × Grid
fix_cells [] key g = (ok tt, g)
fix_cells ((x, y) ∷ cells) key g = elim (set_cell g x y (some key)) [
  | ok g' ↦ fix_cells cells key g'
  | err e ↦ (err e, g)
]

abbrev fixed : Board → Result (Unit {0}) × Grid → Outcome
fixed b (ok _, g) = (ok tt, play effect_fix (record b { grid = g; current_tetromino = none }))
fixed b (err e, g) = (err e, record b { grid = g })

abbrev fix_blocks : Board → Tetromino → Result (List (ℤ × ℤ)) → Outcome
fix_blocks b t (ok cells) = fixed b (fix_cells cells t.shape_key b.grid)
fix_blocks b t (err e) = (err e, b)

abbrev fix_tetromino : Board → Tetromino → Outcome
fix_tetromino b t = fix_blocks (record b { current_tetromino = some t }) t (blocks t)

abbrev fix_current : Board → ℤ → ℤ → Option Tetromino → Outcome
fix_current b fix_x fix_y none = (ok tt, b)
fix_current b fix_x fix_y (some t) = fix_tetromino b (record t { x = fix_x; y = fix_y })

unfoldable pub fix : Board → ℤ → ℤ → Outcome
fix b fix_x fix_y = fix_current b fix_x fix_y b.current_tetromino

abbrev cleared : Board → Result Grid → Outcome
cleared b (ok g) = (ok tt, play effect_clearline (record b { grid = empty_row ∷ g }))
cleared b (err e) = (err e, b)

unfoldable pub clear_lines : Board → ℤ → Outcome
clear_lines b row_index = cleared b (del_item b.grid row_index)

unfoldable pub animate_combo : Board → ℤ → ℤ → Board
animate_combo b row_index combo =
    let draw_y = b.full_grid_y +ℤ pos b.cell_length *ℤ row_index in
    record b { combo_effects = b.combo_effects ++ (make_combo combo b.full_grid_x draw_y ∷ []) }

abbrev pub grey_row : Row
grey_row = replicate board_cols (some key_g)

abbrev dropped : Board → Grid → Result Grid → Outcome
dropped b grown (ok g) = (ok tt, play effect_addline (record b { grid = g }))
dropped b grown (err e) = (err e, record b { grid = grown })

-- `append`, then `del self.grid[0]`
abbrev added : Board → Result Row → Outcome
added b (err e) = (err e, b)
added b (ok line) = let grown = b.grid ++ (line ∷ []) in dropped b grown (del_item grown (pos 0))

unfoldable pub add_line : Board → ℤ → Outcome
add_line b hole_x = added b (set_item grey_row hole_x none)

abbrev moved : ℤ → ℤ → Tetromino → Tetromino
moved dx dy t = record t { x = t.x +ℤ dx; y = t.y +ℤ dy }

abbrev move_current : Board → ℤ → ℤ → Option Tetromino → Board
move_current b dx dy none = b
move_current b dx dy (some t) =
    play effect_move (record b { current_tetromino = some (moved dx dy t) })

unfoldable pub move : Board → ℤ → ℤ → Board
move b dx dy = move_current b dx dy b.current_tetromino

abbrev turned : Board → Result Tetromino → Outcome
turned b (ok t) = (ok tt, record b { current_tetromino = some t })
turned b (err e) = (err e, b)

abbrev rotate_current : Board → ℤ → Option Tetromino → Outcome
rotate_current b delta none = (ok tt, b)
rotate_current b delta (some t) = turned b (rotated t delta)

unfoldable pub rotate : Board → ℤ → Outcome
rotate b delta = rotate_current b delta b.current_tetromino

-- `MoveType`, as its numbers are compared with what the server sends.
pub data MoveType : Type 0 where
  move_right move_left move_rotate move_down move_drop move_up : MoveType

unfoldable pub move_code : MoveType → ℕ
move_code move_right = 0
move_code move_left = 1
move_code move_rotate = 2
move_code move_down = 3
move_code move_drop = 4
move_code move_up = 5

abbrev is_move : ℤ → MoveType → Bool
unfolding move_code
is_move move_type m = eq_ℤ move_type (pos (move_code m))

-- A drop and unknown numbers leave the board alone.
abbrev handle_current : Board → ℤ → Option Tetromino → Outcome
handle_current b move_type none = (ok tt, b)
handle_current b move_type (some _) =
    if is_move move_type move_left
    then (ok tt, move b (negsuc 0) (pos 0))
    else if is_move move_type move_right
    then (ok tt, move b (pos 1) (pos 0))
    else if is_move move_type move_down
    then (ok tt, move b (pos 0) (pos 1))
    else if is_move move_type move_rotate
    then rotate b (pos 1)
    else if is_move move_type move_up
    then (ok tt, move b (pos 0) (negsuc 0))
    else (ok tt, b)

unfoldable pub handle_move : Board → ℤ → Outcome
unfolding is_move
handle_move b move_type = handle_current b move_type b.current_tetromino

-- The loops of `_clear_board`, over the rows and the columns of a row.
unfoldable pub clear_row : ℕ → Row → Result (Unit {0}) × Row
clear_row zero row = (ok tt, row)
clear_row (suc n) [] = (err index_error, [])
clear_row (suc n) (c ∷ row) = let (r, row') = clear_row n row in (r, none ∷ row')

unfoldable pub clear_rows : ℕ → Grid → Result (Unit {0}) × Grid
unfolding clear_row
clear_rows zero g = (ok tt, g)
clear_rows (suc n) [] = (err index_error, [])
clear_rows (suc n) (row ∷ g) =
    let (r, row') = clear_row board_cols row in
    elim r [ ok _ ↦ let (r', g') = clear_rows n g in (r', row' ∷ g') | err e ↦ (err e, row' ∷ g) ]

unfoldable pub clear_board : Board → Outcome
unfolding clear_rows
clear_board b = let (r, g) = clear_rows board_rows b.grid in (r, record b { grid = g })

-- What a method does once `_clear_board` has returned.
abbrev after_clear : (Board → Board) → Outcome → Outcome
after_clear rest (ok _, b) = (ok tt, rest b)
after_clear rest (err e, b) = (err e, b)

abbrev forget_shapes : Board → Board
forget_shapes b = record b { current_tetromino = none; next_tetromino_shape = none }

abbrev pub forget_round : Board → Board
forget_round b = record b {
  current_tetromino = none;
  next_tetromino_shape = none;
  combo = some 0;
  combo_effects = [];
  anim_elapsed_ms = 0;
  anim_target_line = pos (board_rows - 1);
}

unfoldable pub init : Board → Outcome
unfolding clear_board
init b = after_clear forget_shapes (clear_board b)

unfoldable pub reset : Board → Outcome
unfolding clear_board
reset b = after_clear forget_round (clear_board b)

-- The body of `clear` is that of `reset`.
unfoldable pub clear : Board → Outcome
unfolding clear_board
clear b = after_clear forget_round (clear_board b)

-- The effects that are still active after an update.
unfoldable pub update_effects : ℕ → List ComboAnimation → List ComboAnimation
update_effects dt [] = []
update_effects dt (c ∷ cs) =
    let c' = Combo.update c dt in
    let rest = update_effects dt cs in if c'.active then c' ∷ rest else rest

unfoldable pub update : Board → ℕ → Board
unfolding update_effects
update b dt = record b { combo_effects = update_effects dt b.combo_effects }

-- A board of the constructor.
unfoldable pub new_board : ℕ → ℤ → ℤ → Board
new_board cell_length x y = record {
  grid = empty_grid;
  current_tetromino = none;
  next_tetromino_shape = none;
  combo_effects = [];
  combo = none;
  anim_elapsed_ms = 0;
  anim_target_line = pos (board_rows - 1);
  cell_length = cell_length;
  full_grid_x = x;
  full_grid_y = y;
  sounds = [];
}
