-- ===== src/Game/Examples.antt =====
-- The theorems on the game at concrete boards, sessions and keys.
use project_tetris.Base.{
  ℕ, zero, suc, ◌+◌, ◌*◌, ◌-◌, ◌<◌, ◌≤◌, ◌≡◌, ◌≢◌, refl, true, false, none, some, List, [], ◌∷◌,
  ◌++◌, arith, length, get_elem?, set, replicate, All, if◌then◌else◌, ℤ, pos, ◌+ℤ◌, ◌*ℤ◌,
}
use project_tetris.Python.Exec.{ok}
use project_tetris.Game.Combo.{make_combo}
use project_tetris.Game.Tetromino.{
  Tetromino, key_t, key_i, board_cols, board_rows, shapes, rotations, shape_at, blocks,
}
use project_tetris.Game.Board.{
  MoveType, move_left, move_drop, Board, Row, Grid, empty_row, empty_grid, new_board, fix,
  clear_lines, add_line, reset, forget_round, grey_row,
}
use project_tetris.Game.Board.Invariant.{IsBoard}
use project_tetris.Game.Board.Placing.{cell, covers, fix_lem}
use project_tetris.Game.Board.Lines.{clear_lines_rows, add_line_rows}
use project_tetris.Game.Board.Clearing.{reset_lem}
use project_tetris.Game.Board.Landing.{make_landing_tetromino}
use project_tetris.Game.Board.Landing.Free.{IsFree}
use project_tetris.Game.Board.Landing.Drop.{down}
use project_tetris.Game.Board.Landing.Rest.{make_landing_lem}
use project_tetris.Game.Board.Gameover.{find_anim_start_line, animate_gameover}
use project_tetris.Game.Board.Gameover.Frames.{
  all_empty, after_frame, IsFilled, frames, animate_gameover_line, frames_stacked,
}
use project_tetris.Game.Board.Gameover.StartLine.{StartsAt, find_anim_start_line_lem}
use project_tetris.Game.Board.Calls.{
  BoardCall, set_piece, fix_at, clear_line_at, add_line_at, move_by, gameover_frame, perform_all,
  perform_all-IsBoard,
}
use project_tetris.Game.Controller.{
  Axis, Controller, key_left, keydown, keyup, new_controller, delay_ms, update,
}
use project_tetris.Game.Controller.Repeat.{hold, total, IsRepeating, hold_pace}
use project_tetris.Game.Controller.Keys.{
  Input, event, frame, run, arrow_left, count, budgets, run_bound, drop_silences,
}
use project_tetris.Game.Session.{TetrisSession, play}
use project_tetris.Net.Registry.{s2c_fix}
use project_tetris.Game.Session.Clearlines.{handle_packets, clearlines, clearlines_lem}

abbrev block_row : Row
block_row = some key_i ∷ replicate 9 none

abbrev heap : Grid
heap = replicate 24 empty_row ++ (block_row ∷ [])

abbrev tile : Tetromino
tile = record { shape_key = key_t; x = pos 3; y = pos 2; rotation = 0 }

abbrev tile_cells : List (ℤ × ℤ)
tile_cells = (pos 4, pos 2) ∷ (pos 3, pos 3) ∷ (pos 4, pos 3) ∷ (pos 5, pos 3) ∷ []

abbrev playing : Board
playing = record {
  grid = heap;
  current_tetromino = some tile;
  next_tetromino_shape = none;
  combo_effects = [];
  combo = none;
  anim_elapsed_ms = 0;
  anim_target_line = pos 24;
  cell_length = 30;
  full_grid_x = pos 0;
  full_grid_y = pos 0;
  sounds = [];
}

playing-IsBoard : IsBoard playing
playing-IsBoard = omega arith

tile-blocks : blocks tile ≡ ok tile_cells
unfolding blocks shape_at rotations shapes ◌+ℤ◌
tile-blocks = refl

make_landing_example :
    (n : ℕ) × (make_landing_tetromino playing ≡ some (ok (some (down tile n))))
    × ((k : ℕ) → k < n → IsFree heap (down tile (suc k)))
    × (¬ IsFree heap (down tile (suc n)))
make_landing_example = make_landing_lem playing tile tile_cells playing-IsBoard refl tile-blocks

fix_example :
    let (r, b') = fix playing (pos 3) (pos 2) in
    (r ≡ ok tt)
    × (b'.current_tetromino ≡ none)
    × ((c r : ℕ)
        → c < board_cols
        → r < board_rows
        → cell b'.grid c r ≡ (if covers tile_cells c r then some (some key_t) else cell heap c r))
fix_example =
    fix_lem playing tile (pos 3) (pos 2) tile_cells playing-IsBoard refl tile-blocks (omega arith)

clear_lines_example :
    let (r, b') = clear_lines playing (pos 24) in
    (r ≡ ok tt)
    × (get_elem? b'.grid 0 ≡ some empty_row)
    × ((j : ℕ) → j < 24 → get_elem? b'.grid (suc j) ≡ get_elem? heap j)
    × ((j : ℕ) → 24 < j → get_elem? b'.grid j ≡ get_elem? heap j)
clear_lines_example = clear_lines_rows playing 24 playing-IsBoard (omega arith)

add_line_example :
    let (r, b') = add_line playing (pos 7) in
    (r ≡ ok tt)
    × ((j : ℕ) → suc j < board_rows → get_elem? b'.grid j ≡ get_elem? heap (suc j))
    × (get_elem? b'.grid (board_rows - 1) ≡ some (set grey_row 7 none))
add_line_example = add_line_rows playing 7 playing-IsBoard (omega arith)

reset_example : reset playing ≡ (ok tt, forget_round (record playing { grid = empty_grid }))
reset_example = reset_lem playing playing-IsBoard

calls : List BoardCall
calls =
    set_piece tile
    ∷ move_by (pos 1)
    ∷ fix_at (pos 3) (pos 22)
    ∷ clear_line_at (pos 99)
    ∷ add_line_at (pos 4)
    ∷ gameover_frame 120
    ∷ []

perform_all_example : IsBoard (perform_all calls (new_board 30 (pos 0) (pos 0)))
perform_all_example = perform_all-IsBoard calls 30 (pos 0) (pos 0)

find_anim_start_line_example :
    (m : ℕ) × (find_anim_start_line playing ≡ ok (record playing { anim_target_line = pos m }))
    × StartsAt heap (board_rows - 1) m
find_anim_start_line_example = find_anim_start_line_lem playing playing-IsBoard

animate_gameover_example :
    animate_gameover playing 120 ≡ (ok (all_empty block_row), after_frame playing 120 24 block_row)
animate_gameover_example =
    animate_gameover_line playing 120 24 block_row playing-IsBoard refl refl (omega arith)

abbrev stacked : Board
stacked = record playing { grid = replicate 25 block_row }

rows_IsFilled : (n : ℕ) → All IsFilled (replicate n block_row)
rows_IsFilled zero = tt
rows_IsFilled (suc n) = ((refl, refl), rows_IsFilled n)

frames_stacked_example : All (λ r. r ≢ ok true) (frames (120 ∷ 120 ∷ []) stacked)
frames_stacked_example = frames_stacked (120 ∷ 120 ∷ []) stacked (refl, rows_IsFilled 25)

abbrev inputs : List Input
inputs = event (keydown key_left) ∷ frame 16 ∷ frame 400 ∷ event (keyup key_left) ∷ frame 16 ∷ []

run_bound_example :
    delay_ms * count arrow_left (run inputs new_controller).1 ≤ budgets arrow_left inputs + delay_ms
run_bound_example = run_bound arrow_left inputs

abbrev repeating : Axis
repeating = record { pressed = true; elapsed_time = 10; first_over = true; first_move = true }

repeating-IsRepeating : IsRepeating repeating
repeating-IsRepeating = record { is_pressed = refl; is_over = refl; in_time = omega arith }

hold_pace_example :
    total (16 ∷ 16 ∷ 16 ∷ [])
    < (delay_ms + 16) * length (hold move_left (16 ∷ 16 ∷ 16 ∷ []) repeating).1 + delay_ms
hold_pace_example =
    hold_pace move_left 16 (16 ∷ 16 ∷ 16 ∷ []) repeating repeating-IsRepeating (omega arith)

abbrev dropping : Controller
dropping = record new_controller { drop_pressed = true }

drop_silences_example :
    let (c', sent) = update dropping 16 in
    ((front : List MoveType) × (sent ≡ front ++ (move_drop ∷ []))) × (update c' 20 ≡ (c', []))
drop_silences_example = drop_silences dropping 16 20 refl

abbrev single : TetrisSession
single = record {
  session = none;
  is_single = true;
  controller = some new_controller;
  state = play;
  score = pos 0;
  prev_packet_type = some s2c_fix;
  btn_start = true;
  btn_ready = none;
  btn_kick = false;
  nickname = [];
  is_host = false;
  board = playing;
}

clearlines_example :
    (s' : TetrisSession) × (handle_packets single
        (clearlines ((24, pos 1, pos 100) ∷ (23, pos 1, pos 200) ∷ []))
      ≡ (ok tt, s'))
    × (s'.board.combo_effects ≡ [] ++ (make_combo (pos 1) (pos 0) (pos 0 +ℤ pos 30 *ℤ pos 24) ∷ []))
clearlines_example =
    clearlines_lem single 24 (pos 1) (pos 100) ((23, pos 1, pos 200) ∷ []) playing-IsBoard refl
      (omega arith)
