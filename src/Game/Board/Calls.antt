-- ===== src/Game/Board/Calls.antt =====
-- Any sequence of calls on a board: those of the packets, the frames and the resets, and the two
-- attributes that a session sets when a piece spawns.
use project_tetris.Base.{
  ℕ, ◌+◌, some, List, [], ◌∷◌, map, arith, replicate, All-set, All-get_elem?, get_elem?-of_lt,
  length-set, ◌∙◌, ltb, ltb→lt, ℤ, Bool-cases, Option-cases, inl, inr,
}
use project_tetris.Python.Exec.{Result, ok, err}
use project_tetris.Python.Index.{py_index, py_index_lt}
use project_tetris.Game.Tetromino.{ShapeKey, Tetromino, board_rows}
use project_tetris.Game.Board.{
  Board, new_board, empty_row, fix, clear_lines, add_line, animate_combo, handle_move, init, reset,
  clear, update,
}
use project_tetris.Game.Board.Invariant.{
  IsRow, IsGrid, IsBoard, fix-IsBoard, clear_lines-IsBoard, add_line-IsBoard, handle_move-grid,
}
use project_tetris.Game.Board.Clearing.{init_lem, reset_lem}
use project_tetris.Game.Board.Gameover.{animate_gameover, find_anim_start_line, greyed}
use project_tetris.Game.Board.Gameover.Frames.{
  animate_gameover_line, animate_gameover_wait, length-greyed,
}
use project_tetris.Game.Board.Gameover.StartLine.{find_anim_start_line_lem}

pub data BoardCall : Type 0 where
  set_piece : Tetromino → BoardCall
  set_next : ShapeKey → BoardCall
  fix_at : ℤ → ℤ → BoardCall
  clear_line_at : ℤ → BoardCall
  add_line_at : ℤ → BoardCall
  move_by : ℤ → BoardCall
  show_combo : ℤ → ℤ → BoardCall
  init_board reset_board clear_all : BoardCall
  update_by : ℕ → BoardCall
  find_start : BoardCall
  gameover_frame : ℕ → BoardCall

abbrev kept : Board → Result Board → Board
kept b (ok b') = b'
kept b (err e) = b

-- The board after a call that returned or raised.
unfoldable pub perform : BoardCall → Board → Board
perform (set_piece t) b = record b { current_tetromino = some t }
perform (set_next key) b = record b { next_tetromino_shape = some key }
perform (fix_at x y) b = (fix b x y).1
perform (clear_line_at i) b = (clear_lines b i).1
perform (add_line_at x) b = (add_line b x).1
perform (move_by m) b = (handle_move b m).1
perform (show_combo i c) b = animate_combo b i c
perform init_board b = (init b).1
perform reset_board b = (reset b).1
perform clear_all b = (clear b).1
perform (update_by dt) b = update b dt
perform find_start b = kept b (find_anim_start_line b)
perform (gameover_frame dt) b = (animate_gameover b dt).1

unfoldable pub perform_all : List BoardCall → Board → Board
unfolding perform
perform_all [] b = b
perform_all (c ∷ cs) b = perform_all cs (perform c b)

frame-IsBoard : (b : Board) (dt : ℕ) → IsBoard b → IsBoard (animate_gameover b dt).1
frame-IsBoard b dt h = elim (Bool-cases (ltb 100 (b.anim_elapsed_ms + dt))) [
  | inr early ↦ rw (animate_gameover_wait b dt (ground arith)) h
  | inl due ↦ elim (Option-cases (py_index board_rows b.anim_target_line)) [
    | inl out ↦ unfold animate_gameover in rw (due, h.0, out) h
    | inr (j, at) ↦
        let (row, er) =
          get_elem?-of_lt b.grid j
            (omega (arith, py_index_lt board_rows b.anim_target_line at, h.0)) in
        let r : IsRow row = All-get_elem? IsRow b.grid j h.1 er in
        rw (animate_gameover_line b dt j row h at er (ltb→lt 100 (b.anim_elapsed_ms + dt) due)) (
          length-set b.grid j (map greyed row) ∙ h.0,
          All-set IsRow b.grid j h.1 (length-greyed row ∙ r),
        )
  ]
]

empty-IsGrid : IsGrid (replicate board_rows empty_row)
empty-IsGrid = omega arith

perform-IsBoard : (c : BoardCall) (b : Board) → IsBoard b → IsBoard (perform c b)
unfolding perform init reset
perform-IsBoard (set_piece t) b h = h
perform-IsBoard (set_next key) b h = h
perform-IsBoard (fix_at x y) b h = fix-IsBoard b x y h
perform-IsBoard (clear_line_at i) b h = clear_lines-IsBoard b i h
perform-IsBoard (add_line_at x) b h = add_line-IsBoard b x h
perform-IsBoard (move_by m) b h = rw (handle_move-grid b m) h
perform-IsBoard (show_combo i c) b h = unfold animate_combo in h
perform-IsBoard init_board b h = rw (init_lem b h) empty-IsGrid
perform-IsBoard reset_board b h = rw (reset_lem b h) empty-IsGrid
perform-IsBoard clear_all b h = unfold clear in rw (reset_lem b h) empty-IsGrid
perform-IsBoard (update_by dt) b h = unfold update in h
perform-IsBoard find_start b h = let (m, e, _) = find_anim_start_line_lem b h in rw e h
perform-IsBoard (gameover_frame dt) b h = frame-IsBoard b dt h

run-IsBoard : (cs : List BoardCall) (b : Board) → IsBoard b → IsBoard (perform_all cs b)
unfolding perform_all
run-IsBoard [] b h = h
run-IsBoard (c ∷ cs) b h = run-IsBoard cs (perform c b) (perform-IsBoard c b h)

-- From a new board, any sequence of spawns of any pieces and of calls, with any arguments and whether
-- they raise or not, leaves a grid of 25 rows of 10 cells.
pub perform_all-IsBoard :
    (cs : List BoardCall) (cell_length : ℕ) (x y : ℤ)
    → IsBoard (perform_all cs (new_board cell_length x y))
unfolding new_board
perform_all-IsBoard cs cell_length x y = run-IsBoard cs (new_board cell_length x y) empty-IsGrid
