-- ===== src/Game/Board/Lines.antt =====
-- Where each row goes when a line is cleared or added: `clear_lines` and `add_line` of
-- client/tetris/game/tetris_board.py.
use project_tetris.Base.{
  ℕ, zero, suc, ◌-◌, ◌≤◌, ◌<◌, ◌≡◌, refl, sym, none, some, [], ◌∷◌, ◌++◌, arith, length, get_elem?,
  set, erase_idx, get_elem?-erase_idx_lt, get_elem?-erase_idx_ge, get_elem?-append_lt,
  get_elem?-append_length, pos, negsuc,
}
use project_tetris.Python.Exec.{ok, err, index_error}
use project_tetris.Python.Index.{py_index-pos, py_index-negsuc}
use project_tetris.Game.Tetromino.{board_cols, board_rows}
use project_tetris.Game.Board.{Board, Row, Grid, empty_row, grey_row, clear_lines, add_line, added}
use project_tetris.Game.Board.Invariant.{IsGrid, IsBoard}

-- Clearing row `i` of the grid raises nothing, puts an empty row on top, moves the rows above `i`
-- one down and leaves those below it.
pub clear_lines_rows :
    (b : Board) (i : ℕ)
    → IsBoard b
    → i < board_rows
    → let (r, b') = clear_lines b (pos i) in
      (r ≡ ok tt)
      × (get_elem? b'.grid 0 ≡ some empty_row)
      × ((j : ℕ) → j < i → get_elem? b'.grid (suc j) ≡ get_elem? b.grid j)
      × ((j : ℕ) → i < j → get_elem? b'.grid j ≡ get_elem? b.grid j)
unfolding clear_lines
clear_lines_rows b i h lt =
    rw (py_index-pos (length b.grid) i (omega arith))
      (refl, refl, (λ j jl. get_elem?-erase_idx_lt b.grid i j jl), (λ j il. below j il))
  where
    below : (j : ℕ) → i < j → get_elem? (empty_row ∷ erase_idx b.grid i) j ≡ get_elem? b.grid j
    below zero il = elim il [ ]
    below (suc j) il = get_elem?-erase_idx_ge b.grid i j (omega arith)

-- A row number from -25 to -1 counts from the bottom, as Python's `del` has it.
pub clear_lines-negsuc :
    (b : Board) (k : ℕ)
    → IsBoard b
    → k < board_rows
    → clear_lines b (negsuc k) ≡ clear_lines b (pos (board_rows - suc k))
unfolding clear_lines
clear_lines-negsuc b k h lt = rw (
  h.0,
  py_index-negsuc board_rows k lt,
  py_index-pos board_rows (board_rows - suc k) (omega arith),
)

-- `add_line` once the new line is made, on a grid with a first row.
added_rows :
    (b : Board) (row : Row) (g : Grid) (line : Row)
    → length (row ∷ g) ≡ board_rows
    → let (r, b') = added (record b { grid = row ∷ g }) (ok line) in
      (r ≡ ok tt)
      × ((j : ℕ) → suc j < board_rows → get_elem? b'.grid j ≡ get_elem? (row ∷ g) (suc j))
      × (get_elem? b'.grid (board_rows - 1) ≡ some line)
added_rows b row g line e = rw (py_index-pos (length (row ∷ g ++ (line ∷ []))) 0 (omega arith)) (
  refl,
  (λ j lt. get_elem?-append_lt g (line ∷ []) j (omega arith)),
  rw (sym last) (get_elem?-append_length g line),
)
  where
    last : length g ≡ board_rows - 1
    last = omega arith

-- With a hole inside the row, `add_line` raises nothing, moves every row one up, and ends with a
-- grey line whose only gap is at the hole.
pub add_line_rows :
    (b : Board) (x : ℕ)
    → IsBoard b
    → x < board_cols
    → let (r, b') = add_line b (pos x) in
      (r ≡ ok tt)
      × ((j : ℕ) → suc j < board_rows → get_elem? b'.grid j ≡ get_elem? b.grid (suc j))
      × (get_elem? b'.grid (board_rows - 1) ≡ some (set grey_row x none))
unfolding add_line
add_line_rows b x h lt = rw (py_index-pos board_cols x lt) (go b.grid h)
  where
    go :
        (g : Grid)
        → IsGrid g
        → let (r, b') = added (record b { grid = g }) (ok (set grey_row x none)) in
          (r ≡ ok tt)
          × ((j : ℕ) → suc j < board_rows → get_elem? b'.grid j ≡ get_elem? g (suc j))
          × (get_elem? b'.grid (board_rows - 1) ≡ some (set grey_row x none))
    go [] k = absurd (omega (arith, k.0))
    go (row ∷ g) k = added_rows b row g (set grey_row x none) k.0

-- A hole outside the row raises IndexError before anything is written.
pub add_line_out : (b : Board) (x : ℕ) → board_cols ≤ x → add_line b (pos x) ≡ (err index_error, b)
unfolding add_line
add_line_out b x le = ground arith
