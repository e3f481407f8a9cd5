-- ===== src/Game/Board/Placing.antt =====
-- Which cells `fix` of client/tetris/game/tetris_board.py writes.
use project_tetris.Base.{
  ℕ, zero, suc, ◌<◌, ◌≡◌, refl, Bool, false, ◌&&◌, ◌||◌, Option, none, some, List, [], ◌∷◌, arith,
  length, get_elem?, set, if◌then◌else◌, ◌==◌, All, ℤ, pos, negsuc, eq_ℤ, get_elem?-set,
  get_elem?-of_lt, All-get_elem?,
}
use project_tetris.Python.Exec.{Result, ok, err}
use project_tetris.Python.Index.{py_index-pos}
use project_tetris.Game.Tetromino.{ShapeKey, Tetromino, board_cols, board_rows, blocks}
use project_tetris.Game.Board.{
  Board, Cell, Row, Grid, set_cell, fix_cells, fixed, fix, play, effect_fix,
}
use project_tetris.Game.Board.Invariant.{IsRow, IsGrid, IsBoard, set_cell-IsGrid}

abbrev pub column : Option Row → ℕ → Option Cell
column none c = none
column (some row) c = get_elem? row c

-- The cell in column `c` of row `r`.
abbrev pub cell : Grid → ℕ → ℕ → Option Cell
cell g c r = column (get_elem? g r) c

abbrev pub covers : List (ℤ × ℤ) → ℕ → ℕ → Bool
covers [] c r = false
covers ((x, y) ∷ cells) c r = (eq_ℤ x (pos c) && eq_ℤ y (pos r)) || covers cells c r

abbrev pub IsInside : ℤ × ℤ → Type 0
IsInside (pos x, pos y) = (x < board_cols) × (y < board_rows)
IsInside _ = ⊥

set_cell_inside :
    (g : Grid) (x y : ℕ) (c : Cell)
    → IsGrid g
    → x < board_cols
    → y < board_rows
    → (row : Row) × (get_elem? g y ≡ some row)
      × (set_cell g (pos x) (pos y) c ≡ ok (set g y (set row x c)))
unfolding set_cell
set_cell_inside g x y c h hx hy =
    let (row, e) = get_elem?-of_lt g y (omega arith) in
    let r : length row ≡ board_cols = All-get_elem? IsRow g y h.1 e in
    (
      row,
      e,
      rw (py_index-pos (length g) y (omega arith), e, py_index-pos (length row) x (omega arith)),
    )

get_elem?-lt : {A : Type 0} (xs : List A) (i : ℕ) {x : A} → get_elem? xs i ≡ some x → i < length xs
get_elem?-lt [] i e = cc
get_elem?-lt (x ∷ xs) zero e = omega arith
get_elem?-lt (x ∷ xs) (suc i) e = omega (arith, get_elem?-lt xs i e)

cell-set :
    (g : Grid) (x y : ℕ) (row : Row) (v : Cell) (c r : ℕ)
    → get_elem? g y ≡ some row
    → x < length row
    → cell (set g y (set row x v)) c r ≡ (if (x == c && y == r) then some v else cell g c r)
cell-set g x y row v c r e hx =
    ground
      (arith, get_elem?-set g y r (set row x v) (get_elem?-lt g y e), get_elem?-set row x c v hx)

-- The loop of `fix` over cells inside the grid: it raises nothing, and writes the key in the cells
-- it is given and nowhere else.
fix_cells_lem :
    (cells : List (ℤ × ℤ)) (key : ShapeKey) (g : Grid)
    → IsGrid g
    → All IsInside cells
    → ((fix_cells cells key g).0 ≡ ok tt)
      × ((c r : ℕ)
          → c < board_cols
          → r < board_rows
          → cell (fix_cells cells key g).1 c r
            ≡ (if covers cells c r then some (some key) else cell g c r))
unfolding fix_cells
fix_cells_lem [] key g h all = (refl, λ c r hc hr. refl)
fix_cells_lem ((pos x, pos y) ∷ cells) key g h ((hx, hy), all) =
    let (row, er, s) = set_cell_inside g x y (some key) h hx hy in
    let g' : Grid = set g y (set row x (some key)) in
    let h' : IsGrid g' = rw s at (set_cell-IsGrid g (pos x) (pos y) (some key) h) in
    let (raised, written) = fix_cells_lem cells key g' h' all in
    let wide : length row ≡ board_cols = All-get_elem? IsRow g y h.1 er in
    rw (s, fix_cells)
      (
        raised,
        λ c r hc hr.
            ground (arith, written c r hc hr, cell-set g x y row (some key) c r er (omega arith)),
      )
fix_cells_lem ((pos x, negsuc y) ∷ cells) key g h (bad, all) = absurd bad
fix_cells_lem ((negsuc x, y) ∷ cells) key g h (bad, all) = absurd bad

fixed_lem :
    (b : Board) (p : Result (Unit {0}) × Grid)
    → p.0 ≡ ok tt
    → fixed b p ≡ (ok tt, play effect_fix (record b { grid = p.1; current_tetromino = none }))
fixed_lem b (ok _, g) e = refl
fixed_lem b (err x, g) e = cc

-- `fix` at a place where the four cells of the falling piece lie inside the grid raises nothing and
-- takes the piece away; the cells of the piece get its key, and every other cell is as before.
pub fix_lem :
    (b : Board) (t : Tetromino) (x y : ℤ) (cells : List (ℤ × ℤ))
    → IsBoard b
    → b.current_tetromino ≡ some t
    → blocks (record t { x = x; y = y }) ≡ ok cells
    → All IsInside cells
    → let (r, b') = fix b x y in
      (r ≡ ok tt)
      × (b'.current_tetromino ≡ none)
      × ((c r : ℕ)
          → c < board_cols
          → r < board_rows
          → cell b'.grid c r
            ≡ (if covers cells c r then some (some t.shape_key) else cell b.grid c r))
unfolding fix
fix_lem b t x y cells h e eb all =
    let (raised, written) = fix_cells_lem cells t.shape_key b.grid h all in
    simp e
      (simp eb (rw (fixed_lem _ (fix_cells cells t.shape_key b.grid) raised) (refl, refl, written)))
