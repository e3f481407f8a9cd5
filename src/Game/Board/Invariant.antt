-- ===== src/Game/Board/Invariant.antt =====
-- The grid stays 25 rows of 10 cells under every call, also under one that raises.
use project_tetris.Base.{
  ℕ, ◌<◌, ◌≡◌, refl, ◌∙◌, Option, none, some, List, [], ◌∷◌, ◌++◌, arith, length, get_elem?, set,
  erase_idx, All, All-append, All-set, All-erase_idx, All-get_elem?, length-append, length-set,
  length-erase_idx, ℤ, pos, negsuc, inl, inr,
}
use project_tetris.Python.Exec.{Result, ok, err, Ensures, Ensures->>=, Ensures-then, Result-cases}
use project_tetris.Python.Index.{
  py_index, set_at, del_at, set_item, py_index_lt, py_index-pos, or_index_error,
}
use project_tetris.Game.Tetromino.{ShapeKey, Tetromino, board_cols, board_rows, blocks, rotated}
use project_tetris.Game.Board.{
  Board, Cell, Row, Grid, empty_row, grey_row, fixed, fix_blocks, fix_current, cleared, added,
  rotate_current, turned, set_cell, fix_cells, fix, clear_lines, add_line, move, rotate,
  handle_move,
}

abbrev pub IsRow : Row → Type 0
IsRow row = length row ≡ board_cols

abbrev pub IsGrid : Grid → Type 0
IsGrid g = (length g ≡ board_rows) × All IsRow g

set-IsGrid : (g : Grid) (j : ℕ) (row : Row) → IsGrid g → IsRow row → IsGrid (set g j row)
set-IsGrid g j row h r = (length-set g j row ∙ h.0, All-set IsRow g j h.1 r)

set_at-IsRow : (row : Row) (i : Option ℕ) (c : Cell) → IsRow row → Ensures IsRow (set_at row i c)
set_at-IsRow row none c h = tt
set_at-IsRow row (some i) c h = length-set row i c ∙ h

or_index_error-eq : {A : Type 0} (o : Option A) {a : A} → or_index_error o ≡ ok a → o ≡ some a
or_index_error-eq o e = ground arith

pub set_cell-IsGrid : (g : Grid) (x y : ℤ) (c : Cell) → IsGrid g → Ensures IsGrid (set_cell g x y c)
unfolding set_cell
set_cell-IsGrid g x y c h = Ensures->>= IsGrid (or_index_error (py_index (length g) y)) _ λ j _.
    Ensures->>= IsGrid (or_index_error (get_elem? g j)) _ λ row e.
      let r : IsRow row = All-get_elem? IsRow g j h.1 (or_index_error-eq _ e) in
      Ensures-then IsRow IsGrid (set_item row x c) (λ row'. ok (set g j row'))
        (set_at-IsRow row (py_index (length row) x) c r) (λ row' r'. set-IsGrid g j row' h r')

pub fix_cells-IsGrid :
    (cells : List (ℤ × ℤ)) (key : ShapeKey) (g : Grid) → IsGrid g → IsGrid (fix_cells cells key g).1
unfolding fix_cells
fix_cells-IsGrid [] key g h = h
fix_cells-IsGrid ((x, y) ∷ cells) key g h = elim (Result-cases (set_cell g x y (some key))) [
  | inl (g', e) ↦
      rw (e, fix_cells)
        (fix_cells-IsGrid cells key g' (rw e at (set_cell-IsGrid g x y (some key) h)))
  | inr (_, e) ↦ rw (e, fix_cells) h
]

abbrev pub IsBoard : Board → Type 0
IsBoard b = IsGrid b.grid

fixed-IsBoard : (b : Board) (r : Result (Unit {0}) × Grid) → IsGrid r.1 → IsBoard (fixed b r).1
fixed-IsBoard b (ok _, g) h = h
fixed-IsBoard b (err e, g) h = h

fix_blocks-IsBoard :
    (b : Board) (t : Tetromino) (cells : Result (List (ℤ × ℤ)))
    → IsBoard b
    → IsBoard (fix_blocks b t cells).1
fix_blocks-IsBoard b t (ok cells) h =
    fixed-IsBoard b (fix_cells cells t.shape_key b.grid)
      (fix_cells-IsGrid cells t.shape_key b.grid h)
fix_blocks-IsBoard b t (err e) h = h

fix_current-IsBoard :
    (b : Board) (x y : ℤ) (o : Option Tetromino) → IsBoard b → IsBoard (fix_current b x y o).1
fix_current-IsBoard b x y none h = h
fix_current-IsBoard b x y (some t) h =
    let t' : Tetromino = record t { x = x; y = y } in
    fix_blocks-IsBoard (record b { current_tetromino = some t' }) t' (blocks t') h

pub fix-IsBoard : (b : Board) (x y : ℤ) → IsBoard b → IsBoard (fix b x y).1
unfolding fix
fix-IsBoard b x y h = fix_current-IsBoard b x y b.current_tetromino h

erase-IsGrid : (g : Grid) (i : ℕ) → i < length g → IsGrid g → IsGrid (empty_row ∷ erase_idx g i)
erase-IsGrid g i lt h =
    (omega (arith, h.0, length-erase_idx g i lt), (refl, All-erase_idx IsRow g i h.1))

cleared-IsBoard :
    (b : Board) (i : Option ℕ) (k : ℤ)
    → py_index (length b.grid) k ≡ i
    → IsBoard b
    → IsBoard (cleared b (del_at b.grid i)).1
cleared-IsBoard b none k e h = h
cleared-IsBoard b (some i) k e h = erase-IsGrid b.grid i (py_index_lt _ k e) h

pub clear_lines-IsBoard : (b : Board) (i : ℤ) → IsBoard b → IsBoard (clear_lines b i).1
unfolding clear_lines
clear_lines-IsBoard b i h = cleared-IsBoard b (py_index (length b.grid) i) i refl h

-- A grid with a line added below and its first row dropped.
shifted-IsGrid :
    (row : Row) (g : Grid) (line : Row) → IsGrid (row ∷ g) → IsRow line → IsGrid (g ++ (line ∷ []))
shifted-IsGrid row g line (e, h) r =
    (omega (arith, e, length-append g (line ∷ [])), All-append IsRow g (line ∷ []) h.1 (r, tt))

added-IsBoard :
    (b : Board) (g : Grid) (r : Result Row)
    → Ensures IsRow r
    → IsGrid g
    → IsBoard (added (record b { grid = g }) r).1
added-IsBoard b g (err e) r h = h
added-IsBoard b [] (ok line) r h = absurd (omega (arith, h.0))
added-IsBoard b (row ∷ g) (ok line) r h =
    rw (py_index-pos (length (row ∷ g ++ (line ∷ []))) 0 (omega arith))
      (shifted-IsGrid row g line h r)

pub add_line-IsBoard : (b : Board) (x : ℤ) → IsBoard b → IsBoard (add_line b x).1
unfolding add_line
add_line-IsBoard b x h =
    added-IsBoard b b.grid _ (set_at-IsRow grey_row (py_index board_cols x) none refl) h

rotate_current-grid :
    (b : Board) (delta : ℤ) (o : Option Tetromino) → (rotate_current b delta o).1.grid ≡ b.grid
rotate_current-grid b delta none = refl
rotate_current-grid b delta (some t) = turned_lem (rotated t delta)
  where
    turned_lem : (r : Result Tetromino) → (turned b r).1.grid ≡ b.grid
    turned_lem (ok t') = refl
    turned_lem (err e) = refl

move-grid : (b : Board) (dx dy : ℤ) → (move b dx dy).grid ≡ b.grid
unfolding move
move-grid b dx dy = ground arith

rotate-grid : (b : Board) (delta : ℤ) → (rotate b delta).1.grid ≡ b.grid
unfolding rotate
rotate-grid b delta = rotate_current-grid b delta b.current_tetromino

-- No move writes to the grid.
pub handle_move-grid : (b : Board) (m : ℤ) → (handle_move b m).1.grid ≡ b.grid
unfolding handle_move
handle_move-grid b m = ground (
  arith,
  move-grid b (negsuc 0) (pos 0),
  move-grid b (pos 1) (pos 0),
  move-grid b (pos 0) (pos 1),
  move-grid b (pos 0) (negsuc 0),
  rotate-grid b (pos 1),
)
