-- ===== src/Game/Board/Landing/Free.antt =====
-- The collision test of `make_landing_tetromino` against a plain description of a free place.
use project_tetris.Base.{
  ℕ, ◌<◌, ◌≡◌, refl, ◌∙◌, Bool, true, false, none, some, List, [], ◌∷◌, arith, length, All,
  All-get_elem?, get_elem?-of_lt, ℤ, pos, negsuc, inl, inr, ◌⊎◌, Bool-cases,
}
use project_tetris.Python.Exec.{ok, Result-cases}
use project_tetris.Python.Index.{get_item, py_index-pos}
use project_tetris.Game.Tetromino.{Tetromino, board_cols, board_rows, blocks}
use project_tetris.Game.Board.{Cell, Row, Grid}
use project_tetris.Game.Board.Invariant.{IsRow, IsGrid}
use project_tetris.Game.Board.Placing.{cell}
use project_tetris.Game.Board.Landing.{outside, unless_occupied, is_blocked, stops}

-- The place lies inside the grid, and the cell there is empty.
abbrev pub IsFreeAt : Grid → ℤ × ℤ → Type 0
IsFreeAt g (pos x, pos y) = (x < board_cols) × (y < board_rows) × (cell g x y ≡ some none)
IsFreeAt g _ = ⊥

abbrev pub AllFree : Grid → List (ℤ × ℤ) → Type 0
AllFree g cells = All (IsFreeAt g) cells

abbrev Answer : Grid → List (ℤ × ℤ) → Type 0
Answer g cells =
    ((is_blocked g cells ≡ ok false) × AllFree g cells)
    ⊎ ((is_blocked g cells ≡ ok true) × (AllFree g cells → ⊥))

blocked_outside :
    (g : Grid) (x y : ℤ) (cells : List (ℤ × ℤ))
    → outside x y ≡ true
    → is_blocked g ((x, y) ∷ cells) ≡ ok true
unfolding is_blocked
blocked_outside g x y cells e = rw e

-- Inside a grid of the right size the test reads the cell, and goes on if it is empty.
read_cell :
    (g : Grid) (x y : ℕ)
    → IsGrid g
    → x < board_cols
    → y < board_rows
    → (row : Row) × (c : Cell) × (get_item g (pos y) ≡ ok row)
      × (get_item row (pos x) ≡ ok c)
      × (cell g x y ≡ some c)
read_cell g x y h hx hy =
    let (row, e) = get_elem?-of_lt g y (omega arith) in
    let r : length row ≡ board_cols = All-get_elem? IsRow g y h.1 e in
    let (c, f) = get_elem?-of_lt row x (omega arith) in
    (
      row,
      c,
      rw (py_index-pos (length g) y (omega arith), e),
      rw (py_index-pos (length row) x (omega arith), f),
      rw e f,
    )

blocked_inside :
    (g : Grid) (x y : ℤ) (cells : List (ℤ × ℤ)) (row : Row) (c : Cell)
    → outside x y ≡ false
    → get_item g y ≡ ok row
    → get_item row x ≡ ok c
    → is_blocked g ((x, y) ∷ cells) ≡ unless_occupied c (is_blocked g cells)
unfolding is_blocked
blocked_inside g x y cells row c e er ec = rw (e, er, ec)

Answer-inside :
    (g : Grid) (x y : ℕ) (cells : List (ℤ × ℤ)) (c : Cell)
    → is_blocked g ((pos x, pos y) ∷ cells) ≡ unless_occupied c (is_blocked g cells)
    → cell g x y ≡ some c
    → x < board_cols
    → y < board_rows
    → Answer g cells
    → Answer g ((pos x, pos y) ∷ cells)
Answer-inside g x y cells (some key) e q hx hy rest = inr (e, λ all. ground (arith, all.0.2, q))
Answer-inside g x y cells none e q hx hy (inl (free, all)) = inl (e ∙ free, ((hx, hy, q), all))
Answer-inside g x y cells none e q hx hy (inr (stop, bad)) = inr (e ∙ stop, λ all. bad all.1)

is_blocked-Answer : (g : Grid) (cells : List (ℤ × ℤ)) → IsGrid g → Answer g cells
is_blocked-Answer g [] h = inl (unfold is_blocked in refl, tt)
is_blocked-Answer g ((pos x, pos y) ∷ cells) h = elim (Bool-cases (outside (pos x) (pos y))) [
  | inl o ↦ inr (blocked_outside g (pos x) (pos y) cells o, λ all. ground (arith, all.0))
  | inr o ↦
      let hx : x < board_cols = ground arith in
      let hy : y < board_rows = ground arith in
      let (row, c, er, ec, q) = read_cell g x y h hx hy in
      Answer-inside g x y cells c (blocked_inside g (pos x) (pos y) cells row c o er ec) q hx hy
        (is_blocked-Answer g cells h)
]
is_blocked-Answer g ((pos x, negsuc y) ∷ cells) h =
    inr (blocked_outside g (pos x) (negsuc y) cells (ground arith), λ all. all.0)
is_blocked-Answer g ((negsuc x, y) ∷ cells) h =
    inr (blocked_outside g (negsuc x) y cells (ground arith), λ all. all.0)

-- The cells of the piece are known, and all of them are free.
abbrev pub IsFree : Grid → Tetromino → Type 0
IsFree g t = (cells : List (ℤ × ℤ)) × (blocks t ≡ ok cells) × AllFree g cells

-- In a grid of the right size a piece goes on falling exactly when it is free at the next place,
-- and the test raises nothing for a piece whose cells are known.
pub stops-IsFree : (g : Grid) (t : Tetromino) → IsGrid g → stops g t ≡ ok false → IsFree g t
unfolding stops
stops-IsFree g t h e = elim (Result-cases (blocks t)) [
  | inl (cells, q) ↦ (cells, q, free cells (is_blocked-Answer g cells h) (rw q at e))
  | inr (x, q) ↦ absurd (ground arith)
]
  where
    free : (cells : List (ℤ × ℤ)) → Answer g cells → is_blocked g cells ≡ ok false → AllFree g cells
    free cells (inl (_, all)) p = all
    free cells (inr (stop, _)) p = absurd (ground arith)

pub stops_not-IsFree : (g : Grid) (t : Tetromino) → IsGrid g → stops g t ≡ ok true → ¬ IsFree g t
unfolding stops
stops_not-IsFree g t h e (cells, q, all) = go (is_blocked-Answer g cells h) (rw q at e)
  where
    go : Answer g cells → is_blocked g cells ≡ ok true → ⊥
    go (inl (free, _)) p = ground arith
    go (inr (_, bad)) p = bad all

pub stops_answers :
    (g : Grid) (t : Tetromino) {cells : List (ℤ × ℤ)}
    → IsGrid g
    → blocks t ≡ ok cells
    → (r : Bool) × (stops g t ≡ ok r)
unfolding stops
stops_answers g t {cells} h q = rw q (go (is_blocked-Answer g cells h))
  where
    go : Answer g cells → (r : Bool) × (is_blocked g cells ≡ ok r)
    go (inl (free, _)) = (false, free)
    go (inr (stop, _)) = (true, stop)
