-- ===== src/Game/Board/Gameover/Frames.antt =====
-- The frames of `animate_gameover`.
use project_tetris.Base.{
  ℕ, zero, suc, ◌+◌, ◌-◌, ◌≤◌, ◌<◌, ◌≡◌, ◌≢◌, refl, ap, ◌∙◌, Bool, true, false, ◌&&◌, none, some,
  List, [], ◌∷◌, map, arith, length, get_elem?, set, All, All-set, All-get_elem?, get_elem?-of_lt,
  pos, ◌-ℤ◌, Option-cases, inl, inr, ltb, Bool-cases, length-set, lt→ltb, ltb→lt,
}
use project_tetris.Python.Exec.{Result, ok}
use project_tetris.Python.Index.{py_index, py_index_lt}
use project_tetris.Game.Tetromino.{board_cols, board_rows}
use project_tetris.Game.Board.{Board, Row, Grid}
use project_tetris.Game.Board.Invariant.{IsRow, IsBoard}
use project_tetris.Game.Board.Gameover.{is_empty, greyed, grey_cells, animate_gameover}

-- Are all cells of the row empty?
abbrev pub all_empty : Row → Bool
all_empty [] = true
all_empty (c ∷ row) = is_empty c && all_empty row

pub grey_cells_lem :
    (n : ℕ) (row : Row) → length row ≡ n → grey_cells n row ≡ (ok (all_empty row), map greyed row)
unfolding grey_cells
grey_cells_lem zero [] h = refl
grey_cells_lem zero (c ∷ row) h = absurd (omega arith)
grey_cells_lem (suc n) [] h = absurd (omega arith)
grey_cells_lem (suc n) (c ∷ row) h = ground (arith, grey_cells_lem n row (omega arith))

-- What a frame leaves at line `j` when the row there is `row`.
abbrev pub after_frame : Board → ℕ → ℕ → Row → Board
after_frame b dt j row = record b {
  grid = set b.grid j (map greyed row);
  anim_elapsed_ms = b.anim_elapsed_ms + dt - 100;
  anim_target_line = b.anim_target_line -ℤ pos 1;
}

-- On a grid of the right size, with the animation at a line that names row `j` (a negative one
-- counts from the bottom), a frame that passes 100 ms turns the blocks of that row grey, goes one
-- line up, and says that the animation is done exactly when the row was empty.
pub animate_gameover_line :
    (b : Board) (dt j : ℕ) (row : Row)
    → IsBoard b
    → py_index board_rows b.anim_target_line ≡ some j
    → get_elem? b.grid j ≡ some row
    → 100 < b.anim_elapsed_ms + dt
    → animate_gameover b dt ≡ (ok (all_empty row), after_frame b dt j row)
unfolding animate_gameover
animate_gameover_line b dt j row h et er el =
    let r : IsRow row = All-get_elem? IsRow b.grid j h.1 er in
    rw (lt→ltb 100 (b.anim_elapsed_ms + dt) el, h.0, et, er, grey_cells_lem board_cols row r)

-- Before 100 ms have passed a frame only counts the time.
pub animate_gameover_wait :
    (b : Board) (dt : ℕ)
    → b.anim_elapsed_ms + dt ≤ 100
    → animate_gameover b dt ≡ (ok false, record b { anim_elapsed_ms = b.anim_elapsed_ms + dt })
unfolding animate_gameover
animate_gameover_wait b dt h = ground arith

-- The frames of an animation, one for each time step, up to the first that raises.
unfoldable pub frames : List ℕ → Board → List (Result Bool)
frames [] b = []
frames (dt ∷ dts) b = let (r, b') = animate_gameover b dt in r ∷ frames dts b'

all_empty-greyed : (row : Row) → all_empty (map greyed row) ≡ all_empty row
all_empty-greyed [] = refl
all_empty-greyed (none ∷ row) = all_empty-greyed row
all_empty-greyed (some key ∷ row) = refl

pub length-greyed : (row : Row) → length (map greyed row) ≡ length row
length-greyed [] = refl
length-greyed (c ∷ row) = ap suc (length-greyed row)

-- A row of the right length with a block in it.
abbrev pub IsFilled : Row → Type 0
IsFilled row = IsRow row × (all_empty row ≡ false)

-- A full stack: 25 rows of 10 cells, each with a block in it.
abbrev pub IsStacked : Grid → Type 0
IsStacked g = (length g ≡ board_rows) × All IsFilled g

filled-IsRow : (g : Grid) → All IsFilled g → All IsRow g
filled-IsRow [] h = h
filled-IsRow (row ∷ g) h = (h.0.0, filled-IsRow g h.1)

abbrev Unfinished : Result Bool × Board → Type 0
Unfinished (r, b) = (r ≢ ok true) × IsStacked b.grid

frame_stacked : (b : Board) (dt : ℕ) → IsStacked b.grid → Unfinished (animate_gameover b dt)
frame_stacked b dt h = elim (Bool-cases (ltb 100 (b.anim_elapsed_ms + dt))) [
  | inr early ↦ rw (animate_gameover_wait b dt (ground arith)) ((λ e. ground arith), h)
  | inl due ↦ elim (Option-cases (py_index board_rows b.anim_target_line)) [
    | inl out ↦ unfold animate_gameover in rw (due, h.0, out) ((λ e. ground arith), h)
    | inr (j, at) ↦
        let (row, er) =
          get_elem?-of_lt b.grid j
            (omega (arith, py_index_lt board_rows b.anim_target_line at, h.0)) in
        let f : IsFilled row = All-get_elem? IsFilled b.grid j h.1 er in
        let f' : IsFilled (map greyed row) =
          (length-greyed row ∙ f.0, all_empty-greyed row ∙ f.1) in
        rw
          (animate_gameover_line b dt j row (h.0, filled-IsRow b.grid h.1) at er
            (ltb→lt 100 (b.anim_elapsed_ms + dt) due))
          (
            (λ e. ground (arith, f.1)),
            (length-set b.grid j (map greyed row) ∙ h.0, All-set IsFilled b.grid j h.1 f'),
          )
  ]
]

-- Over a stack with a block in each of its 25 rows, no frame ever says that the animation is done,
-- whatever line it starts from and however long it runs.
pub frames_stacked :
    (dts : List ℕ) (b : Board) → IsStacked b.grid → All (λ r. r ≢ ok true) (frames dts b)
unfolding frames
frames_stacked [] b h = tt
frames_stacked (dt ∷ dts) b h =
    let (open_end, h') = frame_stacked b dt h in
    (open_end, frames_stacked dts (animate_gameover b dt).1 h')
