-- ===== src/Game/Board/Gameover/StartLine.antt =====
-- Where `find_anim_start_line` stops.
use mathlib.Core.Path.{subst}
use mathlib.Core.Option.{some-injective}
use native.Mathlib.Nat.{le_refl}
use native.Mathlib.Decide.{dec_le}
use project_tetris.Base.{
  ℕ, zero, suc, ◌-◌, ◌≤◌, ◌<◌, ◌≡◌, ◌⊎◌, refl, sym, ◌∙◌, Bool, true, false, ◌||◌, some, [], ◌∷◌,
  arith, length, get_elem?, All, All-get_elem?, get_elem?-of_lt, pos, inl, inr,
}
use project_tetris.Python.Exec.{ok}
use project_tetris.Game.Tetromino.{board_cols, board_rows}
use project_tetris.Game.Board.{Board, Row, Grid}
use project_tetris.Game.Board.Invariant.{IsRow, IsGrid, IsBoard}
use project_tetris.Game.Board.Gameover.{is_colored, has_color, start_line, find_anim_start_line}

-- Every cell of the row is empty or grey.
abbrev pub IsPlain : Row → Type 0
IsPlain row = All (λ c. is_colored c ≡ false) row

abbrev Colors : Row → Bool → Type 0
Colors row true = ¬ IsPlain row
Colors row false = IsPlain row

has_color_lem :
    (n : ℕ) (row : Row) → length row ≡ n → (r : Bool) × (has_color n row ≡ ok r) × Colors row r
unfolding has_color
has_color_lem zero [] h = (false, refl, tt)
has_color_lem zero (c ∷ row) h = absurd (omega arith)
has_color_lem (suc n) [] h = absurd (omega arith)
has_color_lem (suc n) (c ∷ row) h =
    let (r, e, p) = has_color_lem n row (omega arith) in
    (is_colored c || r, rw e, joined (is_colored c) r refl p)
  where
    joined : (a r : Bool) → is_colored c ≡ a → Colors row r → Colors (c ∷ row) (a || r)
    joined true r q p = λ all. ground (arith, all.0)
    joined false true q p = λ all. p all.1
    joined false false q p = (q, p)

abbrev PlainAt : Grid → ℕ → Type 0
PlainAt g j = (row : Row) × (get_elem? g j ≡ some row) × IsPlain row

-- The line `m` is the answer of a search up from line `n`.
abbrev pub StartsAt : Grid → ℕ → ℕ → Type 0
StartsAt g n m = (m ≤ n) × ((j : ℕ) → m < j → j ≤ n → PlainAt g j) × ((m ≡ 0) ⊎ ¬ PlainAt g m)

not-PlainAt :
    (g : Grid) (j : ℕ) (row : Row) → get_elem? g j ≡ some row → ¬ IsPlain row → ¬ PlainAt g j
not-PlainAt g j row e bad (row', e', plain) =
    bad (subst IsPlain (some-injective row' row (sym e' ∙ e)) plain)

abbrev Search : Grid → ℕ → Type 0
Search g n = (m : ℕ) × (start_line g n ≡ ok m) × StartsAt g n m

start_line_step :
    (g : Grid) (n : ℕ) (row : Row) (r : Bool)
    → get_elem? g (suc n) ≡ some row
    → has_color board_cols row ≡ ok r
    → Colors row r
    → Search g n
    → Search g (suc n)
unfolding start_line
start_line_step g n row true er e p rest = (
  suc n,
  rw (er, e),
  (le_refl (suc n), (λ j a b. absurd (omega arith)), inr (not-PlainAt g (suc n) row er p)),
)
start_line_step g n row false er e p (m, q, (le, plain, stop)) =
    (m, rw (er, e) q, (omega arith, (λ j a b. above j a b (dec_le j n)), stop))
  where
    above : (j : ℕ) → m < j → j ≤ suc n → Dec (j ≤ n) → PlainAt g j
    above j a c (yes b) = plain j a b
    above j a c (no b) = let at : j ≡ suc n = omega arith in rw at (row, er, p)

start_line_lem : (g : Grid) (n : ℕ) → IsGrid g → n < board_rows → Search g n
start_line_lem g zero h lt =
    let (row, er) = get_elem?-of_lt g 0 (omega (arith, h.0)) in
    let (r, e, _) = has_color_lem board_cols row (All-get_elem? IsRow g 0 h.1 er) in
    (0, unfold start_line in rw (er, e), (le_refl 0, (λ j a b. absurd (omega arith)), inl refl))
start_line_lem g (suc n) h lt =
    let (row, er) = get_elem?-of_lt g (suc n) (omega (arith, h.0)) in
    let (r, e, p) = has_color_lem board_cols row (All-get_elem? IsRow g (suc n) h.1 er) in
    start_line_step g n row r er e p (start_line_lem g n h (omega arith))

-- On a grid of the right size `find_anim_start_line` ends and raises nothing. It sets the animation
-- to a line `m` such that every row below it holds no coloured block, and row `m` holds one unless
-- `m` is the top line.
pub find_anim_start_line_lem :
    (b : Board)
    → IsBoard b
    → (m : ℕ) × (find_anim_start_line b ≡ ok (record b { anim_target_line = pos m }))
      × StartsAt b.grid (board_rows - 1) m
unfolding find_anim_start_line
find_anim_start_line_lem b h =
    let (m, e, at) = start_line_lem b.grid (board_rows - 1) h (omega arith) in (m, rw e, at)
