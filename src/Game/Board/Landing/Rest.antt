-- ===== src/Game/Board/Landing/Rest.antt =====
-- The whole of `make_landing_tetromino` on a board.
use project_tetris.Base.{
  ℕ, zero, suc, ◌<◌, ◌≡◌, sym, ap, ◌∙◌, some, List, arith, ℤ, pos, ◌+ℤ◌, inl, inr, map,
}
use project_tetris.Python.Exec.{Result, ok, Result-cases}
use project_tetris.Game.Tetromino.{Tetromino, shape_at, place, blocks}
use project_tetris.Game.Board.{Board, Grid}
use project_tetris.Game.Board.Invariant.{IsGrid, IsBoard}
use project_tetris.Game.Board.Landing.{
  one_down, stops, descend, landing_fuel, make_landing_tetromino, landing_of, landed,
}
use project_tetris.Game.Board.Landing.Drop.{
  verdict, raises, stopped, falls, descend_falls, descend_stopped, descend_enough, descend-RestsAt,
  down,
}
use project_tetris.Game.Board.Landing.Free.{IsFree, stops-IsFree, stops_not-IsFree, stops_answers}

-- The piece's cells are known at every row once they are at one.
blocks-y :
    (t : Tetromino) (y : ℤ) {cells : List (ℤ × ℤ)}
    → blocks t ≡ ok cells
    → (cells' : List (ℤ × ℤ)) × (blocks (record t { y = y }) ≡ ok cells')
unfolding blocks
blocks-y t y e = elim (Result-cases (shape_at t.shape_key t.rotation)) [
  | inl (s, q) ↦ (map (place t.x y) s, rw q)
  | inr (x, q) ↦ absurd (ground arith)
]

descend_answers :
    (fuel : ℕ) (g : Grid) (t : Tetromino) {cells : List (ℤ × ℤ)} (r : Result Tetromino)
    → IsGrid g
    → blocks t ≡ ok cells
    → descend fuel g t ≡ some r
    → (u : Tetromino) × (r ≡ ok u)
descend_answers zero g t r h q e = absurd (unfold descend in ground arith)
descend_answers (suc fuel) g t r h q e =
    let (cells', q') = blocks-y t (t.y +ℤ pos 1) q in
    let (v, s) = stops_answers g (one_down t) h q' in
    elim (verdict (stops g (one_down t))) [
      | raises x p ↦ absurd (ground arith)
      | stopped p ↦ (t, ground (arith, sym (descend_stopped fuel g t p) ∙ e))
      | falls p ↦ descend_answers fuel g (one_down t) r h q' (sym (descend_falls fuel g t p) ∙ e)
    ]

-- On a grid of the right size, for a piece whose cells are known, `make_landing_tetromino` ends and
-- raises nothing. Its answer lies some rows below the piece: every place on the way down to it is
-- inside the grid and empty, and the place below it is not.
pub make_landing_lem :
    (b : Board) (t : Tetromino) (cells : List (ℤ × ℤ))
    → IsBoard b
    → b.current_tetromino ≡ some t
    → blocks t ≡ ok cells
    → (n : ℕ) × (make_landing_tetromino b ≡ some (ok (some (down t n))))
      × ((k : ℕ) → k < n → IsFree b.grid (down t (suc k)))
      × (¬ IsFree b.grid (down t (suc n)))
unfolding make_landing_tetromino
make_landing_lem b t cells h e q =
    let (r, p) = descend_enough b.grid t in
    let (u, o) = descend_answers landing_fuel b.grid t r h q p in
    let p' : descend landing_fuel b.grid t ≡ some (ok u) = p ∙ ap some o in
    let (n, at, free, last) = descend-RestsAt landing_fuel b.grid t u p' in
    (
      n,
      ap (landing_of b.grid) e ∙ ap landed p' ∙ ap (λ v. some (ok (some v))) at,
      (λ k lt. stops-IsFree b.grid (down t (suc k)) h (free k lt)),
      stops_not-IsFree b.grid (down t (suc n)) h last,
    )
