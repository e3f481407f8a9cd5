-- ===== src/Game/Board/Landing/Drop.antt =====
-- `make_landing_tetromino` ends within its fuel, raises nothing for a piece that can be drawn, and
-- answers the lowest place that the piece reaches by falling.
use project_tetris.Base.{
  ℕ, zero, suc, ◌<◌, ◌≡◌, refl, sym, ap, ◌∙◌, Bool, true, false, some, [], ◌∷◌, map, arith, ℤ, pos,
  negsuc, ◌+ℤ◌, ◌≤ℤ◌, ◌<ℤ◌, int_laws, pos_part, neg_part, inl, inr, Bool-cases,
}
use project_tetris.Python.Exec.{Exception, Result, ok, err, Result-cases}
use project_tetris.Game.Tetromino.{
  Shape, Tetromino, shape_at, place, board_cols, board_rows, blocks,
}
use project_tetris.Game.Tetromino.Cells.{IsShape, shape_at-IsShape}
use project_tetris.Game.Board.{Grid}
use project_tetris.Game.Board.Landing.{outside, is_blocked, one_down, stops, descend, landing_fuel}

abbrev InReach : ℤ → Type 0
InReach y = (pos 0 ≤ℤ y +ℤ pos 3) × (y <ℤ pos board_rows)

outside_range :
    (x y : ℤ)
    → outside x y ≡ false
    → (i j : ℕ) × (x ≡ pos i) × (y ≡ pos j) × (i < board_cols) × (j < board_rows)
outside_range (pos i) (pos j) e = (i, j, refl, refl, ground arith, ground arith)
outside_range (pos i) (negsuc j) e = absurd (ground arith)
outside_range (negsuc i) y e = absurd (ground arith)

unblocked_range :
    (g : Grid) (x y : ℤ) (s : Shape)
    → IsShape s
    → is_blocked g (map (place x y) s) ≡ ok false
    → InReach y
unfolding is_blocked
unblocked_range g x y [] h e = absurd (omega (arith, h.0))
unblocked_range g x y ((cx, cy) ∷ s) h e = elim (Bool-cases (outside (x +ℤ pos cx) (y +ℤ pos cy))) [
  | inl o ↦ absurd (ground arith)
  | inr o ↦
      let (i, j, ex, ey, hi, hj) = outside_range (x +ℤ pos cx) (y +ℤ pos cy) o in
      let below : (pos_part (y +ℤ pos cy) ≡ j) × (neg_part (y +ℤ pos cy) ≡ 0) =
        (ap pos_part ey, ap neg_part ey) in
      omega (int_laws, pos_part, neg_part, below, hj, h.1.0.1)
]

-- A piece that nothing stops has its origin at most three rows above the grid.
stops_range : (g : Grid) (t : Tetromino) → stops g t ≡ ok false → InReach t.y
unfolding stops blocks
stops_range g t e = elim (Result-cases (shape_at t.shape_key t.rotation)) [
  | inl (s, q) ↦
      unblocked_range g t.x t.y s (rw q at (shape_at-IsShape t.shape_key t.rotation)) (rw q at e)
  | inr (x, q) ↦ absurd (ground arith)
]

pub data Verdict (r : Result Bool) : Type 0 where
  raises : (e : Exception) → r ≡ err e → Verdict r
  stopped : r ≡ ok true → Verdict r
  falls : r ≡ ok false → Verdict r

pub verdict : (r : Result Bool) → Verdict r
verdict (ok true) = stopped refl
verdict (ok false) = falls refl
verdict (err e) = raises e refl

module _ (fuel : ℕ) (g : Grid) (t : Tetromino) where
  pub descend_raises :
      {e : Exception} → stops g (one_down t) ≡ err e → descend (suc fuel) g t ≡ some (err e)
  unfolding descend
  descend_raises q = rw (q, descend)

  pub descend_stopped : stops g (one_down t) ≡ ok true → descend (suc fuel) g t ≡ some (ok t)
  unfolding descend
  descend_stopped q = rw (q, descend)

  pub descend_falls :
      stops g (one_down t) ≡ ok false → descend (suc fuel) g t ≡ descend fuel g (one_down t)
  unfolding descend
  descend_falls q = rw (q, descend)

descend_total :
    (fuel : ℕ) (g : Grid) (t : Tetromino)
    → pos board_rows ≤ℤ t.y +ℤ pos (suc fuel)
    → (r : Result Tetromino) × (descend (suc fuel) g t ≡ some r)
descend_total zero g t h = elim (verdict (stops g (one_down t))) [
  | raises e q ↦ (err e, descend_raises 0 g t q)
  | stopped q ↦ (ok t, descend_stopped 0 g t q)
  | falls q ↦ absurd (omega (int_laws, stops_range g (one_down t) q))
]
descend_total (suc fuel) g t h = elim (verdict (stops g (one_down t))) [
  | raises e q ↦ (err e, descend_raises (suc fuel) g t q)
  | stopped q ↦ (ok t, descend_stopped (suc fuel) g t q)
  | falls q ↦
      let (r, p) = descend_total fuel g (one_down t) (omega int_laws) in
      (r, descend_falls (suc fuel) g t q ∙ p)
]

-- Thirty rounds are enough from any place: a piece far above the grid is stopped at once.
pub descend_enough :
    (g : Grid) (t : Tetromino) → (r : Result Tetromino) × (descend landing_fuel g t ≡ some r)
descend_enough g t = elim (verdict (stops g (one_down t))) [
  | raises e q ↦ (err e, descend_raises 29 g t q)
  | stopped q ↦ (ok t, descend_stopped 29 g t q)
  | falls q ↦
      let (low, high) = stops_range g (one_down t) q in
      let (r, p) = descend_total 28 g (one_down t) (omega int_laws) in
      (r, descend_falls 29 g t q ∙ p)
]

-- The piece `n` rows further down.
abbrev pub down : Tetromino → ℕ → Tetromino
down t n = record t { y = t.y +ℤ pos n }

one_down-down : (t : Tetromino) (n : ℕ) → down (one_down t) n ≡ down t (suc n)
one_down-down t n =
    let e : t.y +ℤ pos 1 +ℤ pos n ≡ t.y +ℤ pos (suc n) = omega int_laws in
    ap (λ y. record t { y = y }) e

down-zero : (t : Tetromino) → down t 0 ≡ t
down-zero t = let e : t.y +ℤ pos 0 ≡ t.y = omega int_laws in ap (λ y. record t { y = y }) e

-- The piece `u` is where `t` comes to rest: it lies `n` rows lower, nothing stops it on the way, and
-- the next row would.
abbrev pub RestsAt : Grid → Tetromino → Tetromino → Type 0
RestsAt g t u =
    (n : ℕ) × (u ≡ down t n)
    × ((k : ℕ) → k < n → stops g (down t (suc k)) ≡ ok false)
    × (stops g (down t (suc n)) ≡ ok true)

pub descend-RestsAt :
    (fuel : ℕ) (g : Grid) (t u : Tetromino) → descend fuel g t ≡ some (ok u) → RestsAt g t u
descend-RestsAt zero g t u e = unfold descend in absurd (ground arith)
descend-RestsAt (suc fuel) g t u e = elim (verdict (stops g (one_down t))) [
  | raises x q ↦ absurd (unfold stops in ground (arith, sym (descend_raises fuel g t q) ∙ e))
  | stopped q ↦
      let same : u ≡ t = ground (arith, sym (descend_stopped fuel g t q) ∙ e) in
      (0, same ∙ sym (down-zero t), (λ k lt. absurd (omega arith)), q)
  | falls q ↦
      let (n, eu, free, last) =
        descend-RestsAt fuel g (one_down t) u (sym (descend_falls fuel g t q) ∙ e) in
      (suc n, eu ∙ one_down-down t n, moved n free q, rw (one_down-down t (suc n)) at last)
]
  where
    moved :
        (n : ℕ)
        → ((k : ℕ) → k < n → stops g (down (one_down t) (suc k)) ≡ ok false)
        → stops g (one_down t) ≡ ok false
        → (k : ℕ) → k < suc n
        → stops g (down t (suc k)) ≡ ok false
    moved n free q zero lt = q
    moved n free q (suc k) lt = rw (one_down-down t (suc k)) at (free k (omega arith))
