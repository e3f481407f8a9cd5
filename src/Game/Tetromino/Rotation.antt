-- ===== src/Game/Tetromino/Rotation.antt =====
-- Rotation of a tetromino: `rotated` of client/tetris/game/tetromino.py on the shape tables, against
-- the quarter turn of a set of cells.
use project_tetris.Base.{
  ℕ, zero, suc, ◌-◌, ◌<◌, ◌≡◌, refl, Bool, true, false, ◌&&◌, ◌||◌, ◌==◌, leb, if◌then◌else◌, List,
  [], ◌∷◌, map, arith, ℤ, pos, ◌+ℤ◌,
}
use mathlib.Core.Path.{subst}
use project_tetris.Python.Exec.{Result, ok, err}
use project_tetris.Python.Index.{mod_ℤ}
use project_tetris.Game.Tetromino.{
  Tetromino, Shape, ShapeKey, key_i, key_j, key_l, key_o, key_s, key_t, key_z, key_g, shape_at,
  rotated,
}

-- A quarter turn to the right of a cell in a square of four, whose rows are numbered downwards.
abbrev quarter_cell : ℕ × ℕ → ℕ × ℕ
quarter_cell (x, y) = (3 - y, x)

abbrev least : ℕ → List ℕ → ℕ
least n [] = n
least n (k ∷ ks) = if leb k n then least k ks else least n ks

-- The cells from the corner of the smallest rectangle around them.
abbrev from_corner : Shape → Shape
from_corner s = map (λ c. (c.0 - least 3 (map (λ c. c.0) s), c.1 - least 3 (map (λ c. c.1) s))) s

abbrev has_cell : ℕ × ℕ → Shape → Bool
has_cell c [] = false
has_cell c (d ∷ s) = (c.0 == d.0 && c.1 == d.1) || has_cell c s

abbrev has_cells : Shape → Shape → Bool
has_cells [] t = true
has_cells (c ∷ s) t = has_cell c t && has_cells s t

-- The second shape is the first after a quarter turn to the right, up to its place and its order.
abbrev pub IsQuarterTurn : Shape → Shape → Type 0
IsQuarterTurn s t =
    let turned = from_corner (map quarter_cell s) in
    let target = from_corner t in
    (has_cells turned target ≡ true) × (has_cells target turned ≡ true)

-- Two pieces of one kind at one place, the second a quarter turn on.
pub record IsTurned (t u : Tetromino) : Type 0 where
  pub same_key : u.shape_key ≡ t.shape_key
  pub same_x : u.x ≡ t.x
  pub same_y : u.y ≡ t.y
  pub shape : Shape
  pub shape' : Shape
  pub shown : shape_at t.shape_key t.rotation ≡ ok shape
  pub shown' : shape_at u.shape_key u.rotation ≡ ok shape'
  pub quarter : IsQuarterTurn shape shape'

-- Where the first raises, the second does too.
abbrev pub Turns : Result Tetromino → Result Tetromino → Type 0
Turns (ok t) (ok u) = IsTurned t u
Turns (err e) (err e') = e' ≡ e
Turns _ _ = ⊥

-- The table of a kind, and where its last rotation is followed by the first.
abbrev Follows : ShapeKey → ℕ → ℕ → Type 0
Follows key n r =
    (s : Shape) × (s' : Shape) × (shape_at key r ≡ ok s)
    × (shape_at key (mod_ℤ (pos r +ℤ pos 1) n) ≡ ok s')
    × IsQuarterTurn s s'

key_i-Follows : (r : ℕ) → r < 2 → Follows key_i 2 r
unfolding shape_at mod_ℤ ◌+ℤ◌
key_i-Follows zero h = (_, _, refl, refl, (refl, refl))
key_i-Follows (suc zero) h = (_, _, refl, refl, (refl, refl))
key_i-Follows (suc (suc r)) h = absurd (omega arith)

key_j-Follows : (r : ℕ) → r < 4 → Follows key_j 4 r
unfolding shape_at mod_ℤ ◌+ℤ◌
key_j-Follows zero h = (_, _, refl, refl, (refl, refl))
key_j-Follows (suc zero) h = (_, _, refl, refl, (refl, refl))
key_j-Follows (suc (suc zero)) h = (_, _, refl, refl, (refl, refl))
key_j-Follows (suc (suc (suc zero))) h = (_, _, refl, refl, (refl, refl))
key_j-Follows (suc (suc (suc (suc r)))) h = absurd (omega arith)

key_l-Follows : (r : ℕ) → r < 4 → Follows key_l 4 r
unfolding shape_at mod_ℤ ◌+ℤ◌
key_l-Follows zero h = (_, _, refl, refl, (refl, refl))
key_l-Follows (suc zero) h = (_, _, refl, refl, (refl, refl))
key_l-Follows (suc (suc zero)) h = (_, _, refl, refl, (refl, refl))
key_l-Follows (suc (suc (suc zero))) h = (_, _, refl, refl, (refl, refl))
key_l-Follows (suc (suc (suc (suc r)))) h = absurd (omega arith)

key_o-Follows : (r : ℕ) → r < 1 → Follows key_o 1 r
unfolding shape_at mod_ℤ ◌+ℤ◌
key_o-Follows zero h = (_, _, refl, refl, (refl, refl))
key_o-Follows (suc r) h = absurd (omega arith)

key_s-Follows : (r : ℕ) → r < 2 → Follows key_s 2 r
unfolding shape_at mod_ℤ ◌+ℤ◌
key_s-Follows zero h = (_, _, refl, refl, (refl, refl))
key_s-Follows (suc zero) h = (_, _, refl, refl, (refl, refl))
key_s-Follows (suc (suc r)) h = absurd (omega arith)

key_t-Follows : (r : ℕ) → r < 4 → Follows key_t 4 r
unfolding shape_at mod_ℤ ◌+ℤ◌
key_t-Follows zero h = (_, _, refl, refl, (refl, refl))
key_t-Follows (suc zero) h = (_, _, refl, refl, (refl, refl))
key_t-Follows (suc (suc zero)) h = (_, _, refl, refl, (refl, refl))
key_t-Follows (suc (suc (suc zero))) h = (_, _, refl, refl, (refl, refl))
key_t-Follows (suc (suc (suc (suc r)))) h = absurd (omega arith)

key_z-Follows : (r : ℕ) → r < 2 → Follows key_z 2 r
unfolding shape_at mod_ℤ ◌+ℤ◌
key_z-Follows zero h = (_, _, refl, refl, (refl, refl))
key_z-Follows (suc zero) h = (_, _, refl, refl, (refl, refl))
key_z-Follows (suc (suc r)) h = absurd (omega arith)

abbrev piece : ShapeKey → ℤ → ℤ → ℕ → Tetromino
piece key x y rotation = record { shape_key = key; x = x; y = y; rotation = rotation }

turned_lem :
    (key : ShapeKey) (x y : ℤ) (n r r' : ℕ)
    → Follows key n r
    → mod_ℤ (pos r +ℤ pos 1) n ≡ r'
    → IsTurned (piece key x y r) (piece key x y r')
turned_lem key x y n r r' (s, s', e, e', q) next = record {
  same_key = refl;
  same_x = refl;
  same_y = refl;
  shape = s;
  shape' = s';
  shown = e;
  shown' = subst (λ k. shape_at key k ≡ ok s') next e';
  quarter = q;
}

mod_one_lt : (a : ℤ) → mod_ℤ a 1 < 1
unfolding mod_ℤ
mod_one_lt a = ground arith

next_one : (r a : ℤ) → mod_ℤ (pos (mod_ℤ (r +ℤ a) 1) +ℤ pos 1) 1 ≡ mod_ℤ (r +ℤ (a +ℤ pos 1)) 1
unfolding mod_ℤ ◌+ℤ◌
next_one r a = ground arith

mod_two_lt : (a : ℤ) → mod_ℤ a 2 < 2
unfolding mod_ℤ
mod_two_lt a = ground arith

next_two : (r a : ℤ) → mod_ℤ (pos (mod_ℤ (r +ℤ a) 2) +ℤ pos 1) 2 ≡ mod_ℤ (r +ℤ (a +ℤ pos 1)) 2
unfolding mod_ℤ ◌+ℤ◌
next_two r a = ground arith

mod_four_lt : (a : ℤ) → mod_ℤ a 4 < 4
unfolding mod_ℤ
mod_four_lt a = ground arith

next_four : (r a : ℤ) → mod_ℤ (pos (mod_ℤ (r +ℤ a) 4) +ℤ pos 1) 4 ≡ mod_ℤ (r +ℤ (a +ℤ pos 1)) 4
unfolding mod_ℤ ◌+ℤ◌
next_four r a = ground arith

turn :
    (key : ShapeKey) (x y : ℤ) (r : ℕ) (a : ℤ)
    → Turns (rotated (piece key x y r) a) (rotated (piece key x y r) (a +ℤ pos 1))
unfolding rotated
turn key_i x y r a =
    turned_lem key_i x y 2 _ _ (key_i-Follows _ (mod_two_lt (pos r +ℤ a))) (next_two (pos r) a)
turn key_j x y r a =
    turned_lem key_j x y 4 _ _ (key_j-Follows _ (mod_four_lt (pos r +ℤ a))) (next_four (pos r) a)
turn key_l x y r a =
    turned_lem key_l x y 4 _ _ (key_l-Follows _ (mod_four_lt (pos r +ℤ a))) (next_four (pos r) a)
turn key_o x y r a =
    turned_lem key_o x y 1 _ _ (key_o-Follows _ (mod_one_lt (pos r +ℤ a))) (next_one (pos r) a)
turn key_s x y r a =
    turned_lem key_s x y 2 _ _ (key_s-Follows _ (mod_two_lt (pos r +ℤ a))) (next_two (pos r) a)
turn key_t x y r a =
    turned_lem key_t x y 4 _ _ (key_t-Follows _ (mod_four_lt (pos r +ℤ a))) (next_four (pos r) a)
turn key_z x y r a =
    turned_lem key_z x y 2 _ _ (key_z-Follows _ (mod_two_lt (pos r +ℤ a))) (next_two (pos r) a)
turn key_g x y r a = refl
