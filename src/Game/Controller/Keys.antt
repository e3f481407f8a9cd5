-- ===== src/Game/Controller/Keys.antt =====
-- Any sequence of key events and frames.
use project_tetris.Base.{
  ℕ, ◌+◌, ◌*◌, ◌≤◌, ◌≡◌, refl, ◌∙◌, Bool, true, false, List, [], ◌∷◌, ◌++◌, arith, length,
  if◌then◌else◌,
}
use project_tetris.Game.Board.{MoveType, move_left, move_right, move_down, move_drop}
use project_tetris.Game.Controller.{
  Axis, Controller, KeyEvent, keyup, key_left, key_right, key_down, new_controller, delay_ms,
  send_axis, tick, handle_event, update, send_move_handler, send_drop, send_rotate,
}
use project_tetris.Game.Controller.Repeat.{credit, send_axis_rate}

pub data Input : Type 0 where
  event : KeyEvent → Input
  frame : ℕ → Input

unfoldable pub input_step : Input → Controller → Controller × List MoveType
input_step (event e) c = (handle_event c e, [])
input_step (frame dt) c = update c dt

unfoldable pub run : List Input → Controller → Controller × List MoveType
unfolding input_step
run [] c = (c, [])
run (i ∷ is) c =
    let (c', sent) = input_step i c in let (c'', more) = run is c' in (c'', sent ++ more)

-- The three keys that repeat.
pub data Arrow : Type 0 where
  arrow_left arrow_right arrow_down : Arrow

abbrev pub axis : Arrow → Controller → Axis
axis arrow_left c = c.left
axis arrow_right c = c.right
axis arrow_down c = c.down

-- Is this a move of the arrow?
abbrev pub is_arrow : Arrow → MoveType → Bool
is_arrow arrow_left move_left = true
is_arrow arrow_right move_right = true
is_arrow arrow_down move_down = true
is_arrow _ _ = false

abbrev pub count : Arrow → List MoveType → ℕ
count k [] = 0
count k (m ∷ ms) = (if is_arrow k m then 1 else 0) + count k ms

-- The time that passes in the frames, and a delay for each release of the arrow's key.
abbrev pub budget : Arrow → Input → ℕ
budget k (frame dt) = dt
budget arrow_left (event (keyup key_left)) = delay_ms
budget arrow_right (event (keyup key_right)) = delay_ms
budget arrow_down (event (keyup key_down)) = delay_ms
budget k (event _) = 0

abbrev pub budgets : Arrow → List Input → ℕ
budgets k [] = 0
budgets k (i ∷ is) = budget k i + budgets k is

count-append : (k : Arrow) (xs ys : List MoveType) → count k (xs ++ ys) ≡ count k xs + count k ys
count-append k [] ys = omega arith
count-append k (m ∷ xs) ys = omega (arith, count-append k xs ys)

abbrev move_of : Arrow → MoveType
move_of arrow_left = move_left
move_of arrow_right = move_right
move_of arrow_down = move_down

count-send_axis :
    (k : Arrow) (m : MoveType) (a : Axis)
    → count k (send_axis m a).1 ≡ (if is_arrow k m then length (send_axis m a).1 else 0)
unfolding send_axis
count-send_axis k m a = ground arith

-- Rotations and drops are no moves of an arrow.
count-send_drop :
    (k : Arrow) (c : Controller) (l r d : List MoveType) (turn : Bool)
    → count k (send_drop c (l ++ (r ++ (d ++ send_rotate turn)))).1
      ≡ count k l + count k r + count k d
count-send_drop k c l r d turn = ground (
  arith,
  count-append k l (r ++ (d ++ send_rotate turn)),
  count-append k r (d ++ send_rotate turn),
  count-append k d (send_rotate turn),
  count-append k (l ++ (r ++ (d ++ send_rotate turn))) (move_drop ∷ []),
)

-- What a frame does to one arrow key is what `send_axis` does to it.
count-update :
    (k : Arrow) (c : Controller) (dt : ℕ)
    → count k (update c dt).1 ≡ length (send_axis (move_of k) (tick dt (axis k c))).1
unfolding update send_move_handler
count-update k c dt =
    let l = send_axis move_left (tick dt c.left) in
    let r = send_axis move_right (tick dt c.right) in
    let d = send_axis move_down (tick dt c.down) in
    let c' : Controller = record c {
      left = l.0;
      right = r.0;
      down = d.0;
      rotate_pressed = false;
    } in
    count-send_drop k c' l.1 r.1 d.1 c.rotate_pressed ∙ split k
  where
    split :
        (k : Arrow)
        → count k (send_axis move_left (tick dt c.left)).1
            + count k (send_axis move_right (tick dt c.right)).1
            + count k (send_axis move_down (tick dt c.down)).1
          ≡ length (send_axis (move_of k) (tick dt (axis k c))).1
    split arrow_left = omega (arith, count-send_axis arrow_left)
    split arrow_right = omega (arith, count-send_axis arrow_right)
    split arrow_down = omega (arith, count-send_axis arrow_down)

update-axis :
    (k : Arrow) (c : Controller) (dt : ℕ)
    → let a = (send_axis (move_of k) (tick dt (axis k c))).0 in
      ((axis k (update c dt).0).elapsed_time ≡ a.elapsed_time)
      × ((axis k (update c dt).0).first_move ≡ a.first_move)
unfolding update send_move_handler
update-axis arrow_left c dt = ground arith
update-axis arrow_right c dt = ground arith
update-axis arrow_down c dt = ground arith

axis_rate :
    (k : Arrow) (i : Input) (c : Controller)
    → let (c', sent) = input_step i c in
      delay_ms * count k sent + (axis k c').elapsed_time + credit (axis k c')
      ≤ (axis k c).elapsed_time + budget k i + credit (axis k c)
unfolding input_step handle_event
axis_rate arrow_left (event e) c = ground arith
axis_rate arrow_right (event e) c = ground arith
axis_rate arrow_down (event e) c = ground arith
axis_rate k (frame dt) c =
    ground
      (arith, count-update k c dt, update-axis k c dt, send_axis_rate (move_of k) dt (axis k c))

run_rate :
    (k : Arrow) (is : List Input) (c : Controller)
    → let (c', sent) = run is c in
      delay_ms * count k sent + (axis k c').elapsed_time + credit (axis k c')
      ≤ (axis k c).elapsed_time + budgets k is + credit (axis k c)
unfolding run
run_rate k [] c = omega arith
run_rate k (i ∷ is) c =
    let (c', sent) = input_step i c in
    omega (arith, axis_rate k i c, run_rate k is c', count-append k sent (run is c').1)

-- However the keys are hit, an arrow key sends at most one move for each 50 ms of frames, and one
-- more for the first press and for each release of the key.
pub run_bound :
    (k : Arrow) (is : List Input)
    → delay_ms * count k (run is new_controller).1 ≤ budgets k is + delay_ms
run_bound arrow_left is = omega (arith, run_rate arrow_left is new_controller)
run_bound arrow_right is = omega (arith, run_rate arrow_right is new_controller)
run_bound arrow_down is = omega (arith, run_rate arrow_down is new_controller)

-- No key is down.
pub record IsIdle (c : Controller) : Type 0 where
  pub no_left : c.left.pressed ≡ false
  pub no_right : c.right.pressed ≡ false
  pub no_down : c.down.pressed ≡ false
  pub no_rotate : c.rotate_pressed ≡ false
  pub no_drop : c.drop_pressed ≡ false

idle_axis :
    (m : MoveType) (dt : ℕ) (a : Axis) → a.pressed ≡ false → send_axis m (tick dt a) ≡ (a, [])
unfolding send_axis
idle_axis m dt a h = ground arith

pub update_idle : (c : Controller) (dt : ℕ) → IsIdle c → update c dt ≡ (c, [])
unfolding update send_move_handler
update_idle c dt h = ground (
  arith,
  idle_axis move_left dt c.left h.no_left,
  idle_axis move_right dt c.right h.no_right,
  idle_axis move_down dt c.down h.no_down,
  h.no_rotate,
  h.no_drop,
)

send_drop_pressed :
    (c : Controller) (sent : List MoveType)
    → c.drop_pressed ≡ true
    → IsIdle (send_drop c sent).0 × ((send_drop c sent).1 ≡ sent ++ (move_drop ∷ []))
send_drop_pressed c sent h = ground arith

-- A frame ends in `send_drop`.
update_ends :
    (c : Controller) (dt : ℕ)
    → (c' : Controller) × (sent : List MoveType) × (update c dt ≡ send_drop c' sent)
      × (c'.drop_pressed ≡ c.drop_pressed)
unfolding update send_move_handler
update_ends c dt =
    let (left, l) = send_axis move_left (tick dt c.left) in
    let (right, r) = send_axis move_right (tick dt c.right) in
    let (down, d) = send_axis move_down (tick dt c.down) in
    (
      record c { left = left; right = right; down = down; rotate_pressed = false },
      l ++ (r ++ (d ++ send_rotate c.rotate_pressed)),
      refl,
      refl,
    )

-- A frame with the drop key down sends a drop last, after the moves of the other keys, and leaves
-- the controller such that a further frame changes nothing and sends nothing.
pub drop_silences :
    (c : Controller) (dt dt' : ℕ)
    → c.drop_pressed ≡ true
    → let (c', sent) = update c dt in
      ((front : List MoveType) × (sent ≡ front ++ (move_drop ∷ []))) × (update c' dt' ≡ (c', []))
drop_silences c dt dt' h =
    let (c', sent, e, same) = update_ends c dt in
    let (idle, last) = send_drop_pressed c' sent (same ∙ h) in
    rw e ((sent, last), update_idle (send_drop c' sent).0 dt' idle)
