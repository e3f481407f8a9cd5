-- ===== src/Game/Controller.antt =====
-- client/tetris/game/tetris_controller.py: key events and frames become moves for the server. The
-- moves of a call are the list of its `send_move` calls, in order; their answers are not used.
-- The attributes of the left, right and down key are one record each: their code is the same.
pub mod Keys
pub mod Repeat
use project_tetris.Base.{
  ℕ, ◌+◌, ◌≤◌, ◌≡◌, Bool, true, false, not, List, [], ◌∷◌, ◌++◌, leb, if◌then◌else◌,
}
use project_tetris.Game.Board.{MoveType, move_left, move_right, move_rotate, move_down, move_drop}

-- `left_pressed`, `left_elapsed_time`, `left_first_over`, `left_first_move`, and so for the others.
pub record Axis : Type 0 where
  pub pressed : Bool
  pub elapsed_time : ℕ
  pub first_over : Bool
  pub first_move : Bool

pub record Controller : Type 0 where
  pub left : Axis
  pub right : Axis
  pub down : Axis
  pub rotate_pressed : Bool
  pub drop_pressed : Bool

abbrev pub first_delay_ms : ℕ
first_delay_ms = 300

abbrev pub delay_ms : ℕ
delay_ms = 50

abbrev pub released : Axis
released = record { pressed = false; elapsed_time = 0; first_over = false; first_move = false }

abbrev pub new_controller : Controller
new_controller = record {
  left = released;
  right = released;
  down = released;
  rotate_pressed = false;
  drop_pressed = false;
}

pub data Key : Type 0 where
  key_left key_right key_down key_space key_up key_other : Key

-- pygame's events, as far as the client looks at them here.
pub data KeyEvent : Type 0 where
  keydown keyup : Key → KeyEvent
  other_event : KeyEvent

abbrev press : Axis → Axis
press a = record a { pressed = true }

unfoldable pub handle_event : Controller → KeyEvent → Controller
handle_event c (keydown key_left) = record c { left = press c.left }
handle_event c (keydown key_right) = record c { right = press c.right }
handle_event c (keydown key_down) = record c { down = press c.down }
handle_event c (keydown key_space) = record c { drop_pressed = true }
handle_event c (keydown key_up) = record c { rotate_pressed = true }
handle_event c (keydown key_other) = c
handle_event c (keyup key_left) = record c { left = released }
handle_event c (keyup key_right) = record c { right = released }
handle_event c (keyup key_down) = record c { down = released }
handle_event c (keyup key_space) = record c { drop_pressed = false }
handle_event c (keyup key_up) = record c { rotate_pressed = false }
handle_event c (keyup key_other) = c
handle_event c other_event = c

-- The block for one key in `send_move_handler`: a move at the press, one after the first delay, and
-- then one after each further delay.
abbrev repeat_first : MoveType → Axis → List MoveType → Axis × List MoveType
repeat_first m a sent =
    if leb first_delay_ms a.elapsed_time
    then (record a { elapsed_time = 0; first_over = true; first_move = true }, sent ++ (m ∷ []))
    else (record a { first_move = true }, sent)

unfoldable pub send_axis : MoveType → Axis → Axis × List MoveType
send_axis m a =
    if not a.pressed
    then (a, [])
    else if not a.first_over
    then repeat_first m a (if a.first_move then [] else m ∷ [])
    else if leb delay_ms a.elapsed_time
    then (record a { elapsed_time = 0 }, m ∷ [])
    else (a, [])

abbrev send_rotate : Bool → List MoveType
send_rotate true = move_rotate ∷ []
send_rotate false = []

abbrev let_go : Axis → Axis
let_go a = record a { pressed = false }

-- A drop ends the other presses, but not their timers.
abbrev send_drop : Controller → List MoveType → Controller × List MoveType
send_drop c sent =
    if c.drop_pressed
    then (
      record {
        left = let_go c.left;
        right = let_go c.right;
        down = let_go c.down;
        rotate_pressed = false;
        drop_pressed = false;
      },
      sent ++ (move_drop ∷ []),
    )
    else (c, sent)

unfoldable pub send_move_handler : Controller → Controller × List MoveType
unfolding send_axis
send_move_handler c =
    let (left, l) = send_axis move_left c.left in
    let (right, r) = send_axis move_right c.right in
    let (down, d) = send_axis move_down c.down in
    send_drop (record c { left = left; right = right; down = down; rotate_pressed = false })
      (l ++ (r ++ (d ++ send_rotate c.rotate_pressed)))

abbrev tick : ℕ → Axis → Axis
tick dt a = if a.pressed then record a { elapsed_time = a.elapsed_time + dt } else a

unfoldable pub update : Controller → ℕ → Controller × List MoveType
unfolding send_move_handler
update c dt =
    send_move_handler
      (record c { left = tick dt c.left; right = tick dt c.right; down = tick dt c.down })

unfoldable pub clear : Controller → Controller
clear c = new_controller
