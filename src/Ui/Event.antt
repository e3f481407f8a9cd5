-- ===== src/Ui/Event.antt =====
-- pygame's events, as far as the client reads them.
use project_tetris.Base.{ℕ, Bool, ℤ}
use project_tetris.Python.Utf8.{Text}
use project_tetris.Game.Controller
use project_tetris.Game.Controller.{KeyEvent, keydown, keyup, other_event, key_other}

abbrev pub Point : Type 0
Point = ℤ × ℤ

-- The keys of the text fields, and the others as the controller of a game sees them.
pub data Key : Type 0 where
  key_backspace key_return : Key
  game_key : Controller.Key → Key

-- A mouse event has its place, a press or a release the number of the button, and a turn of the wheel
-- its direction.
pub data Event : Type 0 where
  mouse_motion : Point → Event
  mouse_button_down mouse_button_up : ℕ → Point → Event
  mouse_wheel : ℤ → Event
  text_editing text_input : Text → Event
  key_down key_up : Key → Event
  quit other : Event

-- `rect.collidepoint`
abbrev pub Rect : Type 0
Rect = Point → Bool

-- The event as the controller reads it.
abbrev controller_key : Key → Controller.Key
controller_key (game_key k) = k
controller_key _ = key_other

unfoldable pub to_key_event : Event → KeyEvent
to_key_event (key_down k) = keydown (controller_key k)
to_key_event (key_up k) = keyup (controller_key k)
to_key_event _ = other_event
