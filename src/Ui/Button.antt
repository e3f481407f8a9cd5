-- ===== src/Ui/Button.antt =====
-- client/tetris/ui/button.py, toggle_button.py and the buttons of popupbox.py. Images and sounds are
-- left out.
pub mod Click
use project_tetris.Base.{
  ℕ, zero, suc, ◌<◌, Bool, true, false, ◌&&◌, ◌||◌, Option, none, some, List, [], ◌∷◌, ltb, ◌==◌,
  if◌then◌else◌, length,
}
use project_tetris.Python.Exec.{Result, ok, err, value_error}
use project_tetris.Python.Utf8.{Text}
use project_tetris.Ui.Event.{Event, Rect, Point, mouse_motion, mouse_button_down, mouse_button_up}

pub data ButtonState : Type 0 where
  idle hover press : ButtonState

pub record Button : Type 0 where
  pub state : ButtonState
  pub rect : Rect
  pub text : Text

abbrev pub new_button : Rect → Text → Button
new_button rect text = record { state = idle; rect = rect; text = text }

abbrev with_state : ButtonState → Button → Button
with_state st b = record b { state = st }

-- The mouse is in the button.
abbrev moved_in : ButtonState → Button → Button × Bool
moved_in idle b = (with_state hover b, false)
moved_in _ b = (b, false)

abbrev pressed_in : ButtonState → Button → Button × Bool
pressed_in hover b = (with_state press b, false)
pressed_in _ b = (b, false)

abbrev released_in : ButtonState → Button → Button × Bool
released_in press b = (with_state idle b, true)
released_in _ b = (b, false)

abbrev outside : Button → Button × Bool
outside b = (with_state idle b, false)

-- A button answers true when it is released, pressed before, and hovered over before that.
unfoldable pub handle_event : Button → Event → Button × Bool
handle_event b (mouse_motion at) = if b.rect at then moved_in b.state b else outside b
handle_event b (mouse_button_down button at) =
    if b.rect at then (if button == 1 then pressed_in b.state b else (b, false)) else outside b
handle_event b (mouse_button_up button at) =
    if b.rect at then (if button == 1 then released_in b.state b else (b, false)) else outside b
handle_event b _ = (b, false)

pub record ToggleButton : Type 0 where
  pub pressed : Bool
  pub reactable : Bool
  pub rect : Rect
  pub text : Text

abbrev pub new_toggle_button : Rect → Text → ToggleButton
new_toggle_button rect text = record { pressed = false; reactable = true; rect = rect; text = text }

unfoldable pub set_pressed : ToggleButton → Bool → ToggleButton
set_pressed b is_pressed = record b { pressed = is_pressed }

unfoldable pub set_reactable : ToggleButton → Bool → ToggleButton
set_reactable b is_reactable = record b { reactable = is_reactable }

-- Where it does not react it answers None, which its callers read as false.
unfoldable pub handle_toggle : ToggleButton → Event → ToggleButton × Bool
handle_toggle b (mouse_button_down button at) =
    if b.reactable && (button == 1 && b.rect at)
    then (record b { pressed = true }, true)
    else (b, false)
handle_toggle b _ = (b, false)

-- A popup has one to three buttons, the rectangles of which come from the layout. Its message is only
-- drawn.
pub record PopupBox : Type 0 where
  pub buttons : List Button

unfoldable pub make_buttons : (ℕ → Rect) → ℕ → List Text → List Button
make_buttons rects i [] = []
make_buttons rects i (t ∷ ts) = new_button (rects i) t ∷ make_buttons rects (suc i) ts

unfoldable pub new_popup : (ℕ → Rect) → List Text → Result PopupBox
unfolding make_buttons
new_popup rects buttons_text =
    if ltb (length buttons_text) 1
    then err value_error
    else if ltb 3 (length buttons_text)
    then err value_error
    else ok (record { buttons = make_buttons rects 0 buttons_text })

-- The text of the first button that is clicked; the buttons behind it do not see the event.
unfoldable pub handle_buttons : List Button → Event → List Button × Option Text
handle_buttons [] ev = ([], none)
handle_buttons (b ∷ bs) ev =
    let (b', clicked) = handle_event b ev in
    let (bs', answer) = handle_buttons bs ev in
    if clicked then (b' ∷ bs, some b'.text) else (b' ∷ bs', answer)

unfoldable pub handle_popup : PopupBox → Event → PopupBox × Option Text
unfolding handle_buttons
handle_popup p ev =
    let (bs, answer) = handle_buttons p.buttons ev in (record p { buttons = bs }, answer)
