-- ===== src/Ui/InputBox.antt =====
-- client/tetris/ui/inputbox.py: a line of text with a limit on its length, and the repeated deletion
-- while the backspace key is down. The widths of a font are a parameter.
pub mod Limit
pub mod Shown
use project_tetris.Base.{
  ℕ, zero, suc, ◌+◌, ◌-◌, ◌*◌, Bool, true, false, not, ◌&&◌, Option, none, some, List, [], ◌∷◌,
  ◌++◌, ltb, leb, ◌==◌, if◌then◌else◌, length, drop, replicate, ℤ, pos, leb_ℤ,
}
use project_tetris.Python.Exec.{Result, ok, err, type_error, ◌>>=◌}
use project_tetris.Python.Utf8.{Text}
use project_tetris.Python.Chars.{Unicode, is_ascii, is_printable}
use project_tetris.Ui.Event.{
  Event, mouse_button_down, text_editing, text_input, key_down, key_up, key_backspace, key_return,
  Rect,
}

pub record InputBox : Type 0 where
  pub rect : Rect
  pub text : Text
  pub editing_text : Text
  pub active : Bool
  pub is_password : Bool
  pub allow_korean : Bool
  pub max_input_len : Option ℕ
  pub cursor_visible : Bool
  pub cursor_timer_ms : ℕ
  pub backspace_pressed : Bool
  pub backspace_repeat_timer : ℕ
  pub backspace_repeat_time1_active : Bool
  pub backspace_repeat_time2_active : Bool

abbrev pub cursor_blink_ms : ℕ
cursor_blink_ms = 500

abbrev pub backspace_repeat_time1 : ℕ
backspace_repeat_time1 = 500

abbrev pub backspace_repeat_time2 : ℕ
backspace_repeat_time2 = 50

abbrev pub new_input_box : Rect → Option ℕ → Bool → Bool → InputBox
new_input_box rect max_input_len is_password allow_korean = record {
  rect = rect;
  text = [];
  editing_text = [];
  active = false;
  is_password = is_password;
  allow_korean = allow_korean;
  max_input_len = max_input_len;
  cursor_visible = true;
  cursor_timer_ms = 0;
  backspace_pressed = false;
  backspace_repeat_timer = 0;
  backspace_repeat_time1_active = true;
  backspace_repeat_time2_active = false;
}

abbrev pub reset_text : InputBox → InputBox
reset_text b = record b { text = []; editing_text = [] }

abbrev pub reset_cursor : InputBox → InputBox
reset_cursor b = record b {
  backspace_repeat_timer = 0;
  backspace_repeat_time1_active = true;
  backspace_repeat_time2_active = false;
  backspace_pressed = false;
}

-- `len(self.text) < self.max_input_len` raises TypeError where there is no limit.
abbrev pub has_room : Text → Option ℕ → Result Bool
has_room s none = err type_error
has_room s (some n) = ok (ltb (length s) n)

unfoldable pub get_total_text : InputBox → Result Text
get_total_text b = do
  room ← has_room b.text b.max_input_len
  ok (if room then b.text ++ b.editing_text else b.text)

abbrev pub TextOutcome : Type 0
TextOutcome = Result (Option Text) × InputBox

abbrev pub extracted : InputBox → Result Text → Result Text × InputBox
extracted b (ok s) = (ok s, reset_cursor (reset_text b))
extracted b (err e) = (err e, b)

unfoldable pub extract_text : InputBox → Result Text × InputBox
unfolding get_total_text
extract_text b = extracted b (get_total_text b)

abbrev is_full : Text → Option ℕ → Bool
is_full s none = false
is_full s (some n) = leb n (length s)

abbrev is_empty_text : Text → Bool
is_empty_text [] = true
is_empty_text (_ ∷ _) = false

-- A character beyond ASCII makes a backspace that is held repeat at once.
abbrev append_text : InputBox → Text → InputBox
append_text b ch = if is_ascii ch then record b { text = b.text ++ ch } else record b {
  text = b.text ++ ch;
  backspace_repeat_time1_active = false;
  backspace_repeat_time2_active = true;
}

unfoldable pub add_char : Unicode → InputBox → Text → InputBox
add_char u b ch =
    if not b.active
    then b
    else if is_empty_text ch
    then b
    else if not (is_printable u ch)
    then b
    else if not b.allow_korean && not (is_ascii ch)
    then b
    else if is_full b.text b.max_input_len
    then b
    else append_text b ch

-- `s[:-1]`
unfoldable pub drop_last : Text → Text
drop_last [] = []
drop_last (c ∷ []) = []
drop_last (c ∷ d ∷ cs) = c ∷ drop_last (d ∷ cs)

unfoldable pub delete_char : InputBox → InputBox
delete_char b = if b.active then record b { text = drop_last b.text } else b

abbrev as_answer : Result Text × InputBox → TextOutcome
as_answer (ok s, b) = (ok (some s), b)
as_answer (err e, b) = (err e, b)

unfoldable pub handle_event : Unicode → InputBox → Event → TextOutcome
unfolding extract_text delete_char
handle_event u b (mouse_button_down button at) =
    (ok none, if button == 1 then record b { active = b.rect at } else b)
handle_event u b (text_editing s) =
    (ok none, if b.active && b.allow_korean then record b { editing_text = s } else b)
handle_event u b (text_input s) = (ok none, add_char u b s)
handle_event u b (key_down key_backspace) =
    (ok none, record (delete_char b) { backspace_pressed = true })
handle_event u b (key_down key_return) = as_answer (extract_text b)
handle_event u b (key_up key_backspace) = (ok none, reset_cursor b)
handle_event u b _ = (ok none, b)

abbrev blink : InputBox → ℕ → InputBox
blink b dt_ms =
    let t = b.cursor_timer_ms + dt_ms in
    if leb cursor_blink_ms t
    then record b { cursor_timer_ms = t - cursor_blink_ms; cursor_visible = not b.cursor_visible }
    else record b { cursor_timer_ms = t }

-- The first deletion of a backspace that is held, and the further ones.
abbrev first_repeat : InputBox → ℕ → InputBox
unfolding delete_char
first_repeat b dt_ms =
    let t = b.backspace_repeat_timer + dt_ms in
    if leb backspace_repeat_time1 t
    then delete_char (record b {
      backspace_repeat_timer = t - backspace_repeat_time1;
      backspace_repeat_time1_active = false;
      backspace_repeat_time2_active = true;
    })
    else record b { backspace_repeat_timer = t }

abbrev next_repeat : InputBox → ℕ → InputBox
unfolding delete_char
next_repeat b dt_ms =
    let t = b.backspace_repeat_timer + dt_ms in
    if leb backspace_repeat_time2 t
    then delete_char (record b { backspace_repeat_timer = t - backspace_repeat_time2 })
    else record b { backspace_repeat_timer = t }

abbrev repeat_delete : InputBox → ℕ → InputBox
unfolding first_repeat next_repeat
repeat_delete b dt_ms =
    if b.backspace_repeat_time1_active && b.backspace_pressed
    then first_repeat b dt_ms
    else if b.backspace_repeat_time2_active && b.backspace_pressed
    then next_repeat b dt_ms
    else b

unfoldable pub update : InputBox → ℕ → InputBox
unfolding repeat_delete
update b dt_ms = if b.active then repeat_delete (blink b dt_ms) dt_ms else record b {
  cursor_visible = false;
  cursor_timer_ms = 0;
  backspace_repeat_timer = 0;
  backspace_repeat_time1_active = true;
  backspace_repeat_time2_active = false;
}

-- The loop of `get_render_text` from `offset` on, for a text that is too wide.
unfoldable pub render_from : (Text → ℕ) → ℤ → ℕ → Text → ℕ → ℕ → Option Text
render_from width box_px_len text_len shown offset zero = none
render_from width box_px_len text_len shown offset (suc fuel) =
    let rest = render_from width box_px_len text_len shown (suc offset) fuel in
    if leb_ℤ (pos (width (drop offset shown))) box_px_len
    then some (drop offset shown)
    else if leb text_len (suc offset)
    then some []
    else rest

abbrev star : ℕ
star = 42

-- `render_text` and `text_px_len` before the loop: the width that is tested is that of the text, also
-- where stars are shown.
abbrev pub shown_text : InputBox → Bool → Text
shown_text b room =
    if b.is_password
    then replicate (length b.text + length b.editing_text) star
    else if room
    then b.text ++ b.editing_text
    else b.text

abbrev pub text_px_len : (Text → ℕ) → InputBox → Bool → ℕ
text_px_len width b room = if room then width b.text + width b.editing_text else width b.text

unfoldable pub get_render_text : (Text → ℕ) → ℤ → InputBox → Result (Option Text)
unfolding render_from
get_render_text width box_px_len b = do
  room ← has_room b.text b.max_input_len
  ok (
      if leb_ℤ (pos (text_px_len width b room)) box_px_len
      then some (shown_text b room)
      else render_from width box_px_len (length b.text) (shown_text b room) 0 (suc (length b.text)))
