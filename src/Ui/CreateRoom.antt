-- ===== src/Ui/CreateRoom.antt =====
-- client/tetris/ui/create_room_window.py: the window in which a room is made. The rectangles of its
-- parts are those of the buttons and boxes that it is given.
pub mod Requests
use project_tetris.Base.{
  ℕ, Bool, true, false, not, ◌&&◌, ◌||◌, Option, none, some, List, [], ◌∷◌, ◌++◌, leb,
  if◌then◌else◌, length, ℤ, pos, eq_ℤ,
}
use project_tetris.Python.Exec.{Result, ok, err, value_error, ◌>>=◌}
use project_tetris.Python.Struct.{Bytes}
use project_tetris.Python.Utf8.{Text, encode}
use project_tetris.Python.Chars.{Unicode, text_eq}
use project_tetris.Net.Builder.{build_create_room}
use project_tetris.Ui.Event.{Event, Rect, key_down, key_return}
use project_tetris.Ui.Texts.{
  confirm_text, make_text, two_players_text, five_players_text, open_text, closed_text,
}
use project_tetris.Ui.InputBox
use project_tetris.Ui.InputBox.{InputBox, TextOutcome, get_total_text, extract_text}
use project_tetris.Ui.Button.{
  Button, ToggleButton, PopupBox, new_popup, handle_toggle, handle_buttons, handle_popup,
}

pub record CreateRoomWindow : Type 0 where
  pub title : InputBox
  pub option_player : List ToggleButton
  pub option_open : List ToggleButton
  pub password : InputBox
  pub option_make : List Button
  pub error_popup : Option PopupBox
  pub player_val : ℤ
  pub is_open : Bool
  -- what was handed to `send_packet`
  pub requests : List Bytes

-- An answer of the window, or none.
abbrev pub Outcome : Type 0
Outcome = Result (Option Text) × CreateRoomWindow

-- `option.pressed = option.text == val`
abbrev pub press_only : Text → List ToggleButton → List ToggleButton
press_only val [] = []
press_only val (b ∷ bs) = record b { pressed = text_eq b.text val } ∷ press_only val bs

-- `int(val.replace("인", ""))`, for the texts of the two buttons
abbrev pub player_number : Text → Result ℤ
player_number val =
    if text_eq val two_players_text
    then ok (pos 2)
    else if text_eq val five_players_text
    then ok (pos 5)
    else err value_error

abbrev pub with_player : CreateRoomWindow → Result ℤ → Outcome
with_player w (ok n) = (ok none, record w { player_val = n })
with_player w (err e) = (err e, w)

unfoldable pub set_player_value : CreateRoomWindow → Text → Outcome
set_player_value w val =
    with_player (record w { option_player = press_only val w.option_player }) (player_number val)

unfoldable pub set_open_value : CreateRoomWindow → Text → CreateRoomWindow
set_open_value w val =
    let w' : CreateRoomWindow = record w { option_open = press_only val w.option_open } in
    if text_eq val open_text
    then record w' { is_open = true; password = record w'.password { active = false } }
    else if text_eq val closed_text
    then record w' { is_open = false; password = record w'.password { active = true } }
    else w'

-- `len(value.encode("utf-8")) >= 4`
unfoldable pub is_min_length : Text → Result Bool
is_min_length value = do bytes ← encode value; ok (leb 4 (length bytes))

-- The first button that takes the event; those behind it do not see it.
unfoldable pub handle_toggles : List ToggleButton → Event → List ToggleButton × Option Text
handle_toggles [] ev = ([], none)
handle_toggles (b ∷ bs) ev =
    let (b', hit) = handle_toggle b ev in
    let (bs', answer) = handle_toggles bs ev in
    if hit then (b' ∷ bs, some b'.text) else (b' ∷ bs', answer)

abbrev pub and_then {ℓ} : {A : Type ℓ} → Result A → CreateRoomWindow → (A → Outcome) → Outcome
and_then (ok a) w next = next a
and_then (err e) w next = (err e, w)

-- A popup with the message of an error.
abbrev pub refuse : (ℕ → Rect) → CreateRoomWindow → Outcome
refuse rects w =
    and_then (new_popup rects (confirm_text ∷ [])) w
      λ p. (ok none, record w { error_popup = some p })

-- `self.player_val if self.player_val in (2, 5) else 2`
abbrev pub allowed_players : ℤ → ℤ
allowed_players n = if eq_ℤ n (pos 2) || eq_ℤ n (pos 5) then n else pos 2

-- The texts leave the boxes, and the packet goes out.
unfoldable pub request_room : CreateRoomWindow → Outcome
unfolding extract_text
request_room w =
    let (t, title) = extract_text w.title in
    let (p, password) = extract_text w.password in
    let w₁ : CreateRoomWindow = record w { title = title } in
    let w₂ : CreateRoomWindow = record w₁ { password = password } in
    and_then t w₁ λ title_val. and_then p w₂ λ password_val.
      and_then
        (build_create_room title_val (allowed_players w.player_val) w.is_open (some password_val))
        w₂ λ packet. (ok (some make_text), record w₂ { requests = w.requests ++ (packet ∷ []) })

unfoldable pub make : (ℕ → Rect) → CreateRoomWindow → Outcome
unfolding request_room is_min_length
make rects w = and_then (get_total_text w.title) w λ title_val.
    and_then (get_total_text w.password) w λ password_val.
      and_then (is_min_length title_val) w λ long_title.
        if not long_title
        then refuse rects w
        else if w.is_open
        then request_room w
        else and_then (is_min_length password_val) w
            λ long_password. if not long_password then refuse rects w else request_room w

unfoldable pub click_make : (ℕ → Rect) → CreateRoomWindow → List Button × Option Text → Outcome
unfolding make
click_make rects w (bs, none) = (ok none, record w { option_make = bs })
click_make rects w (bs, some t) =
    let w' : CreateRoomWindow = record w { option_make = bs } in
    if text_eq t make_text then make rects w' else (ok (some t), w')

-- The options, the password of a closed room, and the two buttons.
abbrev pub type_password : Unicode → (ℕ → Rect) → CreateRoomWindow → Event → Outcome
type_password u rects w ev =
    if w.is_open
    then click_make rects w (handle_buttons w.option_make ev)
    else (let (r, password) = InputBox.handle_event u w.password ev in
        let w' : CreateRoomWindow = record w { password = password } in
        and_then r w' λ _. click_make rects w' (handle_buttons w'.option_make ev))

abbrev pub choose_open :
    Unicode → (ℕ → Rect) → CreateRoomWindow → Event → List ToggleButton × Option Text → Outcome
choose_open u rects w ev (bs, none) = type_password u rects (record w { option_open = bs }) ev
choose_open u rects w ev (bs, some t) =
    type_password u rects (set_open_value (record w { option_open = bs }) t) ev

abbrev pub after_player : Unicode → (ℕ → Rect) → Event → Outcome → Outcome
after_player u rects ev (ok _, w) = choose_open u rects w ev (handle_toggles w.option_open ev)
after_player u rects ev (err e, w) = (err e, w)

abbrev pub choose_player : CreateRoomWindow → List ToggleButton × Option Text → Outcome
choose_player w (bs, none) = (ok none, record w { option_player = bs })
choose_player w (bs, some t) = set_player_value (record w { option_player = bs }) t

abbrev pub type_title : Unicode → (ℕ → Rect) → CreateRoomWindow → Event → TextOutcome → Outcome
type_title u rects w ev (err e, title) = (err e, record w { title = title })
type_title u rects w ev (ok _, title) =
    let w' : CreateRoomWindow = record w { title = title } in
    after_player u rects ev (choose_player w' (handle_toggles w'.option_player ev))

abbrev pub close_popup : CreateRoomWindow → PopupBox × Option Text → Outcome
close_popup w (p, none) = (ok none, record w { error_popup = some p })
close_popup w (p, some t) = (ok none, record w { error_popup = none })

abbrev pub is_return : Event → Bool
is_return (key_down key_return) = true
is_return _ = false

abbrev pub without_popup :
    Unicode → (ℕ → Rect) → CreateRoomWindow → Event → Option PopupBox → Outcome
without_popup u rects w ev (some p) = close_popup w (handle_popup p ev)
without_popup u rects w ev none =
    if is_return ev
    then (ok none, w)
    else type_title u rects w ev (InputBox.handle_event u w.title ev)

unfoldable pub handle_room_event : Unicode → (ℕ → Rect) → CreateRoomWindow → Event → Outcome
handle_room_event u rects w ev = without_popup u rects w ev w.error_popup

unfoldable pub update_room : CreateRoomWindow → ℕ → CreateRoomWindow
update_room w dt_ms = record w {
  title = InputBox.update w.title dt_ms;
  password = InputBox.update w.password dt_ms;
}
