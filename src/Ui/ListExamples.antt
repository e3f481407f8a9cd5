-- ===== src/Ui/ListExamples.antt =====
-- Witnesses: rooms and users in their lists, a message in its window, a slider, and the settings.
use project_tetris.Base.{
  ℕ, ◌*◌, ◌-◌, ◌≡◌, refl, true, false, some, List, [], ◌∷◌, ◌&&◌, leb_ℤ, ltb, ltb_ℤ, ◌+ℤ◌, ◌-ℤ◌,
  ◌*ℤ◌, if◌then◌else◌, length, drop, ◌++◌, ℤ, pos,
}
use project_tetris.Python.Exec.{ok}
use project_tetris.States.Lobby.{room}
use project_tetris.Python.Float.Exact.{exact}
use project_tetris.Python.Utf8.{Text}
use project_tetris.Ui.Toolkit.{Toolkit, Area}
use project_tetris.Ui.Event.{
  Event, Rect, mouse_motion, mouse_button_down, mouse_button_up, mouse_wheel,
}
use project_tetris.Ui.Button.{Button, new_button}
use project_tetris.Ui.RoomList.{RoomList, show_rooms, ask_rooms, new_room_list, handle_event}
use project_tetris.Ui.RoomList.Rooms.{
  RoomCall, room_info, event, perform, performed, shown_rooms_fill_window,
}
use project_tetris.Ui.RoomList.Joining.{Offers, room_event, all_calls-Offers}
use project_tetris.Ui.InputBox.{new_input_box}
use project_tetris.Ui.ChatWindow.{max_message_lines, full_text}
use project_tetris.Ui.ChatWindow.Wrapped.{concat}
use project_tetris.Ui.ChatWindow.Window.{Chat, new_chat, add_new_message, drawn, message_shown}

-- Rectangles of the plane, and fractions for the floating-point numbers.
abbrev plane : Toolkit
plane = record {
  numbers = exact;
  collidepoint =
      λ r (x, y). leb_ℤ r.x x && (ltb_ℤ x (r.x +ℤ r.w) && (leb_ℤ r.y y && ltb_ℤ y (r.y +ℤ r.h)));
}

-- The list of the lobby, with a button of 40 pixels in each row.
abbrev list_area : Area
list_area = record { x = pos 50; y = pos 175; w = pos 900; h = pos 80 }

abbrev button_at : ℤ → Rect
button_at y (_, py) = leb_ℤ y py && ltb_ℤ py (y +ℤ pos 40)

abbrev nowhere : Button
nowhere = new_button (λ _. false) []

abbrev waiting_room : ℤ → RoomCall
waiting_room key = room_info (record { room_key = key; is_private = false; is_play = false })

abbrev room_in_play : RoomCall
room_in_play = room_info (record { room_key = pos 9; is_private = false; is_play = true })

-- Three rooms, of which two are shown; the wheel goes down, and the mouse to the second row.
abbrev calls : List RoomCall
calls =
    waiting_room (pos 7)
    ∷ room_in_play
    ∷ waiting_room (pos 8)
    ∷ event (mouse_button_down 1 (pos 60, pos 180))
    ∷ event (mouse_wheel (pos 0))
    ∷ event (mouse_motion (pos 60, pos 220))
    ∷ event (mouse_button_down 1 (pos 60, pos 220))
    ∷ []

abbrev rooms_now : RoomList plane button_at
rooms_now = performed plane button_at (new_room_list plane button_at list_area nowhere) calls

shown_rooms_fill_window_example : length (show_rooms plane button_at rooms_now) ≡ (
    if ltb (length rooms_now.rooms) rooms_now.scroll.show_lines
    then length rooms_now.rooms
    else rooms_now.scroll.show_lines)
shown_rooms_fill_window_example = shown_rooms_fill_window plane button_at list_area nowhere calls

abbrev released : Event
released = mouse_button_up 1 (pos 60, pos 220)

all_calls-Offers_example :
    Offers
      (show_rooms plane button_at (handle_event plane button_at rooms_now released).0)
      (room_event plane button_at rooms_now released)
all_calls-Offers_example = all_calls-Offers plane button_at list_area nowhere calls released

-- The second row shows the third room.
joined : room_event plane button_at rooms_now released ≡ ok (room (pos 8) false)
unfolding room_event performed perform new_room_list ask_rooms ◌+ℤ◌ ◌-ℤ◌ ◌*ℤ◌
joined = refl

-- Each character is ten pixels wide.
abbrev ten_px : Text → ℕ
ten_px s = 10 * length s

abbrev chat : Chat plane ten_px 60
chat = new_chat plane ten_px 60 (pos 0) (pos 0) (new_input_box (λ _. true) (some 256) false true)

message_shown_example :
    (c' : Chat plane ten_px 60) × (lines : List Text) × (add_new_message plane ten_px 60 chat
        (97 ∷ [])
        (98 ∷ 99 ∷ 100 ∷ [])
      ≡ some c')
    × (c'.texts ≡ drop (length (chat.texts ++ lines) - max_message_lines) (chat.texts ++ lines))
    × (concat lines ≡ full_text (97 ∷ []) (98 ∷ 99 ∷ 100 ∷ []))
    × (if chat.scroll.can_drag
        then c'.scroll.can_drag ≡ true
        else (drawn plane ten_px 60 c').1
          ≡ drop (length c'.texts - chat.scroll.show_lines) c'.texts)
message_shown_example = message_shown plane ten_px 60 chat (97 ∷ []) (98 ∷ 99 ∷ 100 ∷ [])
