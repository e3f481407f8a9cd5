-- ===== src/Ui/Examples.antt =====
-- Witnesses: a click, a text that is too wide, lines of a message, users, and a room that is made.
use project_tetris.Base.{ℕ, ◌*◌, ◌≡◌, refl, true, false, some, List, [], ◌∷◌, length, ℤ, pos}
use project_tetris.Python.Utf8.{Text}
use project_tetris.Ui.Event.{Event, Rect, mouse_motion, mouse_button_down, mouse_button_up}
use project_tetris.Ui.Button.{new_button, handle_event}
use project_tetris.Ui.Button.Click.{after, WasPressed, click_lem}
use project_tetris.Ui.InputBox.{InputBox, new_input_box}
use project_tetris.Base.{◌-◌, ◌≤◌, ◌++◌, drop}
use project_tetris.Ui.ChatWindow.{full_text, add_new_message, max_message_lines}
use project_tetris.Ui.ChatWindow.Wrapped.{IsWrapped, concat, add_new_message_lem}
use project_tetris.Ui.UserList.Lookup.{lookup, IsDistinct}
use project_tetris.Ui.UserList.Dictionary.{
  UserCall, add, delete, perform, entries, perform_refines_entries,
}
use project_tetris.Base.{none}
use project_tetris.Python.Chars.{Unicode}
use project_tetris.Ui.Texts.{make_text, find_text, two_players_text}
use project_tetris.Ui.FastMatching.{FastMatchingWindow, handle_matching_event}
use project_tetris.Ui.FastMatching.Requests.{Fine, handle_matching_event-Fine}
use project_tetris.Ui.Button.{press}
use project_tetris.Ui.CreateRoom.{CreateRoomWindow, handle_room_event}
use project_tetris.Ui.CreateRoom.Requests.{AllSent, handle_room_event-AllSent}

abbrev everywhere : Rect
everywhere _ = true

abbrev pressed_events : List Event
pressed_events = mouse_button_down 1 (pos 4, pos 5) ∷ mouse_motion (pos 4, pos 5) ∷ []

clicked :
    (handle_event
      (after pressed_events (new_button everywhere []))
      (mouse_button_up 1 (pos 4, pos 5))).1
    ≡ true
unfolding handle_event after
clicked = refl

click_lem_example :
    (at : ℤ × ℤ) × (mouse_button_up 1 (pos 4, pos 5) ≡ mouse_button_up 1 at)
    × (everywhere at ≡ true)
    × WasPressed everywhere pressed_events
click_lem_example =
    click_lem pressed_events (mouse_button_up 1 (pos 4, pos 5)) everywhere [] clicked

abbrev filled : InputBox
filled = record (new_input_box everywhere (some 16) false false) { text = 97 ∷ 98 ∷ 99 ∷ [] }

-- Each character is ten pixels wide.
abbrev ten_px : Text → ℕ
ten_px s = 10 * length s

-- Two lines of four characters at most, of "[ab]: cde".
add_new_message_lem_example :
    let full = full_text (97 ∷ 98 ∷ []) (99 ∷ 100 ∷ 101 ∷ []) in
    (lines : List Text) × (add_new_message ten_px 45 [] (97 ∷ 98 ∷ []) (99 ∷ 100 ∷ 101 ∷ [])
      ≡ some (drop (length ([] ++ lines) - max_message_lines) ([] ++ lines)))
    × IsWrapped ten_px 45 lines full
    × (concat lines ≡ full)
    × (length (drop (length ([] ++ lines) - max_message_lines) ([] ++ lines)) ≤ max_message_lines)
add_new_message_lem_example = add_new_message_lem ten_px 45 [] (97 ∷ 98 ∷ []) (99 ∷ 100 ∷ 101 ∷ [])

-- A user who comes, is renamed and goes, and another.
abbrev calls : List UserCall
calls =
    delete (pos 1) ∷ add (pos 2) [] true ∷ add (pos 1) (97 ∷ []) false ∷ add (pos 1) [] true ∷ []

perform_refines_entries_example :
    IsDistinct (perform calls) × ((k : ℤ) → lookup k (perform calls) ≡ entries calls k)
perform_refines_entries_example = perform_refines_entries calls

-- A room for two with a title of four letters, the button of which is about to be released.
abbrev room_window : CreateRoomWindow
room_window = record {
  title = record (new_input_box everywhere (some 16) false true) { text = 97 ∷ 98 ∷ 99 ∷ 100 ∷ [] };
  option_player = [];
  option_open = [];
  password = new_input_box everywhere (some 16) false true;
  option_make = record { state = press; rect = everywhere; text = make_text } ∷ [];
  error_popup = none;
  player_val = pos 2;
  is_open = true;
  requests = [];
}

abbrev no_unicode : Unicode
no_unicode = record {
  printable = λ _. false;
  digit = λ _. false;
  word = λ _. false;
  space = λ _. false;
}

handle_room_event-AllSent_example :
    AllSent (
      handle_room_event no_unicode (λ _. everywhere) room_window (mouse_button_up 1 (pos 4, pos 5)))
handle_room_event-AllSent_example =
    handle_room_event-AllSent (λ _. everywhere) no_unicode room_window
      (mouse_button_up 1 (pos 4, pos 5)) tt

-- A game of two is chosen, and the button that looks for it is about to be released.
abbrev matching_window : FastMatchingWindow
matching_window = record {
  popup = record { buttons = record { state = press; rect = everywhere; text = find_text } ∷ [] };
  options = [];
  option_val = some two_players_text;
  requests = [];
}

handle_matching_event-Fine_example :
    Fine (handle_matching_event matching_window (mouse_button_up 1 (pos 4, pos 5)))
handle_matching_event-Fine_example =
    handle_matching_event-Fine matching_window (mouse_button_up 1 (pos 4, pos 5)) tt
