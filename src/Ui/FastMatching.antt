-- ===== src/Ui/FastMatching.antt =====
-- client/tetris/ui/fast_matching_window.py: the window in which the size of a game is chosen.
pub mod Requests
use project_tetris.Base.{
  Bool, true, false, Option, none, some, List, [], ◌∷◌, ◌++◌, if◌then◌else◌, ℤ, pos,
}
use project_tetris.Python.Exec.{Result, ok, err}
use project_tetris.Python.Struct.{Bytes}
use project_tetris.Python.Utf8.{Text}
use project_tetris.Python.Chars.{text_eq}
use project_tetris.Net.Builder.{build_fast_matching}
use project_tetris.Ui.Event.{Event}
use project_tetris.Ui.Texts.{two_players_text, five_players_text, all_text, find_text}
use project_tetris.Ui.Button.{ToggleButton, PopupBox, set_pressed, handle_popup}
use project_tetris.Ui.CreateRoom.{handle_toggles}

pub record FastMatchingWindow : Type 0 where
  pub popup : PopupBox
  pub options : List ToggleButton
  pub option_val : Option Text
  -- what was handed to `send_packet`
  pub requests : List Bytes

abbrev pub Outcome : Type 0
Outcome = Result (Option Text) × FastMatchingWindow

abbrev press_option : Text → List ToggleButton → List ToggleButton
unfolding set_pressed
press_option val [] = []
press_option val (b ∷ bs) = set_pressed b (text_eq b.text val) ∷ press_option val bs

unfoldable pub set_option_val : FastMatchingWindow → Text → FastMatchingWindow
unfolding press_option
set_option_val w val = record w { option_val = some val; options = press_option val w.options }

-- The number that the server takes for a choice, 0 for any.
unfoldable pub max_user_of : Text → Option ℤ
max_user_of val =
    if text_eq val two_players_text
    then some (pos 2)
    else if text_eq val five_players_text
    then some (pos 5)
    else if text_eq val all_text
    then some (pos 0)
    else none

abbrev pub send : FastMatchingWindow → Option Text → Result Bytes → Outcome
send w res (ok packet) = (ok res, record w { requests = w.requests ++ (packet ∷ []) })
send w res (err e) = (err e, w)

abbrev pub send_number : FastMatchingWindow → Option Text → Option ℤ → Outcome
send_number w res none = (ok res, w)
send_number w res (some n) = send w res (build_fast_matching n)

unfoldable pub send_fast_matching : FastMatchingWindow → Option Text → Option Text → Outcome
unfolding max_user_of
send_fast_matching w res none = (ok res, w)
send_fast_matching w res (some val) = send_number w res (max_user_of val)

abbrev pub answer_popup : FastMatchingWindow → PopupBox × Option Text → Outcome
answer_popup w (p, none) = (ok none, record w { popup = p })
answer_popup w (p, some res) =
    let w' : FastMatchingWindow = record w { popup = p } in
    if text_eq res find_text
    then send_fast_matching w' (some res) w'.option_val
    else (ok (some res), w')

abbrev pub choose : FastMatchingWindow → List ToggleButton × Option Text → FastMatchingWindow
choose w (bs, none) = record w { options = bs }
choose w (bs, some val) = set_option_val (record w { options = bs }) val

unfoldable pub handle_matching_event : FastMatchingWindow → Event → Outcome
handle_matching_event w ev =
    let w' = choose w (handle_toggles w.options ev) in answer_popup w' (handle_popup w'.popup ev)
