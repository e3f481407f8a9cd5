-- ===== src/States/Lobby/Examples.antt =====
-- Witnesses: the mode window is opened, and an error comes over it.
use project_tetris.Base.{ℕ, ◌≡◌, refl, true, false, Option, none, some, List, []}
use project_tetris.States.Errors.{error_type}
use project_tetris.Ui.Texts.{confirm_text}
use project_tetris.States.Lobby.{LobbyState, Answers, no_room, no_tab, blank_lobby, handle_lobby}
use project_tetris.States.Lobby.Windows.{handle_event, handle_lobby_packet, error_packet}
use project_tetris.States.Lobby.Open.{IsAlive}
use project_tetris.States.Lobby.Alive.{start, event, packet, Reaches-IsAlive}
use project_tetris.States.Lobby.Closing.{windows, error_uncovers}

-- What the widgets answer: the button of a menu, or one of a window.
abbrev answered : Option ℕ → Option (List ℕ) → Answers
answered menu window = record {
  is_quit = false;
  menu = menu;
  room_list = no_room;
  chat = none;
  has_pos = true;
  left_down = false;
  friend_clicked = false;
  on_friend_btn = false;
  tabs = no_tab;
  window = window;
  password = [];
}

abbrev mode_window : LobbyState
mode_window = record blank_lobby { quick_start_window = true; reactable = false }

Reaches-IsAlive_example :
    IsAlive
      (handle_lobby_packet (handle_event blank_lobby (answered (some 0) none)).1 (error_packet 3)).1
Reaches-IsAlive_example =
    Reaches-IsAlive (packet (error_packet 3) (event (answered (some 0) none) start tt)) refl

error_uncovers_example :
    let a = answered none (some confirm_text) in
    let s' = (handle_event (handle_lobby_packet mode_window (error_packet 3)).1 a).1 in
    (s'.reactable ≡ true)
    × (windows s' ≡ windows mode_window)
    × ((b : Answers) → b.is_quit ≡ false → handle_event s' b ≡ handle_lobby s' b b.menu)
unfolding error_type
error_uncovers_example =
    error_uncovers mode_window 3 _ (answered none (some confirm_text)) confirm_text refl refl refl
