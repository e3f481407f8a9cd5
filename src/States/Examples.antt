-- ===== src/States/Examples.antt =====
-- The theorems on the states at a concrete room.
use project_tetris.Base.{
  ◌≡◌, refl, true, false, Option, none, some, [], ◌∷◌, leb, if◌then◌else◌, pos, negsuc,
}
use project_tetris.Base.{Bool, List, arith}
use project_tetris.Python.Chars.{Unicode}
use project_tetris.Net.Structs.{max_input}
use project_tetris.Ui.Event.{Event, mouse_button_down, text_input, key_down, key_return}
use project_tetris.Ui.InputBox.{new_input_box}
use project_tetris.Ui.InputBox.Limit.{IsAsciiBox}
use project_tetris.States.Login.{Layout, new_login, handle_login_events}
use project_tetris.States.Login.Typed.{Ends, handle_login_events-Ends}
use project_tetris.Game.Board.{new_board}
use project_tetris.Game.Session.{TetrisSession, Player, play, addline_packet, handle_packet}
use project_tetris.States.Fade.{
  lobby, new_base_state, fade_duration_ms, queue_state, consume_state, is_input_blocked,
}
use project_tetris.States.Fade.Out.{fade_frames, time, queue_state-consume_state}
use project_tetris.States.Multi.{MultiPlayState, room_play, game_packet, handle_room_packet}
use project_tetris.States.Multi.Routing.{game_packet_routed}

queue_state_example :
    let s' = fade_frames (300 ∷ 300 ∷ []) (queue_state new_base_state lobby) in
    (is_input_blocked s' ≡ true)
    × ((consume_state s').0
        ≡ (if leb fade_duration_ms (time (300 ∷ 300 ∷ [])) then some lobby else none))
queue_state_example = queue_state-consume_state new_base_state lobby (300 ∷ 300 ∷ []) refl

abbrev seated : Option Player → TetrisSession
seated p = record {
  session = p;
  is_single = false;
  controller = none;
  state = play;
  score = pos 0;
  prev_packet_type = none;
  btn_start = false;
  btn_ready = none;
  btn_kick = false;
  nickname = [];
  is_host = false;
  board = new_board 30 (pos 0) (pos 0);
}

abbrev first : TetrisSession
first = seated (
    some (record {
      id = pos 5;
      is_self = true;
      nickname = [];
      win = pos 0;
      lose = pos 0;
      max_score = pos 0;
    }))

abbrev second : TetrisSession
second = seated (
    some (record {
      id = pos 7;
      is_self = false;
      nickname = [];
      win = pos 0;
      lose = pos 0;
      max_score = pos 0;
    }))

abbrev room : MultiPlayState
room = record {
  base = new_base_state;
  players = first ∷ second ∷ [];
  room_state = room_play;
  error_popup = none;
  winner_popup = none;
  reactable = true;
  host_index = negsuc 0;
}

game_packet_example :
    let (r, s') = handle_packet second (addline_packet (pos 4)) in
    handle_room_packet room (game_packet (pos 7) (addline_packet (pos 4)))
    ≡ (r, record room { players = first ∷ s' ∷ [] })
game_packet_example =
    game_packet_routed room (pos 7) (addline_packet (pos 4)) (first ∷ []) second [] refl (refl, tt)
      refl

abbrev no_unicode : Unicode
no_unicode = record {
  printable = λ _. false;
  digit = λ _. false;
  word = λ _. false;
  space = λ _. false;
}

abbrev everywhere : Layout
everywhere = record {
  id_rect = λ _. true;
  pw_rect = λ _. true;
  login_rect = λ _. true;
  popup_rects = λ _ _. true;
}

abbrev myself : Player
myself = record {
  id = pos 0;
  is_self = true;
  nickname = [];
  win = pos 0;
  lose = pos 0;
  max_score = pos 0;
}

-- A click into the boxes, three letters at once, and the return key.
abbrev keys : List Event
keys =
    mouse_button_down 1 (pos 1, pos 1) ∷ text_input (97 ∷ 98 ∷ 99 ∷ []) ∷ key_down key_return ∷ []

fresh_box-IsAsciiBox :
    (is_password : Bool)
    → IsAsciiBox max_input 18 (new_input_box (λ _. true) (some max_input) is_password false)
fresh_box-IsAsciiBox is_password = record {
  limited = refl;
  ascii_only = refl;
  unedited = refl;
  short = omega arith;
  typed = tt;
}

handle_login_events-Ends_example :
    Ends 3 (handle_login_events everywhere no_unicode true (new_login everywhere myself) keys)
handle_login_events-Ends_example =
    handle_login_events-Ends everywhere 3 no_unicode true (new_login everywhere myself) keys
      (tt, (omega arith, (tt, tt)))
      (record {
        id_typed = fresh_box-IsAsciiBox false;
        pw_typed = fresh_box-IsAsciiBox true;
        sent = tt;
      })
