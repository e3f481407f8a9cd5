-- ===== src/Main/Examples.antt =====
-- Witness: the login state on the screen, a login in the queue and a packet behind it.
use project_tetris.Base.{Bool, true, false, Option, none, some, List, [], ◌∷◌, pos}
use project_tetris.Python.Exec.{ok}
use project_tetris.Game.Session.{Player}
use project_tetris.States.Fade
use project_tetris.States.Fade.{StateName, is_input_blocked}
use project_tetris.States.Login.{
  Layout, LoginState, LoginPacket, login_packet, error_packet, new_login, handle_login_packet,
}
use project_tetris.Main.{State, drain_packets}
use project_tetris.Main.Drain.{Ends, drain_packets_lem}

abbrev is_some {ℓ} : {A : Type ℓ} → Option A → Bool
is_some none = false
is_some (some a) = true

abbrev nowhere : Layout
nowhere = record {
  id_rect = λ _. false;
  pw_rect = λ _. false;
  login_rect = λ _. false;
  popup_rects = λ _ _. false;
}

abbrev myself : Player
myself = record {
  id = pos 0;
  is_self = true;
  nickname = [];
  win = pos 0;
  lose = pos 0;
  max_score = pos 0;
}

-- The states behind it are not on the screen.
abbrev login_screen : State LoginState LoginPacket
login_screen = record {
  has_next = λ s. is_some s.base.next_state;
  handle_packet = handle_login_packet nowhere;
  is_input_blocked = λ s. is_input_blocked s.base;
  update = λ s _ _. (ok none, s);
  start_fade_in = λ s. record s { base = Fade.start_fade_in s.base };
}

abbrev queue : List LoginPacket
queue = login_packet (pos 5) (97 ∷ []) (pos 1) (pos 2) (pos 300) ∷ error_packet 3 ∷ []

drain_packets_lem_example :
    Ends login_screen queue
      (new_login nowhere myself)
      (drain_packets login_screen queue (new_login nowhere myself))
      (drain_packets login_screen queue (new_login nowhere myself)).result
drain_packets_lem_example = drain_packets_lem login_screen queue (new_login nowhere myself)
