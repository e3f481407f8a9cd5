-- ===== src/States/Lobby.antt =====
-- client/tetris/states/lobby_state.py: the windows of the lobby, what its buttons ask of the server,
-- and the packets. What a widget answers to an event is given with the event (Answers); of a window
-- that is open the state holds only that. The buttons' places and drawing are left out.
pub mod Windows
pub mod Open
pub mod Alive
pub mod Closing
mod Examples
use project_tetris.Base.{
  ℕ, Bool, true, false, not, ◌&&◌, ◌||◌, Option, none, some, List, [], ◌∷◌, ◌++◌, if◌then◌else◌,
  ◌==◌, ℤ, pos, eq_ℤ,
}
use project_tetris.Python.Exec.{Result, ok, err, struct_error}
use project_tetris.Python.Struct.{Bytes}
use project_tetris.Python.Utf8.{Text}
use project_tetris.Python.Chars.{text_eq}
use project_tetris.Net.Builder.{
  build_create_room, build_disconnect_pkt, build_join_room_pkt, build_message_pkt,
  build_request_room_list_pkt, build_request_lobby_user_list_pkt, build_request_friend_list_pkt,
  build_request_friend_pkt, build_delete_friend_pkt, build_accept_friend_pkt,
  build_request_ranking_pkt,
}
use project_tetris.States.Errors.{ErrorType, error_type}
use project_tetris.States.Fade.{
  BaseState, new_base_state, ranking, single_play, multi_play, queue_state,
}
use project_tetris.Ui.Texts.{
  confirm_text, quit_game_text, continue_text, accept_text, join_text, cancel_text, success_text,
  make_text, user_tab_name, friend_tab_name, quick_start_room_name,
}
use project_tetris.Ui.UserList.{Tabs, new_tabs, UserPacket, handle_user_packet, clear_tab}

-- What the small button beside a user does.
pub data FriendAction : Type 0 where
  to_add to_delete : FriendAction

pub record LobbyState : Type 0 where
  pub base : BaseState
  pub user_tabs : Tabs
  pub rooms : List ℤ
  pub messages : List (Text × Text)
  pub error_popup : Bool
  pub quick_start_window : Bool
  pub fast_matching_window : Bool
  pub room_create_window : Bool
  pub setting_window : Bool
  pub exit_popup : Bool
  pub save_success_popup : Bool
  pub input_pw_window : Bool
  pub info_popup : Bool
  pub friend_request_popup : Bool
  pub reactable : Bool
  pub friend_requester_id : Option ℤ
  pub friend_ev_btn : Option FriendAction
  pub friend_ev_target_id : Option ℤ
  pub join_room_key : Option ℤ
  -- what was handed to `send_packet`
  pub requests : List Bytes

pub data RoomAnswer : Type 0 where
  no_room refresh : RoomAnswer
  -- the key of the room, and whether it is private
  room : ℤ → Bool → RoomAnswer

pub data TabAnswer : Type 0 where
  no_tab : TabAnswer
  tab : Text → TabAnswer
  friend_event : FriendAction → ℤ → TabAnswer

-- What the widgets answer to an event, each only if it is asked.
pub record Answers : Type 0 where
  pub is_quit : Bool
  pub menu : Option ℕ
  pub room_list : RoomAnswer
  pub chat : Option Text
  pub has_pos : Bool
  pub left_down : Bool
  pub friend_clicked : Bool
  pub on_friend_btn : Bool
  pub tabs : TabAnswer
  -- the first open window's, and the text that its input box hands out
  pub window : Option Text
  pub password : Text

abbrev pub Outcome : Type 0
Outcome = Result (Unit {0}) × LobbyState

abbrev pub done : LobbyState → Outcome
done s = (ok tt, s)

abbrev pub and_then : Outcome → (LobbyState → Outcome) → Outcome
and_then (ok _, s) next = next s
and_then (err e, s) next = (err e, s)

-- `send_packet(build...)`
abbrev pub send : LobbyState → Result Bytes → Outcome
send s (ok packet) = done (record s { requests = s.requests ++ (packet ∷ []) })
send s (err e) = (err e, s)

-- `struct.pack` refuses None.
abbrev pub with_number : Option ℤ → (ℤ → Result Bytes) → Result Bytes
with_number none build = err struct_error
with_number (some n) build = build n

abbrev pub react : LobbyState → LobbyState
react s = record s { reactable = true }

unfoldable pub request_room_list : LobbyState → Outcome
request_room_list s = send (record s { rooms = [] }) build_request_room_list_pkt

unfoldable pub request_lobby_user_list : LobbyState → Outcome
unfolding clear_tab
request_lobby_user_list s =
    send (record s { user_tabs = clear_tab user_tab_name s.user_tabs })
      build_request_lobby_user_list_pkt

unfoldable pub request_friend_list : LobbyState → Outcome
unfolding clear_tab
request_friend_list s =
    send (record s { user_tabs = clear_tab friend_tab_name s.user_tabs })
      build_request_friend_list_pkt

abbrev pub blank_lobby : LobbyState
blank_lobby = record {
  base = new_base_state;
  user_tabs = new_tabs (user_tab_name ∷ friend_tab_name ∷ []);
  rooms = [];
  messages = [];
  error_popup = false;
  quick_start_window = false;
  fast_matching_window = false;
  room_create_window = false;
  setting_window = false;
  exit_popup = false;
  save_success_popup = false;
  input_pw_window = false;
  info_popup = false;
  friend_request_popup = false;
  reactable = true;
  friend_requester_id = none;
  friend_ev_btn = none;
  friend_ev_target_id = none;
  join_room_key = none;
  requests = [];
}

-- A lobby asks for the rooms, the users and the friends when it is made.
unfoldable pub new_lobby : Outcome
unfolding request_room_list request_lobby_user_list request_friend_list
new_lobby =
    and_then (request_room_list blank_lobby)
      λ s₁. and_then (request_lobby_user_list s₁) λ s₂. request_friend_list s₂

-- The menus 0, 1, 2, 4 and 5; the texts with which the index is compared then equal no index.
unfoldable pub open_menu : LobbyState → ℕ → Outcome
unfolding queue_state
open_menu s index =
    if index == 0
    then done (record s { quick_start_window = true; reactable = false })
    else if index == 1
    then done (record s { room_create_window = true; reactable = false })
    else if index == 2
    then and_then (send s build_request_ranking_pkt)
        (λ s'. done (record s' { base = queue_state s'.base ranking }))
    else if index == 4
    then done (record s { setting_window = true; reactable = false })
    else if index == 5
    then done (record s { exit_popup = true; reactable = false })
    else done s

unfoldable pub click_room : LobbyState → RoomAnswer → Outcome
unfolding request_room_list
click_room s no_room = done s
click_room s refresh = request_room_list s
click_room s (room key is_private) =
    if is_private
    then done (record s { join_room_key = some key; input_pw_window = true; reactable = false })
    else and_then (send (record s { join_room_key = some key }) (build_join_room_pkt key none))
        λ s'. done (record s' { join_room_key = none })

unfoldable pub say : LobbyState → Option Text → Outcome
say s none = done s
say s (some message) = send s (build_message_pkt message)

abbrev pub without_btn : LobbyState → LobbyState
without_btn s = record s { friend_ev_btn = none; friend_ev_target_id = none }

abbrev pub ask_friend : LobbyState → FriendAction → Outcome
ask_friend s to_add = send s (with_number s.friend_ev_target_id build_request_friend_pkt)
ask_friend s to_delete = send s (with_number s.friend_ev_target_id build_delete_friend_pkt)

unfoldable pub click_tabs : LobbyState → TabAnswer → Outcome
unfolding request_lobby_user_list request_friend_list
click_tabs s no_tab = done s
click_tabs s (tab name) =
    if text_eq name user_tab_name
    then request_lobby_user_list s
    else if text_eq name friend_tab_name
    then request_friend_list s
    else done s
click_tabs s (friend_event action id) =
    done (record s { friend_ev_target_id = some id; friend_ev_btn = some action })

-- The button beside a user comes before the tabs.
unfoldable pub click_friend : LobbyState → Answers → Option FriendAction → Outcome
unfolding click_tabs
click_friend s a none = click_tabs s a.tabs
click_friend s a (some action) =
    if a.friend_clicked
    then and_then (ask_friend s action) (λ s'. done (without_btn s'))
    else if a.left_down && not a.on_friend_btn
    then click_tabs (without_btn s) a.tabs
    else click_tabs s a.tabs

unfoldable pub click_mouse : LobbyState → Answers → Outcome
unfolding click_friend
click_mouse s a = if a.has_pos then click_friend s a s.friend_ev_btn else done s

unfoldable pub handle_lobby : LobbyState → Answers → Option ℕ → Outcome
unfolding open_menu click_room say click_mouse
handle_lobby s a (some index) = open_menu s index
handle_lobby s a none =
    and_then (click_room s a.room_list) λ s₁. and_then (say s₁ a.chat) λ s₂. click_mouse s₂ a
