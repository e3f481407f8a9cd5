-- ===== src/States/Lobby/Open.antt =====
-- The lobby never stops answering.
use project_tetris.Base.{
  ℕ, ◌≡◌, refl, Bool, true, false, ◌||◌, ◌&&◌, not, Option, none, some, [], ◌∷◌, ◌++◌, if-both,
  ◌==◌,
}
use project_tetris.Python.Exec.{Result, ok, err}
use project_tetris.Python.Struct.{Bytes}
use project_tetris.Python.Utf8.{Text}
use project_tetris.Net.Builder.{
  build_request_ranking_pkt, build_request_room_list_pkt, build_join_room_pkt, build_message_pkt,
  build_request_lobby_user_list_pkt, build_request_friend_list_pkt,
}
use project_tetris.Ui.Texts.{user_tab_name, friend_tab_name}
use project_tetris.States.Fade.{ranking, queue_state}
use project_tetris.Python.Chars.{text_eq}
use project_tetris.States.Lobby.{
  LobbyState, Answers, Outcome, RoomAnswer, no_room, refresh, room, TabAnswer, no_tab, tab,
  friend_event, FriendAction, to_add, to_delete, done, and_then, send, without_btn, ask_friend,
  open_menu, click_room, say, click_tabs, click_friend, click_mouse, handle_lobby,
  request_room_list, request_lobby_user_list, request_friend_list,
}

abbrev pub has_window : LobbyState → Bool
has_window s =
    s.error_popup
    || (s.quick_start_window
        || (s.fast_matching_window
            || (s.room_create_window
                || (s.exit_popup
                    || (s.setting_window
                        || (s.save_success_popup
                            || (s.input_pw_window || (s.info_popup || s.friend_request_popup))))))))

-- The lobby reacts, or a window is open that does.
abbrev pub IsAlive : LobbyState → Type 0
IsAlive s = (s.reactable || has_window s) ≡ true

abbrev pub Alive : Outcome → Type 0
Alive o = IsAlive o.1

pub and_then-Alive :
    (o : Outcome) (next : LobbyState → Outcome)
    → Alive o
    → ((s : LobbyState) → IsAlive s → Alive (next s))
    → Alive (and_then o next)
and_then-Alive (ok t, s) next h k = k s h
and_then-Alive (err e, s) next h k = h

pub send-Alive : (s : LobbyState) (packet : Result Bytes) → IsAlive s → Alive (send s packet)
send-Alive s (ok packet) h = h
send-Alive s (err e) h = h

pub send_then-Alive :
    (s : LobbyState) (r : Result Bytes) (f : LobbyState → LobbyState)
    → IsAlive s
    → ((s' : LobbyState) → IsAlive s' → IsAlive (f s'))
    → Alive (and_then (send s r) (λ s'. done (f s')))
send_then-Alive s (ok packet) f h k = k (record s { requests = s.requests ++ (packet ∷ []) }) h
send_then-Alive s (err e) f h k = h

pub or-true : (a b : Bool) → b ≡ true → (a || b) ≡ true
or-true true b h = refl
or-true false b h = h

open_menu-Alive : (s : LobbyState) (index : ℕ) → IsAlive s → Alive (open_menu s index)
unfolding open_menu
open_menu-Alive s index h = if-both Alive (index == 0) (search or-true) (
    if-both Alive (index == 1) (search or-true) (
      if-both Alive (index == 2)
        (send_then-Alive s build_request_ranking_pkt
          (λ s'. record s' { base = queue_state s'.base ranking }) h (λ s' h'. h'))
        (if-both Alive (index == 4) (search or-true)
          (if-both Alive (index == 5) (search or-true) h))))

click_room-Alive : (s : LobbyState) (a : RoomAnswer) → IsAlive s → Alive (click_room s a)
unfolding click_room request_room_list
click_room-Alive s no_room h = h
click_room-Alive s refresh h = send-Alive (record s { rooms = [] }) build_request_room_list_pkt h
click_room-Alive s (room key is_private) h = if-both Alive is_private (search or-true) (
    send_then-Alive (record s { join_room_key = some key }) (build_join_room_pkt key none)
      (λ s'. record s' { join_room_key = none }) h (λ s' h'. h'))

say-Alive : (s : LobbyState) (m : Option Text) → IsAlive s → Alive (say s m)
unfolding say
say-Alive s none h = h
say-Alive s (some m) h = send-Alive s (build_message_pkt m) h

click_tabs-Alive : (s : LobbyState) (a : TabAnswer) → IsAlive s → Alive (click_tabs s a)
unfolding click_tabs request_lobby_user_list request_friend_list
click_tabs-Alive s no_tab h = h
click_tabs-Alive s (tab name) h =
    if-both Alive (text_eq name user_tab_name) (send-Alive _ build_request_lobby_user_list_pkt h) (
      if-both Alive (text_eq name friend_tab_name) (send-Alive _ build_request_friend_list_pkt h) h)
click_tabs-Alive s (friend_event action id) h = h

ask_friend-Alive :
    (s : LobbyState) (action : FriendAction)
    → IsAlive s
    → Alive (and_then (ask_friend s action) (λ s'. done (without_btn s')))
ask_friend-Alive s to_add h = send_then-Alive s _ without_btn h (λ s' h'. h')
ask_friend-Alive s to_delete h = send_then-Alive s _ without_btn h (λ s' h'. h')

click_friend-Alive :
    (s : LobbyState) (a : Answers) (btn : Option FriendAction)
    → IsAlive s
    → Alive (click_friend s a btn)
unfolding click_friend
click_friend-Alive s a none h = click_tabs-Alive s a.tabs h
click_friend-Alive s a (some action) h =
    if-both Alive a.friend_clicked (ask_friend-Alive s action h) (
      if-both Alive (a.left_down && not a.on_friend_btn) (click_tabs-Alive (without_btn s) a.tabs h)
        (click_tabs-Alive s a.tabs h))

pub handle_lobby-Alive :
    (s : LobbyState) (a : Answers) (menu : Option ℕ) → IsAlive s → Alive (handle_lobby s a menu)
unfolding handle_lobby click_mouse
handle_lobby-Alive s a (some index) h = open_menu-Alive s index h
handle_lobby-Alive s a none h =
    and_then-Alive (click_room s a.room_list) _ (click_room-Alive s a.room_list h) λ s₁ h₁.
      and_then-Alive (say s₁ a.chat) _ (say-Alive s₁ a.chat h₁)
        λ s₂ h₂. if-both Alive a.has_pos (click_friend-Alive s₂ a s₂.friend_ev_btn h₂) h₂
