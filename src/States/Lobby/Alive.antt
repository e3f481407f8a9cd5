-- ===== src/States/Lobby/Alive.antt =====
-- The lobby and its windows under any events and packets.
use project_tetris.Base.{
  ◌≡◌, refl, true, false, ◌||◌, Option, none, some, if-both, if-cases, arith, ◌==◌, ℤ, pos, eq_ℤ,
}
use project_tetris.Python.Exec.{Result, ok, err, system_exit}
use project_tetris.Python.Struct.{Bytes}
use project_tetris.Python.Utf8.{Text}
use project_tetris.Python.Chars.{text_eq}
use project_tetris.States.Errors.{ErrorType, error_type}
use project_tetris.Ui.Texts.{
  confirm_text, quit_game_text, continue_text, accept_text, join_text, cancel_text, success_text,
  make_text, single_text, multi_text, quick_start_room_name,
}
use project_tetris.Ui.UserList.{handle_user_packet, Tabs}
use project_tetris.Python.Utf8.{encode}
use project_tetris.Python.Struct.{pack}
use project_tetris.Net.Builder.{
  str_to_bytes, build_packet, pack_struct, build_create_room, build_disconnect_pkt,
}
use project_tetris.States.Lobby.{LobbyState, Answers, done, and_then, send, react}
use project_tetris.States.Lobby.Windows.{
  answer_quick_start, answer_exit, answer_setting, answer_input, answer_request, close_input,
  close_request, answer_window, handle_windows, handle_event, handle_lobby_packet, LobbyPacket,
  error_packet, info_packet, user_packet, message_packet, room_info, add_room, unused_packet,
  show_error, answer_users, enter_room,
}
use project_tetris.States.Lobby.Open.{IsAlive, Alive, send_then-Alive, or-true, handle_lobby-Alive}

-- The first open window answers with the text of one of its buttons, where that matters.
abbrev pub IsMode : Text → Type 0
IsMode t = (text_eq t single_text || (text_eq t multi_text || text_eq t cancel_text)) ≡ true

abbrev pub IsAnswer : LobbyState → Option Text → Type 0
IsAnswer s none = Unit
IsAnswer s (some t) = s.error_popup ≡ false → s.quick_start_window ≡ true → IsMode t

abbrev IsOk : Result Bytes → Type 0
IsOk (ok packet) = Unit
IsOk (err e) = ⊥

-- The packet of the room for one player is always the same.
quick_start_packet : IsOk (build_create_room quick_start_room_name (pos 1) true none)
unfolding build_create_room str_to_bytes encode build_packet pack_struct pack
quick_start_packet = tt

created-Alive :
    (s : LobbyState) (r : Result Bytes)
    → IsOk r
    → Alive (and_then (send s r) (λ s'. done (react s')))
created-Alive s (ok packet) h = refl
created-Alive s (err e) h = absurd h

-- What is open stands in one of the last places.
saved_window :
    (s : LobbyState) → IsAlive (record s { save_success_popup = true; setting_window = false })
saved_window s = search or-true

info_window : (s : LobbyState) → IsAlive (record s { info_popup = true; reactable = false })
info_window s = search or-true

last_window :
    (s : LobbyState) (tabs : Tabs) (id : ℤ)
    → IsAlive (record s {
      user_tabs = tabs;
      friend_requester_id = some id;
      friend_request_popup = true;
      reactable = false;
    })
last_window s tabs id = search or-true

-- The game ends with SystemExit, or with what the packet raised.
left :
    (s : LobbyState) (r : Result Bytes)
    → IsAlive s
    → Alive (and_then (send s r) (λ s'. (err system_exit, s')))
left s (ok packet) h = h
left s (err e) h = h

answer_quick_start-Alive : (s : LobbyState) (t : Text) → IsMode t → Alive (answer_quick_start s t)
answer_quick_start-Alive s t mode =
    if-cases Alive (text_eq t single_text)
      (λ _.
        created-Alive (record s { quick_start_window = false })
          (build_create_room quick_start_room_name (pos 1) true none) quick_start_packet)
      λ a.
        if-cases Alive (text_eq t multi_text) (λ _. search or-true)
          λ b. if-cases Alive (text_eq t cancel_text) (λ _. refl) λ c. absurd (ground arith)

answer_exit-Alive : (s : LobbyState) (t : Text) → IsAlive s → Alive (answer_exit s t)
answer_exit-Alive s t h =
    if-both Alive (text_eq t quit_game_text) (left s build_disconnect_pkt h)
      (if-both Alive (text_eq t continue_text) refl h)

answer_setting-Alive : (s : LobbyState) (t : Text) → IsAlive s → Alive (answer_setting s t)
answer_setting-Alive s t h =
    if-both Alive (text_eq t success_text) (saved_window s)
      (if-both Alive (text_eq t cancel_text) refl h)

answer_input-Alive :
    (s : LobbyState) (password t : Text) → IsAlive s → Alive (answer_input s password t)
answer_input-Alive s password t h =
    if-both Alive (text_eq t join_text) (send_then-Alive s _ close_input h (λ _ _. refl)) refl

answer_request-Alive : (s : LobbyState) (t : Text) → IsAlive s → Alive (answer_request s t)
answer_request-Alive s t h =
    if-both Alive (text_eq t accept_text) (send_then-Alive s _ close_request h (λ _ _. refl)) refl

answer_window-Alive :
    (s : LobbyState) (password t : Text)
    → IsAnswer s (some t)
    → IsAlive s
    → Alive (answer_window s password t)
unfolding answer_window
answer_window-Alive s password t answers h =
    if-cases Alive s.error_popup (λ _. refl)
      λ no_error.
        if-cases Alive s.quick_start_window (λ q. answer_quick_start-Alive s t (answers no_error q))
          λ _. if-both Alive s.fast_matching_window refl (
            if-both Alive s.room_create_window
              (if-both Alive (text_eq t make_text || text_eq t cancel_text) refl h)
              (if-both Alive s.exit_popup (answer_exit-Alive s t h) (
                if-both Alive s.setting_window (answer_setting-Alive s t h) (
                  if-both Alive s.save_success_popup (if-both Alive (text_eq t confirm_text) refl h)
                    (if-both Alive s.input_pw_window (answer_input-Alive s password t h) (
                      if-both Alive s.info_popup (if-both Alive (text_eq t confirm_text) refl h)
                        (if-both Alive s.friend_request_popup (answer_request-Alive s t h) h)))))))

windows-Alive :
    (s : LobbyState) (password : Text) (t : Option Text)
    → IsAnswer s t
    → IsAlive s
    → Alive (handle_windows s password t)
unfolding handle_windows
windows-Alive s password none answers h = h
windows-Alive s password (some t) answers h = answer_window-Alive s password t answers h

handle_event-Alive :
    (s : LobbyState) (a : Answers) → IsAnswer s a.window → IsAlive s → Alive (handle_event s a)
unfolding handle_event handle_windows
handle_event-Alive s a answers h = if-both Alive a.is_quit h (
    if-both Alive s.reactable (handle_lobby-Alive s a a.menu h)
      (windows-Alive s a.password a.window answers h))

answer_users-Alive :
    (s : LobbyState) (o : Option (ℤ × Text) × Tabs) → IsAlive s → Alive (answer_users s o)
answer_users-Alive s (none, tabs) h = h
answer_users-Alive s (some (id, nickname), tabs) h = last_window s tabs id

show_error-Alive : (s : LobbyState) (e : Option ErrorType) → IsAlive s → Alive (show_error s e)
show_error-Alive s none h = h
show_error-Alive s (some e) h = refl

handle_lobby_packet-Alive :
    (s : LobbyState) (p : LobbyPacket) → IsAlive s → Alive (handle_lobby_packet s p)
unfolding handle_lobby_packet enter_room
handle_lobby_packet-Alive s (error_packet code) h = show_error-Alive s (error_type code) h
handle_lobby_packet-Alive s (info_packet n) h = if-both Alive (n == 0) (info_window s) h
handle_lobby_packet-Alive s (user_packet p) h =
    answer_users-Alive s (handle_user_packet s.user_tabs p) h
handle_lobby_packet-Alive s (message_packet user_name message) h = h
handle_lobby_packet-Alive s (room_info key) h = h
handle_lobby_packet-Alive s (add_room max_user) h =
    if-both Alive (eq_ℤ max_user (pos 1)) h
      (if-both Alive (eq_ℤ max_user (pos 2) || eq_ℤ max_user (pos 5)) h h)
handle_lobby_packet-Alive s unused_packet h = h

-- The states of a lobby: events and packets in any order, and after each exception but for the end.
pub data Reaches (s₀ : LobbyState) : LobbyState → Type 0 where
  start : Reaches s₀ s₀
  event :
      {s : LobbyState} (a : Answers)
      → Reaches s₀ s
      → IsAnswer s a.window
      → Reaches s₀ (handle_event s a).1
  packet :
      {s : LobbyState} (p : LobbyPacket) → Reaches s₀ s → Reaches s₀ (handle_lobby_packet s p).1

-- A lobby that starts with its buttons reacting, or with a window open, reacts or has a window open
-- after any events and packets in any order, also after those that raise: it cannot come to a state
-- in which nothing takes an event. The mode window is taken to answer with one of its three texts.
pub Reaches-IsAlive : {s₀ s : LobbyState} → Reaches s₀ s → IsAlive s₀ → IsAlive s
Reaches-IsAlive start h = h
Reaches-IsAlive (event {s} a r answers) h = handle_event-Alive s a answers (Reaches-IsAlive r h)
Reaches-IsAlive (packet {s} p r) h = handle_lobby_packet-Alive s p (Reaches-IsAlive r h)
