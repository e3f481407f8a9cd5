-- ===== src/States/Lobby/Windows.antt =====
-- client/tetris/states/lobby_state.py: the windows while the lobby itself does not react, the whole of
-- handle_event, and the packets.
use project_tetris.Base.{List}
use project_tetris.Python.Exec.{Result, ok}
use project_tetris.Base.{
  ℕ, true, false, ◌||◌, Option, none, some, [], ◌∷◌, ◌++◌, if◌then◌else◌, ◌==◌, ℤ, pos, eq_ℤ,
}
use project_tetris.Python.Exec.{err, key_error, system_exit}
use project_tetris.Python.Utf8.{Text}
use project_tetris.Python.Chars.{text_eq}
use project_tetris.Net.Builder.{
  build_create_room, build_disconnect_pkt, build_join_room_pkt, build_accept_friend_pkt,
}
use project_tetris.States.Errors.{ErrorType, error_type}
use project_tetris.States.Fade.{
  StateName, consume_state, update_fade, single_play, multi_play, queue_state,
}
use project_tetris.Ui.Texts.{
  confirm_text, quit_game_text, continue_text, accept_text, join_text, cancel_text, success_text,
  make_text, quick_start_room_name, single_text, multi_text,
}
use project_tetris.Ui.UserList.{UserPacket, handle_user_packet, Tabs}
use project_tetris.States.Lobby.{
  LobbyState, Answers, Outcome, done, and_then, send, with_number, react, handle_lobby,
}

-- `if popup.handle_event(ev):` is true of every text of a button.
abbrev pub close_error : LobbyState → Outcome
close_error s = done (react (record s { error_popup = false }))

abbrev pub answer_quick_start : LobbyState → Text → Outcome
answer_quick_start s t =
    let s' : LobbyState = record s { quick_start_window = false } in
    if text_eq t single_text
    then and_then (send s' (build_create_room quick_start_room_name (pos 1) true none))
        (λ s''. done (react s''))
    else if text_eq t multi_text
    then done (record s' { fast_matching_window = true })
    else if text_eq t cancel_text
    then done (react s')
    else done s'

abbrev pub answer_room_create : LobbyState → Text → Outcome
answer_room_create s t =
    if text_eq t make_text || text_eq t cancel_text
    then done (react (record s { room_create_window = false }))
    else done s

abbrev pub answer_exit : LobbyState → Text → Outcome
answer_exit s t =
    if text_eq t quit_game_text
    then and_then (send s build_disconnect_pkt) (λ s'. (err system_exit, s'))
    else if text_eq t continue_text
    then done (react (record s { exit_popup = false }))
    else done s

abbrev pub answer_setting : LobbyState → Text → Outcome
answer_setting s t =
    if text_eq t success_text
    then done (record s { save_success_popup = true; setting_window = false })
    else if text_eq t cancel_text
    then done (react (record s { setting_window = false }))
    else done s

abbrev pub answer_saved : LobbyState → Text → Outcome
answer_saved s t =
    if text_eq t confirm_text
    then done (react (record s { save_success_popup = false }))
    else done s

abbrev pub close_input : LobbyState → LobbyState
close_input s = react (record s { input_pw_window = false; join_room_key = none })

abbrev pub answer_input : LobbyState → Text → Text → Outcome
answer_input s password t =
    if text_eq t join_text
    then and_then
        (send s (with_number s.join_room_key (λ key. build_join_room_pkt key (some password))))
        (λ s'. done (close_input s'))
    else done (close_input s)

abbrev pub answer_info : LobbyState → Text → Outcome
answer_info s t =
    if text_eq t confirm_text then done (react (record s { info_popup = false })) else done s

abbrev pub close_request : LobbyState → LobbyState
close_request s = react (record s { friend_request_popup = false; friend_requester_id = none })

abbrev pub answer_request : LobbyState → Text → Outcome
answer_request s t =
    if text_eq t accept_text
    then and_then (send s (with_number s.friend_requester_id build_accept_friend_pkt))
        (λ s'. done (close_request s'))
    else done (close_request s)

-- The first window that is open sees the event.
unfoldable pub answer_window : LobbyState → Text → Text → Outcome
answer_window s password t =
    if s.error_popup
    then close_error s
    else if s.quick_start_window
    then answer_quick_start s t
    else if s.fast_matching_window
    then done (react (record s { fast_matching_window = false }))
    else if s.room_create_window
    then answer_room_create s t
    else if s.exit_popup
    then answer_exit s t
    else if s.setting_window
    then answer_setting s t
    else if s.save_success_popup
    then answer_saved s t
    else if s.input_pw_window
    then answer_input s password t
    else if s.info_popup
    then answer_info s t
    else if s.friend_request_popup
    then answer_request s t
    else done s

unfoldable pub handle_windows : LobbyState → Text → Option Text → Outcome
unfolding answer_window
handle_windows s password none = done s
handle_windows s password (some t) = answer_window s password t

unfoldable pub handle_event : LobbyState → Answers → Outcome
unfolding handle_lobby handle_windows
handle_event s a =
    if a.is_quit
    then (err system_exit, s)
    else if s.reactable
    then handle_lobby s a a.menu
    else handle_windows s a.password a.window

-- The packets of the lobby. An open room and a locked one differ in the password alone.
pub data LobbyPacket : Type 0 where
  error_packet info_packet : ℕ → LobbyPacket
  user_packet : UserPacket → LobbyPacket
  message_packet : Text → Text → LobbyPacket
  -- the key of a room in the list, and the players of a room that the player enters
  room_info add_room : ℤ → LobbyPacket
  unused_packet : LobbyPacket

abbrev pub show_error : LobbyState → Option ErrorType → Outcome
show_error s none = (err key_error, s)
show_error s (some e) = done (record s { error_popup = true; reactable = false })

abbrev pub answer_users : LobbyState → Option (ℤ × Text) × Tabs → Outcome
answer_users s (none, tabs) = done (record s { user_tabs = tabs })
answer_users s (some (id, nickname), tabs) = done (record s {
  user_tabs = tabs;
  friend_requester_id = some id;
  friend_request_popup = true;
  reactable = false;
})

unfoldable pub enter_room : LobbyState → ℤ → Outcome
unfolding queue_state
enter_room s max_user =
    if eq_ℤ max_user (pos 1)
    then done (record s { base = queue_state s.base single_play })
    else if eq_ℤ max_user (pos 2) || eq_ℤ max_user (pos 5)
    then done (record s { base = queue_state s.base multi_play })
    else done s

-- The only number of INFO_MESSAGES is 0.
unfoldable pub handle_lobby_packet : LobbyState → LobbyPacket → Outcome
unfolding handle_user_packet enter_room error_type
handle_lobby_packet s (error_packet code) = show_error s (error_type code)
handle_lobby_packet s (info_packet info_type) =
    if info_type == 0
    then done (record s { info_popup = true; reactable = false })
    else (err key_error, s)
handle_lobby_packet s (user_packet p) = answer_users s (handle_user_packet s.user_tabs p)
handle_lobby_packet s (message_packet user_name message) =
    done (record s { messages = s.messages ++ ((user_name, message) ∷ []) })
handle_lobby_packet s (room_info key) = done (record s { rooms = s.rooms ++ (key ∷ []) })
handle_lobby_packet s (add_room max_user) = enter_room s max_user
handle_lobby_packet s unused_packet = done s

-- An exception ends the loop over the events of a frame.
abbrev go_on : Outcome → Outcome → Outcome
go_on (ok _, s) rest = rest
go_on (err e, s) rest = (err e, s)

unfoldable pub handle_lobby_events : LobbyState → List Answers → Outcome
unfolding handle_event
handle_lobby_events s [] = (ok tt, s)
handle_lobby_events s (a ∷ rest) =
    let o = handle_event s a in go_on o (handle_lobby_events o.1 rest)

abbrev finish_frame : ℕ → Outcome → Result (Option StateName) × LobbyState
finish_frame dt_ms (err e, s) = (err e, s)
finish_frame dt_ms (ok _, s) =
    let (next, base) = consume_state (update_fade s.base dt_ms) in
    (ok next, record s { base = base })

unfoldable pub update : LobbyState → ℕ → List Answers → Result (Option StateName) × LobbyState
unfolding handle_lobby_events
update s dt_ms events = finish_frame dt_ms (handle_lobby_events s events)
