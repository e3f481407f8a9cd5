-- ===== src/States/Lobby/Closing.antt =====
-- What is left open under an error of the lobby.
use project_tetris.Base.{ℕ, ◌≡◌, refl, Bool, true, false, some, List, [], ◌∷◌}
use project_tetris.Python.Utf8.{Text}
use project_tetris.States.Errors.{ErrorType, error_type}
use project_tetris.States.Lobby.{LobbyState, Answers, handle_lobby}
use project_tetris.States.Lobby.Windows.{
  answer_window, handle_windows, handle_event, handle_lobby_packet, error_packet,
}

-- The windows of a lobby but the error popup.
abbrev pub windows : LobbyState → List Bool
windows s =
    s.quick_start_window ∷ s.fast_matching_window ∷ s.room_create_window ∷ s.exit_popup
    ∷ s.setting_window ∷ s.save_success_popup ∷ s.input_pw_window ∷ s.info_popup
    ∷ s.friend_request_popup ∷ []

-- After an error packet that comes while windows are open, and the answer that closes its popup, the
-- lobby itself reacts, although the windows are still open: none of them is asked before the lobby
-- stops reacting again.
pub error_uncovers :
    (s : LobbyState) (code : ℕ) (e : ErrorType) (a : Answers) (t : Text)
    → error_type code ≡ some e
    → a.is_quit ≡ false
    → a.window ≡ some t
    → let s' = (handle_event (handle_lobby_packet s (error_packet code)).1 a).1 in
      (s'.reactable ≡ true)
      × (windows s' ≡ windows s)
      × ((b : Answers) → b.is_quit ≡ false → handle_event s' b ≡ handle_lobby s' b b.menu)
unfolding handle_event handle_windows handle_lobby_packet answer_window
error_uncovers s code e a t known no_quit answer =
    rw (known, no_quit, answer) (refl, refl, λ b no_quit_b. rw no_quit_b refl)
