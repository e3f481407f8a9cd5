-- ===== src/States/Multi/Examples.antt =====
-- A witness: a room of two, a guest who comes, becomes the host and is announced again, and a frame.
use project_tetris.Base.{true, false, none, [], ◌∷◌, pos, List}
use project_tetris.Game.Board.{Board, new_board}
use project_tetris.Game.Controller.{other_event}
use project_tetris.Game.Session.{Player}
use project_tetris.States.Multi.{
  add_user_packet, update_host_packet, delete_user_packet, set_is_not_my_session,
}
use project_tetris.States.Multi.Events.{RoomEvent, set_layout}
use project_tetris.States.Multi.Seats.{IsSeated}
use project_tetris.States.Multi.Seats.Steps.{RoomStep, packet, frame, run, run-IsSeated}

abbrev board : Board
board = new_board 30 (pos 0) (pos 0)

abbrev self : Player
self = record (set_is_not_my_session (pos 3) (97 ∷ [])) { is_self = true }

-- The ready button of the first player.
abbrev ready_click : RoomEvent
ready_click = record {
  is_quit = false;
  popup = none;
  clicks = record { start = false; ready = true; kick = false } ∷ [];
  key = other_event;
  exit = false;
}

abbrev steps : List RoomStep
steps =
    packet (add_user_packet (pos 5) (98 ∷ []))
    ∷ packet (update_host_packet (pos 5))
    ∷ packet (add_user_packet (pos 5) (98 ∷ []))
    ∷ frame 16 (ready_click ∷ [])
    ∷ packet (delete_user_packet (pos 5))
    ∷ packet (add_user_packet (pos 3) (99 ∷ []))
    ∷ []

run-IsSeated_example : IsSeated (run (set_layout board self 2).1 steps).players
run-IsSeated_example = run-IsSeated board self 2 steps
