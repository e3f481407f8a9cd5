-- ===== src/States/Multi/Seats/Packets.antt =====
-- The packets of a room of client/tetris/states/multi_play_state.py and the ids of its players.
use project_tetris.Base.{ℤ, Bool, Option, none, some, List, if-both, if-cases}
use project_tetris.Python.Exec.{Result, ok, err}
use project_tetris.Python.Utf8.{Text}
use project_tetris.Python.Index.{get_item}
use project_tetris.Game.Session
use project_tetris.Game.Session.{
  TetrisSession, Player, new_session, init_session, set_ready, process_gameover, handle_packet,
}
use project_tetris.Game.Session.Holder.{
  KeepsSeat, handle_packet_seat, set_ready_seat, process_gameover_seat, clear-Keeps,
}
use project_tetris.States.Errors.{error_type, ErrorType}
use project_tetris.States.Multi.{
  MultiPlayState, Outcome, RoomPacket, has_id, own, own_id, is_free, with_players, add_user,
  any_player, on_first, seat, handle_room_packet, error_packet, multi_start_packet,
  update_host_packet, add_user_packet, ready_packet, delete_user_packet, gameover_packet,
  gameend_packet, match_record_packet, game_packet, appointed, appoint, kicks_of, kicks, announce,
  reset_room, winner_nickname, with_record, show_error, set_is_not_my_session,
}
use project_tetris.States.Multi.Seats.{
  IsSeated, KeepsSeats-IsSeated, on_first-KeepsSeats, on_first-IsSeated, seat_holder,
}
use project_tetris.States.Multi.Seats.Kept.{
  held, reset_players-KeepsSeats, start_players-KeepsSeats, make_btn_kicks-KeepsSeats,
  appoint-KeepsSeats, with_record-KeepsSeat,
}

-- No two players of the room have the same id.
abbrev pub IsRoom : MultiPlayState → Type 0
IsRoom m = IsSeated m.players

first-IsSeated :
    (m : MultiPlayState) (test : TetrisSession → Bool) (f : TetrisSession → Session.Outcome)
    → ((s : TetrisSession) → KeepsSeat s (f s).1)
    → IsRoom m
    → IsRoom (with_players m (on_first test f m.players)).1
first-IsSeated m test f k h =
    KeepsSeats-IsSeated m.players _ (on_first-KeepsSeats test f k m.players) h

add_user-IsSeated : (m : MultiPlayState) (p : Player) → IsRoom m → IsRoom (add_user m p).1
unfolding add_user
add_user-IsSeated m p h =
    if-cases (λ (o : Outcome). IsRoom o.1) (any_player (has_id p.id) m.players) (λ _. h)
      (λ e.
        on_first-IsSeated p (seat m.host_index m.players p) (seat_holder m.host_index m.players p)
          is_free m.players e h)

kicks_of-IsSeated : (m : MultiPlayState) (o : Option Player) → IsRoom m → IsRoom (kicks_of m o).1
unfolding kicks_of
kicks_of-IsSeated m none h = h
kicks_of-IsSeated m (some p) h =
    if-both (λ (o : Outcome). IsRoom o.1) p.is_self
      (KeepsSeats-IsSeated m.players _ (make_btn_kicks-KeepsSeats m.host_index 0 m.players) h) h

kicks-IsSeated : (m : MultiPlayState) (r : Result TetrisSession) → IsRoom m → IsRoom (kicks m r).1
unfolding kicks kicks_of
kicks-IsSeated m (ok s) h = kicks_of-IsSeated m s.session h
kicks-IsSeated m (err e) h = h

appointed-IsSeated :
    (m : MultiPlayState) (q : Result (Unit {0}) × List TetrisSession × ℤ)
    → IsSeated q.1
    → IsRoom (appointed m q).1
unfolding appointed kicks kicks_of
appointed-IsSeated m (ok _, ss, host) h =
    kicks-IsSeated (record m { players = ss; host_index = host }) (get_item ss host) h
appointed-IsSeated m (err e, ss, host) h = h

announce-IsSeated : (name : Text) (o : Outcome) → IsRoom o.1 → IsRoom (announce name o).1
announce-IsSeated name (ok _, m) h = h
announce-IsSeated name (err e, m) h = h

show_error-IsSeated :
    (m : MultiPlayState) (e : Option ErrorType) → IsRoom m → IsRoom (show_error m e).1
show_error-IsSeated m none h = h
show_error-IsSeated m (some e) h = h

reset_room-IsSeated : (m : MultiPlayState) → IsRoom m → IsRoom (reset_room m).1
unfolding reset_room
reset_room-IsSeated m h = KeepsSeats-IsSeated m.players _ (reset_players-KeepsSeats m.players) h

pub handle_room_packet-IsSeated :
    (m : MultiPlayState) (p : RoomPacket) → IsRoom m → IsRoom (handle_room_packet m p).1
unfolding handle_room_packet
handle_room_packet-IsSeated m (error_packet code) h = show_error-IsSeated m (error_type code) h
handle_room_packet-IsSeated m multi_start_packet h =
    KeepsSeats-IsSeated m.players _ (start_players-KeepsSeats m.players) h
handle_room_packet-IsSeated m (update_host_packet id) h =
    appointed-IsSeated m (appoint id m.host_index 0 m.players)
      (KeepsSeats-IsSeated m.players _ (appoint-KeepsSeats id m.host_index 0 m.players) h)
handle_room_packet-IsSeated m (add_user_packet id name) h =
    add_user-IsSeated m (set_is_not_my_session id name) h
handle_room_packet-IsSeated m (ready_packet id is_ready) h =
    first-IsSeated m (has_id id) (λ s. set_ready s is_ready)
      (λ s. held s (set_ready s is_ready).1 (set_ready_seat s is_ready)) h
handle_room_packet-IsSeated m (delete_user_packet id) h =
    if-both (λ (o : Outcome). IsRoom o.1) (own_id id m.players) h
      (first-IsSeated m (has_id id) Session.clear clear-Keeps h)
handle_room_packet-IsSeated m (gameover_packet id) h =
    first-IsSeated m (has_id id) process_gameover
      (λ s. held s (process_gameover s).1 (process_gameover_seat s)) h
handle_room_packet-IsSeated m (gameend_packet id) h =
    announce-IsSeated (winner_nickname id m.players) (reset_room m) (reset_room-IsSeated m h)
handle_room_packet-IsSeated m (match_record_packet win lose) h =
    first-IsSeated m (λ s. own s.session) (with_record win lose) (with_record-KeepsSeat win lose) h
handle_room_packet-IsSeated m (game_packet id packet) h =
    first-IsSeated m (has_id id) (λ s. handle_packet s packet)
      (λ s. held s (handle_packet s packet).1 (handle_packet_seat s packet)) h
