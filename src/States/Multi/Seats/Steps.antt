-- ===== src/States/Multi/Seats/Steps.antt =====
-- A room from its first moment on, through the packets that reach it and the frames that it runs.
use project_tetris.Base.{
  ℕ, ◌≡◌, refl, Bool, true, false, Option, none, some, List, [], ◌∷◌, All, replicate, zero, suc, ap,
  if-both, ◌==◌,
}
use mathlib.Core.Path.{subst, sym}
use project_tetris.Net.Builder.{build_delete_user_pkt}
use project_tetris.Python.Exec.{Result, ok, err}
use project_tetris.Python.Struct.{Bytes}
use project_tetris.Python.Utf8.{Text}
use project_tetris.Game.Board.{Board, MoveType}
use project_tetris.Game.Session
use project_tetris.Game.Session.{
  TetrisSession, Player, new_session, init_session, set_ready, process_gameover, handle_packet,
}
use project_tetris.States.Errors.{ErrorType}
use project_tetris.States.Multi.{
  MultiPlayState, Outcome, Players, RoomPacket, sits, handle_room_packet,
}
use project_tetris.States.Multi.Events.{
  RoomEvent, Sent, begun, confirms, close_popup, leave, after_packets, framed, faded, set_layout,
  answer_popup, handle_event, room_event, room_events, update, update_players,
}
use project_tetris.States.Multi.Seats.{IsSeated, OtherThan, KeepsSeats-IsSeated}
use project_tetris.States.Multi.Seats.Kept.{ask_players-KeepsSeats, update_players-KeepsSeats}
use project_tetris.States.Multi.Seats.Packets.{IsRoom, handle_room_packet-IsSeated}

same_players-IsRoom : (m m' : MultiPlayState) → m'.players ≡ m.players → IsRoom m → IsRoom m'
same_players-IsRoom m m' e h = subst IsSeated (sym e) h

answer_popup_players :
    (m : MultiPlayState) (answer : Option Text) → (answer_popup m answer).players ≡ m.players
unfolding answer_popup
answer_popup_players m answer =
    if-both Same m.reactable refl (closed (confirms answer) m.error_popup m.winner_popup)
  where
    Same : MultiPlayState → Type 0
    Same m' = m'.players ≡ m.players

    closed :
        (closes : Bool) (e : Option ErrorType) (winner : Option Text)
        → (close_popup m closes e winner).players ≡ m.players
    closed true (some e) winner = refl
    closed false (some e) winner = refl
    closed true none (some name) = refl
    closed false none (some name) = refl
    closed closes none none = refl

handle_event-IsSeated :
    (m : MultiPlayState) (ev : RoomEvent) → IsRoom m → IsRoom (handle_event m ev).0.1
unfolding handle_event
handle_event-IsSeated m ev h =
    let m' = answer_popup m ev.popup in
    KeepsSeats-IsSeated m'.players _ (ask_players-KeepsSeats m'.players ev.clicks ev.key)
      (same_players-IsRoom m m' (answer_popup_players m ev.popup) h)

leave-IsSeated :
    (q : Sent) (exit : Bool) (packet : Result Bytes)
    → IsRoom q.0.1
    → IsRoom (leave q exit packet).0.1
leave-IsSeated ((err e, m), packets) exit packet h = h
leave-IsSeated ((ok _, m), packets) false packet h = h
leave-IsSeated ((ok _, m), packets) true (ok packet) h = h
leave-IsSeated ((ok _, m), packets) true (err e) h = h

room_event-IsSeated :
    (m : MultiPlayState) (ev : RoomEvent) → IsRoom m → IsRoom (room_event m ev).0.1
unfolding room_event
room_event-IsSeated m ev h =
    if-both (λ (q : Sent). IsRoom q.0.1) ev.is_quit h
      (leave-IsSeated (handle_event m ev) ev.exit build_delete_user_pkt
        (handle_event-IsSeated m ev h))

room_events-IsSeated :
    (m : MultiPlayState) (evs : List RoomEvent) → IsRoom m → IsRoom (room_events m evs).0.1
unfolding room_events
room_events-IsSeated m [] h = h
room_events-IsSeated m (ev ∷ evs) h =
    ended (room_event m ev) (room_event-IsSeated m ev h)
      (room_events-IsSeated (room_event m ev).0.1 evs (room_event-IsSeated m ev h))
  where
    ended :
        (q : Sent)
        → IsRoom q.0.1
        → IsRoom (room_events q.0.1 evs).0.1
        → IsRoom
            (elim q.0.0 as (λ _. Sent) [
              | ok _ ↦ after_packets q.1 (room_events q.0.1 evs)
              | err e ↦ ((err e, q.0.1), q.1)
            ]).0.1
    ended ((ok _, m'), packets) k later = later
    ended ((err e, m'), packets) k later = k

faded-IsSeated :
    (m : MultiPlayState) (dt_ms : ℕ) (packets : List Bytes) (q : Players × List MoveType)
    → IsSeated q.0.1
    → IsRoom (faded m dt_ms packets q).room
unfolding faded
faded-IsSeated m dt_ms packets ((ok _, ss), moves) h = h
faded-IsSeated m dt_ms packets ((err e, ss), moves) h = h

framed-IsSeated : (dt_ms : ℕ) (q : Sent) → IsRoom q.0.1 → IsRoom (framed dt_ms q).room
unfolding framed
framed-IsSeated dt_ms ((ok _, m), packets) h =
    faded-IsSeated m dt_ms packets (update_players m.players dt_ms)
      (KeepsSeats-IsSeated m.players _ (update_players-KeepsSeats m.players dt_ms) h)
framed-IsSeated dt_ms ((err e, m), packets) h = h

update-IsSeated :
    (m : MultiPlayState) (dt_ms : ℕ) (evs : List RoomEvent)
    → IsRoom m
    → IsRoom (update m dt_ms evs).room
unfolding update
update-IsSeated m dt_ms evs h =
    framed-IsSeated dt_ms (room_events m evs) (room_events-IsSeated m evs h)

-- A packet for the room, or a frame of it.
pub data RoomStep : Type 0 where
  packet : RoomPacket → RoomStep
  frame : ℕ → List RoomEvent → RoomStep

unfoldable pub step : MultiPlayState → RoomStep → MultiPlayState
unfolding handle_room_packet update
step m (packet p) = (handle_room_packet m p).1
step m (frame dt_ms evs) = (update m dt_ms evs).room

unfoldable pub run : MultiPlayState → List RoomStep → MultiPlayState
unfolding step
run m [] = m
run m (x ∷ xs) = run (step m x) xs

step-IsSeated : (m : MultiPlayState) (x : RoomStep) → IsRoom m → IsRoom (step m x)
unfolding step
step-IsSeated m (packet p) h = handle_room_packet-IsSeated m p h
step-IsSeated m (frame dt_ms evs) h = update-IsSeated m dt_ms evs h

run_seated : (m : MultiPlayState) (xs : List RoomStep) → IsRoom m → IsRoom (run m xs)
unfolding run
run_seated m [] h = h
run_seated m (x ∷ xs) h = run_seated (step m x) xs (step-IsSeated m x h)

begun-IsSeated :
    (others : List TetrisSession) (o : Session.Outcome)
    → IsSeated (o.1 ∷ others)
    → IsRoom (begun others o).1
begun-IsSeated others (ok _, s) h = h
begun-IsSeated others (err e, s) h = tt

-- Free sessions are apart from any seat.
all_free :
    (o : Option Player) (n : ℕ) (free : TetrisSession)
    → free.session ≡ none
    → All (OtherThan o) (replicate n free)
all_free o zero free e = tt
all_free none (suc n) free e = (tt, all_free none n free e)
all_free (some p) (suc n) free e = (ap (sits p.id) e, all_free (some p) n free e)

others_free :
    (s : TetrisSession) (n : ℕ) (free : TetrisSession)
    → free.session ≡ none
    → IsSeated (s ∷ replicate n free)
others_free s zero free e = (tt, tt)
others_free s (suc n) free e = (all_free s.session (suc n) free e, others_free free n free e)

set_layout-IsSeated :
    (board : Board) (self : Player) (max_player : ℕ) → IsRoom (set_layout board self max_player).1
unfolding set_layout new_session
set_layout-IsSeated board self max_player =
    let free = new_session false board in
    let own = init_session free self in
    if-both (λ (o : Outcome). IsRoom o.1) (max_player == 2)
      (begun-IsSeated (free ∷ []) own (others_free own.1 1 free refl))
      (if-both (λ (o : Outcome). IsRoom o.1) (max_player == 5)
        (begun-IsSeated (free ∷ free ∷ free ∷ free ∷ []) own (others_free own.1 4 free refl)) tt)

-- No two players of a room have the same id, whatever packets reach it and whatever happens in its
-- frames.
pub run-IsSeated :
    (board : Board) (self : Player) (max_player : ℕ) (xs : List RoomStep)
    → IsSeated (run (set_layout board self max_player).1 xs).players
run-IsSeated board self max_player xs =
    run_seated (set_layout board self max_player).1 xs (set_layout-IsSeated board self max_player)
