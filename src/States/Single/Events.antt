-- ===== src/States/Single/Events.antt =====
-- The events and the frames of client/tetris/states/single_play_state.py, and how the room begins.
use project_tetris.Base.{ℕ, Bool, true, false, ◌&&◌, Option, some, List, [], ◌∷◌, ◌++◌}
use project_tetris.Python.Exec.{Result, ok, err}
use project_tetris.Python.Struct.{Bytes}
use project_tetris.Net.Builder.{build_start_pkt, build_delete_user_pkt, build_giveup_pkt}
use project_tetris.Game.Board.{Board, MoveType}
use project_tetris.Game.Controller.{KeyEvent}
use project_tetris.Game.Session
use project_tetris.Game.Session.{
  TetrisSession, Player, SessionState, play, new_session, init_session,
}
use project_tetris.Game.Session.Events
use project_tetris.Game.Session.Events.{Clicks, Request, ask_start}
use project_tetris.States.Fade.{StateName, new_base_state}
use project_tetris.States.Single.{SinglePlayState, Outcome, update}

abbrev with_own : Session.Outcome → Outcome
with_own (r, s) = (r, record { base = new_base_state; tetris_session = s })

unfoldable pub set_layout : Board → Player → Outcome
unfolding new_session init_session
set_layout board self = with_own (init_session (new_session true board) self)

-- The clicks on the session's buttons, and whether the mouse releases the exit button or the button to
-- give up.
pub record SingleEvent : Type 0 where
  pub clicks : Clicks
  pub key : KeyEvent
  pub exit : Bool
  pub giveup : Bool

-- `send_packet(build...)` after some packets, if the test holds.
abbrev pub also :
    Bool → Result Bytes → Result (Unit {0}) × List Bytes → Result (Unit {0}) × List Bytes
also test packet (err e, packets) = (err e, packets)
also false packet (ok _, packets) = (ok tt, packets)
also true (ok packet) (ok _, packets) = (ok tt, packets ++ (packet ∷ []))
also true (err e) (ok _, packets) = (err e, packets)

abbrev pub starts : Option Request → Bool
starts (some ask_start) = true
starts _ = false

abbrev pub in_play : SessionState → Bool
in_play play = true
in_play _ = false

-- The start button, the exit button and, in a game, the button to give up.
unfoldable pub handle_event :
    SinglePlayState → SingleEvent → (Result (Unit {0}) × List Bytes) × SinglePlayState
unfolding Events.handle_event build_start_pkt build_delete_user_pkt build_giveup_pkt
handle_event m ev =
    let (s, answer) = Events.handle_event m.tetris_session ev.clicks ev.key in
    (
      also (in_play s.state && ev.giveup) build_giveup_pkt
          (also ev.exit build_delete_user_pkt (also (starts answer) build_start_pkt (ok tt, []))),
      record m { tetris_session = s },
    )

-- The loop over the events of a frame.
unfoldable pub handle_events :
    SinglePlayState → List SingleEvent → (Result (Unit {0}) × List Bytes) × SinglePlayState
unfolding handle_event
handle_events m [] = ((ok tt, []), m)
handle_events m (ev ∷ evs) =
    let ((r, packets), m') = handle_event m ev in
    let ((r', packets'), m'') = handle_events m' evs in
    elim r [ ok _ ↦ ((r', packets ++ packets'), m'') | err e ↦ ((err e, packets), m') ]

-- How a frame ended, the state that it leads to, and what it sent.
pub record SingleFrame : Type 0 where
  pub next : Result (Option StateName)
  pub room : SinglePlayState
  pub packets : List Bytes
  pub moves : List MoveType

abbrev framed : ℕ → (Result (Unit {0}) × List Bytes) × SinglePlayState → SingleFrame
unfolding update
framed dt_ms ((err e, packets), m) = record {
  next = err e;
  room = m;
  packets = packets;
  moves = [];
}
framed dt_ms ((ok _, packets), m) =
    let ((next, m'), moves) = update m dt_ms in
    record { next = next; room = m'; packets = packets; moves = moves }

unfoldable pub run_frame : SinglePlayState → ℕ → List SingleEvent → SingleFrame
unfolding handle_events framed
run_frame m dt_ms events = framed dt_ms (handle_events m events)
