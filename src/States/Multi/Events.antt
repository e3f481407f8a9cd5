-- ===== src/States/Multi/Events.antt =====
-- The events and the frames of client/tetris/states/multi_play_state.py, and how a room begins.
use project_tetris.Base.{
  ℕ, negsuc, Bool, true, false, Option, none, some, List, [], ◌∷◌, ◌++◌, if◌then◌else◌, ◌==◌,
}
use project_tetris.Python.Exec.{Result, ok, err, attribute_error}
use project_tetris.Python.Struct.{Bytes}
use project_tetris.Python.Utf8.{Text}
use project_tetris.Python.Chars.{text_eq}
use project_tetris.Net.Builder.{
  build_start_pkt, build_ready_pkt, build_kick_pkt, build_delete_user_pkt,
}
use project_tetris.Game.Board.{Board, MoveType}
use project_tetris.Game.Controller.{KeyEvent}
use project_tetris.Game.Session
use project_tetris.Game.Session.{TetrisSession, Player, new_session, init_session}
use project_tetris.Game.Session.Events
use project_tetris.Game.Session.Events.{Clicks, Request, ask_start, ask_ready, ask_kick}
use project_tetris.States.Fade.{StateName, new_base_state, update_fade, consume_state}
use project_tetris.States.Errors.{ErrorType}
use project_tetris.States.Multi.{MultiPlayState, Outcome, Players, room_wait}
use project_tetris.Ui.Texts.{confirm_text}

-- The players' sessions, the first of which is one's own.
abbrev pub room_of : List TetrisSession → MultiPlayState
room_of players = record {
  base = new_base_state;
  players = players;
  room_state = room_wait;
  error_popup = none;
  winner_popup = none;
  reactable = true;
  host_index = negsuc 0;
}

abbrev pub begun : List TetrisSession → Session.Outcome → Outcome
begun others (ok _, s) = (ok tt, room_of (s ∷ others))
begun others (err e, s) = (err e, room_of [])

-- A room of two has one other session, a room of five has four, and no other has any.
unfoldable pub set_layout : Board → Player → ℕ → Outcome
unfolding new_session init_session
set_layout board self max_player =
    let other = new_session false board in
    let own = init_session (new_session false board) self in
    if max_player == 2
    then begun (other ∷ []) own
    else if max_player == 5
    then begun (other ∷ other ∷ other ∷ other ∷ []) own
    else (ok tt, room_of [])

-- What the mouse does in a frame: the answer of the popup that is open, the clicks on each player's
-- buttons, the first player's first, and whether it releases the exit button.
pub record RoomEvent : Type 0 where
  pub is_quit : Bool
  pub popup : Option Text
  pub clicks : List Clicks
  pub key : KeyEvent
  pub exit : Bool

abbrev pub confirms : Option Text → Bool
confirms none = false
confirms (some text) = text_eq text confirm_text

abbrev pub close_popup : MultiPlayState → Bool → Option ErrorType → Option Text → MultiPlayState
close_popup m closes (some e) winner =
    if closes then record m { error_popup = none; reactable = true } else m
close_popup m closes none (some name) =
    if closes then record m { winner_popup = none; reactable = true } else m
close_popup m closes none none = m

-- The popup of an error comes before that of a winner.
unfoldable pub answer_popup : MultiPlayState → Option Text → MultiPlayState
answer_popup m answer =
    if m.reactable then m else close_popup m (confirms answer) m.error_popup m.winner_popup

-- `build_kick_pkt(player.session.id)` and the others
unfoldable pub request_packet : Option Player → Request → Result Bytes
unfolding build_start_pkt build_ready_pkt build_kick_pkt
request_packet p ask_start = build_start_pkt
request_packet p ask_ready = build_ready_pkt
request_packet none ask_kick = err attribute_error
request_packet (some p) ask_kick = build_kick_pkt p.id

-- The players after the events, with the packets that were sent.
abbrev pub Asked : Type 0
Asked = Result (Unit {0}) × List TetrisSession × List Bytes

abbrev pub sent_first : TetrisSession → List TetrisSession → Asked → Result Bytes → Asked
sent_first s ss (r, ss', packets) (ok packet) = (r, s ∷ ss', packet ∷ packets)
sent_first s ss rest (err e) = (err e, s ∷ ss, [])

unfoldable pub asked_first : List TetrisSession → Asked → TetrisSession × Option Request → Asked
unfolding request_packet
asked_first ss (r, ss', packets) (s, none) = (r, s ∷ ss', packets)
asked_first ss rest (s, some q) = sent_first s ss rest (request_packet s.session q)

abbrev pub no_clicks : Clicks
no_clicks = record { start = false; ready = false; kick = false }

abbrev pub first_clicks : List Clicks → Clicks
first_clicks [] = no_clicks
first_clicks (c ∷ cs) = c

abbrev pub later_clicks : List Clicks → List Clicks
later_clicks [] = []
later_clicks (c ∷ cs) = cs

-- The loop over the players; an exception ends it.
unfoldable pub ask_players : List TetrisSession → List Clicks → KeyEvent → Asked
unfolding asked_first Events.handle_event
ask_players [] cs ev = (ok tt, [], [])
ask_players (s ∷ ss) cs ev =
    asked_first ss (ask_players ss (later_clicks cs) ev)
      (Events.handle_event s (first_clicks cs) ev)

-- The room after the events, with the packets that were sent.
abbrev pub Sent : Type 0
Sent = Outcome × List Bytes

abbrev pub with_asked : MultiPlayState → Asked → Sent
with_asked m (r, ss, packets) = ((r, record m { players = ss }), packets)

unfoldable pub handle_event : MultiPlayState → RoomEvent → Sent
unfolding answer_popup ask_players
handle_event m ev =
    let m' = answer_popup m ev.popup in with_asked m' (ask_players m'.players ev.clicks ev.key)

-- An event of a frame: nothing for QUIT; the exit button comes last.
abbrev pub leave : Sent → Bool → Result Bytes → Sent
leave ((err e, m), packets) exit packet = ((err e, m), packets)
leave ((ok _, m), packets) false packet = ((ok tt, m), packets)
leave ((ok _, m), packets) true (ok packet) = ((ok tt, m), packets ++ (packet ∷ []))
leave ((ok _, m), packets) true (err e) = ((err e, m), packets)

unfoldable pub room_event : MultiPlayState → RoomEvent → Sent
unfolding handle_event build_delete_user_pkt
room_event m ev =
    if ev.is_quit then ((ok tt, m), []) else leave (handle_event m ev) ev.exit build_delete_user_pkt

abbrev pub after_packets : List Bytes → Sent → Sent
after_packets packets (o, later) = (o, packets ++ later)

-- The loop over the events of a frame.
unfoldable pub room_events : MultiPlayState → List RoomEvent → Sent
unfolding room_event
room_events m [] = ((ok tt, m), [])
room_events m (ev ∷ evs) =
    let ((r, m'), packets) = room_event m ev in
    let rest = room_events m' evs in
    elim r [ ok _ ↦ after_packets packets rest | err e ↦ ((err e, m'), packets) ]

-- The moves that the controllers send in a frame.
unfoldable pub update_players : List TetrisSession → ℕ → Players × List MoveType
unfolding Session.update
update_players [] dt_ms = ((ok tt, []), [])
update_players (s ∷ ss) dt_ms =
    let ((r, s'), moves) = Session.update s dt_ms in
    let ((r', ss'), moves') = update_players ss dt_ms in
    elim r [ ok _ ↦ ((r', s' ∷ ss'), moves ++ moves') | err e ↦ ((err e, s' ∷ ss), moves) ]

-- How a frame ended, the state that it leads to, and what it sent.
pub record Frame : Type 0 where
  pub next : Result (Option StateName)
  pub room : MultiPlayState
  pub packets : List Bytes
  pub moves : List MoveType

unfoldable pub faded : MultiPlayState → ℕ → List Bytes → Players × List MoveType → Frame
faded m dt_ms packets ((err e, ss), moves) = record {
  next = err e;
  room = record m { players = ss };
  packets = packets;
  moves = moves;
}
faded m dt_ms packets ((ok _, ss), moves) =
    let (next, base) = consume_state (update_fade m.base dt_ms) in
    record {
      next = ok next;
      room = record m { players = ss; base = base };
      packets = packets;
      moves = moves;
    }

unfoldable pub framed : ℕ → Sent → Frame
unfolding update_players faded
framed dt_ms ((err e, m), packets) = record {
  next = err e;
  room = m;
  packets = packets;
  moves = [];
}
framed dt_ms ((ok _, m), packets) = faded m dt_ms packets (update_players m.players dt_ms)

unfoldable pub update : MultiPlayState → ℕ → List RoomEvent → Frame
unfolding room_events framed
update m dt_ms events = framed dt_ms (room_events m events)
