-- ===== src/Game/Session/Events.antt =====
-- `handle_event` of client/tetris/game/tetris_session.py: the keys of a game, and the buttons before it.
-- Where the mouse meets a button is given with the event.
use project_tetris.Base.{Bool, true, false, ◌&&◌, Option, none, some, if◌then◌else◌}
use project_tetris.Game.Controller
use project_tetris.Game.Controller.{Controller, KeyEvent}
use project_tetris.Game.Session.{TetrisSession, ReadyButton, SessionState, Player, play}

-- The event releases the start button or the kick button, or presses the mouse on the ready button.
pub record Clicks : Type 0 where
  pub start : Bool
  pub ready : Bool
  pub kick : Bool

-- The answers "start", "ready" and "kick".
pub data Request : Type 0 where
  ask_start ask_ready ask_kick : Request

-- A ready button that does not react answers None.
abbrev pub press_ready : TetrisSession → Bool → Option ReadyButton → TetrisSession × Bool
press_ready s hit none = (s, false)
press_ready s hit (some btn) =
    if btn.reactable && hit
    then (record s { btn_ready = some (record btn { pressed = true }) }, true)
    else (s, false)

abbrev pub ask_kick_last : Bool → TetrisSession × Bool → TetrisSession × Option Request
ask_kick_last kick (s, true) = (s, some ask_ready)
ask_kick_last kick (s, false) = if s.btn_kick && kick then (s, some ask_kick) else (s, none)

-- The start button, the ready button and the kick button, in this order.
unfoldable pub ask_buttons : TetrisSession → Clicks → TetrisSession × Option Request
ask_buttons s c =
    if s.btn_start && c.start
    then (s, some ask_start)
    else ask_kick_last c.kick (press_ready s c.ready s.btn_ready)

abbrev steer : KeyEvent → Option Controller → Option Controller
unfolding Controller.handle_event
steer ev none = none
steer ev (some c) = some (Controller.handle_event c ev)

abbrev pub taken : TetrisSession → Clicks → KeyEvent → SessionState → TetrisSession × Option Request
unfolding ask_buttons steer
taken s c ev play = (record s { controller = steer ev s.controller }, none)
taken s c ev _ = ask_buttons s c

abbrev pub of_player :
    TetrisSession → Clicks → KeyEvent → Option Player → TetrisSession × Option Request
unfolding taken
of_player s c ev none = (s, none)
of_player s c ev (some p) = taken s c ev s.state

unfoldable pub handle_event : TetrisSession → Clicks → KeyEvent → TetrisSession × Option Request
unfolding of_player
handle_event s c ev = of_player s c ev s.session
