-- ===== src/Game/Session/Host.antt =====
-- The host of a room, in client/tetris/game/tetris_session.py.
use project_tetris.Base.{true, false, Option, none, some, if◌then◌else◌}
use project_tetris.Python.Exec.{ok, err, attribute_error}
use project_tetris.Python.Utf8.{Text}
use project_tetris.Game.Session.{TetrisSession, Outcome, Player, ReadyButton, SessionState}

unfoldable pub set_nickname : TetrisSession → Text → TetrisSession
set_nickname s nickname = record s { nickname = nickname }

unfoldable pub set_state : TetrisSession → SessionState → TetrisSession
set_state s new_state = record s { state = new_state }

abbrev pub hide_ready : TetrisSession → Option ReadyButton → Outcome
hide_ready s none = (err attribute_error, s)
hide_ready s (some btn) = (ok tt, record s { btn_ready = some (record btn { visible = false }) })

-- The own ready button becomes a start button, and another player's is hidden.
abbrev pub host_buttons : TetrisSession → Option Player → Outcome
host_buttons s none = (err attribute_error, s)
host_buttons s (some p) =
    if p.is_self
    then (ok tt, record s { btn_ready = none; btn_start = true })
    else hide_ready s s.btn_ready

unfoldable pub set_is_host : TetrisSession → Outcome
set_is_host s = host_buttons (record s { is_host = true }) s.session
