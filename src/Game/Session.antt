-- ===== src/Game/Session.antt =====
-- client/tetris/game/tetris_session.py: one player's place in a room: the board, the state of the
-- round, and the packets that the server sends for it. Drawing is left out; Events has the keys and
-- the mouse.
pub mod Clearlines
pub mod Host
pub mod Events
pub mod Holder
use project_tetris.Base.{
  ℕ, Bool, true, false, not, ◌&&◌, Option, none, some, List, [], ◌∷◌, if◌then◌else◌, ℤ, pos,
}
use project_tetris.Python.Exec.{Result, ok, err, attribute_error, key_error}
use project_tetris.Python.Utf8.{Text}
use project_tetris.Game.Tetromino.{ShapeKey, Tetromino, shapes_index}
use project_tetris.Game.Controller.{Controller, new_controller}
use project_tetris.Game.Controller
use project_tetris.Game.Board.{
  MoveType, Board, fix, clear_lines, animate_combo, add_line, handle_move,
}
use project_tetris.Game.Board
use project_tetris.Game.Board.Gameover.{animate_gameover, find_anim_start_line}
use project_tetris.Net.Registry.{PacketType, s2c_fix, s2c_clearline}

-- `TSessionState`
pub data SessionState : Type 0 where
  wait play gameover gameover_animating empty : SessionState

-- The fields of `Session` that are used here.
pub record Player : Type 0 where
  pub id : ℤ
  pub is_self : Bool
  pub nickname : Text
  pub win : ℤ
  pub lose : ℤ
  pub max_score : ℤ

-- The fields of the ready button that are used here.
pub record ReadyButton : Type 0 where
  pub pressed : Bool
  pub visible : Bool
  pub reactable : Bool

pub record TetrisSession : Type 0 where
  pub session : Option Player
  pub is_single : Bool
  pub controller : Option Controller
  pub state : SessionState
  pub score : ℤ
  pub prev_packet_type : Option PacketType
  pub btn_start : Bool
  pub btn_ready : Option ReadyButton
  pub btn_kick : Bool
  pub nickname : Text
  pub is_host : Bool
  pub board : Board

abbrev pub Outcome : Type 0
Outcome = Result (Unit {0}) × TetrisSession

-- A call of the board, and what comes after it if it raises nothing.
abbrev pub on_board : TetrisSession → (TetrisSession → TetrisSession) → Board.Outcome → Outcome
on_board s rest (ok _, b) = (ok tt, rest (record s { board = b }))
on_board s rest (err e, b) = (err e, record s { board = b })

abbrev pub done : TetrisSession → TetrisSession
done s = s

-- The layout of a session that nobody has taken yet; only rooms have a ready button.
unfoldable pub new_session : Bool → Board → TetrisSession
new_session is_single board = record {
  session = none;
  is_single = is_single;
  controller = none;
  state = empty;
  score = pos 0;
  prev_packet_type = none;
  btn_start = is_single;
  btn_kick = false;
  btn_ready =
      if is_single
      then none
      else some (record { pressed = false; visible = true; reactable = true });
  nickname = [];
  is_host = false;
  board = board;
}

unfoldable pub set_score : TetrisSession → ℤ → TetrisSession
set_score s new_score = if s.is_single then record s { score = new_score } else s

abbrev pub press_ready : TetrisSession → Bool → Option ReadyButton → Outcome
press_ready s is_ready none = (err attribute_error, s)
press_ready s is_ready (some btn) =
    (ok tt, record s { btn_ready = some (record btn { pressed = is_ready }) })

unfoldable pub set_ready : TetrisSession → Bool → Outcome
set_ready s is_ready = if s.is_single then (ok tt, s) else press_ready s is_ready s.btn_ready

abbrev pub map_ready : (ReadyButton → ReadyButton) → TetrisSession → TetrisSession
map_ready f s = record s { btn_ready = elim s.btn_ready [ none ↦ none | some btn ↦ some (f btn) ] }

abbrev pub with_own_controller : Player → TetrisSession → TetrisSession
with_own_controller p s =
    if p.is_self
    then record s { controller = some new_controller }
    else map_ready (λ btn. record btn { reactable = false }) s

-- What follows the board, when a player is set up, when a round begins again, and when the player is
-- gone.
abbrev pub without_score : TetrisSession → TetrisSession
without_score s = if s.is_single then set_score s (pos 0) else s

abbrev pub set_up : Player → TetrisSession → TetrisSession
set_up p s = record (without_score s) { nickname = p.nickname; state = wait }

abbrev pub unpressed : TetrisSession → TetrisSession
unpressed s = record (map_ready (λ btn. record btn { pressed = false }) s) { state = wait }

abbrev clear_controller : Option Controller → Option Controller
clear_controller none = none
clear_controller (some c) = some (Controller.clear c)

abbrev pub emptied : TetrisSession → TetrisSession
emptied s =
    let s' = without_score (map_ready (λ btn. record btn { visible = true }) s) in
    record s' {
      state = empty;
      nickname = [];
      session = none;
      is_host = false;
      controller = clear_controller s'.controller;
    }

unfoldable pub init_session : TetrisSession → Player → Outcome
unfolding set_score
init_session s p =
    on_board (with_own_controller p (record s { session = some p })) (set_up p) (Board.init s.board)

abbrev pub with_target : TetrisSession → Result Board → Outcome
with_target s (ok b) = (ok tt, record s { board = b })
with_target s (err e) = (err e, s)

unfoldable pub process_gameover : TetrisSession → Outcome
process_gameover s =
    let s' : TetrisSession = record s { state = gameover_animating } in
    with_target s' (find_anim_start_line s'.board)

unfoldable pub reset : TetrisSession → Outcome
reset s = on_board s unpressed (Board.reset s.board)

unfoldable pub clear : TetrisSession → Outcome
unfolding set_score
clear s = on_board s emptied (Board.clear s.board)

-- The packets of a game, with the fields that are read from them.
pub data IngamePacket : Type 0 where
  move_packet : ℤ → IngamePacket
  spawn_packet : ℤ → ℤ → ℤ → ℤ → IngamePacket
  fix_packet : ℤ → ℤ → IngamePacket
  clearline_packet : ℤ → ℤ → ℤ → IngamePacket
  addline_packet : ℤ → IngamePacket
  other_packet : PacketType → IngamePacket

-- A number that is no key of `SHAPES_INDEX` raises KeyError.
abbrev pub with_next : TetrisSession → Option ShapeKey → Outcome
with_next s none = (err key_error, s)
with_next s (some key) =
    (ok tt, record s { board = record s.board { next_tetromino_shape = some key } })

abbrev pub spawned : TetrisSession → ℤ → ℤ → ℤ → Option ShapeKey → Outcome
spawned s next x y none = (err key_error, s)
spawned s next x y (some key) =
    let t : Tetromino = record { shape_key = key; x = x; y = y; rotation = 0 } in
    with_next (record s { board = record s.board { current_tetromino = some t } })
      (shapes_index next)

-- `prev_packet_type != S2C_CLEARLINE`
abbrev pub is_first_clearline : Option PacketType → Bool
is_first_clearline (some s2c_clearline) = false
is_first_clearline _ = true

-- The first of a run of cleared lines shows the combo.
abbrev pub show_combo : ℤ → ℤ → TetrisSession → TetrisSession
show_combo line combo s =
    if is_first_clearline s.prev_packet_type
    then record s {
      prev_packet_type = some s2c_clearline;
      board = animate_combo s.board line combo;
    }
    else s

unfoldable pub handle_packet : TetrisSession → IngamePacket → Outcome
unfolding set_score shapes_index
handle_packet s (move_packet move_type) = on_board s done (handle_move s.board move_type)
handle_packet s (spawn_packet shape next x y) = spawned s next x y (shapes_index shape)
handle_packet s (fix_packet x y) =
    on_board (record s { prev_packet_type = some s2c_fix }) done (fix s.board x y)
handle_packet s (clearline_packet line combo score) =
    on_board s (λ s'. show_combo line combo (set_score s' score)) (clear_lines s.board line)
handle_packet s (addline_packet hole_x) = on_board s done (add_line s.board hole_x)
handle_packet s (other_packet t) = (ok tt, s)

-- The moves that the controller sends in a frame.
abbrev pub control : Option Controller → ℕ → Option Controller × List MoveType
control none dt_ms = (none, [])
control (some c) dt_ms = let (c', sent) = Controller.update c dt_ms in (some c', sent)

unfoldable pub ended : TetrisSession → Result Bool × Board → Outcome
unfolding reset
ended s (ok true, b) =
    let s' : TetrisSession = record s { board = b } in
    if s.is_single then reset s' else (ok tt, record s' { state = gameover })
ended s (ok false, b) = (ok tt, record s { board = b })
ended s (err e, b) = (err e, record s { board = b })

abbrev pub updated : TetrisSession → ℕ → SessionState → Outcome × List MoveType
unfolding ended
updated s dt_ms play =
    let (c, sent) = control s.controller dt_ms in
    ((ok tt, record s { controller = c; board = Board.update s.board dt_ms }), sent)
updated s dt_ms gameover_animating = (ended s (animate_gameover s.board dt_ms), [])
updated s dt_ms _ = ((ok tt, s), [])

unfoldable pub update : TetrisSession → ℕ → Outcome × List MoveType
unfolding updated
update s dt_ms = updated s dt_ms s.state
