-- ===== src/States/Single.antt =====
-- client/tetris/states/single_play_state.py: a room of one player. The places, the music and drawing
-- are left out; Events has the mouse. The session's player is set by the constructor; a session without one raises
-- where its id is read.
pub mod Events
use project_tetris.Base.{ℕ, Option, none, some, List, if◌then◌else◌, ℤ, eq_ℤ}
use project_tetris.Python.Exec.{Result, ok, err, attribute_error}
use project_tetris.Game.Board.{MoveType}
use project_tetris.Game.Session
use project_tetris.Game.Session.{
  TetrisSession, Player, play, set_score, process_gameover, IngamePacket, handle_packet,
}
use project_tetris.Game.Session.Host.{set_state}
use project_tetris.States.Fade.{
  StateName, BaseState, lobby, queue_state, consume_state, update_fade,
}

pub record SinglePlayState : Type 0 where
  pub base : BaseState
  pub tetris_session : TetrisSession

abbrev pub Outcome : Type 0
Outcome = Result (Unit {0}) × SinglePlayState

abbrev with_session : SinglePlayState → Session.Outcome → Outcome
with_session m (r, s) = (r, record m { tetris_session = s })

unfoldable pub clear : SinglePlayState → Outcome
clear m = with_session m (Session.clear m.tetris_session)

-- The packets for the room, with the fields that are read from them.
pub data SinglePacket : Type 0 where
  single_start_packet : ℤ → SinglePacket
  delete_user_packet : ℤ → SinglePacket
  gameover_packet : SinglePacket
  update_score_packet : ℤ → SinglePacket
  game_packet : IngamePacket → SinglePacket
  unused_packet : SinglePacket

abbrev delete_user : SinglePlayState → ℤ → Option Player → Outcome
unfolding queue_state
delete_user m id none = (err attribute_error, m)
delete_user m id (some p) =
    if eq_ℤ id p.id then (ok tt, record m { base = queue_state m.base lobby }) else (ok tt, m)

abbrev update_score : SinglePlayState → ℤ → Option Player → Outcome
update_score m max_score none = (err attribute_error, m)
update_score m max_score (some p) =
    let p' : Player = record p { max_score = max_score } in
    (ok tt, record m { tetris_session = record m.tetris_session { session = some p' } })

unfoldable pub handle_single_packet : SinglePlayState → SinglePacket → Outcome
unfolding delete_user
handle_single_packet m (single_start_packet score) =
    (ok tt, record m { tetris_session = set_state (set_score m.tetris_session score) play })
handle_single_packet m (delete_user_packet id) = delete_user m id m.tetris_session.session
handle_single_packet m gameover_packet = with_session m (process_gameover m.tetris_session)
handle_single_packet m (update_score_packet max_score) =
    update_score m max_score m.tetris_session.session
handle_single_packet m (game_packet packet) = with_session m (handle_packet m.tetris_session packet)
handle_single_packet m unused_packet = (ok tt, m)

-- A frame without events: how it ended, the state that it leads to, and the moves that it sent.
abbrev framed : SinglePlayState → ℕ → Session.Outcome → Result (Option StateName) × SinglePlayState
framed m dt_ms (err e, s) = (err e, record m { tetris_session = s })
framed m dt_ms (ok _, s) =
    let (next, base) = consume_state (update_fade m.base dt_ms) in
    (ok next, record { base = base; tetris_session = s })

unfoldable pub update :
    SinglePlayState → ℕ → (Result (Option StateName) × SinglePlayState) × List MoveType
update m dt_ms = let (o, sent) = Session.update m.tetris_session dt_ms in (framed m dt_ms o, sent)
