-- ===== src/Game/Session/Holder.antt =====
-- Who sits in a session of client/tetris/game/tetris_session.py, before and after each operation.
use project_tetris.Base.{ℕ, ℤ, pos, ◌≡◌, refl, ◌∙◌, Bool, true, false, Option, none, some, if-both}
use project_tetris.Python.Exec.{Result, ok, err}
use project_tetris.Game.Controller.{KeyEvent}
use project_tetris.Game.Board
use project_tetris.Game.Board.{Board}
use project_tetris.Game.Tetromino.{ShapeKey, shapes_index}
use project_tetris.Game.Session
use project_tetris.Game.Session.{
  TetrisSession, Player, Outcome, ReadyButton, SessionState, IngamePacket, on_board, handle_packet,
  set_score, set_ready, process_gameover, init_session, reset, clear, spawned, with_next,
  show_combo, map_ready, move_packet, spawn_packet, fix_packet, clearline_packet, addline_packet,
  other_packet, is_first_clearline, done, ended, updated, unpressed, emptied, set_up,
  with_own_controller, with_target, press_ready, wait, play, gameover, gameover_animating, empty,
}
use project_tetris.Game.Board.Gameover.{animate_gameover, find_anim_start_line}
use project_tetris.Net.Registry.{s2c_fix}
use project_tetris.Game.Session.Host.{set_is_host, host_buttons, hide_ready}
use project_tetris.Game.Session.Events
use project_tetris.Game.Session.Events.{Clicks, Request, ask_buttons}

-- The second seat holds the first's player, as far as the id shows, or nobody.
abbrev pub Keeps : Option Player → Option Player → Type 0
Keeps o none = Unit
Keeps none (some q) = ⊥
Keeps (some p) (some q) = q.id ≡ p.id

pub same_seat : (o : Option Player) → Keeps o o
same_seat none = tt
same_seat (some p) = refl

abbrev pub KeepsSeat : TetrisSession → TetrisSession → Type 0
KeepsSeat s s' = Keeps s.session s'.session

-- The session that a call leaves has the player `o`.
abbrev Holds {ℓ} : {R : Type ℓ} → Option Player → R × TetrisSession → Type 0
Holds o (r, s) = s.session ≡ o

on_board-Holds :
    (o : Option Player) (s : TetrisSession) (rest : TetrisSession → TetrisSession)
    (call : Board.Outcome)
    → s.session ≡ o
    → ((b : Board) → (rest (record s { board = b })).session ≡ o)
    → Holds o (on_board s rest call)
on_board-Holds o s rest (ok _, b) h k = k b
on_board-Holds o s rest (err e, b) h k = h

set_score_seat : (s : TetrisSession) (n : ℤ) → (set_score s n).session ≡ s.session
unfolding set_score
set_score_seat s n = if-both (λ (t : TetrisSession). t.session ≡ s.session) s.is_single refl refl

show_combo_seat :
    (line combo : ℤ) (s : TetrisSession) → (show_combo line combo s).session ≡ s.session
show_combo_seat line combo s =
    if-both (λ (t : TetrisSession). t.session ≡ s.session) (is_first_clearline s.prev_packet_type)
      refl refl

spawned-Holds :
    (s : TetrisSession) (next x y : ℤ) (key : Option ShapeKey)
    → Holds s.session (spawned s next x y key)
spawned-Holds s next x y none = refl
spawned-Holds s next x y (some key) = put (shapes_index next)
  where
    put :
        (k : Option ShapeKey)
        → Holds s.session (
            with_next
              (record s {
                board = record s.board {
                  current_tetromino = some (record { shape_key = key; x = x; y = y; rotation = 0 });
                };
              })
              k)
    put none = refl
    put (some k) = refl

pub handle_packet_seat :
    (s : TetrisSession) (p : IngamePacket) → (handle_packet s p).1.session ≡ s.session
unfolding handle_packet
handle_packet_seat s (move_packet n) =
    on_board-Holds s.session s done (Board.handle_move s.board n) refl (λ b. refl)
handle_packet_seat s (spawn_packet shape next x y) = spawned-Holds s next x y (shapes_index shape)
handle_packet_seat s (fix_packet x y) =
    on_board-Holds s.session (record s { prev_packet_type = some s2c_fix }) done
      (Board.fix s.board x y) refl (λ b. refl)
handle_packet_seat s (clearline_packet line combo score) =
    on_board-Holds s.session s (λ s'. show_combo line combo (set_score s' score))
      (Board.clear_lines s.board line) refl
      (λ b.
        show_combo_seat line combo (set_score (record s { board = b }) score)
        ∙ set_score_seat (record s { board = b }) score)
handle_packet_seat s (addline_packet hole) =
    on_board-Holds s.session s done (Board.add_line s.board hole) refl (λ b. refl)
handle_packet_seat s (other_packet t) = refl

pub set_ready_seat : (s : TetrisSession) (b : Bool) → (set_ready s b).1.session ≡ s.session
unfolding set_ready
set_ready_seat s b = if-both (Holds s.session) s.is_single refl (pressed s.btn_ready)
  where
    pressed : (btn : Option ReadyButton) → Holds s.session (Session.press_ready s b btn)
    pressed none = refl
    pressed (some btn) = refl

pub process_gameover_seat : (s : TetrisSession) → (process_gameover s).1.session ≡ s.session
unfolding process_gameover
process_gameover_seat s = targeted (find_anim_start_line s.board)
  where
    targeted :
        (r : Result Board)
        → Holds s.session (with_target (record s { state = gameover_animating }) r)
    targeted (ok b) = refl
    targeted (err e) = refl

pub reset_seat : (s : TetrisSession) → (reset s).1.session ≡ s.session
unfolding reset
reset_seat s = on_board-Holds s.session s unpressed (Board.reset s.board) refl (λ b. refl)

pub set_is_host_seat : (s : TetrisSession) → (set_is_host s).1.session ≡ s.session
unfolding set_is_host
set_is_host_seat s = hosted s.session
  where
    hidden :
        (btn : Option ReadyButton) → Holds s.session (hide_ready (record s { is_host = true }) btn)
    hidden none = refl
    hidden (some btn) = refl

    hosted : (o : Option Player) → Holds s.session (host_buttons (record s { is_host = true }) o)
    hosted none = refl
    hosted (some p) = if-both (Holds s.session) p.is_self refl (hidden s.btn_ready)

-- Clearing takes the player away, unless the board raises.
pub clear-Keeps : (s : TetrisSession) → Keeps s.session (clear s).1.session
unfolding clear
clear-Keeps s = emptied_seat (Board.clear s.board)
  where
    emptied_seat : (call : Board.Outcome) → Keeps s.session (on_board s emptied call).1.session
    emptied_seat (ok _, b) = tt
    emptied_seat (err e, b) = same_seat s.session

-- A session that is set up holds the new player.
pub init_session_seat : (s : TetrisSession) (p : Player) → (init_session s p).1.session ≡ some p
unfolding init_session
init_session_seat s p =
    let s' = with_own_controller p (record s { session = some p }) in
    let held : s'.session ≡ some p =
      if-both (λ (t : TetrisSession). t.session ≡ some p) p.is_self refl refl in
    on_board-Holds (some p) s' (set_up p) (Board.init s.board) held (λ b.
      if-both (λ (t : TetrisSession). t.session ≡ some p) s'.is_single
        (set_score_seat (record s' { board = b }) (pos 0) ∙ held) held)

pub handle_event_seat :
    (s : TetrisSession) (c : Clicks) (ev : KeyEvent)
    → (Events.handle_event s c ev).0.session ≡ s.session
unfolding Events.handle_event
handle_event_seat s c ev = of_holder s.session
  where
    late :
        (q : TetrisSession × Bool)
        → q.0.session ≡ s.session
        → (Events.ask_kick_last c.kick q).0.session ≡ s.session
    late (s', true) h = h
    late (s', false) h =
        if-both (λ (q : TetrisSession × Option Request). q.0.session ≡ s.session) _ h h

    ready : (btn : Option ReadyButton) → (Events.press_ready s c.ready btn).0.session ≡ s.session
    ready none = refl
    ready (some btn) = if-both (λ (q : TetrisSession × Bool). q.0.session ≡ s.session) _ refl refl

    asked : (ask_buttons s c).0.session ≡ s.session
    asked =
        if-both (λ (q : TetrisSession × Option Request). q.0.session ≡ s.session) _ refl
          (late (Events.press_ready s c.ready s.btn_ready) (ready s.btn_ready))

    in_state : (st : SessionState) → (Events.taken s c ev st).0.session ≡ s.session
    in_state play = refl
    in_state wait = asked
    in_state gameover = asked
    in_state gameover_animating = asked
    in_state empty = asked

    of_holder : (o : Option Player) → (Events.of_player s c ev o).0.session ≡ s.session
    of_holder none = refl
    of_holder (some p) = in_state s.state

pub update_seat : (s : TetrisSession) (dt_ms : ℕ) → (Session.update s dt_ms).0.1.session ≡ s.session
unfolding Session.update
update_seat s dt_ms = in_state s.state
  where
    over : (call : Result Bool × Board) → Holds s.session (ended s call)
    over (ok true, b) =
        if-both (Holds s.session) s.is_single (reset_seat (record s { board = b })) refl
    over (ok false, b) = refl
    over (err e, b) = refl

    in_state : (st : SessionState) → Holds s.session (updated s dt_ms st).0
    in_state play = refl
    in_state gameover_animating = over (animate_gameover s.board dt_ms)
    in_state wait = refl
    in_state gameover = refl
    in_state empty = refl
