-- ===== src/States/Multi/Seats/Kept.antt =====
-- The loops of a room of client/tetris/states/multi_play_state.py over its players, seat by seat.
use project_tetris.Base.{
  ℕ, suc, ℤ, pos, ◌≡◌, refl, ◌||◌, Option, none, some, List, [], ◌∷◌, ◌++◌, if-both, eq_ℤ,
}
use mathlib.Core.Path.{subst, sym}
use project_tetris.Python.Exec.{Result, ok, err}
use project_tetris.Python.Struct.{Bytes}
use project_tetris.Game.Board.{MoveType}
use project_tetris.Game.Controller.{KeyEvent}
use project_tetris.Game.Session
use project_tetris.Game.Session.{TetrisSession, Player, play}
use project_tetris.Game.Session.Host.{set_state, set_is_host}
use project_tetris.Game.Session.Events
use project_tetris.Game.Session.Events.{Clicks, Request}
use project_tetris.Game.Session.Holder.{
  Keeps, KeepsSeat, same_seat, reset_seat, set_is_host_seat, handle_event_seat, update_seat,
}
use project_tetris.States.Multi.{
  Players, has_id, is_free, reset_players, start_players, appoint, make_btn_kicks, with_record,
}
use project_tetris.States.Multi.Events.{
  Asked, ask_players, asked_first, sent_first, request_packet, first_clicks, later_clicks,
  update_players,
}
use project_tetris.States.Multi.Seats.{KeepsSeats, same_seats}

-- The same session is the same seat.
pub held : (s t : TetrisSession) → t.session ≡ s.session → KeepsSeat s t
held s t h = subst (Keeps s.session) (sym h) (same_seat s.session)

pub reset_players-KeepsSeats : (ss : List TetrisSession) → KeepsSeats ss (reset_players ss).1
unfolding reset_players
reset_players-KeepsSeats [] = tt
reset_players-KeepsSeats (s ∷ ss) =
    let rest = reset_players-KeepsSeats ss in
    if-both (λ (q : Players). KeepsSeats (s ∷ ss) q.1) (is_free s) (same_seat s.session, rest)
      (ended (Session.reset s) (held s (Session.reset s).1 (reset_seat s)) (reset_players ss) rest)
  where
    ended :
        (o : Session.Outcome)
        → KeepsSeat s o.1
        → (later : Players) → KeepsSeats ss later.1
        → KeepsSeats
            (s ∷ ss)
            (elim o.0 as (λ _. Players) [
              | ok _ ↦ (later.0, o.1 ∷ later.1)
              | err e ↦ (err e, o.1 ∷ ss)
            ]).1
    ended (ok _, s') h later k = (h, k)
    ended (err e, s') h later k = (h, same_seats ss)

pub start_players-KeepsSeats : (ss : List TetrisSession) → KeepsSeats ss (start_players ss)
unfolding start_players set_state
start_players-KeepsSeats [] = tt
start_players-KeepsSeats (s ∷ ss) =
    let rest = start_players-KeepsSeats ss in
    if-both (KeepsSeats (s ∷ ss)) (is_free s) (same_seat s.session, rest)
      (same_seat s.session, rest)

pub make_btn_kicks-KeepsSeats :
    (host : ℤ) (i : ℕ) (ss : List TetrisSession) → KeepsSeats ss (make_btn_kicks host i ss)
unfolding make_btn_kicks
make_btn_kicks-KeepsSeats host i [] = tt
make_btn_kicks-KeepsSeats host i (s ∷ ss) =
    let rest = make_btn_kicks-KeepsSeats host (suc i) ss in
    if-both (KeepsSeats (s ∷ ss)) (is_free s || eq_ℤ (pos i) host) (same_seat s.session, rest)
      (same_seat s.session, rest)

abbrev Appointed : Type 0
Appointed = Result (Unit {0}) × List TetrisSession × ℤ

pub appoint-KeepsSeats :
    (id host : ℤ) (i : ℕ) (ss : List TetrisSession) → KeepsSeats ss (appoint id host i ss).1
unfolding appoint
appoint-KeepsSeats id host i [] = tt
appoint-KeepsSeats id host i (s ∷ ss) =
    if-both (λ (q : Appointed). KeepsSeats (s ∷ ss) q.1) (has_id id s)
      (ended (set_is_host s) (held s (set_is_host s).1 (set_is_host_seat s)))
      (same_seat s.session, appoint-KeepsSeats id host (suc i) ss)
  where
    ended :
        (o : Session.Outcome)
        → KeepsSeat s o.1
        → KeepsSeats
            (s ∷ ss)
            (elim o.0 as (λ _. Appointed) [
              | ok _ ↦ (ok tt, o.1 ∷ ss, pos i)
              | err e ↦ (err e, o.1 ∷ ss, host)
            ]).1
    ended (ok _, s') h = (h, same_seats ss)
    ended (err e, s') h = (h, same_seats ss)

pub with_record-KeepsSeat :
    (win lose : ℤ) (s : TetrisSession) → KeepsSeat s (with_record win lose s).1
with_record-KeepsSeat win lose s = recorded s.session
  where
    recorded :
        (o : Option Player)
        → Keeps o (elim o as (λ _. Option Player) [
          | none ↦ none
          | some p ↦ some (record p { win = win; lose = lose })
        ])
    recorded none = tt
    recorded (some p) = refl

asked_first-KeepsSeats :
    (s : TetrisSession) (ss : List TetrisSession) (rest : Asked)
    (q : TetrisSession × Option Request)
    → KeepsSeat s q.0
    → KeepsSeats ss rest.1
    → KeepsSeats (s ∷ ss) (asked_first ss rest q).1
unfolding asked_first
asked_first-KeepsSeats s ss (r, ss', packets) (s', none) h k = (h, k)
asked_first-KeepsSeats s ss (r, ss', packets) (s', some q) h k = sent (request_packet s'.session q)
  where
    sent :
        (packet : Result Bytes) → KeepsSeats (s ∷ ss) (sent_first s' ss (r, ss', packets) packet).1
    sent (ok packet) = (h, k)
    sent (err e) = (h, same_seats ss)

pub ask_players-KeepsSeats :
    (ss : List TetrisSession) (cs : List Clicks) (ev : KeyEvent)
    → KeepsSeats ss (ask_players ss cs ev).1
unfolding ask_players
ask_players-KeepsSeats [] cs ev = tt
ask_players-KeepsSeats (s ∷ ss) cs ev =
    asked_first-KeepsSeats s ss (ask_players ss (later_clicks cs) ev)
      (Events.handle_event s (first_clicks cs) ev)
      (held s (Events.handle_event s (first_clicks cs) ev).0
        (handle_event_seat s (first_clicks cs) ev))
      (ask_players-KeepsSeats ss (later_clicks cs) ev)

pub update_players-KeepsSeats :
    (ss : List TetrisSession) (dt_ms : ℕ) → KeepsSeats ss (update_players ss dt_ms).0.1
unfolding update_players
update_players-KeepsSeats [] dt_ms = tt
update_players-KeepsSeats (s ∷ ss) dt_ms =
    ended (Session.update s dt_ms) (held s (Session.update s dt_ms).0.1 (update_seat s dt_ms))
      (update_players ss dt_ms) (update_players-KeepsSeats ss dt_ms)
  where
    ended :
        (o : Session.Outcome × List MoveType)
        → KeepsSeat s o.0.1
        → (later : Players × List MoveType) → KeepsSeats ss later.0.1
        → KeepsSeats
            (s ∷ ss)
            (elim o.0.0 as (λ _. Players × List MoveType) [
              | ok _ ↦ ((later.0.0, o.0.1 ∷ later.0.1), o.1 ++ later.1)
              | err e ↦ ((err e, o.0.1 ∷ ss), o.1)
            ]).0.1
    ended ((ok _, s'), moves) h later k = (h, k)
    ended ((err e, s'), moves) h later k = (h, same_seats ss)
