-- ===== src/States/Multi/Routing.antt =====
-- Which player of a room a packet reaches.
use project_tetris.Base.{
  ◌≡◌, refl, ap, ◌∙◌, Bool, true, false, List, [], ◌∷◌, ◌++◌, All, ℤ, if◌then◌else◌,
}
use project_tetris.Python.Exec.{ok}
use project_tetris.Game.Session
use project_tetris.Game.Session.{TetrisSession, IngamePacket, handle_packet}
use project_tetris.States.Multi.{
  MultiPlayState, Players, has_id, on_first, with_players, game_packet, handle_room_packet,
}

-- Put in front of the players that a loop has left.
abbrev after : TetrisSession → Players → Players
after s (r, ss) = (r, s ∷ ss)

pub on_first_split :
    (test : TetrisSession → Bool) (f : TetrisSession → Session.Outcome) (front : List TetrisSession)
    (s : TetrisSession) (back : List TetrisSession)
    → All (λ x. test x ≡ false) front
    → test s ≡ true
    → on_first test f (front ++ (s ∷ back)) ≡ ((f s).0, front ++ ((f s).1 ∷ back))
unfolding on_first
on_first_split test f [] s back h e =
    ap (λ t. if t then ((f s).0, (f s).1 ∷ back) else after s (on_first test f back)) e
on_first_split test f (x ∷ front) s back (hx, h) e =
    ap
      (λ t.
        if t
        then ((f x).0, (f x).1 ∷ (front ++ (s ∷ back)))
        else after x (on_first test f (front ++ (s ∷ back))))
      hx
    ∙ ap (after x) (on_first_split test f front s back h e)

pub on_first_none :
    (test : TetrisSession → Bool) (f : TetrisSession → Session.Outcome) (ss : List TetrisSession)
    → All (λ x. test x ≡ false) ss
    → on_first test f ss ≡ (ok tt, ss)
unfolding on_first
on_first_none test f [] h = refl
on_first_none test f (x ∷ ss) (hx, h) =
    ap (λ t. if t then ((f x).0, (f x).1 ∷ ss) else after x (on_first test f ss)) hx
    ∙ ap (after x) (on_first_none test f ss h)

-- A packet of a game reaches the first player with its id, and does there what it does to that
-- player's session; the room and all other players stay as they are.
pub game_packet_routed :
    (m : MultiPlayState) (id : ℤ) (p : IngamePacket) (front : List TetrisSession)
    (s : TetrisSession) (back : List TetrisSession)
    → m.players ≡ front ++ (s ∷ back)
    → All (λ x. has_id id x ≡ false) front
    → has_id id s ≡ true
    → let (r, s') = handle_packet s p in
      handle_room_packet m (game_packet id p) ≡ (r, record m { players = front ++ (s' ∷ back) })
unfolding handle_room_packet
game_packet_routed m id p front s back e h hit =
    ap (λ ss. with_players m (on_first (has_id id) (λ x. handle_packet x p) ss)) e
    ∙ ap (with_players m) (on_first_split (has_id id) (λ x. handle_packet x p) front s back h hit)

-- A packet of a game for a player who is not in the room changes nothing and raises nothing.
pub game_packet_unknown :
    (m : MultiPlayState) (id : ℤ) (p : IngamePacket)
    → All (λ x. has_id id x ≡ false) m.players
    → handle_room_packet m (game_packet id p) ≡ (ok tt, m)
unfolding handle_room_packet
game_packet_unknown m id p h =
    ap (with_players m) (on_first_none (has_id id) (λ x. handle_packet x p) m.players h)
