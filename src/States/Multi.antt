-- ===== src/States/Multi.antt =====
-- client/tetris/states/multi_play_state.py: a room of several players, and the packets for it. The
-- places, the music and drawing are left out; a popup is the text that it shows. Events has the mouse
-- and the frames, Seats who sits where.
pub mod Routing
pub mod Events
pub mod Seats
mod Examples
use project_tetris.Base.{
  ℕ, zero, suc, Bool, true, false, not, ◌||◌, Option, none, some, List, [], ◌∷◌, if◌then◌else◌, ℤ,
  pos, negsuc, eq_ℤ, ◌==◌,
}
use project_tetris.Python.Exec.{Result, ok, err, key_error, attribute_error}
use project_tetris.Python.Index.{get_item, set_item}
use project_tetris.Python.Utf8.{Text}
use project_tetris.Game.Session
use project_tetris.Game.Session.{
  TetrisSession, Player, SessionState, play, set_ready, process_gameover, IngamePacket,
  handle_packet, init_session, map_ready,
}
use project_tetris.Game.Session.Host.{set_is_host, set_state}
use project_tetris.States.Errors.{ErrorType, error_type}
use project_tetris.States.Fade.{BaseState, lobby, queue_state}

pub data RoomState : Type 0 where
  room_wait room_play : RoomState

pub record MultiPlayState : Type 0 where
  pub base : BaseState
  pub players : List TetrisSession
  pub room_state : RoomState
  pub error_popup : Option ErrorType
  pub winner_popup : Option Text
  pub reactable : Bool
  pub host_index : ℤ

abbrev pub Outcome : Type 0
Outcome = Result (Unit {0}) × MultiPlayState

abbrev pub Players : Type 0
Players = Result (Unit {0}) × List TetrisSession

-- `player.session.id == id`, for a player that is there.
abbrev pub sits : ℤ → Option Player → Bool
sits id none = false
sits id (some p) = eq_ℤ p.id id

abbrev pub has_id : ℤ → TetrisSession → Bool
has_id id s = sits id s.session

abbrev pub is_free : TetrisSession → Bool
is_free s = elim s.session [ none ↦ true | some _ ↦ false ]

-- The loop that calls a method of the first player that passes the test, and ends there.
unfoldable pub on_first :
    (TetrisSession → Bool) → (TetrisSession → Session.Outcome) → List TetrisSession → Players
on_first test f [] = (ok tt, [])
on_first test f (s ∷ ss) =
    let (r, s') = f s in
    let (r', ss') = on_first test f ss in if test s then (r, s' ∷ ss) else (r', s ∷ ss')

unfoldable pub any_player : (TetrisSession → Bool) → List TetrisSession → Bool
any_player test [] = false
any_player test (s ∷ ss) = test s || any_player test ss

-- The loop that resets every player that is there; an exception ends it.
unfoldable pub reset_players : List TetrisSession → Players
reset_players [] = (ok tt, [])
reset_players (s ∷ ss) =
    let (r, s') = Session.reset s in
    let (r', ss') = reset_players ss in
    if is_free s then (r', s ∷ ss') else elim r [ ok _ ↦ (r', s' ∷ ss') | err e ↦ (err e, s' ∷ ss) ]

abbrev pub with_players : MultiPlayState → Players → Outcome
with_players m (r, ss) = (r, record m { players = ss })

unfoldable pub reset_room : MultiPlayState → Outcome
unfolding reset_players
reset_room m = with_players m (reset_players m.players)

-- `find_host_index`, from index `i` on.
unfoldable pub find_host : ℕ → List TetrisSession → ℤ
find_host i [] = negsuc 0
find_host i (s ∷ ss) = let rest = find_host (suc i) ss in if s.is_host then pos i else rest

unfoldable pub find_host_index : MultiPlayState → ℤ
unfolding find_host
find_host_index m = find_host 0 m.players

abbrev pub own : Option Player → Bool
own none = false
own (some p) = p.is_self

-- `self.host_index != -1 and self.players[self.host_index].session and ….session.is_self`
abbrev pub hosts_self : ℤ → List TetrisSession → Result Bool
hosts_self i ss =
    if eq_ℤ i (negsuc 0)
    then ok false
    else elim (get_item ss i) [ ok s ↦ ok (own s.session) | err e ↦ err e ]

abbrev pub make_btn_kick : TetrisSession → TetrisSession
make_btn_kick s = record s { btn_kick = true }

-- What `add_user` does with the free player once it is set up, in the list `ss'`.
abbrev pub kick_added : TetrisSession → Result Bool → Session.Outcome
kick_added s (ok host) = (ok tt, if host then make_btn_kick s else s)
kick_added s (err e) = (err e, s)

unfoldable pub seat : ℤ → List TetrisSession → Player → TetrisSession → Session.Outcome
unfolding init_session
seat i ss p s = elim (init_session s p).0 [
  | ok _ ↦ kick_added (init_session s p).1 (hosts_self i ss)
  | err e ↦ (err e, (init_session s p).1)
]

-- A user who sits already, or finds no free player, changes nothing. The host sits, so that the
-- player that is set up is not the host's.
unfoldable pub add_user : MultiPlayState → Player → Outcome
unfolding on_first any_player seat
add_user m p =
    if any_player (has_id p.id) m.players
    then (ok tt, m)
    else with_players m (on_first is_free (seat m.host_index m.players p) m.players)

-- The room's packets, with the fields that are read from them.
pub data RoomPacket : Type 0 where
  error_packet : ℕ → RoomPacket
  multi_start_packet : RoomPacket
  update_host_packet : ℤ → RoomPacket
  add_user_packet : ℤ → Text → RoomPacket
  ready_packet : ℤ → Bool → RoomPacket
  delete_user_packet : ℤ → RoomPacket
  gameover_packet : ℤ → RoomPacket
  gameend_packet : ℤ → RoomPacket
  match_record_packet : ℤ → ℤ → RoomPacket
  game_packet : ℤ → IngamePacket → RoomPacket

-- A new session, which is not one's own.
abbrev pub set_is_not_my_session : ℤ → Text → Player
set_is_not_my_session id nickname = record {
  id = id;
  is_self = false;
  nickname = nickname;
  win = pos 0;
  lose = pos 0;
  max_score = pos 0;
}

abbrev pub show_error : MultiPlayState → Option ErrorType → Outcome
show_error m none = (err key_error, m)
show_error m (some e) = (ok tt, record m { error_popup = some e; reactable = false })

unfoldable pub start_players : List TetrisSession → List TetrisSession
unfolding set_state
start_players [] = []
start_players (s ∷ ss) =
    let rest = start_players ss in if is_free s then s ∷ rest else set_state s play ∷ rest

-- The loop that finds the new host from index `i` on, with the host's index so far.
unfoldable pub appoint : ℤ → ℤ → ℕ → List TetrisSession → Result (Unit {0}) × List TetrisSession × ℤ
unfolding set_is_host
appoint id host i [] = (ok tt, [], host)
appoint id host i (s ∷ ss) =
    let (r, s') = set_is_host s in
    let (r', ss', host') = appoint id host (suc i) ss in
    if has_id id s
    then elim r [ ok _ ↦ (ok tt, s' ∷ ss, pos i) | err e ↦ (err e, s' ∷ ss, host) ]
    else (r', s ∷ ss', host')

-- A kick button for every other player that is there.
unfoldable pub make_btn_kicks : ℤ → ℕ → List TetrisSession → List TetrisSession
make_btn_kicks host i [] = []
make_btn_kicks host i (s ∷ ss) =
    let rest = make_btn_kicks host (suc i) ss in
    if is_free s || eq_ℤ (pos i) host then s ∷ rest else make_btn_kick s ∷ rest

unfoldable pub kicks_of : MultiPlayState → Option Player → Outcome
unfolding make_btn_kicks
kicks_of m none = (err attribute_error, m)
kicks_of m (some p) =
    if p.is_self
    then (ok tt, record m { players = make_btn_kicks m.host_index 0 m.players })
    else (ok tt, m)

unfoldable pub kicks : MultiPlayState → Result TetrisSession → Outcome
unfolding kicks_of
kicks m (ok s) = kicks_of m s.session
kicks m (err e) = (err e, m)

unfoldable pub appointed : MultiPlayState → Result (Unit {0}) × List TetrisSession × ℤ → Outcome
unfolding kicks
appointed m (err e, ss, host) = (err e, record m { players = ss; host_index = host })
appointed m (ok _, ss, host) =
    kicks (record m { players = ss; host_index = host }) (get_item ss host)

abbrev nickname_of : Option Player → Text → Text
nickname_of none rest = rest
nickname_of (some p) rest = p.nickname

-- "?" where the winner is gone.
unfoldable pub winner_nickname : ℤ → List TetrisSession → Text
winner_nickname id [] = 63 ∷ []
winner_nickname id (s ∷ ss) =
    let rest = winner_nickname id ss in if has_id id s then nickname_of s.session rest else rest

abbrev pub announce : Text → Outcome → Outcome
announce name (ok _, m) = (ok tt, record m { winner_popup = some name; reactable = false })
announce name (err e, m) = (err e, m)

abbrev pub with_record : ℤ → ℤ → TetrisSession → Session.Outcome
with_record win lose s = (
  ok tt,
  record s {
    session = elim s.session [ none ↦ none | some p ↦ some (record p { win = win; lose = lose }) ];
  },
)

unfoldable pub own_id : ℤ → List TetrisSession → Bool
own_id id [] = false
own_id id (s ∷ ss) = let rest = own_id id ss in if has_id id s then own s.session else rest

unfoldable pub handle_room_packet : MultiPlayState → RoomPacket → Outcome
unfolding on_first add_user reset_room queue_state error_type start_players winner_nickname own_id
    appoint appointed
handle_room_packet m (error_packet code) = show_error m (error_type code)
handle_room_packet m multi_start_packet =
    (ok tt, record m { room_state = room_play; players = start_players m.players })
handle_room_packet m (update_host_packet id) = appointed m (appoint id m.host_index 0 m.players)
handle_room_packet m (add_user_packet id name) = add_user m (set_is_not_my_session id name)
handle_room_packet m (ready_packet id is_ready) =
    with_players m (on_first (has_id id) (λ s. set_ready s is_ready) m.players)
handle_room_packet m (delete_user_packet id) =
    if own_id id m.players
    then (ok tt, record m { base = queue_state m.base lobby })
    else with_players m (on_first (has_id id) Session.clear m.players)
handle_room_packet m (gameover_packet id) =
    with_players m (on_first (has_id id) process_gameover m.players)
handle_room_packet m (gameend_packet winner_id) =
    announce (winner_nickname winner_id m.players) (reset_room m)
handle_room_packet m (match_record_packet win lose) =
    with_players m (on_first (λ s. own s.session) (with_record win lose) m.players)
handle_room_packet m (game_packet id packet) =
    with_players m (on_first (has_id id) (λ s. handle_packet s packet) m.players)
