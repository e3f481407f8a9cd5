-- ===== src/Net/Builder/Requests.antt =====
-- All the packets that the builder makes, as one data type with the arguments of its functions.
use project_tetris.Base.{◌≡◌, refl, Bool, true, false, Option, none, some, [], ◌∷◌, ℤ}
use project_tetris.Python.Exec.{Result, Ensures, Ensures->>=}
use project_tetris.Python.Struct.{Bytes}
use project_tetris.Python.Utf8.{Text}
use project_tetris.Net.Structs.{max_user_id, max_user_password, max_room_name, max_room_password}
use project_tetris.Net.Registry.{
  PacketType, c2s_login, c2s_message, c2s_join_lock_room, c2s_join_open_room, c2s_request_room_list,
  c2s_disconnect, c2s_move, c2s_add_open_room, c2s_add_lock_room, c2s_fast_matching, c2s_start,
  c2s_ready, c2s_delete_user, c2s_giveup, c2s_kick, c2s_request_friend, c2s_delete_friend,
  c2s_accept_friend, c2s_request_lobby_user_list, c2s_request_friend_list, c2s_request_ranking,
}
use project_tetris.Net.Builder.{
  build_login_pkt, build_message_pkt, build_join_room_pkt, build_request_room_list_pkt,
  build_disconnect_pkt, build_move_pkt, build_create_room, build_fast_matching, build_start_pkt,
  build_ready_pkt, build_delete_user_pkt, build_giveup_pkt, build_kick_pkt,
  build_request_friend_pkt, build_delete_friend_pkt, build_accept_friend_pkt,
  build_request_lobby_user_list_pkt, build_request_friend_list_pkt, build_request_ranking_pkt,
  str_to_bytes, or_empty,
}
use project_tetris.Net.Builder.Framed.{IsFramed, build_packet-IsFramed, build_message-IsFramed}

pub data Request : Type 0 where
  login : Text → Text → Request
  message : Text → Request
  join_room : ℤ → Option Text → Request
  create_room : Text → ℤ → Bool → Option Text → Request
  move fast_matching kick request_friend delete_friend accept_friend : ℤ → Request
  room_list disconnect start ready delete_user giveup lobby_user_list friend_list ranking : Request

-- The call of the builder.
unfoldable pub build : Request → Result Bytes
build (login id pw) = build_login_pkt id pw
build (message t) = build_message_pkt t
build (join_room room_key pw) = build_join_room_pkt room_key pw
build (create_room title players_num is_open pw) = build_create_room title players_num is_open pw
build (move m) = build_move_pkt m
build (fast_matching n) = build_fast_matching n
build (kick n) = build_kick_pkt n
build (request_friend n) = build_request_friend_pkt n
build (delete_friend n) = build_delete_friend_pkt n
build (accept_friend n) = build_accept_friend_pkt n
build room_list = build_request_room_list_pkt
build disconnect = build_disconnect_pkt
build start = build_start_pkt
build ready = build_ready_pkt
build delete_user = build_delete_user_pkt
build giveup = build_giveup_pkt
build lobby_user_list = build_request_lobby_user_list_pkt
build friend_list = build_request_friend_list_pkt
build ranking = build_request_ranking_pkt

abbrev pub request_type : Request → PacketType
request_type (login id pw) = c2s_login
request_type (message t) = c2s_message
request_type (join_room room_key (some (c ∷ cs))) = c2s_join_lock_room
request_type (join_room room_key _) = c2s_join_open_room
request_type (create_room title players_num true pw) = c2s_add_open_room
request_type (create_room title players_num false pw) = c2s_add_lock_room
request_type (move m) = c2s_move
request_type (fast_matching n) = c2s_fast_matching
request_type (kick n) = c2s_kick
request_type (request_friend n) = c2s_request_friend
request_type (delete_friend n) = c2s_delete_friend
request_type (accept_friend n) = c2s_accept_friend
request_type room_list = c2s_request_room_list
request_type disconnect = c2s_disconnect
request_type start = c2s_start
request_type ready = c2s_ready
request_type delete_user = c2s_delete_user
request_type giveup = c2s_giveup
request_type lobby_user_list = c2s_request_lobby_user_list
request_type friend_list = c2s_request_friend_list
request_type ranking = c2s_request_ranking

login-IsFramed : (id pw : Text) → Ensures (IsFramed c2s_login) (build_login_pkt id pw)
unfolding build_login_pkt
login-IsFramed id pw = Ensures->>= (IsFramed c2s_login) (str_to_bytes id max_user_id) _ λ a _.
    Ensures->>= (IsFramed c2s_login) (str_to_bytes pw max_user_password) _
      λ b _. build_packet-IsFramed c2s_login _

join-IsFramed :
    (room_key : ℤ) (pw : Option Text)
    → Ensures (IsFramed (request_type (join_room room_key pw))) (build_join_room_pkt room_key pw)
unfolding build_join_room_pkt
join-IsFramed room_key none = build_packet-IsFramed c2s_join_open_room _
join-IsFramed room_key (some []) = build_packet-IsFramed c2s_join_open_room _
join-IsFramed room_key (some (c ∷ cs)) =
    Ensures->>= (IsFramed c2s_join_lock_room) (str_to_bytes (c ∷ cs) max_room_password) _
      λ a _. build_packet-IsFramed c2s_join_lock_room _

create-IsFramed :
    (title : Text) (players_num : ℤ) (is_open : Bool) (pw : Option Text)
    → Ensures
        (IsFramed (request_type (create_room title players_num is_open pw)))
        (build_create_room title players_num is_open pw)
unfolding build_create_room
create-IsFramed title players_num true pw =
    Ensures->>= (IsFramed c2s_add_open_room) (str_to_bytes title max_room_name) _
      λ a _. build_packet-IsFramed c2s_add_open_room _
create-IsFramed title players_num false pw =
    Ensures->>= (IsFramed c2s_add_lock_room) (str_to_bytes title max_room_name) _ λ a _.
      Ensures->>= (IsFramed c2s_add_lock_room) (str_to_bytes (or_empty pw) max_room_password) _
        λ b _. build_packet-IsFramed c2s_add_lock_room _

-- An empty message is no packet at all; every other request is framed.
abbrev pub IsBuilt : Request → Bytes → Type 0
IsBuilt (message []) pkt = pkt ≡ []
IsBuilt r pkt = IsFramed (request_type r) pkt

-- Whatever the request and its arguments, the bytes that the builder gives begin with a header: the
-- first two are the number of all the bytes, and the third is the code of the request's type. Only
-- for an empty message there are no bytes.
pub build-IsFramed : (r : Request) → Ensures (IsBuilt r) (build r)
unfolding build build_message_pkt build_move_pkt build_fast_matching build_kick_pkt
    build_request_friend_pkt build_delete_friend_pkt build_accept_friend_pkt
    build_request_room_list_pkt build_disconnect_pkt build_start_pkt build_ready_pkt
    build_delete_user_pkt build_giveup_pkt build_request_lobby_user_list_pkt
    build_request_friend_list_pkt build_request_ranking_pkt
build-IsFramed (login id pw) = login-IsFramed id pw
build-IsFramed (message []) = refl
build-IsFramed (message (c ∷ cs)) = build_message-IsFramed c cs
build-IsFramed (join_room room_key pw) = join-IsFramed room_key pw
build-IsFramed (create_room title players_num is_open pw) =
    create-IsFramed title players_num is_open pw
build-IsFramed (move m) = build_packet-IsFramed c2s_move _
build-IsFramed (fast_matching n) = build_packet-IsFramed c2s_fast_matching _
build-IsFramed (kick n) = build_packet-IsFramed c2s_kick _
build-IsFramed (request_friend n) = build_packet-IsFramed c2s_request_friend _
build-IsFramed (delete_friend n) = build_packet-IsFramed c2s_delete_friend _
build-IsFramed (accept_friend n) = build_packet-IsFramed c2s_accept_friend _
build-IsFramed room_list = build_packet-IsFramed c2s_request_room_list _
build-IsFramed disconnect = build_packet-IsFramed c2s_disconnect _
build-IsFramed start = build_packet-IsFramed c2s_start _
build-IsFramed ready = build_packet-IsFramed c2s_ready _
build-IsFramed delete_user = build_packet-IsFramed c2s_delete_user _
build-IsFramed giveup = build_packet-IsFramed c2s_giveup _
build-IsFramed lobby_user_list = build_packet-IsFramed c2s_request_lobby_user_list _
build-IsFramed friend_list = build_packet-IsFramed c2s_request_friend_list _
build-IsFramed ranking = build_packet-IsFramed c2s_request_ranking _
