-- ===== src/Net/Registry.antt =====
-- client/tetris/net/packet_types.py and packet_registry.py: the packet types with their numbers, and
-- the class that each number stands for.
pub mod Lookup
use project_tetris.Base.{
  ℕ, zero, suc, Option, none, some, List, [], ◌∷◌, ◌==◌, if◌then◌else◌, ℤ, pos, negsuc,
}
use project_tetris.Net.Structs.{Schema}
use project_tetris.Net.Structs.Recv.{
  s2c_error_packet, s2c_login_packet, s2c_message_packet, s2c_disconnect_packet,
  s2c_add_open_room_packet, s2c_add_lock_room_packet, s2c_add_user_packet, s2c_delete_user_packet,
  s2c_ready_packet, s2c_single_start_packet, s2c_multi_start_packet, s2c_kick_packet,
  s2c_move_packet, s2c_spawn_packet, s2c_fix_packet, s2c_clearline_packet, s2c_addline_packet,
  s2c_gameover_packet, s2c_gameend_packet, s2c_update_score_packet, s2c_match_record_packet,
  s2c_update_host_packet, s2c_room_info_packet, s2c_info_packet, s2c_request_friend_packet,
  s2c_delete_friend_packet, s2c_add_friend_packet, s2c_lobby_user_info_packet,
  s2c_friend_info_packet, s2c_ranking_info_packet,
}
use project_tetris.Net.Structs.Send.{
  c2s_login_packet, c2s_message_packet, c2s_disconnect_packet, c2s_add_open_room_packet,
  c2s_add_lock_room_packet, c2s_join_open_room_packet, c2s_join_lock_room_packet,
  c2s_delete_user_packet, c2s_ready_packet, c2s_start_packet, c2s_kick_packet, c2s_move_packet,
  c2s_giveup_packet, c2s_request_room_list_packet, c2s_fast_matching_packet,
  c2s_request_friend_packet, c2s_delete_friend_packet, c2s_accept_friend_packet,
  c2s_request_lobby_user_list_packet, c2s_request_friend_list_packet, c2s_request_ranking_packet,
}

pub data PacketType : Type 0 where
  s2c_error s2c_login c2s_login s2c_message c2s_message s2c_disconnect : PacketType
  c2s_disconnect c2s_add_open_room s2c_add_open_room c2s_add_lock_room s2c_add_lock_room
        c2s_join_open_room :
      PacketType
  s2c_add_user c2s_delete_user s2c_delete_user c2s_ready s2c_ready c2s_start : PacketType
  s2c_single_start c2s_kick s2c_kick c2s_move s2c_move s2c_spawn : PacketType
  s2c_gameover s2c_gameend s2c_clearline s2c_fix s2c_addline s2c_update_score : PacketType
  s2c_multi_start s2c_match_record s2c_update_host c2s_giveup c2s_request_room_list s2c_room_info :
      PacketType
  c2s_join_lock_room c2s_fast_matching c2s_request_friend c2s_delete_friend c2s_accept_friend
        s2c_request_friend :
      PacketType
  s2c_delete_friend s2c_add_friend c2s_request_lobby_user_list s2c_lobby_user_info
        c2s_request_friend_list s2c_friend_info :
      PacketType
  c2s_request_ranking s2c_ranking_info s2c_info : PacketType

unfoldable pub type_code : PacketType → ℕ
type_code s2c_error = 0
type_code s2c_login = 1
type_code c2s_login = 2
type_code s2c_message = 3
type_code c2s_message = 4
type_code s2c_disconnect = 7
type_code c2s_disconnect = 8
type_code c2s_add_open_room = 9
type_code s2c_add_open_room = 10
type_code c2s_add_lock_room = 11
type_code s2c_add_lock_room = 12
type_code c2s_join_open_room = 13
type_code s2c_add_user = 14
type_code c2s_delete_user = 15
type_code s2c_delete_user = 16
type_code c2s_ready = 17
type_code s2c_ready = 18
type_code c2s_start = 19
type_code s2c_single_start = 20
type_code c2s_kick = 21
type_code s2c_kick = 22
type_code c2s_move = 23
type_code s2c_move = 24
type_code s2c_spawn = 25
type_code s2c_gameover = 27
type_code s2c_gameend = 29
type_code s2c_clearline = 31
type_code s2c_fix = 33
type_code s2c_addline = 35
type_code s2c_update_score = 37
type_code s2c_multi_start = 39
type_code s2c_match_record = 41
type_code s2c_update_host = 43
type_code c2s_giveup = 45
type_code c2s_request_room_list = 47
type_code s2c_room_info = 49
type_code c2s_join_lock_room = 50
type_code c2s_fast_matching = 51
type_code c2s_request_friend = 52
type_code c2s_delete_friend = 53
type_code c2s_accept_friend = 54
type_code s2c_request_friend = 55
type_code s2c_delete_friend = 56
type_code s2c_add_friend = 57
type_code c2s_request_lobby_user_list = 58
type_code s2c_lobby_user_info = 59
type_code c2s_request_friend_list = 60
type_code s2c_friend_info = 61
type_code c2s_request_ranking = 62
type_code s2c_ranking_info = 63
type_code s2c_info = 100

-- The keys of `PACKET_REGISTRY`, in its order.
abbrev pub registered : List PacketType
registered =
    s2c_error ∷ s2c_login ∷ c2s_login ∷ s2c_message ∷ c2s_message ∷ s2c_disconnect ∷ c2s_disconnect
    ∷ s2c_add_open_room ∷ c2s_add_open_room ∷ s2c_add_lock_room ∷ c2s_add_lock_room ∷ s2c_add_user
    ∷ c2s_join_open_room ∷ c2s_join_lock_room ∷ s2c_delete_user ∷ c2s_delete_user ∷ s2c_ready
    ∷ c2s_ready ∷ s2c_single_start ∷ s2c_multi_start ∷ c2s_start ∷ s2c_kick ∷ c2s_kick ∷ c2s_move
    ∷ s2c_move ∷ s2c_spawn ∷ s2c_gameover ∷ s2c_gameend ∷ s2c_clearline ∷ s2c_fix ∷ s2c_addline
    ∷ s2c_update_score ∷ s2c_match_record ∷ s2c_update_host ∷ c2s_giveup ∷ c2s_request_room_list
    ∷ s2c_room_info ∷ c2s_fast_matching ∷ c2s_request_friend ∷ c2s_delete_friend ∷ c2s_accept_friend
    ∷ s2c_request_friend ∷ s2c_delete_friend ∷ s2c_add_friend ∷ c2s_request_lobby_user_list
    ∷ s2c_lobby_user_info ∷ c2s_request_friend_list ∷ s2c_friend_info ∷ c2s_request_ranking
    ∷ s2c_ranking_info ∷ s2c_info ∷ []

-- The values of `PACKET_REGISTRY`.
unfoldable pub schema_of : PacketType → Schema
schema_of s2c_error = s2c_error_packet
schema_of s2c_login = s2c_login_packet
schema_of c2s_login = c2s_login_packet
schema_of s2c_message = s2c_message_packet
schema_of c2s_message = c2s_message_packet
schema_of s2c_disconnect = s2c_disconnect_packet
schema_of c2s_disconnect = c2s_disconnect_packet
schema_of c2s_add_open_room = c2s_add_open_room_packet
schema_of s2c_add_open_room = s2c_add_open_room_packet
schema_of c2s_add_lock_room = c2s_add_lock_room_packet
schema_of s2c_add_lock_room = s2c_add_lock_room_packet
schema_of c2s_join_open_room = c2s_join_open_room_packet
schema_of s2c_add_user = s2c_add_user_packet
schema_of c2s_delete_user = c2s_delete_user_packet
schema_of s2c_delete_user = s2c_delete_user_packet
schema_of c2s_ready = c2s_ready_packet
schema_of s2c_ready = s2c_ready_packet
schema_of c2s_start = c2s_start_packet
schema_of s2c_single_start = s2c_single_start_packet
schema_of c2s_kick = c2s_kick_packet
schema_of s2c_kick = s2c_kick_packet
schema_of c2s_move = c2s_move_packet
schema_of s2c_move = s2c_move_packet
schema_of s2c_spawn = s2c_spawn_packet
schema_of s2c_gameover = s2c_gameover_packet
schema_of s2c_gameend = s2c_gameend_packet
schema_of s2c_clearline = s2c_clearline_packet
schema_of s2c_fix = s2c_fix_packet
schema_of s2c_addline = s2c_addline_packet
schema_of s2c_update_score = s2c_update_score_packet
schema_of s2c_multi_start = s2c_multi_start_packet
schema_of s2c_match_record = s2c_match_record_packet
schema_of s2c_update_host = s2c_update_host_packet
schema_of c2s_giveup = c2s_giveup_packet
schema_of c2s_request_room_list = c2s_request_room_list_packet
schema_of s2c_room_info = s2c_room_info_packet
schema_of c2s_join_lock_room = c2s_join_lock_room_packet
schema_of c2s_fast_matching = c2s_fast_matching_packet
schema_of c2s_request_friend = c2s_request_friend_packet
schema_of c2s_delete_friend = c2s_delete_friend_packet
schema_of c2s_accept_friend = c2s_accept_friend_packet
schema_of s2c_request_friend = s2c_request_friend_packet
schema_of s2c_delete_friend = s2c_delete_friend_packet
schema_of s2c_add_friend = s2c_add_friend_packet
schema_of c2s_request_lobby_user_list = c2s_request_lobby_user_list_packet
schema_of s2c_lobby_user_info = s2c_lobby_user_info_packet
schema_of c2s_request_friend_list = c2s_request_friend_list_packet
schema_of s2c_friend_info = s2c_friend_info_packet
schema_of c2s_request_ranking = c2s_request_ranking_packet
schema_of s2c_ranking_info = s2c_ranking_info_packet
schema_of s2c_info = s2c_info_packet

abbrev found : ℕ → PacketType → Option PacketType → Option PacketType
unfolding type_code
found n t rest = if type_code t == n then some t else rest

unfoldable pub find_type : ℕ → List PacketType → Option PacketType
unfolding found
find_type n [] = none
find_type n (t ∷ ts) = let rest = find_type n ts in found n t rest

-- `PACKET_REGISTRY[pkt_type]`: the type that a number names.
unfoldable pub lookup_type : ℤ → Option PacketType
unfolding find_type
lookup_type (pos n) = find_type n registered
lookup_type (negsuc n) = none
