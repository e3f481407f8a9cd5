-- ===== src/Net/Structs/Recv.antt =====
-- The packets that the client receives: of client/tetris/net/packet_structs.py, one record for each class: its base
-- class, its fields with their defaults in order, and its `BODY_FMT`.
use project_tetris.Base.{[], ◌∷◌, pos, negsuc, false}
use project_tetris.Python.Struct.{int32, int8, uint64, bool8, byte_string, int, bool, str}
use project_tetris.Net.Structs.{
  Schema, recv, ingame, field_int, field_str, field_bool, max_user_name, max_room_name,
  max_room_password,
}

abbrev pub s2c_error_packet : Schema
s2c_error_packet = record {
  family = recv;
  own_fields = (field_int, int (negsuc 0)) ∷ [];
  body_fmt = int32 ∷ [];
}

abbrev pub s2c_login_packet : Schema
s2c_login_packet = record {
  family = recv;
  own_fields =
      (field_int, int (negsuc 0))
      ∷ (field_int, int (negsuc 0))
      ∷ (field_int, int (negsuc 0))
      ∷ (field_int, int (negsuc 0))
      ∷ (field_str, str [])
      ∷ [];
  body_fmt = int32 ∷ int32 ∷ int32 ∷ int32 ∷ byte_string max_user_name ∷ [];
}

abbrev pub s2c_message_packet : Schema
s2c_message_packet = record {
  family = recv;
  own_fields = (field_int, int (negsuc 0)) ∷ (field_str, str []) ∷ (field_str, str []) ∷ [];
  body_fmt = int32 ∷ byte_string max_user_name ∷ [];
}

abbrev pub s2c_disconnect_packet : Schema
s2c_disconnect_packet = record {
  family = recv;
  own_fields = (field_int, int (negsuc 0)) ∷ [];
  body_fmt = int32 ∷ [];
}

abbrev pub s2c_add_open_room_packet : Schema
s2c_add_open_room_packet = record {
  family = recv;
  own_fields = (field_int, int (pos 0)) ∷ (field_int, int (negsuc 0)) ∷ (field_str, str []) ∷ [];
  body_fmt = uint64 ∷ int8 ∷ byte_string max_room_name ∷ [];
}

abbrev pub s2c_add_lock_room_packet : Schema
s2c_add_lock_room_packet = record {
  family = recv;
  own_fields =
      (field_int, int (pos 0))
      ∷ (field_int, int (negsuc 0))
      ∷ (field_str, str [])
      ∷ (field_str, str [])
      ∷ [];
  body_fmt = uint64 ∷ int8 ∷ byte_string max_room_name ∷ byte_string max_room_password ∷ [];
}

abbrev pub s2c_add_user_packet : Schema
s2c_add_user_packet = record {
  family = recv;
  own_fields = (field_int, int (negsuc 0)) ∷ (field_str, str []) ∷ [];
  body_fmt = int32 ∷ byte_string max_user_name ∷ [];
}

abbrev pub s2c_delete_user_packet : Schema
s2c_delete_user_packet = record {
  family = recv;
  own_fields = (field_int, int (negsuc 0)) ∷ [];
  body_fmt = int32 ∷ [];
}

abbrev pub s2c_ready_packet : Schema
s2c_ready_packet = record {
  family = recv;
  own_fields = (field_int, int (negsuc 0)) ∷ (field_bool, bool false) ∷ [];
  body_fmt = int32 ∷ bool8 ∷ [];
}

abbrev pub s2c_single_start_packet : Schema
s2c_single_start_packet = record {
  family = recv;
  own_fields = (field_int, int (negsuc 0)) ∷ [];
  body_fmt = int32 ∷ [];
}

abbrev pub s2c_multi_start_packet : Schema
s2c_multi_start_packet = record { family = recv; own_fields = []; body_fmt = [] }

abbrev pub s2c_kick_packet : Schema
s2c_kick_packet = record {
  family = recv;
  own_fields = (field_int, int (negsuc 0)) ∷ [];
  body_fmt = int32 ∷ [];
}

abbrev pub s2c_move_packet : Schema
s2c_move_packet = record {
  family = ingame;
  own_fields = (field_int, int (negsuc 0)) ∷ [];
  body_fmt = int8 ∷ [];
}

abbrev pub s2c_spawn_packet : Schema
s2c_spawn_packet = record {
  family = ingame;
  own_fields =
      (field_int, int (negsuc 0))
      ∷ (field_int, int (negsuc 0))
      ∷ (field_int, int (negsuc 0))
      ∷ (field_int, int (negsuc 0))
      ∷ [];
  body_fmt = int8 ∷ int8 ∷ int8 ∷ int8 ∷ [];
}

abbrev pub s2c_fix_packet : Schema
s2c_fix_packet = record {
  family = ingame;
  own_fields = (field_int, int (negsuc 0)) ∷ (field_int, int (negsuc 0)) ∷ [];
  body_fmt = int8 ∷ int8 ∷ [];
}

abbrev pub s2c_clearline_packet : Schema
s2c_clearline_packet = record {
  family = ingame;
  own_fields =
      (field_int, int (negsuc 0)) ∷ (field_int, int (negsuc 0)) ∷ (field_int, int (negsuc 0)) ∷ [];
  body_fmt = int8 ∷ int8 ∷ int32 ∷ [];
}

abbrev pub s2c_addline_packet : Schema
s2c_addline_packet = record {
  family = ingame;
  own_fields = (field_int, int (negsuc 0)) ∷ [];
  body_fmt = int8 ∷ [];
}

abbrev pub s2c_gameover_packet : Schema
s2c_gameover_packet = record { family = ingame; own_fields = []; body_fmt = [] }

abbrev pub s2c_gameend_packet : Schema
s2c_gameend_packet = record {
  family = recv;
  own_fields = (field_int, int (negsuc 0)) ∷ [];
  body_fmt = int32 ∷ [];
}

abbrev pub s2c_update_score_packet : Schema
s2c_update_score_packet = record {
  family = recv;
  own_fields = (field_int, int (negsuc 0)) ∷ [];
  body_fmt = int32 ∷ [];
}

abbrev pub s2c_match_record_packet : Schema
s2c_match_record_packet = record {
  family = recv;
  own_fields = (field_int, int (negsuc 0)) ∷ (field_int, int (negsuc 0)) ∷ [];
  body_fmt = int32 ∷ int32 ∷ [];
}

abbrev pub s2c_update_host_packet : Schema
s2c_update_host_packet = record {
  family = recv;
  own_fields = (field_int, int (negsuc 0)) ∷ [];
  body_fmt = int32 ∷ [];
}

abbrev pub s2c_room_info_packet : Schema
s2c_room_info_packet = record {
  family = recv;
  own_fields =
      (field_int, int (pos 0))
      ∷ (field_str, str [])
      ∷ (field_int, int (negsuc 0))
      ∷ (field_int, int (negsuc 0))
      ∷ (field_bool, bool false)
      ∷ (field_bool, bool false)
      ∷ [];
  body_fmt = uint64 ∷ byte_string max_room_name ∷ int8 ∷ int8 ∷ bool8 ∷ bool8 ∷ [];
}

abbrev pub s2c_info_packet : Schema
s2c_info_packet = record {
  family = recv;
  own_fields = (field_int, int (negsuc 0)) ∷ [];
  body_fmt = int32 ∷ [];
}

abbrev pub s2c_request_friend_packet : Schema
s2c_request_friend_packet = record {
  family = recv;
  own_fields = (field_int, int (negsuc 0)) ∷ (field_str, str []) ∷ [];
  body_fmt = int32 ∷ byte_string max_user_name ∷ [];
}

abbrev pub s2c_delete_friend_packet : Schema
s2c_delete_friend_packet = record {
  family = recv;
  own_fields = (field_int, int (negsuc 0)) ∷ [];
  body_fmt = int32 ∷ [];
}

abbrev pub s2c_add_friend_packet : Schema
s2c_add_friend_packet = record {
  family = recv;
  own_fields = (field_int, int (negsuc 0)) ∷ (field_str, str []) ∷ [];
  body_fmt = int32 ∷ byte_string max_user_name ∷ [];
}

abbrev pub s2c_lobby_user_info_packet : Schema
s2c_lobby_user_info_packet = record {
  family = recv;
  own_fields = (field_int, int (negsuc 0)) ∷ (field_str, str []) ∷ [];
  body_fmt = int32 ∷ byte_string max_user_name ∷ [];
}

abbrev pub s2c_friend_info_packet : Schema
s2c_friend_info_packet = record {
  family = recv;
  own_fields = (field_int, int (negsuc 0)) ∷ (field_str, str []) ∷ (field_bool, bool false) ∷ [];
  body_fmt = int32 ∷ byte_string max_user_name ∷ bool8 ∷ [];
}

abbrev pub s2c_ranking_info_packet : Schema
s2c_ranking_info_packet = record {
  family = recv;
  own_fields = (field_str, str []) ∷ (field_int, int (negsuc 0)) ∷ [];
  body_fmt = byte_string max_user_name ∷ int32 ∷ [];
}
