-- ===== src/Net/Structs/Send.antt =====
-- The packets that the client sends: of client/tetris/net/packet_structs.py, one record for each class: its base
-- class, its fields with their defaults in order, and its `BODY_FMT`.
use project_tetris.Base.{[], ◌∷◌, pos, negsuc}
use project_tetris.Python.Struct.{int32, int8, uint64, byte_string, int, bytes}
use project_tetris.Net.Structs.{
  Schema, send, field_int, field_bytes, max_user_id, max_user_password, max_room_name,
  max_room_password,
}

abbrev pub c2s_login_packet : Schema
c2s_login_packet = record {
  family = send;
  own_fields = (field_bytes, bytes []) ∷ (field_bytes, bytes []) ∷ [];
  body_fmt = byte_string max_user_id ∷ byte_string max_user_password ∷ [];
}

abbrev pub c2s_message_packet : Schema
c2s_message_packet = record { family = send; own_fields = []; body_fmt = [] }

abbrev pub c2s_disconnect_packet : Schema
c2s_disconnect_packet = record { family = send; own_fields = []; body_fmt = [] }

abbrev pub c2s_add_open_room_packet : Schema
c2s_add_open_room_packet = record {
  family = send;
  own_fields = (field_int, int (negsuc 0)) ∷ (field_bytes, bytes []) ∷ [];
  body_fmt = int8 ∷ byte_string max_room_name ∷ [];
}

abbrev pub c2s_add_lock_room_packet : Schema
c2s_add_lock_room_packet = record {
  family = send;
  own_fields = (field_int, int (negsuc 0)) ∷ (field_bytes, bytes []) ∷ (field_bytes, bytes []) ∷ [];
  body_fmt = int8 ∷ byte_string max_room_name ∷ byte_string max_room_password ∷ [];
}

abbrev pub c2s_join_open_room_packet : Schema
c2s_join_open_room_packet = record {
  family = send;
  own_fields = (field_int, int (pos 0)) ∷ [];
  body_fmt = uint64 ∷ [];
}

abbrev pub c2s_join_lock_room_packet : Schema
c2s_join_lock_room_packet = record {
  family = send;
  own_fields = (field_int, int (pos 0)) ∷ (field_bytes, bytes []) ∷ [];
  body_fmt = uint64 ∷ byte_string max_room_password ∷ [];
}

abbrev pub c2s_delete_user_packet : Schema
c2s_delete_user_packet = record { family = send; own_fields = []; body_fmt = [] }

abbrev pub c2s_ready_packet : Schema
c2s_ready_packet = record { family = send; own_fields = []; body_fmt = [] }

abbrev pub c2s_start_packet : Schema
c2s_start_packet = record { family = send; own_fields = []; body_fmt = [] }

abbrev pub c2s_kick_packet : Schema
c2s_kick_packet = record {
  family = send;
  own_fields = (field_int, int (negsuc 0)) ∷ [];
  body_fmt = int32 ∷ [];
}

abbrev pub c2s_move_packet : Schema
c2s_move_packet = record {
  family = send;
  own_fields = (field_int, int (negsuc 0)) ∷ [];
  body_fmt = int8 ∷ [];
}

abbrev pub c2s_giveup_packet : Schema
c2s_giveup_packet = record { family = send; own_fields = []; body_fmt = [] }

abbrev pub c2s_request_room_list_packet : Schema
c2s_request_room_list_packet = record { family = send; own_fields = []; body_fmt = [] }

abbrev pub c2s_fast_matching_packet : Schema
c2s_fast_matching_packet = record {
  family = send;
  own_fields = (field_int, int (negsuc 0)) ∷ [];
  body_fmt = int8 ∷ [];
}

abbrev pub c2s_request_friend_packet : Schema
c2s_request_friend_packet = record {
  family = send;
  own_fields = (field_int, int (negsuc 0)) ∷ [];
  body_fmt = int32 ∷ [];
}

abbrev pub c2s_delete_friend_packet : Schema
c2s_delete_friend_packet = record {
  family = send;
  own_fields = (field_int, int (negsuc 0)) ∷ [];
  body_fmt = int32 ∷ [];
}

abbrev pub c2s_accept_friend_packet : Schema
c2s_accept_friend_packet = record {
  family = send;
  own_fields = (field_int, int (negsuc 0)) ∷ [];
  body_fmt = int32 ∷ [];
}

abbrev pub c2s_request_lobby_user_list_packet : Schema
c2s_request_lobby_user_list_packet = record { family = send; own_fields = []; body_fmt = [] }

abbrev pub c2s_request_friend_list_packet : Schema
c2s_request_friend_list_packet = record { family = send; own_fields = []; body_fmt = [] }

abbrev pub c2s_request_ranking_packet : Schema
c2s_request_ranking_packet = record { family = send; own_fields = []; body_fmt = [] }
