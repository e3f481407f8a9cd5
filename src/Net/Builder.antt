-- ===== src/Net/Builder.antt =====
-- client/tetris/net/packet_builder.py: the bytes of the packets that the client sends. A field that is
-- set on the new object is given with the others; the calls raise what `encode` and `struct.pack` do.
pub mod Framed
pub mod Requests
pub mod Texts
use project_tetris.Base.{
  ℕ, ◌+◌, Bool, true, false, Option, none, some, List, [], ◌∷◌, ◌++◌, length, if◌then◌else◌, ℤ, pos,
}
use project_tetris.Python.Exec.{Result, ok, err, ◌>>=◌}
use project_tetris.Python.Struct.{Bytes, Value, int, bytes, calcsize, fit, pack}
use project_tetris.Python.Utf8.{Text, encode}
use project_tetris.Net.Structs.{
  Schema, Packet, format, new_packet, set_header, to_values, max_user_id, max_user_password,
  max_room_name, max_room_password,
}
use project_tetris.Net.Registry.{
  PacketType, type_code, schema_of, c2s_login, c2s_message, c2s_join_lock_room, c2s_join_open_room,
  c2s_request_room_list, c2s_disconnect, c2s_move, c2s_add_open_room, c2s_add_lock_room,
  c2s_fast_matching, c2s_start, c2s_ready, c2s_delete_user, c2s_giveup, c2s_kick,
  c2s_request_friend, c2s_delete_friend, c2s_accept_friend, c2s_request_lobby_user_list,
  c2s_request_friend_list, c2s_request_ranking,
}

-- The encoding, cut or filled up with zeros to `array_len` bytes.
unfoldable pub str_to_bytes : Text → ℕ → Result Bytes
str_to_bytes s array_len = do encoded ← encode s; ok (fit array_len encoded)

unfoldable pub pack_struct : Packet → Result Bytes
unfolding to_values
pack_struct p = pack (format p.schema) (to_values p)

-- A new object of the type's class with its header and fields set.
abbrev pub filled_packet : PacketType → List Value → Packet
filled_packet t values = record (set_header (type_code t) (new_packet (schema_of t))) {
  values = values;
}

unfoldable pub build_packet : PacketType → List Value → Result Bytes
unfolding schema_of type_code
build_packet t values = pack_struct (filled_packet t values)

unfoldable pub build_login_pkt : Text → Text → Result Bytes
build_login_pkt id pw = do
  user_id ← str_to_bytes id max_user_id
  user_password ← str_to_bytes pw max_user_password
  build_packet c2s_login (bytes user_id ∷ bytes user_password ∷ [])

-- The header of a message counts the bytes that follow the struct.
abbrev message_packet : ℕ → Packet
message_packet message_bytes =
    let p : Packet = filled_packet c2s_message [] in
    record p { packet_size = pos (calcsize (format p.schema) + message_bytes) }

unfoldable pub build_message_pkt : Text → Result Bytes
unfolding schema_of type_code
build_message_pkt [] = ok []
build_message_pkt (c ∷ cs) = do
  encoded ← encode (c ∷ cs)
  header ← pack_struct (message_packet (length encoded))
  ok (header ++ encoded)

abbrev build_join_open : ℤ → Result Bytes
build_join_open room_key = build_packet c2s_join_open_room (int room_key ∷ [])

-- No password, or an empty one, joins an open room.
unfoldable pub build_join_room_pkt : ℤ → Option Text → Result Bytes
build_join_room_pkt room_key none = build_join_open room_key
build_join_room_pkt room_key (some []) = build_join_open room_key
build_join_room_pkt room_key (some (c ∷ cs)) = do
  room_password ← str_to_bytes (c ∷ cs) max_room_password
  build_packet c2s_join_lock_room (int room_key ∷ bytes room_password ∷ [])

unfoldable pub build_request_room_list_pkt : Result Bytes
build_request_room_list_pkt = build_packet c2s_request_room_list []

unfoldable pub build_disconnect_pkt : Result Bytes
build_disconnect_pkt = build_packet c2s_disconnect []

unfoldable pub build_move_pkt : ℤ → Result Bytes
build_move_pkt move_type = build_packet c2s_move (int move_type ∷ [])

-- `pw or ""`
abbrev pub or_empty : Option Text → Text
or_empty none = []
or_empty (some s) = s

abbrev build_add_room : Text → ℤ → Bool → Option Text → Bytes → Result Bytes
build_add_room title players_num true pw title_bytes =
    build_packet c2s_add_open_room (int players_num ∷ bytes title_bytes ∷ [])
build_add_room title players_num false pw title_bytes = do
  room_password ← str_to_bytes (or_empty pw) max_room_password
  build_packet c2s_add_lock_room (int players_num ∷ bytes title_bytes ∷ bytes room_password ∷ [])

unfoldable pub build_create_room : Text → ℤ → Bool → Option Text → Result Bytes
build_create_room title players_num is_open pw = do
  title_bytes ← str_to_bytes title max_room_name
  build_add_room title players_num is_open pw title_bytes

unfoldable pub build_fast_matching : ℤ → Result Bytes
build_fast_matching max_user = build_packet c2s_fast_matching (int max_user ∷ [])

unfoldable pub build_start_pkt : Result Bytes
build_start_pkt = build_packet c2s_start []

unfoldable pub build_ready_pkt : Result Bytes
build_ready_pkt = build_packet c2s_ready []

unfoldable pub build_delete_user_pkt : Result Bytes
build_delete_user_pkt = build_packet c2s_delete_user []

unfoldable pub build_giveup_pkt : Result Bytes
build_giveup_pkt = build_packet c2s_giveup []

unfoldable pub build_kick_pkt : ℤ → Result Bytes
build_kick_pkt target_id = build_packet c2s_kick (int target_id ∷ [])

unfoldable pub build_request_friend_pkt : ℤ → Result Bytes
build_request_friend_pkt recver_id = build_packet c2s_request_friend (int recver_id ∷ [])

unfoldable pub build_delete_friend_pkt : ℤ → Result Bytes
build_delete_friend_pkt target_id = build_packet c2s_delete_friend (int target_id ∷ [])

unfoldable pub build_accept_friend_pkt : ℤ → Result Bytes
build_accept_friend_pkt requester_id = build_packet c2s_accept_friend (int requester_id ∷ [])

unfoldable pub build_request_lobby_user_list_pkt : Result Bytes
build_request_lobby_user_list_pkt = build_packet c2s_request_lobby_user_list []

unfoldable pub build_request_friend_list_pkt : Result Bytes
build_request_friend_list_pkt = build_packet c2s_request_friend_list []

unfoldable pub build_request_ranking_pkt : Result Bytes
build_request_ranking_pkt = build_packet c2s_request_ranking []
