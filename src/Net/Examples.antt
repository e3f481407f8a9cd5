-- ===== src/Net/Examples.antt =====
-- The theorems on the network code at concrete packets and streams.
use project_tetris.Base.{◌≡◌, refl, none, some, List, [], ◌∷◌, ◌++◌, arith, length, inl, pos, true}
use project_tetris.Python.Exec.{ok, Ensures}
use project_tetris.Python.Struct.{Bytes, int, bytes, str, unpack, unpack_from}
use project_tetris.Python.Utf8.{Text}
use project_tetris.Net.Structs.{Packet, format, stored, field_str, fill_data}
use project_tetris.Net.Registry.{type_code, schema_of, lookup_type, c2s_login, s2c_addline}
use project_tetris.Net.Registry.Lookup.{lookup-type_code}
use project_tetris.Net.Builder.{build_login_pkt}
use project_tetris.Net.Builder.Requests.{IsBuilt, Request, create_room, build, build-IsFramed}
use project_tetris.Net.Builder.Texts.{IsInput, build_login-unpack}
use project_tetris.Net.Manager.{Manager, new_manager, bytes_to_struct, next_size, process_packet}
use project_tetris.Net.Manager.Frames.{IsFrame}
use project_tetris.Net.Manager.Stream.{receive, receive_stream}
use project_tetris.Net.Manager.Total.{CallEnded, process_packet-CallEnded}

lookup-type_code_example : lookup_type (pos (type_code s2c_addline)) ≡ some s2c_addline
lookup-type_code_example = lookup-type_code s2c_addline

-- A room for three with a title of two letters and no password.
abbrev room : Request
room = create_room (0xAC00 ∷ 65 ∷ []) (pos 3) true none

build-IsFramed_example : Ensures (IsBuilt room) (build room)
build-IsFramed_example = build-IsFramed room

abbrev id : Text
id = 97 ∷ 0xAC00 ∷ []

id-IsInput : IsInput id
id-IsInput = record { short = omega arith; plain = omega arith }

build_login_example :
    (pkt : Bytes) × (a : Bytes) × (b : Bytes) × (build_login_pkt id id ≡ ok pkt)
    × (unpack (format (schema_of c2s_login)) pkt
        ≡ ok (int (pos (length pkt)) ∷ int (pos (type_code c2s_login)) ∷ bytes a ∷ bytes b ∷ []))
    × (stored field_str (bytes a) ≡ str id)
    × (stored field_str (bytes b) ≡ str id)
build_login_example = build_login-unpack id id id-IsInput id-IsInput

-- The bytes of a line that is added, with its hole in column 4, for the player 7.
abbrev addline_bytes : Bytes
addline_bytes = 8 ∷ 0 ∷ 35 ∷ 7 ∷ 0 ∷ 0 ∷ 0 ∷ 4 ∷ []

abbrev addline : Packet
addline = record {
  schema = schema_of s2c_addline;
  packet_size = pos 8;
  packet_type = pos (type_code s2c_addline);
  values = int (pos 7) ∷ int (pos 4) ∷ [];
}

addline_read : bytes_to_struct addline_bytes ≡ ok addline
unfolding bytes_to_struct unpack_from lookup_type unpack schema_of fill_data
addline_read = refl

addline_size : next_size addline_bytes ≡ 8
unfolding next_size
addline_size = refl

addline-IsFrame : IsFrame (addline_bytes, addline)
addline-IsFrame = (omega arith, addline_size, addline_read)

-- Two packets and the front of a third, in pieces that cut the packets.
abbrev pieces : List Bytes
pieces =
    (8 ∷ 0 ∷ 35 ∷ 7 ∷ 0 ∷ []) ∷ (0 ∷ 0 ∷ 4 ∷ 8 ∷ []) ∷ (0 ∷ 35 ∷ 7 ∷ 0 ∷ 0 ∷ 0 ∷ 4 ∷ 9 ∷ []) ∷ []

abbrev frames : List (Bytes × Packet)
frames = (addline_bytes, addline) ∷ (addline_bytes, addline) ∷ []

receive_stream_example :
    receive pieces new_manager
    ≡ some (ok tt, record { recv_buffer = 9 ∷ []; queue = addline ∷ addline ∷ [] })
receive_stream_example =
    receive_stream pieces frames (9 ∷ []) (addline-IsFrame, (addline-IsFrame, tt))
      (inl (omega arith)) refl

abbrev waiting : Manager
waiting = record { recv_buffer = addline_bytes ++ (9 ∷ 0 ∷ 35 ∷ []); queue = [] }

process_packet_example : CallEnded (process_packet waiting)
process_packet_example = process_packet-CallEnded waiting
