-- ===== src/Net/Structs.antt =====
-- client/tetris/net/packet_structs.py: packets as records of values. A class is a `Schema`; a packet
-- is an object of it, with the values of its fields in their order.
pub mod Recv
pub mod Send
use project_tetris.Base.{
  ℕ, zero, suc, ◌+◌, ◌*◌, Bool, true, false, List, [], ◌∷◌, ◌++◌, map, ◌==◌, if◌then◌else◌, length,
  ℤ, pos, negsuc,
}
use project_tetris.Python.Exec.{Result, ok, err, value_error, type_error, attribute_error, ◌>>=◌}
use project_tetris.Python.Struct.{
  Bytes, Code, uint16, uint8, int32, Value, int, bool, bytes, str, calcsize, pack,
}
use project_tetris.Python.Utf8.{until_nul, decode}

abbrev pub max_input : ℕ
max_input = 16

abbrev pub max_user_id : ℕ
max_user_id = 16 * 3

abbrev pub max_user_password : ℕ
max_user_password = 16 * 3

abbrev pub max_user_name : ℕ
max_user_name = 16 * 3

abbrev pub max_room_name : ℕ
max_room_name = 16 * 3

abbrev pub max_room_password : ℕ
max_room_password = 16 * 3

-- `SendPacketStruct`, `RecvPacketStruct` and its subclass `IngamePacket`.
pub data Family : Type 0 where
  send recv ingame : Family

pub data FieldType : Type 0 where
  field_int field_str field_bool field_bytes : FieldType

abbrev pub Field : Type 0
Field = FieldType × Value

pub record Schema : Type 0 where
  pub family : Family
  pub own_fields : List Field
  pub body_fmt : List Code

-- `PacketHeader.FMT`, and its `SIZE`
abbrev pub header_codes : List Code
header_codes = uint16 ∷ uint8 ∷ []

abbrev pub header_size : ℕ
header_size = calcsize header_codes

-- `HEADER_FMT` of the base class, and the fields that it adds after `header`.
abbrev pub header_fmt : Family → List Code
header_fmt ingame = header_codes ++ (int32 ∷ [])
header_fmt _ = header_codes

abbrev pub base_fields : Family → List Field
base_fields ingame = (field_int, int (negsuc 0)) ∷ []
base_fields _ = []

abbrev pub format : Schema → List Code
format s = header_fmt s.family ++ s.body_fmt

-- `fields(self)` without `header`
abbrev pub body_fields : Schema → List Field
body_fields s = base_fields s.family ++ s.own_fields

pub record Packet : Type 0 where
  pub schema : Schema
  pub packet_size : ℤ
  pub packet_type : ℤ
  pub values : List Value

-- `struct_type()`: every field has its default.
abbrev pub new_packet : Schema → Packet
new_packet s = record {
  schema = s;
  packet_size = negsuc 0;
  packet_type = negsuc 0;
  values = map (λ f. f.1) (body_fields s);
}

-- `set_header` with the size of the format.
abbrev pub set_header : ℕ → Packet → Packet
set_header t p = record p { packet_type = pos t; packet_size = pos (calcsize (format p.schema)) }

unfoldable pub to_values : Packet → List Value
to_values p = int p.packet_size ∷ int p.packet_type ∷ p.values

-- `int(v)`, for a value of a header field.
abbrev pub to_int : Value → Result ℤ
to_int (int n) = ok n
to_int (bool true) = ok (pos 1)
to_int (bool false) = ok (pos 0)
to_int _ = err type_error

-- What `fill_data` stores for a field: the bytes of a `str` field are cut at the first zero and
-- decoded.
abbrev pub stored : FieldType → Value → Value
stored field_str (bytes bs) = str (decode (until_nul bs))
stored _ v = v

-- `zip(body_fields, values[2:])`
unfoldable pub stored_values : List Field → List Value → List Value
stored_values ((t, _) ∷ fs) (v ∷ vs) = stored t v ∷ stored_values fs vs
stored_values _ _ = []

abbrev filled : Schema → Value → Value → List Value → Result Packet
unfolding stored_values
filled s size type values = do
  n ← to_int size
  t ← to_int type
  ok (record {
    schema = s;
    packet_size = n;
    packet_type = t;
    values = stored_values (body_fields s) values;
  })

abbrev fill_body : Schema → List Value → Result Packet
unfolding stored_values
fill_body s (size ∷ type ∷ values) =
    if length values == length (body_fields s) then filled s size type values else err value_error
fill_body s _ = err value_error

abbrev fill_family : Family → Schema → List Value → Result Packet
unfolding stored_values
fill_family send s values = err attribute_error
fill_family _ s values = fill_body s values

-- `fill_data` on a new object of the class; only the received packets have it.
unfoldable pub fill_data : Schema → List Value → Result Packet
unfolding fill_family
fill_data s values = fill_family s.family s values
