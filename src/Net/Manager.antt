-- ===== src/Net/Manager.antt =====
-- client/tetris/net/packet_manager.py: the receive buffer, cut into packets. The queue is the list of
-- the packets put so far: `put_nowait` is tried again while the queue is full, until the other thread
-- has taken a packet, so each packet is put once, in this order.
pub mod Frames
pub mod Stream
pub mod Total
use project_tetris.Base.{
  ℕ, zero, suc, ◌+◌, ◌-◌, ◌*◌, Option, none, some, List, [], ◌∷◌, ◌++◌, ltb, if◌then◌else◌, length,
  take, drop, ℤ, pos, negsuc,
}
use project_tetris.Python.Exec.{
  Exception, Result, ok, err, key_error, struct_error, value_error, ◌>>=◌, or_raise,
}
use project_tetris.Python.Struct.{
  Bytes, Code, uint16, byte_string, Value, int, bytes, calcsize, pack, unpack, unpack_from,
}
use project_tetris.Net.Structs.{
  Schema, Packet, header_codes, header_size, format, to_values, fill_data,
}
use project_tetris.Net.Registry.{PacketType, s2c_message, lookup_type, schema_of}

pub record Manager : Type 0 where
  pub recv_buffer : Bytes
  pub queue : List Packet

abbrev pub new_manager : Manager
new_manager = record { recv_buffer = []; queue = [] }

unfoldable pub struct_to_bytes : Packet → Result Bytes
unfolding to_values
struct_to_bytes p = pack (format p.schema) (to_values p)

-- `message_size = packet_size - calcsize`; a negative one makes no format.
abbrev message_size : ℤ → ℕ → Result ℕ
message_size (pos n) front = if ltb n front then err struct_error else ok (n - front)
message_size (negsuc n) front = err struct_error

unfoldable pub unpack_message : Schema → ℤ → Bytes → Result (List Value)
unpack_message s packet_size pkt = do
  front_values ← unpack_from (format s) pkt
  n ← message_size packet_size (calcsize (format s))
  message_values ← unpack_from (byte_string n ∷ []) (drop (calcsize (format s)) pkt)
  ok (front_values ++ message_values)

unfoldable pub unpack_body : PacketType → ℤ → Bytes → Result (List Value)
unfolding unpack_message
unpack_body s2c_message packet_size pkt = unpack_message (schema_of s2c_message) packet_size pkt
unpack_body t packet_size pkt = unpack (format (schema_of t)) pkt

-- The two numbers of a header.
abbrev read_type : List Value → Result PacketType
read_type (size ∷ int t ∷ vs) = or_raise (lookup_type t) key_error
read_type _ = err struct_error

abbrev read_size : List Value → Result ℤ
read_size (int n ∷ vs) = ok n
read_size _ = err struct_error

unfoldable pub bytes_to_struct : Bytes → Result Packet
unfolding unpack_body
bytes_to_struct pkt = do
  header ← unpack_from header_codes pkt
  packet_size ← read_size header
  t ← read_type header
  unpacked_data ← unpack_body t packet_size pkt
  fill_data (schema_of t) unpacked_data

unfoldable pub merge_packet : Manager → Bytes → Manager
merge_packet m pkt = record m { recv_buffer = m.recv_buffer ++ pkt }

-- `struct.unpack_from("<H", buf, offset)[0]`, where two bytes are there.
unfoldable pub next_size : Bytes → ℕ
next_size (a ∷ b ∷ bs) = a + 256 * b
next_size _ = 0

-- The answer of the loop: how it ended, what is behind `offset`, and the queue. `none` is no Python
-- value: the loop ran out of fuel.
abbrev pub Scan : Type 0
Scan = Option (Result (Unit {0}) × Bytes × List Packet)

-- The loop of `process_packet`, on the part of the buffer behind `offset`.
unfoldable pub scan : ℕ → Bytes → List Packet → Scan
unfolding next_size
scan zero buf queue = none
scan (suc fuel) buf queue =
    let size = next_size buf in
    let rest : Scan = elim (bytes_to_struct (take size buf)) [
      | ok p ↦ scan fuel (drop size buf) (queue ++ (p ∷ []))
      | err e ↦ some (err e, buf, queue)
    ] in
    if ltb (length buf) header_size
    then some (ok tt, buf, queue)
    else if ltb size header_size
    then some (err value_error, buf, queue)
    else if ltb (length buf) size
    then some (ok tt, buf, queue)
    else rest

-- An exception leaves the buffer uncut, and the packets before it in the queue.
abbrev scanned : Manager → Scan → Option (Result (Unit {0}) × Manager)
scanned m none = none
scanned m (some (ok _, rest, queue)) = some (ok tt, record { recv_buffer = rest; queue = queue })
scanned m (some (err e, rest, queue)) = some (err e, record m { queue = queue })

-- Every round takes three bytes at least, so one more than the bytes is enough.
unfoldable pub process_packet : Manager → Option (Result (Unit {0}) × Manager)
unfolding scan
process_packet m = scanned m (scan (suc (length m.recv_buffer)) m.recv_buffer m.queue)
