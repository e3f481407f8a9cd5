-- ===== src/Python/Struct.antt =====
-- The part of Python's `struct` that the packets use: little-endian formats with no padding, of the
-- codes H, B, i, b, Q, ? and Ns. A byte string is a list of numbers.
pub mod RoundTrip
use project_tetris.Base.{
  ℕ, zero, suc, ◌+◌, ◌-◌, ◌*◌, ◌/◌, ◌%◌, ◌^◌, ◌<◌, Bool, true, false, not, Option, none, some, List,
  [], ◌∷◌, ◌++◌, ltb, ◌==◌, if◌then◌else◌, length, take, drop, replicate, ℤ, pos, negsuc,
}
use project_tetris.Python.Exec.{Result, ok, err, struct_error, ◌>>=◌}

abbrev pub Bytes : Type 0
Bytes = List ℕ

-- H, B, i, b, Q, ? and `Ns`.
pub data Code : Type 0 where
  uint16 uint8 int32 int8 uint64 bool8 : Code
  byte_string : ℕ → Code

-- The values that are packed and unpacked; `str` is a text, which `struct` itself does not take.
pub data Value : Type 0 where
  int : ℤ → Value
  bool : Bool → Value
  bytes : Bytes → Value
  str : List ℕ → Value

abbrev pub size : Code → ℕ
size uint16 = 2
size uint8 = 1
size int32 = 4
size int8 = 1
size uint64 = 8
size bool8 = 1
size (byte_string n) = n

-- `struct.calcsize`
abbrev pub calcsize : List Code → ℕ
calcsize [] = 0
calcsize (c ∷ cs) = size c + calcsize cs

unfoldable pub le_bytes : ℕ → ℕ → Bytes
le_bytes zero n = []
le_bytes (suc w) n = n % 256 ∷ le_bytes w (n / 256)

unfoldable pub from_le : Bytes → ℕ
from_le [] = 0
from_le (b ∷ bs) = b + 256 * from_le bs

-- An unsigned and a two's complement number of `w` bytes; other numbers raise struct.error.
unfoldable pub pack_unsigned : ℕ → ℤ → Result Bytes
unfolding le_bytes
pack_unsigned w (pos n) = if ltb n (256 ^ w) then ok (le_bytes w n) else err struct_error
pack_unsigned w (negsuc n) = err struct_error

unfoldable pub pack_signed : ℕ → ℤ → Result Bytes
unfolding le_bytes
pack_signed w (pos n) = if ltb n (256 ^ w / 2) then ok (le_bytes w n) else err struct_error
pack_signed w (negsuc n) =
    if ltb n (256 ^ w / 2) then ok (le_bytes w (256 ^ w - suc n)) else err struct_error

unfoldable pub read_signed : ℕ → ℕ → ℤ
read_signed w n = if ltb n (256 ^ w / 2) then pos n else negsuc (256 ^ w - suc n)

-- `N` bytes, cut or filled up with zeros.
abbrev pub fit : ℕ → Bytes → Bytes
fit n bs = take n bs ++ replicate (n - length bs) 0

abbrev pub is_zero : ℤ → Bool
is_zero (pos zero) = true
is_zero _ = false

unfoldable pub pack_value : Code → Value → Result Bytes
unfolding pack_unsigned pack_signed
pack_value uint16 (int n) = pack_unsigned 2 n
pack_value uint8 (int n) = pack_unsigned 1 n
pack_value uint64 (int n) = pack_unsigned 8 n
pack_value int32 (int n) = pack_signed 4 n
pack_value int8 (int n) = pack_signed 1 n
pack_value bool8 (bool b) = ok ((if b then 1 else 0) ∷ [])
pack_value bool8 (int n) = ok ((if is_zero n then 0 else 1) ∷ [])
pack_value (byte_string n) (bytes bs) = ok (fit n bs)
pack_value _ _ = err struct_error

unfoldable pub unpack_value : Code → Bytes → Value
unfolding from_le read_signed
unpack_value uint16 bs = int (pos (from_le bs))
unpack_value uint8 bs = int (pos (from_le bs))
unpack_value uint64 bs = int (pos (from_le bs))
unpack_value int32 bs = int (read_signed 4 (from_le bs))
unpack_value int8 bs = int (read_signed 1 (from_le bs))
unpack_value bool8 bs = bool (not (from_le bs == 0))
unpack_value (byte_string n) bs = bytes bs

-- `struct.pack`
unfoldable pub pack : List Code → List Value → Result Bytes
unfolding pack_value
pack [] [] = ok []
pack [] (v ∷ vs) = err struct_error
pack (c ∷ cs) [] = err struct_error
pack (c ∷ cs) (v ∷ vs) = do front ← pack_value c v; back ← pack cs vs; ok (front ++ back)

unfoldable pub unpack_values : List Code → Bytes → List Value
unfolding unpack_value
unpack_values [] bs = []
unpack_values (c ∷ cs) bs = unpack_value c (take (size c) bs) ∷ unpack_values cs (drop (size c) bs)

-- `struct.unpack_from` at the front of the bytes, and `struct.unpack`
unfoldable pub unpack_from : List Code → Bytes → Result (List Value)
unfolding unpack_values
unpack_from cs bs =
    if ltb (length bs) (calcsize cs) then err struct_error else ok (unpack_values cs bs)

unfoldable pub unpack : List Code → Bytes → Result (List Value)
unfolding unpack_values
unpack cs bs = if length bs == calcsize cs then ok (unpack_values cs bs) else err struct_error
