-- ===== src/Net/Builder/Framed.antt =====
-- The header of every packet that the builder makes.
use mathlib.Core.Path.{subst}
use project_tetris.Base.{
  ℕ, zero, suc, ◌+◌, ◌-◌, ◌^◌, ◌≡◌, refl, sym, ap, some, List, [], ◌∷◌, ◌++◌, arith, ltb, ltb→lt,
  length, length-append, length-replicate, take, get_elem?, ℤ, pos, negsuc, Bool-cases, inl, inr,
}
use project_tetris.Python.Exec.{Result, ok, err, Ensures, Ensures->>=, Ensures-then, Result-cases}
use project_tetris.Python.Struct.{
  Bytes, Code, uint16, uint8, uint64, int32, int8, bool8, byte_string, Value, int, bool, bytes, str,
  size, calcsize, le_bytes, fit, pack_unsigned, pack_signed, pack_value, pack,
}
use project_tetris.Python.Struct.RoundTrip.{length-le_bytes}
use project_tetris.Python.Utf8.{Text, encode}
use project_tetris.Net.Structs.{
  Family, send, recv, ingame, header_codes, header_fmt, format, to_values,
}
use project_tetris.Net.Registry.{PacketType, type_code, schema_of, c2s_message}
use project_tetris.Net.Manager.{next_size}
use project_tetris.Net.Builder.{message_packet, build_message_pkt, build_packet, pack_struct}

taken_or_filled : (n : ℕ) (bs : Bytes) → length (take n bs) + (n - length bs) ≡ n
taken_or_filled zero [] = refl
taken_or_filled zero (b ∷ bs) = omega arith
taken_or_filled (suc n) [] = omega arith
taken_or_filled (suc n) (b ∷ bs) = omega (arith, taken_or_filled n bs)

pub length-fit : (n : ℕ) (bs : Bytes) → length (fit n bs) ≡ n
length-fit n bs = rw (length-append, length-replicate) (taken_or_filled n bs)

abbrev HasLength : ℕ → Bytes → Type 0
HasLength n bs = length bs ≡ n

length-pack_unsigned : (w : ℕ) (n : ℤ) → Ensures (HasLength w) (pack_unsigned w n)
unfolding pack_unsigned
length-pack_unsigned w (pos n) = ground (arith, length-le_bytes w n)
length-pack_unsigned w (negsuc n) = tt

length-pack_signed : (w : ℕ) (n : ℤ) → Ensures (HasLength w) (pack_signed w n)
unfolding pack_signed
length-pack_signed w (pos n) = ground (arith, length-le_bytes w n)
length-pack_signed w (negsuc n) = ground (arith, length-le_bytes w (256 ^ w - suc n))

length-pack_value : (c : Code) (v : Value) → Ensures (HasLength (size c)) (pack_value c v)
unfolding pack_value
length-pack_value uint16 (int n) = length-pack_unsigned 2 n
length-pack_value uint8 (int n) = length-pack_unsigned 1 n
length-pack_value uint64 (int n) = length-pack_unsigned 8 n
length-pack_value int32 (int n) = length-pack_signed 4 n
length-pack_value int8 (int n) = length-pack_signed 1 n
length-pack_value bool8 (int n) = refl
length-pack_value (byte_string n) (int m) = tt
length-pack_value uint16 (bool b) = tt
length-pack_value uint8 (bool b) = tt
length-pack_value uint64 (bool b) = tt
length-pack_value int32 (bool b) = tt
length-pack_value int8 (bool b) = tt
length-pack_value bool8 (bool b) = refl
length-pack_value (byte_string n) (bool b) = tt
length-pack_value uint16 (bytes b) = tt
length-pack_value uint8 (bytes b) = tt
length-pack_value uint64 (bytes b) = tt
length-pack_value int32 (bytes b) = tt
length-pack_value int8 (bytes b) = tt
length-pack_value bool8 (bytes b) = tt
length-pack_value (byte_string n) (bytes bs) = length-fit n bs
length-pack_value uint16 (str s) = tt
length-pack_value uint8 (str s) = tt
length-pack_value uint64 (str s) = tt
length-pack_value int32 (str s) = tt
length-pack_value int8 (str s) = tt
length-pack_value bool8 (str s) = tt
length-pack_value (byte_string n) (str s) = tt

-- What is packed is as long as its format says.
pub length-pack :
    (cs : List Code) (vs : List Value) → Ensures (HasLength (calcsize cs)) (pack cs vs)
unfolding pack
length-pack [] [] = refl
length-pack [] (v ∷ vs) = tt
length-pack (c ∷ cs) [] = tt
length-pack (c ∷ cs) (v ∷ vs) =
    Ensures-then (HasLength (size c)) (HasLength (size c + calcsize cs)) (pack_value c v) _
      (length-pack_value c v)
      λ front hf.
        Ensures-then (HasLength (calcsize cs)) (HasLength (size c + calcsize cs)) (pack cs vs) _
          (length-pack cs vs) λ back hb. omega (arith, length-append front back, hf, hb)

-- The bytes begin with a length in two bytes and the type's code in one.
abbrev pub HasHeader : ℕ → ℕ → Bytes → Type 0
HasHeader n t pkt = (next_size pkt ≡ n) × (get_elem? pkt 2 ≡ some t)

pack_header :
    (n t : ℕ) (cs : List Code) (vs : List Value)
    → Ensures
        (λ pkt. HasHeader n t pkt × HasLength (calcsize (header_codes ++ cs)) pkt)
        (pack (header_codes ++ cs) (int (pos n) ∷ int (pos t) ∷ vs))
unfolding pack pack_value pack_unsigned le_bytes next_size
pack_header n t cs vs = elim (Bool-cases (ltb n 65536)) [
  | inr big ↦ rw big tt
  | inl small ↦ elim (Bool-cases (ltb t 256)) [
    | inr big ↦ rw (small, big) tt
    | inl less ↦ elim (Result-cases (pack cs vs)) [
      | inr (x, e) ↦ rw (small, less, e) tt
      | inl (back, e) ↦
          let hb : length back ≡ calcsize cs = rw e at (length-pack cs vs) in
          rw (small, less, e)
            (
              (omega (arith, ltb→lt n 65536 small), ap some (omega (arith, ltb→lt t 256 less))),
              omega (arith, hb),
            )
    ]
  ]
]

pack_format :
    (fam : Family) (n t : ℕ) (cs : List Code) (vs : List Value)
    → Ensures
        (λ pkt. HasHeader n t pkt × HasLength (calcsize (header_fmt fam ++ cs)) pkt)
        (pack (header_fmt fam ++ cs) (int (pos n) ∷ int (pos t) ∷ vs))
pack_format send n t cs vs = pack_header n t cs vs
pack_format recv n t cs vs = pack_header n t cs vs
pack_format ingame n t cs vs = pack_header n t (int32 ∷ cs) vs

pub Ensures-weaken :
    (P Q : Bytes → Type 0) (r : Result Bytes)
    → ((pkt : Bytes) → P pkt → Q pkt)
    → Ensures P r
    → Ensures Q r
Ensures-weaken P Q (ok pkt) f h = f pkt h
Ensures-weaken P Q (err e) f h = tt

-- The length in the header is that of the packet.
abbrev pub IsFramed : PacketType → Bytes → Type 0
IsFramed t pkt = HasHeader (length pkt) (type_code t) pkt

framed :
    (t : PacketType) (n : ℕ) (pkt : Bytes)
    → HasHeader n (type_code t) pkt × HasLength n pkt
    → IsFramed t pkt
framed t n pkt (h, l) = subst (λ k. HasHeader k (type_code t) pkt) (sym l) h

pub build_packet-IsFramed :
    (t : PacketType) (values : List Value) → Ensures (IsFramed t) (build_packet t values)
unfolding build_packet pack_struct to_values
build_packet-IsFramed t values =
    let n = calcsize (format (schema_of t)) in
    Ensures-weaken (λ pkt. HasHeader n (type_code t) pkt × HasLength n pkt) (IsFramed t) _
      (framed t n) (pack_format (schema_of t).family n (type_code t) (schema_of t).body_fmt values)

-- The header of a message is three bytes, which the message's bytes follow.
message-IsFramed :
    (header encoded : Bytes)
    → HasHeader (3 + length encoded) (type_code c2s_message) header × HasLength 3 header
    → IsFramed c2s_message (header ++ encoded)
unfolding next_size
message-IsFramed (a ∷ b ∷ t ∷ []) encoded ((n, e), l) = (omega (arith, n), e)
message-IsFramed [] encoded (h, l) = absurd (omega (arith, l))
message-IsFramed (a ∷ []) encoded (h, l) = absurd (omega (arith, l))
message-IsFramed (a ∷ b ∷ []) encoded (h, l) = absurd (omega (arith, l))
message-IsFramed (a ∷ b ∷ t ∷ d ∷ header) encoded (h, l) = absurd (omega (arith, l))

pub build_message-IsFramed :
    (c : ℕ) (cs : Text) → Ensures (IsFramed c2s_message) (build_message_pkt (c ∷ cs))
unfolding build_message_pkt pack_struct to_values
build_message-IsFramed c cs = Ensures->>= (IsFramed c2s_message) (encode (c ∷ cs)) _ λ encoded e.
    Ensures-then
      (λ header. HasHeader (3 + length encoded) (type_code c2s_message) header × HasLength 3 header)
      (IsFramed c2s_message) (pack_struct (message_packet (length encoded))) _
      (pack_format send (3 + length encoded) (type_code c2s_message) [] [])
      (λ header h. message-IsFramed header encoded h)
