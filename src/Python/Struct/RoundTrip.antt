-- ===== src/Python/Struct/RoundTrip.antt =====
-- What is packed is unpacked again.
use mathlib.Core.Path.{ap₂}
use mathlib.Core.List.{append_assoc, append-nil}
use native.Mathlib.Nat.{pow-succ'}
use project_tetris.Base.{
  ℕ, zero, suc, ◌+◌, ◌-◌, ◌*◌, ◌/◌, ◌^◌, ◌≤◌, ◌<◌, ◌≡◌, refl, ap, ◌∙◌, true, false, List, [], ◌∷◌,
  ◌++◌, arith, lt→ltb, le→ltb, length, length-append, take-append, drop-append, pos, negsuc,
}
use project_tetris.Python.Exec.{ok}
use project_tetris.Python.Struct.{
  Bytes, Code, uint16, uint8, int32, int8, uint64, bool8, byte_string, Value, int, bool, bytes,
  size, calcsize, le_bytes, from_le, pack_unsigned, pack_signed, read_signed, fit, pack_value,
  unpack_value, pack, unpack_values, unpack_from, unpack,
}

pub length-le_bytes : (w n : ℕ) → length (le_bytes w n) ≡ w
unfolding le_bytes
length-le_bytes zero n = refl
length-le_bytes (suc w) n = ap suc (length-le_bytes w (n / 256))

pub from_le-le_bytes : (w n : ℕ) → n < 256 ^ w → from_le (le_bytes w n) ≡ n
unfolding le_bytes from_le
from_le-le_bytes zero n h = omega arith
from_le-le_bytes (suc w) n h =
    let small : n < 256 * 256 ^ w = rw pow-succ' at h in
    omega (arith, from_le-le_bytes w (n / 256) (omega (arith, small)))

-- The value is one that the code takes, in range and, for `Ns`, of exactly `N` bytes.
abbrev pub Fits : Code → Value → Type 0
Fits uint16 (int (pos n)) = n < 256 ^ 2
Fits uint8 (int (pos n)) = n < 256 ^ 1
Fits uint64 (int (pos n)) = n < 256 ^ 8
Fits int32 (int (pos n)) = n < 256 ^ 4 / 2
Fits int32 (int (negsuc n)) = n < 256 ^ 4 / 2
Fits int8 (int (pos n)) = n < 256 ^ 1 / 2
Fits int8 (int (negsuc n)) = n < 256 ^ 1 / 2
Fits bool8 (bool b) = Unit
Fits (byte_string n) (bytes bs) = length bs ≡ n
Fits _ _ = ⊥

abbrev pub AllFit : List Code → List Value → Type 0
AllFit [] [] = Unit
AllFit (c ∷ cs) (v ∷ vs) = Fits c v × AllFit cs vs
AllFit _ _ = ⊥

-- The bytes of a value, as many as its code says, and what is read back from them.
abbrev Packed : Code → Value → Type 0
Packed c v =
    (bs : Bytes) × (pack_value c v ≡ ok bs) × (length bs ≡ size c) × (unpack_value c bs ≡ v)

fit-length : (n : ℕ) (bs : Bytes) → length bs ≡ n → fit n bs ≡ bs
fit-length zero [] h = refl
fit-length zero (b ∷ bs) h = absurd (omega arith)
fit-length (suc n) [] h = absurd (omega arith)
fit-length (suc n) (b ∷ bs) h = ground (arith, fit-length n bs (omega arith))

unsigned_lem :
    (w n : ℕ)
    → n < 256 ^ w
    → (pack_unsigned w (pos n) ≡ ok (le_bytes w n)) × (from_le (le_bytes w n) ≡ n)
unfolding pack_unsigned
unsigned_lem w n h = (rw (lt→ltb n (256 ^ w) h), from_le-le_bytes w n h)

module _ (w : ℕ) (fits : 0 < 256 ^ w / 2) where
  signed_pos :
      (n : ℕ)
      → n < 256 ^ w / 2
      → (pack_signed w (pos n) ≡ ok (le_bytes w n))
        × (read_signed w (from_le (le_bytes w n)) ≡ pos n)
  unfolding pack_signed read_signed
  signed_pos n h =
      let e = from_le-le_bytes w n (omega arith) in
      (rw (lt→ltb n (256 ^ w / 2) h), rw (e, lt→ltb n (256 ^ w / 2) h))

  signed_negsuc :
      (n : ℕ)
      → n < 256 ^ w / 2
      → let m = 256 ^ w - suc n in
        (pack_signed w (negsuc n) ≡ ok (le_bytes w m))
        × (read_signed w (from_le (le_bytes w m)) ≡ negsuc n)
  unfolding pack_signed read_signed
  signed_negsuc n h =
      let m = 256 ^ w - suc n in
      let e = from_le-le_bytes w m (omega arith) in
      (
        rw (lt→ltb n (256 ^ w / 2) h),
        rw (e, le→ltb m (256 ^ w / 2) (omega arith)) (ap negsuc (omega arith)),
      )

pack_value-Fits : (c : Code) (v : Value) → Fits c v → Packed c v
unfolding pack_value unpack_value
pack_value-Fits uint16 (int (pos n)) h =
    let (p, q) = unsigned_lem 2 n h in (le_bytes 2 n, p, length-le_bytes 2 n, rw q)
pack_value-Fits uint8 (int (pos n)) h =
    let (p, q) = unsigned_lem 1 n h in (le_bytes 1 n, p, length-le_bytes 1 n, rw q)
pack_value-Fits uint64 (int (pos n)) h =
    let (p, q) = unsigned_lem 8 n h in (le_bytes 8 n, p, length-le_bytes 8 n, rw q)
pack_value-Fits int32 (int (pos n)) h =
    let (p, q) = signed_pos 4 (omega arith) n h in (le_bytes 4 n, p, length-le_bytes 4 n, rw q)
pack_value-Fits int32 (int (negsuc n)) h =
    let (p, q) = signed_negsuc 4 (omega arith) n h in
    (le_bytes 4 (256 ^ 4 - suc n), p, length-le_bytes 4 (256 ^ 4 - suc n), rw q)
pack_value-Fits int8 (int (pos n)) h =
    let (p, q) = signed_pos 1 (omega arith) n h in (le_bytes 1 n, p, length-le_bytes 1 n, rw q)
pack_value-Fits int8 (int (negsuc n)) h =
    let (p, q) = signed_negsuc 1 (omega arith) n h in
    (le_bytes 1 (256 ^ 1 - suc n), p, length-le_bytes 1 (256 ^ 1 - suc n), rw q)
pack_value-Fits bool8 (bool true) h = unfold from_le in (1 ∷ [], refl, refl, refl)
pack_value-Fits bool8 (bool false) h = unfold from_le in (0 ∷ [], refl, refl, refl)
pack_value-Fits (byte_string n) (bytes bs) h = (bs, ap ok (fit-length n bs h), h, refl)
pack_value-Fits _ _ h = absurd h

-- Values that fit their format are packed into as many bytes as it says, and reading those bytes,
-- whatever follows them, gives the values back.
pub pack-unpack_values :
    (cs : List Code) (vs : List Value)
    → AllFit cs vs
    → (bs : Bytes) × (pack cs vs ≡ ok bs)
      × (length bs ≡ calcsize cs)
      × ((rest : Bytes) → unpack_values cs (bs ++ rest) ≡ vs)
unfolding pack unpack_values
pack-unpack_values [] [] h = ([], refl, refl, λ rest. refl)
pack-unpack_values [] (v ∷ vs) h = absurd h
pack-unpack_values (c ∷ cs) [] h = absurd h
pack-unpack_values (c ∷ cs) (v ∷ vs) (hv, h) =
    let (f, pf, lf, uf) = pack_value-Fits c v hv in
    let (b, pb, lb, ub) = pack-unpack_values cs vs h in
    (
      f ++ b,
      rw (pf, pb),
      length-append f b ∙ ap₂ ◌+◌ lf lb,
      λ rest. rw (append_assoc f b rest, ← lf, take-append, drop-append, uf, ub rest),
    )

pub unpack_exact :
    (cs : List Code) (bs : Bytes)
    → length bs ≡ calcsize cs
    → unpack cs bs ≡ ok (unpack_values cs bs)
unfolding unpack
unpack_exact cs bs h = ground arith

pub unpack_from_enough :
    (cs : List Code) (bs : Bytes)
    → calcsize cs ≤ length bs
    → unpack_from cs bs ≡ ok (unpack_values cs bs)
unfolding unpack_from
unpack_from_enough cs bs h = ground arith

-- Values that fit their format are packed without an error, into as many bytes as it says, and
-- `unpack` gives them back.
pub unpack-pack :
    (cs : List Code) (vs : List Value)
    → AllFit cs vs
    → (bs : Bytes) × (pack cs vs ≡ ok bs) × (length bs ≡ calcsize cs) × (unpack cs bs ≡ ok vs)
unpack-pack cs vs h =
    let (bs, p, l, u) = pack-unpack_values cs vs h in
    (bs, p, l, unpack_exact cs bs l ∙ ap ok (rw append-nil at (u [])))
