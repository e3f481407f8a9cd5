-- ===== src/Python/Utf8.antt =====
-- `s.encode("utf-8")` and `b.decode("utf-8", errors="ignore")`. A text is the list of its code points.
pub mod RoundTrip
use project_tetris.Base.{
  ℕ, zero, suc, ◌+◌, ◌-◌, ◌*◌, ◌/◌, ◌%◌, Bool, ◌&&◌, ◌||◌, List, [], ◌∷◌, ◌++◌, ltb, leb, ◌==◌,
  if◌then◌else◌,
}
use project_tetris.Python.Exec.{Result, ok, err, unicode_error, ◌>>=◌}
use project_tetris.Python.Struct.{Bytes}

abbrev pub Text : Type 0
Text = List ℕ

abbrev tail_byte : ℕ → ℕ
tail_byte n = 0x80 + n % 64

-- One code point; a surrogate cannot be encoded.
unfoldable pub encode_char : ℕ → Result Bytes
encode_char c =
    if ltb c 0x80
    then ok (c ∷ [])
    else if ltb c 0x800
    then ok ((0xC0 + c / 64) ∷ tail_byte c ∷ [])
    else if leb 0xD800 c && ltb c 0xE000
    then err unicode_error
    else if ltb c 0x10000
    then ok ((0xE0 + c / 4096) ∷ tail_byte (c / 64) ∷ tail_byte c ∷ [])
    else ok ((0xF0 + c / 262144) ∷ tail_byte (c / 4096) ∷ tail_byte (c / 64) ∷ tail_byte c ∷ [])

unfoldable pub encode : Text → Result Bytes
unfolding encode_char
encode [] = ok []
encode (c ∷ cs) = do front ← encode_char c; back ← encode cs; ok (front ++ back)

-- Between two code points, or inside one: the bytes still to come after the next, the bits so far,
-- and the range of the next byte.
pub data Progress : Type 0 where
  start : Progress
  inside : ℕ → ℕ → ℕ → ℕ → Progress

-- The first byte of a code point; a byte that cannot be one is dropped.
unfoldable pub first_byte : ℕ → List ℕ × Progress
first_byte b =
    if ltb b 0x80
    then (b ∷ [], start)
    else if ltb b 0xC2
    then ([], start)
    else if ltb b 0xE0
    then ([], inside 0 (b - 0xC0) 0x80 0xBF)
    else if b == 0xE0
    then ([], inside 1 0 0xA0 0xBF)
    else if b == 0xED
    then ([], inside 1 13 0x80 0x9F)
    else if ltb b 0xF0
    then ([], inside 1 (b - 0xE0) 0x80 0xBF)
    else if b == 0xF0
    then ([], inside 2 0 0x90 0xBF)
    else if ltb b 0xF4
    then ([], inside 2 (b - 0xF0) 0x80 0xBF)
    else if b == 0xF4
    then ([], inside 2 4 0x80 0x8F)
    else ([], start)

abbrev pub next_byte : ℕ → ℕ → List ℕ × Progress
next_byte zero acc = (acc ∷ [], start)
next_byte (suc k) acc = ([], inside k acc 0x80 0xBF)

-- A byte outside its range ends the broken code point, which is dropped, and begins a new one.
unfoldable pub decode_step : Progress → ℕ → List ℕ × Progress
unfolding first_byte
decode_step start b = first_byte b
decode_step (inside k acc lo hi) b =
    if leb lo b && leb b hi then next_byte k (acc * 64 + (b - 0x80)) else first_byte b

-- A code point that the end of the bytes cuts off is dropped.
unfoldable pub decode_from : Progress → Bytes → Text
unfolding decode_step
decode_from p [] = []
decode_from p (b ∷ bs) = let (out, p') = decode_step p b in out ++ decode_from p' bs

unfoldable pub decode : Bytes → Text
unfolding decode_from
decode bs = decode_from start bs

-- `b.partition(b"\x00")[0]`
unfoldable pub until_nul : Bytes → Bytes
until_nul [] = []
until_nul (b ∷ bs) = let rest = until_nul bs in if b == 0 then [] else b ∷ rest
