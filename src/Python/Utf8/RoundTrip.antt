-- ===== src/Python/Utf8/RoundTrip.antt =====
-- What is encoded is decoded again.
use mathlib.Core.List.{append_assoc, append-nil}
use native.Mathlib.Decide.{dec_lt}
use project_tetris.Base.{
  ℕ, zero, suc, ◌+◌, ◌-◌, ◌*◌, ◌/◌, ◌%◌, ◌≤◌, ◌<◌, ◌≡◌, ◌≢◌, ◌⊎◌, refl, ap, sym, ◌∙◌, [], ◌∷◌, ◌++◌,
  arith, All, ◌==◌, if◌then◌else◌, lt→ltb, replicate, All-append,
}
use project_tetris.Python.Exec.{ok}
use project_tetris.Python.Struct.{Bytes}
use project_tetris.Python.Utf8.{
  Text, encode_char, encode, start, inside, first_byte, decode_step, decode_from, decode, until_nul,
}

-- A Unicode scalar value: a code point that is no surrogate.
abbrev pub IsScalar : ℕ → Type 0
IsScalar c = (c < 0x110000) × ((c < 0xD800) ⊎ (0xE000 ≤ c))

encode_char_two :
    (c : ℕ)
    → 0x80 ≤ c
    → c < 0x800
    → (rest : Bytes)
    → decode_from start ((0xC0 + c / 64) ∷ (0x80 + c % 64) ∷ rest) ≡ c ∷ decode_from start rest
unfolding decode_from first_byte
encode_char_two c h k rest = ground arith

encode_char_three :
    (c : ℕ)
    → 0x800 ≤ c
    → c < 0x10000
    → (c < 0xD800) ⊎ (0xE000 ≤ c)
    → (rest : Bytes)
    → decode_from start ((0xE0 + c / 4096) ∷ (0x80 + c / 64 % 64) ∷ (0x80 + c % 64) ∷ rest)
      ≡ c ∷ decode_from start rest
unfolding decode_from first_byte
encode_char_three c h k s rest = ground arith

-- A byte in its range takes the decoder one byte further.
inside_more :
    (k acc lo hi b : ℕ) (bs : Bytes)
    → lo ≤ b
    → b ≤ hi
    → decode_from (inside (suc k) acc lo hi) (b ∷ bs)
      ≡ decode_from (inside k (acc * 64 + (b - 0x80)) 0x80 0xBF) bs
unfolding decode_from
inside_more k acc lo hi b bs h h' = ground arith

inside_last :
    (acc lo hi b : ℕ) (bs : Bytes)
    → lo ≤ b
    → b ≤ hi
    → decode_from (inside 0 acc lo hi) (b ∷ bs) ≡ (acc * 64 + (b - 0x80)) ∷ decode_from start bs
unfolding decode_from
inside_last acc lo hi b bs h h' = ground arith

four_first :
    (q : ℕ)
    → q ≤ 4
    → first_byte (0xF0 + q)
      ≡ ([], inside 2 q (if q == 0 then 0x90 else 0x80) (if q == 4 then 0x8F else 0xBF))
unfolding first_byte
four_first q h = ground arith

from_first :
    (b : ℕ) (bs : Bytes) {k acc lo hi : ℕ}
    → first_byte b ≡ ([], inside k acc lo hi)
    → decode_from start (b ∷ bs) ≡ decode_from (inside k acc lo hi) bs
unfolding decode_from decode_step
from_first b bs e = rw e

encode_char_four :
    (c : ℕ)
    → 0x10000 ≤ c
    → c < 0x110000
    → (rest : Bytes)
    → decode_from start (
        (0xF0 + c / 262144)
        ∷ (0x80 + c / 4096 % 64)
        ∷ (0x80 + c / 64 % 64)
        ∷ (0x80 + c % 64)
        ∷ rest)
      ≡ c ∷ decode_from start rest
encode_char_four c h k rest =
    let q = c / 262144 in
    let b = 0x80 + c / 4096 % 64 in
    let low : (if q == 0 then 0x90 else 0x80) ≤ b = ground arith in
    let high : b ≤ (if q == 4 then 0x8F else 0xBF) = ground arith in
    from_first (0xF0 + q) (b ∷ (0x80 + c / 64 % 64) ∷ (0x80 + c % 64) ∷ rest)
      (four_first q (omega arith))
    ∙ inside_more 1 q _ _ b _ low high
    ∙ inside_more 0 _ _ _ (0x80 + c / 64 % 64) _ (omega arith) (omega arith)
    ∙ inside_last _ _ _ (0x80 + c % 64) rest (omega arith) (omega arith)
    ∙ ap (λ v. v ∷ decode_from start rest) (omega arith)

-- A scalar value is encoded in one to four bytes, which the decoder reads back as that value.
abbrev pub CharBytes : ℕ → Type 0
CharBytes c =
    (bs : Bytes) × (encode_char c ≡ ok bs)
    × ((rest : Bytes) → decode_from start (bs ++ rest) ≡ c ∷ decode_from start rest)
    × (c ≢ 0 → All (λ b. b ≢ 0) bs)

pub encode_char_lem : (c : ℕ) → IsScalar c → CharBytes c
encode_char_lem c (top, gap) = elim (dec_lt c 0x80) [
  | yes a ↦ (
    c ∷ [],
    unfold encode_char in rw (lt→ltb c 0x80 a),
    (λ rest. unfold decode_from first_byte in rw (lt→ltb c 0x80 a)),
    (λ n. (n, tt)),
  )
  | no a ↦ elim (dec_lt c 0x800) [
    | yes b ↦ (
      (0xC0 + c / 64) ∷ (0x80 + c % 64) ∷ [],
      unfold encode_char in ground arith,
      encode_char_two c (omega arith) b,
      (λ n. omega arith),
    )
    | no b ↦ elim (dec_lt c 0x10000) [
      | yes d ↦ (
        (0xE0 + c / 4096) ∷ (0x80 + c / 64 % 64) ∷ (0x80 + c % 64) ∷ [],
        unfold encode_char in ground arith,
        encode_char_three c (omega arith) d gap,
        (λ n. omega arith),
      )
      | no d ↦ (
        (0xF0 + c / 262144) ∷ (0x80 + c / 4096 % 64) ∷ (0x80 + c / 64 % 64) ∷ (0x80 + c % 64) ∷ [],
        unfold encode_char in ground arith,
        encode_char_four c (omega arith) top,
        (λ n. omega arith),
      )
    ]
  ]
]

-- The same for a whole text.
abbrev pub TextBytes : Text → Type 0
TextBytes s =
    (bs : Bytes) × (encode s ≡ ok bs)
    × ((rest : Bytes) → decode_from start (bs ++ rest) ≡ s ++ decode_from start rest)
    × (All (λ c. c ≢ 0) s → All (λ b. b ≢ 0) bs)

encode-cons : (c : ℕ) (s : Text) → CharBytes c → TextBytes s → TextBytes (c ∷ s)
unfolding encode
encode-cons c s (f, ef, df, nf) (b, eb, db, nb) = (
  f ++ b,
  rw (ef, eb),
  (λ rest. rw (append_assoc f b rest) (df (b ++ rest) ∙ ap (◌∷◌ c) (db rest))),
  (λ n. All-append (λ b. b ≢ 0) f b (nf n.0) (nb n.1)),
)

pub encode_lem : (s : Text) → All IsScalar s → TextBytes s
encode_lem [] h = ([], unfold encode in refl, (λ rest. refl), (λ n. tt))
encode_lem (c ∷ s) (hc, h) = encode-cons c s (encode_char_lem c hc) (encode_lem s h)

-- A text of scalar values is encoded without an error, and decoded as it was.
pub decode-encode :
    (s : Text) → All IsScalar s → (bs : Bytes) × (encode s ≡ ok bs) × (decode bs ≡ s)
unfolding decode decode_from
decode-encode s h =
    let (bs, e, d, _) = encode_lem s h in
    (bs, e, ap decode (sym (append-nil bs)) ∙ d [] ∙ append-nil s)

until_nul-replicate : (n : ℕ) → until_nul (replicate n 0) ≡ []
unfolding until_nul
until_nul-replicate zero = refl
until_nul-replicate (suc n) = refl

-- Bytes with no zero are what stands before the zeros that fill them up.
pub until_nul-append :
    (bs : Bytes) (n : ℕ) → All (λ b. b ≢ 0) bs → until_nul (bs ++ replicate n 0) ≡ bs
unfolding until_nul
until_nul-append [] n h = until_nul-replicate n
until_nul-append (b ∷ bs) n (hb, h) = ground (arith, until_nul-append bs n h)
