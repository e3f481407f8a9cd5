-- ===== src/Net/Builder/Texts.antt =====
-- The text fields of a login: what the server reads from the bytes that the client packs.
use project_tetris.Base.{
  ℕ, zero, suc, ◌*◌, ◌-◌, ◌<◌, ◌≤◌, ◌≡◌, ◌≢◌, refl, sym, ap, ◌∙◌, [], ◌∷◌, arith, length,
  length-append, take, All, pos, true, ltb, lt→ltb, inl, All-take,
}
use mathlib.Core.List.{append-nil}
use project_tetris.Python.Exec.{Result, ok, err, Ensures, Ensures-then}
use project_tetris.Python.Struct.{Bytes, int, bytes, str, fit, unpack}
use project_tetris.Python.Struct.RoundTrip.{AllFit, unpack-pack}
use project_tetris.Python.Utf8.{Text, encode_char, encode, decode, decode_from}
use project_tetris.Python.Utf8.RoundTrip.{IsScalar, encode_lem, decode-encode, until_nul-append}
use project_tetris.Net.Structs.{max_input, max_user_id, format, field_str, stored, to_values}
use project_tetris.Net.Registry.{c2s_login, schema_of, type_code}
use project_tetris.Net.Builder.{str_to_bytes, build_login_pkt, build_packet, pack_struct}
use project_tetris.Net.Builder.Framed.{length-fit}

-- A text that an input box can hold and that Python's 16-bit characters cover: at most 16 characters,
-- none of them zero, a surrogate, or beyond U+FFFF.
abbrev pub IsPlain : ℕ → Type 0
IsPlain c = IsScalar c × (c ≢ 0) × (c < 0x10000)

pub record IsInput (s : Text) : Type 0 where
  pub short : length s ≤ max_input
  pub plain : All IsPlain s

length-encode_char : (c : ℕ) → c < 0x10000 → Ensures (λ bs. length bs ≤ 3) (encode_char c)
unfolding encode_char
length-encode_char c h = ground arith

length-encode : (s : Text) → All IsPlain s → Ensures (λ bs. length bs ≤ 3 * length s) (encode s)
unfolding encode
length-encode [] h = omega arith
length-encode (c ∷ s) (hc, h) =
    Ensures-then (λ bs. length bs ≤ 3) (λ bs. length bs ≤ 3 * length (c ∷ s)) (encode_char c) _
      (length-encode_char c hc.2)
      λ front hf.
        Ensures-then (λ bs. length bs ≤ 3 * length s) (λ bs. length bs ≤ 3 * length (c ∷ s))
          (encode s) _ (length-encode s h)
          λ back hb. omega (arith, length-append front back, hf, hb)

plain-IsScalar : (s : Text) → All IsPlain s → All IsScalar s × All (λ c. c ≢ 0) s
plain-IsScalar [] h = (tt, tt)
plain-IsScalar (c ∷ s) (hc, h) = let (a, b) = plain-IsScalar s h in ((hc.0, a), (hc.1, b))

take-all : (n : ℕ) (bs : Bytes) → length bs ≤ n → take n bs ≡ bs
take-all zero [] h = refl
take-all zero (b ∷ bs) h = absurd (omega arith)
take-all (suc n) [] h = refl
take-all (suc n) (b ∷ bs) h = ap (◌∷◌ b) (take-all n bs (omega arith))

-- The bytes of a field for a text, which are read back as the second text.
abbrev FieldBytes : Text → Text → Type 0
FieldBytes s shown =
    (bs : Bytes) × (str_to_bytes s max_user_id ≡ ok bs)
    × (length bs ≡ max_user_id)
    × (stored field_str (bytes bs) ≡ str shown)

field_lem : (s : Text) → IsInput s → FieldBytes s s
unfolding str_to_bytes decode decode_from
field_lem s h =
    let (scalar, solid) = plain-IsScalar s h.plain in
    let (bs, e, d, nz) = encode_lem s scalar in
    let small : length bs ≤ 3 * length s = rw e at (length-encode s h.plain) in
    let kept : take max_user_id bs ≡ bs = take-all max_user_id bs (omega (arith, small, h.short)) in
    let back : decode bs ≡ s = ap decode (sym (append-nil bs)) ∙ d [] ∙ append-nil s in
    (
      fit max_user_id bs,
      rw e refl,
      length-fit max_user_id bs,
      rw (kept, until_nul-append bs (max_user_id - length bs) (nz solid), back),
    )

-- A character of ASCII, and not the one that ends a field.
abbrev pub IsAscii : ℕ → Type 0
IsAscii c = (0 < c) × (c < 128)

encode_ascii : (s : Text) → All IsAscii s → encode s ≡ ok s
unfolding encode encode_char
encode_ascii [] h = refl
encode_ascii (c ∷ s) (hc, h) =
    let small : ltb c 128 ≡ true = lt→ltb c 128 hc.1 in rw (small, encode_ascii s h) refl

ascii-IsScalar : (s : Text) → All IsAscii s → All IsScalar s × All (λ c. c ≢ 0) s
ascii-IsScalar [] h = (tt, tt)
ascii-IsScalar (c ∷ s) (hc, h) =
    let (a, b) = ascii-IsScalar s h in
    (((omega arith, inl (omega arith)), a), ((λ z. omega arith), b))

abbrev held : Result Bytes → Bytes
held (ok bs) = bs
held (err e) = []

-- A text of ASCII is cut to its first bytes, which are its first characters.
ascii_lem : (s : Text) → All IsAscii s → FieldBytes s (take max_user_id s)
unfolding str_to_bytes
ascii_lem s h =
    let cut = take max_user_id s in
    let hc = All-take IsAscii max_user_id s h in
    let (scalar, solid) = ascii-IsScalar cut hc in
    let (bs, e, d) = decode-encode cut scalar in
    let same : cut ≡ bs = ap held (sym (encode_ascii cut hc) ∙ e) in
    let back : decode cut ≡ cut = ap decode same ∙ d in
    (
      fit max_user_id s,
      rw (encode_ascii s h) refl,
      length-fit max_user_id s,
      rw (until_nul-append cut (max_user_id - length s) solid, back),
    )

-- The packet of a login whose fields are read back as these texts.
abbrev pub CarriesLogin : Text → Text → Text → Text → Type 0
CarriesLogin id pw shown_id shown_pw =
    (pkt : Bytes) × (a : Bytes) × (b : Bytes) × (build_login_pkt id pw ≡ ok pkt)
    × (unpack (format (schema_of c2s_login)) pkt
        ≡ ok (int (pos (length pkt)) ∷ int (pos (type_code c2s_login)) ∷ bytes a ∷ bytes b ∷ []))
    × (stored field_str (bytes a) ≡ str shown_id)
    × (stored field_str (bytes b) ≡ str shown_pw)

fields_lem :
    (id pw shown_id shown_pw : Text)
    → FieldBytes id shown_id
    → FieldBytes pw shown_pw
    → CarriesLogin id pw shown_id shown_pw
unfolding build_login_pkt build_packet pack_struct to_values
fields_lem id pw shown_id shown_pw (a, ea, la, sa) (b, eb, lb, sb) =
    let values = int (pos 99) ∷ int (pos (type_code c2s_login)) ∷ bytes a ∷ bytes b ∷ [] in
    let fits : AllFit (format (schema_of c2s_login)) values =
      (omega arith, (omega arith, (la, (lb, tt)))) in
    let (pkt, e, l, u) = unpack-pack (format (schema_of c2s_login)) values fits in
    (pkt, a, b, rw (ea, eb) e, rw l u, sa, sb)

-- Texts of ASCII, however long, make a packet with the first 48 characters of each.
pub build_login-ascii :
    (id pw : Text)
    → All IsAscii id
    → All IsAscii pw
    → CarriesLogin id pw (take max_user_id id) (take max_user_id pw)
build_login-ascii id pw hid hpw = fields_lem id pw _ _ (ascii_lem id hid) (ascii_lem pw hpw)

-- For an id and a password of at most 16 characters each, none of them zero, a surrogate or beyond
-- U+FFFF, the builder raises nothing. The packet's format reads back its own length, the code of
-- the login, and two fields, which decode to the id and the password that were typed.
pub build_login-unpack :
    (id pw : Text)
    → IsInput id
    → IsInput pw
    → (pkt : Bytes) × (a : Bytes) × (b : Bytes) × (build_login_pkt id pw ≡ ok pkt)
      × (unpack (format (schema_of c2s_login)) pkt
          ≡ ok (int (pos (length pkt)) ∷ int (pos (type_code c2s_login)) ∷ bytes a ∷ bytes b ∷ []))
      × (stored field_str (bytes a) ≡ str id)
      × (stored field_str (bytes b) ≡ str pw)
build_login-unpack id pw hid hpw = fields_lem id pw id pw (field_lem id hid) (field_lem pw hpw)
