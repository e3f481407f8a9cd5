-- ===== src/Net/Manager/Frames.antt =====
-- The loop of `process_packet` on whole packets and on a part of one.
use project_tetris.Base.{
  ℕ, zero, suc, ◌≤◌, ◌<◌, ◌≡◌, ◌⊎◌, inl, inr, refl, sym, ap, ◌∙◌, some, List, [], ◌∷◌, ◌++◌, arith,
  lt→ltb, le→ltb, length, length-append, take-append, drop-append, All,
}
use mathlib.Core.List.{append_assoc, append-nil}
use project_tetris.Python.Exec.{ok}
use project_tetris.Python.Struct.{Bytes}
use project_tetris.Net.Structs.{Packet, header_size}
use project_tetris.Net.Manager.{bytes_to_struct, next_size, scan, process_packet}

-- The bytes of one packet: they begin with their own number, and are read as the packet.
abbrev pub IsFrame : Bytes × Packet → Type 0
IsFrame (f, p) = (header_size ≤ length f) × (next_size f ≡ length f) × (bytes_to_struct f ≡ ok p)

-- The front of a packet, with less than its header or less than the header says.
abbrev pub IsPartial : Bytes → Type 0
IsPartial bs =
    (length bs < header_size) ⊎ ((header_size ≤ next_size bs) × (length bs < next_size bs))

pub next_size-append : (xs ys : Bytes) → 2 ≤ length xs → next_size (xs ++ ys) ≡ next_size xs
unfolding next_size
next_size-append [] ys h = absurd (omega arith)
next_size-append (a ∷ []) ys h = absurd (omega arith)
next_size-append (a ∷ b ∷ xs) ys h = refl

-- The packets' bytes one after the other, and then the tail.
abbrev pub joined : List (Bytes × Packet) → Bytes → Bytes
joined [] tail = tail
joined ((f, p) ∷ fs) tail = f ++ joined fs tail

abbrev pub packets : List (Bytes × Packet) → List Packet
packets [] = []
packets ((f, p) ∷ fs) = p ∷ packets fs

scan_frame :
    (fuel : ℕ) (f rest : Bytes) (p : Packet) (q : List Packet)
    → IsFrame (f, p)
    → scan (suc fuel) (f ++ rest) q ≡ scan fuel rest (q ++ (p ∷ []))
unfolding scan
scan_frame fuel f rest p q (long, size, read) =
    let e : next_size (f ++ rest) ≡ length f = next_size-append f rest (omega arith) ∙ size in
    rw (
      e,
      take-append,
      read,
      le→ltb (length (f ++ rest)) header_size (omega (arith, length-append f rest)),
      le→ltb (length f) header_size long,
      le→ltb (length (f ++ rest)) (length f) (omega (arith, length-append f rest)),
      e,
      drop-append,
    )

scan_partial :
    (fuel : ℕ) (tail : Bytes) (q : List Packet)
    → IsPartial tail
    → scan (suc fuel) tail q ≡ some (ok tt, tail, q)
unfolding scan
scan_partial fuel tail q (inl short) = rw (lt→ltb (length tail) header_size short)
scan_partial fuel tail q (inr (big, short)) = ground arith

scan_frames :
    (fuel : ℕ) (fs : List (Bytes × Packet)) (tail : Bytes) (q : List Packet)
    → All IsFrame fs
    → IsPartial tail
    → length fs < fuel
    → scan fuel (joined fs tail) q ≡ some (ok tt, tail, q ++ packets fs)
scan_frames zero fs tail q h part lt = absurd (omega arith)
scan_frames (suc fuel) [] tail q h part lt =
    scan_partial fuel tail q part ∙ ap (λ q'. some (ok tt, tail, q')) (sym (append-nil q))
scan_frames (suc fuel) ((f, p) ∷ fs) tail q (hf, h) part lt =
    scan_frame fuel f (joined fs tail) p q hf
    ∙ scan_frames fuel fs tail (q ++ (p ∷ [])) h part (omega arith)
    ∙ ap (λ q'. some (ok tt, tail, q')) (append_assoc q (p ∷ []) (packets fs))

length-joined :
    (fs : List (Bytes × Packet)) (tail : Bytes)
    → All IsFrame fs
    → length fs ≤ length (joined fs tail)
length-joined [] tail h = omega arith
length-joined ((f, p) ∷ fs) tail (hf, h) =
    omega (arith, length-append f (joined fs tail), length-joined fs tail h, hf.0)

-- On whole packets and the front of another, `process_packet` ends and raises nothing: it puts the
-- packets into the queue in their order, and keeps the front in the buffer.
pub process_packet_frames :
    (fs : List (Bytes × Packet)) (tail : Bytes) (q : List Packet)
    → All IsFrame fs
    → IsPartial tail
    → process_packet (record { recv_buffer = joined fs tail; queue = q })
      ≡ some (ok tt, record { recv_buffer = tail; queue = q ++ packets fs })
unfolding process_packet
process_packet_frames fs tail q h part = rw (
    scan_frames (suc (length (joined fs tail))) fs tail q h part
      (omega (arith, length-joined fs tail h)))
