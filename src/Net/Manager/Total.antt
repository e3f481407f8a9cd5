-- ===== src/Net/Manager/Total.antt =====
-- The loop of `process_packet` on any bytes: it ends, with what is left in the buffer.
use project_tetris.Base.{
  ℕ, zero, suc, ◌≤◌, ◌<◌, ◌≡◌, inl, inr, refl, Option, none, some, List, [], ◌∷◌, ◌++◌, arith,
  lt→ltb, le→ltb, length, length-drop, take, drop,
}
use native.Mathlib.Decide.{dec_lt}
use project_tetris.Python.Exec.{Result, ok, err, value_error, Result-cases}
use project_tetris.Python.Struct.{Bytes}
use project_tetris.Net.Structs.{Packet, header_size}
use project_tetris.Net.Manager.{
  Manager, Scan, bytes_to_struct, next_size, scan, scanned, process_packet,
}
use project_tetris.Net.Manager.Frames.{IsPartial}

-- The loop has ended: with nothing raised only where no whole packet is left.
abbrev HasEnded : Scan → Type 0
HasEnded none = ⊥
HasEnded (some (ok _, rest, q)) = IsPartial rest
HasEnded (some (err e, rest, q)) = Unit

scan-HasEnded :
    (fuel : ℕ) (buf : Bytes) (q : List Packet) → length buf < fuel → HasEnded (scan fuel buf q)
unfolding scan
scan-HasEnded zero buf q h = absurd (omega arith)
scan-HasEnded (suc fuel) buf q h = elim (dec_lt (length buf) header_size) [
  | yes short ↦ rw (lt→ltb (length buf) header_size short) (inl short)
  | no long ↦ elim (dec_lt (next_size buf) header_size) [
    | yes bad ↦
        rw (le→ltb (length buf) header_size (omega arith), lt→ltb (next_size buf) header_size bad)
          tt
    | no good ↦ elim (dec_lt (length buf) (next_size buf)) [
      | yes part ↦
          rw
            (
              le→ltb (length buf) header_size (omega arith),
              le→ltb (next_size buf) header_size (omega arith),
              lt→ltb (length buf) (next_size buf) part,
            )
            (inr (omega arith, part))
      | no whole ↦ elim (Result-cases (bytes_to_struct (take (next_size buf) buf))) [
        | inr (e, er) ↦
            rw
              (
                le→ltb (length buf) header_size (omega arith),
                le→ltb (next_size buf) header_size (omega arith),
                le→ltb (length buf) (next_size buf) (omega arith),
                er,
              )
              tt
        | inl (p, ep) ↦
            rw
              (
                le→ltb (length buf) header_size (omega arith),
                le→ltb (next_size buf) header_size (omega arith),
                le→ltb (length buf) (next_size buf) (omega arith),
                ep,
              )
              (scan-HasEnded fuel (drop (next_size buf) buf) (q ++ (p ∷ []))
                (omega (arith, length-drop (next_size buf) buf)))
      ]
    ]
  ]
]

-- A call that has ended: with nothing raised only where no whole packet is left.
abbrev pub CallEnded : Option (Result (Unit {0}) × Manager) → Type 0
CallEnded none = ⊥
CallEnded (some (ok _, m)) = IsPartial m.recv_buffer
CallEnded (some (err e, m)) = Unit

scanned_ended : (m : Manager) (s : Scan) → HasEnded s → CallEnded (scanned m s)
scanned_ended m none h = h
scanned_ended m (some (ok _, rest, q)) h = h
scanned_ended m (some (err e, rest, q)) h = tt

-- Whatever bytes are in the buffer, the fuel is enough for `process_packet` to return or raise; when
-- it raises nothing, what it leaves in the buffer is no whole packet, only the front of one.
pub process_packet-CallEnded : (m : Manager) → CallEnded (process_packet m)
unfolding process_packet
process_packet-CallEnded m =
    scanned_ended m (scan (suc (length m.recv_buffer)) m.recv_buffer m.queue)
      (scan-HasEnded (suc (length m.recv_buffer)) m.recv_buffer m.queue (omega arith))

-- A header that counts less than its own three bytes raises ValueError at once: the buffer and the
-- queue stay as they are, so that the next call raises it again.
pub process_packet_invalid :
    (m : Manager)
    → header_size ≤ length m.recv_buffer
    → next_size m.recv_buffer < header_size
    → process_packet m ≡ some (err value_error, m)
unfolding process_packet scan
process_packet_invalid m long bad =
    rw
      (
        le→ltb (length m.recv_buffer) header_size long,
        lt→ltb (next_size m.recv_buffer) header_size bad,
      )
      refl
