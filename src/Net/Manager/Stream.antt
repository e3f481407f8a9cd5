-- ===== src/Net/Manager/Stream.antt =====
-- The receive loop of client/tetris/net/network.py over a stream that arrives in pieces.
use project_tetris.Base.{
  ℕ, ◌≤◌, ◌<◌, ◌≡◌, inl, inr, refl, sym, ap, ◌∙◌, Option, none, some, List, [], ◌∷◌, ◌++◌, arith,
  length, length-append, All,
}
use mathlib.Core.Path.{subst}
use mathlib.Core.List.{append_assoc, append-nil}
use native.Mathlib.Decide.{dec_lt}
use project_tetris.Python.Exec.{Result, ok, err}
use project_tetris.Python.Struct.{Bytes}
use project_tetris.Net.Structs.{Packet, header_size}
use project_tetris.Net.Manager.{Manager, next_size, merge_packet, process_packet, new_manager}
use project_tetris.Net.Manager.Frames.{
  IsFrame, IsPartial, joined, packets, next_size-append, process_packet_frames,
}

-- The rounds of `recv_loop` for the pieces that `recv` returns; an exception ends them.
unfoldable pub receive : List Bytes → Manager → Option (Result (Unit {0}) × Manager)
unfolding merge_packet
receive [] m = some (ok tt, m)
receive (chunk ∷ chunks) m = elim (process_packet (merge_packet m chunk)) [
  | some (ok _, m') ↦ receive chunks m'
  | some (err e, m') ↦ some (err e, m')
  | none ↦ none
]

abbrev pub concat : List Bytes → Bytes
concat [] = []
concat (chunk ∷ chunks) = chunk ++ concat chunks

-- Two ways to cut the same bytes, where the first cut is not behind the second.
append_split :
    (f z x y : Bytes)
    → x ++ y ≡ f ++ z
    → length f ≤ length x
    → (x' : Bytes) × (x ≡ f ++ x') × (x' ++ y ≡ z)
append_split [] z x y e h = (x, refl, e)
append_split (b ∷ f) z [] y e h = absurd (omega arith)
append_split (b ∷ f) z (a ∷ x) y e h =
    let (x', p, q) = append_split f z x y (cc) (omega arith) in (x', cc, q)

-- What is shorter than a packet that it begins is a part of one.
front-IsPartial :
    (x y : Bytes) (n : ℕ) → next_size (x ++ y) ≡ n → header_size ≤ n → length x < n → IsPartial x
front-IsPartial x y n e h lt = elim (dec_lt (length x) header_size) [
  | yes short ↦ inl short
  | no long ↦ inr (
    omega (arith, next_size-append x y (omega arith)),
    omega (arith, next_size-append x y (omega arith)),
  )
]

prefix-IsPartial : (x y : Bytes) → IsPartial (x ++ y) → IsPartial x
prefix-IsPartial x y (inl short) = inl (omega (arith, length-append x y))
prefix-IsPartial x y (inr (big, short)) =
    front-IsPartial x y (next_size (x ++ y)) refl big (omega (arith, length-append x y))

-- The first part of a stream holds whole packets and the front of the next.
abbrev Cut : List (Bytes × Packet) → Bytes → Bytes → Bytes → Type 0
Cut fs tail x y =
    (fs₁ : List (Bytes × Packet)) × (fs₂ : List (Bytes × Packet)) × (x' : Bytes) × (All IsFrame fs₁
      × All IsFrame fs₂)
    × (packets fs ≡ packets fs₁ ++ packets fs₂)
    × (x ≡ joined fs₁ x')
    × IsPartial x'
    × (x' ++ y ≡ joined fs₂ tail)

Cut-stream :
    (fs : List (Bytes × Packet)) (tail x y : Bytes)
    → All IsFrame fs
    → IsPartial tail
    → x ++ y ≡ joined fs tail
    → Cut fs tail x y
Cut-stream [] tail x y h part e =
    ([], [], x, (tt, tt), refl, refl, prefix-IsPartial x y (subst IsPartial (sym e) part), e)
Cut-stream ((f, p) ∷ fs) tail x y (hf, h) part e = elim (dec_lt (length x) (length f)) [
  | yes short ↦ (
    [],
    (f, p) ∷ fs,
    x,
    (tt, (hf, h)),
    refl,
    refl,
    front-IsPartial x y (length f)
        (ap next_size e ∙ next_size-append f (joined fs tail) (omega arith) ∙ hf.1) hf.0 short,
    e,
  )
  | no long ↦
      let (x₁, ex, ey) = append_split f (joined fs tail) x y e (omega arith) in
      let (fs₁, fs₂, x', (h₁, h₂), ep, ej, px, et) = Cut-stream fs tail x₁ y h part ey in
      ((f, p) ∷ fs₁, fs₂, x', ((hf, h₁), h₂), ap (◌∷◌ p) ep, ex ∙ ap (◌++◌ f) ej, px, et)
]

not-IsPartial : (f rest : Bytes) (p : Packet) → IsFrame (f, p) → ¬ IsPartial (f ++ rest)
not-IsPartial f rest p h (inl short) = omega (arith, short, length-append f rest, h.0)
not-IsPartial f rest p h (inr (big, short)) =
    omega
      (arith, short, length-append f rest, next_size-append f rest (omega (arith, h.0)), h.0, h.1)

receive_step :
    (chunk : Bytes) (chunks : List Bytes) (m m' : Manager)
    → process_packet (merge_packet m chunk) ≡ some (ok tt, m')
    → receive (chunk ∷ chunks) m ≡ receive chunks m'
unfolding receive
receive_step chunk chunks m m' e = rw (e, receive)

receive_cut :
    (chunks : List Bytes) (fs : List (Bytes × Packet)) (tail b : Bytes) (q : List Packet)
    → All IsFrame fs
    → IsPartial tail
    → IsPartial b
    → b ++ concat chunks ≡ joined fs tail
    → receive chunks (record { recv_buffer = b; queue = q })
      ≡ some (ok tt, record { recv_buffer = tail; queue = q ++ packets fs })
receive_cut [] [] tail b q h part pb e =
    let eb : b ≡ tail = sym (append-nil b) ∙ e in unfold receive in rw (eb, append-nil)
receive_cut [] ((f, p) ∷ fs) tail b q (hf, h) part pb e =
    absurd (not-IsPartial f (joined fs tail) p hf (subst IsPartial (sym (append-nil b) ∙ e) pb))
receive_cut (chunk ∷ chunks) fs tail b q h part pb e =
    let (fs₁, fs₂, x', (h₁, h₂), ep, ex, px, et) =
      Cut-stream fs tail (b ++ chunk) (concat chunks) h part
        (append_assoc b chunk (concat chunks) ∙ e) in
    let step : process_packet (record { recv_buffer = b ++ chunk; queue = q })
        ≡ some (ok tt, record { recv_buffer = x'; queue = q ++ packets fs₁ }) =
      subst
        (λ bs.
          process_packet (record { recv_buffer = bs; queue = q })
          ≡ some (ok tt, record { recv_buffer = x'; queue = q ++ packets fs₁ }))
        (sym ex) (process_packet_frames fs₁ x' q h₁ px) in
    receive_step chunk chunks (record { recv_buffer = b; queue = q })
      (record { recv_buffer = x'; queue = q ++ packets fs₁ }) (unfold merge_packet in step)
    ∙ receive_cut chunks fs₂ tail x' (q ++ packets fs₁) h₂ part px et
    ∙ ap (λ q'. some (ok tt, record { recv_buffer = tail; queue = q' }))
        (append_assoc q (packets fs₁) (packets fs₂) ∙ ap (λ ps. q ++ ps) (sym ep))

-- However a stream of whole packets and the front of another is cut into pieces, the receive loop
-- ends and raises nothing: it queues exactly the packets, in their order, and keeps the front.
pub receive_stream :
    (chunks : List Bytes) (fs : List (Bytes × Packet)) (tail : Bytes)
    → All IsFrame fs
    → IsPartial tail
    → concat chunks ≡ joined fs tail
    → receive chunks new_manager ≡ some (ok tt, record { recv_buffer = tail; queue = packets fs })
receive_stream chunks fs tail h part e =
    receive_cut chunks fs tail [] [] h part (inl (omega arith)) e
