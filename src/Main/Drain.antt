-- ===== src/Main/Drain.antt =====
-- No packet is lost or handled twice when the state changes.
use project_tetris.Base.{◌≡◌, ◌⊎◌, inl, inr, refl, ap, true, false, List, [], ◌∷◌, ◌++◌, Bool-cases}
use project_tetris.Python.Exec.{Result, ok, err}
use project_tetris.Main.{State, Loop, after_packet, drain_packets}

module _ {S : Type 0} {P : Type 0} (I : State S P) where
  -- A state with no other waiting takes the packets one after the other, and raises nothing.
  abbrev pub Takes : List P → S → S → Type 0
  Takes [] s s' = s ≡ s'
  Takes (p ∷ ps) s s' =
      (I.has_next s ≡ false)
      × ((I.handle_packet s p).0 ≡ ok tt)
      × Takes ps (I.handle_packet s p).1 s'

  -- How the draining ends: the queue is empty or another state waits, or the last packet raised.
  abbrev pub Ends : List P → S → Loop S P → Result (Unit {0}) → Type 0
  Ends queue s l (ok _) =
      (done : List P) × (queue ≡ done ++ l.queue)
      × Takes done s l.state
      × ((l.queue ≡ []) ⊎ (I.has_next l.state ≡ true))
  Ends queue s l (err e) =
      (done : List P) × (p : P) × (before : S) × (queue ≡ done ++ (p ∷ l.queue))
      × Takes done s before
      × (I.has_next before ≡ false)
      × (I.handle_packet before p ≡ (err e, l.state))

  more :
      (p : P) (q : List P) (s : S) (l : Loop S P) (r : Result (Unit {0}))
      → I.has_next s ≡ false
      → (I.handle_packet s p).0 ≡ ok tt
      → Ends q (I.handle_packet s p).1 l r
      → Ends (p ∷ q) s l r
  more p q s l (ok _) idle fine (done, e, takes, end) =
      (p ∷ done, ap (◌∷◌ p) e, (idle, fine, takes), end)
  more p q s l (err x) idle fine (done, p', before, e, takes, free, raised) =
      (p ∷ done, p', before, ap (◌∷◌ p) e, (idle, fine, takes), free, raised)

  stepped :
      (p : P) (q : List P) (s : S) (o : Result (Unit {0}) × S) (l : Loop S P)
      → I.has_next s ≡ false
      → I.handle_packet s p ≡ o
      → Ends q o.1 l l.result
      → Ends (p ∷ q) s (after_packet I o q l) (after_packet I o q l).result
  stepped p q s (ok t, s') l idle e end =
      more p q s l l.result idle (ap (λ o. o.0) e) (rw (ap (λ o. o.1) e) end)
  stepped p q s (err x, s') l idle e end = ([], p, s, refl, refl, idle, e)

  -- Whatever the state does with a packet: draining hands the packets to it in their order, each once,
  -- while no other state waits, and leaves the others in the queue for the next state. It stops at the
  -- end of the queue, before the first packet that finds another state waiting, or at an exception of
  -- the state, when the packet that raised is gone and those behind it are still queued.
  pub drain_packets_lem :
      (queue : List P) (s : S)
      → Ends queue s (drain_packets I queue s) (drain_packets I queue s).result
  unfolding drain_packets
  drain_packets_lem [] s = ([], refl, refl, inl refl)
  drain_packets_lem (p ∷ q) s = elim (Bool-cases (I.has_next s)) [
    | inl waits ↦ rw waits ([], refl, refl, inr waits)
    | inr idle ↦ rw idle (
        stepped p q s (I.handle_packet s p) (drain_packets I q (I.handle_packet s p).1) idle refl
          (drain_packets_lem q (I.handle_packet s p).1))
  ]
