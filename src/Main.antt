-- ===== src/Main.antt =====
-- client/tetris/main/game_loop.py: the packets and events that the loop hands to the state on the
-- screen. The state is an interface, which every state of the program has; the queue is the list of
-- the packets that the receive thread has put into it so far.
pub mod Drain
mod Examples
use project_tetris.Base.{ℕ, Bool, true, false, Option, none, some, List, [], ◌∷◌, if◌then◌else◌}
use project_tetris.Python.Exec.{Result, ok, err, system_exit}
use project_tetris.Ui.Event.{Event, quit}

pub record State (S : Type 0) (P : Type 0) : Type 1 where
  -- `next_state is not None`
  pub has_next : S → Bool
  pub handle_packet : S → P → Result (Unit {0}) × S
  pub is_input_blocked : S → Bool
  pub update : S → ℕ → List Event → Result (Option S) × S
  pub start_fade_in : S → S

abbrev is_quit : Event → Bool
is_quit quit = true
is_quit _ = false

abbrev any_quit : List Event → Bool
any_quit [] = false
any_quit (ev ∷ evs) = let rest = any_quit evs in if is_quit ev then true else rest

-- What a call leaves: the state on the screen and the queue.
pub record Loop (S : Type 0) (P : Type 0) : Type 0 where
  pub result : Result (Unit {0})
  pub state : S
  pub queue : List P

module _ {S : Type 0} {P : Type 0} (I : State S P) where
  abbrev pub after_packet : Result (Unit {0}) × S → List P → Loop S P → Loop S P
  after_packet (ok _, s) q rest = rest
  after_packet (err e, s) q rest = record { result = err e; state = s; queue = q }

  unfoldable pub drain_packets : List P → S → Loop S P
  drain_packets [] s = record { result = ok tt; state = s; queue = [] }
  drain_packets (p ∷ q) s =
      let o = I.handle_packet s p in
      let rest = drain_packets q o.1 in
      if I.has_next s
      then record { result = ok tt; state = s; queue = p ∷ q }
      else after_packet o q rest

  abbrev next_screen : Result (Option S) × S → Result (Unit {0}) × S
  next_screen (ok none, s) = (ok tt, s)
  next_screen (ok (some next), s) = (ok tt, I.start_fade_in next)
  next_screen (err e, s) = (err e, s)

  unfoldable pub update : S → ℕ → List Event → Result (Unit {0}) × S
  update s dt_ms events =
      next_screen (I.update s dt_ms (if I.is_input_blocked s then [] else events))

  -- A turn of `run`: a frame is due or not, and pygame has these events.
  abbrev frame : Bool → ℕ → List Event → Loop S P → Loop S P
  unfolding update
  frame false dt_ms events l = l
  frame true dt_ms events l =
      if any_quit events
      then record l { result = err system_exit }
      else (let o = update l.state dt_ms events in
          record { result = o.0; state = o.1; queue = l.queue })

  abbrev go_on : Result (Unit {0}) → Loop S P → Loop S P → Loop S P
  go_on (ok _) l next = next
  go_on (err e) l next = l

  unfoldable pub turn : Bool → ℕ → List Event → List P → S → Loop S P
  unfolding drain_packets frame
  turn due dt_ms events queue s =
      let l = drain_packets queue s in go_on l.result l (frame due dt_ms events l)
