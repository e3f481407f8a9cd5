-- ===== src/States/Multi/Seats.antt =====
-- The ids of the players of a room, in client/tetris/states/multi_play_state.py.
pub mod Kept
pub mod Packets
pub mod Steps
use project_tetris.Base.{
  ℤ, pos, ◌≡◌, refl, sym, ap, ◌∙◌, arith, Bool, true, false, ◌||◌, or-false, Option, none, some,
  List, [], ◌∷◌, All, All-map, if-cases, if-both, eq_ℤ,
}
use mathlib.Core.Path.{subst}
use project_tetris.Game.Session.{TetrisSession, Player, init_session}
use project_tetris.Game.Session
use project_tetris.Game.Session.Holder.{Keeps, KeepsSeat, same_seat, init_session_seat}
use project_tetris.States.Multi.{
  Players, has_id, sits, is_free, on_first, any_player, seat, kick_added, hosts_self,
}
use project_tetris.Python.Exec.{Result, ok, err}

-- The seats do not hold players of one id.
abbrev pub Apart : Option Player → Option Player → Type 0
Apart none a = Unit
Apart (some p) a = sits p.id a ≡ false

abbrev pub OtherThan : Option Player → TetrisSession → Type 0
OtherThan o t = Apart o t.session

-- No two sessions hold the same id.
abbrev pub IsSeated : List TetrisSession → Type 0
IsSeated [] = Unit
IsSeated (s ∷ ss) = All (OtherThan s.session) ss × IsSeated ss

-- The sessions of a list after some calls, one by one.
abbrev pub KeepsSeats : List TetrisSession → List TetrisSession → Type 0
KeepsSeats [] [] = Unit
KeepsSeats [] (t ∷ ts) = ⊥
KeepsSeats (s ∷ ss) [] = ⊥
KeepsSeats (s ∷ ss) (t ∷ ts) = KeepsSeat s t × KeepsSeats ss ts

pub same_seats : (ss : List TetrisSession) → KeepsSeats ss ss
same_seats [] = tt
same_seats (s ∷ ss) = (same_seat s.session, same_seats ss)

kept-Apart : (o o' a a' : Option Player) → Keeps o o' → Keeps a a' → Apart o a → Apart o' a'
kept-Apart o none a a' k l h = tt
kept-Apart o (some p') a none k l h = refl
kept-Apart (some p) (some p') (some q) (some q') k l h = rw (k, l) h
kept-Apart none (some p') a (some q') k l h = elim k [ ]
kept-Apart (some p) (some p') none (some q') k l h = elim l [ ]

other_kept :
    (o o' : Option Player) (ss ts : List TetrisSession)
    → Keeps o o'
    → KeepsSeats ss ts
    → All (OtherThan o) ss
    → All (OtherThan o') ts
other_kept o o' [] [] k l h = tt
other_kept o o' [] (t ∷ ts) k l h = elim l [ ]
other_kept o o' (s ∷ ss) [] k l h = elim l [ ]
other_kept o o' (s ∷ ss) (t ∷ ts) k (l, ls) (p, h) =
    (kept-Apart o o' s.session t.session k l p, other_kept o o' ss ts k ls h)

-- Calls that leave every seat as it is, or free, leave the ids distinct.
pub KeepsSeats-IsSeated :
    (ss ts : List TetrisSession) → KeepsSeats ss ts → IsSeated ss → IsSeated ts
KeepsSeats-IsSeated [] [] k h = tt
KeepsSeats-IsSeated [] (t ∷ ts) k h = elim k [ ]
KeepsSeats-IsSeated (s ∷ ss) [] k h = elim k [ ]
KeepsSeats-IsSeated (s ∷ ss) (t ∷ ts) (k, ks) (p, h) =
    (other_kept s.session t.session ss ts k ks p, KeepsSeats-IsSeated ss ts ks h)

-- The call of a loop on one session keeps the seats of all.
pub on_first-KeepsSeats :
    (test : TetrisSession → Bool) (f : TetrisSession → Session.Outcome)
    → ((s : TetrisSession) → KeepsSeat s (f s).1)
    → (ss : List TetrisSession) → KeepsSeats ss (on_first test f ss).1
unfolding on_first
on_first-KeepsSeats test f k [] = tt
on_first-KeepsSeats test f k (s ∷ ss) =
    if-both (λ (q : Players). KeepsSeats (s ∷ ss) q.1) (test s) (k s, same_seats ss)
      (same_seat s.session, on_first-KeepsSeats test f k ss)

pub seat_holder :
    (i : ℤ) (ss : List TetrisSession) (p : Player) (s : TetrisSession)
    → (seat i ss p s).1.session ≡ some p
unfolding seat
seat_holder i ss p s = ended (init_session s p).0
  where
    added : (b : Result Bool) → (kick_added (init_session s p).1 b).1.session ≡ some p
    added (ok true) = init_session_seat s p
    added (ok false) = init_session_seat s p
    added (err e) = init_session_seat s p

    ended :
        (r : Result (Unit {0}))
        → (elim r as (λ _. Session.Outcome) [
          | ok _ ↦ kick_added (init_session s p).1 (hosts_self i ss)
          | err e ↦ (err e, (init_session s p).1)
        ]).1.session
          ≡ some p
    ended (ok _) = added (hosts_self i ss)
    ended (err e) = init_session_seat s p

eq_ℤ_sym : (a b : ℤ) → eq_ℤ a b ≡ false → eq_ℤ b a ≡ false
eq_ℤ_sym a b h = ground (arith, h)

-- A player apart from a seat is apart from it also after a new one has sat down there.
abbrev Sits : Player → (TetrisSession → Session.Outcome) → Type 0
Sits p f = (s : TetrisSession) → (f s).1.session ≡ some p

sits-Apart : (o : Option Player) (p : Player) → sits p.id o ≡ false → Apart o (some p)
sits-Apart none p h = tt
sits-Apart (some q) p h = eq_ℤ_sym q.id p.id h

on_first-Apart :
    (o : Option Player) (p : Player) (f : TetrisSession → Session.Outcome)
    → Sits p f
    → Apart o (some p)
    → (test : TetrisSession → Bool) (ss : List TetrisSession) → All (OtherThan o) ss
    → All (OtherThan o) (on_first test f ss).1
unfolding on_first
on_first-Apart o p f k a test [] h = tt
on_first-Apart o p f k a test (s ∷ ss) (x, h) =
    if-both (λ (q : Players). All (OtherThan o) q.1) (test s) (subst (Apart o) (sym (k s)) a, h)
      (x, on_first-Apart o p f k a test ss h)

nobody :
    (p : Player) (ss : List TetrisSession)
    → any_player (has_id p.id) ss ≡ false
    → All (OtherThan (some p)) ss
unfolding any_player
nobody p [] e = tt
nobody p (s ∷ ss) e =
    let (here, later) = or-false (has_id p.id s) (any_player (has_id p.id) ss) e in
    (here, nobody p ss later)

pub on_first-IsSeated :
    (p : Player) (f : TetrisSession → Session.Outcome)
    → Sits p f
    → (test : TetrisSession → Bool) (ss : List TetrisSession) → any_player (has_id p.id) ss ≡ false
    → IsSeated ss
    → IsSeated (on_first test f ss).1
unfolding on_first any_player
on_first-IsSeated p f k test [] e h = tt
on_first-IsSeated p f k test (s ∷ ss) e (x, h) =
    let (here, later) = or-false (has_id p.id s) (any_player (has_id p.id) ss) e in
    if-both (λ (q : Players). IsSeated q.1) (test s)
      (subst (λ o. All (OtherThan o) ss) (sym (k s)) (nobody p ss later), h)
      (
        on_first-Apart s.session p f k (sits-Apart s.session p here) test ss x,
        on_first-IsSeated p f k test ss later h,
      )
