-- ===== src/Game/Controller/Repeat.antt =====
-- The rate at which a held key repeats.
use project_tetris.Base.{
  ℕ, ◌+◌, ◌*◌, ◌≤◌, ◌<◌, ◌≡◌, ap, true, false, List, [], ◌∷◌, ◌++◌, arith, length, length-append,
  if◌then◌else◌, All,
}
use project_tetris.Game.Board.{MoveType}
use project_tetris.Game.Controller.{Axis, first_delay_ms, delay_ms, send_axis, tick}

-- The timer of a key that is held has not reached the delay that it waits for, and the first delay
-- is over only after the first move.
pub record IsTimed (a : Axis) : Type 0 where
  pub repeats : a.first_over ≡ true → (a.elapsed_time < delay_ms) × (a.first_move ≡ true)
  pub waits : a.first_over ≡ false → a.elapsed_time < first_delay_ms

pub send_axis-IsTimed :
    (m : MoveType) (dt : ℕ) (a : Axis) → IsTimed a → IsTimed (send_axis m (tick dt a)).0
unfolding send_axis
send_axis-IsTimed m dt a h = ground (arith, h.repeats, h.waits)

-- What a press has still to get at once: the first move is worth one delay.
abbrev pub credit : Axis → ℕ
credit a = if a.first_move then 0 else delay_ms

pub send_axis_rate :
    (m : MoveType) (dt : ℕ) (a : Axis)
    → let (a', sent) = send_axis m (tick dt a) in
      delay_ms * length sent + a'.elapsed_time + credit a' ≤ a.elapsed_time + dt + credit a
unfolding send_axis
send_axis_rate m dt a = ground arith

-- All frames of a key that stays down, with the moves sent on the way.
unfoldable pub hold : MoveType → List ℕ → Axis → Axis × List MoveType
hold m [] a = (a, [])
hold m (dt ∷ dts) a =
    let (a', sent) = send_axis m (tick dt a) in
    let (a'', more) = hold m dts a' in (a'', sent ++ more)

abbrev pub total : List ℕ → ℕ
total [] = 0
total (dt ∷ dts) = dt + total dts

-- A key in its repeating phase.
pub record IsRepeating (a : Axis) : Type 0 where
  pub is_pressed : a.pressed ≡ true
  pub is_over : a.first_over ≡ true
  pub in_time : a.elapsed_time < delay_ms

repeat_step :
    (m : MoveType) (dt slow : ℕ) (a : Axis)
    → IsRepeating a
    → dt ≤ slow
    → let (a', sent) = send_axis m (tick dt a) in
      IsRepeating a' × (a.elapsed_time + dt ≤ (delay_ms + slow) * length sent + a'.elapsed_time)
unfolding send_axis
repeat_step m dt slow a h le = ground arith

hold_rate :
    (m : MoveType) (slow : ℕ) (dts : List ℕ) (a : Axis)
    → IsRepeating a
    → All (λ dt. dt ≤ slow) dts
    → let (a', sent) = hold m dts a in
      IsRepeating a'
      × (a.elapsed_time + total dts ≤ (delay_ms + slow) * length sent + a'.elapsed_time)
unfolding hold
hold_rate m slow [] a h all = (h, omega arith)
hold_rate m slow (dt ∷ dts) a h (le, all) =
    let (a', sent) = send_axis m (tick dt a) in
    let (h', one) = repeat_step m dt slow a h le in
    let (h'', more) = hold_rate m slow dts a' h' all in
    let sum = ap (λ (t : ℕ). (delay_ms + slow) * t) (length-append sent (hold m dts a').1) in
    (h'', omega (arith, one, more, sum))

-- A key that repeats keeps its pace: in frames of at most `slow` ms, held for a total time, it sends
-- at least one move for each `50 + slow` ms, up to one delay that is still running.
pub hold_pace :
    (m : MoveType) (slow : ℕ) (dts : List ℕ) (a : Axis)
    → IsRepeating a
    → All (λ dt. dt ≤ slow) dts
    → total dts < (delay_ms + slow) * length (hold m dts a).1 + delay_ms
hold_pace m slow dts a h all =
    let (h', rate) = hold_rate m slow dts a h all in omega (arith, rate, h'.in_time)
