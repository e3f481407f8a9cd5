-- ===== src/States/Fade/Out.antt =====
-- How long it takes to leave a state.
use project_tetris.Base.{
  ℕ, ◌+◌, ◌≡◌, refl, ◌∙◌, ap, true, none, some, List, [], ◌∷◌, arith, leb, if◌then◌else◌,
}
use project_tetris.States.Fade.{
  StateName, BaseState, fade_out, fade_duration_ms, queue_state, consume_state, update_fade,
  is_input_blocked, start_fade_out, queue_over, min,
}

-- The frames of a state, each with its time, and the time of all of them.
unfoldable pub fade_frames : List ℕ → BaseState → BaseState
fade_frames [] s = s
fade_frames (dt ∷ dts) s = fade_frames dts (update_fade s dt)

abbrev pub time : List ℕ → ℕ
time [] = 0
time (dt ∷ dts) = dt + time dts

-- A state on its way out, after some time.
abbrev leaving : BaseState → StateName → ℕ → BaseState
leaving s next t = record s {
  next_state = some next;
  fade_mode = some fade_out;
  fade_elapsed_ms = min t fade_duration_ms;
}

min-min : (a b : ℕ) → min (min a 500 + b) 500 ≡ min (a + b) 500
min-min a b = ground arith

frames_lem :
    (dts : List ℕ) (s : BaseState) (next : StateName) (t : ℕ)
    → fade_frames dts (leaving s next t) ≡ leaving s next (t + time dts)
unfolding fade_frames update_fade
frames_lem [] s next t = let sum : t ≡ t + 0 = omega arith in ap (leaving s next) sum
frames_lem (dt ∷ dts) s next t =
    let sum : t + dt + time dts ≡ t + (dt + time dts) = omega arith in
    ap
      (λ v.
        fade_frames dts
          (record s { next_state = some next; fade_mode = some fade_out; fade_elapsed_ms = v }))
      (min-min t dt)
    ∙ frames_lem dts s next (t + dt)
    ∙ ap (leaving s next) sum

-- A state with nothing queued that queues another takes no input from then on, and gives way to it
-- exactly when its frames have taken 500 ms.
pub queue_state-consume_state :
    (s : BaseState) (next : StateName) (dts : List ℕ)
    → s.next_state ≡ none
    → let s' = fade_frames dts (queue_state s next) in
      (is_input_blocked s' ≡ true)
      × ((consume_state s').0 ≡ (if leb fade_duration_ms (time dts) then some next else none))
unfolding queue_state start_fade_out is_input_blocked consume_state
queue_state-consume_state s next dts e =
    let none_yet : queue_state s next ≡ leaving s next 0 = ap (queue_over s next) e in
    let all : fade_frames dts (queue_state s next) ≡ leaving s next (0 + time dts) =
      ap (fade_frames dts) none_yet ∙ frames_lem dts s next 0 in
    rw all (refl, ground arith)
