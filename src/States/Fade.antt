-- ===== src/States/Fade.antt =====
-- client/tetris/states/base_state.py: a state that is left fades out before the next one begins. Time
-- is in whole milliseconds; drawing is left out.
pub mod Out
use project_tetris.Base.{ℕ, ◌+◌, Bool, true, false, Option, none, some, leb, if◌then◌else◌}

-- The states that a state can lead to.
pub data StateName : Type 0 where
  login lobby ranking single_play multi_play : StateName

pub data FadeMode : Type 0 where
  fade_in fade_out : FadeMode

pub record BaseState : Type 0 where
  pub next_state : Option StateName
  pub fade_mode : Option FadeMode
  pub fade_elapsed_ms : ℕ

abbrev pub new_base_state : BaseState
new_base_state = record { next_state = none; fade_mode = none; fade_elapsed_ms = 0 }

abbrev pub fade_duration_ms : ℕ
fade_duration_ms = 500

abbrev start_fade : FadeMode → BaseState → BaseState
start_fade mode s = record s { fade_mode = some mode; fade_elapsed_ms = 0 }

unfoldable pub start_fade_in : BaseState → BaseState
start_fade_in s = start_fade fade_in s

unfoldable pub start_fade_out : BaseState → BaseState
start_fade_out s = start_fade fade_out s

abbrev queue_over : BaseState → StateName → Option StateName → BaseState
unfolding start_fade_out
queue_over s next none = start_fade_out (record s { next_state = some next })
queue_over s next (some _) = s

-- A state that is queued already stays.
unfoldable pub queue_state : BaseState → StateName → BaseState
unfolding queue_over
queue_state s next = queue_over s next s.next_state

abbrev consumed : BaseState → Option StateName → Option FadeMode → Option StateName × BaseState
consumed s (some next) (some fade_out) =
    if leb fade_duration_ms s.fade_elapsed_ms
    then (some next, record s { next_state = none })
    else (none, s)
consumed s _ _ = (none, s)

-- The next state, or `none` where the source answers itself.
unfoldable pub consume_state : BaseState → Option StateName × BaseState
consume_state s = consumed s s.next_state s.fade_mode

-- `min(a, b)`
abbrev min : ℕ → ℕ → ℕ
min a b = if leb b a then b else a

abbrev end_fade_in : FadeMode → BaseState → BaseState
end_fade_in fade_in s =
    if leb fade_duration_ms s.fade_elapsed_ms then record s { fade_mode = none } else s
end_fade_in fade_out s = s

abbrev faded : BaseState → ℕ → Option FadeMode → BaseState
faded s dt_ms none = s
faded s dt_ms (some mode) =
    end_fade_in mode
      (record s { fade_elapsed_ms = min (s.fade_elapsed_ms + dt_ms) fade_duration_ms })

unfoldable pub update_fade : BaseState → ℕ → BaseState
update_fade s dt_ms = faded s dt_ms s.fade_mode

abbrev is_some {ℓ} : {A : Type ℓ} → Option A → Bool
is_some none = false
is_some (some _) = true

unfoldable pub is_input_blocked : BaseState → Bool
is_input_blocked s = is_some s.fade_mode
