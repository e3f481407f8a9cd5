-- ===== src/Ui/Settings.antt =====
-- client/tetris/ui/setting_sound.py, the events of setting_window.py, and the volumes of
-- client/tetris/resources/sounds.py: the sliders for the volumes, and how they are applied. What is
-- handed to pygame's mixer is left out, and so is the file of the settings, but for its text.
pub mod Applied
use project_tetris.Base.{
  ℕ, zero, suc, ◌+◌, ◌-◌, ◌*◌, ◌/◌, ◌%◌, ◌+ℤ◌, ◌-ℤ◌, ◌*ℤ◌, ℤ, pos, negsuc, ltb, ltb_ℤ, leb_ℤ, Bool,
  true, false, ◌&&◌, ◌||◌, not, Option, none, some, List, [], ◌∷◌, ◌++◌, if◌then◌else◌, ◌==◌,
  length,
}
use project_tetris.Python.Exec.{Result, ◌>>=◌, ok, err, or_raise, key_error}
use project_tetris.Ui.Toolkit.{Toolkit, Area}
use project_tetris.Python.Utf8.{Text}
use project_tetris.Python.Chars.{text_eq}
use project_tetris.Ui.Event.{Event}
use project_tetris.Ui.Button
use project_tetris.Ui.Button.{Button, ToggleButton, handle_toggle, set_pressed}
use project_tetris.Ui.AdjustSound
use project_tetris.Ui.AdjustSound.{AdjustSound, new_adjust_sound, half}
use project_tetris.Ui.Texts.{
  master_text, music_text, effect_text, sound_text, apply_text, cancel_text, success_text,
}

-- A dict of volumes, by their names.
abbrev pub Volumes : Type 0
Volumes = List (Text × ℤ)

abbrev pub default_volumes : Volumes
default_volumes = (master_text, pos 100) ∷ (music_text, pos 80) ∷ (effect_text, pos 80) ∷ []

unfoldable pub volume_of : Text → Volumes → Option ℤ
volume_of name [] = none
volume_of name ((n, v) ∷ vs) =
    let rest = volume_of name vs in if text_eq n name then some v else rest

-- `volumes[name] = v`
unfoldable pub set_volume : Text → ℤ → Volumes → Volumes
set_volume name v [] = (name, v) ∷ []
set_volume name v ((n, w) ∷ vs) =
    let rest = set_volume name v vs in if text_eq n name then (n, v) ∷ vs else (n, w) ∷ rest

abbrev pub in_percent : ℤ → Bool
in_percent v = not (ltb_ℤ (pos 100) v || ltb_ℤ v (pos 0))

unfoldable pub all_in_percent : Volumes → Bool
all_in_percent [] = true
all_in_percent ((n, v) ∷ vs) = in_percent v && all_in_percent vs

-- `max(0, min(100, v))`
abbrev pub to_percent : ℤ → ℕ
to_percent (pos n) = if ltb 100 n then 100 else n
to_percent (negsuc n) = 0

-- `str(n)`, with a digit for each step of the fuel.
unfoldable pub show_number : ℕ → ℕ → Text
show_number zero n = []
show_number (suc fuel) n =
    let rest = show_number fuel (n / 10) in
    if ltb n 10 then (48 + n) ∷ [] else rest ++ ((48 + n % 10) ∷ [])

abbrev pub setting_line : Text → ℕ → Text
unfolding show_number
setting_line name n = name ++ (61 ∷ (show_number (suc n) n ++ (10 ∷ [])))

-- The text of the file; a volume that is missing raises.
unfoldable pub save_sound_settings : Volumes → Result Text
unfolding volume_of setting_line
save_sound_settings vs = do
  master ← or_raise (volume_of master_text vs) key_error
  bgm ← or_raise (volume_of music_text vs) key_error
  effect ← or_raise (volume_of effect_text vs) key_error
  ok (
      setting_line master_text (to_percent master)
      ++ (setting_line music_text (to_percent bgm) ++ setting_line effect_text (to_percent effect)))

-- The volumes in force, and the text of the file, where one was written.
pub record Sounds : Type 0 where
  pub volumes : Volumes
  pub file : Option Text

unfoldable pub saved : Volumes → Sounds → Result Text → Result Bool × Sounds
saved vs s (ok text) = (ok true, record { volumes = vs; file = some text })
saved vs s (err e) = (err e, record s { volumes = vs })

-- As many volumes as before, each from 0 to 100; else nothing changes.
unfoldable pub set_volumes : Sounds → Volumes → Result Bool × Sounds
unfolding all_in_percent save_sound_settings saved
set_volumes s vs =
    if not (length vs == length s.volumes)
    then (ok false, s)
    else if all_in_percent vs
    then saved vs s (save_sound_settings vs)
    else (ok false, s)

-- `n // d`
abbrev floor_div : ℤ → ℕ → ℤ
floor_div (pos n) d = pos (n / d)
floor_div (negsuc n) d = negsuc (n / d)

module _ (kit : Toolkit) where
  -- The sliders, one for each volume, and the volumes that they show.
  pub record SettingSound : Type 0 where
    pub sound_settings : List AdjustSound
    pub adjusted_sound_volumes : Volumes

  -- Every second strip of the rectangle has a slider, from `y` on.
  unfoldable pub sliders : Area → ℤ → ℤ → Volumes → List AdjustSound
  unfolding new_adjust_sound
  sliders rect h y [] = []
  sliders rect h y ((name, v) ∷ vs) =
      new_adjust_sound kit name v (record rect { y = y; h = h })
      ∷ sliders rect h (y +ℤ h *ℤ pos 2) vs

  -- `n` sliders, with a gap as high as one between two of them.
  abbrev laid_out : Area → ℕ → Volumes → SettingSound
  unfolding sliders
  laid_out rect zero vs = record { sound_settings = []; adjusted_sound_volumes = vs }
  laid_out rect (suc n) vs =
      let h = floor_div rect.h (suc n * 2 - 1) in
      let total_h = h *ℤ pos (suc n) +ℤ h *ℤ pos n in
      record {
        sound_settings = sliders rect h (rect.y +ℤ half (rect.h -ℤ total_h)) vs;
        adjusted_sound_volumes = vs;
      }

  unfoldable pub set_layout : Area → Volumes → SettingSound
  unfolding laid_out
  set_layout rect vs = laid_out rect (length vs) vs

  unfoldable pub modify_settings : List AdjustSound → Volumes → Volumes
  unfolding set_volume
  modify_settings [] vs = vs
  modify_settings (a ∷ ss) vs = modify_settings ss (set_volume a.volume_type a.adjusted_volume vs)

  -- The loop over the sliders; an exception ends it.
  unfoldable pub slide : List AdjustSound → Event → Result (Unit {0}) × List AdjustSound
  unfolding AdjustSound.handle_event
  slide [] ev = (ok tt, [])
  slide (a ∷ ss) ev =
      let (r, a') = AdjustSound.handle_event kit a ev in
      let (r', ss') = slide ss ev in elim r [ ok _ ↦ (r', a' ∷ ss') | err e ↦ (err e, a' ∷ ss) ]

  abbrev modified :
      SettingSound → Result (Unit {0}) × List AdjustSound → Result (Unit {0}) × SettingSound
  unfolding modify_settings
  modified s (ok _, ss) = (
    ok tt,
    record {
      sound_settings = ss;
      adjusted_sound_volumes = modify_settings ss s.adjusted_sound_volumes;
    },
  )
  modified s (err e, ss) = (err e, record s { sound_settings = ss })

  unfoldable pub handle_event : SettingSound → Event → Result (Unit {0}) × SettingSound
  unfolding slide modified
  handle_event s ev = modified s (slide s.sound_settings ev)

  -- The window: a menu of settings, of which there is one, and the buttons below. An answer closes
  -- it, so that the volumes that were applied are not moved by its sliders any more.
  pub record SettingWindow : Type 0 where
    pub setting : SettingSound
    pub top_menu : ToggleButton
    pub apply_button : Button
    pub cancel_button : Button

  abbrev pub Answer : Type 0
  Answer = Result (Option Text) × Sounds

  -- `apply_settings`, where its button was clicked. The button to cancel comes after it.
  unfoldable pub apply_clicked : Bool → SettingSound → Sounds → Answer
  unfolding set_volumes
  apply_clicked false s sounds = (ok none, sounds)
  apply_clicked true s sounds =
      let (r, sounds') = set_volumes sounds s.adjusted_sound_volumes in
      (elim r [ ok true ↦ ok (some success_text) | ok false ↦ ok none | err e ↦ err e ], sounds')

  unfoldable pub ask_cancel : SettingWindow → Event → Answer → Answer × SettingWindow
  unfolding Button.handle_event
  ask_cancel w ev (err e, sounds) = ((err e, sounds), w)
  ask_cancel w ev (ok answer, sounds) =
      let (b, cancelled) = Button.handle_event w.cancel_button ev in
      (
        (ok (if cancelled then some cancel_text else answer), sounds),
        record w { cancel_button = b },
      )

  unfoldable pub after_sliders :
      SettingWindow → Sounds → Event → Result (Unit {0}) × SettingSound → Answer × SettingWindow
  unfolding apply_clicked ask_cancel Button.handle_event
  after_sliders w sounds ev (err e, s) = ((err e, sounds), record w { setting = s })
  after_sliders w sounds ev (ok _, s) =
      let (b, applied) = Button.handle_event w.apply_button ev in
      ask_cancel (record w { setting = s; apply_button = b }) ev (apply_clicked applied s sounds)

  unfoldable pub handle_window_event : SettingWindow → Sounds → Event → Answer × SettingWindow
  unfolding handle_event after_sliders handle_toggle
  handle_window_event w sounds ev =
      let menu = (handle_toggle w.top_menu ev).0 in
      after_sliders (record w { top_menu = menu }) sounds ev (handle_event w.setting ev)
