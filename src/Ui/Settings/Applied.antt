-- ===== src/Ui/Settings/Applied.antt =====
-- The volumes in force of client/tetris/resources/sounds.py, under the events of the settings.
use project_tetris.Base.{◌≡◌, Bool, true, false, not, ◌==◌, if-cases, if-both, length}
use project_tetris.Python.Exec.{Result, ok, err}
use project_tetris.Ui.Toolkit.{Toolkit}
use project_tetris.Python.Utf8.{Text}
use project_tetris.Ui.Event.{Event}
use project_tetris.Ui.Button
use project_tetris.Ui.Button.{handle_toggle}
use project_tetris.Ui.Settings.{
  Volumes, Sounds, SettingSound, SettingWindow, Answer, all_in_percent, saved, save_sound_settings,
  set_volumes, apply_clicked, ask_cancel, after_sliders, handle_event, handle_window_event,
}

abbrev pub IsInPercent : Sounds → Type 0
IsInPercent s = all_in_percent s.volumes ≡ true

-- A volume that is out of range leaves all as they were.
pub set_volumes-IsInPercent :
    (s : Sounds) (vs : Volumes) → IsInPercent s → IsInPercent (set_volumes s vs).1
unfolding set_volumes
set_volumes-IsInPercent s vs h =
    if-both (λ (q : Result Bool × Sounds). IsInPercent q.1) (not (length vs == length s.volumes)) h
      (if-cases (λ (q : Result Bool × Sounds). IsInPercent q.1) (all_in_percent vs)
        (kept (save_sound_settings vs)) (λ _. h))
  where
    kept : (r : Result Text) → all_in_percent vs ≡ true → IsInPercent (saved vs s r).1
    kept (ok text) e = e
    kept (err x) e = e

module _ (kit : Toolkit) where
  apply_clicked-IsInPercent :
      (b : Bool) (s : SettingSound kit) (sounds : Sounds)
      → IsInPercent sounds
      → IsInPercent (apply_clicked kit b s sounds).1
  unfolding apply_clicked
  apply_clicked-IsInPercent false s sounds h = h
  apply_clicked-IsInPercent true s sounds h =
      set_volumes-IsInPercent sounds s.adjusted_sound_volumes h

  ask_cancel-IsInPercent :
      (w : SettingWindow kit) (ev : Event) (a : Answer kit)
      → IsInPercent a.1
      → IsInPercent (ask_cancel kit w ev a).0.1
  unfolding ask_cancel
  ask_cancel-IsInPercent w ev (ok answer, sounds) h = h
  ask_cancel-IsInPercent w ev (err e, sounds) h = h

  after_sliders-IsInPercent :
      (w : SettingWindow kit) (sounds : Sounds) (ev : Event)
      (q : Result (Unit {0}) × SettingSound kit)
      → IsInPercent sounds
      → IsInPercent (after_sliders kit w sounds ev q).0.1
  unfolding after_sliders
  after_sliders-IsInPercent w sounds ev (ok _, s) h =
      let b = Button.handle_event w.apply_button ev in
      ask_cancel-IsInPercent (record w { setting = s; apply_button = b.0 }) ev
        (apply_clicked kit b.1 s sounds) (apply_clicked-IsInPercent b.1 s sounds h)
  after_sliders-IsInPercent w sounds ev (err e, s) h = h

  -- An event in the window leaves every volume in force between 0 and 100, if it was there before.
  pub handle_window_event-IsInPercent :
      (w : SettingWindow kit) (sounds : Sounds) (ev : Event)
      → IsInPercent sounds
      → IsInPercent (handle_window_event kit w sounds ev).0.1
  unfolding handle_window_event
  handle_window_event-IsInPercent w sounds ev h =
      after_sliders-IsInPercent (record w { top_menu = (handle_toggle w.top_menu ev).0 }) sounds ev
        (handle_event kit w.setting ev) h
