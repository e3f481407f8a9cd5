-- ===== src/Ui/AdjustSound.antt =====
-- client/tetris/ui/adjust_sound.py: a slider for a volume. The widths that the layout takes as a share
-- of a rectangle go through floating-point numbers; the heights are only drawn, but for those of the
-- box in which a drag may begin.
pub mod Thumb
use project_tetris.Base.{
  ℕ, zero, suc, ◌/◌, ℤ, pos, negsuc, ◌+ℤ◌, ◌-ℤ◌, ◌*ℤ◌, ltb_ℤ, leb_ℤ, eq_ℤ, Bool, true, false, ◌&&◌,
  if◌then◌else◌, ◌==◌,
}
use project_tetris.Python.Exec.{Result, ok, err, zero_division_error}
use project_tetris.Ui.Toolkit.{Toolkit, Area}
use project_tetris.Python.Utf8.{Text}
use project_tetris.Ui.Event.{Event, Point, mouse_motion, mouse_button_down, mouse_button_up}

-- `n // 2`
abbrev pub half : ℤ → ℤ
half (pos n) = pos (n / 2)
half (negsuc n) = negsuc (n / 2)

unfoldable pub clamp : ℤ → ℤ → ℤ → ℤ
clamp value min_value max_value =
    if ltb_ℤ value min_value then min_value else if ltb_ℤ max_value value then max_value else value

-- The rectangles, of which only `adjust_x` moves: `valid_box_rect`, and the x and the width of
-- `volume_bar_rect`, `adjust_bar_rect` and the two parts of the bar.
pub record AdjustSound : Type 0 where
  pub volume_type : Text
  pub is_dragging : Bool
  pub adjusted_volume : ℤ
  pub valid_box : Area
  pub volume_x : ℤ
  pub volume_w : ℤ
  pub adjust_x : ℤ
  pub adjust_w : ℤ
  pub bar1_w : ℤ
  pub bar2_x : ℤ
  pub bar2_w : ℤ

-- `adjust_bar_rect.centerx`
abbrev pub centerx : AdjustSound → ℤ
centerx s = s.adjust_x +ℤ half s.adjust_w

unfoldable pub set_volume_bar_layout : AdjustSound → AdjustSound
set_volume_bar_layout s = record s {
  bar1_w = centerx s -ℤ s.volume_x;
  bar2_w = s.volume_w -ℤ (centerx s -ℤ s.volume_x);
  bar2_x = centerx s;
}

-- Where the thumb goes for the mouse; it stays where the mouse is beyond the box.
unfoldable pub moved_x : AdjustSound → ℤ → ℤ
moved_x s mouse_x =
    let min_x = s.valid_box.x in
    let max_x = s.valid_box.x +ℤ s.valid_box.w in
    let bar_min = s.volume_x in
    let bar_max = s.volume_x +ℤ s.volume_w in
    if leb_ℤ min_x mouse_x && leb_ℤ mouse_x bar_min
    then min_x
    else if ltb_ℤ min_x mouse_x && ltb_ℤ mouse_x bar_max
    then mouse_x -ℤ half s.adjust_w
    else if leb_ℤ bar_max mouse_x && leb_ℤ mouse_x max_x
    then max_x -ℤ s.adjust_w
    else s.adjust_x

module _ (kit : Toolkit) where
  open kit use {F, of_int, mul, div, trunc}

  -- `int(n * (a / 10))`: 0.4 is the quotient of 4 and 10.
  abbrev pub tenths : ℤ → ℤ → ℤ
  tenths n a = trunc (mul (of_int n) (div (of_int a) (of_int (pos 10))))

  -- `int((w / 100.0) * volume)`
  abbrev pub init_adjust_x : ℤ → ℤ → ℤ
  init_adjust_x w volume = trunc (mul (div (of_int w) (of_int (pos 100))) (of_int volume))

  -- The frame of the bar, from its left and its width; `gap` is what the box leaves of it.
  abbrev placed : Text → ℤ → Area → ℤ → ℤ → AdjustSound
  unfolding set_volume_bar_layout
  placed volume_type volume rect frame_x frame_w =
      let box_w = tenths frame_w (pos 9) in
      let box_h = tenths rect.h (pos 4) in
      let pad = half (frame_w -ℤ box_w) in
      let bar_w = box_w -ℤ pad *ℤ pos 2 in
      let box : Area = record {
        x = frame_x +ℤ pad;
        y = rect.y +ℤ half (rect.h -ℤ box_h);
        w = box_w;
        h = box_h;
      } in
      set_volume_bar_layout (record {
        volume_type = volume_type;
        is_dragging = false;
        adjusted_volume = volume;
        valid_box = box;
        volume_x = box.x +ℤ pad;
        volume_w = bar_w;
        adjust_x = box.x +ℤ init_adjust_x bar_w volume;
        adjust_w = pad *ℤ pos 2;
        bar1_w = pos 0;
        bar2_x = pos 0;
        bar2_w = pos 0;
      })

  -- The name and the value take a fifth of the width each.
  unfoldable pub new_adjust_sound : Text → ℤ → Area → AdjustSound
  unfolding placed
  new_adjust_sound volume_type volume rect =
      let name_w = tenths rect.w (pos 2) in
      placed volume_type volume rect (rect.x +ℤ name_w +ℤ name_w) (rect.w -ℤ name_w -ℤ name_w)

  -- `int(a / float(b) * 100)`
  abbrev percent : ℤ → ℤ → ℤ
  percent a b = trunc (mul (div (of_int a) (of_int b)) (of_int (pos 100)))

  abbrev pub with_volume : AdjustSound → Result (Unit {0}) × AdjustSound
  unfolding set_volume_bar_layout
  with_volume s =
      let bar_w = (s.volume_x +ℤ s.volume_w) -ℤ s.volume_x in
      if eq_ℤ bar_w (pos 0) then (err zero_division_error, s) else (
        ok tt,
        set_volume_bar_layout
            (record s { adjusted_volume = percent (centerx s -ℤ s.volume_x) bar_w }),
      )

  unfoldable pub move_adjust_bar : AdjustSound → ℤ → Result (Unit {0}) × AdjustSound
  unfolding moved_x with_volume
  move_adjust_bar s mouse_x = with_volume (record s { adjust_x = moved_x s mouse_x })

  -- A drag begins in the box, and goes on wherever the mouse is.
  unfoldable pub handle_event : AdjustSound → Event → Result (Unit {0}) × AdjustSound
  unfolding move_adjust_bar
  handle_event s (mouse_button_down button (x, y)) =
      if button == 1 && kit.collidepoint s.valid_box (x, y)
      then move_adjust_bar (record s { is_dragging = true }) x
      else (ok tt, s)
  handle_event s (mouse_motion (x, y)) = if s.is_dragging then move_adjust_bar s x else (ok tt, s)
  handle_event s (mouse_button_up button at) =
      (ok tt, if button == 1 then record s { is_dragging = false } else s)
  handle_event s _ = (ok tt, s)
