-- ===== src/Ui/Scroll/Events.antt =====
-- `handle_event` of client/tetris/ui/scroll_window_base.py: the mouse on the scroll bar.
use project_tetris.Base.{ℤ, pos, ◌+ℤ◌, ◌-ℤ◌, ltb_ℤ, leb_ℤ, true, false, ◌&&◌, if◌then◌else◌, ◌==◌}
use project_tetris.Ui.Toolkit.{Toolkit}
use project_tetris.Ui.Event.{
  Event, Point, mouse_motion, mouse_button_down, mouse_button_up, mouse_wheel,
}
use project_tetris.Ui.Scroll.{
  Scroll, bg_scroll_area, scroll_area, track_bottom, place_thumb, set_show_start_index,
}

module _ (kit : Toolkit) where
  open kit use {of_int, add, sub, div, lt, le, F}

  -- Outside the thumb the thumb's middle goes to the mouse, and stays in the track.
  abbrev centred : Scroll kit → ℤ → F
  centred s y =
      let at = sub (of_int y) (div (of_int s.scroll_h) (of_int (pos 2))) in
      if le at (of_int s.window.y)
      then of_int s.window.y
      else if lt (of_int s.window.y) at && lt at (of_int (track_bottom kit s))
      then at
      else of_int (track_bottom kit s)

  unfoldable pub press_bar : Scroll kit → Point → Scroll kit
  press_bar s (x, y) =
      if kit.collidepoint (bg_scroll_area kit s) (x, y)
      then record s {
        scroll_y = if kit.collidepoint (scroll_area kit s) (x, y) then s.scroll_y else centred s y;
        prev_y = y;
        can_drag = true;
        can_scroll = true;
      }
      else if kit.collidepoint s.window (x, y)
      then record s { can_scroll = true; can_drag = false }
      else record s { can_drag = false; can_scroll = false }

  -- `scroll_y + px_diff`, kept in the track.
  abbrev dragged : Scroll kit → ℤ → F
  dragged s diff =
      let at = add s.scroll_y (of_int diff) in
      if lt (of_int (s.window.y +ℤ s.window.h)) (add at (of_int s.scroll_h))
      then of_int (track_bottom kit s)
      else if lt at (of_int s.window.y)
      then of_int s.window.y
      else at

  unfoldable pub drag : Scroll kit → ℤ → Scroll kit
  drag s y =
      let top = s.window.y in
      let bottom = s.window.y +ℤ s.window.h in
      if leb_ℤ y top
      then record s { scroll_y = of_int top; prev_y = top }
      else if ltb_ℤ top y && ltb_ℤ y bottom
      then record s { scroll_y = dragged s (y -ℤ s.prev_y); prev_y = y }
      else record s { scroll_y = of_int (track_bottom kit s); prev_y = bottom }

  -- The wheel moves the thumb by the pixels of one line.
  unfoldable pub turn : Scroll kit → ℤ → F
  turn s y =
      let top = of_int s.window.y in
      let bottom = of_int (track_bottom kit s) in
      if ltb_ℤ (pos 0) y
      then (if lt top (sub s.scroll_y s.scroll_px) then sub s.scroll_y s.scroll_px else top)
      else if lt (add s.scroll_y s.scroll_px) bottom
      then add s.scroll_y s.scroll_px
      else bottom

  unfoldable pub handle_event : Scroll kit → Event → Scroll kit
  unfolding press_bar drag turn set_show_start_index
  handle_event s (mouse_button_down button at) =
      if button == 1 then set_show_start_index kit (place_thumb kit (press_bar s at)) else s
  handle_event s (mouse_motion (x, y)) =
      set_show_start_index kit (place_thumb kit (if s.can_drag then drag s y else s))
  handle_event s (mouse_button_up button at) = record s { can_drag = false }
  handle_event s (mouse_wheel y) =
      if s.can_scroll
      then place_thumb kit (set_show_start_index kit (record s { scroll_y = turn s y }))
      else s
  handle_event s _ = s
