-- ===== src/Ui/Scroll/Full.antt =====
-- The rows that a scroll window of client/tetris/ui/scroll_window_base.py takes of its list.
use project_tetris.Base.{
  ℕ, ◌+◌, ◌-◌, ◌≤◌, ◌<◌, ℤ, pos, negsuc, ltb, ◌≡◌, refl, arith, if-both, ◌==◌, if◌then◌else◌, List,
  slice, length, length-take_le, length-drop, ◌∙◌,
}
use project_tetris.Ui.Toolkit.{Toolkit, Area}
use project_tetris.Ui.Event.{
  Event, mouse_motion, mouse_button_down, mouse_button_up, mouse_wheel, text_editing, text_input,
  key_down, key_up, quit, other,
}
use project_tetris.Ui.Scroll.{
  Scroll, set_show_lines, set_scroll_info, set_scroll_len, set_show_start_index, clear,
  scroll_to_bottom, update_shown, new_scroll, clamped, place_thumb,
}
use project_tetris.Ui.Scroll.Events.{handle_event, press_bar, drag, turn}

clamped_top : (n : ℤ) (top : ℕ) → clamped n top ≤ top
unfolding clamped
clamped_top (pos n) top = ground arith
clamped_top (negsuc n) top = omega arith

set_show_lines_positive : (h : ℤ) (line_height : ℕ) → 0 < set_show_lines h line_height
unfolding set_show_lines
set_show_lines_positive (pos h) line_height = ground arith
set_show_lines_positive (negsuc h) line_height = omega arith

module _ {kit : Toolkit} where
  -- The numbers of the window that the rows depend on.
  pub record IsFitted (items : ℕ) (s : Scroll kit) : Type 0 where
    pub some_line : 0 < s.show_lines
    pub lines : s.scrollable_line ≡ items - s.show_lines
    pub start : s.show_start ≤ s.scrollable_line

  -- The rows that `draw` and the lists take.
  pub record IsFull (items : ℕ) (s : Scroll kit) : Type 0 where
    pub within : s.show_end ≤ items
    pub rows : s.show_end ≡ s.show_start + (if ltb items s.show_lines then items else s.show_lines)

  pub set_scroll_info-IsFitted :
      (s : Scroll kit) (items : ℕ)
      → 0 < s.show_lines
      → s.show_start ≤ items - s.show_lines
      → IsFitted items (set_scroll_info kit s items)
  unfolding set_scroll_info
  set_scroll_info-IsFitted s items h k = ground arith

  pub set_scroll_len-IsFitted :
      (s : Scroll kit) (items : ℕ) → IsFitted items s → IsFitted items (set_scroll_len kit s)
  unfolding set_scroll_len
  set_scroll_len-IsFitted s items h = record {
    some_line = h.some_line;
    lines = h.lines;
    start = h.start;
  }

  -- Whatever the arithmetic gives, the first row is kept between the first and the last one that
  -- the bar can reach.
  pub set_show_start_index-IsFitted :
      (s : Scroll kit) (items : ℕ)
      → 0 < s.show_lines
      → s.scrollable_line ≡ items - s.show_lines
      → IsFitted items (set_show_start_index kit s)
  unfolding set_show_start_index
  set_show_start_index-IsFitted s items h k = grind (arith, clamped_top)

  pub scroll_to_bottom-IsFitted :
      (s : Scroll kit) (items : ℕ)
      → 0 < s.show_lines
      → s.scrollable_line ≡ items - s.show_lines
      → IsFitted items (scroll_to_bottom kit s)
  unfolding scroll_to_bottom
  scroll_to_bottom-IsFitted s items h k = record { some_line = h; lines = k; start = omega arith }

  pub clear-IsFitted :
      (s : Scroll kit) (items : ℕ) → 0 < s.show_lines → IsFitted items (clear kit s items)
  unfolding clear set_scroll_info
  clear-IsFitted s items h = ground arith

  pub clear-IsFull : (s : Scroll kit) → 0 < s.show_lines → IsFull 0 (clear kit s 0)
  unfolding clear set_scroll_info
  clear-IsFull s h = ground arith

  pub new_scroll-IsFitted :
      (rect : Area) (line_height items : ℕ) → IsFitted items (new_scroll kit rect line_height items)
  unfolding new_scroll set_scroll_info
  new_scroll-IsFitted rect line_height items =
      ground (arith, set_show_lines_positive rect.h line_height)

  -- What the mouse does to the bar leaves the numbers of lines alone.
  record Moved (s s' : Scroll kit) : Type 0 where
    same_lines : s'.show_lines ≡ s.show_lines
    same_scrollable : s'.scrollable_line ≡ s.scrollable_line

  unmoved : (s : Scroll kit) → Moved s s
  unmoved s = record { same_lines = refl; same_scrollable = refl }

  press_bar-Moved : (s : Scroll kit) (at : ℤ × ℤ) → Moved s (press_bar kit s at)
  unfolding press_bar
  press_bar-Moved s (x, y) = ground arith

  drag-Moved : (s : Scroll kit) (y : ℤ) → Moved s (drag kit s y)
  unfolding drag
  drag-Moved s y = ground arith

  after_Moved :
      (s s' : Scroll kit) (items : ℕ)
      → Moved s s'
      → IsFitted items s
      → IsFitted items (set_show_start_index kit (place_thumb kit s'))
  after_Moved s s' items m h =
      set_show_start_index-IsFitted _ items (omega (arith, m.same_lines, h.some_line))
        (omega (arith, m.same_lines, m.same_scrollable, h.lines))

  turned :
      (s : Scroll kit) (items : ℕ) (y : kit.F)
      → IsFitted items s
      → IsFitted items (place_thumb kit (set_show_start_index kit (record s { scroll_y = y })))
  turned s items y h =
      let k = set_show_start_index-IsFitted (record s { scroll_y = y }) items h.some_line h.lines in
      record { some_line = k.some_line; lines = k.lines; start = k.start }

  pub handle_event-IsFitted :
      (s : Scroll kit) (items : ℕ) (ev : Event)
      → IsFitted items s
      → IsFitted items (handle_event kit s ev)
  unfolding handle_event
  handle_event-IsFitted s items (mouse_button_down button at) h =
      if-both (IsFitted items) (button == 1)
        (after_Moved s (press_bar kit s at) items (press_bar-Moved s at) h) h
  handle_event-IsFitted s items (mouse_motion (x, y)) h =
      after_Moved s _ items (if-both (Moved s) s.can_drag (drag-Moved s y) (unmoved s)) h
  handle_event-IsFitted s items (mouse_button_up button at) h = record {
    some_line = h.some_line;
    lines = h.lines;
    start = h.start;
  }
  handle_event-IsFitted s items (mouse_wheel y) h =
      if-both (IsFitted items) s.can_scroll (turned s items (turn kit s y) h) h
  handle_event-IsFitted s items (text_editing t) h = h
  handle_event-IsFitted s items (text_input t) h = h
  handle_event-IsFitted s items (key_down k) h = h
  handle_event-IsFitted s items (key_up k) h = h
  handle_event-IsFitted s items quit h = h
  handle_event-IsFitted s items other h = h

  pub update_shown-IsFitted :
      (s : Scroll kit) (items : ℕ) → IsFitted items s → IsFitted items (update_shown kit s items)
  unfolding update_shown
  update_shown-IsFitted s items h = ground (arith, h.some_line, h.lines, h.start)

  pub update_shown-IsFull :
      (s : Scroll kit) (items : ℕ) → IsFitted items s → IsFull items (update_shown kit s items)
  unfolding update_shown
  update_shown-IsFull s items h = ground (arith, h.lines, h.start, h.some_line)

  -- The rows that are shown are as many as the window has lines, or all the items.
  pub length-slice {ℓ} :
      {A : Type ℓ} (s : Scroll kit) (xs : List A)
      → IsFull (length xs) s
      → length (slice s.show_start s.show_end xs)
        ≡ (if ltb (length xs) s.show_lines then length xs else s.show_lines)
  length-slice s xs h =
      length-take_le (s.show_end - s.show_start) _
        (omega (arith, length-drop s.show_start xs, h.within))
      ∙ omega (arith, h.rows)
