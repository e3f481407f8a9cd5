-- ===== src/Ui/Scroll.antt =====
-- client/tetris/ui/scroll_window_base.py: a window on a list, with its scroll bar. The number of items
-- is an argument of what asks for it (`get_items_len`), and the floating-point numbers and
-- rectangles are a parameter; `scroll_y`, an int or a float in the code, is one of them. Drawing is left out but for
-- the rows that it takes.
pub mod Events
pub mod Full
use project_tetris.Base.{
  ℕ, zero, suc, ◌+◌, ◌-◌, ◌/◌, ℤ, pos, negsuc, ◌+ℤ◌, ◌-ℤ◌, ltb_ℤ, leb_ℤ, ltb, Bool, true, false,
  ◌&&◌, if◌then◌else◌,
}
use project_tetris.Ui.Toolkit.{Toolkit, Area}

abbrev pub scroll_width : ℤ
scroll_width = pos 20

-- Lines that do not fit in the window, but at least one, are shown. A negative height gives a negative
-- quotient.
unfoldable pub set_show_lines : ℤ → ℕ → ℕ
set_show_lines (pos h) line_height = if ltb (h / line_height) 1 then 1 else h / line_height
set_show_lines (negsuc h) line_height = 1

-- A number is kept between 0 and the number of lines.
unfoldable pub clamped : ℤ → ℕ → ℕ
clamped (negsuc n) top = 0
clamped (pos n) top = if ltb top n then top else n

module _ (kit : Toolkit) where
  open kit use {F, of_int, add, sub, mul, div, lt, le, trunc}

  pub record Scroll : Type 0 where
    pub window : Area
    pub line_height : ℕ
    pub show_lines : ℕ
    pub scroll_y : F
    pub scroll_h : ℤ
    -- the place of `scroll_rect`
    pub rect_y : ℤ
    pub rect_h : ℤ
    pub max_scrollable_line : ℕ
    pub scrollable_line : ℕ
    pub scrollable_px : ℤ
    pub scroll_px : F
    pub prev_y : ℤ
    pub can_drag : Bool
    pub can_scroll : Bool
    pub show_start : ℕ
    pub show_end : ℕ

  abbrev pub bg_scroll_area : Scroll → Area
  bg_scroll_area s = record {
    x = s.window.x +ℤ s.window.w;
    y = s.window.y;
    w = scroll_width;
    h = s.window.h;
  }

  abbrev pub scroll_area : Scroll → Area
  scroll_area s = record {
    x = s.window.x +ℤ s.window.w;
    y = s.rect_y;
    w = scroll_width;
    h = s.rect_h;
  }

  unfoldable pub set_scroll_info : Scroll → ℕ → Scroll
  set_scroll_info s items =
      let px = s.window.h -ℤ pos s.line_height in
      record s {
        max_scrollable_line = items;
        scrollable_line = if ltb 0 (items - s.show_lines) then items - s.show_lines else 0;
        scrollable_px = px;
        scroll_px = if ltb 0 items then div (of_int px) (of_int (pos items)) else of_int (pos 0);
      }

  -- The bottom of the track, for the top of the thumb.
  abbrev pub track_bottom : Scroll → ℤ
  track_bottom s = (s.window.y +ℤ s.window.h) -ℤ s.scroll_h

  unfoldable pub scroll_to_bottom : Scroll → Scroll
  scroll_to_bottom s = record s {
    show_start = s.scrollable_line;
    scroll_y = of_int (track_bottom s);
    rect_y = track_bottom s;
  }

  abbrev thumb_h : Scroll → ℤ
  thumb_h s =
      if ltb 0 s.scrollable_line
      then (let h = s.window.h -ℤ trunc (mul s.scroll_px (of_int (pos s.scrollable_line))) in
          if ltb_ℤ h (pos s.line_height) then pos s.line_height else h)
      else s.window.h

  -- `max_scroll_y` is the bottom of the track.
  abbrev pub kept_in_track : Scroll → F → F
  kept_in_track s y =
      let y' = if lt (of_int (track_bottom s)) y then of_int (track_bottom s) else y in
      if lt y' (of_int s.window.y) then of_int s.window.y else y'

  -- `self.scroll_rect = pygame.Rect(...)`
  abbrev pub place_thumb : Scroll → Scroll
  place_thumb s = record s { rect_y = trunc s.scroll_y; rect_h = s.scroll_h }

  unfoldable pub set_scroll_len : Scroll → Scroll
  set_scroll_len s =
      let s₁ : Scroll = record s { scroll_h = thumb_h s } in
      place_thumb (record s₁ { scroll_y = kept_in_track s₁ s.scroll_y })

  abbrev unit_ratio : F → F
  unit_ratio ratio =
      if lt ratio (of_int (pos 0))
      then of_int (pos 0)
      else if lt (of_int (pos 1)) ratio
      then of_int (pos 1)
      else ratio

  unfoldable pub set_show_start_index : Scroll → Scroll
  unfolding clamped
  set_show_start_index s =
      let top = s.window.y in
      let ratio = div (sub s.scroll_y (of_int top)) (of_int (track_bottom s -ℤ top)) in
      let line = trunc (mul (unit_ratio ratio) (of_int (pos s.scrollable_line))) in
      if ltb 0 s.scrollable_line
      then (if leb_ℤ (track_bottom s) top
          then record s { show_start = 0 }
          else record s { show_start = clamped line s.scrollable_line })
      else record s { show_start = 0 }

  unfoldable pub clear : Scroll → ℕ → Scroll
  unfolding set_scroll_info
  clear s items =
      set_scroll_info
        (place_thumb (record s {
          scrollable_line = 0;
          show_start = 0;
          show_end = 0;
          scroll_y = of_int s.window.y;
          scroll_h = s.window.h;
        }))
        items

  -- The part of `draw` that settles the rows, which the lists repeat.
  unfoldable pub update_shown : Scroll → ℕ → Scroll
  update_shown s items =
      if ltb 0 s.scrollable_line
      then record s {
        show_end =
            if ltb items (s.show_start + s.show_lines) then items else s.show_start + s.show_lines;
      }
      else record s { show_start = 0; show_end = items }

  unfoldable pub new_scroll : Area → ℕ → ℕ → Scroll
  unfolding set_show_lines set_scroll_info
  new_scroll rect line_height items =
      set_scroll_info
        (record {
          window = rect;
          line_height = line_height;
          show_lines = set_show_lines rect.h line_height;
          scroll_y = of_int rect.y;
          scroll_h = rect.h;
          rect_y = rect.y;
          rect_h = rect.h;
          max_scrollable_line = 0;
          scrollable_line = 0;
          scrollable_px = rect.h -ℤ pos line_height;
          scroll_px = of_int (pos 0);
          prev_y = pos 0;
          can_drag = false;
          can_scroll = false;
          show_start = 0;
          show_end = 0;
        })
        items
