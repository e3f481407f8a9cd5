-- ===== src/Ui/AdjustSound/Thumb.antt =====
-- The thumb of a slider of client/tetris/ui/adjust_sound.py and the bar that it moves on.
use project_tetris.Base.{
  ℕ, ◌+◌, ◌<◌, ◌≡◌, ap, arith, ℤ, pos, ◌+ℤ◌, ◌-ℤ◌, ◌≤ℤ◌, ltb_ℤ, leb_ℤ, eq_ℤ, Bool, true, false,
  if-cases, if-both, clash, int_laws, ◌==◌, ◌&&◌,
}
use mathlib.Core.Path.{subst, sym}
use project_tetris.Python.Exec.{Result, ok, err}
use project_tetris.Ui.Toolkit.{Toolkit}
use project_tetris.Ui.Event.{
  Event, mouse_motion, mouse_button_down, mouse_button_up, mouse_wheel, text_editing, text_input,
  key_down, key_up, quit, other,
}
use project_tetris.Ui.AdjustSound.{
  AdjustSound, half, set_volume_bar_layout, moved_x, with_volume, move_adjust_bar, handle_event,
}

half_double : (n : ℕ) → half (pos (n + n)) ≡ pos n
half_double n = ap pos (omega arith)

-- The thumb's middle, for the thumb at `x`.
abbrev pub OnBar : ℤ → ℕ → ℕ → ℤ → Type 0
OnBar box pad bar x =
    ((box +ℤ pos pad) ≤ℤ (x +ℤ pos pad)) × ((x +ℤ pos pad) ≤ℤ (box +ℤ pos pad +ℤ pos bar))

-- The box is wider than the bar by half a thumb on each side, the bar is not empty, and the thumb's
-- middle is on the bar.
pub record IsLaid (pad bar : ℕ) (s : AdjustSound) : Type 0 where
  pub some_bar : 0 < bar
  pub thumb : s.adjust_w ≡ pos (pad + pad)
  pub bar_w : s.volume_w ≡ pos bar
  pub box_w : s.valid_box.w ≡ pos (bar + pad + pad)
  pub bar_x : s.volume_x ≡ s.valid_box.x +ℤ pos pad
  pub on_bar : OnBar s.valid_box.x pad bar s.adjust_x

at_mouse :
    (box x : ℤ) (pad bar : ℕ)
    → (leb_ℤ box x && leb_ℤ x (box +ℤ pos pad)) ≡ false
    → (ltb_ℤ box x && ltb_ℤ x (box +ℤ pos pad +ℤ pos bar)) ≡ true
    → OnBar box pad bar (x -ℤ pos pad)
at_mouse box x pad bar h k = grind int_laws

at_left : (box : ℤ) (pad bar : ℕ) → OnBar box pad bar box
at_left box pad bar = omega int_laws

at_right :
    (box : ℤ) (pad bar : ℕ) → OnBar box pad bar ((box +ℤ pos (bar + pad + pad)) -ℤ pos (pad + pad))
at_right box pad bar = omega int_laws

moved_x-OnBar :
    (pad bar : ℕ) (s : AdjustSound) (x : ℤ)
    → IsLaid pad bar s
    → OnBar s.valid_box.x pad bar (moved_x s x)
unfolding moved_x
moved_x-OnBar pad bar s x h =
    rw (h.thumb, h.bar_w, h.box_w, h.bar_x, half_double pad)
      (if-cases (OnBar s.valid_box.x pad bar) _ (λ _. at_left s.valid_box.x pad bar)
        (λ far.
          if-cases (OnBar s.valid_box.x pad bar) _ (at_mouse s.valid_box.x x pad bar far) (λ _.
            if-both (OnBar s.valid_box.x pad bar)
              (leb_ℤ (s.valid_box.x +ℤ pos pad +ℤ pos bar) x
                && leb_ℤ x (s.valid_box.x +ℤ pos (bar + pad + pad)))
              (at_right s.valid_box.x pad bar) h.on_bar)))

-- The width of the bar, as the code takes it from its ends.
some_width : (x : ℤ) (bar : ℕ) → 0 < bar → eq_ℤ ((x +ℤ pos bar) -ℤ x) (pos 0) ≡ false
some_width x bar h = grind int_laws

-- What holds after a call that raised nothing.
abbrev pub StaysLaid : ℕ → ℕ → Result (Unit {0}) × AdjustSound → Type 0
StaysLaid pad bar (ok _, s) = IsLaid pad bar s
StaysLaid pad bar (err e, s) = ⊥

dragging :
    (pad bar : ℕ) (s : AdjustSound) (b : Bool)
    → IsLaid pad bar s
    → IsLaid pad bar (record s { is_dragging = b })
dragging pad bar s b h = record {
  some_bar = h.some_bar;
  thumb = h.thumb;
  bar_w = h.bar_w;
  box_w = h.box_w;
  bar_x = h.bar_x;
  on_bar = h.on_bar;
}

module _ (kit : Toolkit) where
  move_adjust_bar-Stays :
      (pad bar : ℕ) (s : AdjustSound) (x : ℤ)
      → IsLaid pad bar s
      → StaysLaid pad bar (move_adjust_bar kit s x)
  unfolding move_adjust_bar with_volume set_volume_bar_layout
  move_adjust_bar-Stays pad bar s x h =
      let some =
        subst (λ w. eq_ℤ ((s.volume_x +ℤ w) -ℤ s.volume_x) (pos 0) ≡ false) (sym h.bar_w)
          (some_width s.volume_x bar h.some_bar) in
      if-cases (StaysLaid pad bar) (eq_ℤ ((s.volume_x +ℤ s.volume_w) -ℤ s.volume_x) (pos 0))
        (λ none. absurd (clash _ some none))
        (λ _. record {
          some_bar = h.some_bar;
          thumb = h.thumb;
          bar_w = h.bar_w;
          box_w = h.box_w;
          bar_x = h.bar_x;
          on_bar = moved_x-OnBar pad bar s x h;
        })

  handle_event-Stays :
      (pad bar : ℕ) (s : AdjustSound) (ev : Event)
      → IsLaid pad bar s
      → StaysLaid pad bar (handle_event kit s ev)
  unfolding handle_event
  handle_event-Stays pad bar s (mouse_button_down button (x, y)) h =
      if-both (StaysLaid pad bar) (button == 1 && kit.collidepoint s.valid_box (x, y))
        (move_adjust_bar-Stays pad bar (record s { is_dragging = true }) x
          (dragging pad bar s true h))
        h
  handle_event-Stays pad bar s (mouse_motion (x, y)) h =
      if-both (StaysLaid pad bar) s.is_dragging (move_adjust_bar-Stays pad bar s x h) h
  handle_event-Stays pad bar s (mouse_button_up button at) h =
      if-both (IsLaid pad bar) (button == 1) (dragging pad bar s false h) h
  handle_event-Stays pad bar s (mouse_wheel y) h = h
  handle_event-Stays pad bar s (text_editing t) h = h
  handle_event-Stays pad bar s (text_input t) h = h
  handle_event-Stays pad bar s (key_down k) h = h
  handle_event-Stays pad bar s (key_up k) h = h
  handle_event-Stays pad bar s quit h = h
  handle_event-Stays pad bar s other h = h
