-- ===== src/Ui/ChatWindow/Window.antt =====
-- The window of client/tetris/ui/chat_window.py on its lines, and its input box. The width of a text is
-- the parameter of ChatWindow.
use project_tetris.Base.{
  ℕ, ◌-◌, ℤ, pos, ◌≡◌, refl, ap, ◌∙◌, arith, Bool, true, false, if-both, if-cases, ltb, clash,
  Option, none, some, List, [], if◌then◌else◌, length, drop, slice, slice-drop, ◌++◌,
}
use project_tetris.Python.Exec.{Result}
use project_tetris.Ui.Toolkit.{Toolkit, Area}
use project_tetris.Python.Utf8.{Text}
use project_tetris.Python.Chars.{Unicode}
use project_tetris.Ui.Event.{Event}
use project_tetris.Ui.InputBox
use project_tetris.Ui.InputBox.{InputBox}
use project_tetris.Ui.Scroll.{
  Scroll, new_scroll, set_scroll_info, set_scroll_len, set_show_start_index, scroll_to_bottom,
  update_shown,
}
use project_tetris.Ui.Scroll
use project_tetris.Ui.Scroll.Events
use project_tetris.Ui.ChatWindow
use project_tetris.Ui.ChatWindow.{max_message_lines, full_text}
use project_tetris.Ui.ChatWindow.Wrapped.{concat, add_new_message_lem}

abbrev pub visible_lines : ℕ
visible_lines = 10

-- The size of the font and the padding of a line.
abbrev pub line_height : ℕ
line_height = 22

abbrev pub chat_show_height : ℕ
chat_show_height = 220

module _ (kit : Toolkit) (width : Text → ℕ) (window_w : ℕ) where
  pub record Chat : Type 0 where
    pub scroll : Scroll kit
    pub texts : List Text
    pub input_box : InputBox

  -- The place of the window, whose height is that of the lines that it shows.
  unfoldable pub new_chat : ℤ → ℤ → InputBox → Chat
  unfolding new_scroll set_scroll_info
  new_chat x y input_box =
      let rect : Area = record { x = x; y = y; w = pos window_w; h = pos chat_show_height } in
      let s : Scroll kit = record (new_scroll kit rect line_height 0) {
        show_lines = visible_lines;
      } in
      record { scroll = set_scroll_info kit s 0; texts = []; input_box = input_box }

  -- While the thumb is dragged the rows stay with it; else the last lines are shown.
  unfoldable pub follow : Scroll kit → Scroll kit
  unfolding set_show_start_index scroll_to_bottom
  follow s = if s.can_drag then set_show_start_index kit s else scroll_to_bottom kit s

  abbrev pub with_texts : Chat → List Text → Chat
  unfolding set_scroll_info set_scroll_len follow
  with_texts c texts = record c {
    texts = texts;
    scroll = follow (set_scroll_len kit (set_scroll_info kit c.scroll (length texts)));
  }

  abbrev pub with_lines : Chat → Option (List Text) → Option Chat
  unfolding with_texts
  with_lines c none = none
  with_lines c (some texts) = some (with_texts c texts)

  -- `none` only where the fuel of the loops runs out.
  unfoldable pub add_new_message : Chat → Text → Text → Option Chat
  unfolding ChatWindow.add_new_message with_lines
  add_new_message c user_name new_message =
      with_lines c (ChatWindow.add_new_message width window_w c.texts user_name new_message)

  unfoldable pub clear : Chat → Chat
  unfolding Scroll.clear
  clear c = record c { texts = []; scroll = Scroll.clear kit c.scroll 0 }

  unfoldable pub handle_event : Unicode → Chat → Event → Result (Option Text) × Chat
  unfolding Events.handle_event InputBox.handle_event
  handle_event u c ev =
      let (r, box) = InputBox.handle_event u c.input_box ev in
      (r, record c { scroll = Events.handle_event kit c.scroll ev; input_box = box })

  unfoldable pub update : Chat → ℕ → Chat
  unfolding InputBox.update
  update c dt_ms = record c { input_box = InputBox.update c.input_box dt_ms }

  -- The lines that `draw` shows.
  unfoldable pub drawn : Chat → Chat × List Text
  unfolding update_shown
  drawn c =
      let s = update_shown kit c.scroll (length c.texts) in
      (record c { scroll = s }, slice s.show_start s.show_end c.texts)

  -- The bar is at its end.
  record IsAtEnd (items : ℕ) (lines : ℕ) (s : Scroll kit) : Type 0 where
    same_lines : s.show_lines ≡ lines
    scrollable : s.scrollable_line ≡ items - lines
    start : s.show_start ≡ items - lines

  with_texts-IsAtEnd :
      (c : Chat) (texts : List Text)
      → c.scroll.can_drag ≡ false
      → IsAtEnd (length texts) c.scroll.show_lines (with_texts c texts).scroll
  unfolding with_texts set_scroll_info set_scroll_len follow scroll_to_bottom
  with_texts-IsAtEnd c texts k =
      rw k (record { same_lines = refl; scrollable = ground arith; start = ground arith })

  follow-dragged : (s : Scroll kit) → s.can_drag ≡ true → (follow s).can_drag ≡ true
  unfolding follow set_show_start_index
  follow-dragged s k =
      let Dragged : Scroll kit → Type 0 = λ s'. s'.can_drag ≡ true in
      if-cases Dragged s.can_drag
        (λ _. if-both Dragged (ltb 0 s.scrollable_line) (if-both Dragged _ k k) k)
        λ still. absurd (clash s.can_drag still k)

  with_texts-dragged :
      (c : Chat) (texts : List Text)
      → c.scroll.can_drag ≡ true
      → (with_texts c texts).scroll.can_drag ≡ true
  unfolding with_texts set_scroll_info set_scroll_len
  with_texts-dragged c texts k =
      follow-dragged (set_scroll_len kit (set_scroll_info kit c.scroll (length texts))) k

  drawn_at_end :
      (c : Chat) (lines : ℕ)
      → IsAtEnd (length c.texts) lines c.scroll
      → (drawn c).1 ≡ drop (length c.texts - lines) c.texts
  unfolding drawn
  drawn_at_end c lines e =
      let n = length c.texts in
      let s = update_shown kit c.scroll n in
      let start : s.show_start ≡ n - lines = ground (arith, e.scrollable, e.start, e.same_lines) in
      slice-drop s.show_start s.show_end c.texts
        (ground (arith, e.scrollable, e.start, e.same_lines))
      ∙ ap (λ i. drop i c.texts) start

  by_test : (b : Bool) {A B : Type 0} → (b ≡ true → A) → (b ≡ false → B) → if b then A else B
  by_test true f g = f refl
  by_test false f g = g refl

  -- A message is added, whether a thumb is dragged or not: the texts of the window are then the last
  -- hundred lines of those that it had and of the lines into which the message is cut, which make up
  -- the name and the message. A dragged thumb is dragged on; else the lines that are drawn then are the
  -- last ones of the window, as many as it has rows for.
  pub message_shown :
      (c : Chat) (user_name new_message : Text)
      → (c' : Chat) × (lines : List Text) × (add_new_message c user_name new_message ≡ some c')
        × (c'.texts ≡ drop (length (c.texts ++ lines) - max_message_lines) (c.texts ++ lines))
        × (concat lines ≡ full_text user_name new_message)
        × (if c.scroll.can_drag
            then c'.scroll.can_drag ≡ true
            else (drawn c').1 ≡ drop (length c'.texts - c.scroll.show_lines) c'.texts)
  unfolding add_new_message
  message_shown c user_name new_message =
      let (lines, e, wrapped, joined, few) =
        add_new_message_lem width window_w c.texts user_name new_message in
      let texts = drop (length (c.texts ++ lines) - max_message_lines) (c.texts ++ lines) in
      (
        with_texts c texts,
        lines,
        ap (with_lines c) e,
        refl,
        joined,
        by_test c.scroll.can_drag (with_texts-dragged c texts) λ k.
            drawn_at_end (with_texts c texts) c.scroll.show_lines (with_texts-IsAtEnd c texts k),
      )
