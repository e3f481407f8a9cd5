-- ===== src/Ui/UserTabs/Pressed.antt =====
-- The buttons of the tabs of client/tetris/ui/user_taps.py after a click.
use project_tetris.Base.{
  ℕ, zero, suc, ◌+◌, ◌≡◌, sym, ap, ◌∙◌, arith, Option, none, some, List, [], ◌∷◌, ◌==◌, get_elem?,
}
use mathlib.Core.Option.{some-injective}
use project_tetris.Ui.Toolkit.{Toolkit}
use project_tetris.Ui.Event.{Event}
use project_tetris.Ui.Button.{ToggleButton, set_pressed}
use project_tetris.Ui.UserTabs.{UserTabs, press_only, click_tabs, after_tabs, handle_event}

press_only_lem :
    (cur i k : ℕ) (bs : List ToggleButton) (b : ToggleButton)
    → get_elem? (press_only cur i bs) k ≡ some b
    → b.pressed ≡ (i + k == cur)
unfolding press_only set_pressed
press_only_lem cur i k [] b h = cc
press_only_lem cur i zero (c ∷ bs) b h =
    ap (λ (x : ToggleButton). x.pressed) (sym (some-injective _ _ h))
    ∙ ap (λ n. n == cur) (omega arith)
press_only_lem cur i (suc k) (c ∷ bs) b h =
    press_only_lem cur (suc i) k bs b h ∙ ap (λ n. n == cur) (omega arith)

-- After a click on a tab, the one that is pressed is the current one, and no other is.
pub tab_click_lem :
    (kit : Toolkit) (t : UserTabs kit) (ev : Event) (index k : ℕ) (b : ToggleButton)
    → (click_tabs 0 t.tab_buttons ev).1 ≡ some index
    → let t' = (handle_event kit t ev).1 in
      get_elem? t'.tab_buttons k ≡ some b
      → (t'.cur_tab_index ≡ index) × (b.pressed ≡ (k == t'.cur_tab_index))
unfolding handle_event
tab_click_lem kit t ev index k b hit = clicked (click_tabs 0 t.tab_buttons ev).0 _ hit
  where
    clicked :
        (bs : List ToggleButton) (o : Option ℕ)
        → o ≡ some index
        → let t' = (after_tabs kit t ev (bs, o)).1 in
          get_elem? t'.tab_buttons k ≡ some b
          → (t'.cur_tab_index ≡ index) × (b.pressed ≡ (k == t'.cur_tab_index))
    clicked bs none e h = cc
    clicked bs (some i) e h =
        (some-injective _ _ e, press_only_lem i 0 k bs b h ∙ ap (λ n. n == i) (omega arith))
