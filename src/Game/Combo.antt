-- ===== src/Game/Combo.antt =====
-- client/tetris/animation/combo_animation.py: the text that rises over a cleared line. Fonts and
-- surfaces are pygame's and are left out.
use project_tetris.Base.{ℕ, zero, suc, ◌+◌, Bool, true, ltb, if◌then◌else◌, ℤ}
use project_tetris.Python.Index.{mod_ℤ}

pub data Color : Type 0 where
  red orange yellow green : Color

pub record ComboAnimation : Type 0 where
  pub combo : ℤ
  pub color : Color
  pub draw_x : ℤ
  pub draw_y : ℤ
  pub elapsed_time : ℕ
  pub active : Bool

abbrev pub animation_time : ℕ
animation_time = 1000

abbrev color_of : ℕ → Color
color_of (suc (suc zero)) = orange
color_of (suc (suc (suc zero))) = yellow
color_of (suc (suc (suc (suc zero)))) = green
color_of _ = red

unfoldable pub make_combo : ℤ → ℤ → ℤ → ComboAnimation
unfolding mod_ℤ
make_combo combo x y = record {
  combo = combo;
  color = color_of (mod_ℤ combo 5);
  draw_x = x;
  draw_y = y;
  elapsed_time = 0;
  active = true;
}

unfoldable pub update : ComboAnimation → ℕ → ComboAnimation
update c dt =
    if c.active
    then record c {
      elapsed_time = c.elapsed_time + dt;
      active = ltb (c.elapsed_time + dt) animation_time;
    }
    else c
