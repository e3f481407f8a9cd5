-- ===== src/Ui/InputBox/Shown.antt =====
-- The part of a text that a box shows.
use project_tetris.Base.{
  ℕ, suc, ◌≤◌, ◌≡◌, ◌⊎◌, true, false, some, [], drop, ℤ, pos, leb_ℤ, ◌<◌, ◌-◌,
}
use project_tetris.Python.Utf8.{Text}
use project_tetris.Ui.InputBox.{InputBox, render_from}

-- The text fits a number of pixels.
abbrev pub Fits : (Text → ℕ) → ℤ → Text → Type 0
Fits width px s = leb_ℤ (pos (width s)) px ≡ true

-- The ends of a text at these offsets are all too wide.
abbrev pub AllWide : (Text → ℕ) → ℤ → Text → ℕ → ℕ → Type 0
AllWide width px shown from below =
    (j : ℕ) → from ≤ j → j < below → leb_ℤ (pos (width (drop j shown))) px ≡ false

-- The longest end of a text that fits, of those that begin at `from` or later; or nothing, where all
-- of them before the end are too wide.
abbrev pub IsEndFrom : (Text → ℕ) → ℤ → ℕ → Text → ℕ → Text → Type 0
IsEndFrom width px text_len shown from s =
    ((k : ℕ) × (from ≤ k) × (s ≡ drop k shown) × Fits width px s × AllWide width px shown from k)
    ⊎ ((s ≡ []) × AllWide width px shown from (suc (text_len - 1)))

-- What a run of the loop gives.
abbrev Rendered : (Text → ℕ) → ℤ → ℕ → Text → ℕ → ℕ → Type 0
Rendered width px text_len shown offset fuel =
    (s : Text) × (render_from width px text_len shown offset fuel ≡ some s)
    × IsEndFrom width px text_len shown offset s
