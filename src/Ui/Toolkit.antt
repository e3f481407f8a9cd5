-- ===== src/Ui/Toolkit.antt =====
-- What the widgets stand on besides their events: pygame's rectangles, and floating-point numbers.
use project_tetris.Base.{ℤ, Bool}
use project_tetris.Python.Float.{Float}
use project_tetris.Ui.Event.{Point}

-- `pygame.Rect`
pub record Area : Type 0 where
  pub x : ℤ
  pub y : ℤ
  pub w : ℤ
  pub h : ℤ

pub record Toolkit : Type 1 where
  pub numbers : Float
  pub open numbers use *
  pub collidepoint : Area → Point → Bool
