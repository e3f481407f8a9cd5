-- ===== src/Ui/ChatWindow.antt =====
-- client/tetris/ui/chat_window.py: how a message is cut into lines. The width of a text in the
-- window's font is a parameter. Window has the lines that are shown.
pub mod Wrapped
pub mod Window
use project_tetris.Base.{
  ℕ, zero, suc, ◌+◌, ◌-◌, Option, none, some, List, [], ◌∷◌, ◌++◌, ltb, leb, if◌then◌else◌, length,
  take, drop, ◌==◌,
}
use project_tetris.Python.Utf8.{Text}

abbrev pub max_message_lines : ℕ
max_message_lines = 100

abbrev pub optimized_offset : ℕ
optimized_offset = 10

infixl 10 ◌>>=◌
abbrev pub ◌>>=◌ {ℓ κ} : {A : Type ℓ} {B : Type κ} → Option A → (A → Option B) → Option B
none >>= f = none
some a >>= f = f a

-- The number of characters in the next line.
abbrev pub at_least_one : ℕ → ℕ
at_least_one zero = 1
at_least_one (suc offset) = suc offset

-- `f"[{user_name}]: {new_message}"`
abbrev pub full_text : Text → Text → Text
full_text user_name new_message = 91 ∷ (user_name ++ (93 ∷ 58 ∷ 32 ∷ new_message))

-- The oldest lines go when there are too many.
unfoldable pub keep_last : List Text → List Text
keep_last texts =
    if ltb max_message_lines (length texts)
    then drop (length texts - max_message_lines) texts
    else texts

module _ (width : Text → ℕ) (window_w : ℕ) where
  -- `while True`: long steps, the last of which is taken back if it is too wide.
  unfoldable pub long_steps : ℕ → Text → ℕ → Option ℕ
  long_steps zero remain offset = none
  long_steps (suc fuel) remain offset =
      let rest = long_steps fuel remain (offset + optimized_offset) in
      if leb (length remain) (offset + optimized_offset)
      then some offset
      else if ltb window_w (width (take (offset + optimized_offset) remain))
      then some offset
      else rest

  -- `while offset < remain_len`: steps of one character.
  unfoldable pub short_steps : ℕ → Text → ℕ → Option ℕ
  short_steps zero remain offset = none
  short_steps (suc fuel) remain offset =
      let rest = short_steps fuel remain (suc offset) in
      if leb (length remain) offset
      then some offset
      else if ltb window_w (width (take (suc offset) remain))
      then some offset
      else rest

  unfoldable pub line_offset : Text → Option ℕ
  unfolding long_steps short_steps
  line_offset remain = do
    start ← long_steps (suc (length remain)) remain 0
    offset ← short_steps (suc (length remain)) remain start
    some (at_least_one offset)

  -- `while remain_len > 0`
  unfoldable pub wrap : ℕ → Text → Option (List Text)
  unfolding line_offset
  wrap fuel [] = some []
  wrap zero (c ∷ s) = none
  wrap (suc fuel) (c ∷ s) =
      let offset = line_offset (c ∷ s) in
      let rest = (offset >>= λ k. wrap fuel (drop k (c ∷ s))) in
      if leb (width (c ∷ s)) window_w
      then some ((c ∷ s) ∷ [])
      else (do k ← offset; lines ← rest; some (take k (c ∷ s) ∷ lines))

  unfoldable pub add_new_message : List Text → Text → Text → Option (List Text)
  unfolding wrap keep_last
  add_new_message texts user_name new_message = do
    lines ← wrap (length (full_text user_name new_message)) (full_text user_name new_message)
    some (keep_last (texts ++ lines))
