-- ===== src/Python/Chars.antt =====
-- The classes of characters that `str` and `re` know. ASCII is written out; the tables of Unicode
-- above it are Python's data, and are a parameter.
use project_tetris.Base.{ℕ, Bool, true, false, ◌&&◌, ◌||◌, [], ◌∷◌, ltb, leb, ◌==◌, if◌then◌else◌}
use project_tetris.Python.Utf8.{Text}

pub record Unicode : Type 0 where
  pub printable : ℕ → Bool
  pub digit : ℕ → Bool
  pub word : ℕ → Bool
  pub space : ℕ → Bool

abbrev pub is_ascii_char : ℕ → Bool
is_ascii_char c = ltb c 0x80

abbrev pub in_range : ℕ → ℕ → ℕ → Bool
in_range lo hi c = leb lo c && leb c hi

abbrev pub is_alpha : ℕ → Bool
is_alpha c = in_range 65 90 c || in_range 97 122 c

abbrev pub is_ascii_digit : ℕ → Bool
is_ascii_digit c = in_range 48 57 c

module _ (u : Unicode) where
  abbrev pub is_printable_char : ℕ → Bool
  is_printable_char c = if is_ascii_char c then in_range 32 126 c else u.printable c

  -- `\d` and `\w`
  abbrev pub is_digit : ℕ → Bool
  is_digit c = if is_ascii_char c then is_ascii_digit c else u.digit c

  abbrev pub is_word : ℕ → Bool
  is_word c = if is_ascii_char c then is_alpha c || (is_ascii_digit c || c == 95) else u.word c

  abbrev pub is_space : ℕ → Bool
  is_space c = if is_ascii_char c then in_range 9 13 c || in_range 28 32 c else u.space c

-- `all(p(c) for c in s)` and `any`
abbrev pub all_chars : (ℕ → Bool) → Text → Bool
all_chars p [] = true
all_chars p (c ∷ cs) = p c && all_chars p cs

abbrev pub any_char : (ℕ → Bool) → Text → Bool
any_char p [] = false
any_char p (c ∷ cs) = p c || any_char p cs

-- `s.isascii()` and `s.isprintable()`
abbrev pub is_ascii : Text → Bool
is_ascii = all_chars is_ascii_char

abbrev pub is_printable : Unicode → Text → Bool
is_printable u = all_chars (is_printable_char u)

-- `s.strip()`
abbrev pub strip_left : Unicode → Text → Text
strip_left u [] = []
strip_left u (c ∷ cs) = let rest = strip_left u cs in if is_space u c then rest else c ∷ cs

-- A space is kept only before something that is.
abbrev keep_before : Bool → ℕ → Text → Text
keep_before true c [] = []
keep_before _ c cs = c ∷ cs

abbrev pub strip_right : Unicode → Text → Text
strip_right u [] = []
strip_right u (c ∷ cs) = keep_before (is_space u c) c (strip_right u cs)

unfoldable pub strip : Unicode → Text → Text
strip u s = strip_right u (strip_left u s)

-- `s == t`
unfoldable pub text_eq : Text → Text → Bool
text_eq [] [] = true
text_eq (c ∷ s) (d ∷ t) = c == d && text_eq s t
text_eq _ _ = false
