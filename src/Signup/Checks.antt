-- ===== src/Signup/Checks.antt =====
-- Signup_server/app.py: the regular expressions and the rule of the password.
use project_tetris.Base.{
  ℕ, ◌+◌, ◌/◌, ◌%◌, Bool, true, false, not, ◌&&◌, ◌||◌, [], ◌∷◌, leb, ◌==◌, if◌then◌else◌, length,
}
use project_tetris.Python.Utf8.{Text}
use project_tetris.Python.Chars.{
  Unicode, in_range, is_alpha, is_ascii_digit, is_digit, is_word, all_chars, any_char,
}

-- `re.match(r"^[...]+$", s)`: `$` matches before a newline at the end too.
abbrev plus_end : (ℕ → Bool) → Text → Bool
plus_end p [] = true
plus_end p (c ∷ []) = p c || c == 10
plus_end p (c ∷ d ∷ s) = p c && plus_end p (d ∷ s)

unfoldable pub match_plus : (ℕ → Bool) → Text → Bool
match_plus p [] = false
match_plus p (c ∷ s) = p c && plus_end p s

abbrev pub is_id_char : ℕ → Bool
is_id_char c = is_alpha c || (is_ascii_digit c || c == 95)

abbrev pub is_nickname_char : ℕ → Bool
is_nickname_char c = is_id_char c || in_range 0xAC00 0xD7A3 c

unfoldable pub is_valid_id : Text → Bool
unfolding match_plus
is_valid_id s = (leb 6 (length s) && leb (length s) 20) && match_plus is_id_char s

unfoldable pub is_valid_nickname : Text → Bool
unfolding match_plus
is_valid_nickname s = (leb 2 (length s) && leb (length s) 20) && match_plus is_nickname_char s

abbrev pub is_at : ℕ → Bool
is_at c = c == 64

-- A dot with a character behind it.
abbrev pub inner_dot : Text → Bool
inner_dot [] = false
inner_dot (c ∷ []) = false
inner_dot (c ∷ d ∷ s) = c == 46 || inner_dot (d ∷ s)

abbrev pub is_domain : Text → Bool
is_domain [] = false
is_domain (c ∷ s) = all_chars (λ d. not (is_at d)) (c ∷ s) && inner_dot s

abbrev pub after_local : Text → Bool
after_local [] = false
after_local (c ∷ s) = let rest = after_local s in if is_at c then is_domain s else rest

-- `re.match(r"^[^@]+@[^@]+\.[^@]+$", s)`: `[^@]` takes a newline, so `$` takes nothing more.
unfoldable pub is_valid_email : Text → Bool
is_valid_email [] = false
is_valid_email (c ∷ s) = not (is_at c) && after_local s

abbrev pub as_count : Bool → ℕ
as_count true = 1
as_count false = 0

unfoldable pub validate_password : Unicode → Text → Bool
validate_password u pw =
    if not (leb 8 (length pw) && leb (length pw) 20)
    then false
    else (let has_alpha = any_char is_alpha pw in
        let has_digit = any_char (is_digit u) pw in
        let has_spec = any_char (λ c. not (is_word u c)) pw in
        leb 2 (as_count has_alpha + as_count has_digit + as_count has_spec))

abbrev digit : ℕ → ℕ
digit n = 48 + n % 10

-- `f"{n:06d}"` for a number below 1000000
unfoldable pub code_text : ℕ → Text
code_text n =
    digit (n / 100000)
    ∷ digit (n / 10000)
    ∷ digit (n / 1000)
    ∷ digit (n / 100)
    ∷ digit (n / 10)
    ∷ digit n
    ∷ []
