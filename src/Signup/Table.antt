-- ===== src/Signup/Table.antt =====
-- Signup_server/models.py: the users and their columns. How the database compares two texts is its
-- collation's, and whether it refuses a text in a column of a length is its own too: two parameters.
-- A database that cuts such a text off, and says so by a warning only, is not modelled. The date of the sign-up is left out. The newest user stands first.
use project_tetris.Base.{ℕ, suc, ◌≤◌, ◌≡◌, length, Bool, false, ◌||◌, List, [], ◌∷◌, if◌then◌else◌}
use project_tetris.Python.Exec.{Result, ok, err, integrity_error, data_error}
use project_tetris.Python.Utf8.{Text}

pub record User : Type 0 where
  pub user_id : ℕ
  pub login_id : Text
  pub nickname : Text
  pub password_hash : Text
  pub single_score : ℕ
  pub win : ℕ
  pub lose : ℕ
  pub email : Text

-- The rows, and what the next `autoincrement` gives.
pub record Table : Type 0 where
  pub users : List User
  pub next_id : ℕ

abbrev pub Collation : Type 0
Collation = Text → Text → Bool

-- Whether a column of `String(n)` refuses a text.
abbrev pub Refusal : Type 0
Refusal = ℕ → Text → Bool

-- What the type of a column promises: a text of its length or less is taken.
abbrev pub TakesShort : Refusal → Type 0
TakesShort refuses = (n : ℕ) (s : Text) → length s ≤ n → refuses n s ≡ false

-- `String(50)` and `String(255)`
abbrev pub name_column : ℕ
name_column = 50

abbrev pub long_column : ℕ
long_column = 255

-- `query(User.user_id).filter_by(column=key).first()` finds a row
abbrev pub exists : Collation → (User → Text) → Text → List User → Bool
exists same column key [] = false
exists same column key (v ∷ vs) = same (column v) key || exists same column key vs

abbrev pub taken : Collation → Text → Text → Text → List User → Bool
taken same login_id nickname email vs =
    exists same (λ v. v.login_id) login_id vs
    || (exists same (λ v. v.nickname) nickname vs || exists same (λ v. v.email) email vs)

-- The row of `User(...)`, the columns without a value at their defaults, before the others.
abbrev pub with_user : Table → Text → Text → Text → Text → Table
with_user t login_id nickname password_hash email = record {
  users =
      record {
        user_id = t.next_id;
        login_id = login_id;
        nickname = nickname;
        password_hash = password_hash;
        single_score = 0;
        win = 0;
        lose = 0;
        email = email;
      }
      ∷ t.users;
  next_id = suc t.next_id;
}

abbrev pub too_long : Refusal → Text → Text → Text → Text → Bool
too_long refuses login_id nickname password_hash email =
    refuses name_column login_id
    || (refuses name_column nickname
        || (refuses long_column password_hash || refuses long_column email))

-- `db.session.add(user)` and `commit()`: a column refuses a text that is too long for it, and a unique
-- column a second row with its value.
unfoldable pub insert_user : Collation → Refusal → Table → Text → Text → Text → Text → Result Table
insert_user same refuses t login_id nickname password_hash email =
    if too_long refuses login_id nickname password_hash email
    then err data_error
    else if taken same login_id nickname email t.users
    then err integrity_error
    else ok (with_user t login_id nickname password_hash email)
