-- ===== src/Signup/Accounts.antt =====
-- What the requests of all clients can do to the table of the users.
pub mod Steps
pub mod Invariant
use project_tetris.Base.{or-false}
use project_tetris.Base.{
  ℕ, suc, ◌<◌, ◌≡◌, refl, sym, ap, ◌∙◌, Bool, true, false, not, ◌&&◌, ◌||◌, Option, none, some,
  List, [], ◌∷◌, arith, ltb, ◌==◌, if-both, if-cases, and-true, ==_iff, All, if◌then◌else◌,
}
use project_tetris.Python.Exec.{Result, ok, err, Ensures}
use project_tetris.Python.Utf8.{Text}
use project_tetris.Python.Chars.{text_eq}
use project_tetris.Signup.Checks.{
  is_valid_id, is_valid_nickname, is_valid_email, validate_password, code_text,
}
use project_tetris.Signup.Table.{User, Table, Collation, exists, taken, insert_user}
use project_tetris.Signup.Handlers.{
  Libraries, EmailVerify, Server, Call, Body, Outcome, Request, check_id, check_nickname, send_code,
  verify_code, register, set_session, has_row, stripped, get_field, hash_text, check_text,
  send_hashed, is_empty, verify_checked, verify_session, commit, register_hashed, register_unique,
  register_session, api_check_id, api_check_nickname, api_send_code, api_verify_code, api_register,
  handle, serve,
}

-- An older user against a newer one: no unique column agrees.
pub record Differs (same : Collation) (new old : User) : Type 0 where
  pub older : old.user_id < new.user_id
  pub other_login : same old.login_id new.login_id ≡ false
  pub other_nickname : same old.nickname new.nickname ≡ false
  pub other_email : same old.email new.email ≡ false

abbrev pub IsDistinct : Collation → List User → Type 0
IsDistinct same [] = Unit
IsDistinct same (v ∷ vs) = All (Differs same v) vs × IsDistinct same vs

-- The forms that the server promises for an account.
pub record IsAccount (v : User) : Type 0 where
  pub login_form : is_valid_id v.login_id ≡ true
  pub email_form : is_valid_email v.email ≡ true

pub record IsTable (same : Collation) (users : List User) (next_id : ℕ) : Type 0 where
  pub distinct : IsDistinct same users
  pub numbered : All (λ v. v.user_id < next_id) users
  pub accounts : All IsAccount users

-- No row has one of the three texts.
abbrev pub IsFree : Collation → Text → Text → Text → User → Type 0
IsFree same l n e w =
    (same w.login_id l ≡ false) × (same w.nickname n ≡ false) × (same w.email e ≡ false)

-- The specification: a request leaves the table or puts one new account before the others.
pub data Grows (same : Collation) : Table → Table → Type 0 where
  stay : {t : Table} → Grows same t t
  join :
      {t : Table} (v : User)
      → v.user_id ≡ t.next_id
      → IsAccount v
      → All (IsFree same v.login_id v.nickname v.email) t.users
      → Grows same t (record { users = v ∷ t.users; next_id = suc t.next_id })

abbrev pub IsSession : Option EmailVerify → Type 0
IsSession none = Unit
IsSession (some st) = is_valid_email st.email ≡ true

pub text_eq_lem : (s t : Text) → text_eq s t ≡ true → s ≡ t
unfolding text_eq
text_eq_lem [] [] h = refl
text_eq_lem [] (d ∷ t) h = cc
text_eq_lem (c ∷ s) [] h = cc
text_eq_lem (c ∷ s) (d ∷ t) h =
    let (e, r) = and-true (c == d) (text_eq s t) h in
    let heads : c ≡ d = (==_iff c d).0 e in
    let tails : s ≡ t = text_eq_lem s t r in cc (heads, tails)

pub exists-IsFree :
    (same : Collation) (l n e : Text) (vs : List User)
    → exists same (λ v. v.login_id) l vs ≡ false
    → exists same (λ v. v.nickname) n vs ≡ false
    → exists same (λ v. v.email) e vs ≡ false
    → All (IsFree same l n e) vs
exists-IsFree same l n e [] hl hn he = tt
exists-IsFree same l n e (v ∷ vs) hl hn he =
    let (l₀, l₁) = or-false (same v.login_id l) _ hl in
    let (n₀, n₁) = or-false (same v.nickname n) _ hn in
    let (e₀, e₁) = or-false (same v.email e) _ he in
    ((l₀, n₀, e₀), exists-IsFree same l n e vs l₁ n₁ e₁)
