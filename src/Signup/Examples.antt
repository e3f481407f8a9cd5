-- ===== src/Signup/Examples.antt =====
-- Witnesses: one sign-up, on an empty server with a library that hashes nothing away.
use mathlib.Core.Path.{subst}
use project_tetris.Base.{
  ℕ, ◌≡◌, refl, ap, sym, ltb, length, le→ltb, true, false, none, some, List, [], ◌∷◌, arith,
}
use project_tetris.Python.Exec.{Result, ok, err}
use project_tetris.Python.Utf8.{Text, encode, encode_char}
use project_tetris.Python.Chars.{Unicode, text_eq, strip}
use project_tetris.Signup.Checks.{
  is_valid_id, is_valid_email, validate_password, code_text, match_plus,
}
use project_tetris.Signup.Table.{TakesShort, with_user}
use project_tetris.Signup.Handlers.{
  Bcrypt, Libraries, Server, Call, Body, Request, check_id, send_code, verify_code, register,
  signed_up, stripped, check_text, get_field, handle, serve, api_send_code, api_verify_code,
  api_register,
}
use project_tetris.Signup.Accounts.{Grows, IsSession}
use project_tetris.Signup.Accounts.Invariant.{IsServer, handle_refines_Grows, serve-IsServer}
use project_tetris.Signup.Accepted.{IsAccepted, IsSignedUp, api_register-IsSignedUp}
use project_tetris.Signup.Flow.{
  IsBcrypt, IsSignUp, text_eq_refl, after_code, after_verify, sign_up_flow,
}

abbrev no_unicode : Unicode
no_unicode = record {
  printable = λ _. false;
  digit = λ _. false;
  word = λ _. false;
  space = λ _. false;
}

abbrev plain_hash : Bcrypt
plain_hash = record { hashpw = λ bs _. ok (1 ∷ bs); checkpw = λ bs h. ok (text_eq (1 ∷ bs) h) }

abbrev libraries : Libraries
libraries = record {
  unicode = no_unicode;
  bcrypt = plain_hash;
  same = text_eq;
  refuses = λ n s. ltb n (length s);
  ttl = 300;
}

abbrev empty_server : Server
empty_server = record {
  table = record { users = []; next_id = 1 };
  sessions = λ _. none;
  mails = [];
}

-- "a@b.c"
abbrev address : Text
address = 97 ∷ 64 ∷ 98 ∷ 46 ∷ 99 ∷ []

-- "player_1", which is the password too
abbrev name : Text
name = 112 ∷ 108 ∷ 97 ∷ 121 ∷ 101 ∷ 114 ∷ 95 ∷ 49 ∷ []

abbrev secret : Text
secret = name

-- The first field is typed with a space before it.
abbrev form : Body
form = record {
  login_id = some (32 ∷ name);
  nickname = some name;
  password = some secret;
  password2 = some secret;
  email = some address;
  code = some (48 ∷ 48 ∷ 48 ∷ 48 ∷ 52 ∷ 50 ∷ []);
}

abbrev at_time : ℕ → Call
at_time now = record { client = 3; now = now; random = 42; salt = 0; mail_works = true }

abbrev unwrapped : Result Text → Text
unwrapped (ok t) = t
unwrapped (err e) = []

plain_hash-IsBcrypt : IsBcrypt plain_hash
plain_hash-IsBcrypt = record {
  hash_filled = λ bs salt h e. rw (sym (ap unwrapped e)) refl;
  own_accepted = λ bs salt h e. rw (sym (ap unwrapped e)) (ap ok (text_eq_refl (1 ∷ bs)));
}

database_lem : TakesShort libraries.refuses
database_lem n s h = le→ltb n (length s) h

form_fits :
    IsSignUp libraries empty_server
      (at_time 1000)
      (at_time 1200)
      (at_time 1300)
      form
      form
      form
      (1 ∷ code_text 42)
      (1 ∷ secret)
unfolding stripped strip code_text is_valid_email is_valid_id match_plus validate_password encode
    encode_char
form_fits = record {
  one_client = (refl, refl);
  one_email = (refl, refl);
  mail_works = refl;
  in_time = (omega arith, omega arith);
  code_typed = refl;
  hashes = (refl, refl);
  email_form = refl;
  login_form = refl;
  passwords = refl;
  password_rule = refl;
  free_email = refl;
  free_login = refl;
  free_nickname = refl;
  columns = (omega arith, omega arith, omega arith, omega arith);
}

sign_up_flow_example :
    ((after_code libraries empty_server (at_time 1000) form).mails
      ≡ (stripped libraries form.email, code_text 42) ∷ [])
    × ((api_register libraries
          (at_time 1300)
          form
          (after_verify libraries empty_server (at_time 1000) (at_time 1200) form form)).0
        ≡ ok (record { succeeded = true; message = signed_up; status = 200 }))
    × ((api_register libraries
          (at_time 1300)
          form
          (after_verify libraries empty_server (at_time 1000) (at_time 1200) form form)).1.table
        ≡ with_user empty_server.table
            (stripped libraries form.login_id)
            (stripped libraries form.nickname)
            (1 ∷ secret)
            (stripped libraries form.email))
    × (check_text libraries (get_field form.password) (1 ∷ secret) ≡ ok true)
sign_up_flow_example =
    sign_up_flow libraries plain_hash-IsBcrypt database_lem empty_server (at_time 1000)
      (at_time 1200) (at_time 1300) form form form (1 ∷ code_text 42) (1 ∷ secret) form_fits

abbrev verified_server : Server
verified_server = after_verify libraries empty_server (at_time 1000) (at_time 1200) form form

accepted : IsAccepted (api_register libraries (at_time 1300) form verified_server)
unfolding api_register api_verify_code stripped api_send_code encode
accepted = subst (λ o. IsAccepted (o, verified_server)) (sym sign_up_flow_example.1) refl

api_register-IsSignedUp_example :
    IsSignedUp libraries
      (at_time 1300)
      form
      verified_server
      (api_register libraries (at_time 1300) form verified_server).1
api_register-IsSignedUp_example =
    api_register-IsSignedUp libraries (at_time 1300) form verified_server accepted

handle_refines_Grows_example :
    Grows text_eq empty_server.table
      (handle libraries (at_time 1000) (send_code form) empty_server).1.table
    × ((client : ℕ)
        → IsSession
            ((handle libraries (at_time 1000) (send_code form) empty_server).1.sessions client))
handle_refines_Grows_example =
    handle_refines_Grows libraries (at_time 1000) (send_code form) empty_server (λ _. tt)

abbrev requests : List (Call × Request)
requests =
    (at_time 1000, send_code form)
    ∷ (at_time 1200, verify_code form)
    ∷ (at_time 1300, register form)
    ∷ (at_time 1400, check_id form)
    ∷ []

serve-IsServer_example : IsServer libraries (serve libraries requests empty_server)
serve-IsServer_example = serve-IsServer libraries requests empty_server (record {
  table_valid = record { distinct = tt; numbered = tt; accounts = tt };
  sessions_valid = λ _. tt;
})
