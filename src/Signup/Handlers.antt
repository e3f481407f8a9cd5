-- ===== src/Signup/Handlers.antt =====
-- Signup_server/app.py: the routes. bcrypt, the database's collation and refusals, and the tables of Unicode are parameters;
-- the clock, the random number, the salt and whether the mail goes out come with each call. A body
-- gives each field a string or nothing, as the page's script sends it.
use project_tetris.Base.{
  ℕ, ◌+◌, Bool, true, false, not, ◌||◌, Option, none, some, List, [], ◌∷◌, ltb, ◌==◌, if◌then◌else◌,
}
use project_tetris.Python.Exec.{Result, ok, err, ◌>>=◌}
use project_tetris.Python.Struct.{Bytes}
use project_tetris.Python.Utf8.{Text, encode}
use project_tetris.Python.Chars.{Unicode, strip, text_eq}
use project_tetris.Signup.Checks.{
  is_valid_id, is_valid_nickname, is_valid_email, validate_password, code_text,
}
use project_tetris.Signup.Table.{User, Table, Collation, Refusal, exists, insert_user}

pub record Bcrypt : Type 0 where
  -- the bytes and a salt
  pub hashpw : Bytes → ℕ → Result Text
  pub checkpw : Bytes → Text → Result Bool

pub record Libraries : Type 0 where
  pub unicode : Unicode
  pub bcrypt : Bcrypt
  pub same : Collation
  pub refuses : Refusal
  -- EMAIL_CODE_TTL
  pub ttl : ℕ

pub record EmailVerify : Type 0 where
  pub email : Text
  pub code_hash : Text
  pub expire_at : ℕ
  pub verified : Bool

-- The table, the session of each client, and the mails that went out.
pub record Server : Type 0 where
  pub table : Table
  pub sessions : ℕ → Option EmailVerify
  pub mails : List (Text × Text)

pub record Call : Type 0 where
  pub client : ℕ
  pub now : ℕ
  pub random : ℕ
  pub salt : ℕ
  pub mail_works : Bool

pub record Body : Type 0 where
  pub login_id : Option Text
  pub nickname : Option Text
  pub password : Option Text
  pub password2 : Option Text
  pub email : Option Text
  pub code : Option Text

pub data Message : Type 0 where
  bad_id id_used id_free bad_nickname nickname_used nickname_free bad_email email_used : Message
  mail_failed code_sent send_first other_email code_expired wrong_code email_verified : Message
  passwords_differ bad_password verify_first verification_expired signed_up : Message

pub record Response : Type 0 where
  pub succeeded : Bool
  pub message : Message
  pub status : ℕ

abbrev pub Outcome : Type 0
Outcome = Result Response × Server

abbrev pub answer : Bool → Message → ℕ → Server → Outcome
answer succeeded message status s =
    (ok (record { succeeded = succeeded; message = message; status = status }), s)

-- `data.get(field, "")`
abbrev pub get_field : Option Text → Text
get_field none = []
get_field (some s) = s

-- `session["email_verify"] = st`, and `session.pop("email_verify", None)`
abbrev pub set_session : ℕ → Option EmailVerify → (ℕ → Option EmailVerify) → ℕ → Option EmailVerify
set_session client st sessions c = if c == client then st else sessions c

abbrev pub is_empty : Text → Bool
is_empty [] = true
is_empty (_ ∷ _) = false

module _ (L : Libraries) where
  unfoldable pub stripped : Option Text → Text
  unfolding strip
  stripped field = strip L.unicode (get_field field)

  abbrev pub has_row : (User → Text) → Text → Server → Bool
  has_row column key s = exists L.same column key s.table.users

  abbrev pub hash_text : Text → ℕ → Result Text
  hash_text s salt = do bytes ← encode s; L.bcrypt.hashpw bytes salt

  abbrev pub check_text : Text → Text → Result Bool
  check_text s hash = do bytes ← encode s; L.bcrypt.checkpw bytes hash

  unfoldable pub api_check_id : Body → Server → Outcome
  unfolding is_valid_id
  api_check_id body s =
      let login_id = stripped body.login_id in
      if not (is_valid_id login_id)
      then answer false bad_id 400 s
      else if has_row (λ v. v.login_id) login_id s
      then answer false id_used 200 s
      else answer true id_free 200 s

  unfoldable pub api_check_nickname : Body → Server → Outcome
  unfolding is_valid_nickname
  api_check_nickname body s =
      let nickname = stripped body.nickname in
      if not (is_valid_nickname nickname)
      then answer false bad_nickname 400 s
      else if has_row (λ v. v.nickname) nickname s
      then answer false nickname_used 200 s
      else answer true nickname_free 200 s

  abbrev pub send_hashed : Call → Text → Text → Server → Result Text → Outcome
  send_hashed call email code s (err e) = (err e, s)
  send_hashed call email code s (ok code_hash) =
      let st : EmailVerify = record {
        email = email;
        code_hash = code_hash;
        expire_at = call.now + L.ttl;
        verified = false;
      } in
      let s' : Server = record s { sessions = set_session call.client (some st) s.sessions } in
      if call.mail_works
      then answer true code_sent 200 (record s' { mails = (email, code) ∷ s'.mails })
      else answer false mail_failed 500 s'

  unfoldable pub api_send_code : Call → Body → Server → Outcome
  unfolding is_valid_email code_text
  api_send_code call body s =
      let email = stripped body.email in
      if not (is_valid_email email)
      then answer false bad_email 400 s
      else if has_row (λ v. v.email) email s
      then answer false email_used 200 s
      else (let code = code_text call.random in
          send_hashed call email code s (hash_text code call.salt))

  abbrev pub verify_checked : Call → EmailVerify → Server → Result Bool → Outcome
  verify_checked call st s (err e) = (err e, s)
  verify_checked call st s (ok false) = answer false wrong_code 200 s
  verify_checked call st s (ok true) = answer true email_verified 200 (record s {
    sessions = set_session call.client (some (record st { verified = true })) s.sessions;
  })

  unfoldable pub verify_session : Call → Text → Text → Server → Option EmailVerify → Outcome
  unfolding text_eq
  verify_session call email code s none = answer false send_first 400 s
  verify_session call email code s (some st) =
      if not (text_eq st.email email)
      then answer false other_email 400 s
      else if ltb st.expire_at call.now
      then answer false code_expired 400 s
      else if is_empty st.code_hash
      then answer false wrong_code 200 s
      else verify_checked call st s (check_text code st.code_hash)

  unfoldable pub api_verify_code : Call → Body → Server → Outcome
  unfolding verify_session
  api_verify_code call body s =
      verify_session call (stripped body.email) (stripped body.code) s (s.sessions call.client)

  abbrev pub commit : Call → Server → Result Table → Outcome
  commit call s (err e) = (err e, s)
  commit call s (ok t) =
      answer true signed_up 200
        (record s { table = t; sessions = set_session call.client none s.sessions })

  unfoldable pub register_hashed : Call → Text → Text → Text → Server → Result Text → Outcome
  unfolding insert_user
  register_hashed call login_id nickname email s (err e) = (err e, s)
  register_hashed call login_id nickname email s (ok pw_hash) =
      commit call s (insert_user L.same L.refuses s.table login_id nickname pw_hash email)

  unfoldable pub register_unique : Call → Text → Text → Text → Text → Server → Outcome
  unfolding register_hashed
  register_unique call login_id nickname password email s =
      if has_row (λ v. v.login_id) login_id s
      then answer false id_used 200 s
      else if has_row (λ v. v.nickname) nickname s
      then answer false nickname_used 200 s
      else if has_row (λ v. v.email) email s
      then answer false email_used 200 s
      else register_hashed call login_id nickname email s (hash_text password call.salt)

  unfoldable pub register_session :
      Call → Text → Text → Text → Text → Server → Option EmailVerify → Outcome
  unfolding text_eq register_unique
  register_session call login_id nickname password email s none = answer false verify_first 400 s
  register_session call login_id nickname password email s (some st) =
      if not (text_eq st.email email) || not st.verified
      then answer false verify_first 400 s
      else if ltb st.expire_at call.now
      then answer false verification_expired 400 s
      else register_unique call login_id nickname password email s

  unfoldable pub api_register : Call → Body → Server → Outcome
  unfolding is_valid_id validate_password text_eq register_session
  api_register call body s =
      let login_id = stripped body.login_id in
      let nickname = stripped body.nickname in
      let password = get_field body.password in
      let password2 = get_field body.password2 in
      let email = stripped body.email in
      if not (is_valid_id login_id)
      then answer false bad_id 400 s
      else if not (text_eq password password2)
      then answer false passwords_differ 400 s
      else if not (validate_password L.unicode password)
      then answer false bad_password 400 s
      else register_session call login_id nickname password email s (s.sessions call.client)

pub data Request : Type 0 where
  check_id check_nickname send_code verify_code register : Body → Request

module _ (L : Libraries) where
  unfoldable pub handle : Call → Request → Server → Outcome
  unfolding api_check_id api_check_nickname api_send_code api_verify_code api_register
  handle call (check_id body) s = api_check_id L body s
  handle call (check_nickname body) s = api_check_nickname L body s
  handle call (send_code body) s = api_send_code L call body s
  handle call (verify_code body) s = api_verify_code L call body s
  handle call (register body) s = api_register L call body s

  -- The requests of all clients in the order in which they are served; an exception is the client's
  -- status 500 and ends nothing.
  unfoldable pub serve : List (Call × Request) → Server → Server
  unfolding handle
  serve [] s = s
  serve ((call, request) ∷ rest) s = serve rest (handle call request s).1
