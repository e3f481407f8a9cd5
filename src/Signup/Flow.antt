-- ===== src/Signup/Flow.antt =====
-- The way to an account: a code is mailed, shown, and an account is made.
use project_tetris.Python.Exec.{err≢ok}
use project_tetris.Base.{
  ℕ, ◌+◌, ◌≤◌, ◌≡◌, refl, sym, ap, ◌∙◌, true, false, none, some, [], ◌∷◌, le→ltb, ==_iff, length,
}
use project_tetris.Python.Exec.{Result, ok, err, ◌>>=◌}
use project_tetris.Python.Struct.{Bytes}
use project_tetris.Python.Utf8.{Text, encode}
use project_tetris.Python.Chars.{text_eq}
use project_tetris.Signup.Checks.{is_valid_id, is_valid_email, validate_password, code_text}
use project_tetris.Signup.Table.{
  insert_user, with_user, Refusal, TakesShort, name_column, long_column, too_long,
}
use project_tetris.Signup.Handlers.{
  Libraries, Bcrypt, EmailVerify, Server, Call, Body, code_sent, email_verified, signed_up, answer,
  set_session, has_row, stripped, get_field, hash_text, check_text, is_empty, verify_session,
  register_session, register_unique, register_hashed, api_send_code, api_verify_code, api_register,
}
use project_tetris.Signup.Accepted.{set_session_lem}

-- What bcrypt promises: a hash is not empty, and its own bytes pass its check.
pub record IsBcrypt (b : Bcrypt) : Type 0 where
  pub hash_filled :
      (bs : Bytes) (salt : ℕ) (h : Text) → b.hashpw bs salt ≡ ok h → is_empty h ≡ false
  pub own_accepted :
      (bs : Bytes) (salt : ℕ) (h : Text) → b.hashpw bs salt ≡ ok h → b.checkpw bs h ≡ ok true

-- The texts of a row are as short as its columns, the hash and the e-mail in the longer ones.
abbrev pub FitColumns : Text → Text → Text → Text → Type 0
FitColumns login_id nickname password_hash email =
    (length login_id ≤ name_column)
    × (length nickname ≤ name_column)
    × (length password_hash ≤ long_column)
    × (length email ≤ long_column)

not_too_long :
    {refuses : Refusal} (law : TakesShort refuses) (l n h e : Text)
    → FitColumns l n h e
    → too_long refuses l n h e ≡ false
not_too_long law l n h e (sl, sn, sh, se) = rw (law _ l sl, law _ n sn, law _ h sh, law _ e se) refl

pub text_eq_refl : (s : Text) → text_eq s s ≡ true
unfolding text_eq
text_eq_refl [] = refl
text_eq_refl (c ∷ s) = rw ((==_iff c c).1 refl) (text_eq_refl s)

module _ (L : Libraries) where
  abbrev pub with_session : Call → EmailVerify → Server → Server
  with_session call st s = record s { sessions = set_session call.client (some st) s.sessions }

  -- The session after a code for the e-mail went out.
  abbrev pub sent_session : Call → Text → Text → EmailVerify
  sent_session call email code_hash = record {
    email = email;
    code_hash = code_hash;
    expire_at = call.now + L.ttl;
    verified = false;
  }

  hashed_lem :
      (law : IsBcrypt L.bcrypt) (r : Result Bytes) (salt : ℕ) (h : Text)
      → (r >>= λ bs. L.bcrypt.hashpw bs salt) ≡ ok h
      → (is_empty h ≡ false) × ((r >>= λ bs. L.bcrypt.checkpw bs h) ≡ ok true)
  hashed_lem law (ok bs) salt h e = (law.hash_filled bs salt h e, law.own_accepted bs salt h e)
  hashed_lem law (err x) salt h e = absurd (err≢ok x h e)

  hash_text_lem :
      (law : IsBcrypt L.bcrypt) (s : Text) (salt : ℕ) (h : Text)
      → hash_text L s salt ≡ ok h
      → (is_empty h ≡ false) × (check_text L s h ≡ ok true)
  hash_text_lem law s salt h e = hashed_lem law (encode s) salt h e

  send_lem :
      (call : Call) (body : Body) (s : Server) (hash : Text)
      → is_valid_email (stripped L body.email) ≡ true
      → has_row L (λ v. v.email) (stripped L body.email) s ≡ false
      → hash_text L (code_text call.random) call.salt ≡ ok hash
      → call.mail_works ≡ true
      → api_send_code L call body s
        ≡ answer true code_sent 200
            (record (with_session call (sent_session call (stripped L body.email) hash) s) {
              mails = (stripped L body.email, code_text call.random) ∷ s.mails;
            })
  unfolding api_send_code
  send_lem call body s hash v free h works = rw (v, free, h, works) refl

  verify_lem :
      (law : IsBcrypt L.bcrypt) (call : Call) (body : Body) (s : Server) (st : EmailVerify)
      (salt : ℕ)
      → s.sessions call.client ≡ some st
      → st.email ≡ stripped L body.email
      → call.now ≤ st.expire_at
      → hash_text L (stripped L body.code) salt ≡ ok st.code_hash
      → api_verify_code L call body s
        ≡ answer true email_verified 200 (with_session call (record st { verified = true }) s)
  unfolding api_verify_code verify_session
  verify_lem law call body s st salt known same time h =
      let (filled, passes) = hash_text_lem law (stripped L body.code) salt st.code_hash h in
      rw
        (
          known,
          same,
          text_eq_refl (stripped L body.email),
          le→ltb st.expire_at call.now time,
          filled,
          passes,
        )
        refl

  register_lem :
      (law : TakesShort L.refuses) (call : Call) (body : Body) (s : Server) (st : EmailVerify)
      (hash : Text)
      → s.sessions call.client ≡ some st
      → st.email ≡ stripped L body.email
      → st.verified ≡ true
      → call.now ≤ st.expire_at
      → hash_text L (get_field body.password) call.salt ≡ ok hash
      → is_valid_id (stripped L body.login_id) ≡ true
      → get_field body.password ≡ get_field body.password2
      → validate_password L.unicode (get_field body.password) ≡ true
      → has_row L (λ v. v.login_id) (stripped L body.login_id) s ≡ false
      → has_row L (λ v. v.nickname) (stripped L body.nickname) s ≡ false
      → has_row L (λ v. v.email) (stripped L body.email) s ≡ false
      → FitColumns
          (stripped L body.login_id)
          (stripped L body.nickname)
          hash
          (stripped L body.email)
      → api_register L call body s
        ≡ answer true signed_up 200 (record s {
          table =
              with_user s.table
                (stripped L body.login_id)
                (stripped L body.nickname)
                hash
                (stripped L body.email);
          sessions = set_session call.client none s.sessions;
        })
  unfolding api_register register_session register_unique register_hashed insert_user
  register_lem law call body s st hash known same verified time h form agree rule fl fn fe fits =
      let pws : text_eq (get_field body.password) (get_field body.password2) ≡ true =
        rw (sym agree) (text_eq_refl (get_field body.password)) in
      let mails : text_eq st.email (stripped L body.email) ≡ true =
        rw same (text_eq_refl (stripped L body.email)) in
      rw (form, pws, rule, known, mails, verified, le→ltb st.expire_at call.now time, fl, fn, fe, h)
        (rw (not_too_long law _ _ _ _ fits, fl, fn, fe) refl)

  -- The three forms that a client sends, and what has to hold of them and of the server.
  pub record IsSignUp (s : Server) (c₁ c₂ c₃ : Call) (b₁ b₂ b₃ : Body) (code_hash hash : Text)
      : Type 0 where
    pub one_client : (c₂.client ≡ c₁.client) × (c₃.client ≡ c₁.client)
    pub one_email :
        (stripped L b₁.email ≡ stripped L b₂.email) × (stripped L b₁.email ≡ stripped L b₃.email)
    pub mail_works : c₁.mail_works ≡ true
    pub in_time : (c₂.now ≤ c₁.now + L.ttl) × (c₃.now ≤ c₁.now + L.ttl)
    pub code_typed : stripped L b₂.code ≡ code_text c₁.random
    pub hashes :
        (hash_text L (code_text c₁.random) c₁.salt ≡ ok code_hash)
        × (hash_text L (get_field b₃.password) c₃.salt ≡ ok hash)
    pub email_form : is_valid_email (stripped L b₁.email) ≡ true
    pub login_form : is_valid_id (stripped L b₃.login_id) ≡ true
    pub passwords : get_field b₃.password ≡ get_field b₃.password2
    pub password_rule : validate_password L.unicode (get_field b₃.password) ≡ true
    pub free_email : has_row L (λ v. v.email) (stripped L b₁.email) s ≡ false
    pub free_login : has_row L (λ v. v.login_id) (stripped L b₃.login_id) s ≡ false
    pub free_nickname : has_row L (λ v. v.nickname) (stripped L b₃.nickname) s ≡ false
    pub columns :
        FitColumns (stripped L b₃.login_id) (stripped L b₃.nickname) hash (stripped L b₃.email)

  abbrev pub after_code : Server → Call → Body → Server
  after_code s c b = (api_send_code L c b s).1

  abbrev pub after_verify : Server → Call → Call → Body → Body → Server
  after_verify s c₁ c₂ b₁ b₂ = (api_verify_code L c₂ b₂ (after_code s c₁ b₁)).1

  -- A client that asks for a code with a well-formed, free e-mail, shows the mailed code and then
  -- registers with a well-formed, free login id, a free nickname and an allowed password, both before
  -- the code expires, is signed up, if the four texts of the row are as short as their columns, which
  -- take such texts, if the mail works, and bcrypt gives the two hashes and accepts what it hashed
  -- itself. The code is the one in the mail, the account is the newest row, its hash accepts
  -- the password, and its scores are zero.
  pub sign_up_flow :
      (law : IsBcrypt L.bcrypt) (columns_law : TakesShort L.refuses) (s : Server) (c₁ c₂ c₃ : Call)
      (b₁ b₂ b₃ : Body) (code_hash hash : Text)
      → IsSignUp s c₁ c₂ c₃ b₁ b₂ b₃ code_hash hash
      → ((after_code s c₁ b₁).mails ≡ (stripped L b₁.email, code_text c₁.random) ∷ s.mails)
        × ((api_register L c₃ b₃ (after_verify s c₁ c₂ b₁ b₂)).0
            ≡ ok (record { succeeded = true; message = signed_up; status = 200 }))
        × ((api_register L c₃ b₃ (after_verify s c₁ c₂ b₁ b₂)).1.table
            ≡ with_user s.table
                (stripped L b₃.login_id)
                (stripped L b₃.nickname)
                hash
                (stripped L b₃.email))
        × (check_text L (get_field b₃.password) hash ≡ ok true)
  sign_up_flow law columns_law s c₁ c₂ c₃ b₁ b₂ b₃ code_hash hash h =
      let e₁ = send_lem c₁ b₁ s code_hash h.email_form h.free_email h.hashes.0 h.mail_works in
      let s₁ : Server =
        record (with_session c₁ (sent_session c₁ (stripped L b₁.email) code_hash) s) {
          mails = (stripped L b₁.email, code_text c₁.random) ∷ s.mails;
        } in
      let st = sent_session c₁ (stripped L b₁.email) code_hash in
      let k₁ : s₁.sessions c₂.client ≡ some st =
        rw h.one_client.0 (set_session_lem c₁.client (some st) s.sessions) in
      let e₂ =
        verify_lem law c₂ b₂ s₁ st c₁.salt k₁ h.one_email.0 h.in_time.0
          (rw h.code_typed h.hashes.0) in
      let s₂ = with_session c₂ (record st { verified = true }) s₁ in
      let k₂ : s₂.sessions c₃.client ≡ some (record st { verified = true }) =
        rw (h.one_client.1 ∙ sym h.one_client.0)
          (set_session_lem c₂.client (some (record st { verified = true })) s₁.sessions) in
      let free : has_row L (λ v. v.email) (stripped L b₃.email) s₂ ≡ false =
        rw (sym h.one_email.1) h.free_email in
      let e₃ =
        register_lem columns_law c₃ b₃ s₂ (record st { verified = true }) hash k₂ h.one_email.1 refl
          h.in_time.1 h.hashes.1 h.login_form h.passwords h.password_rule h.free_login
          h.free_nickname free h.columns in
      let a₁ : after_code s c₁ b₁ ≡ s₁ = ap (λ o. o.1) e₁ in
      let a₂ : after_verify s c₁ c₂ b₁ b₂ ≡ s₂ =
        ap (λ o. o.1) (ap (api_verify_code L c₂ b₂) a₁ ∙ e₂) in
      let r = ap (api_register L c₃ b₃) a₂ ∙ e₃ in
      (
        ap (λ o. o.1.mails) e₁,
        ap (λ o. o.0) r,
        ap (λ o. o.1.table) r,
        (hash_text_lem law (get_field b₃.password) c₃.salt hash h.hashes.1).1,
      )
