-- ===== src/Signup/Accepted.antt =====
-- What a registration that the server accepts has shown.
use project_tetris.Base.{or-false, not-false}
use project_tetris.Base.{
  ℕ, ◌≤◌, ◌≡◌, refl, true, false, not, ◌||◌, Option, none, some, ltb, if-cases, arith, ==_iff,
}
use project_tetris.Python.Exec.{Result, ok, err}
use project_tetris.Python.Utf8.{Text}
use project_tetris.Python.Chars.{text_eq}
use project_tetris.Signup.Checks.{is_valid_id, validate_password}
use project_tetris.Signup.Table.{Table, insert_user}
use project_tetris.Signup.Handlers.{
  Libraries, EmailVerify, Server, Call, Body, Outcome, set_session, has_row, stripped, get_field,
  hash_text, commit, register_hashed, register_unique, register_session, api_register,
}
use project_tetris.Signup.Accounts.{text_eq_lem}

abbrev pub IsAccepted : Outcome → Type 0
IsAccepted (ok r, s) = r.succeeded ≡ true
IsAccepted (err e, s) = ⊥

-- The session of a client that has shown that it reads the mails of an address.
pub record IsVerified (email : Text) (now : ℕ) (st : EmailVerify) : Type 0 where
  pub same_email : st.email ≡ email
  pub is_verified : st.verified ≡ true
  pub in_time : now ≤ st.expire_at

pub set_session_lem :
    (client : ℕ) (st : Option EmailVerify) (sessions : ℕ → Option EmailVerify)
    → set_session client st sessions client ≡ st
set_session_lem client st sessions = rw ((==_iff client client).1 refl) refl

false≢true : false ≡ true → ⊥
false≢true h = cc

module _ (L : Libraries) (call : Call) (l n pw e : Text) (s : Server) where
  -- The new account is in the table, its hash is the password's, and the session is used up.
  pub record IsJoined (s' : Server) : Type 0 where
    pub hash : Text
    pub hashed : hash_text L pw call.salt ≡ ok hash
    pub added : insert_user L.same L.refuses s.table l n hash e ≡ ok s'.table
    pub used_up : s'.sessions call.client ≡ none

  abbrev Joins : Outcome → Type 0
  Joins o = IsAccepted o → IsJoined o.1

  commit-Joins :
      (hash : Text) (r : Result Table)
      → hash_text L pw call.salt ≡ ok hash
      → insert_user L.same L.refuses s.table l n hash e ≡ r
      → Joins (commit L call s r)
  commit-Joins hash (err x) h a acc = absurd acc
  commit-Joins hash (ok t) h a acc = record {
    hash = hash;
    hashed = h;
    added = a;
    used_up = set_session_lem call.client none s.sessions;
  }

  register_hashed-Joins :
      (r : Result Text) → hash_text L pw call.salt ≡ r → Joins (register_hashed L call l n e s r)
  unfolding register_hashed
  register_hashed-Joins (err x) h acc = absurd acc
  register_hashed-Joins (ok hash) h acc = commit-Joins hash _ h refl acc

  register_unique-Joins : Joins (register_unique L call l n pw e s)
  unfolding register_unique
  register_unique-Joins =
      if-cases Joins (has_row L (λ v. v.login_id) l s) (λ _ acc. absurd (false≢true acc))
        λ _.
          if-cases Joins (has_row L (λ v. v.nickname) n s) (λ _ acc. absurd (false≢true acc))
            λ _.
              if-cases Joins (has_row L (λ v. v.email) e s) (λ _ acc. absurd (false≢true acc))
                λ _. register_hashed-Joins (hash_text L pw call.salt) refl

  abbrev Shows : Option EmailVerify → Outcome → Type 0
  Shows o out =
      IsAccepted out
      → ((st : EmailVerify) × (o ≡ some st) × IsVerified e call.now st) × IsJoined out.1

  register_session-Shows : (o : Option EmailVerify) → Shows o (register_session L call l n pw e s o)
  unfolding register_session
  register_session-Shows none = λ acc. absurd (false≢true acc)
  register_session-Shows (some st) =
      if-cases (Shows (some st)) (not (text_eq st.email e) || not st.verified)
        (λ _ acc. absurd (false≢true acc))
        λ t.
          let (same, verified) = or-false (not (text_eq st.email e)) (not st.verified) t in
          if-cases (Shows (some st)) (ltb st.expire_at call.now) (λ _ acc. absurd (false≢true acc))
            λ late acc. (
              (
                st,
                refl,
                record {
                  same_email = text_eq_lem st.email e (not-false _ same);
                  is_verified = not-false _ verified;
                  in_time = ground (arith, late);
                },
              ),
              register_unique-Joins acc,
            )

module _ (L : Libraries) where
  -- All that an accepted registration has shown, in terms of the fields as the server reads them.
  pub record IsSignedUp (call : Call) (body : Body) (s s' : Server) : Type 0 where
    pub id_form : is_valid_id (stripped L body.login_id) ≡ true
    pub same_password : get_field body.password ≡ get_field body.password2
    pub password_rule : validate_password L.unicode (get_field body.password) ≡ true
    pub shown :
        (st : EmailVerify) × (s.sessions call.client ≡ some st)
        × IsVerified (stripped L body.email) call.now st
    pub joined :
        IsJoined L call
          (stripped L body.login_id)
          (stripped L body.nickname)
          (get_field body.password)
          (stripped L body.email)
          s
          s'

  -- A registration is accepted only if the login id has its form, the two passwords agree and obey
  -- the rule, and the client's session holds this very e-mail, verified and not yet expired. The
  -- account that then stands in the table has the fields of the form and the hash of the password,
  -- and the client's session is gone, so that it verifies no second account.
  pub api_register-IsSignedUp :
      (call : Call) (body : Body) (s : Server)
      → IsAccepted (api_register L call body s)
      → IsSignedUp call body s (api_register L call body s).1
  unfolding api_register
  api_register-IsSignedUp call body s =
      let l = stripped L body.login_id in
      let pw = get_field body.password in
      let Signed : Outcome → Type 0 = λ o. IsAccepted o → IsSignedUp call body s o.1 in
      if-cases Signed (not (is_valid_id l)) (λ _ acc. absurd (false≢true acc))
        λ form.
          if-cases Signed (not (text_eq pw (get_field body.password2)))
            (λ _ acc. absurd (false≢true acc))
            λ same.
              if-cases Signed (not (validate_password L.unicode pw))
                (λ _ acc. absurd (false≢true acc))
                λ rule acc.
                  let (shown, joined) =
                    register_session-Shows L call l (stripped L body.nickname) pw
                      (stripped L body.email) s (s.sessions call.client) acc in
                  record {
                    id_form = not-false _ form;
                    same_password = text_eq_lem pw _ (not-false _ same);
                    password_rule = not-false _ rule;
                    shown = shown;
                    joined = joined;
                  }
