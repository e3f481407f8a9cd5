-- ===== src/Signup/Accounts/Steps.antt =====
-- Each route on the table and on the sessions.
use project_tetris.Base.{or-false, not-false}
use project_tetris.Base.{
  ℕ, ◌≡◌, refl, Bool, true, false, not, ◌||◌, Option, none, some, ltb, ◌==◌, if-both, if-cases,
}
use project_tetris.Python.Exec.{Result, ok, err, Ensures}
use project_tetris.Python.Utf8.{Text}
use project_tetris.Python.Chars.{text_eq}
use project_tetris.Signup.Checks.{
  is_valid_id, is_valid_nickname, is_valid_email, validate_password, code_text,
}
use project_tetris.Signup.Table.{Table, exists, insert_user, too_long}
use project_tetris.Signup.Handlers.{
  Libraries, EmailVerify, Server, Call, Outcome, Request, check_id, check_nickname, send_code,
  verify_code, register, set_session, has_row, stripped, get_field, hash_text, check_text,
  send_hashed, is_empty, verify_checked, verify_session, commit, register_hashed, register_unique,
  register_session, api_check_id, api_check_nickname, api_send_code, api_verify_code, api_register,
  handle,
}
use project_tetris.Signup.Accounts.{Grows, stay, join, IsSession, text_eq_lem, exists-IsFree}

module _ (L : Libraries) where
  -- What a route leaves: a table that has grown from the one before, and sessions of valid e-mails.
  pub record Keeps (before : Table) (s : Server) : Type 0 where
    pub grown : Grows L.same before s.table
    pub valid_sessions : (client : ℕ) → IsSession (s.sessions client)

  set_session-Keeps :
      (client : ℕ) (st : Option EmailVerify) (sessions : ℕ → Option EmailVerify)
      → IsSession st
      → ((c : ℕ) → IsSession (sessions c))
      → (c : ℕ) → IsSession (set_session client st sessions c)
  set_session-Keeps client st sessions h k c = if-both IsSession (c == client) h (k c)

  abbrev pub After : Table → Outcome → Type 0
  After t o = Keeps t o.1

  same_table : (s : Server) → ((c : ℕ) → IsSession (s.sessions c)) → Keeps s.table s
  same_table s h = record { grown = stay; valid_sessions = h }

  send_hashed-Keeps :
      (call : Call) (email code : Text) (s : Server) (hash : Result Text)
      → is_valid_email email ≡ true
      → ((c : ℕ) → IsSession (s.sessions c))
      → After s.table (send_hashed L call email code s hash)
  send_hashed-Keeps call email code s (err e) v h = same_table s h
  send_hashed-Keeps call email code s (ok hash) v h =
      let sessions = set_session-Keeps call.client (some _) s.sessions v h in
      if-both (After s.table) call.mail_works (record { grown = stay; valid_sessions = sessions })
        (record { grown = stay; valid_sessions = sessions })

  verify_checked-Keeps :
      (call : Call) (st : EmailVerify) (s : Server) (r : Result Bool)
      → IsSession (some st)
      → ((c : ℕ) → IsSession (s.sessions c))
      → After s.table (verify_checked L call st s r)
  verify_checked-Keeps call st s (err e) v h = same_table s h
  verify_checked-Keeps call st s (ok false) v h = same_table s h
  verify_checked-Keeps call st s (ok true) v h = record {
    grown = stay;
    valid_sessions = set_session-Keeps call.client (some _) s.sessions v h;
  }

  verify_session-Keeps :
      (call : Call) (email code : Text) (s : Server) (st : Option EmailVerify)
      → IsSession st
      → ((c : ℕ) → IsSession (s.sessions c))
      → After s.table (verify_session L call email code s st)
  unfolding verify_session
  verify_session-Keeps call email code s none v h = same_table s h
  verify_session-Keeps call email code s (some st) v h =
      if-both (After s.table) (not (text_eq st.email email)) (same_table s h) (
        if-both (After s.table) (ltb st.expire_at call.now) (same_table s h) (
          if-both (After s.table) (is_empty st.code_hash) (same_table s h)
            (verify_checked-Keeps call st s (check_text L code st.code_hash) v h)))

  pub insert_user-Grows :
      (t : Table) (l n hash e : Text)
      → is_valid_id l ≡ true
      → is_valid_email e ≡ true
      → exists L.same (λ v. v.login_id) l t.users ≡ false
      → exists L.same (λ v. v.nickname) n t.users ≡ false
      → exists L.same (λ v. v.email) e t.users ≡ false
      → Ensures (Grows L.same t) (insert_user L.same L.refuses t l n hash e)
  unfolding insert_user
  insert_user-Grows t l n hash e vl ve hl hn he =
      rw (hl, hn, he)
        (if-both (Ensures (Grows L.same t)) (too_long L.refuses l n hash e) tt (
          join _ refl (record { login_form = vl; email_form = ve })
            (exists-IsFree L.same l n e t.users hl hn he)))

  commit-Keeps :
      (call : Call) (s : Server) (r : Result Table)
      → ((c : ℕ) → IsSession (s.sessions c))
      → Ensures (Grows L.same s.table) r
      → After s.table (commit L call s r)
  commit-Keeps call s (err x) h g = same_table s h
  commit-Keeps call s (ok t) h g = record {
    grown = g;
    valid_sessions = set_session-Keeps call.client none s.sessions tt h;
  }

  register_hashed-Keeps :
      (call : Call) (l n e : Text) (s : Server) (hash : Result Text)
      → is_valid_id l ≡ true
      → is_valid_email e ≡ true
      → has_row L (λ v. v.login_id) l s ≡ false
      → has_row L (λ v. v.nickname) n s ≡ false
      → has_row L (λ v. v.email) e s ≡ false
      → ((c : ℕ) → IsSession (s.sessions c))
      → After s.table (register_hashed L call l n e s hash)
  unfolding register_hashed
  register_hashed-Keeps call l n e s (err x) vl ve hl hn he h = same_table s h
  register_hashed-Keeps call l n e s (ok hash) vl ve hl hn he h =
      commit-Keeps call s _ h (insert_user-Grows s.table l n hash e vl ve hl hn he)

  register_unique-Keeps :
      (call : Call) (l n pw e : Text) (s : Server)
      → is_valid_id l ≡ true
      → is_valid_email e ≡ true
      → ((c : ℕ) → IsSession (s.sessions c))
      → After s.table (register_unique L call l n pw e s)
  unfolding register_unique
  register_unique-Keeps call l n pw e s vl ve h =
      if-cases (After s.table) (has_row L (λ v. v.login_id) l s) (λ _. same_table s h)
        λ hl.
          if-cases (After s.table) (has_row L (λ v. v.nickname) n s) (λ _. same_table s h)
            λ hn.
              if-cases (After s.table) (has_row L (λ v. v.email) e s) (λ _. same_table s h)
                λ he. register_hashed-Keeps call l n e s (hash_text L pw call.salt) vl ve hl hn he h

  register_session-Keeps :
      (call : Call) (l n pw e : Text) (s : Server) (st : Option EmailVerify)
      → is_valid_id l ≡ true
      → IsSession st
      → ((c : ℕ) → IsSession (s.sessions c))
      → After s.table (register_session L call l n pw e s st)
  unfolding register_session
  register_session-Keeps call l n pw e s none vl v h = same_table s h
  register_session-Keeps call l n pw e s (some st) vl v h =
      if-cases (After s.table) (not (text_eq st.email e) || not st.verified) (λ _. same_table s h)
        λ t. if-both (After s.table) (ltb st.expire_at call.now) (same_table s h) (
          register_unique-Keeps call l n pw e s vl
            (rw (text_eq_lem st.email e (not-false _ (or-false _ _ t).0)) at v) h)

  pub handle-Keeps :
      (call : Call) (request : Request) (s : Server)
      → ((c : ℕ) → IsSession (s.sessions c))
      → After s.table (handle L call request s)
  unfolding handle api_check_id api_check_nickname api_send_code api_verify_code api_register
  handle-Keeps call (check_id body) s h =
      let same = same_table s h in
      if-both (After s.table) (not (is_valid_id (stripped L body.login_id))) same (
        if-both (After s.table) (has_row L (λ v. v.login_id) (stripped L body.login_id) s) same
          same)
  handle-Keeps call (check_nickname body) s h =
      let same = same_table s h in
      if-both (After s.table) (not (is_valid_nickname (stripped L body.nickname))) same (
        if-both (After s.table) (has_row L (λ v. v.nickname) (stripped L body.nickname) s) same
          same)
  handle-Keeps call (send_code body) s h =
      let email = stripped L body.email in
      if-cases (After s.table) (not (is_valid_email email)) (λ _. same_table s h)
        λ v.
          if-both (After s.table) (has_row L (λ v. v.email) email s) (same_table s h)
            (send_hashed-Keeps call email (code_text call.random) s _ (not-false _ v) h)
  handle-Keeps call (verify_code body) s h =
      verify_session-Keeps call (stripped L body.email) (stripped L body.code) s
        (s.sessions call.client) (h call.client) h
  handle-Keeps call (register body) s h =
      let l = stripped L body.login_id in
      let pw = get_field body.password in
      if-cases (After s.table) (not (is_valid_id l)) (λ _. same_table s h)
        λ vl.
          if-both (After s.table) (not (text_eq pw (get_field body.password2))) (same_table s h) (
            if-both (After s.table) (not (validate_password L.unicode pw)) (same_table s h) (
              register_session-Keeps call l (stripped L body.nickname) pw (stripped L body.email) s
                (s.sessions call.client) (not-false _ vl) (h call.client) h))
