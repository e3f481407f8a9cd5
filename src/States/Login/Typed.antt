-- ===== src/States/Login/Typed.antt =====
-- What the login state sends, whatever is typed and clicked.
use project_tetris.Base.{
  ℕ, suc, ◌+◌, ◌≤◌, length, take, ◌≡◌, refl, Bool, true, Option, none, some, List, [], ◌∷◌, arith,
  if-both, if-cases, All, All-append,
}
use project_tetris.Python.Exec.{Result, ok, err, system_exit}
use project_tetris.Python.Struct.{Bytes}
use project_tetris.Python.Utf8.{Text}
use project_tetris.Python.Chars.{Unicode, text_eq}
use project_tetris.Net.Structs.{max_input, max_user_id}
use project_tetris.Net.Builder.{build_login_pkt}
use project_tetris.Net.Builder.Texts.{IsAscii, CarriesLogin, build_login-ascii}
use project_tetris.Ui.Event.{
  Event, mouse_motion, mouse_button_down, mouse_button_up, text_editing, text_input, key_down,
  key_up, key_backspace, key_return, game_key, mouse_wheel, quit, other,
}
use project_tetris.Ui.InputBox.{InputBox, handle_event}
use project_tetris.Ui.InputBox.Limit.{
  IsTyped, IsAsciiBox, IsUpTo, Answers, extract_text_lem, handle_event-Answers,
}
use project_tetris.Ui.Texts.{confirm_text, retry_text, exit_text}
use project_tetris.Ui.Button
use project_tetris.Ui.Button.{PopupBox, handle_popup, new_popup}
use project_tetris.States.Login.{
  Layout, LoginState, Outcome, connect, both_boxes, click_login, is_return, with_id, with_pw,
  is_quit, typed, continue_with, send_extracted, build_login, send_login, answer_connect,
  answer_login, answer_popups, handle_login_event, handle_login_events,
}

-- What a box can hold where no event brings more than `k` characters.
abbrev pub longest : ℕ → ℕ
longest k = 15 + k

pub record IsBoxText (k : ℕ) (s : Text) : Type 0 where
  pub short : length s ≤ longest k
  pub typed : All IsTyped s

-- The login packet of two such texts: it is read back as the first 48 characters of each.
abbrev pub IsLoginPacket : ℕ → Bytes → Type 0
IsLoginPacket k pkt =
    (id : Text) × (pw : Text) × IsBoxText k id
    × IsBoxText k pw
    × (build_login_pkt id pw ≡ ok pkt)
    × CarriesLogin id pw (take max_user_id id) (take max_user_id pw)

pub record IsLogin (k : ℕ) (id_box pw_box : InputBox) (requests : List Bytes) : Type 0 where
  pub id_typed : IsAsciiBox max_input (longest k) id_box
  pub pw_typed : IsAsciiBox max_input (longest k) pw_box
  pub sent : All (IsLoginPacket k) requests

abbrev pub Kept : ℕ → LoginState → Type 0
Kept k s = IsLogin k s.id_box s.pw_box s.requests

abbrev pub Ends : ℕ → Outcome → Type 0
Ends k (ok _, s) = Kept k s
Ends k (err e, s) = (e ≡ system_exit) × Kept k s

typed-IsAscii : (s : Text) → All IsTyped s → All IsAscii s
typed-IsAscii [] h = tt
typed-IsAscii (c ∷ s) (hc, h) = ((omega arith, omega arith), typed-IsAscii s h)

-- A box asks for its limit of 16 before it adds a text.
limit_lem : (k : ℕ) → max_input + k ≤ suc (longest k)
limit_lem k = omega arith

send_login-Ends :
    {k : ℕ} (s : LoginState) (id pw : Text)
    → IsBoxText k id
    → IsBoxText k pw
    → Kept k s
    → Ends k (send_login s (build_login_pkt id pw))
send_login-Ends {k = k} s id pw hid hpw h =
    let packed =
      build_login-ascii id pw (typed-IsAscii id hid.typed) (typed-IsAscii pw hpw.typed) in
    let (pkt, a, b, e, u, i, p) = packed in
    rw e (record {
      id_typed = h.id_typed;
      pw_typed = h.pw_typed;
      sent =
          All-append (IsLoginPacket k) s.requests (pkt ∷ []) h.sent
            ((id, pw, hid, hpw, e, packed), tt);
    })

input : {k : ℕ} (b : InputBox) → IsAsciiBox max_input (longest k) b → IsBoxText k b.text
input b h = record { short = h.short; typed = h.typed }

is_return_lem : (ev : Event) → is_return ev ≡ true → ev ≡ key_down key_return
is_return_lem (key_down key_return) e = refl
is_return_lem (key_down key_backspace) e = cc
is_return_lem (key_down (game_key k)) e = cc
is_return_lem (mouse_motion at) e = cc
is_return_lem (mouse_button_down b at) e = cc
is_return_lem (mouse_button_up b at) e = cc
is_return_lem (text_editing t) e = cc
is_return_lem (text_input t) e = cc
is_return_lem (key_up k) e = cc
is_return_lem quit e = cc
is_return_lem other e = cc
is_return_lem (mouse_wheel y) e = cc

module _ (u : Unicode) (k : ℕ) where
  send_extracted-Ends : (s : LoginState) → Kept k s → Ends k (send_extracted s)
  send_extracted-Ends s h =
      let (id_box, e, hi) =
        extract_text_lem u max_input (longest k) k (limit_lem k) s.id_box h.id_typed in
      let (pw_box, e', hp) =
        extract_text_lem u max_input (longest k) k (limit_lem k) s.pw_box h.pw_typed in
      rw (e, e')
        (send_login-Ends _ s.id_box.text s.pw_box.text (input s.id_box h.id_typed)
          (input s.pw_box h.pw_typed) (record { id_typed = hi; pw_typed = hp; sent = h.sent }))

  click_login-Ends : (s : LoginState) (ev : Event) → Kept k s → Ends k (click_login s ev)
  click_login-Ends s ev h =
      if-both (Ends k) (Button.handle_event s.btn_login ev).1 (send_extracted-Ends _ h) h

  -- Either box answers, and the rest goes on from there.
  with_pw-Ends :
      (s : LoginState) (rest : Option Text → LoginState → Outcome)
      (r : Result (Option Text) × InputBox)
      → Answers u max_input (longest k) k (limit_lem k) r
      → Kept k s
      → ((a : Option Text) (s' : LoginState) → Kept k s' → Ends k (rest a s'))
      → Ends k (with_pw s rest r)
  with_pw-Ends s rest (ok none, b) h h' f =
      f none _ (record { id_typed = h'.id_typed; pw_typed = h; sent = h'.sent })
  with_pw-Ends s rest (ok (some t), b) h h' f =
      f (some t) _ (record { id_typed = h'.id_typed; pw_typed = h.2; sent = h'.sent })
  with_pw-Ends s rest (err e, b) h h' f = absurd h

  with_id-Ends :
      (s : LoginState) (rest : Option Text → LoginState → Outcome)
      (r : Result (Option Text) × InputBox)
      → Answers u max_input (longest k) k (limit_lem k) r
      → Kept k s
      → ((a : Option Text) (s' : LoginState) → Kept k s' → Ends k (rest a s'))
      → Ends k (with_id s rest r)
  with_id-Ends s rest (ok none, b) h h' f =
      f none _ (record { id_typed = h; pw_typed = h'.pw_typed; sent = h'.sent })
  with_id-Ends s rest (ok (some t), b) h h' f =
      f (some t) _ (record { id_typed = h.2; pw_typed = h'.pw_typed; sent = h'.sent })
  with_id-Ends s rest (err e, b) h h' f = absurd h

  return-Ends :
      (s : LoginState)
      → Kept k s
      → Ends k (both_boxes u s (key_down key_return) λ id pw s'. send_login s' (build_login id pw))
  unfolding handle_event
  return-Ends s h =
      let (id_box, e, hi) =
        extract_text_lem u max_input (longest k) k (limit_lem k) s.id_box h.id_typed in
      let (pw_box, e', hp) =
        extract_text_lem u max_input (longest k) k (limit_lem k) s.pw_box h.pw_typed in
      rw (e, e')
        (send_login-Ends _ s.id_box.text s.pw_box.text (input s.id_box h.id_typed)
          (input s.pw_box h.pw_typed) (record { id_typed = hi; pw_typed = hp; sent = h.sent }))

  typed-Ends : (s : LoginState) (ev : Event) → IsUpTo k ev → Kept k s → Ends k (typed u s ev)
  typed-Ends s ev one h =
      if-cases (Ends k) (is_return ev) (λ e. rw (is_return_lem ev e) (return-Ends s h))
        λ _.
          with_id-Ends s _ (handle_event u s.id_box ev)
            (handle_event-Answers u max_input (longest k) k (limit_lem k) s.id_box ev one
              h.id_typed)
            h
            λ a s₁ h₁.
              with_pw-Ends s₁ _ (handle_event u s₁.pw_box ev)
                (handle_event-Answers u max_input (longest k) k (limit_lem k) s₁.pw_box ev one
                  h₁.pw_typed)
                h₁ λ b s₂ h₂. click_login-Ends s₂ ev h₂

continue_with-Ends :
    {k : ℕ} (o rest : Outcome)
    → Ends k o
    → (Kept k o.1 → Ends k rest)
    → Ends k (continue_with o rest)
continue_with-Ends (ok _, s) rest h f = f h
continue_with-Ends (err e, s) rest h f = h

module _ (l : Layout) (k : ℕ) where
  connect-Ends : (connects : Bool) (s : LoginState) → Kept k s → Ends k (connect l connects s)
  unfolding connect new_popup
  connect-Ends connects s h = if-both (Ends k) connects h h

  answer_connect-Ends :
      (connects : Bool) (s : LoginState) (o : PopupBox × Option Text)
      → Kept k s
      → Ends k (answer_connect l connects s o)
  answer_connect-Ends connects s (p, none) h = h
  answer_connect-Ends connects s (p, some t) h =
      if-both (Ends k) (text_eq t retry_text) (connect-Ends connects _ h)
        (if-both (Ends k) (text_eq t exit_text) (refl, h) h)

  answer_login-Ends :
      (s : LoginState) (o : PopupBox × Option Text) → Kept k s → Ends k (answer_login l s o)
  answer_login-Ends s (p, none) h = h
  answer_login-Ends s (p, some t) h = if-both (Ends k) (text_eq t confirm_text) h h

  answer_popups-Ends :
      (connects : Bool) (s : LoginState) (ev : Event) (c i : Option PopupBox)
      → Kept k s
      → Ends k (answer_popups l connects s ev c i)
  answer_popups-Ends connects s ev (some p) i h =
      answer_connect-Ends connects s (handle_popup p ev) h
  answer_popups-Ends connects s ev none (some p) h = answer_login-Ends s (handle_popup p ev) h
  answer_popups-Ends connects s ev none none h = h

  handle_login_event-Ends :
      (u : Unicode) (connects : Bool) (s : LoginState) (ev : Event)
      → IsUpTo k ev
      → Kept k s
      → Ends k (handle_login_event l u connects s ev)
  unfolding handle_login_event
  handle_login_event-Ends u connects s ev one h =
      if-both (Ends k) (is_quit ev) (refl, h)
        (if-both (Ends k) s.reactable (typed-Ends u k s ev one h)
          (answer_popups-Ends connects s ev s.fail_connect_popup s.fail_login_popup h))

  -- Whatever events a frame brings, and whether or not a connection succeeds: if no text event has
  -- more than `k` characters, a login state whose boxes hold at most 15 + `k` printable ASCII
  -- characters, which are 16 where the events bring one at a time, raises nothing but SystemExit, and
  -- its boxes hold no other text afterwards. Every packet that it sent is the login packet of two such
  -- texts, and is read back as the first 48 characters of each.
  pub handle_login_events-Ends :
      (u : Unicode) (connects : Bool) (s : LoginState) (evs : List Event)
      → All (IsUpTo k) evs
      → Kept k s
      → Ends k (handle_login_events l u connects s evs)
  unfolding handle_login_events
  handle_login_events-Ends u connects s [] one h = h
  handle_login_events-Ends u connects s (ev ∷ evs) (one, ones) h =
      continue_with-Ends (handle_login_event l u connects s ev) _
        (handle_login_event-Ends u connects s ev one h)
        (handle_login_events-Ends u connects (handle_login_event l u connects s ev).1 evs ones)
