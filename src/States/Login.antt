-- ===== src/States/Login.antt =====
-- client/tetris/states/login_state.py: the two text fields, the login button and the popups. The
-- rectangles of the layout are a parameter, and so is whether a connection succeeds. A packet that is
-- handed to `send_packet` is in the list `requests`; the answers of `send_packet` are not used.
pub mod Typed
use project_tetris.Base.{
  ℕ, Bool, true, false, ◌&&◌, Option, none, some, List, [], ◌∷◌, ◌++◌, if◌then◌else◌, ℤ, pos,
}
use project_tetris.Python.Exec.{Result, ok, err, key_error, attribute_error, system_exit, ◌>>=◌}
use project_tetris.Python.Struct.{Bytes}
use project_tetris.Python.Utf8.{Text}
use project_tetris.Python.Chars.{Unicode, text_eq}
use project_tetris.Game.Session.{Player}
use project_tetris.Net.Structs.{max_input}
use project_tetris.Net.Builder.{build_login_pkt}
use project_tetris.States.Errors.{ErrorType, error_type}
use project_tetris.States.Fade.{
  StateName, BaseState, lobby, new_base_state, queue_state, consume_state, update_fade,
}
use project_tetris.Ui.Event.{Event, key_down, key_return, quit, Rect}
use project_tetris.Ui.Texts.{confirm_text, retry_text, exit_text, login_text}
use project_tetris.Ui.InputBox
use project_tetris.Ui.InputBox.{InputBox, TextOutcome, new_input_box, extract_text}
use project_tetris.Ui.Button
use project_tetris.Ui.Button.{Button, PopupBox, new_button, new_popup, handle_popup}

-- The rectangles that the layout computes from the screen.
pub record Layout : Type 0 where
  pub id_rect : Rect
  pub pw_rect : Rect
  pub login_rect : Rect
  pub popup_rects : ℕ → Rect

pub record LoginState : Type 0 where
  pub base : BaseState
  pub session : Player
  pub id_box : InputBox
  pub pw_box : InputBox
  pub btn_login : Button
  pub reactable : Bool
  pub fail_connect_popup : Option PopupBox
  pub fail_login_popup : Option PopupBox
  pub requests : List Bytes

abbrev pub Outcome : Type 0
Outcome = Result (Unit {0}) × LoginState

module _ (l : Layout) where
  abbrev pub new_login : Player → LoginState
  new_login p = record {
    base = new_base_state;
    session = p;
    id_box = new_input_box l.id_rect (some max_input) false false;
    pw_box = new_input_box l.pw_rect (some max_input) true false;
    btn_login = new_button l.login_rect login_text;
    reactable = true;
    fail_connect_popup = none;
    fail_login_popup = none;
    requests = [];
  }

  abbrev with_connect_popup : LoginState → Result PopupBox → Outcome
  with_connect_popup s (ok p) = (ok tt, record s { fail_connect_popup = some p; reactable = false })
  with_connect_popup s (err e) = (err e, s)

  unfoldable pub connect : Bool → LoginState → Outcome
  unfolding new_popup
  connect connects s =
      if connects
      then (ok tt, s)
      else with_connect_popup s (new_popup l.popup_rects (retry_text ∷ exit_text ∷ []))

  -- The packets of this state, with the fields that are read from them.
  abbrev with_login_popup : LoginState → Result PopupBox → Outcome
  with_login_popup s (ok p) = (ok tt, record s { fail_login_popup = some p; reactable = false })
  with_login_popup s (err e) = (err e, s)

  abbrev show_login_error : LoginState → Option ErrorType → Outcome
  unfolding new_popup
  show_login_error s none = (err key_error, s)
  show_login_error s (some e) = with_login_popup s (new_popup l.popup_rects (confirm_text ∷ []))

pub data LoginPacket : Type 0 where
  error_packet : ℕ → LoginPacket
  login_packet : ℤ → Text → ℤ → ℤ → ℤ → LoginPacket
  unused_packet : LoginPacket

module _ (l : Layout) where
  unfoldable pub handle_login_packet : LoginState → LoginPacket → Outcome
  unfolding show_login_error error_type queue_state
  handle_login_packet s (error_packet code) = show_login_error l s (error_type code)
  handle_login_packet s (login_packet id name win lose max_score) = (
    ok tt,
    record s {
      session = record s.session {
        id = id;
        nickname = name;
        win = win;
        lose = lose;
        max_score = max_score;
      };
      base = queue_state s.base lobby;
    },
  )
  handle_login_packet s unused_packet = (ok tt, s)

-- `str(None)`
abbrev none_text : Text
none_text = 0x4E ∷ 0x6F ∷ 0x6E ∷ 0x65 ∷ []

-- `str(s)`: None has a text too.
abbrev as_str : Option Text → Text
as_str none = none_text
as_str (some s) = s

-- `build_login_pkt` on what the two boxes answered.
abbrev pub build_login : Option Text → Option Text → Result Bytes
build_login id pw = build_login_pkt (as_str id) (as_str pw)

abbrev pub send_login : LoginState → Result Bytes → Outcome
send_login s (ok packet) = (ok tt, record s { requests = s.requests ++ (packet ∷ []) })
send_login s (err e) = (err e, s)

-- What a box answers goes to the rest, with the box as it is then.
abbrev pub with_id {ℓ} :
    {A : Type ℓ} → LoginState → (A → LoginState → Outcome) → Result A × InputBox → Outcome
with_id s rest (ok a, b) = rest a (record s { id_box = b })
with_id s rest (err e, b) = (err e, record s { id_box = b })

abbrev pub with_pw {ℓ} :
    {A : Type ℓ} → LoginState → (A → LoginState → Outcome) → Result A × InputBox → Outcome
with_pw s rest (ok a, b) = rest a (record s { pw_box = b })
with_pw s rest (err e, b) = (err e, record s { pw_box = b })

-- Both boxes see the event, the password's after that of the id.
abbrev pub both_boxes :
    Unicode → LoginState → Event → (Option Text → Option Text → LoginState → Outcome) → Outcome
both_boxes u s ev rest =
    with_id s (λ id s₁. with_pw s₁ (rest id) (InputBox.handle_event u s₁.pw_box ev))
      (InputBox.handle_event u s.id_box ev)

-- The texts that the login button takes out of the boxes.
abbrev pub extract_both : LoginState → (Text → Text → LoginState → Outcome) → Outcome
extract_both s rest =
    with_id s (λ id s₁. with_pw s₁ (rest id) (extract_text s₁.pw_box)) (extract_text s.id_box)

abbrev pub send_extracted : LoginState → Outcome
send_extracted s = extract_both s λ id pw s'. send_login s' (build_login_pkt id pw)

abbrev pub click_login : LoginState → Event → Outcome
click_login s ev =
    let (btn, clicked) = Button.handle_event s.btn_login ev in
    let s' : LoginState = record s { btn_login = btn } in
    if clicked then send_extracted s' else (ok tt, s')

abbrev pub is_return : Event → Bool
is_return (key_down key_return) = true
is_return _ = false

abbrev pub is_quit : Event → Bool
is_quit quit = true
is_quit _ = false

abbrev pub typed : Unicode → LoginState → Event → Outcome
typed u s ev =
    if is_return ev
    then (both_boxes u s ev λ id pw s'. send_login s' (build_login id pw))
    else (both_boxes u s ev λ _ _ s'. click_login s' ev)

-- The rest of a loop, unless an exception has ended it.
abbrev pub continue_with : Outcome → Outcome → Outcome
continue_with (ok _, s) rest = rest
continue_with (err e, s) rest = (err e, s)

module _ (l : Layout) where
  abbrev pub answer_connect : Bool → LoginState → PopupBox × Option Text → Outcome
  answer_connect connects s (p, none) = (ok tt, record s { fail_connect_popup = some p })
  answer_connect connects s (p, some t) =
      if text_eq t retry_text
      then connect l connects (record s { fail_connect_popup = none; reactable = true })
      else if text_eq t exit_text
      then (err system_exit, record s { fail_connect_popup = some p })
      else (ok tt, record s { fail_connect_popup = some p })

  abbrev pub answer_login : LoginState → PopupBox × Option Text → Outcome
  answer_login s (p, none) = (ok tt, record s { fail_login_popup = some p })
  answer_login s (p, some t) =
      if text_eq t confirm_text
      then (ok tt, record s { fail_login_popup = none; reactable = true })
      else (ok tt, record s { fail_login_popup = some p })

  abbrev pub answer_popups : Bool → LoginState → Event → Option PopupBox → Option PopupBox → Outcome
  answer_popups connects s ev (some p) _ = answer_connect connects s (handle_popup p ev)
  answer_popups connects s ev none (some p) = answer_login s (handle_popup p ev)
  answer_popups connects s ev none none = (ok tt, s)

  unfoldable pub handle_login_event : Unicode → Bool → LoginState → Event → Outcome
  unfolding connect
  handle_login_event u connects s ev =
      if is_quit ev
      then (err system_exit, s)
      else if s.reactable
      then typed u s ev
      else answer_popups connects s ev s.fail_connect_popup s.fail_login_popup

  -- The loop over the events of a frame; an exception ends it.
  unfoldable pub handle_login_events : Unicode → Bool → LoginState → List Event → Outcome
  unfolding handle_login_event
  handle_login_events u connects s [] = (ok tt, s)
  handle_login_events u connects s (ev ∷ evs) =
      let o = handle_login_event u connects s ev in
      continue_with o (handle_login_events u connects o.1 evs)

  abbrev finish_frame : ℕ → Outcome → Result (Option StateName) × LoginState
  finish_frame dt_ms (err e, s) = (err e, s)
  finish_frame dt_ms (ok _, s) =
      let (next, base) = consume_state (update_fade s.base dt_ms) in
      (
        ok next,
        record s {
          id_box = InputBox.update s.id_box dt_ms;
          pw_box = InputBox.update s.pw_box dt_ms;
          base = base;
        },
      )

  unfoldable pub update :
      Unicode → Bool → LoginState → ℕ → List Event → Result (Option StateName) × LoginState
  unfolding handle_login_events
  update u connects s dt_ms evs = finish_frame dt_ms (handle_login_events u connects s evs)
