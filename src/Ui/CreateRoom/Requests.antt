-- ===== src/Ui/CreateRoom/Requests.antt =====
-- The rooms that the window asks for.
use project_tetris.Base.{not-false, clash}
use project_tetris.Python.Exec.{err≢ok}
use project_tetris.Base.{
  ℕ, ◌≤◌, ◌≡◌, ◌⊎◌, inl, inr, refl, ap, Bool-cases, Bool, true, false, not, Option, none, some,
  List, [], ◌∷◌, leb, arith, if-both, if-cases, length, All, All-append, ℤ, pos, eq_ℤ, eq_of_parts,
}
use project_tetris.Python.Exec.{Result, ok, err, ◌>>=◌}
use project_tetris.Python.Struct.{Bytes}
use project_tetris.Python.Utf8.{Text, encode}
use project_tetris.Python.Chars.{Unicode, text_eq}
use project_tetris.Net.Builder.{build_create_room}
use project_tetris.Ui.Event.{Event, Rect}
use project_tetris.Ui.Texts.{make_text, open_text, closed_text, confirm_text}
use project_tetris.Ui.InputBox
use project_tetris.Ui.InputBox.{InputBox, TextOutcome, get_total_text, extract_text}
use project_tetris.Ui.Button.{
  Button, ToggleButton, PopupBox, new_popup, handle_buttons, handle_popup,
}
use project_tetris.Ui.CreateRoom.{
  CreateRoomWindow, Outcome, player_number, with_player, set_player_value, set_open_value,
  is_min_length, handle_toggles, and_then, refuse, allowed_players, request_room, make, click_make,
  type_password, choose_open, after_player, choose_player, type_title, close_popup, is_return,
  without_popup, handle_room_event,
}

-- At least four bytes of UTF-8.
abbrev pub IsLong : Text → Type 0
IsLong t = (bs : Bytes) × (encode t ≡ ok bs) × (4 ≤ length bs)

abbrev pub IsRoomPacket : Bytes → Type 0
IsRoomPacket pkt =
    (title : Text) × (players : ℤ) × (is_open : Bool) × (password : Text) × (build_create_room title
        players is_open (some password)
      ≡ ok pkt)
    × ((players ≡ pos 2) ⊎ (players ≡ pos 5))
    × IsLong title
    × (is_open ≡ false → IsLong password)

abbrev pub Sent : CreateRoomWindow → Type 0
Sent w = All IsRoomPacket w.requests

abbrev pub AllSent : Outcome → Type 0
AllSent o = Sent o.1

and_then-AllSent {ℓ} :
    {A : Type ℓ} (m : Result A) (w : CreateRoomWindow) (next : A → Outcome)
    → Sent w
    → ((a : A) → m ≡ ok a → AllSent (next a))
    → AllSent (and_then m w next)
and_then-AllSent (ok a) w next h k = k a refl
and_then-AllSent (err e) w next h k = h

allowed : (n : ℤ) → (allowed_players n ≡ pos 2) ⊎ (allowed_players n ≡ pos 5)
allowed n = elim (Bool-cases (eq_ℤ n (pos 2))) [
  | inl two ↦ inl (rw two (eq_of_parts n (pos 2) (ground (arith, two))))
  | inr other ↦ elim (Bool-cases (eq_ℤ n (pos 5))) [
    | inl five ↦ inr (rw (other, five) (eq_of_parts n (pos 5) (ground (arith, five))))
    | inr none_of ↦ inl (rw (other, none_of) refl)
  ]
]

abbrev holds : Result Bool → Bool
holds (ok b) = b
holds (err e) = false

long_enough : (n : ℕ) → leb 4 n ≡ true → 4 ≤ n
long_enough n h = ground arith

long_lem : (t : Text) → is_min_length t ≡ ok true → IsLong t
unfolding is_min_length
long_lem t h = long_bytes (encode t) h
  where
    long_bytes :
        (r : Result Bytes)
        → (r >>= λ bs. ok (leb 4 (length bs))) ≡ ok true
        → (bs : Bytes) × (r ≡ ok bs) × (4 ≤ length bs)
    long_bytes (ok bs) e = (bs, refl, long_enough (length bs) (ap holds e))
    long_bytes (err x) e = absurd (err≢ok x true e)

request_room-AllSent :
    (w : CreateRoomWindow) (t p : Text)
    → get_total_text w.title ≡ ok t
    → get_total_text w.password ≡ ok p
    → IsLong t
    → (w.is_open ≡ false → IsLong p)
    → Sent w
    → AllSent (request_room w)
unfolding request_room extract_text
request_room-AllSent w t p et ep lt lp h =
    rw (et, ep)
      (and_then-AllSent (build_create_room t (allowed_players w.player_val) w.is_open (some p)) _ _
        h
        λ pkt e.
          All-append IsRoomPacket w.requests (pkt ∷ []) h
            ((t, allowed_players w.player_val, w.is_open, p, e, allowed w.player_val, lt, lp), tt))

module _ (rects : ℕ → Rect) where
  refuse-AllSent : (w : CreateRoomWindow) → Sent w → AllSent (refuse rects w)
  refuse-AllSent w h = and_then-AllSent (new_popup rects (confirm_text ∷ [])) w _ h (λ p e. h)

  make-AllSent : (w : CreateRoomWindow) → Sent w → AllSent (make rects w)
  unfolding make
  make-AllSent w h = and_then-AllSent (get_total_text w.title) w _ h λ t et.
      and_then-AllSent (get_total_text w.password) w _ h λ p ep.
        and_then-AllSent (is_min_length t) w _ h λ lt elt.
          if-cases AllSent (not lt) (λ _. refuse-AllSent w h)
            λ long.
              let long_title = long_lem t (rw elt (ap ok (not-false lt long))) in
              if-cases AllSent w.is_open
                (λ o.
                  request_room-AllSent w t p et ep long_title (λ c. absurd (clash w.is_open c o)) h)
                λ _. and_then-AllSent (is_min_length p) w _ h λ lp elp.
                  if-cases AllSent (not lp) (λ _. refuse-AllSent w h)
                    λ long'.
                      request_room-AllSent w t p et ep long_title
                        (λ _. long_lem p (rw elp (ap ok (not-false lp long')))) h

  click_make-AllSent :
      (w : CreateRoomWindow) (o : List Button × Option Text)
      → Sent w
      → AllSent (click_make rects w o)
  unfolding click_make
  click_make-AllSent w (bs, none) h = h
  click_make-AllSent w (bs, some t) h =
      if-both AllSent (text_eq t make_text) (make-AllSent (record w { option_make = bs }) h) h

  module _ (u : Unicode) where
    type_password-AllSent :
        (w : CreateRoomWindow) (ev : Event) → Sent w → AllSent (type_password u rects w ev)
    type_password-AllSent w ev h =
        if-both AllSent w.is_open (click_make-AllSent w (handle_buttons w.option_make ev) h) (
          and_then-AllSent (InputBox.handle_event u w.password ev).0 _ _ h λ a e.
            click_make-AllSent (record w { password = (InputBox.handle_event u w.password ev).1 })
              (handle_buttons w.option_make ev) h)

    set_open_value-Sent : (w : CreateRoomWindow) (t : Text) → Sent w → Sent (set_open_value w t)
    unfolding set_open_value
    set_open_value-Sent w t h =
        if-both Sent (text_eq t open_text) h (if-both Sent (text_eq t closed_text) h h)

    choose_open-AllSent :
        (w : CreateRoomWindow) (ev : Event) (o : List ToggleButton × Option Text)
        → Sent w
        → AllSent (choose_open u rects w ev o)
    choose_open-AllSent w ev (bs, none) h =
        type_password-AllSent (record w { option_open = bs }) ev h
    choose_open-AllSent w ev (bs, some t) h =
        type_password-AllSent (set_open_value (record w { option_open = bs }) t) ev
          (set_open_value-Sent (record w { option_open = bs }) t h)

    after_player-AllSent :
        (ev : Event) (o : Outcome) → AllSent o → AllSent (after_player u rects ev o)
    after_player-AllSent ev (ok a, w) h =
        choose_open-AllSent w ev (handle_toggles w.option_open ev) h
    after_player-AllSent ev (err e, w) h = h

    with_player-AllSent : (w : CreateRoomWindow) (r : Result ℤ) → Sent w → AllSent (with_player w r)
    with_player-AllSent w (ok n) h = h
    with_player-AllSent w (err e) h = h

    choose_player-AllSent :
        (w : CreateRoomWindow) (o : List ToggleButton × Option Text)
        → Sent w
        → AllSent (choose_player w o)
    unfolding set_player_value
    choose_player-AllSent w (bs, none) h = h
    choose_player-AllSent w (bs, some t) h = with_player-AllSent _ (player_number t) h

    type_title-AllSent :
        (w : CreateRoomWindow) (ev : Event) (o : TextOutcome)
        → Sent w
        → AllSent (type_title u rects w ev o)
    type_title-AllSent w ev (err e, title) h = h
    type_title-AllSent w ev (ok a, title) h =
        after_player-AllSent ev _
          (choose_player-AllSent (record w { title = title }) (handle_toggles w.option_player ev) h)

    close_popup-AllSent :
        (w : CreateRoomWindow) (o : PopupBox × Option Text) → Sent w → AllSent (close_popup w o)
    close_popup-AllSent w (p, none) h = h
    close_popup-AllSent w (p, some t) h = h

    without_popup-AllSent :
        (w : CreateRoomWindow) (ev : Event) (p : Option PopupBox)
        → Sent w
        → AllSent (without_popup u rects w ev p)
    without_popup-AllSent w ev (some p) h = close_popup-AllSent w (handle_popup p ev) h
    without_popup-AllSent w ev none h =
        if-both AllSent (is_return ev) h
          (type_title-AllSent w ev (InputBox.handle_event u w.title ev) h)

    -- Whatever is typed and clicked in the window, and also where an exception ends an event: every
    -- packet that it sends is that of a room for 2 or 5 players, with a title of at least four bytes
    -- of UTF-8, and with such a password unless the room is open. Bytes are counted, not characters:
    -- two letters of Korean are enough.
    pub handle_room_event-AllSent :
        (w : CreateRoomWindow) (ev : Event) → Sent w → AllSent (handle_room_event u rects w ev)
    unfolding handle_room_event
    handle_room_event-AllSent w ev h = without_popup-AllSent w ev w.error_popup h
