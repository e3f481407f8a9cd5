-- ===== src/Ui/FastMatching/Requests.antt =====
-- The games that the window asks for.
use project_tetris.Base.{
  ◌≡◌, ◌⊎◌, inl, inr, refl, Option, none, some, List, [], ◌∷◌, if-both, All, All-append, ℤ, pos,
}
use project_tetris.Python.Exec.{Result, ok, err}
use project_tetris.Python.Struct.{Bytes, pack}
use project_tetris.Python.Utf8.{Text}
use project_tetris.Python.Chars.{text_eq}
use project_tetris.Net.Builder.{build_fast_matching, build_packet, pack_struct}
use project_tetris.Ui.Event.{Event}
use project_tetris.Ui.Texts.{two_players_text, five_players_text, all_text, find_text}
use project_tetris.Ui.Button.{ToggleButton, PopupBox, handle_popup}
use project_tetris.Ui.CreateRoom.{handle_toggles}
use project_tetris.Ui.FastMatching.{
  FastMatchingWindow, Outcome, set_option_val, max_user_of, send, send_number, send_fast_matching,
  answer_popup, choose, handle_matching_event,
}

-- A size of a game: two, five, or any.
abbrev pub IsSize : ℤ → Type 0
IsSize n = (n ≡ pos 2) ⊎ ((n ≡ pos 5) ⊎ (n ≡ pos 0))

abbrev pub IsMatchingPacket : Bytes → Type 0
IsMatchingPacket pkt = (n : ℤ) × IsSize n × (build_fast_matching n ≡ ok pkt)

abbrev pub Sent : FastMatchingWindow → Type 0
Sent w = All IsMatchingPacket w.requests

-- No exception, and only such packets.
abbrev pub Fine : Outcome → Type 0
Fine (ok res, w) = Sent w
Fine (err e, w) = ⊥

abbrev Built : Result Bytes → Type 0
Built (ok pkt) = Unit
Built (err e) = ⊥

sizes-Built :
    Built (build_fast_matching (pos 2))
    × Built (build_fast_matching (pos 5))
    × Built (build_fast_matching (pos 0))
unfolding build_fast_matching build_packet pack_struct pack
sizes-Built = (tt, tt, tt)

size-Built : (n : ℤ) → IsSize n → Built (build_fast_matching n)
size-Built n (inl two) = rw two sizes-Built.0
size-Built n (inr (inl five)) = rw five sizes-Built.1
size-Built n (inr (inr any)) = rw any sizes-Built.2

send-Fine :
    (w : FastMatchingWindow) (res : Option Text) (n : ℤ) (r : Result Bytes)
    → IsSize n
    → build_fast_matching n ≡ r
    → Built r
    → Sent w
    → Fine (send w res r)
send-Fine w res n (ok pkt) size e b h =
    All-append IsMatchingPacket w.requests (pkt ∷ []) h ((n, size, e), tt)
send-Fine w res n (err x) size e b h = b

send_size-Fine :
    (w : FastMatchingWindow) (res : Option Text) (n : ℤ)
    → IsSize n
    → Sent w
    → Fine (send_number w res (some n))
send_size-Fine w res n size h =
    send-Fine w res n (build_fast_matching n) size refl (size-Built n size) h

send_fast_matching-Fine :
    (w : FastMatchingWindow) (res val : Option Text) → Sent w → Fine (send_fast_matching w res val)
unfolding send_fast_matching max_user_of
send_fast_matching-Fine w res none h = h
send_fast_matching-Fine w res (some val) h =
    if-both (λ n. Fine (send_number w res n)) (text_eq val two_players_text)
      (send_size-Fine w res (pos 2) (inl refl) h)
      (if-both (λ n. Fine (send_number w res n)) (text_eq val five_players_text)
        (send_size-Fine w res (pos 5) (inr (inl refl)) h)
        (if-both (λ n. Fine (send_number w res n)) (text_eq val all_text)
          (send_size-Fine w res (pos 0) (inr (inr refl)) h) h))

answer_popup-Fine :
    (w : FastMatchingWindow) (o : PopupBox × Option Text) → Sent w → Fine (answer_popup w o)
answer_popup-Fine w (p, none) h = h
answer_popup-Fine w (p, some res) h =
    if-both Fine (text_eq res find_text)
      (send_fast_matching-Fine (record w { popup = p }) (some res) w.option_val h) h

choose-Sent :
    (w : FastMatchingWindow) (o : List ToggleButton × Option Text) → Sent w → Sent (choose w o)
unfolding set_option_val
choose-Sent w (bs, none) h = h
choose-Sent w (bs, some val) h = h

-- Whatever is clicked in the window, it raises nothing, and every packet that it sends asks for a game
-- of two, of five, or of any number of players.
pub handle_matching_event-Fine :
    (w : FastMatchingWindow) (ev : Event) → Sent w → Fine (handle_matching_event w ev)
unfolding handle_matching_event
handle_matching_event-Fine w ev h =
    let w' = choose w (handle_toggles w.options ev) in
    answer_popup-Fine w' (handle_popup w'.popup ev) (choose-Sent w (handle_toggles w.options ev) h)
