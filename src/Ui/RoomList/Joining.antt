-- ===== src/Ui/RoomList/Joining.antt =====
-- A click on the list of rooms, as the lobby takes it: client/tetris/states/lobby_state.py looks the
-- answer up in the rows that are shown.
use project_tetris.Base.{
  ℕ, suc, ◌+◌, ℤ, pos, Bool, true, false, ◌≡◌, refl, ap, sym, ◌∙◌, arith, Option, none, some, List,
  [], ◌∷◌, length-take_le, length-drop, slice-on_slice, get_elem?, if◌then◌else◌, All, All-take,
  All-drop,
}
use mathlib.Core.Path.{subst}
use project_tetris.Python.Exec.{Result, ok, err, attribute_error}
use project_tetris.Python.Index.{get_item, get_item-some}
use project_tetris.Ui.Toolkit.{Toolkit, Area}
use project_tetris.Ui.Event.{Event, Rect}
use project_tetris.Ui.Button.{Button}
use project_tetris.Ui.RoomList.{
  RoomInfo, RoomData, RoomEvent, RoomList, nothing, refreshed, clicked, waits, handle_info_event,
  or_later, click_join, click_rooms, show_rooms, new_room_list, handle_event, ask_rooms,
  ask_refresh,
}
use project_tetris.Ui.RoomList.Rows.{MayJoin, IsJoinable, length-click_rooms}
use project_tetris.Ui.RoomList.Rooms.{
  IsListed, RoomCall, performed, all_calls-IsListed, scrolled-IsListed, with_refresh-IsListed,
}
use project_tetris.States.Lobby.{RoomAnswer, no_room, refresh, room}

-- `room.data.room_key` and `room.data.is_private`
abbrev pub of_info : Option RoomData → Result RoomAnswer
of_info none = err attribute_error
of_info (some d) = ok (room d.room_key d.is_private)

abbrev pub of_row : Result RoomInfo → Result RoomAnswer
of_row (ok r) = of_info r.info
of_row (err e) = err e

-- `self.room_list.show_rooms[index]`
abbrev pub looked_up : List RoomInfo → RoomEvent → Result RoomAnswer
looked_up rows nothing = ok no_room
looked_up rows refreshed = ok refresh
looked_up rows (clicked i) = of_row (get_item rows (pos i))

-- What the lobby reads from the list after an event.
unfoldable pub room_event :
    (kit : Toolkit) (join_at : ℤ → Rect) → RoomList kit join_at → Event → Result RoomAnswer
unfolding handle_event
room_event kit join_at l ev =
    let (l', answer) = handle_event kit join_at l ev in looked_up (show_rooms kit join_at l') answer

-- The room with the key is in the list, is private or not, and waits.
pub record IsOffered (rooms : List RoomInfo) (key : ℤ) (is_private : Bool) : Type 0 where
  pub index : ℕ
  pub row : RoomInfo
  pub play : Bool
  pub here : get_elem? rooms index ≡ some row
  pub is_it : row.info ≡ some (record { room_key = key; is_private = is_private; is_play = play })
  pub not_begun : play ≡ false

-- What the lobby may read: nothing is raised, and a room is one that can be joined.
abbrev pub Offers : List RoomInfo → Result RoomAnswer → Type 0
Offers rooms (err e) = ⊥
Offers rooms (ok no_room) = Unit
Offers rooms (ok refresh) = Unit
Offers rooms (ok (room key is_private)) = IsOffered rooms key is_private

-- A row that answers has a button, so that its room waits.
handle_info_event-waits :
    (r : RoomInfo) (ev : Event)
    → IsJoinable r
    → (handle_info_event r ev).1 ≡ true
    → waits (handle_info_event r ev).0.info ≡ true
unfolding handle_info_event
handle_info_event-waits r ev h = answered r.is_reactable r.join_button h
  where
    answered :
        (b : Bool) (btn : Option Button)
        → MayJoin btn r.info
        → (if b then click_join r btn ev else (r, false)).1 ≡ true
        → waits (if b then click_join r btn ev else (r, false)).0.info ≡ true
    answered false btn h' e = cc
    answered true none h' e = cc
    answered true (some b) h' e = h'

-- The row at the answer of the loop, counted from `i`.
abbrev Answers : ℕ → List RoomInfo × RoomEvent → Type 0
Answers i (rs, nothing) = Unit
Answers i (rs, refreshed) = Unit
Answers i (rs, clicked j) =
    (k : ℕ) × (j ≡ i + k) × ((r : RoomInfo) × (get_elem? rs k ≡ some r) × (waits r.info ≡ true))

answers_here :
    (i : ℕ) (q : RoomInfo × Bool) (rs : List RoomInfo) (rest : List RoomInfo × RoomEvent)
    → (q.1 ≡ true → waits q.0.info ≡ true)
    → Answers (suc i) rest
    → Answers i (or_later q i rs rest)
answers_here i (r, true) rs rest h k = (0, omega arith, (r, refl, h refl))
answers_here i (r, false) rs (rs', nothing) h k = tt
answers_here i (r, false) rs (rs', refreshed) h k = tt
answers_here i (r, false) rs (rs', clicked j) h (k, e, (r', here, w)) =
    (suc k, omega (arith, e), (r', here, w))

click_rooms-Answers :
    (i : ℕ) (rs : List RoomInfo) (ev : Event) → All IsJoinable rs → Answers i (click_rooms i rs ev)
unfolding click_rooms
click_rooms-Answers i [] ev h = tt
click_rooms-Answers i (r ∷ rs) ev (p, h) =
    answers_here i (handle_info_event r ev) rs (click_rooms (suc i) rs ev)
      (handle_info_event-waits r ev p) (click_rooms-Answers (suc i) rs ev h)

offered :
    (rows : List RoomInfo) (i : ℕ) (r : RoomInfo) (info : Option RoomData)
    → get_elem? rows i ≡ some r
    → r.info ≡ info
    → waits info ≡ true
    → Offers rows (of_info info)
offered rows i r none here e w = cc
offered rows i r (some d) here e w = record {
  index = i;
  row = r;
  play = d.is_play;
  here = here;
  is_it = e;
  not_begun = ground (arith, w);
}

looked_up-Offers : (q : List RoomInfo × RoomEvent) → Answers 0 q → Offers q.0 (looked_up q.0 q.1)
looked_up-Offers (rows, nothing) h = tt
looked_up-Offers (rows, refreshed) h = tt
looked_up-Offers (rows, clicked j) (k, e, (r, here, w)) =
    let at : get_elem? rows j ≡ some r = ap (get_elem? rows) (omega (arith, e)) ∙ here in
    subst (λ o. Offers rows (of_row o)) (sym (get_item-some rows j at))
      (offered rows j r r.info at refl w)

module _ {kit : Toolkit} {join_at : ℤ → Rect} where
  -- The rows after the loop are what the loop made of the rows before it.
  show_rooms-ask_rooms :
      (l : RoomList kit join_at) (ev : Event)
      → IsListed l
      → show_rooms kit join_at (ask_rooms kit join_at l ev).0
        ≡ (click_rooms 0 (show_rooms kit join_at l) ev).0
  unfolding ask_rooms
  show_rooms-ask_rooms l ev h =
      slice-on_slice l.scroll.show_start l.scroll.show_end (λ rs. (click_rooms 0 rs ev).0) l.rooms
        (length-take_le _ _ (omega (arith, h.full.within, h.full.rows)))
        (length-click_rooms 0 _ ev
          ∙ length-take_le _ _
              (omega (arith, length-drop l.scroll.show_start l.rooms, h.full.within)))

  ask_rooms-Offers :
      (l : RoomList kit join_at) (ev : Event)
      → IsListed l
      → let (l', answer) = ask_rooms kit join_at l ev in
        Offers (show_rooms kit join_at l') (looked_up (show_rooms kit join_at l') answer)
  unfolding ask_rooms
  ask_rooms-Offers l ev h =
      let rows = show_rooms kit join_at l in
      subst (λ rs. Offers rs (looked_up rs (click_rooms 0 rows ev).1))
        (sym (show_rooms-ask_rooms l ev h))
        (looked_up-Offers (click_rooms 0 rows ev) (
          click_rooms-Answers 0 rows ev
            (All-take IsJoinable _ _ (All-drop IsJoinable l.scroll.show_start l.rooms h.joinable))))

  ask_refresh-Offers :
      (l : RoomList kit join_at) (q : Button × Bool) (ev : Event)
      → IsListed l
      → let (l', answer) = ask_refresh kit join_at l q ev in
        Offers (show_rooms kit join_at l') (looked_up (show_rooms kit join_at l') answer)
  ask_refresh-Offers l (btn, true) ev h = tt
  ask_refresh-Offers l (btn, false) ev h =
      ask_rooms-Offers (record l { btn_refresh = btn }) ev (with_refresh-IsListed l btn h)

  room_event-Offers :
      (l : RoomList kit join_at) (ev : Event)
      → IsListed l
      → Offers
          (show_rooms kit join_at (handle_event kit join_at l ev).0)
          (room_event kit join_at l ev)
  unfolding room_event handle_event
  room_event-Offers l ev h = ask_refresh-Offers _ _ ev (scrolled-IsListed l ev h)

-- Whatever calls and events a list of rooms has had since it was made, what the lobby reads from it
-- after an event raises nothing, and a room that it reads is in the rows that are shown, with the key
-- and the privacy that it reads, and its game has not begun.
pub all_calls-Offers :
    (kit : Toolkit) (join_at : ℤ → Rect) (list_area : Area) (btn : Button) (cs : List RoomCall)
    (ev : Event)
    → let l = performed kit join_at (new_room_list kit join_at list_area btn) cs in
      Offers
        (show_rooms kit join_at (handle_event kit join_at l ev).0)
        (room_event kit join_at l ev)
all_calls-Offers kit join_at list_area btn cs ev =
    room_event-Offers _ ev (all_calls-IsListed list_area btn cs)
