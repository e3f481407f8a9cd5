-- ===== src/Ui/RoomList.antt =====
-- client/tetris/ui/room_info.py and room_list.py: the rooms of the lobby, the rows that are shown, and
-- the buttons by which a room is joined. Of a row's layout only the place of its button is kept: it is
-- a function of the row's y. The colours and texts of a row are only drawn.
pub mod Rows
pub mod Rooms
pub mod Joining
use project_tetris.Base.{
  ℕ, suc, ◌*◌, ◌%◌, ℤ, pos, ◌+ℤ◌, Bool, true, false, not, Option, none, some, List, [], ◌∷◌, ◌++◌,
  if◌then◌else◌, length, slice, on_slice, get_elem?,
}
use project_tetris.Ui.Toolkit.{Toolkit, Area}
use project_tetris.Python.Utf8.{Text}
use project_tetris.Ui.Event.{Event, Rect}
use project_tetris.Ui.Button
use project_tetris.Ui.Button.{Button, new_button}
use project_tetris.Ui.Scroll
use project_tetris.Ui.Scroll.{Scroll, new_scroll, set_scroll_info, set_scroll_len, update_shown}
use project_tetris.Ui.Scroll.Events
use project_tetris.Ui.Texts.{join_text}

-- The fields of `S2C_ROOM_INFO_PACKET` that are used here.
pub record RoomData : Type 0 where
  pub room_key : ℤ
  pub is_private : Bool
  pub is_play : Bool

pub record RoomInfo : Type 0 where
  pub info : Option RoomData
  pub is_reactable : Bool
  pub join_button : Option Button

abbrev pub room_info_height : ℕ
room_info_height = 40

-- A game that has begun takes nobody in.
abbrev pub waits : Option RoomData → Bool
waits none = false
waits (some d) = not d.is_play

-- The layout, with the place of the button.
abbrev pub new_room_info : Rect → Option RoomData → RoomInfo
new_room_info at info = record {
  info = info;
  is_reactable = waits info;
  join_button = if waits info then some (new_button at join_text) else none;
}

abbrev pub click_join : RoomInfo → Option Button → Event → RoomInfo × Bool
unfolding Button.handle_event
click_join r none ev = (r, false)
click_join r (some b) ev =
    (record r { join_button = some (Button.handle_event b ev).0 }, (Button.handle_event b ev).1)

-- None, where the room does not react, is read as false.
unfoldable pub handle_info_event : RoomInfo → Event → RoomInfo × Bool
unfolding click_join
handle_info_event r ev = if r.is_reactable then click_join r r.join_button ev else (r, false)

-- What the list answers to an event.
pub data RoomEvent : Type 0 where
  nothing refreshed : RoomEvent
  clicked : ℕ → RoomEvent

abbrev pub or_later :
    RoomInfo × Bool → ℕ → List RoomInfo → List RoomInfo × RoomEvent → List RoomInfo × RoomEvent
or_later (r, true) i rs rest = (r ∷ rs, clicked i)
or_later (r, false) i rs (rs', answer) = (r ∷ rs', answer)

-- The loop over the rows, from index `i` on; the first that answers ends it.
unfoldable pub click_rooms : ℕ → List RoomInfo → Event → List RoomInfo × RoomEvent
unfolding handle_info_event
click_rooms i [] ev = ([], nothing)
click_rooms i (r ∷ rs) ev = or_later (handle_info_event r ev) i rs (click_rooms (suc i) rs ev)

abbrev pub move_button : Rect → RoomInfo → RoomInfo
move_button at r = record r {
  join_button = elim r.join_button [ none ↦ none | some b ↦ some (record b { rect = at }) ];
}

-- The rows from `y` downwards.
unfoldable pub update_info_rects : (ℤ → Rect) → ℤ → List RoomInfo → List RoomInfo
update_info_rects join_at y [] = []
update_info_rects join_at y (r ∷ rs) =
    move_button (join_at y) r ∷ update_info_rects join_at (y +ℤ pos room_info_height) rs

module _ (kit : Toolkit) (join_at : ℤ → Rect) where
  pub record RoomList : Type 0 where
    pub scroll : Scroll kit
    pub rooms : List RoomInfo
    pub btn_refresh : Button

  -- Every operation that changes the rows ends by taking this slice.
  abbrev pub show_rooms : RoomList → List RoomInfo
  show_rooms l = slice l.scroll.show_start l.scroll.show_end l.rooms

  unfoldable pub update_show_rooms : RoomList → RoomList
  unfolding update_shown update_info_rects
  update_show_rooms l =
      let s = update_shown kit l.scroll (length l.rooms) in
      record l {
        scroll = s;
        rooms = on_slice s.show_start s.show_end (update_info_rects join_at s.window.y) l.rooms;
      }

  unfoldable pub new_room_list : Area → Button → RoomList
  unfolding new_scroll set_scroll_info set_scroll_len update_show_rooms
  new_room_list list_area btn = update_show_rooms (record {
    scroll =
        set_scroll_len kit (set_scroll_info kit (new_scroll kit list_area room_info_height 0) 0);
    rooms = [];
    btn_refresh = btn;
  })

  unfoldable pub clear : RoomList → RoomList
  unfolding Scroll.clear
  clear l = record l { rooms = []; scroll = Scroll.clear kit l.scroll 0 }

  abbrev pub first_place : RoomList → ℤ
  first_place l =
      l.scroll.window.y +ℤ pos ((length l.rooms % l.scroll.show_lines) * room_info_height)

  unfoldable pub add_room : RoomList → RoomData → RoomList
  unfolding set_scroll_info set_scroll_len update_show_rooms
  add_room l info =
      let rooms = l.rooms ++ (new_room_info (join_at (first_place l)) (some info) ∷ []) in
      update_show_rooms (record l {
        rooms = rooms;
        scroll = set_scroll_len kit (set_scroll_info kit l.scroll (length rooms));
      })

  unfoldable pub ask_rooms : RoomList → Event → RoomList × RoomEvent
  unfolding click_rooms
  ask_rooms l ev = (
    record l {
      rooms =
          on_slice l.scroll.show_start l.scroll.show_end (λ rs. (click_rooms 0 rs ev).0) l.rooms;
    },
    (click_rooms 0 (show_rooms l) ev).1,
  )

  -- The button to refresh the list comes before the rows.
  abbrev pub ask_refresh : RoomList → Button × Bool → Event → RoomList × RoomEvent
  ask_refresh l (btn, true) ev = (record l { btn_refresh = btn }, refreshed)
  ask_refresh l (btn, false) ev = ask_rooms (record l { btn_refresh = btn }) ev

  unfoldable pub handle_event : RoomList → Event → RoomList × RoomEvent
  unfolding Events.handle_event update_show_rooms Button.handle_event
  handle_event l ev =
      let l' = update_show_rooms (record l { scroll = Events.handle_event kit l.scroll ev }) in
      ask_refresh l' (Button.handle_event l'.btn_refresh ev) ev
