-- ===== src/Ui/RoomList/Rooms.antt =====
-- The room list of client/tetris/ui/room_list.py under its calls, one after the other.
use project_tetris.Base.{
  ℤ, Bool, true, false, ltb, ◌≡◌, sym, arith, some, List, [], ◌∷◌, ◌++◌, if◌then◌else◌, length,
  length-append, on_slice, length-on_slice, All, All-append, All-on_slice,
}
use mathlib.Core.Path.{subst}
use project_tetris.Ui.Toolkit.{Toolkit, Area}
use project_tetris.Ui.Event.{Event, Rect}
use project_tetris.Ui.Button.{Button}
use project_tetris.Ui.Scroll.{Scroll, set_scroll_info, set_scroll_len, update_shown, new_scroll}
use project_tetris.Ui.Scroll.Events
use project_tetris.Ui.Scroll.Full.{
  IsFitted, IsFull, set_scroll_info-IsFitted, set_scroll_len-IsFitted, clear-IsFitted, clear-IsFull,
  new_scroll-IsFitted, handle_event-IsFitted, update_shown-IsFitted, update_shown-IsFull,
  length-slice,
}
use project_tetris.Ui.RoomList.Rows.{
  IsJoinable, new_room_info-IsJoinable, click_rooms-Joinable, length-click_rooms,
  update_info_rects-Joinable, length-update_info_rects,
}
use project_tetris.Ui.RoomList.{
  RoomInfo, RoomData, RoomList, new_room_info, click_rooms, show_rooms, first_place, ask_rooms,
  ask_refresh, room_info_height, update_info_rects, update_show_rooms, new_room_list, clear,
  add_room, handle_event,
}

module _ {kit : Toolkit} {join_at : ℤ → Rect} where
  pub record IsListed (l : RoomList kit join_at) : Type 0 where
    pub fitted : IsFitted (length l.rooms) l.scroll
    pub full : IsFull (length l.rooms) l.scroll
    pub joinable : All IsJoinable l.rooms

  -- A change of the rows that are shown, which keeps their number, keeps what holds of the list.
  on_slice-IsListed :
      (s : Scroll kit) (f : List RoomInfo → List RoomInfo) (rooms : List RoomInfo) (btn : Button)
      → ((rs : List RoomInfo) → All IsJoinable rs → All IsJoinable (f rs))
      → ((rs : List RoomInfo) → length (f rs) ≡ length rs)
      → IsFitted (length rooms) s
      → IsFull (length rooms) s
      → All IsJoinable rooms
      → IsListed (record {
        scroll = s;
        rooms = on_slice s.show_start s.show_end f rooms;
        btn_refresh = btn;
      })
  on_slice-IsListed s f rooms btn k e h full j =
      let same = length-on_slice s.show_start s.show_end f rooms (e _) in
      record {
        fitted = subst (λ n. IsFitted n s) (sym same) h;
        full = subst (λ n. IsFull n s) (sym same) full;
        joinable = All-on_slice IsJoinable s.show_start s.show_end f rooms k j;
      }

  update_show_rooms-IsListed :
      (l : RoomList kit join_at)
      → IsFitted (length l.rooms) l.scroll
      → All IsJoinable l.rooms
      → IsListed (update_show_rooms kit join_at l)
  unfolding update_show_rooms
  update_show_rooms-IsListed l h j =
      let s = update_shown kit l.scroll (length l.rooms) in
      on_slice-IsListed s (update_info_rects join_at s.window.y) l.rooms l.btn_refresh
        (update_info_rects-Joinable join_at s.window.y)
        (length-update_info_rects join_at s.window.y)
        (update_shown-IsFitted l.scroll (length l.rooms) h)
        (update_shown-IsFull l.scroll (length l.rooms) h) j

  new_room_list-IsListed :
      (list_area : Area) (btn : Button) → IsListed (new_room_list kit join_at list_area btn)
  unfolding new_room_list
  new_room_list-IsListed list_area btn =
      let s = new_scroll kit list_area room_info_height 0 in
      let h = new_scroll-IsFitted {kit = kit} list_area room_info_height 0 in
      let s' = set_scroll_info kit s 0 in
      let h' = set_scroll_info-IsFitted s 0 h.some_line (omega (arith, h.lines, h.start)) in
      update_show_rooms-IsListed
        (record { scroll = set_scroll_len kit s'; rooms = []; btn_refresh = btn })
        (set_scroll_len-IsFitted s' 0 h') tt

  clear-IsListed : (l : RoomList kit join_at) → IsListed l → IsListed (clear kit join_at l)
  unfolding clear
  clear-IsListed l h = record {
    fitted = clear-IsFitted l.scroll 0 h.fitted.some_line;
    full = clear-IsFull l.scroll h.fitted.some_line;
    joinable = tt;
  }

  add_room-IsListed :
      (l : RoomList kit join_at) (info : RoomData)
      → IsListed l
      → IsListed (add_room kit join_at l info)
  unfolding add_room
  add_room-IsListed l info h =
      let r = new_room_info (join_at (first_place kit join_at l)) (some info) in
      let n = length (l.rooms ++ (r ∷ [])) in
      let s = set_scroll_info kit l.scroll n in
      update_show_rooms-IsListed
        (record l { scroll = set_scroll_len kit s; rooms = l.rooms ++ (r ∷ []) })
        (set_scroll_len-IsFitted s n (
          set_scroll_info-IsFitted l.scroll n h.fitted.some_line
            (omega (arith, h.fitted.lines, h.fitted.start, length-append l.rooms (r ∷ [])))))
        (All-append IsJoinable l.rooms _ h.joinable (new_room_info-IsJoinable _ (some info), tt))

  ask_rooms-IsListed :
      (l : RoomList kit join_at) (ev : Event) → IsListed l → IsListed (ask_rooms kit join_at l ev).0
  unfolding ask_rooms
  ask_rooms-IsListed l ev h =
      on_slice-IsListed l.scroll (λ rs. (click_rooms 0 rs ev).0) l.rooms l.btn_refresh
        (λ rs j. click_rooms-Joinable 0 rs ev j) (λ rs. length-click_rooms 0 rs ev) h.fitted h.full
        h.joinable

  pub scrolled-IsListed :
      (l : RoomList kit join_at) (ev : Event)
      → IsListed l
      → IsListed (
          update_show_rooms kit join_at (record l { scroll = Events.handle_event kit l.scroll ev }))
  scrolled-IsListed l ev h =
      update_show_rooms-IsListed (record l { scroll = Events.handle_event kit l.scroll ev })
        (handle_event-IsFitted l.scroll (length l.rooms) ev h.fitted) h.joinable

  pub with_refresh-IsListed :
      (l : RoomList kit join_at) (btn : Button)
      → IsListed l
      → IsListed (record l { btn_refresh = btn })
  with_refresh-IsListed l btn h = record { fitted = h.fitted; full = h.full; joinable = h.joinable }

  ask_refresh-IsListed :
      (l : RoomList kit join_at) (q : Button × Bool) (ev : Event)
      → IsListed l
      → IsListed (ask_refresh kit join_at l q ev).0
  ask_refresh-IsListed l (btn, true) ev h = with_refresh-IsListed l btn h
  ask_refresh-IsListed l (btn, false) ev h =
      ask_rooms-IsListed (record l { btn_refresh = btn }) ev (with_refresh-IsListed l btn h)

  handle_event-IsListed :
      (l : RoomList kit join_at) (ev : Event)
      → IsListed l
      → IsListed (handle_event kit join_at l ev).0
  unfolding handle_event
  handle_event-IsListed l ev h = ask_refresh-IsListed _ _ ev (scrolled-IsListed l ev h)

-- A call of the list.
pub data RoomCall : Type 0 where
  room_info : RoomData → RoomCall
  clear_rooms : RoomCall
  event : Event → RoomCall

module _ (kit : Toolkit) (join_at : ℤ → Rect) where
  unfoldable pub perform : RoomList kit join_at → RoomCall → RoomList kit join_at
  unfolding clear add_room handle_event
  perform l (room_info info) = add_room kit join_at l info
  perform l clear_rooms = clear kit join_at l
  perform l (event ev) = (handle_event kit join_at l ev).0

  unfoldable pub performed : RoomList kit join_at → List RoomCall → RoomList kit join_at
  unfolding perform
  performed l [] = l
  performed l (c ∷ cs) = performed (perform l c) cs

module _ {kit : Toolkit} {join_at : ℤ → Rect} where
  perform-IsListed :
      (l : RoomList kit join_at) (c : RoomCall) → IsListed l → IsListed (perform kit join_at l c)
  unfolding perform
  perform-IsListed l (room_info info) h = add_room-IsListed l info h
  perform-IsListed l clear_rooms h = clear-IsListed l h
  perform-IsListed l (event ev) h = handle_event-IsListed l ev h

  performed-IsListed :
      (l : RoomList kit join_at) (cs : List RoomCall)
      → IsListed l
      → IsListed (performed kit join_at l cs)
  unfolding performed
  performed-IsListed l [] h = h
  performed-IsListed l (c ∷ cs) h =
      performed-IsListed (perform kit join_at l c) cs (perform-IsListed l c h)

  pub all_calls-IsListed :
      (list_area : Area) (btn : Button) (cs : List RoomCall)
      → IsListed (performed kit join_at (new_room_list kit join_at list_area btn) cs)
  all_calls-IsListed list_area btn cs =
      performed-IsListed _ cs (new_room_list-IsListed list_area btn)

-- Whatever calls and events a list of rooms has had since it was made, and whatever the arithmetic of
-- the scroll bar gives, the rows that are shown are as many as the window has lines, or all the rooms
-- where there are fewer.
pub shown_rooms_fill_window :
    (kit : Toolkit) (join_at : ℤ → Rect) (list_area : Area) (btn : Button) (cs : List RoomCall)
    → let l = performed kit join_at (new_room_list kit join_at list_area btn) cs in
      length (show_rooms kit join_at l)
      ≡ (if ltb (length l.rooms) l.scroll.show_lines then length l.rooms else l.scroll.show_lines)
shown_rooms_fill_window kit join_at list_area btn cs =
    length-slice _ _ (all_calls-IsListed list_area btn cs).full
