-- ===== src/Ui/RoomList/Rows.antt =====
-- The rows of client/tetris/ui/room_list.py that have a button.
use project_tetris.Base.{
  ℕ, suc, ℤ, pos, ◌+ℤ◌, Bool, true, false, ◌≡◌, refl, ap, arith, Option, none, some, List, [], ◌∷◌,
  length, All, if-both,
}
use project_tetris.Ui.Event.{Event, Rect}
use project_tetris.Ui.Button.{Button}
use project_tetris.Ui.RoomList.{
  RoomInfo, RoomData, waits, new_room_info, click_join, handle_info_event, or_later, click_rooms,
  move_button, room_info_height, update_info_rects,
}

-- A row with a button is that of a room whose game has not begun.
abbrev pub MayJoin : Option Button → Option RoomData → Type 0
MayJoin none info = Unit
MayJoin (some b) info = waits info ≡ true

abbrev pub IsJoinable : RoomInfo → Type 0
IsJoinable r = MayJoin r.join_button r.info

pub handle_info_event-IsJoinable :
    (r : RoomInfo) (ev : Event) → IsJoinable r → IsJoinable (handle_info_event r ev).0
unfolding handle_info_event
handle_info_event-IsJoinable r ev h =
    if-both (λ (p : RoomInfo × Bool). IsJoinable p.0) r.is_reactable (asked r.join_button h) h
  where
    asked : (b : Option Button) → MayJoin b r.info → IsJoinable (click_join r b ev).0
    asked none h' = h
    asked (some b) h' = h'

pub new_room_info-IsJoinable :
    (at : Rect) (info : Option RoomData) → IsJoinable (new_room_info at info)
new_room_info-IsJoinable at none = tt
new_room_info-IsJoinable at (some d) = ground arith

move_button-IsJoinable : (at : Rect) (r : RoomInfo) → IsJoinable r → IsJoinable (move_button at r)
move_button-IsJoinable at r h = moved r.join_button h
  where
    moved :
        (b : Option Button)
        → MayJoin b r.info
        → MayJoin (elim b [ none ↦ none | some b' ↦ some (record b' { rect = at }) ]) r.info
    moved none h' = tt
    moved (some b) h' = h'

pub click_rooms-Joinable :
    (i : ℕ) (rs : List RoomInfo) (ev : Event)
    → All IsJoinable rs
    → All IsJoinable (click_rooms i rs ev).0
unfolding click_rooms
click_rooms-Joinable i [] ev h = tt
click_rooms-Joinable i (r ∷ rs) ev (p, h) =
    later (handle_info_event r ev) (handle_info_event-IsJoinable r ev p)
      (click_rooms-Joinable (suc i) rs ev h)
  where
    later :
        (q : RoomInfo × Bool)
        → IsJoinable q.0
        → All IsJoinable (click_rooms (suc i) rs ev).0
        → All IsJoinable (or_later q i rs (click_rooms (suc i) rs ev)).0
    later (r', true) k rest = (k, h)
    later (r', false) k rest = (k, rest)

pub length-click_rooms :
    (i : ℕ) (rs : List RoomInfo) (ev : Event) → length (click_rooms i rs ev).0 ≡ length rs
unfolding click_rooms
length-click_rooms i [] ev = refl
length-click_rooms i (r ∷ rs) ev = later (handle_info_event r ev) (length-click_rooms (suc i) rs ev)
  where
    later :
        (q : RoomInfo × Bool)
        → length (click_rooms (suc i) rs ev).0 ≡ length rs
        → length (or_later q i rs (click_rooms (suc i) rs ev)).0 ≡ suc (length rs)
    later (r', true) rest = refl
    later (r', false) rest = ap suc rest

pub update_info_rects-Joinable :
    (join_at : ℤ → Rect) (y : ℤ) (rs : List RoomInfo)
    → All IsJoinable rs
    → All IsJoinable (update_info_rects join_at y rs)
unfolding update_info_rects
update_info_rects-Joinable join_at y [] h = tt
update_info_rects-Joinable join_at y (r ∷ rs) (p, h) = (
  move_button-IsJoinable (join_at y) r p,
  update_info_rects-Joinable join_at (y +ℤ pos room_info_height) rs h,
)

pub length-update_info_rects :
    (join_at : ℤ → Rect) (y : ℤ) (rs : List RoomInfo)
    → length (update_info_rects join_at y rs) ≡ length rs
unfolding update_info_rects
length-update_info_rects join_at y [] = refl
length-update_info_rects join_at y (r ∷ rs) =
    ap suc (length-update_info_rects join_at (y +ℤ pos room_info_height) rs)
