-- ===== src/Ui/UserWindow.antt =====
-- The window of client/tetris/ui/user_list.py on its users, and the events of user_info.py: the rows
-- that are shown and their places. The users themselves are those of UserList; the colours of the rows
-- are only drawn.
pub mod Indices
pub mod Shown
use project_tetris.Base.{
  ℕ, zero, suc, ◌-◌, ◌*◌, ◌%◌, ℤ, pos, ◌+ℤ◌, eq_ℤ, Bool, true, false, Option, none, some, List, [],
  ◌∷◌, ◌++◌, if◌then◌else◌, ◌==◌, length, take, erase_idx, slice, on_slice,
}
use project_tetris.Ui.Toolkit.{Toolkit, Area}
use project_tetris.Python.Utf8.{Text}
use project_tetris.Ui.Event.{Event, Point, mouse_button_down}
use project_tetris.Ui.Scroll
use project_tetris.Ui.Scroll.{
  Scroll, new_scroll, set_scroll_info, set_scroll_len, set_show_start_index, update_shown,
}
use project_tetris.Ui.Scroll.Events
use project_tetris.Ui.UserList
use project_tetris.Ui.UserList.{UserInfo, has_id}

abbrev pub header_height : ℕ
header_height = 25

-- How many users stand before the one with the id.
unfoldable pub index_of : ℤ → List UserInfo → ℕ
index_of id [] = 0
index_of id (v ∷ vs) = let rest = index_of id vs in if eq_ℤ v.id id then 0 else suc rest

-- `UserInfo.handle_event`: the right button of the mouse goes down in the row.
unfoldable pub handle_info_event : Toolkit → Area → UserInfo → Event → Option (ℤ × Point)
handle_info_event kit rect v (mouse_button_down button (x, y)) =
    if button == 3
    then (if kit.collidepoint rect (x, y) then some (v.id, (x, y)) else none)
    else none
handle_info_event kit rect v _ = none

-- The rows of the part that is shown, from `y` downwards.
unfoldable pub row_places : ℤ → List ℤ → List ℤ
row_places y [] = []
row_places y (_ ∷ ys) = y ∷ row_places (y +ℤ pos header_height) ys

module _ (kit : Toolkit) where
  -- The users with the y of each row's rectangle.
  pub record UserWindow : Type 0 where
    pub scroll : Scroll kit
    pub user_infos : List UserInfo
    pub places : List ℤ

  -- `base_user_rect` at a row's y.
  abbrev pub row_area : UserWindow → ℤ → Area
  row_area w y = record w.scroll.window { y = y; h = pos header_height }

  abbrev pub place_of : UserWindow → ℕ → ℤ
  place_of w index = w.scroll.window.y +ℤ pos ((index % w.scroll.show_lines) * header_height)

  unfoldable pub update_show_user_infos : UserWindow → UserWindow
  unfolding update_shown
  update_show_user_infos w = record w { scroll = update_shown kit w.scroll (length w.user_infos) }

  abbrev pub show_user_infos : UserWindow → List UserInfo
  show_user_infos w = slice w.scroll.show_start w.scroll.show_end w.user_infos

  abbrev pub show_places : UserWindow → List ℤ
  show_places w = slice w.scroll.show_start w.scroll.show_end w.places

  unfoldable pub new_user_window : Area → UserWindow
  unfolding new_scroll set_scroll_info set_scroll_len
  new_user_window list_area = record {
    scroll = set_scroll_len kit (set_scroll_info kit (new_scroll kit list_area header_height 0) 0);
    user_infos = [];
    places = [];
  }

  -- A user who is there gets a new nickname and state.
  unfoldable pub add_user : ℤ → Text → Bool → UserWindow → UserWindow
  unfolding UserList.add_user set_scroll_info set_scroll_len update_show_user_infos
  add_user id nickname state w =
      let users = UserList.add_user id nickname state w.user_infos in
      if has_id id w.user_infos
      then record w { user_infos = users }
      else update_show_user_infos (record w {
        user_infos = users;
        places = w.places ++ (place_of w (length w.user_infos) ∷ []);
        scroll = set_scroll_len kit (set_scroll_info kit w.scroll (length users));
      })

  -- `n` places from an index on.
  unfoldable pub places_from : UserWindow → ℕ → ℕ → List ℤ
  places_from w zero index = []
  places_from w (suc n) index = place_of w index ∷ places_from w n (suc index)

  -- The rows after the one that goes come forward.
  unfoldable pub delete_user : ℤ → UserWindow → UserWindow
  unfolding index_of UserList.delete_user places_from set_scroll_info set_scroll_len
      set_show_start_index update_show_user_infos
  delete_user id w =
      let users = UserList.delete_user id w.user_infos in
      let i = index_of id w.user_infos in
      let rest = length (erase_idx w.places i) - i in
      update_show_user_infos (record w {
        user_infos = users;
        places = take i w.places ++ places_from w rest i;
        scroll =
            set_show_start_index kit
              (set_scroll_len kit (set_scroll_info kit w.scroll (length users)));
      })

  unfoldable pub clear : UserWindow → UserWindow
  unfolding Scroll.clear
  clear w = record { user_infos = []; places = []; scroll = Scroll.clear kit w.scroll 0 }

  -- The first row that answers.
  unfoldable pub ask_users : UserWindow → List ℤ → List UserInfo → Event → Option (ℤ × Point)
  unfolding handle_info_event
  ask_users w (y ∷ ys) (v ∷ vs) ev =
      let rest = ask_users w ys vs ev in
      elim (handle_info_event kit (row_area w y) v ev) [ some answer ↦ some answer | none ↦ rest ]
  ask_users w _ _ ev = none

  unfoldable pub handle_event : UserWindow → Event → UserWindow × Option (ℤ × Point)
  unfolding Events.handle_event update_show_user_infos ask_users
  handle_event w ev =
      let w' = update_show_user_infos (record w { scroll = Events.handle_event kit w.scroll ev }) in
      (w', ask_users w' (show_places w') (show_user_infos w') ev)

  -- `draw` puts the rows that are shown below one another.
  unfoldable pub draw : UserWindow → UserWindow
  unfolding update_show_user_infos row_places
  draw w =
      let w' = update_show_user_infos w in
      record w' {
        places =
            on_slice w'.scroll.show_start w'.scroll.show_end (row_places w'.scroll.window.y)
              w'.places;
      }
