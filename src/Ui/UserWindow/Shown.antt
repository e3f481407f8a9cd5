-- ===== src/Ui/UserWindow/Shown.antt =====
-- The rows of client/tetris/ui/user_list.py under the calls of the window, one after the other.
use project_tetris.Base.{
  ℕ, zero, suc, ◌-◌, ◌≤◌, ℤ, pos, ◌+ℤ◌, ltb, ◌≡◌, refl, ap, ◌∙◌, arith, Bool, List, [], ◌∷◌, ◌++◌,
  if◌then◌else◌, if-cases, length, length-append, length-take_le, take, erase_idx, length-on_slice,
  slice,
}
use mathlib.Core.Path.{subst, sym}
use project_tetris.Ui.Toolkit.{Toolkit, Area}
use project_tetris.Python.Utf8.{Text}
use project_tetris.Ui.Event.{Event}
use project_tetris.Ui.Scroll.{new_scroll, set_scroll_info, set_scroll_len, set_show_start_index}
use project_tetris.Ui.Scroll.Events
use project_tetris.Ui.Scroll.Full.{
  IsFitted, IsFull, set_scroll_info-IsFitted, set_scroll_len-IsFitted,
  set_show_start_index-IsFitted, clear-IsFitted, clear-IsFull, new_scroll-IsFitted,
  handle_event-IsFitted, update_shown-IsFitted, update_shown-IsFull, length-slice,
}
use project_tetris.Ui.UserList
use project_tetris.Ui.UserList.{UserInfo, has_id, set_first, with_nickname}
use project_tetris.Ui.UserWindow.{
  UserWindow, header_height, index_of, place_of, places_from, row_places, show_user_infos,
  update_show_user_infos, new_user_window, add_user, delete_user, clear, handle_event, draw,
}
use project_tetris.Ui.UserWindow.Indices.{
  length-add_user_old, length-add_user_new, delete_user-erase_idx, length-erased, index-le-erase,
  index-le-length,
}

length-row_places : (y : ℤ) (ys : List ℤ) → length (row_places y ys) ≡ length ys
unfolding row_places
length-row_places y [] = refl
length-row_places y (z ∷ ys) = ap suc (length-row_places (y +ℤ pos header_height) ys)

module _ {kit : Toolkit} where
  length-places_from : (w : UserWindow kit) (n index : ℕ) → length (places_from kit w n index) ≡ n
  unfolding places_from
  length-places_from w zero index = refl
  length-places_from w (suc n) index = ap suc (length-places_from w n (suc index))

  pub record IsListed (w : UserWindow kit) : Type 0 where
    pub fitted : IsFitted (length w.user_infos) w.scroll
    pub full : IsFull (length w.user_infos) w.scroll
    pub placed : length w.places ≡ length w.user_infos

  update_show_user_infos-IsListed :
      (w : UserWindow kit)
      → IsFitted (length w.user_infos) w.scroll
      → length w.places ≡ length w.user_infos
      → IsListed (update_show_user_infos kit w)
  unfolding update_show_user_infos
  update_show_user_infos-IsListed w h p = record {
    fitted = update_shown-IsFitted w.scroll (length w.user_infos) h;
    full = update_shown-IsFull w.scroll (length w.user_infos) h;
    placed = p;
  }

  -- The list is empty, and one shows nothing of it.
  new_user_window-IsListed : (list_area : Area) → IsListed (new_user_window kit list_area)
  unfolding new_user_window new_scroll set_scroll_info set_scroll_len
  new_user_window-IsListed list_area =
      let s = new_scroll kit list_area header_height 0 in
      let h = new_scroll-IsFitted {kit = kit} list_area header_height 0 in
      let k = set_scroll_info-IsFitted s 0 h.some_line (omega (arith, h.lines, h.start)) in
      record {
        fitted = set_scroll_len-IsFitted (set_scroll_info kit s 0) 0 k;
        full = record { within = omega arith; rows = ground (arith, h.some_line) };
        placed = refl;
      }

  clear-IsListed : (w : UserWindow kit) → IsListed w → IsListed (clear kit w)
  unfolding clear
  clear-IsListed w h = record {
    fitted = clear-IsFitted w.scroll 0 h.fitted.some_line;
    full = clear-IsFull w.scroll h.fitted.some_line;
    placed = refl;
  }

  added-IsListed :
      (w : UserWindow kit) (users : List UserInfo) (places : List ℤ)
      → length w.user_infos ≤ length users
      → length places ≡ length users
      → IsListed w
      → IsListed (
          update_show_user_infos kit (record w {
            user_infos = users;
            places = places;
            scroll = set_scroll_len kit (set_scroll_info kit w.scroll (length users));
          }))
  added-IsListed w users places more e h =
      let s = set_scroll_info kit w.scroll (length users) in
      update_show_user_infos-IsListed
        (record { user_infos = users; places = places; scroll = set_scroll_len kit s })
        (set_scroll_len-IsFitted s (length users) (
          set_scroll_info-IsFitted w.scroll (length users) h.fitted.some_line
            (omega (arith, h.fitted.lines, h.fitted.start, more))))
        e

  add_user-IsListed :
      (id : ℤ) (nickname : Text) (state : Bool) (w : UserWindow kit)
      → IsListed w
      → IsListed (add_user kit id nickname state w)
  unfolding add_user
  add_user-IsListed id nickname state w h =
      if-cases IsListed (has_id id w.user_infos)
        (λ there.
          let same = length-add_user_old id nickname state w.user_infos there in
          record {
            fitted = subst (λ n. IsFitted n w.scroll) (sym same) h.fitted;
            full = subst (λ n. IsFull n w.scroll) (sym same) h.full;
            placed = h.placed ∙ sym same;
          })
        (λ away.
          let more = length-add_user_new id nickname state w.user_infos away in
          added-IsListed w _ _ (omega (arith, more))
            (omega (arith, more, h.placed, length-append w.places (place_of kit w _ ∷ []))) h)

  delete_user-IsListed :
      (id : ℤ) (w : UserWindow kit) → IsListed w → IsListed (delete_user kit id w)
  unfolding delete_user
  delete_user-IsListed id w h =
      let users = UserList.delete_user id w.user_infos in
      let i = index_of id w.user_infos in
      let rest = length (erase_idx w.places i) - i in
      let s = set_scroll_len kit (set_scroll_info kit w.scroll (length users)) in
      update_show_user_infos-IsListed
        (record w {
          user_infos = users;
          places = take i w.places ++ places_from kit w rest i;
          scroll = set_show_start_index kit s;
        })
        (set_show_start_index-IsFitted s (length users) h.fitted.some_line (ground arith))
        (omega (
          arith,
          h.placed,
          ap length (delete_user-erase_idx id w.user_infos),
          length-erased i w.places w.user_infos h.placed,
          index-le-erase id w.user_infos,
          length-append (take i w.places) (places_from kit w rest i),
          length-places_from w rest i,
          length-take_le i w.places (omega (arith, h.placed, index-le-length id w.user_infos)),
        ))

  handle_event-IsListed :
      (w : UserWindow kit) (ev : Event) → IsListed w → IsListed (handle_event kit w ev).0
  unfolding handle_event
  handle_event-IsListed w ev h =
      update_show_user_infos-IsListed (record w { scroll = Events.handle_event kit w.scroll ev })
        (handle_event-IsFitted w.scroll (length w.user_infos) ev h.fitted) h.placed

  draw-IsListed : (w : UserWindow kit) → IsListed w → IsListed (draw kit w)
  unfolding draw update_show_user_infos
  draw-IsListed w h =
      let k = update_show_user_infos-IsListed w h.fitted h.placed in
      let s = (update_show_user_infos kit w).scroll in
      let rows = slice s.show_start s.show_end w.places in
      record {
        fitted = k.fitted;
        full = k.full;
        placed =
            length-on_slice s.show_start s.show_end (row_places s.window.y) w.places
              (length-row_places s.window.y rows)
            ∙ h.placed;
      }

-- A call of the window.
pub data UserCall : Type 0 where
  add : ℤ → Text → Bool → UserCall
  delete : ℤ → UserCall
  clear_users drawn : UserCall
  event : Event → UserCall

module _ (kit : Toolkit) where
  unfoldable pub perform : UserWindow kit → UserCall → UserWindow kit
  unfolding add_user delete_user clear draw handle_event
  perform w (add id nickname state) = add_user kit id nickname state w
  perform w (delete id) = delete_user kit id w
  perform w clear_users = clear kit w
  perform w drawn = draw kit w
  perform w (event ev) = (handle_event kit w ev).0

  unfoldable pub performed : UserWindow kit → List UserCall → UserWindow kit
  unfolding perform
  performed w [] = w
  performed w (c ∷ cs) = performed (perform w c) cs

module _ {kit : Toolkit} where
  perform-IsListed : (w : UserWindow kit) (c : UserCall) → IsListed w → IsListed (perform kit w c)
  unfolding perform
  perform-IsListed w (add id nickname state) h = add_user-IsListed id nickname state w h
  perform-IsListed w (delete id) h = delete_user-IsListed id w h
  perform-IsListed w clear_users h = clear-IsListed w h
  perform-IsListed w drawn h = draw-IsListed w h
  perform-IsListed w (event ev) h = handle_event-IsListed w ev h

  performed-IsListed :
      (w : UserWindow kit) (cs : List UserCall) → IsListed w → IsListed (performed kit w cs)
  unfolding performed
  performed-IsListed w [] h = h
  performed-IsListed w (c ∷ cs) h = performed-IsListed (perform kit w c) cs (perform-IsListed w c h)

-- Whatever calls and events there were, the rows of a window that was made empty are as many as its
-- lines, or all the users where there are fewer.
pub shown_users_fill_window :
    (kit : Toolkit) (list_area : Area) (cs : List UserCall)
    → let w = performed kit (new_user_window kit list_area) cs in
      length (show_user_infos kit w) ≡ (
        if ltb (length w.user_infos) w.scroll.show_lines
        then length w.user_infos
        else w.scroll.show_lines)
shown_users_fill_window kit list_area cs =
    let h = new_user_window-IsListed {kit = kit} list_area in
    length-slice _ _ (performed-IsListed (new_user_window kit list_area) cs h).full
