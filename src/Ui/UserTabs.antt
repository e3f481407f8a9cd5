-- ===== src/Ui/UserTabs.antt =====
-- The events of client/tetris/ui/user_taps.py: the tabs of the lobby's users and friends.
pub mod Pressed
use project_tetris.Base.{
  ℕ, suc, ℤ, Bool, true, false, Option, none, some, List, [], ◌∷◌, if◌then◌else◌, ◌==◌, get_elem?,
}
use project_tetris.Python.Exec.{Result, ok, err, index_error, key_error}
use project_tetris.Python.Index.{or_index_error}
use project_tetris.Ui.Toolkit.{Toolkit}
use project_tetris.Python.Utf8.{Text}
use project_tetris.Python.Chars.{text_eq}
use project_tetris.Ui.Event.{Event, Point}
use project_tetris.Ui.Button
use project_tetris.Ui.Button.{Button, ToggleButton, handle_toggle, set_pressed}
use project_tetris.Ui.UserWindow
use project_tetris.Ui.UserWindow.{UserWindow}
use project_tetris.Ui.Texts.{user_tab_name, friend_tab_name}
use project_tetris.States.Lobby.{FriendAction, to_add, to_delete}

-- An empty answer, the name of a tab that is to be asked for again, or what to do with a user, whose
-- row was clicked at a point.
pub data TabEvent : Type 0 where
  no_event : TabEvent
  refresh_tab : Text → TabEvent
  friend : FriendAction → ℤ → Point → TabEvent

-- Every button is pressed that has the index, from index `i` on.
unfoldable pub press_only : ℕ → ℕ → List ToggleButton → List ToggleButton
unfolding set_pressed
press_only cur i [] = []
press_only cur i (b ∷ bs) = set_pressed b (i == cur) ∷ press_only cur (suc i) bs

abbrev or_next :
    ℕ
    → List ToggleButton
    → ToggleButton × Bool
    → List ToggleButton × Option ℕ
    → List ToggleButton × Option ℕ
or_next i bs (b, true) rest = (b ∷ bs, some i)
or_next i bs (b, false) (bs', hit) = (b ∷ bs', hit)

-- The first tab that answers, from index `i` on.
unfoldable pub click_tabs : ℕ → List ToggleButton → Event → List ToggleButton × Option ℕ
unfolding handle_toggle
click_tabs i [] ev = ([], none)
click_tabs i (b ∷ bs) ev = or_next i bs (handle_toggle b ev) (click_tabs (suc i) bs ev)

-- `refresh_buttons.get(name)`, and its answer.
unfoldable pub click_refresh : Text → List (Text × Button) → Event → List (Text × Button) × Bool
unfolding Button.handle_event
click_refresh name [] ev = ([], false)
click_refresh name ((n, b) ∷ bs) ev =
    let (rest, hit) = click_refresh name bs ev in
    let (b', hit') = Button.handle_event b ev in
    if text_eq n name then ((n, b') ∷ bs, hit') else ((n, b) ∷ rest, hit)

-- A user of the first tab can be made a friend, and a friend can be deleted.
abbrev pub friend_event : Text → Option (ℤ × Point) → TabEvent
friend_event name none = no_event
friend_event name (some (id, at)) =
    if text_eq name user_tab_name
    then friend to_add id at
    else if text_eq name friend_tab_name
    then friend to_delete id at
    else no_event

module _ (kit : Toolkit) where
  pub record UserTabs : Type 0 where
    pub tab_names : List Text
    pub cur_tab_index : ℕ
    pub tab_buttons : List ToggleButton
    pub user_lists : List (Text × UserWindow kit)
    pub refresh_buttons : List (Text × Button)

  abbrev pub get_cur_tab_name : UserTabs → Result Text
  get_cur_tab_name t = or_index_error (get_elem? t.tab_names t.cur_tab_index)

  -- `user_lists[name].handle_event(ev)`
  unfoldable pub ask_list :
      Text
      → List (Text × UserWindow kit)
      → Event
      → Result (Option (ℤ × Point)) × List (Text × UserWindow kit)
  unfolding UserWindow.handle_event
  ask_list name [] ev = (err key_error, [])
  ask_list name ((n, w) ∷ ws) ev =
      let (rest, ws') = ask_list name ws ev in
      let (w', answer) = UserWindow.handle_event kit w ev in
      if text_eq n name then (ok answer, (n, w') ∷ ws) else (rest, (n, w) ∷ ws')

  abbrev pub Outcome : Type 0
  Outcome = Result TabEvent × UserTabs

  abbrev listed :
      Text → UserTabs → Result (Option (ℤ × Point)) × List (Text × UserWindow kit) → Outcome
  listed name t (ok answer, ws) = (ok (friend_event name answer), record t { user_lists = ws })
  listed name t (err e, ws) = (err e, record t { user_lists = ws })

  abbrev refreshed : Text → UserTabs → Event → List (Text × Button) × Bool → Outcome
  unfolding ask_list
  refreshed name t ev (bs, true) = (ok (refresh_tab name), record t { refresh_buttons = bs })
  refreshed name t ev (bs, false) =
      listed name (record t { refresh_buttons = bs }) (ask_list name t.user_lists ev)

  abbrev in_tab : UserTabs → Event → Result Text → Outcome
  unfolding refreshed click_refresh
  in_tab t ev (err e) = (err e, t)
  in_tab t ev (ok name) = refreshed name t ev (click_refresh name t.refresh_buttons ev)

  -- A click on a tab does nothing else.
  unfoldable pub after_tabs : UserTabs → Event → List ToggleButton × Option ℕ → Outcome
  unfolding press_only in_tab
  after_tabs t ev (bs, some index) =
      (ok no_event, record t { cur_tab_index = index; tab_buttons = press_only index 0 bs })
  after_tabs t ev (bs, none) =
      let t' : UserTabs = record t { tab_buttons = bs } in in_tab t' ev (get_cur_tab_name t')

  unfoldable pub handle_event : UserTabs → Event → Outcome
  unfolding click_tabs after_tabs
  handle_event t ev = after_tabs t ev (click_tabs 0 t.tab_buttons ev)
