-- ===== src/Ui/UserList.antt =====
-- client/tetris/ui/user_list.py and user_taps.py: the users of the lobby and the friends. The rows
-- and the scroll bar are those of UserWindow, the clicks on the tabs those of UserTabs.
pub mod Lookup
pub mod Dictionary
use project_tetris.Base.{
  ℤ, eq_ℤ, Bool, true, false, Option, none, some, List, [], ◌∷◌, ◌++◌, if◌then◌else◌,
}
use project_tetris.Python.Utf8.{Text}
use project_tetris.Python.Chars.{text_eq}
use project_tetris.Ui.Texts.{user_tab_name, friend_tab_name}

pub record UserInfo : Type 0 where
  pub id : ℤ
  pub nickname : Text
  pub state : Bool

abbrev pub has_id : ℤ → List UserInfo → Bool
has_id id [] = false
has_id id (v ∷ vs) = let rest = has_id id vs in if eq_ℤ v.id id then true else rest

-- `set_nickname` and `set_state` on the first user with the id
abbrev pub set_first : (UserInfo → UserInfo) → ℤ → List UserInfo → List UserInfo
set_first change id [] = []
set_first change id (v ∷ vs) =
    let rest = set_first change id vs in if eq_ℤ v.id id then change v ∷ vs else v ∷ rest

abbrev pub with_nickname : Text → Bool → UserInfo → UserInfo
with_nickname nickname state v = record v { nickname = nickname; state = state }

unfoldable pub add_user : ℤ → Text → Bool → List UserInfo → List UserInfo
add_user id nickname state vs =
    if has_id id vs
    then set_first (with_nickname nickname state) id vs
    else vs ++ (record { id = id; nickname = nickname; state = state } ∷ [])

unfoldable pub delete_user : ℤ → List UserInfo → List UserInfo
delete_user id [] = []
delete_user id (v ∷ vs) = let rest = delete_user id vs in if eq_ℤ v.id id then vs else v ∷ rest

unfoldable pub update_user : ℤ → Text → Bool → List UserInfo → List UserInfo
update_user id nickname state vs = set_first (with_nickname nickname state) id vs

unfoldable pub update_user_state : ℤ → Bool → List UserInfo → List UserInfo
update_user_state id state vs = set_first (λ v. record v { state = state }) id vs

-- The lists of the tabs, by their names.
abbrev pub Tabs : Type 0
Tabs = List (Text × List UserInfo)

-- Where there is no tab of the name, nothing happens.
abbrev pub on_tab : Text → (List UserInfo → List UserInfo) → Tabs → Tabs
on_tab name change [] = []
on_tab name change ((n, vs) ∷ tabs) =
    let rest = on_tab name change tabs in
    if text_eq n name then (n, change vs) ∷ tabs else (n, vs) ∷ rest

abbrev pub new_tabs : List Text → Tabs
new_tabs [] = []
new_tabs (n ∷ ns) = (n, []) ∷ new_tabs ns

-- The packets of the lists.
pub data UserPacket : Type 0 where
  lobby_user_info : ℤ → Text → UserPacket
  friend_info : ℤ → Text → Bool → UserPacket
  add_friend request_friend : ℤ → Text → UserPacket
  delete_friend : ℤ → UserPacket

abbrev none_answer : Tabs → Option (ℤ × Text) × Tabs
none_answer tabs = (none, tabs)

-- A request for a friend is answered with itself, for the lobby.
unfoldable pub handle_user_packet : Tabs → UserPacket → Option (ℤ × Text) × Tabs
unfolding add_user delete_user
handle_user_packet tabs (lobby_user_info id nickname) =
    none_answer (on_tab user_tab_name (add_user id nickname true) tabs)
handle_user_packet tabs (friend_info id nickname is_lobby) =
    none_answer (on_tab friend_tab_name (add_user id nickname is_lobby) tabs)
handle_user_packet tabs (add_friend id nickname) =
    none_answer (on_tab friend_tab_name (add_user id nickname true) tabs)
handle_user_packet tabs (delete_friend id) =
    none_answer (on_tab friend_tab_name (delete_user id) tabs)
handle_user_packet tabs (request_friend id nickname) = (some (id, nickname), tabs)

-- `clear` of one tab
unfoldable pub clear_tab : Text → Tabs → Tabs
clear_tab name tabs = on_tab name (λ _. []) tabs
