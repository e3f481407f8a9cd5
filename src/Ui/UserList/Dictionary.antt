-- ===== src/Ui/UserList/Dictionary.antt =====
-- The lists of users under any calls.
use project_tetris.Base.{
  ℤ, eq_ℤ, arith, ◌≡◌, refl, ◌∙◌, Bool, false, Option, none, some, List, [], ◌∷◌, ◌++◌,
  if◌then◌else◌, All, All-append, if-both, if-cases,
}
use project_tetris.Python.Utf8.{Text}
use project_tetris.Ui.UserList.{
  UserInfo, has_id, set_first, with_nickname, add_user, delete_user, update_user, update_user_state,
}
use project_tetris.Ui.UserList.Lookup.{
  lookup, IsDistinct, map_row, lookup-set_first, lookup-add_user, lookup-delete_user,
}

-- The other rows of an id are those of other ids.
far_set_first :
    (a id : ℤ) (change : UserInfo → UserInfo) (vs : List UserInfo)
    → ((v : UserInfo) → (change v).id ≡ v.id)
    → All (λ w. eq_ℤ a w.id ≡ false) vs
    → All (λ w. eq_ℤ a w.id ≡ false) (set_first change id vs)
far_set_first a id change [] same h = tt
far_set_first a id change (v ∷ vs) same (far, h) =
    if-both (All (λ w. eq_ℤ a w.id ≡ false)) (eq_ℤ v.id id) (rw (same v) far, h)
      (far, far_set_first a id change vs same h)

far_delete_user :
    (a id : ℤ) (vs : List UserInfo)
    → All (λ w. eq_ℤ a w.id ≡ false) vs
    → All (λ w. eq_ℤ a w.id ≡ false) (delete_user id vs)
unfolding delete_user
far_delete_user a id [] h = tt
far_delete_user a id (v ∷ vs) (far, h) =
    if-both (All (λ w. eq_ℤ a w.id ≡ false)) (eq_ℤ v.id id) h (far, far_delete_user a id vs h)

set_first-IsDistinct :
    (id : ℤ) (change : UserInfo → UserInfo) (vs : List UserInfo)
    → ((v : UserInfo) → (change v).id ≡ v.id)
    → IsDistinct vs
    → IsDistinct (set_first change id vs)
set_first-IsDistinct id change [] same d = tt
set_first-IsDistinct id change (v ∷ vs) same (far, d) =
    if-both IsDistinct (eq_ℤ v.id id) (rw (same v) far, d)
      (far_set_first v.id id change vs same far, set_first-IsDistinct id change vs same d)

append-IsDistinct :
    (u : UserInfo) (vs : List UserInfo)
    → has_id u.id vs ≡ false
    → IsDistinct vs
    → IsDistinct (vs ++ (u ∷ []))
append-IsDistinct u [] h d = (tt, tt)
append-IsDistinct u (v ∷ vs) h (far, d) = (
  All-append (λ w. eq_ℤ v.id w.id ≡ false) vs (u ∷ []) far (ground (arith, h), tt),
  append-IsDistinct u vs (ground (arith, h)) d,
)

delete_user-IsDistinct :
    (id : ℤ) (vs : List UserInfo) → IsDistinct vs → IsDistinct (delete_user id vs)
unfolding delete_user
delete_user-IsDistinct id [] d = tt
delete_user-IsDistinct id (v ∷ vs) (far, d) =
    if-both IsDistinct (eq_ℤ v.id id) d
      (far_delete_user v.id id vs far, delete_user-IsDistinct id vs d)

add_user-IsDistinct :
    (id : ℤ) (nickname : Text) (state : Bool) (vs : List UserInfo)
    → IsDistinct vs
    → IsDistinct (add_user id nickname state vs)
unfolding add_user
add_user-IsDistinct id nickname state vs d =
    if-cases IsDistinct (has_id id vs)
      (λ _. set_first-IsDistinct id (with_nickname nickname state) vs (λ _. refl) d)
      (λ new. append-IsDistinct _ vs new d)

-- The methods that change a list.
pub data UserCall : Type 0 where
  add update : ℤ → Text → Bool → UserCall
  delete : ℤ → UserCall
  update_state : ℤ → Bool → UserCall

abbrev pub call : UserCall → List UserInfo → List UserInfo
call (add id nickname state) = add_user id nickname state
call (update id nickname state) = update_user id nickname state
call (delete id) = delete_user id
call (update_state id state) = update_user_state id state

-- The newest call stands first.
abbrev pub perform : List UserCall → List UserInfo
perform [] = []
perform (c ∷ cs) = call c (perform cs)

-- The same on a dictionary.
abbrev pub Dictionary : Type 0
Dictionary = ℤ → Option UserInfo

abbrev pub entry : UserCall → Dictionary → Dictionary
entry (add id nickname state) m k =
    if eq_ℤ id k then some (record { id = id; nickname = nickname; state = state }) else m k
entry (update id nickname state) m k =
    if eq_ℤ id k then map_row (with_nickname nickname state) (m k) else m k
entry (delete id) m k = if eq_ℤ id k then none else m k
entry (update_state id state) m k =
    if eq_ℤ id k then map_row (λ v. record v { state = state }) (m k) else m k

abbrev pub entries : List UserCall → Dictionary
entries [] k = none
entries (c ∷ cs) k = entry c (entries cs) k

call-IsDistinct : (c : UserCall) (vs : List UserInfo) → IsDistinct vs → IsDistinct (call c vs)
unfolding update_user update_user_state
call-IsDistinct (add id nickname state) vs d = add_user-IsDistinct id nickname state vs d
call-IsDistinct (update id nickname state) vs d =
    set_first-IsDistinct id (with_nickname nickname state) vs (λ _. refl) d
call-IsDistinct (delete id) vs d = delete_user-IsDistinct id vs d
call-IsDistinct (update_state id state) vs d =
    set_first-IsDistinct id (λ v. record v { state = state }) vs (λ _. refl) d

lookup-call :
    (c : UserCall) (vs : List UserInfo) (k : ℤ)
    → IsDistinct vs
    → lookup k (call c vs) ≡ entry c (λ i. lookup i vs) k
unfolding update_user update_user_state
lookup-call (add id nickname state) vs k d = lookup-add_user id k nickname state vs
lookup-call (update id nickname state) vs k d =
    lookup-set_first id k (with_nickname nickname state) vs (λ _. refl)
lookup-call (delete id) vs k d = lookup-delete_user id k vs d
lookup-call (update_state id state) vs k d =
    lookup-set_first id k (λ v. record v { state = state }) vs (λ _. refl)

entry_same : (c : UserCall) (m n : Dictionary) (k : ℤ) → m k ≡ n k → entry c m k ≡ entry c n k
entry_same (add id nickname state) m n k e = rw e refl
entry_same (update id nickname state) m n k e = rw e refl
entry_same (delete id) m n k e = rw e refl
entry_same (update_state id state) m n k e = rw e refl

-- Whatever users are added, renamed, set and deleted in whatever order: a list of users never holds an
-- id twice, and its row of an id is that of a dictionary under the same calls.
pub perform_refines_entries :
    (calls : List UserCall)
    → IsDistinct (perform calls) × ((k : ℤ) → lookup k (perform calls) ≡ entries calls k)
unfolding lookup
perform_refines_entries [] = (tt, λ k. refl)
perform_refines_entries (c ∷ cs) =
    let (d, same) = perform_refines_entries cs in
    (
      call-IsDistinct c (perform cs) d,
      λ k.
          lookup-call c (perform cs) k d
          ∙ entry_same c (λ i. lookup i (perform cs)) (entries cs) k (same k),
    )
