-- ===== src/Ui/UserWindow/Indices.antt =====
-- The users of client/tetris/ui/user_list.py by their indices.
use project_tetris.Base.{
  ℕ, zero, suc, ◌≤◌, ℤ, eq_ℤ, ◌≡◌, refl, ap, arith, Bool, true, false, List, [], ◌∷◌, if◌then◌else◌,
  if-both, length, length-append, erase_idx,
}
use project_tetris.Python.Utf8.{Text}
use project_tetris.Ui.UserList
use project_tetris.Ui.UserList.{UserInfo, has_id, set_first, with_nickname}
use project_tetris.Ui.UserWindow.{index_of}

length-set_first :
    (change : UserInfo → UserInfo) (id : ℤ) (vs : List UserInfo)
    → length (set_first change id vs) ≡ length vs
length-set_first change id [] = refl
length-set_first change id (v ∷ vs) =
    if-both (λ (us : List UserInfo). length us ≡ suc (length vs)) (eq_ℤ v.id id) refl
      (ap suc (length-set_first change id vs))

pub length-add_user_old :
    (id : ℤ) (nickname : Text) (state : Bool) (vs : List UserInfo)
    → has_id id vs ≡ true
    → length (UserList.add_user id nickname state vs) ≡ length vs
unfolding UserList.add_user
length-add_user_old id nickname state vs h =
    rw h (length-set_first (with_nickname nickname state) id vs)

pub length-add_user_new :
    (id : ℤ) (nickname : Text) (state : Bool) (vs : List UserInfo)
    → has_id id vs ≡ false
    → length (UserList.add_user id nickname state vs) ≡ suc (length vs)
unfolding UserList.add_user
length-add_user_new id nickname state vs h =
    let v : UserInfo = record { id = id; nickname = nickname; state = state } in
    rw h (omega (arith, length-append vs (v ∷ [])))

-- A user is taken out at its index, and nobody where there is no user of the id.
pub delete_user-erase_idx :
    (id : ℤ) (vs : List UserInfo) → UserList.delete_user id vs ≡ erase_idx vs (index_of id vs)
unfolding UserList.delete_user index_of
delete_user-erase_idx id [] = refl
delete_user-erase_idx id (v ∷ vs) = taken (eq_ℤ v.id id) (delete_user-erase_idx id vs)
  where
    taken :
        (t : Bool)
        → UserList.delete_user id vs ≡ erase_idx vs (index_of id vs)
        → (if t then vs else v ∷ UserList.delete_user id vs)
          ≡ erase_idx (v ∷ vs) (if t then 0 else suc (index_of id vs))
    taken true h = refl
    taken false h = ap (◌∷◌ v) h

pub length-erased :
    {A B : Type 0} (index : ℕ) (xs : List A) (ys : List B)
    → length xs ≡ length ys
    → length (erase_idx xs index) ≡ length (erase_idx ys index)
length-erased index [] [] e = refl
length-erased index [] (y ∷ ys) e = absurd (omega (arith, e))
length-erased index (x ∷ xs) [] e = absurd (omega (arith, e))
length-erased zero (x ∷ xs) (y ∷ ys) e = omega (arith, e)
length-erased (suc i) (x ∷ xs) (y ∷ ys) e = ap suc (length-erased i xs ys (omega (arith, e)))

pub index-le-erase :
    (id : ℤ) (vs : List UserInfo) → index_of id vs ≤ length (erase_idx vs (index_of id vs))
unfolding index_of
index-le-erase id [] = omega arith
index-le-erase id (v ∷ vs) =
    if-both (λ (i : ℕ). i ≤ length (erase_idx (v ∷ vs) i)) (eq_ℤ v.id id) (omega arith)
      (omega (arith, index-le-erase id vs))

pub index-le-length : (id : ℤ) (vs : List UserInfo) → index_of id vs ≤ length vs
unfolding index_of
index-le-length id [] = omega arith
index-le-length id (v ∷ vs) =
    if-both (λ (i : ℕ). i ≤ suc (length vs)) (eq_ℤ v.id id) (omega arith)
      (omega (arith, index-le-length id vs))
