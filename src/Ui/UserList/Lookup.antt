-- ===== src/Ui/UserList/Lookup.antt =====
-- A list of users is a dictionary by their ids.
use project_tetris.Base.{
  ℤ, eq_ℤ, eq_of_parts, arith, ◌≡◌, refl, ap, Bool, true, false, Option, none, some, List, [], ◌∷◌,
  ◌++◌, if◌then◌else◌, Bool-cases, inl, inr, All,
}
use project_tetris.Python.Utf8.{Text}
use project_tetris.Ui.UserList.{UserInfo, has_id, set_first, with_nickname, add_user, delete_user}

-- The row of an id.
unfoldable pub lookup : ℤ → List UserInfo → Option UserInfo
lookup id [] = none
lookup id (v ∷ vs) = let rest = lookup id vs in if eq_ℤ v.id id then some v else rest

abbrev pub IsDistinct : List UserInfo → Type 0
IsDistinct [] = Unit
IsDistinct (v ∷ vs) = All (λ w. eq_ℤ v.id w.id ≡ false) vs × IsDistinct vs

eq_path : (a b : ℤ) → eq_ℤ a b ≡ true → a ≡ b
eq_path a b h = eq_of_parts a b (ground (arith, h))

abbrev pub map_row : (UserInfo → UserInfo) → Option UserInfo → Option UserInfo
map_row change none = none
map_row change (some v) = some (change v)

module _ (id k : ℤ) where
  pub lookup-set_first :
      (change : UserInfo → UserInfo) (vs : List UserInfo)
      → ((v : UserInfo) → (change v).id ≡ v.id)
      → lookup k (set_first change id vs)
        ≡ (if eq_ℤ id k then map_row change (lookup k vs) else lookup k vs)
  unfolding lookup
  lookup-set_first change [] same = ground arith
  lookup-set_first change (v ∷ vs) same =
      let next = lookup-set_first change vs same in let kept = same v in ground (arith, next, kept)

  lookup-append :
      (u : UserInfo) (vs : List UserInfo)
      → u.id ≡ id
      → has_id id vs ≡ false
      → lookup k (vs ++ (u ∷ [])) ≡ (if eq_ℤ id k then some u else lookup k vs)
  unfolding lookup
  lookup-append u [] same h = ground (arith, same)
  lookup-append u (v ∷ vs) same h =
      let later : has_id id vs ≡ false = ground (arith, h) in
      let next = lookup-append u vs same later in
      let other : eq_ℤ v.id id ≡ false = ground (arith, h) in ground (arith, next, other)

  lookup-absent :
      (a : ℤ) (vs : List UserInfo)
      → All (λ w. eq_ℤ a w.id ≡ false) vs
      → eq_ℤ a k ≡ true
      → lookup k vs ≡ none
  unfolding lookup
  lookup-absent a [] h e = refl
  lookup-absent a (v ∷ vs) (far, h) e = let next = lookup-absent a vs h e in ground (arith, next)

  -- The user that is there takes the new name and state.
  lookup-renamed :
      (nickname : Text) (state : Bool) (vs : List UserInfo)
      → has_id id vs ≡ true
      → eq_ℤ id k ≡ true
      → map_row (with_nickname nickname state) (lookup k vs)
        ≡ some (record { id = id; nickname = nickname; state = state })
  unfolding lookup
  lookup-renamed nickname state [] h e = cc
  lookup-renamed nickname state (v ∷ vs) h e = elim (Bool-cases (eq_ℤ v.id k)) [
    | inl here ↦
        let same : v.id ≡ id = eq_path v.id id (ground (arith, here, e)) in
        rw here (ap (λ i. some (record { id = i; nickname = nickname; state = state })) same)
    | inr there ↦ rw there (lookup-renamed nickname state vs (ground (arith, h, there, e)) e)
  ]

  pub lookup-add_user :
      (nickname : Text) (state : Bool) (vs : List UserInfo)
      → lookup k (add_user id nickname state vs) ≡ (
          if eq_ℤ id k
          then some (record { id = id; nickname = nickname; state = state })
          else lookup k vs)
  unfolding add_user
  lookup-add_user nickname state vs = elim (Bool-cases (has_id id vs)) [
    | inl there ↦
        rw (there, lookup-set_first (with_nickname nickname state) vs (λ _. refl))
          (elim (Bool-cases (eq_ℤ id k)) [
            | inl e ↦ rw e (lookup-renamed nickname state vs there e)
            | inr e ↦ rw e refl
          ])
    | inr new ↦ rw new (lookup-append _ vs refl new)
  ]

  pub lookup-delete_user :
      (vs : List UserInfo)
      → IsDistinct vs
      → lookup k (delete_user id vs) ≡ (if eq_ℤ id k then none else lookup k vs)
  unfolding lookup delete_user
  lookup-delete_user [] d = ground arith
  lookup-delete_user (v ∷ vs) (far, d) =
      let next = lookup-delete_user vs d in
      let none_left = lookup-absent v.id vs far in ground (arith, next, none_left)
