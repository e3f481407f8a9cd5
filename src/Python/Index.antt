-- ===== src/Python/Index.antt =====
-- `a[i]` for a list of length `n`: a negative index counts from the end; and `a % n`.
use project_tetris.Base.{
  ℕ, suc, ◌-◌, ◌%◌, ◌≤◌, ◌<◌, ◌≡◌, refl, Option, none, some, List, arith, ltb, if◌then◌else◌,
  length, get_elem?, get_elem?-lt, All, All-get_elem?, refl, set, erase_idx, ℤ, pos, negsuc,
}
use project_tetris.Python.Exec.{Result, ok, err, index_error, Ensures}

-- The place that index `i` names in a list of length `n`.
abbrev pub py_index : ℕ → ℤ → Option ℕ
py_index n (pos i) = if ltb i n then some i else none
py_index n (negsuc i) = if ltb i n then some (n - suc i) else none

module _ {ℓ} {A : Type ℓ} where
  -- The value of an index that may be out of range.
  abbrev pub or_index_error : Option A → Result A
  or_index_error none = err index_error
  or_index_error (some a) = ok a

  abbrev pub get_at : List A → Option ℕ → Result A
  get_at xs none = err index_error
  get_at xs (some i) = or_index_error (get_elem? xs i)

  abbrev pub set_at : List A → Option ℕ → A → Result (List A)
  set_at xs none v = err index_error
  set_at xs (some i) v = ok (set xs i v)

  abbrev pub del_at : List A → Option ℕ → Result (List A)
  del_at xs none = err index_error
  del_at xs (some i) = ok (erase_idx xs i)

  -- `xs[i]`
  abbrev pub get_item : List A → ℤ → Result A
  get_item xs i = get_at xs (py_index (length xs) i)

  -- `xs[i] = v`
  abbrev pub set_item : List A → ℤ → A → Result (List A)
  set_item xs i v = set_at xs (py_index (length xs) i) v

  -- `del xs[i]`
  abbrev pub del_item : List A → ℤ → Result (List A)
  del_item xs i = del_at xs (py_index (length xs) i)

pub py_index-pos : (n i : ℕ) → i < n → py_index n (pos i) ≡ some i
py_index-pos n i h = ground arith

pub py_index-negsuc : (n i : ℕ) → i < n → py_index n (negsuc i) ≡ some (n - suc i)
py_index-negsuc n i h = ground arith

pub py_index_out : (n i : ℕ) → n ≤ i → (py_index n (pos i) ≡ none) × (py_index n (negsuc i) ≡ none)
py_index_out n i h = ground arith

pub py_index_lt : (n : ℕ) (i : ℤ) {k : ℕ} → py_index n i ≡ some k → k < n
py_index_lt n (pos i) e = ground arith
py_index_lt n (negsuc i) e = ground arith

pub get_item-some {ℓ} :
    {A : Type ℓ} (xs : List A) (i : ℕ) {x : A}
    → get_elem? xs i ≡ some x
    → get_item xs (pos i) ≡ ok x
get_item-some xs i h = rw (py_index-pos (length xs) i (get_elem?-lt xs i h), h)

pub get_item-All {ℓ κ} :
    {A : Type ℓ} (P : A → Type κ) (xs : List A) (i : ℤ) → All P xs → Ensures P (get_item xs i)
get_item-All {A} P xs i h = at (py_index (length xs) i)
  where
    found : (j : ℕ) (o : Option A) → get_elem? xs j ≡ o → Ensures P (or_index_error o)
    found j none e = tt
    found j (some x) e = All-get_elem? P xs j h e

    at : (o : Option ℕ) → Ensures P (get_at xs o)
    at none = tt
    at (some j) = found j (get_elem? xs j) refl

-- `a % n` for a positive `n` lies in 0 .. n - 1, also for a negative `a`.
unfoldable pub mod_ℤ : ℤ → ℕ → ℕ
mod_ℤ (pos a) n = a % n
mod_ℤ (negsuc a) n = n - suc (a % n)
