-- ===== src/Base/Slices.antt =====
-- Slices of a list, and a change of the elements of a slice.
use Prim.Native.Nat.{ℕ, zero, suc, ◌+◌, ◌-◌, ◌≤◌}
use mathlib.Core.Path.{◌≡◌, refl, ap, ◌∙◌}
use mathlib.Core.List.{List, [], ◌∷◌, ◌++◌}
use native.Mathlib.Omega.{arith}
use project_tetris.Base.Lists.{length, take, drop, All, All-append, length-append, length-drop}

-- `xs[start:end]`
abbrev pub slice {ℓ} : {A : Type ℓ} → ℕ → ℕ → List A → List A
slice start end xs = take (end - start) (drop start xs)

abbrev pub on_slice {ℓ} : {A : Type ℓ} → ℕ → ℕ → (List A → List A) → List A → List A
on_slice start end f xs =
    take start xs ++ (f (slice start end xs) ++ drop (end - start) (drop start xs))

module _ {ℓ} {A : Type ℓ} where
  length-take-drop : (n : ℕ) (xs : List A) → length (take n xs) + length (drop n xs) ≡ length xs
  length-take-drop zero xs = omega arith
  length-take-drop (suc n) [] = refl
  length-take-drop (suc n) (x ∷ xs) = omega (arith, length-take-drop n xs)

  take-append_length : (n : ℕ) (xs ys : List A) → length xs ≡ n → take n (xs ++ ys) ≡ xs
  take-append_length zero [] ys h = refl
  take-append_length zero (x ∷ xs) ys h = absurd (omega (arith, h))
  take-append_length (suc n) [] ys h = absurd (omega (arith, h))
  take-append_length (suc n) (x ∷ xs) ys h =
      ap (◌∷◌ x) (take-append_length n xs ys (omega (arith, h)))

  drop-append_length : (n : ℕ) (xs ys : List A) → length xs ≡ n → drop n (xs ++ ys) ≡ ys
  drop-append_length zero [] ys h = refl
  drop-append_length zero (x ∷ xs) ys h = absurd (omega (arith, h))
  drop-append_length (suc n) [] ys h = absurd (omega (arith, h))
  drop-append_length (suc n) (x ∷ xs) ys h = drop-append_length n xs ys (omega (arith, h))

  take-all : (n : ℕ) (xs : List A) → length xs ≤ n → take n xs ≡ xs
  take-all zero [] h = refl
  take-all zero (x ∷ xs) h = absurd (omega (arith, h))
  take-all (suc n) [] h = refl
  take-all (suc n) (x ∷ xs) h = ap (◌∷◌ x) (take-all n xs (omega (arith, h)))

  -- A slice up to the end of the list.
  pub slice-drop :
      (start end : ℕ) (xs : List A) → length xs ≤ end → slice start end xs ≡ drop start xs
  slice-drop start end xs h =
      take-all (end - start) (drop start xs) (omega (arith, h, length-drop start xs))

  pub length-on_slice :
      (start end : ℕ) (f : List A → List A) (xs : List A)
      → length (f (slice start end xs)) ≡ length (slice start end xs)
      → length (on_slice start end f xs) ≡ length xs
  length-on_slice start end f xs h =
      let rest = drop (end - start) (drop start xs) in
      omega (
        arith,
        h,
        length-append (take start xs) (f (slice start end xs) ++ rest),
        length-append (f (slice start end xs)) rest,
        length-take-drop start xs,
        length-take-drop (end - start) (drop start xs),
      )

  -- Where the slice lies in the list, the changed list has the changed slice in its place.
  pub slice-on_slice :
      (start end : ℕ) (f : List A → List A) (xs : List A)
      → length (take start xs) ≡ start
      → length (f (slice start end xs)) ≡ end - start
      → slice start end (on_slice start end f xs) ≡ f (slice start end xs)
  slice-on_slice start end f xs h k =
      ap (take (end - start)) (drop-append_length start (take start xs) _ h)
      ∙ take-append_length (end - start) _ _ k

module _ {ℓ κ} {A : Type ℓ} (P : A → Type κ) where
  pub All-take : (n : ℕ) (xs : List A) → All P xs → All P (take n xs)
  All-take zero xs h = tt
  All-take (suc n) [] h = tt
  All-take (suc n) (x ∷ xs) (p, h) = (p, All-take n xs h)

  pub All-drop : (n : ℕ) (xs : List A) → All P xs → All P (drop n xs)
  All-drop zero xs h = h
  All-drop (suc n) [] h = tt
  All-drop (suc n) (x ∷ xs) (p, h) = All-drop n xs h

  pub All-on_slice :
      (start end : ℕ) (f : List A → List A) (xs : List A)
      → ((ys : List A) → All P ys → All P (f ys))
      → All P xs
      → All P (on_slice start end f xs)
  All-on_slice start end f xs k h = All-append P (take start xs) _ (All-take start xs h) (
      All-append P (f (slice start end xs)) _ (k _ (All-take (end - start) _ (All-drop start xs h)))
        (All-drop (end - start) _ (All-drop start xs h)))
