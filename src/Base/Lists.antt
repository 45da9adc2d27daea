-- ===== src/Base/Lists.antt =====
-- Lists over the native numbers, and a predicate on all members by recursion.
use Prim.Native.Nat.{ℕ, zero, suc, ◌+◌, ◌-◌, ◌≤◌}
use mathlib.Core.Path.{◌≡◌, refl, ap, ◌∙◌}
use mathlib.Core.Logic.{◌⊎◌}
use mathlib.Core.List.{List, [], ◌∷◌, ◌++◌, append-nil}
use native.Mathlib.Omega.{arith}

module _ {ℓ} {A : Type ℓ} where
  abbrev pub length : List A → ℕ
  length [] = 0
  length (x ∷ xs) = suc (length xs)

  pub length-append : (xs ys : List A) → length (xs ++ ys) ≡ length xs + length ys
  length-append [] ys = omega arith
  length-append (x ∷ xs) ys = omega (arith, length-append xs ys)

-- Every member has the property.
abbrev pub All {ℓ κ} : {A : Type ℓ} → (A → Type κ) → List A → Type κ
All P [] = Unit
All P (x ∷ xs) = P x × All P xs

module _ {ℓ} {A : Type ℓ} where
  abbrev pub take : ℕ → List A → List A
  take n [] = []
  take zero (x ∷ xs) = []
  take (suc n) (x ∷ xs) = x ∷ take n xs

  abbrev pub drop : ℕ → List A → List A
  drop n [] = []
  drop zero (x ∷ xs) = x ∷ xs
  drop (suc n) (x ∷ xs) = drop n xs

  pub length-take : (n : ℕ) (xs : List A) → n ≤ length xs → length (take n xs) ≡ n
  length-take zero [] h = refl
  length-take (suc n) [] h = absurd (omega arith)
  length-take zero (x ∷ xs) h = refl
  length-take (suc n) (x ∷ xs) h = omega (arith, length-take n xs (omega arith))

  pub length-drop : (n : ℕ) (xs : List A) → length (drop n xs) ≡ length xs - n
  length-drop n [] = omega arith
  length-drop zero (x ∷ xs) = omega arith
  length-drop (suc n) (x ∷ xs) = omega (arith, length-drop n xs)

  pub take-append_front : (n : ℕ) (xs ys : List A) → n ≤ length xs → take n (xs ++ ys) ≡ take n xs
  take-append_front zero [] [] h = refl
  take-append_front zero [] (y ∷ ys) h = refl
  take-append_front (suc n) [] ys h = absurd (omega arith)
  take-append_front zero (x ∷ xs) ys h = refl
  take-append_front (suc n) (x ∷ xs) ys h = ap (◌∷◌ x) (take-append_front n xs ys (omega arith))

  pub take-append_past :
      (n m : ℕ) (xs ys : List A) → n ≡ length xs + m → take n (xs ++ ys) ≡ xs ++ take m ys
  take-append_past n m [] ys h = ap (λ k. take k ys) (omega arith)
  take-append_past zero m (x ∷ xs) ys h = absurd (omega arith)
  take-append_past (suc n) m (x ∷ xs) ys h = ap (◌∷◌ x) (take-append_past n m xs ys (omega arith))

  pub drop-append_front :
      (n : ℕ) (xs ys : List A) → n ≤ length xs → drop n (xs ++ ys) ≡ drop n xs ++ ys
  drop-append_front zero [] [] h = refl
  drop-append_front zero [] (y ∷ ys) h = refl
  drop-append_front (suc n) [] ys h = absurd (omega arith)
  drop-append_front zero (x ∷ xs) ys h = refl
  drop-append_front (suc n) (x ∷ xs) ys h = drop-append_front n xs ys (omega arith)

  pub drop-append_past :
      (n m : ℕ) (xs ys : List A) → n ≡ length xs + m → drop n (xs ++ ys) ≡ drop m ys
  drop-append_past n m [] ys h = ap (λ k. drop k ys) (omega arith)
  drop-append_past zero m (x ∷ xs) ys h = absurd (omega arith)
  drop-append_past (suc n) m (x ∷ xs) ys h = drop-append_past n m xs ys (omega arith)

  pub drop_zero : (xs : List A) → drop 0 xs ≡ xs
  drop_zero [] = refl
  drop_zero (x ∷ xs) = refl

  pub take_zero : (xs : List A) → take 0 xs ≡ []
  take_zero [] = refl
  take_zero (x ∷ xs) = refl

  pub take-append : (n : ℕ) (xs ys : List A) → n ≡ length xs → take n (xs ++ ys) ≡ xs
  take-append n xs ys h =
      take-append_past n 0 xs ys (omega (arith, h))
      ∙ (ap (λ zs. xs ++ zs) (take_zero ys) ∙ append-nil xs)

  pub drop-append : (n : ℕ) (xs ys : List A) → n ≡ length xs → drop n (xs ++ ys) ≡ ys
  drop-append n xs ys h = drop-append_past n 0 xs ys (omega (arith, h)) ∙ drop_zero ys

-- The number stands somewhere in the list.
abbrev pub Among : ℕ → List ℕ → Type 0
Among i [] = ⊥
Among i (x ∷ xs) = (x ≡ i) ⊎ Among i xs
