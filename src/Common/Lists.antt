-- ===== src/Common/Lists.antt =====
-- Lists measured by native numbers, and predicates on their elements by recursion.
use Prim.Native.Nat.{ℕ, suc, ◌+◌}
use mathlib.Core.Path.{◌≡◌, refl}
use mathlib.Core.List.{List, [], ◌∷◌, ◌++◌, map}
use native.Mathlib.Omega.{arith}

module _ {ℓ} {A : Type ℓ} where
  abbrev pub length : List A → ℕ
  length [] = 0
  length (x ∷ xs) = suc (length xs)

  pub length-append : (xs ys : List A) → length (xs ++ ys) ≡ length xs + length ys
  length-append [] ys = omega arith
  length-append (x ∷ xs) ys = omega (arith, length-append xs ys)

abbrev pub All {ℓ κ} : {A : Type ℓ} → (A → Type κ) → List A → Type κ
All P [] = Unit
All P (x ∷ xs) = P x × All P xs

-- reversed(xs) + ys
abbrev pub reverse_onto {ℓ} : {A : Type ℓ} → List A → List A → List A
reverse_onto [] ys = ys
reverse_onto (x ∷ xs) ys = reverse_onto xs (x ∷ ys)

pub All-reverse_onto {ℓ κ} :
    {A : Type ℓ} (P : A → Type κ) (xs ys : List A)
    → All P xs
    → All P ys
    → All P (reverse_onto xs ys)
All-reverse_onto P [] ys h k = k
All-reverse_onto P (x ∷ xs) ys h k = All-reverse_onto P xs (x ∷ ys) h.1 (h.0, k)

pub map-reverse_onto {ℓ κ} :
    {A : Type ℓ} {B : Type κ} (f : A → B) (xs ys : List A)
    → map f (reverse_onto xs ys) ≡ reverse_onto (map f xs) (map f ys)
map-reverse_onto f [] ys = refl
map-reverse_onto f (x ∷ xs) ys = map-reverse_onto f xs (x ∷ ys)
