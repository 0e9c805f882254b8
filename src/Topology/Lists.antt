-- ===== src/Topology/Lists.antt =====
-- Lists of GPU indices: membership, distinctness and prefixes.
use open_bmb_vox_cpm2_infere.Common.{
  ℕ, zero, suc, ◌≤◌, ◌≡◌, ◌==◌, Bool, true, false, ◌&&◌, ◌||◌, not, List, [], ◌∷◌, arith, refl,
}
use open_bmb_vox_cpm2_infere.Common.Lists.{length}

unfoldable pub elem : ℕ → List ℕ → Bool
elem i [] = false
elem i (j ∷ js) = i == j || elem i js

-- len(set(xs)) == len(xs)
unfoldable pub distinct : List ℕ → Bool
distinct [] = true
distinct (i ∷ is) = not (elem i is) && distinct is

unfoldable pub subset : List ℕ → List ℕ → Bool
subset [] js = true
subset (i ∷ is) js = elem i js && subset is js

-- xs[:n]
unfoldable pub take : ℕ → List ℕ → List ℕ
take zero xs = []
take (suc n) [] = []
take (suc n) (x ∷ xs) = x ∷ take n xs

pub length-take : (n : ℕ) (xs : List ℕ) → n ≤ length xs → length (take n xs) ≡ n
unfolding take
length-take zero xs h = refl
length-take (suc n) [] h = absurd (omega arith)
length-take (suc n) (x ∷ xs) h = omega (arith, length-take n xs)

elem-take : (i n : ℕ) (xs : List ℕ) → elem i xs ≡ false → elem i (take n xs) ≡ false
unfolding elem take
elem-take i zero xs h = refl
elem-take i (suc n) [] h = refl
elem-take i (suc n) (x ∷ xs) h = ground (arith, elem-take i n xs)

pub distinct-take : (n : ℕ) (xs : List ℕ) → distinct xs ≡ true → distinct (take n xs) ≡ true
unfolding distinct take
distinct-take zero xs h = refl
distinct-take (suc n) [] h = refl
distinct-take (suc n) (x ∷ xs) h = ground (arith, distinct-take n xs, elem-take x n xs)

pub subset-weaken : (x : ℕ) (is js : List ℕ) → subset is js ≡ true → subset is (x ∷ js) ≡ true
unfolding subset elem
subset-weaken x [] js h = refl
subset-weaken x (i ∷ is) js h = ground (arith, subset-weaken x is js)

pub subset_refl : (xs : List ℕ) → subset xs xs ≡ true
unfolding subset elem
subset_refl [] = refl
subset_refl (x ∷ xs) = ground (arith, subset_refl xs, subset-weaken x xs xs)

pub subset-take : (n : ℕ) (xs : List ℕ) → subset (take n xs) xs ≡ true
unfolding subset take elem
subset-take zero xs = refl
subset-take (suc n) [] = refl
subset-take (suc n) (x ∷ xs) = ground (arith, subset-take n xs, subset-weaken x (take n xs) xs)

elem-subset : (i : ℕ) (is js : List ℕ) → elem i is ≡ true → subset is js ≡ true → elem i js ≡ true
unfolding elem subset
elem-subset i [] js h k = cc
elem-subset i (x ∷ is) js h k = ground (arith, elem-subset i is js)

pub subset_trans :
    (xs ys zs : List ℕ) → subset xs ys ≡ true → subset ys zs ≡ true → subset xs zs ≡ true
unfolding subset
subset_trans [] ys zs h k = refl
subset_trans (x ∷ xs) ys zs h k = ground (arith, subset_trans xs ys zs, elem-subset x ys zs)
