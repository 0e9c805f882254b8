-- ===== src/Common/Dict.antt =====
-- Python's `dict` with text keys, in insertion order. Keys are distinct, so `pop` may drop every
-- entry of its key.
use open_bmb_vox_cpm2_infere.Common.{
  ◌+◌, ◌≤◌, ◌≡◌, refl, ite, List, [], ◌∷◌, Option, none, some, String, String_discrete, arith, Bool,
  true, false,
}
use open_bmb_vox_cpm2_infere.Common.Lists.{length, All}

abbrev pub Dict : Type 0 → Type 0
Dict V = List (String × V)

-- `k in s`, for a set or a tuple of texts.
unfoldable pub member : String → List String → Bool
unfolding String_discrete
member k [] = false
member k (x ∷ xs) = ite (String_discrete x k) true (member k xs)

module _ {V : Type 0} where
  -- d.get(k)
  unfoldable pub lookup : String → Dict V → Option V
  unfolding String_discrete
  lookup k [] = none
  lookup k ((j, v) ∷ d) = ite (String_discrete j k) (some v) (lookup k d)

  -- d[k] = v
  unfoldable pub put : String → V → Dict V → Dict V
  unfolding String_discrete
  put k v [] = (k, v) ∷ []
  put k v ((j, w) ∷ d) = ite (String_discrete j k) ((k, v) ∷ d) ((j, w) ∷ put k v d)

  -- d.pop(k, None)
  unfoldable pub pop : String → Dict V → Dict V
  unfolding String_discrete
  pop k [] = []
  pop k ((j, w) ∷ d) = let rest = pop k d in ite (String_discrete j k) rest ((j, w) ∷ rest)

  pub lookup-put :
      (k j : String) (v : V) (d : Dict V)
      → lookup j (put k v d) ≡ ite (String_discrete k j) (some v) (lookup j d)
  unfolding lookup put
  lookup-put k j v [] = refl
  lookup-put k j v ((i, w) ∷ d) = ground (arith, lookup-put k j v d)

  pub lookup-pop :
      (k j : String) (d : Dict V) → lookup j (pop k d) ≡ ite (String_discrete k j) none (lookup j d)
  unfolding lookup pop
  lookup-pop k j [] = ground arith
  lookup-pop k j ((i, w) ∷ d) = ground (arith, lookup-pop k j d)

  pub length-put-le : (k : String) (v : V) (d : Dict V) → length (put k v d) ≤ length d + 1
  unfolding put
  length-put-le k v [] = omega arith
  length-put-le k v ((j, w) ∷ d) = ground (arith, length-put-le k v d)

  pub length-pop-le : (k : String) (d : Dict V) → length (pop k d) ≤ length d
  unfolding pop
  length-pop-le k [] = omega arith
  length-pop-le k ((j, w) ∷ d) = ground (arith, length-pop-le k d)

  ite-All :
      {Q : Type 0} (P : String × V → Type 0) (c : Dec Q) (xs ys : Dict V)
      → All P xs
      → All P ys
      → All P (ite c xs ys)
  ite-All P (yes q) xs ys h k = h
  ite-All P (no n) xs ys h k = k

  pub All-put :
      (P : String × V → Type 0) (k : String) (v : V) (d : Dict V)
      → All P d
      → P (k, v)
      → All P (put k v d)
  unfolding put
  All-put P k v [] h p = (p, tt)
  All-put P k v ((j, w) ∷ d) h p =
      ite-All P (String_discrete j k) ((k, v) ∷ d) ((j, w) ∷ put k v d) (p, h.1)
        (h.0, All-put P k v d h.1 p)

  pub All-pop : (P : String × V → Type 0) (k : String) (d : Dict V) → All P d → All P (pop k d)
  unfolding pop
  All-pop P k [] h = tt
  All-pop P k ((j, w) ∷ d) h =
      ite-All P (String_discrete j k) (pop k d) ((j, w) ∷ pop k d) (All-pop P k d h.1)
        (h.0, All-pop P k d h.1)
