-- ===== src/Common/Exec.antt =====
-- Methods that mutate an object and may raise. A raised exception keeps what was written before
-- it, so the state comes back beside the exception too.

pub data Outcome {ℓ κ} (E : Type ℓ) (A : Type κ) : Type (ℓ ⊔ κ) where
  ok : A → Outcome E A
  raised : E → Outcome E A

abbrev pub Exec : Type 0 → Type 0 → Type 0 → Type 0
Exec E S A = S → Outcome E A × S

abbrev pub unless_raised : {E A : Type 0} → Outcome E A → Outcome E (Unit {0}) → Outcome E A
unless_raised r (ok _) = r
unless_raised r (raised e) = raised e

module _ {E S : Type 0} where
  abbrev pub pure : {A : Type 0} → A → Exec E S A
  pure a s = (ok a, s)

  abbrev pub raise : {A : Type 0} → E → Exec E S A
  raise e s = (raised e, s)

  abbrev pub gets : {A : Type 0} → (S → A) → Exec E S A
  gets f s = (ok (f s), s)

  abbrev pub modify : (S → S) → Exec E S (Unit {0})
  modify f s = (ok tt, f s)

  abbrev pub continue : {A B : Type 0} → Outcome E A → (A → Exec E S B) → S → Outcome E B × S
  continue (ok a) f s = f a s
  continue (raised e) f s = (raised e, s)

  infixl 5 ◌>>=◌ ◌>>◌
  abbrev pub ◌>>=◌ : {A B : Type 0} → Exec E S A → (A → Exec E S B) → Exec E S B
  ◌>>=◌ m f s = let (r, s') = m s in continue r f s'

  abbrev pub ◌>>◌ : {A B : Type 0} → Exec E S A → Exec E S B → Exec E S B
  m >> n = m >>= λ _. n

  -- The outcome of `m` as a value, for `try: m except …`; what `m` wrote stays.
  abbrev pub attempt : {A : Type 0} → Exec E S A → Exec E S (Outcome E A)
  attempt m s = let (r, s') = m s in (ok r, s')

  -- `try: m finally: k`: the outcome of `m`, unless `k` raises.
  abbrev pub finally : {A : Type 0} → Exec E S A → Exec E S (Unit {0}) → Exec E S A
  finally m k s = let (r, s') = m s in let (q, s'') = k s' in (unless_raised r q, s'')
