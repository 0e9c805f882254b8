-- ===== src/Config/Decimal.antt =====
-- What str prints int reads back, and stripping and splitting leave it alone.
use open_bmb_vox_cpm2_infere.Common.{
  ℕ, zero, suc, ◌+◌, ◌-◌, ◌*◌, ◌/◌, ◌%◌, ◌≤◌, ◌≡◌, refl, ap, ◌∙◌, ltb, leb, Bool, true, false, ◌&&◌,
  none, some, [], ◌∷◌, ◌++◌, if◌then◌else◌, arith,
}
use open_bmb_vox_cpm2_infere.Common.Lists.{length, All}
use open_bmb_vox_cpm2_infere.Config.Text.{
  Text, is_blank, lstrip, rstrip, strip, digits, text_of, all_digits, is_integer, value_from,
  max_digits, int_of,
}

abbrev pub IsDigit : ℕ → Type 0
IsDigit c = (48 ≤ c) × (c ≤ 57)

abbrev pub IsNonempty : Text → Type 0
IsNonempty [] = ⊥
IsNonempty (c ∷ cs) = Unit {0}

pub All-append : (P : ℕ → Type 0) (xs ys : Text) → All P xs → All P ys → All P (xs ++ ys)
All-append P [] ys h k = k
All-append P (x ∷ xs) ys h k = (h.0, All-append P xs ys h.1 k)

value_from-append :
    (m : ℕ) (xs ys : Text) → value_from m (xs ++ ys) ≡ value_from (value_from m xs) ys
unfolding value_from
value_from-append m [] ys = refl
value_from-append m (x ∷ xs) ys = value_from-append (m * 10 + (x - 48)) xs ys

append-IsNonempty : (xs ys : Text) → IsNonempty ys → IsNonempty (xs ++ ys)
append-IsNonempty [] ys h = h
append-IsNonempty (x ∷ xs) ys h = tt

-- A number below ten, or one more digit.
choose_digits :
    (P : Text → Type 0) (b : Bool) (xs ys : Text)
    → (b ≡ true → P xs)
    → (b ≡ false → P ys)
    → P (if b then xs else ys)
choose_digits P true xs ys h k = h refl
choose_digits P false xs ys h k = k refl

value_from-digits : (fuel n : ℕ) → n ≤ fuel → value_from 0 (digits fuel n) ≡ n
unfolding digits value_from
value_from-digits zero n h = omega arith
value_from-digits (suc fuel) n h =
    choose_digits (λ s. value_from 0 s ≡ n) (ltb n 10) ((48 + n) ∷ [])
      (digits fuel (n / 10) ++ (48 + n % 10) ∷ []) (λ b. omega arith)
      (λ b.
        value_from-append 0 (digits fuel (n / 10)) ((48 + n % 10) ∷ [])
        ∙ ap (λ m. m * 10 + (48 + n % 10 - 48)) (value_from-digits fuel (n / 10) (grind arith))
        ∙ omega arith)

digits-IsDigit : (fuel n : ℕ) → All IsDigit (digits fuel n)
unfolding digits
digits-IsDigit zero n = ((omega arith, omega arith), tt)
digits-IsDigit (suc fuel) n =
    choose_digits (All IsDigit) (ltb n 10) ((48 + n) ∷ [])
      (digits fuel (n / 10) ++ (48 + n % 10) ∷ []) (λ b. ((omega arith, grind arith), tt))
      (λ b.
        All-append IsDigit (digits fuel (n / 10)) _ (digits-IsDigit fuel (n / 10))
          ((omega arith, omega arith), tt))

digits-IsNonempty : (fuel n : ℕ) → IsNonempty (digits fuel n)
unfolding digits
digits-IsNonempty zero n = tt
digits-IsNonempty (suc fuel) n =
    choose_digits IsNonempty (ltb n 10) ((48 + n) ∷ []) (digits fuel (n / 10) ++ (48 + n % 10) ∷ [])
      (λ b. tt) (λ b. append-IsNonempty (digits fuel (n / 10)) _ tt)

pub text_of-IsDigit : (n : ℕ) → All IsDigit (text_of n)
unfolding text_of
text_of-IsDigit n = digits-IsDigit n n

pub text_of-IsNonempty : (n : ℕ) → IsNonempty (text_of n)
unfolding text_of
text_of-IsNonempty n = digits-IsNonempty n n

leb_holds : (m n : ℕ) → m ≤ n → leb m n ≡ true
leb_holds m n h = ground arith

-- int reads what str printed, where the number of digits is within its limit.
pub int_of-text_of : (n : ℕ) → length (text_of n) ≤ max_digits → int_of (text_of n) ≡ some n
unfolding int_of text_of
int_of-text_of n h =
    ap (λ b. if b then some (value_from 0 (digits n n)) else none)
      (leb_holds (length (digits n n)) max_digits h)
    ∙ ap some (value_from-digits n n (omega arith))

all_digits_of : (s : Text) → All IsDigit s → all_digits s ≡ true
unfolding all_digits
all_digits_of [] h = refl
all_digits_of (c ∷ cs) h = ground (arith, all_digits_of cs h.1)

pub is_integer_of : (s : Text) → IsNonempty s → All IsDigit s → is_integer s ≡ true
unfolding is_integer
is_integer_of [] n h = absurd n
is_integer_of (c ∷ cs) n h = all_digits_of (c ∷ cs) h

-- A visible ASCII character.
abbrev pub IsVisible : ℕ → Type 0
IsVisible c = (33 ≤ c) × (c ≤ 126)

module _ (is_space : ℕ → Bool) (visible : (c : ℕ) → IsVisible c → is_space c ≡ false) where
  rstrip_visible : (s : Text) → All IsVisible s → rstrip is_space s ≡ s
  unfolding rstrip
  rstrip_visible [] h = refl
  rstrip_visible (c ∷ cs) h =
      ap (λ b. if b && is_blank (rstrip is_space cs) then [] else c ∷ rstrip is_space cs)
        (visible c h.0)
      ∙ ap (λ r. c ∷ r) (rstrip_visible cs h.1)

  lstrip_visible : (s : Text) → All IsVisible s → lstrip is_space s ≡ s
  unfolding lstrip
  lstrip_visible [] h = refl
  lstrip_visible (c ∷ cs) h = ap (λ b. if b then lstrip is_space cs else c ∷ cs) (visible c h.0)

  pub strip_visible : (s : Text) → All IsVisible s → strip is_space s ≡ s
  unfolding strip
  strip_visible s h = ap (rstrip is_space) (lstrip_visible s h) ∙ rstrip_visible s h
