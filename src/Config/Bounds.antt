-- ===== src/Config/Bounds.antt =====
-- What the parsers of voxcpm_runtime/config.py accept as a port, and that its two parsers of Booleans
-- agree.
use open_bmb_vox_cpm2_infere.Common.{
  ℕ, ◌≤◌, ◌≡◌, refl, subst, sym, Bool, true, false, Option, none, some, String, if◌then◌else◌,
  arith,
}
use open_bmb_vox_cpm2_infere.Common.Dict.{Dict, lookup}
use open_bmb_vox_cpm2_infere.Common.Exec.{ok, raised}
use open_bmb_vox_cpm2_infere.Config.Text.{Text, is_blank, one_of, strip, int_of}
use open_bmb_vox_cpm2_infere.Config.Parse.{
  Scalar, null, flag, integer, negative, text, other, Parsed, as_text, true_values, false_values,
}
use open_bmb_vox_cpm2_infere.Config.Fields.{
  set_value, mapping_value, check_positive, integer_of_text, integer_of_trimmed, integer_of,
  parse_integer, check_port, parse_port, boolean_of_text, bool_of_text, boolean_of_trimmed,
  bool_of_trimmed, parse_bool, boolean_of, parse_boolean,
}

module _ (is_space : ℕ → Bool) where
  check_positive-bounds :
      (key : String) (o : Option ℕ) (n : ℕ) → check_positive key true o ≡ ok (some n) → 1 ≤ n
  unfolding check_positive
  check_positive-bounds key none n h = cc
  check_positive-bounds key (some m) n h = ground arith

  integer_of_text-bounds :
      (key : String) (d : ℕ) (s : Text) (n : ℕ)
      → 1 ≤ d
      → integer_of_text key (some d) true s ≡ ok (some n)
      → 1 ≤ n
  unfolding integer_of_text
  integer_of_text-bounds key d s n p h = ground (arith, check_positive-bounds key (int_of s) n)

  integer_of_trimmed-bounds :
      (key : String) (d : ℕ) (o : Option Text) (n : ℕ)
      → 1 ≤ d
      → integer_of_trimmed is_space key (some d) true o ≡ ok (some n)
      → 1 ≤ n
  unfolding integer_of_trimmed
  integer_of_trimmed-bounds key d none n p h = ground arith
  integer_of_trimmed-bounds key d (some s) n p h =
      integer_of_text-bounds key d (strip is_space s) n p h

  integer_of-bounds :
      (key : String) (d : ℕ) (o : Option Scalar) (n : ℕ)
      → 1 ≤ d
      → integer_of is_space key (some d) true o ≡ ok (some n)
      → 1 ≤ n
  unfolding integer_of
  integer_of-bounds key d none n p h = ground arith
  integer_of-bounds key d (some null) n p h = integer_of_trimmed-bounds key d (as_text null) n p h
  integer_of-bounds key d (some (flag b)) n p h = cc
  integer_of-bounds key d (some (integer m)) n p h =
      integer_of_trimmed-bounds key d (as_text (integer m)) n p h
  integer_of-bounds key d (some (negative m)) n p h =
      integer_of_trimmed-bounds key d (as_text (negative m)) n p h
  integer_of-bounds key d (some (text s)) n p h =
      integer_of_trimmed-bounds key d (as_text (text s)) n p h
  integer_of-bounds key d (some (other s)) n p h =
      integer_of_trimmed-bounds key d (as_text (other s)) n p h

  check_port-bounds :
      (o : Parsed (Option ℕ)) (n : ℕ)
      → ((m : ℕ) → o ≡ ok (some m) → 1 ≤ m)
      → check_port o ≡ ok n
      → (1 ≤ n) × (n ≤ 65535)
  unfolding check_port
  check_port-bounds (raised e) n p h = cc
  check_port-bounds (ok none) n p h = cc
  check_port-bounds (ok (some m)) n p h = let q = p m refl in (ground arith, ground arith)

  -- A port that _port returns, from whatever mapping, is from 1 through 65535.
  pub parse_port-bounds :
      (mapping : Dict Scalar) (n : ℕ) → parse_port is_space mapping ≡ ok n → (1 ≤ n) × (n ≤ 65535)
  unfolding parse_port parse_integer
  parse_port-bounds mapping n h =
      check_port-bounds (parse_integer is_space mapping "VOXCPM_PORT" (some 8090) true) n
        (λ m e.
          integer_of-bounds "VOXCPM_PORT" 8090 (mapping_value mapping "VOXCPM_PORT") m (omega arith)
            e)
        h

-- Two errors may differ, and nothing else.
abbrev pub Agree : Parsed (Option Bool) → Parsed (Option Bool) → Type 0
Agree (ok a) (ok b) = a ≡ b
Agree (raised e) (raised f) = Unit {0}
Agree _ _ = ⊥

if_Agree :
    (b : Bool) (x y z : Parsed (Option Bool))
    → Agree x x
    → Agree y z
    → Agree (if b then x else y) (if b then x else z)
if_Agree true x y z h k = h
if_Agree false x y z h k = k

boolean_of_text-Agree : (key : String) (s : Text) → Agree (boolean_of_text key s) (bool_of_text s)
unfolding boolean_of_text bool_of_text
boolean_of_text-Agree key s =
    if_Agree (one_of s true_values) (ok (some true)) _ _ refl
      (if_Agree (one_of s false_values) (ok (some false)) _ _ refl tt)

module _ (is_space : ℕ → Bool) (casefold : Text → Text) where
  boolean_of_trimmed-Agree :
      (key : String) (d : Bool) (o : Option Text)
      → Agree
          (boolean_of_trimmed is_space casefold key d o)
          (bool_of_trimmed is_space casefold (some d) o)
  unfolding boolean_of_trimmed bool_of_trimmed
  boolean_of_trimmed-Agree key d none = refl
  boolean_of_trimmed-Agree key d (some s) =
      if_Agree (is_blank (strip is_space s)) (ok (some d)) _ _ refl
        (boolean_of_text-Agree key (casefold (strip is_space s)))

  boolean_of-Agree :
      (key : String) (d : Bool) (s : Scalar)
      → Agree
          (boolean_of is_space casefold key d (set_value (some s)))
          (parse_bool is_space casefold s (some d))
  unfolding boolean_of parse_bool set_value
  boolean_of-Agree key d null = refl
  boolean_of-Agree key d (flag b) = refl
  boolean_of-Agree key d (integer n) = boolean_of_trimmed-Agree key d (as_text (integer n))
  boolean_of-Agree key d (negative n) = boolean_of_trimmed-Agree key d (as_text (negative n))
  boolean_of-Agree key d (text t) = boolean_of_trimmed-Agree key d (as_text (text t))
  boolean_of-Agree key d (other t) = boolean_of_trimmed-Agree key d (as_text (other t))

  -- For a key that the mapping has: _boolean and parse_bool of the value, with the same default, both
  -- return the same Boolean or both raise.
  pub parse_boolean-Agree :
      (mapping : Dict Scalar) (key : String) (d : Bool) (s : Scalar)
      → lookup key mapping ≡ some s
      → Agree
          (parse_boolean is_space casefold mapping key d)
          (parse_bool is_space casefold s (some d))
  unfolding parse_boolean mapping_value
  parse_boolean-Agree mapping key d s h =
      subst
        (λ o.
          Agree (boolean_of is_space casefold key d (set_value o))
            (parse_bool is_space casefold s (some d)))
        (sym h) (boolean_of-Agree key d s)
