-- ===== src/Config/Text.antt =====
-- The operations on text that voxcpm_runtime/config.py uses: strip, split, join, str and int. A text
-- is a list of code points. Which of them are white space is a parameter.
use open_bmb_vox_cpm2_infere.Common.{
  ℕ, zero, suc, ◌+◌, ◌-◌, ◌*◌, ◌/◌, ◌%◌, ◌==◌, ltb, leb, Bool, true, false, ◌&&◌, Option, none,
  some, List, [], ◌∷◌, ◌++◌, if◌then◌else◌,
}
use open_bmb_vox_cpm2_infere.Common.Lists.{length}

abbrev pub Text : Type 0
Text = List ℕ

abbrev pub is_blank : Text → Bool
is_blank [] = true
is_blank (c ∷ cs) = false

unfoldable pub same_text : Text → Text → Bool
same_text [] [] = true
same_text (a ∷ s) (b ∷ t) = a == b && same_text s t
same_text _ _ = false

unfoldable pub one_of : Text → List Text → Bool
unfolding same_text
one_of s [] = false
one_of s (t ∷ ts) = let rest = one_of s ts in if same_text s t then true else rest

module _ (is_space : ℕ → Bool) where
  unfoldable pub lstrip : Text → Text
  lstrip [] = []
  lstrip (c ∷ cs) = let rest = lstrip cs in if is_space c then rest else c ∷ cs

  unfoldable pub rstrip : Text → Text
  rstrip [] = []
  rstrip (c ∷ cs) = let rest = rstrip cs in if is_space c && is_blank rest then [] else c ∷ rest

  -- text.strip()
  unfoldable pub strip : Text → Text
  unfolding lstrip rstrip
  strip s = rstrip (lstrip s)

abbrev pub comma : ℕ
comma = 44

unfoldable pub prepend : ℕ → List Text → List Text
prepend c [] = (c ∷ []) ∷ []
prepend c (p ∷ ps) = (c ∷ p) ∷ ps

-- text.split(",")
unfoldable pub split : Text → List Text
unfolding prepend
split [] = [] ∷ []
split (c ∷ cs) = let rest = split cs in if c == comma then [] ∷ rest else prepend c rest

-- ",".join(parts)
unfoldable pub join : List Text → Text
join [] = []
join (p ∷ []) = p
join (p ∷ q ∷ ps) = p ++ comma ∷ join (q ∷ ps)

-- The decimal digits of a number, by at most `fuel` further divisions.
unfoldable pub digits : ℕ → ℕ → Text
digits zero n = (48 + n % 10) ∷ []
digits (suc fuel) n =
    let rest = digits fuel (n / 10) in
    if ltb n 10 then (48 + n) ∷ [] else rest ++ (48 + n % 10) ∷ []

-- str(n); `n` divisions are enough, since each makes the number smaller.
unfoldable pub text_of : ℕ → Text
unfolding digits
text_of n = digits n n

unfoldable pub all_digits : Text → Bool
all_digits [] = true
all_digits (c ∷ cs) = leb 48 c && (leb c 57 && all_digits cs)

-- re.compile(r"[0-9]+\Z", re.ASCII).fullmatch(text)
unfoldable pub is_integer : Text → Bool
unfolding all_digits
is_integer [] = false
is_integer (c ∷ cs) = all_digits (c ∷ cs)

unfoldable pub value_from : ℕ → Text → ℕ
value_from n [] = n
value_from n (c ∷ cs) = value_from (n * 10 + (c - 48)) cs

-- The number of digits above which int raises ValueError.
abbrev pub max_digits : ℕ
max_digits = 4300

-- int(text, 10), of a text of digits; none where it raises ValueError.
unfoldable pub int_of : Text → Option ℕ
unfolding value_from
int_of s = if leb (length s) max_digits then some (value_from 0 s) else none
