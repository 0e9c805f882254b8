-- ===== src/Config/RoundTrip.antt =====
-- What voxcpm_runtime/config.py formats, it parses back.
use open_bmb_vox_cpm2_infere.Common.{
  ℕ, ◌≤◌, ◌≡◌, ◌≢◌, refl, ap, ◌∙◌, Bool, true, false, ◌||◌, Option, none, some, List, [], ◌∷◌, ◌++◌,
  if◌then◌else◌, arith,
}
use open_bmb_vox_cpm2_infere.Common.Lists.{length, All}
use open_bmb_vox_cpm2_infere.Common.Exec.{ok, raised}
use open_bmb_vox_cpm2_infere.Config.Text.{
  Text, is_blank, same_text, comma, prepend, split, join, text_of, is_integer, max_digits, int_of,
}
use open_bmb_vox_cpm2_infere.Config.Parse.{
  text, scalar, auto_text, format_workers, texts_of, format_gpu_devices, no_duplicates,
  positive_workers, workers_of_text, workers_of_trimmed, index_of, member_of_text, member_of,
  collected, without_duplicates, parse_workers, parse_member, parse_members, gpus_of_members,
  as_members, gpus_of_text, gpus_of_trimmed, parse_gpu_devices, as_text, workers_error,
  syntax_error, duplicates_error,
}
use open_bmb_vox_cpm2_infere.Config.Decimal.{
  IsDigit, IsNonempty, IsVisible, All-append, text_of-IsDigit, text_of-IsNonempty, int_of-text_of,
  is_integer_of, strip_visible,
}

-- A number that int reads back: its digits are within the limit.
abbrev pub IsShort : ℕ → Type 0
IsShort n = length (text_of n) ≤ max_digits

abbrev pub IsCount : Option ℕ → Type 0
IsCount none = Unit {0}
IsCount (some n) = (1 ≤ n) × IsShort n

abbrev StartsDigit : Text → Type 0
StartsDigit [] = ⊥
StartsDigit (c ∷ cs) = IsDigit c

not_auto : (s : Text) → StartsDigit s → (is_blank s || same_text s auto_text) ≡ false
unfolding same_text
not_auto [] h = absurd h
not_auto (c ∷ cs) h = ground arith

starts_digit : (s : Text) → IsNonempty s → All IsDigit s → StartsDigit s
starts_digit [] n h = absurd n
starts_digit (c ∷ cs) n h = h.0

digits-IsVisible : (s : Text) → All IsDigit s → All IsVisible s
digits-IsVisible [] h = tt
digits-IsVisible (c ∷ cs) h =
    ((omega (arith, h.0.0), omega (arith, h.0.1)), digits-IsVisible cs h.1)

auto-IsVisible : All IsVisible auto_text
auto-IsVisible = (
  (omega arith, omega arith),
  ((omega arith, omega arith), ((omega arith, omega arith), ((omega arith, omega arith), tt))),
)

workers_of_text-text_of : (n : ℕ) → 1 ≤ n → IsShort n → workers_of_text (text_of n) ≡ ok (some n)
unfolding workers_of_text positive_workers
workers_of_text-text_of n p h =
    ap
      (λ b.
        if b
        then ok none
        else if is_integer (text_of n)
        then positive_workers (int_of (text_of n))
        else raised workers_error)
      (not_auto (text_of n) (starts_digit (text_of n) (text_of-IsNonempty n) (text_of-IsDigit n)))
    ∙ ap (λ b. if b then positive_workers (int_of (text_of n)) else raised workers_error)
        (is_integer_of (text_of n) (text_of-IsNonempty n) (text_of-IsDigit n))
    ∙ ap positive_workers (int_of-text_of n h)
    ∙ ground arith

-- The pieces of a text are read one by one.
split-cons : (c : ℕ) (cs : Text) → c ≢ comma → split (c ∷ cs) ≡ prepend c (split cs)
unfolding split
split-cons c cs n = ground arith

split_piece : (s rest : Text) → All IsDigit s → split (s ++ comma ∷ rest) ≡ s ∷ split rest
unfolding split prepend
split_piece [] rest h = refl
split_piece (c ∷ cs) rest h =
    split-cons c (cs ++ comma ∷ rest) (λ e. omega (arith, h.0.0, h.0.1, e))
    ∙ ap (prepend c) (split_piece cs rest h.1)

split_last : (s : Text) → All IsDigit s → split s ≡ s ∷ []
unfolding split prepend
split_last [] h = refl
split_last (c ∷ cs) h =
    split-cons c cs (λ e. omega (arith, h.0.0, h.0.1, e)) ∙ ap (prepend c) (split_last cs h.1)

split-join : (n : ℕ) (ns : List ℕ) → split (join (texts_of (n ∷ ns))) ≡ texts_of (n ∷ ns)
unfolding join texts_of
split-join n [] = split_last (text_of n) (text_of-IsDigit n)
split-join n (m ∷ ms) =
    split_piece (text_of n) (join (texts_of (m ∷ ms))) (text_of-IsDigit n)
    ∙ ap (λ r. text_of n ∷ r) (split-join m ms)

join-IsVisible : (n : ℕ) (ns : List ℕ) → All IsVisible (join (texts_of (n ∷ ns)))
unfolding join texts_of
join-IsVisible n [] = digits-IsVisible (text_of n) (text_of-IsDigit n)
join-IsVisible n (m ∷ ms) =
    All-append IsVisible (text_of n) _ (digits-IsVisible (text_of n) (text_of-IsDigit n))
      ((omega arith, omega arith), join-IsVisible m ms)

starts_append : (s t : Text) → StartsDigit s → StartsDigit (s ++ t)
starts_append [] t h = absurd h
starts_append (c ∷ cs) t h = h

join_starts : (n : ℕ) (ns : List ℕ) → StartsDigit (join (texts_of (n ∷ ns)))
unfolding join texts_of
join_starts n [] = starts_digit (text_of n) (text_of-IsNonempty n) (text_of-IsDigit n)
join_starts n (m ∷ ms) =
    starts_append (text_of n) _
      (starts_digit (text_of n) (text_of-IsNonempty n) (text_of-IsDigit n))

auto_workers : workers_of_text auto_text ≡ ok none
unfolding workers_of_text same_text
auto_workers = refl

auto_gpus : (is_space : ℕ → Bool) → gpus_of_text is_space auto_text ≡ ok none
unfolding gpus_of_text same_text
auto_gpus is_space = refl

-- A list of GPU indices that format_gpu_devices and parse_gpu_devices agree on.
abbrev pub IsSelection : Option (List ℕ) → Type 0
IsSelection none = Unit {0}
IsSelection (some []) = ⊥
IsSelection (some (n ∷ ns)) = All IsShort (n ∷ ns) × (no_duplicates (n ∷ ns) ≡ true)

module _ (is_space : ℕ → Bool) (visible : (c : ℕ) → IsVisible c → is_space c ≡ false) where
  -- Where no visible ASCII character is white space: parse_workers reads back what format_workers
  -- prints, "auto" or a positive number whose digits are within the limit of int.
  pub parse_workers-format_workers :
      (w : Option ℕ) → IsCount w → parse_workers is_space (text (format_workers w)) ≡ ok w
  unfolding parse_workers workers_of_trimmed format_workers
  parse_workers-format_workers none h =
      ap workers_of_text (strip_visible is_space visible auto_text auto-IsVisible) ∙ auto_workers
  parse_workers-format_workers (some n) h =
      ap workers_of_text (
        strip_visible is_space visible (text_of n)
          (digits-IsVisible (text_of n) (text_of-IsDigit n)))
      ∙ workers_of_text-text_of n h.0 h.1

  parse_member-text_of : (n : ℕ) → IsShort n → parse_member is_space (text (text_of n)) ≡ ok n
  unfolding parse_member member_of member_of_text as_text index_of
  parse_member-text_of n h =
      ap member_of_text (
        strip_visible is_space visible (text_of n)
          (digits-IsVisible (text_of n) (text_of-IsDigit n)))
      ∙ ap (λ b. if b then index_of (int_of (text_of n)) else raised syntax_error)
          (is_integer_of (text_of n) (text_of-IsNonempty n) (text_of-IsDigit n))
      ∙ ap index_of (int_of-text_of n h)

  parse_members-texts_of :
      (ns : List ℕ) → All IsShort ns → parse_members is_space (as_members (texts_of ns)) ≡ ok ns
  unfolding parse_members as_members texts_of collected
  parse_members-texts_of [] h = refl
  parse_members-texts_of (n ∷ ns) h =
      ap (λ o. collected o (parse_members is_space (as_members (texts_of ns))))
        (parse_member-text_of n h.0)
      ∙ ap (collected (ok n)) (parse_members-texts_of ns h.1)

  gpus_of_text-join :
      (n : ℕ) (ns : List ℕ)
      → All IsShort (n ∷ ns)
      → no_duplicates (n ∷ ns) ≡ true
      → gpus_of_text is_space (join (texts_of (n ∷ ns))) ≡ ok (some (n ∷ ns))
  unfolding gpus_of_text gpus_of_members without_duplicates
  gpus_of_text-join n ns h d =
      ap
        (λ b.
          if b
          then ok none
          else gpus_of_members is_space (as_members (split (join (texts_of (n ∷ ns))))))
        (not_auto (join (texts_of (n ∷ ns))) (join_starts n ns))
      ∙ ap (λ ps. gpus_of_members is_space (as_members ps)) (split-join n ns)
      ∙ unfold texts_of as_members in
        ap without_duplicates (parse_members-texts_of (n ∷ ns) h)
        ∙ ap (λ b. if b then ok (some (n ∷ ns)) else raised duplicates_error) d

  -- Where no visible ASCII character is white space: parse_gpu_devices reads back what
  -- format_gpu_devices prints, "auto" or a list of distinct indices that is not empty, with digits
  -- within the limit of int.
  pub parse_gpu_devices-format_gpu_devices :
      (g : Option (List ℕ))
      → IsSelection g
      → parse_gpu_devices is_space (scalar (text (format_gpu_devices g))) ≡ ok g
  unfolding parse_gpu_devices gpus_of_trimmed format_gpu_devices as_text
  parse_gpu_devices-format_gpu_devices none h =
      ap (gpus_of_text is_space) (strip_visible is_space visible auto_text auto-IsVisible)
      ∙ auto_gpus is_space
  parse_gpu_devices-format_gpu_devices (some []) h = absurd h
  parse_gpu_devices-format_gpu_devices (some (n ∷ ns)) h =
      ap (gpus_of_text is_space)
        (strip_visible is_space visible (join (texts_of (n ∷ ns))) (join-IsVisible n ns))
      ∙ gpus_of_text-join n ns h.0 h.1
