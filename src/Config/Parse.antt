-- ===== src/Config/Parse.antt =====
-- The parsers of voxcpm_runtime/config.py. White space and casefold are parameters.
use open_bmb_vox_cpm2_infere.Common.{
  ℕ, ◌==◌, Bool, true, false, ◌||◌, Option, none, some, String, List, [], ◌∷◌, if◌then◌else◌,
}
use open_bmb_vox_cpm2_infere.Common.Exec.{Outcome, ok, raised}
use open_bmb_vox_cpm2_infere.Config.Text.{
  Text, is_blank, same_text, strip, split, join, text_of, is_integer, int_of,
}

-- A value that is no sequence: None, a bool, an int by its sign, a str, or an object by its str().
pub data Scalar : Type 0 where
  null : Scalar
  flag : Bool → Scalar
  integer negative : ℕ → Scalar
  text other : Text → Scalar

pub data Value : Type 0 where
  scalar : Scalar → Value
  sequence : List Scalar → Value

-- ConfigurationError with its variable and its reason, or a plain ValueError of int.
pub data ConfigError : Type 0 where
  configuration_error : String → String → ConfigError
  value_error : ConfigError

abbrev pub Parsed : Type 0 → Type 0
Parsed A = Outcome ConfigError A

-- _text
unfoldable pub as_text : Scalar → Option Text
unfolding text_of
as_text null = none
as_text (flag true) = some (49 ∷ [])
as_text (flag false) = some (48 ∷ [])
as_text (integer n) = some (text_of n)
as_text (negative n) = some (45 ∷ text_of n)
as_text (text s) = some s
as_text (other s) = some s

-- "auto", and the texts of _TRUE_VALUES and _FALSE_VALUES
abbrev pub auto_text : Text
auto_text = 97 ∷ 117 ∷ 116 ∷ 111 ∷ []

abbrev pub true_values : List Text
true_values =
    (49 ∷ []) ∷ (116 ∷ 114 ∷ 117 ∷ 101 ∷ []) ∷ (121 ∷ 101 ∷ 115 ∷ []) ∷ (111 ∷ 110 ∷ []) ∷ []

abbrev pub false_values : List Text
false_values =
    (48 ∷ []) ∷ (102 ∷ 97 ∷ 108 ∷ 115 ∷ 101 ∷ []) ∷ (110 ∷ 111 ∷ []) ∷ (111 ∷ 102 ∷ 102 ∷ []) ∷ []

-- format_workers, RuntimeConfig.workers_spec
unfoldable pub format_workers : Option ℕ → Text
unfolding text_of
format_workers none = auto_text
format_workers (some n) = text_of n

unfoldable pub texts_of : List ℕ → List Text
unfolding text_of
texts_of [] = []
texts_of (n ∷ ns) = text_of n ∷ texts_of ns

-- format_gpu_devices, RuntimeConfig.gpu_devices_spec
unfoldable pub format_gpu_devices : Option (List ℕ) → Text
unfolding texts_of join
format_gpu_devices none = auto_text
format_gpu_devices (some ns) = join (texts_of ns)

unfoldable pub contains : ℕ → List ℕ → Bool
contains n [] = false
contains n (m ∷ ms) = let rest = contains n ms in if n == m then true else rest

-- len(set(parsed)) == len(parsed)
unfoldable pub no_duplicates : List ℕ → Bool
unfolding contains
no_duplicates [] = true
no_duplicates (n ∷ ns) = let rest = no_duplicates ns in if contains n ns then false else rest

unfoldable pub workers_error : ConfigError
workers_error = configuration_error "VOXCPM_WORKERS" "expected auto or a positive integer"

-- The end of parse_workers, on what int returned.
unfoldable pub positive_workers : Option ℕ → Parsed (Option ℕ)
unfolding workers_error
positive_workers none = raised value_error
positive_workers (some n) = if n == 0 then raised workers_error else ok (some n)

unfoldable pub workers_of_text : Text → Parsed (Option ℕ)
unfolding positive_workers workers_error
workers_of_text s =
    if is_blank s || same_text s auto_text
    then ok none
    else if is_integer s
    then positive_workers (int_of s)
    else raised workers_error

unfoldable pub syntax_error : ConfigError
syntax_error =
    configuration_error "VOXCPM_GPU_DEVICES"
      "expected auto or comma-separated non-negative integer indices"

unfoldable pub index_of : Option ℕ → Parsed ℕ
index_of none = raised value_error
index_of (some n) = ok n

unfoldable pub member_of_text : Text → Parsed ℕ
unfolding syntax_error index_of
member_of_text s = if is_integer s then index_of (int_of s) else raised syntax_error

unfoldable pub collected : Parsed ℕ → Parsed (List ℕ) → Parsed (List ℕ)
collected (ok n) (ok ns) = ok (n ∷ ns)
collected (ok n) (raised e) = raised e
collected (raised e) rest = raised e

unfoldable pub duplicates_error : ConfigError
duplicates_error = configuration_error "VOXCPM_GPU_DEVICES" "duplicate GPU indices are not allowed"

unfoldable pub without_duplicates : Parsed (List ℕ) → Parsed (Option (List ℕ))
unfolding duplicates_error
without_duplicates (raised e) = raised e
without_duplicates (ok ns) = if no_duplicates ns then ok (some ns) else raised duplicates_error

-- The members of a split text.
unfoldable pub as_members : List Text → List Scalar
as_members [] = []
as_members (t ∷ ts) = text t ∷ as_members ts

module _ (is_space : ℕ → Bool) where
  unfoldable pub workers_of_trimmed : Option Text → Parsed (Option ℕ)
  unfolding workers_of_text strip
  workers_of_trimmed none = ok none
  workers_of_trimmed (some s) = workers_of_text (strip is_space s)

  -- parse_workers
  unfoldable pub parse_workers : Scalar → Parsed (Option ℕ)
  unfolding workers_of_trimmed workers_error
  parse_workers null = ok none
  parse_workers (flag b) = raised workers_error
  parse_workers (integer n) = if n == 0 then raised workers_error else ok (some n)
  parse_workers (negative n) = raised workers_error
  parse_workers (text s) = workers_of_trimmed (some s)
  parse_workers (other s) = workers_of_trimmed (some s)

  unfoldable pub member_of : Option Text → Parsed ℕ
  unfolding member_of_text strip
  member_of none = raised syntax_error
  member_of (some s) = member_of_text (strip is_space s)

  -- One round of the loop of parse_gpu_devices.
  unfoldable pub parse_member : Scalar → Parsed ℕ
  unfolding member_of as_text
  parse_member (flag b) =
      raised (configuration_error "VOXCPM_GPU_DEVICES" "GPU indices must be non-negative integers")
  parse_member s = member_of (as_text s)

  unfoldable pub parse_members : List Scalar → Parsed (List ℕ)
  unfolding parse_member collected
  parse_members [] = ok []
  parse_members (s ∷ ss) = collected (parse_member s) (parse_members ss)

  unfoldable pub gpus_of_members : List Scalar → Parsed (Option (List ℕ))
  unfolding parse_members without_duplicates
  gpus_of_members [] =
      raised
        (configuration_error "VOXCPM_GPU_DEVICES" "expected auto or a comma-separated GPU list")
  gpus_of_members (s ∷ ss) = without_duplicates (parse_members (s ∷ ss))

  unfoldable pub gpus_of_text : Text → Parsed (Option (List ℕ))
  unfolding gpus_of_members as_members split
  gpus_of_text s =
      if is_blank s || same_text s auto_text
      then ok none
      else gpus_of_members (as_members (split s))

  unfoldable pub gpus_of_trimmed : Option Text → Parsed (Option (List ℕ))
  unfolding gpus_of_text strip
  gpus_of_trimmed none = ok none
  gpus_of_trimmed (some s) = gpus_of_text (strip is_space s)

  -- parse_gpu_devices
  unfoldable pub parse_gpu_devices : Value → Parsed (Option (List ℕ))
  unfolding gpus_of_trimmed as_text
  parse_gpu_devices (scalar null) = ok none
  parse_gpu_devices (scalar s) = gpus_of_trimmed (as_text s)
  parse_gpu_devices (sequence ss) = gpus_of_members ss
