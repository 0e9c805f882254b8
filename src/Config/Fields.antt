-- ===== src/Config/Fields.antt =====
-- The parsers of voxcpm_runtime/config.py that read a variable from a mapping, and those of booleans
-- and profiles.
use open_bmb_vox_cpm2_infere.Common.{
  ℕ, ◌==◌, ltb, Bool, true, false, ◌&&◌, Option, none, some, String, [], ◌∷◌, if◌then◌else◌,
}
use open_bmb_vox_cpm2_infere.Common.Dict.{Dict, lookup}
use open_bmb_vox_cpm2_infere.Common.Exec.{ok, raised}
use open_bmb_vox_cpm2_infere.Topology.{ExecutionProfile, auto, cpu, cuda_single, cuda_replica}
use open_bmb_vox_cpm2_infere.Config.Text.{
  Text, is_blank, same_text, one_of, strip, is_integer, int_of,
}
use open_bmb_vox_cpm2_infere.Config.Parse.{
  Scalar, null, flag, configuration_error, value_error, Parsed, as_text, true_values, false_values,
}

-- _mapping_value: a missing key and None are unset
unfoldable pub set_value : Option Scalar → Option Scalar
set_value (some null) = none
set_value o = o

unfoldable pub mapping_value : Dict Scalar → String → Option Scalar
unfolding set_value
mapping_value mapping key = set_value (lookup key mapping)

-- The end of _integer, on what int returned.
unfoldable pub check_positive : String → Bool → Option ℕ → Parsed (Option ℕ)
check_positive key positive none =
    raised (configuration_error key "expected a non-negative decimal integer")
check_positive key positive (some n) =
    if positive && n == 0
    then raised (configuration_error key "expected a positive integer")
    else ok (some n)

unfoldable pub integer_of_text : String → Option ℕ → Bool → Text → Parsed (Option ℕ)
unfolding check_positive
integer_of_text key default positive s =
    if is_blank s
    then ok default
    else if is_integer s
    then check_positive key positive (int_of s)
    else raised (configuration_error key "expected a non-negative decimal integer")

unfoldable pub check_port : Parsed (Option ℕ) → Parsed ℕ
check_port (raised e) = raised e
check_port (ok none) = raised value_error
check_port (ok (some n)) =
    if ltb 65535 n
    then raised (configuration_error "VOXCPM_PORT" "expected a value from 1 through 65535")
    else ok n

-- The end of _boolean, on the folded text.
unfoldable pub boolean_of_text : String → Text → Parsed (Option Bool)
unfolding one_of
boolean_of_text key s =
    if one_of s true_values
    then ok (some true)
    else if one_of s false_values
    then ok (some false)
    else raised (configuration_error key "expected one of 1, true, yes, on, 0, false, no, off")

-- The end of parse_bool, on the folded text.
unfoldable pub bool_of_text : Text → Parsed (Option Bool)
unfolding one_of
bool_of_text s =
    if one_of s true_values
    then ok (some true)
    else if one_of s false_values
    then ok (some false)
    else raised (configuration_error "value" "expected a boolean")

-- The keys of _PROFILE_ALIASES: "auto", "cpu", "cuda-single", "gpu", "cuda-replica" and "multi-gpu".
unfoldable pub profile_named : Text → Option ExecutionProfile
unfolding same_text
profile_named s =
    if same_text s (97 ∷ 117 ∷ 116 ∷ 111 ∷ [])
    then some auto
    else if same_text s (99 ∷ 112 ∷ 117 ∷ [])
    then some cpu
    else if same_text s (99 ∷ 117 ∷ 100 ∷ 97 ∷ 45 ∷ 115 ∷ 105 ∷ 110 ∷ 103 ∷ 108 ∷ 101 ∷ [])
    then some cuda_single
    else if same_text s (103 ∷ 112 ∷ 117 ∷ [])
    then some cuda_single
    else if same_text s (99 ∷ 117 ∷ 100 ∷ 97 ∷ 45 ∷ 114 ∷ 101 ∷ 112 ∷ 108 ∷ 105 ∷ 99 ∷ 97 ∷ [])
    then some cuda_replica
    else if same_text s (109 ∷ 117 ∷ 108 ∷ 116 ∷ 105 ∷ 45 ∷ 103 ∷ 112 ∷ 117 ∷ [])
    then some cuda_replica
    else none

unfoldable pub known_profile : Option ExecutionProfile → Parsed (Option ExecutionProfile)
known_profile none = raised (
    configuration_error "VOXCPM_PROFILE"
      "expected one of: auto, cpu, cuda-single, cuda-replica, gpu, multi-gpu")
known_profile (some p) = ok (some p)

module _ (is_space : ℕ → Bool) where
  unfoldable pub integer_of_trimmed : String → Option ℕ → Bool → Option Text → Parsed (Option ℕ)
  unfolding integer_of_text strip
  integer_of_trimmed key default positive none = ok default
  integer_of_trimmed key default positive (some s) =
      integer_of_text key default positive (strip is_space s)

  unfoldable pub integer_of : String → Option ℕ → Bool → Option Scalar → Parsed (Option ℕ)
  unfolding integer_of_trimmed as_text
  integer_of key default positive none = ok default
  integer_of key default positive (some (flag b)) =
      raised (configuration_error key "expected a decimal integer")
  integer_of key default positive (some s) = integer_of_trimmed key default positive (as_text s)

  -- _integer
  unfoldable pub parse_integer : Dict Scalar → String → Option ℕ → Bool → Parsed (Option ℕ)
  unfolding integer_of mapping_value
  parse_integer mapping key default positive =
      integer_of key default positive (mapping_value mapping key)

  -- _port; its assertion holds, since the default is a number
  unfoldable pub parse_port : Dict Scalar → Parsed ℕ
  unfolding check_port parse_integer
  parse_port mapping = check_port (parse_integer mapping "VOXCPM_PORT" (some 8090) true)

  module _ (casefold : Text → Text) where
    unfoldable pub bool_of_trimmed : Option Bool → Option Text → Parsed (Option Bool)
    unfolding bool_of_text strip
    bool_of_trimmed default none = ok default
    bool_of_trimmed default (some s) =
        if is_blank (strip is_space s)
        then ok default
        else bool_of_text (casefold (strip is_space s))

    -- parse_bool
    unfoldable pub parse_bool : Scalar → Option Bool → Parsed (Option Bool)
    unfolding bool_of_trimmed as_text
    parse_bool null default = ok default
    parse_bool (flag b) default = ok (some b)
    parse_bool s default = bool_of_trimmed default (as_text s)

    unfoldable pub boolean_of_trimmed : String → Bool → Option Text → Parsed (Option Bool)
    unfolding boolean_of_text strip
    boolean_of_trimmed key default none = ok (some default)
    boolean_of_trimmed key default (some s) =
        if is_blank (strip is_space s)
        then ok (some default)
        else boolean_of_text key (casefold (strip is_space s))

    unfoldable pub boolean_of : String → Bool → Option Scalar → Parsed (Option Bool)
    unfolding boolean_of_trimmed as_text
    boolean_of key default none = ok (some default)
    boolean_of key default (some (flag b)) = ok (some b)
    boolean_of key default (some s) = boolean_of_trimmed key default (as_text s)

    -- _boolean
    unfoldable pub parse_boolean : Dict Scalar → String → Bool → Parsed (Option Bool)
    unfolding boolean_of mapping_value
    parse_boolean mapping key default = boolean_of key default (mapping_value mapping key)

    unfoldable pub profile_of_trimmed : Option Text → Parsed (Option ExecutionProfile)
    unfolding known_profile profile_named strip
    profile_of_trimmed none = ok none
    profile_of_trimmed (some s) =
        if is_blank (strip is_space s)
        then ok none
        else known_profile (profile_named (casefold (strip is_space s)))

    -- parse_execution_profile, of a value that is not a profile already
    unfoldable pub parse_execution_profile : Scalar → Parsed (Option ExecutionProfile)
    unfolding profile_of_trimmed as_text
    parse_execution_profile null = ok none
    parse_execution_profile s = profile_of_trimmed (as_text s)
