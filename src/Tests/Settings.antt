-- ===== src/Tests/Settings.antt =====
-- The theorems about the parsers of voxcpm_runtime/config.py, with the white space of ASCII.
use open_bmb_vox_cpm2_infere.Common.{
  ℕ, ◌≤◌, ◌≡◌, ◌≢◌, refl, ◌==◌, leb, Bool, true, false, ◌&&◌, ◌||◌, some, List, [], ◌∷◌, arith,
}
use open_bmb_vox_cpm2_infere.Common.Exec.{ok}
use open_bmb_vox_cpm2_infere.Config.Text.{same_text, text_of, digits, is_integer, int_of}
use open_bmb_vox_cpm2_infere.Config.Parse.{
  Scalar, Value, scalar, text, format_workers, format_gpu_devices, parse_workers, parse_gpu_devices,
  no_duplicates, contains,
}
use open_bmb_vox_cpm2_infere.Config.Decimal.{IsVisible}
use open_bmb_vox_cpm2_infere.Common.Dict.{Dict, lookup}
use open_bmb_vox_cpm2_infere.Config.Fields.{parse_port, parse_bool, parse_boolean}
use open_bmb_vox_cpm2_infere.Config.Distinct.{IsDistinct, parse_gpu_devices-IsDistinct}
use open_bmb_vox_cpm2_infere.Config.Bounds.{Agree, parse_port-bounds, parse_boolean-Agree}
use open_bmb_vox_cpm2_infere.Config.RoundTrip.{
  IsCount, IsSelection, parse_workers-format_workers, parse_gpu_devices-format_gpu_devices,
}

abbrev is_space : ℕ → Bool
is_space c = c == 32 || (leb 9 c && leb c 13)

visible : (c : ℕ) → IsVisible c → is_space c ≡ false
visible c h = ground arith

dozen-IsCount : IsCount (some 12)
unfolding text_of digits
dozen-IsCount = (omega arith, omega arith)

parse_workers-format_workers_example :
    parse_workers is_space (text (format_workers (some 12))) ≡ ok (some 12)
parse_workers-format_workers_example =
    parse_workers-format_workers is_space visible (some 12) dozen-IsCount

pair-IsSelection : IsSelection (some (0 ∷ 10 ∷ []))
unfolding text_of digits no_duplicates contains
pair-IsSelection = ((omega arith, (omega arith, tt)), refl)

parse_gpu_devices-format_gpu_devices_example :
    parse_gpu_devices is_space (scalar (text (format_gpu_devices (some (0 ∷ 10 ∷ [])))))
    ≡ ok (some (0 ∷ 10 ∷ []))
parse_gpu_devices-format_gpu_devices_example =
    parse_gpu_devices-format_gpu_devices is_space visible (some (0 ∷ 10 ∷ [])) pair-IsSelection

-- " 1, 0"
abbrev typed : Value
typed = scalar (text (32 ∷ 49 ∷ 44 ∷ 32 ∷ 48 ∷ []))

typed_parses : parse_gpu_devices is_space typed ≡ ok (some (1 ∷ 0 ∷ []))
unfolding parse_gpu_devices same_text is_integer int_of no_duplicates
typed_parses = refl

abbrev pair : List ℕ
pair = 1 ∷ 0 ∷ []

parse_gpu_devices-IsDistinct_example : (pair ≢ []) × IsDistinct pair
parse_gpu_devices-IsDistinct_example = parse_gpu_devices-IsDistinct is_space typed pair typed_parses

-- VOXCPM_PORT=" 8080"
abbrev environment : Dict Scalar
environment =
    ("VOXCPM_PORT", text (32 ∷ 56 ∷ 48 ∷ 56 ∷ 48 ∷ []))
    ∷ ("VOXCPM_OFFLINE", text (110 ∷ 111 ∷ []))
    ∷ []

port_parses : parse_port is_space environment ≡ ok 8080
unfolding parse_port is_integer int_of lookup
port_parses = refl

parse_port-bounds_example : (1 ≤ 8080) × (8080 ≤ 65535)
parse_port-bounds_example = parse_port-bounds is_space environment 8080 port_parses

offline_there : lookup "VOXCPM_OFFLINE" environment ≡ some (text (110 ∷ 111 ∷ []))
unfolding lookup
offline_there = refl

parse_boolean-Agree_example :
    Agree
      (parse_boolean is_space (λ t. t) environment "VOXCPM_OFFLINE" true)
      (parse_bool is_space (λ t. t) (text (110 ∷ 111 ∷ [])) (some true))
parse_boolean-Agree_example =
    parse_boolean-Agree is_space (λ t. t) environment "VOXCPM_OFFLINE" true (text (110 ∷ 111 ∷ []))
      offline_there
