-- ===== src/Config/Distinct.antt =====
-- What parse_gpu_devices of voxcpm_runtime/config.py accepts as a list of GPUs.
use open_bmb_vox_cpm2_infere.Common.{
  ℕ, ◌≡◌, ◌≢◌, ap, ◌∙◌, Bool, true, false, Option, none, some, List, [], ◌∷◌, arith,
}
use open_bmb_vox_cpm2_infere.Common.Exec.{Outcome, ok, raised}
use open_bmb_vox_cpm2_infere.Common.Lists.{All}
use open_bmb_vox_cpm2_infere.Config.Text.{Text, strip, split}
use open_bmb_vox_cpm2_infere.Config.Parse.{
  Scalar, text, Value, scalar, ConfigError, contains, no_duplicates, collected, without_duplicates,
  parse_member, parse_members, gpus_of_members, as_members, gpus_of_text, gpus_of_trimmed,
  parse_gpu_devices, as_text, null, flag, integer, negative, other, sequence,
}

-- No number stands twice in the list.
abbrev pub IsDistinct : List ℕ → Type 0
IsDistinct [] = Unit
IsDistinct (n ∷ ns) = All (λ m. n ≢ m) ns × IsDistinct ns

contains-All : (n : ℕ) (ns : List ℕ) → contains n ns ≡ false → All (λ m. n ≢ m) ns
unfolding contains
contains-All n [] h = tt
contains-All n (m ∷ ms) h = (ground arith, contains-All n ms (ground arith))

no_duplicates-IsDistinct : (ns : List ℕ) → no_duplicates ns ≡ true → IsDistinct ns
unfolding no_duplicates
no_duplicates-IsDistinct [] h = tt
no_duplicates-IsDistinct (n ∷ ns) h =
    (contains-All n ns (ground arith), no_duplicates-IsDistinct ns (ground arith))

without_duplicates_passes :
    (o : Outcome ConfigError (List ℕ)) (ns : List ℕ)
    → without_duplicates o ≡ ok (some ns)
    → (o ≡ ok ns) × (no_duplicates ns ≡ true)
unfolding without_duplicates
without_duplicates_passes (raised e) ns h = cc
without_duplicates_passes (ok ms) ns h = ground arith

without_duplicates-IsDistinct :
    (o : Outcome ConfigError (List ℕ)) (ns : List ℕ)
    → without_duplicates o ≡ ok (some ns)
    → (o ≡ ok ns) × IsDistinct ns
without_duplicates-IsDistinct o ns h =
    let (e, d) = without_duplicates_passes o ns h in (e, no_duplicates-IsDistinct ns d)

collected-cons :
    (o : Outcome ConfigError ℕ) (p : Outcome ConfigError (List ℕ)) → collected o p ≢ ok []
unfolding collected
collected-cons (ok n) (ok ns) h = cc
collected-cons (ok n) (raised e) h = cc
collected-cons (raised e) p h = cc

module _ (is_space : ℕ → Bool) where
  gpus_of_members-IsDistinct :
      (ss : List Scalar) (ns : List ℕ)
      → gpus_of_members is_space ss ≡ ok (some ns)
      → (ns ≢ []) × IsDistinct ns
  unfolding gpus_of_members parse_members
  gpus_of_members-IsDistinct [] ns h = cc
  gpus_of_members-IsDistinct (s ∷ ss) ns h =
      let (e, d) = without_duplicates-IsDistinct (parse_members is_space (s ∷ ss)) ns h in
      ((λ z. collected-cons (parse_member is_space s) (parse_members is_space ss) (e ∙ ap ok z)), d)

  gpus_of_text-IsDistinct :
      (s : Text) (ns : List ℕ) → gpus_of_text is_space s ≡ ok (some ns) → (ns ≢ []) × IsDistinct ns
  unfolding gpus_of_text
  gpus_of_text-IsDistinct s ns h =
      gpus_of_members-IsDistinct (as_members (split s)) ns (ground arith)

  gpus_of_trimmed-IsDistinct :
      (o : Option Text) (ns : List ℕ)
      → gpus_of_trimmed is_space o ≡ ok (some ns)
      → (ns ≢ []) × IsDistinct ns
  unfolding gpus_of_trimmed
  gpus_of_trimmed-IsDistinct none ns h = cc
  gpus_of_trimmed-IsDistinct (some s) ns h = gpus_of_text-IsDistinct (strip is_space s) ns h

  -- Whatever value parse_gpu_devices is given, a list of indices that it returns is not empty and has
  -- no index twice.
  pub parse_gpu_devices-IsDistinct :
      (v : Value) (ns : List ℕ)
      → parse_gpu_devices is_space v ≡ ok (some ns)
      → (ns ≢ []) × IsDistinct ns
  unfolding parse_gpu_devices
  parse_gpu_devices-IsDistinct (scalar null) ns h = cc
  parse_gpu_devices-IsDistinct (scalar (flag b)) ns h =
      gpus_of_trimmed-IsDistinct (as_text (flag b)) ns h
  parse_gpu_devices-IsDistinct (scalar (integer n)) ns h =
      gpus_of_trimmed-IsDistinct (as_text (integer n)) ns h
  parse_gpu_devices-IsDistinct (scalar (negative n)) ns h =
      gpus_of_trimmed-IsDistinct (as_text (negative n)) ns h
  parse_gpu_devices-IsDistinct (scalar (text s)) ns h =
      gpus_of_trimmed-IsDistinct (as_text (text s)) ns h
  parse_gpu_devices-IsDistinct (scalar (other s)) ns h =
      gpus_of_trimmed-IsDistinct (as_text (other s)) ns h
  parse_gpu_devices-IsDistinct (sequence ss) ns h = gpus_of_members-IsDistinct ss ns h
