-- ===== src/Topology/Profiles.antt =====
-- materialize_execution_profile of voxcpm_runtime/profiles.py. The GPU probe, a subprocess, is an
-- argument: the indices that it returns.
use open_bmb_vox_cpm2_infere.Common.{
  ℕ, ◌≡◌, sym, subst, ◌==◌, ltb, Bool, true, false, not, Option, none, some, List, [], ◌∷◌, arith,
  if◌then◌else◌,
}
use open_bmb_vox_cpm2_infere.Common.Lists.{length}
use open_bmb_vox_cpm2_infere.Topology.Lists.{distinct}
use open_bmb_vox_cpm2_infere.Topology.{
  RuntimeConfig, DeviceMode, ExecutionProfile, cuda_single, cuda_replica, Result, ok, err,
  profile_conflict, profile_error, configuration_error, ◌>>=◌,
}

abbrev pub same_mode : DeviceMode → DeviceMode → Bool
same_mode DeviceMode.auto DeviceMode.auto = true
same_mode DeviceMode.cpu DeviceMode.cpu = true
same_mode DeviceMode.cuda DeviceMode.cuda = true
same_mode _ _ = false

-- config.device in {DeviceMode.AUTO, expected}
abbrev compatible : DeviceMode → DeviceMode → Bool
compatible DeviceMode.auto expected = true
compatible d expected = same_mode d expected

-- config.workers in (None, n)
abbrev pub none_or : Option ℕ → ℕ → Bool
none_or none n = true
none_or (some m) n = m == n

-- The checks of RuntimeConfig.__post_init__ on the fields of the topology.
abbrev pub valid_gpus : Option (List ℕ) → Bool
valid_gpus none = true
valid_gpus (some []) = false
valid_gpus (some (i ∷ is)) = distinct (i ∷ is)

abbrev pub valid_workers : Option ℕ → Bool
valid_workers none = true
valid_workers (some n) = not (n == 0)

-- dataclasses.replace(config, device=…, gpu_devices=…, workers=…), which validates again
unfoldable pub replaced :
    RuntimeConfig → DeviceMode → Option (List ℕ) → Option ℕ → Result RuntimeConfig
replaced c d g w =
    if valid_gpus g
    then (if valid_workers w
        then ok (record c { device = d; gpu_devices = g; workers = w })
        else err (configuration_error "VOXCPM_WORKERS"))
    else err (configuration_error "VOXCPM_GPU_DEVICES")

unfoldable pub materialize_cpu : RuntimeConfig → Result RuntimeConfig
unfolding replaced
materialize_cpu c =
    if compatible c.device DeviceMode.cpu
    then (elim c.gpu_devices [
      | some g ↦ err (profile_error "cpu profile cannot select GPUs")
      | none ↦
          if none_or c.workers 1
          then replaced c DeviceMode.cpu none (some 1)
          else err (profile_error "cpu profile supports exactly one worker")
    ])
    else err (profile_conflict ExecutionProfile.cpu c.device)

-- The first visible GPU, where none was selected.
select_single : Option (List ℕ) → List ℕ → Result (List ℕ)
select_single (some g) visible = ok g
select_single none [] = err (profile_error "cuda-single profile requires one usable CUDA device")
select_single none (i ∷ is) = ok (i ∷ [])

single_selected : RuntimeConfig → List ℕ → Result RuntimeConfig
unfolding replaced
single_selected c (i ∷ []) =
    if none_or c.workers 1
    then replaced c DeviceMode.cuda (some (i ∷ [])) (some 1)
    else err (profile_error "cuda-single profile supports exactly one worker")
single_selected c _ = err (profile_error "cuda-single profile requires exactly one selected GPU")

unfoldable pub materialize_single : RuntimeConfig → List ℕ → Result RuntimeConfig
unfolding single_selected select_single
materialize_single c visible =
    if compatible c.device DeviceMode.cuda
    then (do selected ← select_single c.gpu_devices visible; single_selected c selected)
    else err (profile_conflict cuda_single c.device)

-- config.gpu_devices, or what the probe returns
abbrev pub selected_or : Option (List ℕ) → List ℕ → List ℕ
selected_or (some g) visible = g
selected_or none visible = visible

unfoldable pub materialize_replica : RuntimeConfig → List ℕ → Result RuntimeConfig
unfolding replaced
materialize_replica c visible =
    let selected = selected_or c.gpu_devices visible in
    if compatible c.device DeviceMode.cuda
    then (if ltb (length selected) 2
        then err (profile_error "cuda-replica profile requires at least two usable GPUs")
        else (if none_or c.workers (length selected)
            then replaced c DeviceMode.cuda (some selected) (some (length selected))
            else err (profile_error "cuda-replica profile requires one worker per selected GPU")))
    else err (profile_conflict cuda_replica c.device)

abbrev oversubscribed : Option ℕ → ℕ → Bool
oversubscribed none n = false
oversubscribed (some w) n = ltb n w

abbrev pub workers_or : Option ℕ → ℕ → ℕ
workers_or none n = n
workers_or (some w) n = w

auto_cpu : RuntimeConfig → Result RuntimeConfig
unfolding replaced
auto_cpu c = elim c.gpu_devices [
  | some g ↦ err (profile_error "auto profile with CPU execution cannot select GPUs")
  | none ↦
      if none_or c.workers 1
      then replaced c c.device c.gpu_devices (some 1)
      else err (profile_error "auto CPU execution supports exactly one worker")
]

auto_selected : RuntimeConfig → List ℕ → Result RuntimeConfig
unfolding replaced
auto_selected c (i ∷ is) =
    if oversubscribed c.workers (length (i ∷ is))
    then err (profile_error "auto profile cannot oversubscribe selected GPUs")
    else replaced c DeviceMode.cuda (some (i ∷ is)) (some (workers_or c.workers (length (i ∷ is))))
auto_selected c [] =
    if same_mode c.device DeviceMode.cuda
    then err (profile_error "auto profile was constrained to CUDA but CUDA is unavailable")
    else if none_or c.workers 1
    then replaced c DeviceMode.cpu none (some 1)
    else err (profile_error "auto CPU execution supports exactly one worker")

unfoldable pub materialize_auto : RuntimeConfig → List ℕ → Result RuntimeConfig
unfolding auto_cpu auto_selected
materialize_auto c visible =
    if same_mode c.device DeviceMode.cpu
    then auto_cpu c
    else auto_selected c (selected_or c.gpu_devices visible)

unfoldable pub materialize_profile :
    ExecutionProfile → RuntimeConfig → List ℕ → Result RuntimeConfig
unfolding materialize_cpu materialize_single materialize_replica materialize_auto
materialize_profile ExecutionProfile.cpu c visible = materialize_cpu c
materialize_profile cuda_single c visible = materialize_single c visible
materialize_profile cuda_replica c visible = materialize_replica c visible
materialize_profile ExecutionProfile.auto c visible = materialize_auto c visible

unfoldable pub materialize_in :
    Option ExecutionProfile → RuntimeConfig → List ℕ → Result RuntimeConfig
unfolding materialize_profile
materialize_in none c visible = ok c
materialize_in (some p) c visible = materialize_profile p c visible

-- materialize_execution_profile, with the indices that the probe returns
unfoldable pub materialize_execution_profile : RuntimeConfig → List ℕ → Result RuntimeConfig
unfolding materialize_in
materialize_execution_profile c visible = materialize_in c.profile c visible

module _ (c d : RuntimeConfig) (visible later : List ℕ) where
  again_cpu : materialize_cpu c ≡ ok d → (materialize_cpu d ≡ ok d) × (d.profile ≡ c.profile)
  unfolding materialize_cpu
  again_cpu e = ground arith

  again_single :
      materialize_single c visible ≡ ok d
      → (materialize_single d later ≡ ok d) × (d.profile ≡ c.profile)
  unfolding materialize_single
  again_single e = ground arith

  again_replica :
      materialize_replica c visible ≡ ok d
      → (materialize_replica d later ≡ ok d) × (d.profile ≡ c.profile)
  unfolding materialize_replica
  again_replica e = ground arith

  again_auto :
      materialize_auto c visible ≡ ok d
      → (materialize_auto d later ≡ ok d) × (d.profile ≡ c.profile)
  unfolding materialize_auto
  again_auto e = ground arith

  again_in :
      (p : Option ExecutionProfile)
      → materialize_in p c visible ≡ ok d
      → (materialize_in p d later ≡ ok d) × (d.profile ≡ c.profile)
  unfolding materialize_in
  again_in none e = ground arith
  again_in (some ExecutionProfile.cpu) e = again_cpu e
  again_in (some cuda_single) e = again_single e
  again_in (some cuda_replica) e = again_replica e
  again_in (some ExecutionProfile.auto) e = again_auto e

-- A configuration that was materialized is its own materialization, whatever GPUs a second probe
-- sees.
pub materialize_execution_profile_idempotent :
    (c d : RuntimeConfig) (visible later : List ℕ)
    → materialize_execution_profile c visible ≡ ok d
    → materialize_execution_profile d later ≡ ok d
unfolding materialize_execution_profile
materialize_execution_profile_idempotent c d visible later e =
    let (again, same) = again_in c d visible later c.profile e in
    subst (λ p. materialize_in p d later ≡ ok d) (sym same) again
