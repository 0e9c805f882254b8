-- ===== src/Topology/Resolution.antt =====
-- The resolution of a configuration against the hardware: _resolve_values and
-- resolve_execution_plan of voxcpm_runtime/device.py.
use open_bmb_vox_cpm2_infere.Common.{
  ℕ, zero, suc, ltb, Bool, ◌&&◌, Option, none, some, List, [], ◌∷◌, if◌then◌else◌,
}
use open_bmb_vox_cpm2_infere.Common.Lists.{length}
use open_bmb_vox_cpm2_infere.Topology.Lists.{elem, distinct, take}
use open_bmb_vox_cpm2_infere.Topology.{
  RuntimeConfig, DeviceMode, Result, ok, err, configuration_error, cuda_unavailable,
  invalid_gpu_selection, worker_oversubscription, gpu_not_visible, too_many_workers, ◌>>=◌,
}
use open_bmb_vox_cpm2_infere.Topology.Profiles.{materialize_execution_profile}
use open_bmb_vox_cpm2_infere.Topology.Plans.{EffectiveDevice, ExecutionPlan, execution_plan}

-- HardwareInventory: the facts that the resolution reads. `gpus` holds the indices of the GPUs.
pub record HardwareInventory : Type 0 where
  pub cuda_available : Bool
  pub gpus : List ℕ
  pub gpu_count : ℕ

-- range(start, start + n)
unfoldable pub range : ℕ → ℕ → List ℕ
range start zero = []
range start (suc n) = start ∷ range (suc start) n

-- _visible_gpu_indices
unfoldable pub visible_gpu_indices : HardwareInventory → List ℕ
unfolding range
visible_gpu_indices h = elim h.gpus [ [] ↦ range 0 h.gpu_count | i ∷ is ↦ i ∷ is ]

unfoldable pub check_visible : List ℕ → List ℕ → Result (List ℕ)
check_visible [] visible = ok []
check_visible (i ∷ is) visible =
    let rest = check_visible is visible in
    if elem i visible then (do r ← rest; ok (i ∷ r)) else err (gpu_not_visible i visible)

-- _validate_gpu_selection
unfoldable pub validate_gpu_selection : Option (List ℕ) → List ℕ → Result (List ℕ)
unfolding check_visible
validate_gpu_selection none visible = ok visible
validate_gpu_selection (some selection) visible = check_visible selection visible

unfoldable pub cpu_plan : Option ℕ → Result ExecutionPlan
unfolding execution_plan
cpu_plan none = execution_plan EffectiveDevice.cpu [] 1 []
cpu_plan (some w) =
    if ltb 1 w
    then err (
        worker_oversubscription
          "CPU execution supports one worker; explicit oversubscription is not allowed")
    else execution_plan EffectiveDevice.cpu [] 1 []

unfoldable pub assign_workers : List ℕ → Option ℕ → Result ExecutionPlan
unfolding execution_plan
assign_workers selected none =
    execution_plan EffectiveDevice.cuda selected (length selected) (take (length selected) selected)
assign_workers selected (some w) =
    if ltb (length selected) w
    then err (too_many_workers w (length selected))
    else execution_plan EffectiveDevice.cuda selected w (take w selected)

unfoldable pub some_selected : List ℕ → Option ℕ → Result ExecutionPlan
unfolding assign_workers
some_selected [] workers =
    err (cuda_unavailable "CUDA was requested but no visible GPU is available")
some_selected (i ∷ is) workers = assign_workers (i ∷ is) workers

unfoldable pub cuda_plan : Option (List ℕ) → Option ℕ → HardwareInventory → Result ExecutionPlan
unfolding some_selected validate_gpu_selection visible_gpu_indices
cuda_plan gpus workers h = do
  selected ← validate_gpu_selection gpus (visible_gpu_indices h)
  some_selected selected workers

-- inventory.cuda_available and inventory.gpu_count > 0
abbrev pub usable_cuda : HardwareInventory → Bool
usable_cuda h = h.cuda_available && ltb 0 h.gpu_count

-- _coerce_gpu_selection, of the field of a configuration: parse_gpu_devices on a tuple of indices.
unfoldable pub coerce_gpu_selection : Option (List ℕ) → Result (Option (List ℕ))
coerce_gpu_selection none = ok none
coerce_gpu_selection (some []) = err (configuration_error "VOXCPM_GPU_DEVICES")
coerce_gpu_selection (some (i ∷ is)) =
    if distinct (i ∷ is) then ok (some (i ∷ is)) else err (configuration_error "VOXCPM_GPU_DEVICES")

-- _coerce_workers: parse_workers on a number.
unfoldable pub coerce_workers : Option ℕ → Result (Option ℕ)
coerce_workers none = ok none
coerce_workers (some zero) = err (configuration_error "VOXCPM_WORKERS")
coerce_workers (some (suc n)) = ok (some (suc n))

-- The rest of _resolve_values.
unfoldable pub resolve_coerced :
    DeviceMode → Option (List ℕ) → Option ℕ → HardwareInventory → Result ExecutionPlan
unfolding cpu_plan cuda_plan
resolve_coerced DeviceMode.cpu (some gpus) workers h =
    err (invalid_gpu_selection "an explicit GPU list cannot be combined with CPU execution")
resolve_coerced DeviceMode.cpu none workers h = cpu_plan workers
resolve_coerced DeviceMode.cuda gpus workers h =
    if usable_cuda h
    then cuda_plan gpus workers h
    else err (cuda_unavailable "CUDA was requested but no usable CUDA device is available")
resolve_coerced DeviceMode.auto (some gpus) workers h =
    if usable_cuda h
    then cuda_plan (some gpus) workers h
    else err (invalid_gpu_selection "an explicit GPU list requires a usable CUDA device")
resolve_coerced DeviceMode.auto none workers h =
    if usable_cuda h then cuda_plan none workers h else cpu_plan workers

-- _resolve_values
unfoldable pub resolve_values :
    DeviceMode → Option (List ℕ) → Option ℕ → HardwareInventory → Result ExecutionPlan
unfolding coerce_gpu_selection coerce_workers resolve_coerced
resolve_values device gpus workers h = do
  selected ← coerce_gpu_selection gpus
  limit ← coerce_workers workers
  resolve_coerced device selected limit h

-- resolve_execution_plan
unfoldable pub resolve_execution_plan : RuntimeConfig → HardwareInventory → Result ExecutionPlan
resolve_execution_plan c h = do
  d ← materialize_execution_profile c (visible_gpu_indices h)
  resolve_values d.device d.gpu_devices d.workers h
