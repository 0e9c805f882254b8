-- ===== src/Topology/Plans.antt =====
-- ExecutionPlan of voxcpm_runtime/device.py and the checks of its constructor.
use open_bmb_vox_cpm2_infere.Common.{
  ℕ, ◌≤◌, ◌≡◌, ◌==◌, ltb, Bool, true, false, not, List, [], ◌∷◌, arith, if◌then◌else◌,
}
use open_bmb_vox_cpm2_infere.Common.Lists.{length}
use open_bmb_vox_cpm2_infere.Topology.Lists.{distinct, subset, take}
use open_bmb_vox_cpm2_infere.Topology.{Result, ok, err, value_error}

pub data EffectiveDevice : Type 0 where
  cpu cuda : EffectiveDevice

pub record ExecutionPlan : Type 0 where
  pub effective_device : EffectiveDevice
  pub selected_gpu_indices : List ℕ
  pub worker_count : ℕ
  pub worker_gpu_indices : List ℕ

-- The plan of the one worker on the CPU.
abbrev pub on_cpu : ExecutionPlan
on_cpu = record {
  effective_device = cpu;
  selected_gpu_indices = [];
  worker_count = 1;
  worker_gpu_indices = [];
}

abbrev pub nonempty : List ℕ → Bool
nonempty [] = false
nonempty (i ∷ is) = true

check_cpu : List ℕ → ℕ → List ℕ → Result ExecutionPlan
check_cpu selected count gpus =
    if nonempty selected
    then err (value_error "CPU plans cannot select GPUs")
    else if nonempty gpus
    then err (value_error "CPU plans cannot select GPUs")
    else if count == 1
    then ok (record {
      effective_device = cpu;
      selected_gpu_indices = selected;
      worker_count = count;
      worker_gpu_indices = gpus;
    })
    else err (value_error "CPU plans support one worker")

check_cuda : List ℕ → ℕ → List ℕ → Result ExecutionPlan
check_cuda selected count gpus =
    if not (nonempty selected)
    then err (value_error "CUDA plans require selected GPUs")
    else if ltb (length selected) count
    then err (value_error "CUDA workers cannot exceed selected GPUs")
    else if not (length gpus == count)
    then err (value_error "each CUDA worker must map to one selected GPU")
    else if not (distinct gpus)
    then err (value_error "CUDA workers cannot share a selected GPU")
    else if not (subset gpus selected)
    then err (value_error "CUDA worker GPUs must be selected")
    else ok (record {
      effective_device = cuda;
      selected_gpu_indices = selected;
      worker_count = count;
      worker_gpu_indices = gpus;
    })

check_plan : EffectiveDevice → List ℕ → ℕ → List ℕ → Result ExecutionPlan
unfolding check_cpu check_cuda
check_plan cpu selected count gpus = check_cpu selected count gpus
check_plan cuda selected count gpus =
    check_cuda selected count (if nonempty gpus then gpus else take count selected)

-- ExecutionPlan.__post_init__
unfoldable pub execution_plan : EffectiveDevice → List ℕ → ℕ → List ℕ → Result ExecutionPlan
unfolding check_plan
execution_plan device selected count gpus =
    if count == 0
    then err (value_error "worker_count must be positive")
    else if not (distinct selected)
    then err (value_error "selected GPU indices must be unique")
    else check_plan device selected count gpus

abbrev IsPlanOn : EffectiveDevice → ExecutionPlan → Type 0
IsPlanOn cpu p = (p.selected_gpu_indices ≡ []) × (p.worker_gpu_indices ≡ []) × (p.worker_count ≡ 1)
IsPlanOn cuda p =
    (1 ≤ p.worker_count)
    × (p.worker_count ≤ length p.selected_gpu_indices)
    × (length p.worker_gpu_indices ≡ p.worker_count)
    × (distinct p.worker_gpu_indices ≡ true)
    × (subset p.worker_gpu_indices p.selected_gpu_indices ≡ true)

-- A plan for the CPU has one worker and no GPU. A plan for CUDA has a worker at least, and for each
-- worker a GPU of its own among the selected ones.
abbrev pub IsPlan : ExecutionPlan → Type 0
IsPlan p = IsPlanOn p.effective_device p

pub execution_plan-IsPlan :
    (device : EffectiveDevice) (selected : List ℕ) (count : ℕ) (gpus : List ℕ) (p : ExecutionPlan)
    → execution_plan device selected count gpus ≡ ok p
    → IsPlan p
unfolding execution_plan
execution_plan-IsPlan cpu selected count gpus p e = ground arith
execution_plan-IsPlan cuda selected count gpus p e = ground arith

-- A plan holds the device, the selected GPUs and the worker count that it is built with.
pub execution_plan_lem :
    (device : EffectiveDevice) (selected : List ℕ) (count : ℕ) (gpus : List ℕ) (p : ExecutionPlan)
    → execution_plan device selected count gpus ≡ ok p
    → (p.effective_device ≡ device) × (p.selected_gpu_indices ≡ selected) × (p.worker_count ≡ count)
unfolding execution_plan
execution_plan_lem cpu selected count gpus p e = ground arith
execution_plan_lem cuda selected count gpus p e = ground arith
