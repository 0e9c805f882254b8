-- ===== src/Topology/Parent.antt =====
-- parent_execution_plan of voxcpm_runtime/worker_factory.py, the topology of the API's parent
-- process, which does not import torch.
use open_bmb_vox_cpm2_infere.Common.{ℕ, Option, some, String, List, [], ◌∷◌, if◌then◌else◌}
use open_bmb_vox_cpm2_infere.Common.Lists.{length}
use open_bmb_vox_cpm2_infere.Topology.Lists.{take}
use open_bmb_vox_cpm2_infere.Topology.{
  RuntimeConfig, DeviceMode, TopologyError, Result, ok, err, profile_conflict, profile_error,
}
use open_bmb_vox_cpm2_infere.Topology.Profiles.{none_or, workers_or, materialize_execution_profile}
use open_bmb_vox_cpm2_infere.Topology.Plans.{EffectiveDevice, ExecutionPlan, execution_plan}

-- An ApiError by its code and message (its status is 500), or an exception that the function does
-- not translate.
pub data ParentError : Type 0 where
  api_error : String → String → ParentError
  other_error : TopologyError → ParentError

pub data ParentResult (A : Type 0) : Type 0 where
  planned : A → ParentResult A
  refused : ParentError → ParentResult A

-- `except ProfileResolutionError`
abbrev pub profile_refused : TopologyError → ParentError
profile_refused (profile_conflict p d) =
    api_error "invalid_execution_profile" "API execution profile could not be resolved."
profile_refused (profile_error m) =
    api_error "invalid_execution_profile" "API execution profile could not be resolved."
profile_refused e = other_error e

-- `except ValueError`; the constructor of the plan raises nothing else.
abbrev pub topology_checked : Result ExecutionPlan → ParentResult ExecutionPlan
topology_checked (ok p) = planned p
topology_checked (err e) =
    refused (api_error "invalid_worker_topology" "API worker topology is invalid.")

abbrev pub unchecked : Result ExecutionPlan → ParentResult ExecutionPlan
unchecked (ok p) = planned p
unchecked (err e) = refused (other_error e)

unfoldable pub parent_cpu : Option ℕ → ParentResult ExecutionPlan
unfolding execution_plan
parent_cpu workers =
    if none_or workers 1
    then unchecked (execution_plan EffectiveDevice.cpu [] 1 [])
    else refused
        (api_error "cpu_worker_count_invalid" "CPU API runtime supports exactly one worker.")

-- An empty selection counts as none.
unfoldable pub parent_cpu_selected : Option (List ℕ) → Option ℕ → ParentResult ExecutionPlan
unfolding parent_cpu
parent_cpu_selected (some (i ∷ is)) workers =
    refused (api_error "cpu_gpu_selection_conflict" "CPU API runtime cannot select GPUs.")
parent_cpu_selected _ workers = parent_cpu workers

unfoldable pub parent_cuda : Option (List ℕ) → Option ℕ → ParentResult ExecutionPlan
unfolding execution_plan
parent_cuda (some (i ∷ is)) workers =
    let count = workers_or workers (length (i ∷ is)) in
    topology_checked (execution_plan EffectiveDevice.cuda (i ∷ is) count (take count (i ∷ is)))
parent_cuda _ workers = refused (
    api_error "explicit_gpu_selection_required"
      "API CUDA runtime requires an explicit GPU selection.")

unfoldable pub parent_values : DeviceMode → Option (List ℕ) → Option ℕ → ParentResult ExecutionPlan
unfolding parent_cpu_selected parent_cuda
parent_values DeviceMode.cpu gpus workers = parent_cpu_selected gpus workers
parent_values _ gpus workers = parent_cuda gpus workers

abbrev pub plan_for : Result RuntimeConfig → ParentResult ExecutionPlan
plan_for (ok d) = parent_values d.device d.gpu_devices d.workers
plan_for (err e) = refused (profile_refused e)

-- parent_execution_plan, with the indices that the GPU probe returns
unfoldable pub parent_execution_plan : RuntimeConfig → List ℕ → ParentResult ExecutionPlan
unfolding parent_values
parent_execution_plan c visible = plan_for (materialize_execution_profile c visible)
