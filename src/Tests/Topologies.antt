-- ===== src/Tests/Topologies.antt =====
-- The resolution of device, GPUs and workers on small hardware.
use open_bmb_vox_cpm2_infere.Common.{◌≡◌, refl, true, none, some, [], ◌∷◌, if◌then◌else◌}
use open_bmb_vox_cpm2_infere.Topology.{RuntimeConfig, DeviceMode, cuda_replica, ok}
use open_bmb_vox_cpm2_infere.Topology.Lists.{distinct, elem, take, subset}
use open_bmb_vox_cpm2_infere.Topology.Profiles.{
  materialize_execution_profile, materialize_execution_profile_idempotent,
}
use open_bmb_vox_cpm2_infere.Topology.Plans.{EffectiveDevice, ExecutionPlan, on_cpu}
use open_bmb_vox_cpm2_infere.Topology.Resolution.{
  HardwareInventory, usable_cuda, visible_gpu_indices, resolve_values, resolve_execution_plan,
}
use open_bmb_vox_cpm2_infere.Topology.Inventory.{hardware_inventory, hardware_inventory-distinct}
use open_bmb_vox_cpm2_infere.Topology.Lists.{distinct, elem}
use open_bmb_vox_cpm2_infere.Topology.Owed.{IsOwed}
use open_bmb_vox_cpm2_infere.Topology.Requests.{resolve_execution_plan-IsOwed}
use open_bmb_vox_cpm2_infere.Topology.Parent.{planned, parent_execution_plan}
use open_bmb_vox_cpm2_infere.Topology.Agreement.{parent_execution_plan-agrees}
use open_bmb_vox_cpm2_infere.Topology.Automatic.{all_workers, resolve_values-automatic}

abbrev two_gpus : HardwareInventory
two_gpus = record { cuda_available = true; gpus = 2 ∷ 0 ∷ []; gpu_count = 2 }

abbrev replica : RuntimeConfig
replica = record {
  profile = some cuda_replica;
  device = DeviceMode.auto;
  gpu_devices = some (0 ∷ 2 ∷ []);
  workers = none;
}

abbrev replica_materialized : RuntimeConfig
replica_materialized = record {
  profile = some cuda_replica;
  device = DeviceMode.cuda;
  gpu_devices = some (0 ∷ 2 ∷ []);
  workers = some 2;
}

abbrev replica_plan : ExecutionPlan
replica_plan = record {
  effective_device = EffectiveDevice.cuda;
  selected_gpu_indices = 0 ∷ 2 ∷ [];
  worker_count = 2;
  worker_gpu_indices = 0 ∷ 2 ∷ [];
}

materialized : materialize_execution_profile replica (2 ∷ 0 ∷ []) ≡ ok replica_materialized
unfolding materialize_execution_profile distinct elem
materialized = refl

materialize_execution_profile_idempotent_example :
    materialize_execution_profile replica_materialized [] ≡ ok replica_materialized
materialize_execution_profile_idempotent_example =
    materialize_execution_profile_idempotent replica replica_materialized (2 ∷ 0 ∷ []) []
      materialized

resolved : resolve_execution_plan replica two_gpus ≡ ok replica_plan
unfolding resolve_execution_plan materialize_execution_profile distinct resolve_values elem take
    subset
resolved = refl

replica_valid : distinct (0 ∷ 2 ∷ []) ≡ true
unfolding distinct elem
replica_valid = refl

resolve_execution_plan-IsOwed_example :
    IsOwed DeviceMode.auto (some (0 ∷ 2 ∷ [])) none two_gpus replica_plan
resolve_execution_plan-IsOwed_example =
    resolve_execution_plan-IsOwed replica two_gpus replica_plan replica_valid resolved

two_gpus_distinct : distinct (2 ∷ 0 ∷ []) ≡ true
unfolding distinct elem
two_gpus_distinct = refl

resolve_values-automatic_example :
    resolve_values DeviceMode.auto none none two_gpus
    ≡ ok (if usable_cuda two_gpus then all_workers (visible_gpu_indices two_gpus) else on_cpu)
resolve_values-automatic_example = resolve_values-automatic two_gpus two_gpus_distinct

replica_visible : subset (0 ∷ 2 ∷ []) (visible_gpu_indices two_gpus) ≡ true
unfolding subset elem visible_gpu_indices
replica_visible = refl

parented : parent_execution_plan replica (2 ∷ 0 ∷ []) ≡ planned replica_plan
unfolding parent_execution_plan materialize_execution_profile distinct elem take subset
parented = refl

parent_execution_plan-agrees_example :
    (d : RuntimeConfig) × (materialize_execution_profile replica (2 ∷ 0 ∷ []) ≡ ok d)
    × (resolve_execution_plan d two_gpus ≡ ok replica_plan)
parent_execution_plan-agrees_example =
    parent_execution_plan-agrees replica (2 ∷ 0 ∷ []) two_gpus replica_plan replica_valid
      (refl, replica_visible) parented

-- A listed GPU with an index from outside the counted range: three GPUs under a count of two.
abbrev beyond : HardwareInventory
beyond = record { cuda_available = true; gpus = 5 ∷ 0 ∷ 1 ∷ []; gpu_count = 2 }

beyond_accepted : hardware_inventory true (5 ∷ []) (some 2) ≡ ok beyond
unfolding hardware_inventory elem
beyond_accepted = refl

hardware_inventory-distinct_example : distinct beyond.gpus ≡ true
hardware_inventory-distinct_example =
    hardware_inventory-distinct true (5 ∷ []) (some 2) beyond beyond_accepted
