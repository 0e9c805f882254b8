-- ===== src/Topology/Agreement.antt =====
-- The parent's plan is the one that the hardware resolves.
use open_bmb_vox_cpm2_infere.Common.{
  ℕ, zero, suc, ◌≡◌, ◌≢◌, refl, subst, inl, inr, ltb, true, false, Option, none, some, List, [],
  ◌∷◌, arith,
}
use open_bmb_vox_cpm2_infere.Common.Lists.{length}
use open_bmb_vox_cpm2_infere.Topology.Lists.{take, subset}
use open_bmb_vox_cpm2_infere.Topology.{
  RuntimeConfig, DeviceMode, ExecutionProfile, cuda_single, cuda_replica, Result, ok, err,
}
use open_bmb_vox_cpm2_infere.Topology.Profiles.{
  workers_or, valid_gpus, materialize_cpu, materialize_single, materialize_replica,
  materialize_auto, materialize_in, materialize_profile, materialize_execution_profile,
  materialize_execution_profile_idempotent,
}
use open_bmb_vox_cpm2_infere.Topology.Plans.{
  EffectiveDevice, ExecutionPlan, execution_plan, execution_plan_lem,
}
use open_bmb_vox_cpm2_infere.Topology.Resolution.{
  HardwareInventory, visible_gpu_indices, check_visible, validate_gpu_selection, cpu_plan,
  assign_workers, some_selected, cuda_plan, usable_cuda, resolve_coerced, resolve_values,
  resolve_execution_plan,
}
use open_bmb_vox_cpm2_infere.Topology.Owed.{Result-cases}
use open_bmb_vox_cpm2_infere.Topology.Parent.{
  planned, topology_checked, parent_cpu, parent_cuda, parent_values, parent_execution_plan,
}

module _ (c d : RuntimeConfig) (visible : List ℕ) where
  valid_cpu : materialize_cpu c ≡ ok d → valid_gpus d.gpu_devices ≡ true
  unfolding materialize_cpu
  valid_cpu e = ground arith

  valid_single : materialize_single c visible ≡ ok d → valid_gpus d.gpu_devices ≡ true
  unfolding materialize_single
  valid_single e = ground arith

  valid_replica : materialize_replica c visible ≡ ok d → valid_gpus d.gpu_devices ≡ true
  unfolding materialize_replica
  valid_replica e = ground arith

  valid_auto : materialize_auto c visible ≡ ok d → valid_gpus d.gpu_devices ≡ true
  unfolding materialize_auto
  valid_auto e = ground arith

  valid_in :
      (p : Option ExecutionProfile)
      → valid_gpus c.gpu_devices ≡ true
      → materialize_in p c visible ≡ ok d
      → valid_gpus d.gpu_devices ≡ true
  unfolding materialize_in materialize_profile
  valid_in none v e = ground arith
  valid_in (some ExecutionProfile.cpu) v e = valid_cpu e
  valid_in (some cuda_single) v e = valid_single e
  valid_in (some cuda_replica) v e = valid_replica e
  valid_in (some ExecutionProfile.auto) v e = valid_auto e

materialized_valid :
    (c d : RuntimeConfig) (visible : List ℕ)
    → valid_gpus c.gpu_devices ≡ true
    → materialize_execution_profile c visible ≡ ok d
    → valid_gpus d.gpu_devices ≡ true
unfolding materialize_execution_profile
materialized_valid c d visible v e = valid_in c d visible c.profile v e

check_visible_lem :
    (is visible : List ℕ) → subset is visible ≡ true → check_visible is visible ≡ ok is
unfolding check_visible subset
check_visible_lem [] visible s = refl
check_visible_lem (i ∷ is) visible s = ground (arith, check_visible_lem is visible)

-- What a plan needs of the hardware.
abbrev CarriesOn : EffectiveDevice → HardwareInventory → List ℕ → Type 0
CarriesOn EffectiveDevice.cpu h selected = Unit
CarriesOn EffectiveDevice.cuda h selected =
    (usable_cuda h ≡ true) × (subset selected (visible_gpu_indices h) ≡ true)

abbrev pub Carries : HardwareInventory → ExecutionPlan → Type 0
Carries h p = CarriesOn p.effective_device h p.selected_gpu_indices

module _ (h : HardwareInventory) (p : ExecutionPlan) where
  agree_cpu : (workers : Option ℕ) → parent_cpu workers ≡ planned p → cpu_plan workers ≡ ok p
  unfolding parent_cpu cpu_plan
  agree_cpu none e = ground arith
  agree_cpu (some w) e = ground arith

  checked : (r : Result ExecutionPlan) → topology_checked r ≡ planned p → r ≡ ok p
  checked (ok q) e = ground arith
  checked (err x) e = ground arith

  fits :
      (selected : List ℕ) (count : ℕ) (gpus : List ℕ)
      → execution_plan EffectiveDevice.cuda selected count gpus ≡ ok p
      → ltb (length selected) count ≡ false
  unfolding execution_plan
  fits selected count gpus e = ground arith

  Carries-cuda :
      (selected : List ℕ)
      → p.effective_device ≡ EffectiveDevice.cuda
      → p.selected_gpu_indices ≡ selected
      → Carries h p
      → CarriesOn EffectiveDevice.cuda h selected
  Carries-cuda selected d s k =
      subst (λ x. CarriesOn EffectiveDevice.cuda h x) s
        (subst (λ x. CarriesOn x h p.selected_gpu_indices) d k)

  agree_assign :
      (selected : List ℕ) (workers : Option ℕ)
      → execution_plan EffectiveDevice.cuda selected
          (workers_or workers (length selected))
          (take (workers_or workers (length selected)) selected)
        ≡ ok p
      → assign_workers selected workers ≡ ok p
  unfolding assign_workers
  agree_assign selected none e = e
  agree_assign selected (some w) e = ground (arith, fits selected w (take w selected) e)

  agree_cuda :
      (i : ℕ) (is : List ℕ) (workers : Option ℕ)
      → Carries h p
      → parent_cuda (some (i ∷ is)) workers ≡ planned p
      → (usable_cuda h ≡ true) × (cuda_plan (some (i ∷ is)) workers h ≡ ok p)
  unfolding parent_cuda cuda_plan validate_gpu_selection some_selected
  agree_cuda i is workers k e =
      let count = workers_or workers (length (i ∷ is)) in
      let q =
        checked (execution_plan EffectiveDevice.cuda (i ∷ is) count (take count (i ∷ is))) e in
      let (d, s, n) =
        execution_plan_lem EffectiveDevice.cuda (i ∷ is) count (take count (i ∷ is)) p q in
      let (usable, seen) = Carries-cuda (i ∷ is) d s k in
      let found = check_visible_lem (i ∷ is) (visible_gpu_indices h) seen in
      let plan = agree_assign (i ∷ is) workers q in (usable, ground arith)

  agree_coerced :
      (device : DeviceMode) (gpus : Option (List ℕ)) (workers : Option ℕ)
      → valid_gpus gpus ≡ true
      → Carries h p
      → parent_values device gpus workers ≡ planned p
      → resolve_coerced device gpus workers h ≡ ok p
  unfolding parent_values parent_cuda resolve_coerced
  agree_coerced DeviceMode.cpu none workers v k e = agree_cpu workers e
  agree_coerced DeviceMode.cpu (some []) workers v k e = ground arith
  agree_coerced DeviceMode.cpu (some (i ∷ is)) workers v k e = ground arith
  agree_coerced DeviceMode.cuda none workers v k e = ground arith
  agree_coerced DeviceMode.cuda (some []) workers v k e = ground arith
  agree_coerced DeviceMode.cuda (some (i ∷ is)) workers v k e =
      let (u, q) = agree_cuda i is workers k e in ground arith
  agree_coerced DeviceMode.auto none workers v k e = ground arith
  agree_coerced DeviceMode.auto (some []) workers v k e = ground arith
  agree_coerced DeviceMode.auto (some (i ∷ is)) workers v k e =
      let (u, q) = agree_cuda i is workers k e in ground arith

  -- The parent plans nothing for no worker.
  no_workers_refused :
      (device : DeviceMode) (gpus : Option (List ℕ))
      → parent_values device gpus (some 0) ≢ planned p
  unfolding parent_values parent_cpu parent_cuda execution_plan
  no_workers_refused DeviceMode.cpu none e = ground arith
  no_workers_refused DeviceMode.cpu (some []) e = ground arith
  no_workers_refused DeviceMode.cpu (some (i ∷ is)) e = ground arith
  no_workers_refused DeviceMode.cuda none e = ground arith
  no_workers_refused DeviceMode.cuda (some []) e = ground arith
  no_workers_refused DeviceMode.cuda (some (i ∷ is)) e = ground arith
  no_workers_refused DeviceMode.auto none e = ground arith
  no_workers_refused DeviceMode.auto (some []) e = ground arith
  no_workers_refused DeviceMode.auto (some (i ∷ is)) e = ground arith

  passes :
      (device : DeviceMode) (gpus : Option (List ℕ)) (workers : Option ℕ)
      → valid_gpus gpus ≡ true
      → workers ≢ some 0
      → resolve_coerced device gpus workers h ≡ ok p
      → resolve_values device gpus workers h ≡ ok p
  unfolding resolve_values
  passes device none none v n e = e
  passes device none (some zero) v n e = absurd (n refl)
  passes device none (some (suc w)) v n e = e
  passes device (some []) workers v n e = ground arith
  passes device (some (i ∷ is)) none v n e = ground arith
  passes device (some (i ∷ is)) (some zero) v n e = absurd (n refl)
  passes device (some (i ∷ is)) (some (suc w)) v n e = ground arith

  agree_values :
      (device : DeviceMode) (gpus : Option (List ℕ)) (workers : Option ℕ)
      → valid_gpus gpus ≡ true
      → Carries h p
      → parent_values device gpus workers ≡ planned p
      → resolve_values device gpus workers h ≡ ok p
  agree_values device gpus workers v k e =
      passes device gpus workers v
        (λ z.
          no_workers_refused device gpus (subst (λ x. parent_values device gpus x ≡ planned p) z e))
        (agree_coerced device gpus workers v k e)

-- Where the parent plans a configuration with a valid GPU list, against any answer of the GPU probe,
-- then resolving the configuration that it materialized gives the same plan on all hardware that
-- carries it: for CUDA, usable CUDA with the selected GPUs visible.
pub parent_execution_plan-agrees :
    (c : RuntimeConfig) (visible : List ℕ) (h : HardwareInventory) (p : ExecutionPlan)
    → valid_gpus c.gpu_devices ≡ true
    → Carries h p
    → parent_execution_plan c visible ≡ planned p
    → (d : RuntimeConfig) × (materialize_execution_profile c visible ≡ ok d)
      × (resolve_execution_plan d h ≡ ok p)
unfolding parent_execution_plan resolve_execution_plan
parent_execution_plan-agrees c visible h p v k e =
    elim (Result-cases (materialize_execution_profile c visible)) [
      | inl (d, q) ↦
          let again =
            materialize_execution_profile_idempotent c d visible (visible_gpu_indices h) q in
          let valid = materialized_valid c d visible v q in
          let same = agree_values h p d.device d.gpu_devices d.workers valid k (ground arith) in
          (d, q, ground arith)
      | inr (x, q) ↦ ground arith
    ]
