-- ===== src/Topology/Requests.antt =====
-- Materializing a profile keeps what a configuration sets explicitly, so the resolved plan owes it
-- to the request too.
use open_bmb_vox_cpm2_infere.Common.{
  ℕ, ◌≡◌, refl, subst, inl, inr, true, Option, none, some, List, arith,
}
use open_bmb_vox_cpm2_infere.Topology.{
  RuntimeConfig, DeviceMode, ExecutionProfile, cuda_single, cuda_replica, ok,
}
use open_bmb_vox_cpm2_infere.Topology.Profiles.{
  valid_gpus, materialize_cpu, materialize_single, materialize_replica, materialize_auto,
  materialize_profile, materialize_in, materialize_execution_profile,
}
use open_bmb_vox_cpm2_infere.Topology.Plans.{EffectiveDevice, ExecutionPlan}
use open_bmb_vox_cpm2_infere.Topology.Resolution.{
  HardwareInventory, visible_gpu_indices, resolve_execution_plan,
}
use open_bmb_vox_cpm2_infere.Topology.Owed.{
  HonoursDevice, HonoursGpus, HonoursWorkers, IsOwed, resolve_values-IsOwed, Result-cases,
}

abbrev SameDevice : DeviceMode → DeviceMode → Type 0
SameDevice DeviceMode.auto d = Unit
SameDevice DeviceMode.cpu d = d ≡ DeviceMode.cpu
SameDevice DeviceMode.cuda d = d ≡ DeviceMode.cuda

abbrev SameGpus : Option (List ℕ) → Option (List ℕ) → Type 0
SameGpus none g = Unit
SameGpus (some gs) g = g ≡ some gs

abbrev SameWorkers : Option ℕ → Option ℕ → Type 0
SameWorkers none w = Unit
SameWorkers (some n) w = w ≡ some n

abbrev Refines : RuntimeConfig → RuntimeConfig → Type 0
Refines c d =
    SameDevice c.device d.device
    × SameGpus c.gpu_devices d.gpu_devices
    × SameWorkers c.workers d.workers

SameDevice-refl : (a : DeviceMode) → SameDevice a a
SameDevice-refl DeviceMode.auto = tt
SameDevice-refl DeviceMode.cpu = refl
SameDevice-refl DeviceMode.cuda = refl

SameGpus-refl : (a : Option (List ℕ)) → SameGpus a a
SameGpus-refl none = tt
SameGpus-refl (some g) = refl

SameWorkers-refl : (a : Option ℕ) → SameWorkers a a
SameWorkers-refl none = tt
SameWorkers-refl (some n) = refl

module _ (c d : RuntimeConfig) (visible : List ℕ) where
  kept_cpu : materialize_cpu c ≡ ok d → Refines c d
  unfolding materialize_cpu
  kept_cpu e = ground arith

  kept_single : materialize_single c visible ≡ ok d → Refines c d
  unfolding materialize_single
  kept_single e = ground arith

  kept_replica : materialize_replica c visible ≡ ok d → Refines c d
  unfolding materialize_replica
  kept_replica e = ground arith

  kept_auto : valid_gpus c.gpu_devices ≡ true → materialize_auto c visible ≡ ok d → Refines c d
  unfolding materialize_auto
  kept_auto v e = ground arith

  kept_none : c ≡ d → Refines c d
  kept_none e =
      subst (Refines c) e
        (SameDevice-refl c.device, SameGpus-refl c.gpu_devices, SameWorkers-refl c.workers)

  kept_in :
      (p : Option ExecutionProfile)
      → valid_gpus c.gpu_devices ≡ true
      → materialize_in p c visible ≡ ok d
      → Refines c d
  unfolding materialize_in materialize_profile
  kept_in none v e = kept_none (ground arith)
  kept_in (some ExecutionProfile.cpu) v e = kept_cpu e
  kept_in (some cuda_single) v e = kept_single e
  kept_in (some cuda_replica) v e = kept_replica e
  kept_in (some ExecutionProfile.auto) v e = kept_auto v e

  -- Materializing a profile keeps every explicit choice.
  pub materialize_execution_profile_keeps :
      valid_gpus c.gpu_devices ≡ true → materialize_execution_profile c visible ≡ ok d → Refines c d
  unfolding materialize_execution_profile
  materialize_execution_profile_keeps v e = kept_in c.profile v e

HonoursDevice_lem :
    (a b : DeviceMode) (e : EffectiveDevice)
    → SameDevice a b
    → HonoursDevice b e
    → HonoursDevice a e
HonoursDevice_lem DeviceMode.auto b e s h = tt
HonoursDevice_lem DeviceMode.cpu b e s h = subst (λ x. HonoursDevice x e) s h
HonoursDevice_lem DeviceMode.cuda b e s h = subst (λ x. HonoursDevice x e) s h

HonoursGpus_lem :
    (a b : Option (List ℕ)) (g : List ℕ) → SameGpus a b → HonoursGpus b g → HonoursGpus a g
HonoursGpus_lem none b g s h = tt
HonoursGpus_lem (some gs) b g s h = subst (λ x. HonoursGpus x g) s h

HonoursWorkers_lem :
    (a b : Option ℕ) (n : ℕ) → SameWorkers a b → HonoursWorkers b n → HonoursWorkers a n
HonoursWorkers_lem none b n s h = tt
HonoursWorkers_lem (some w) b n s h = subst (λ x. HonoursWorkers x n) s h

-- A configuration whose GPU list is valid, and so names one GPU at least where it names any, that is
-- resolved gives a sound plan: on the CPU one worker and no GPU, on CUDA one worker at least, each
-- with a GPU of its own among the selected ones. The selected GPUs are visible, and the plan has the
-- device, the GPU list and the positive worker count that the configuration sets explicitly: in
-- particular a request for CUDA never falls back to the CPU.
pub resolve_execution_plan-IsOwed :
    (c : RuntimeConfig) (h : HardwareInventory) (p : ExecutionPlan)
    → valid_gpus c.gpu_devices ≡ true
    → resolve_execution_plan c h ≡ ok p
    → IsOwed c.device c.gpu_devices c.workers h p
unfolding resolve_execution_plan
resolve_execution_plan-IsOwed c h p v e =
    elim (Result-cases (materialize_execution_profile c (visible_gpu_indices h))) [
      | inl (d, q) ↦
          let (sound, seen, device, gpus, workers) =
            resolve_values-IsOwed h p d.workers d.device d.gpu_devices (ground arith) in
          let (sd, sg, sw) = materialize_execution_profile_keeps c d (visible_gpu_indices h) v q in
          (
            sound,
            seen,
            HonoursDevice_lem c.device d.device p.effective_device sd device,
            HonoursGpus_lem c.gpu_devices d.gpu_devices p.selected_gpu_indices sg gpus,
            HonoursWorkers_lem c.workers d.workers p.worker_count sw workers,
          )
      | inr (x, q) ↦ ground arith
    ]
