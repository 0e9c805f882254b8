-- ===== src/Topology/Owed.antt =====
-- What a resolved plan owes to the request and to the hardware.
use open_bmb_vox_cpm2_infere.Common.{
  ◌⊎◌, inl, inr, ℕ, zero, suc, ◌≡◌, refl, subst, sym, ltb, true, Option, none, some, List, [], ◌∷◌,
  arith, Bool-cases,
}
use open_bmb_vox_cpm2_infere.Common.Lists.{length}
use open_bmb_vox_cpm2_infere.Topology.Lists.{subset, take, subset_refl}
use open_bmb_vox_cpm2_infere.Topology.{DeviceMode, TopologyError, Result, ok, err}
use open_bmb_vox_cpm2_infere.Topology.Plans.{
  on_cpu, EffectiveDevice, ExecutionPlan, execution_plan, IsPlan, execution_plan-IsPlan,
  execution_plan_lem,
}
use open_bmb_vox_cpm2_infere.Topology.Resolution.{
  HardwareInventory, visible_gpu_indices, check_visible, validate_gpu_selection, cpu_plan,
  assign_workers, some_selected, cuda_plan, usable_cuda, resolve_coerced, resolve_values,
}

abbrev pub HonoursDevice : DeviceMode → EffectiveDevice → Type 0
HonoursDevice DeviceMode.auto e = Unit
HonoursDevice DeviceMode.cpu e = e ≡ EffectiveDevice.cpu
HonoursDevice DeviceMode.cuda e = e ≡ EffectiveDevice.cuda

abbrev pub HonoursGpus : Option (List ℕ) → List ℕ → Type 0
HonoursGpus none selected = Unit
HonoursGpus (some gpus) selected = selected ≡ gpus

-- A request for no worker is refused by the configuration.
abbrev pub HonoursWorkers : Option ℕ → ℕ → Type 0
HonoursWorkers (some (suc n)) count = count ≡ suc n
HonoursWorkers _ count = Unit

pub Result-cases :
    {A : Type 0} (r : Result A) → ((a : A) × (r ≡ ok a)) ⊎ ((e : TopologyError) × (r ≡ err e))
Result-cases (ok a) = inl (a, refl)
Result-cases (err e) = inr (e, refl)

check_visible-subset :
    (is visible js : List ℕ)
    → check_visible is visible ≡ ok js
    → (js ≡ is) × (subset is visible ≡ true)
unfolding check_visible subset
check_visible-subset [] visible js e = ground arith
check_visible-subset (i ∷ is) visible js e = elim (Result-cases (check_visible is visible)) [
  | inl (r, q) ↦ let rest = check_visible-subset is visible r q in ground arith
  | inr (x, q) ↦ ground arith
]

validate_gpu_selection-subset :
    (gpus : Option (List ℕ)) (visible js : List ℕ)
    → validate_gpu_selection gpus visible ≡ ok js
    → subset js visible ≡ true
unfolding validate_gpu_selection
validate_gpu_selection-subset none visible js e = ground (arith, subset_refl visible)
validate_gpu_selection-subset (some selection) visible js e =
    ground (arith, check_visible-subset selection visible js e)

module _ (p : ExecutionPlan) where
  cpu_plan_lem :
      (workers : Option ℕ)
      → cpu_plan workers ≡ ok p
      → (p ≡ on_cpu) × HonoursWorkers workers p.worker_count
  unfolding cpu_plan execution_plan
  cpu_plan_lem none e = ground arith
  cpu_plan_lem (some zero) e = ground arith
  cpu_plan_lem (some (suc n)) e = ground arith

  assign_workers-IsPlan :
      (selected : List ℕ) (workers : Option ℕ) → assign_workers selected workers ≡ ok p → IsPlan p
  unfolding assign_workers
  assign_workers-IsPlan selected none e =
      execution_plan-IsPlan EffectiveDevice.cuda selected (length selected)
        (take (length selected) selected) p e
  assign_workers-IsPlan selected (some w) e = elim (Bool-cases (ltb (length selected) w)) [
    | inl q ↦ ground arith
    | inr q ↦
        execution_plan-IsPlan EffectiveDevice.cuda selected w (take w selected) p (ground arith)
  ]

  assign_workers_lem :
      (selected : List ℕ) (workers : Option ℕ)
      → assign_workers selected workers ≡ ok p
      → (p.effective_device ≡ EffectiveDevice.cuda)
        × (p.selected_gpu_indices ≡ selected)
        × HonoursWorkers workers p.worker_count
  unfolding assign_workers
  assign_workers_lem selected none e =
      let (d, s, n) =
        execution_plan_lem EffectiveDevice.cuda selected (length selected)
          (take (length selected) selected) p e in
      (d, s, tt)
  assign_workers_lem selected (some zero) e = elim (Bool-cases (ltb (length selected) zero)) [
    | inl q ↦ ground arith
    | inr q ↦
        let (d, s, n) =
          execution_plan_lem EffectiveDevice.cuda selected zero (take zero selected) p
            (ground arith) in
        (d, s, tt)
  ]
  assign_workers_lem selected (some (suc n)) e = elim (Bool-cases (ltb (length selected) (suc n))) [
    | inl q ↦ ground arith
    | inr q ↦
        execution_plan_lem EffectiveDevice.cuda selected (suc n) (take (suc n) selected) p
          (ground arith)
  ]

-- A sound plan whose GPUs are all visible, with what the request names explicitly.
abbrev pub IsOwed :
    DeviceMode → Option (List ℕ) → Option ℕ → HardwareInventory → ExecutionPlan → Type 0
IsOwed device gpus workers h p =
    IsPlan p
    × (subset p.selected_gpu_indices (visible_gpu_indices h) ≡ true)
    × HonoursDevice device p.effective_device
    × HonoursGpus gpus p.selected_gpu_indices
    × HonoursWorkers workers p.worker_count

module _ (h : HardwareInventory) (p : ExecutionPlan) (workers : Option ℕ) where
  -- A selection that passes is the one asked for.
  validated :
      (gpus : Option (List ℕ)) (selected : List ℕ)
      → validate_gpu_selection gpus (visible_gpu_indices h) ≡ ok selected
      → HonoursGpus gpus selected
  unfolding validate_gpu_selection
  validated none selected e = tt
  validated (some g) selected e = (check_visible-subset g (visible_gpu_indices h) selected e).0

  some_selected_lem :
      (selected : List ℕ)
      → some_selected selected workers ≡ ok p
      → assign_workers selected workers ≡ ok p
  unfolding some_selected
  some_selected_lem [] e = ground arith
  some_selected_lem (i ∷ is) e = e

  cuda_plan-IsOwed :
      (gpus : Option (List ℕ))
      → cuda_plan gpus workers h ≡ ok p
      → IsOwed DeviceMode.cuda gpus workers h p
  unfolding cuda_plan
  cuda_plan-IsOwed gpus e =
      elim (Result-cases (validate_gpu_selection gpus (visible_gpu_indices h))) [
        | inl (selected, q) ↦
            let assigned = some_selected_lem selected (ground arith) in
            let (d, s, n) = assign_workers_lem p selected workers assigned in
            let seen = validate_gpu_selection-subset gpus (visible_gpu_indices h) selected q in
            let same = validated gpus selected q in
            (
              assign_workers-IsPlan p selected workers assigned,
              subst (λ x. subset x (visible_gpu_indices h) ≡ true) (sym s) seen,
              d,
              subst (HonoursGpus gpus) (sym s) same,
              n,
            )
        | inr (x, q) ↦ ground arith
      ]

  cpu_plan-IsOwed : cpu_plan workers ≡ ok p → IsOwed DeviceMode.cpu none workers h p
  unfolding subset
  cpu_plan-IsOwed e =
      let (q, n) = cpu_plan_lem p workers e in
      (
        subst IsPlan (sym q) (refl, refl, refl),
        subst (λ x. subset x.selected_gpu_indices (visible_gpu_indices h) ≡ true) (sym q) refl,
        subst (λ x. x.effective_device ≡ EffectiveDevice.cpu) (sym q) refl,
        tt,
        n,
      )

  resolve_coerced-IsOwed :
      (device : DeviceMode) (gpus : Option (List ℕ))
      → resolve_coerced device gpus workers h ≡ ok p
      → IsOwed device gpus workers h p
  unfolding resolve_coerced
  resolve_coerced-IsOwed DeviceMode.cpu none e = cpu_plan-IsOwed e
  resolve_coerced-IsOwed DeviceMode.cpu (some g) e = ground arith
  resolve_coerced-IsOwed DeviceMode.cuda gpus e = elim (Bool-cases (usable_cuda h)) [
    | inl q ↦ cuda_plan-IsOwed gpus (ground arith)
    | inr q ↦ ground arith
  ]
  resolve_coerced-IsOwed DeviceMode.auto none e = elim (Bool-cases (usable_cuda h)) [
    | inl q ↦ let (a, b, d, g, w) = cuda_plan-IsOwed none (ground arith) in (a, b, tt, g, w)
    | inr q ↦ let (a, b, d, g, w) = cpu_plan-IsOwed (ground arith) in (a, b, tt, g, w)
  ]
  resolve_coerced-IsOwed DeviceMode.auto (some gs) e = elim (Bool-cases (usable_cuda h)) [
    | inl q ↦ let (a, b, d, g, w) = cuda_plan-IsOwed (some gs) (ground arith) in (a, b, tt, g, w)
    | inr q ↦ ground arith
  ]

  -- Values that pass the coercions go on as they are.
  coerced :
      (device : DeviceMode) (gpus : Option (List ℕ)) (limit : Option ℕ)
      → resolve_values device gpus limit h ≡ ok p
      → resolve_coerced device gpus limit h ≡ ok p
  unfolding resolve_values
  coerced device none none e = e
  coerced device none (some zero) e = ground arith
  coerced device none (some (suc n)) e = e
  coerced device (some []) limit e = ground arith
  coerced device (some (i ∷ is)) none e = ground arith
  coerced device (some (i ∷ is)) (some zero) e = ground arith
  coerced device (some (i ∷ is)) (some (suc n)) e = ground arith

  pub resolve_values-IsOwed :
      (device : DeviceMode) (gpus : Option (List ℕ))
      → resolve_values device gpus workers h ≡ ok p
      → IsOwed device gpus workers h p
  resolve_values-IsOwed device gpus e =
      resolve_coerced-IsOwed device gpus (coerced device gpus workers e)
