-- ===== src/Topology/Automatic.antt =====
-- A configuration that leaves everything open always resolves.
use open_bmb_vox_cpm2_infere.Common.{
  ℕ, zero, suc, ◌<◌, ◌≡◌, ◌≢◌, refl, ap, ◌∙◌, inl, inr, ltb, true, false, none, List, [], ◌∷◌,
  arith, if◌then◌else◌, Bool-cases,
}
use open_bmb_vox_cpm2_infere.Common.Lists.{length}
use open_bmb_vox_cpm2_infere.Topology.Lists.{elem, distinct, take, subset_refl}
use open_bmb_vox_cpm2_infere.Topology.{DeviceMode, ok}
use open_bmb_vox_cpm2_infere.Topology.Plans.{on_cpu, EffectiveDevice, ExecutionPlan, execution_plan}
use open_bmb_vox_cpm2_infere.Topology.Resolution.{
  HardwareInventory, range, visible_gpu_indices, validate_gpu_selection, cpu_plan, assign_workers,
  some_selected, cuda_plan, usable_cuda, resolve_coerced, resolve_values,
}

elem-range : (i start n : ℕ) → i < start → elem i (range start n) ≡ false
unfolding elem range
elem-range i start zero l = refl
elem-range i start (suc n) l = ground (arith, elem-range i (suc start) n)

distinct-range : (start n : ℕ) → distinct (range start n) ≡ true
unfolding distinct range
distinct-range start zero = refl
distinct-range start (suc n) =
    ground (arith, distinct-range (suc start) n, elem-range start (suc start) n)

take-length : (xs : List ℕ) → take (length xs) xs ≡ xs
unfolding take
take-length [] = refl
take-length (x ∷ xs) = ap (λ r. x ∷ r) (take-length xs)

-- The plan with a worker for each of the GPUs xs.
unfoldable pub all_workers : List ℕ → ExecutionPlan
all_workers xs = record {
  effective_device = EffectiveDevice.cuda;
  selected_gpu_indices = xs;
  worker_count = length xs;
  worker_gpu_indices = xs;
}

-- One worker for each of the selected GPUs.
all_selected :
    (i : ℕ) (is : List ℕ)
    → distinct (i ∷ is) ≡ true
    → execution_plan EffectiveDevice.cuda (i ∷ is) (length (i ∷ is)) (i ∷ is)
      ≡ ok (all_workers (i ∷ is))
unfolding execution_plan all_workers
all_selected i is d = ground (arith, subset_refl (i ∷ is))

assigned :
    (xs : List ℕ) → length xs ≢ 0 → distinct xs ≡ true → some_selected xs none ≡ ok (all_workers xs)
unfolding some_selected assign_workers
assigned [] n d = absurd (n refl)
assigned (i ∷ is) n d =
    ap (execution_plan EffectiveDevice.cuda (i ∷ is) (length (i ∷ is))) (take-length (i ∷ is))
    ∙ all_selected i is d

module _ (h : HardwareInventory) where
  visible_distinct :
      (gpus : List ℕ) (n : ℕ)
      → distinct gpus ≡ true
      → distinct (elim gpus [ [] ↦ range 0 n | i ∷ is ↦ i ∷ is ]) ≡ true
  visible_distinct [] n d = distinct-range 0 n
  visible_distinct (i ∷ is) n d = d

  visible_positive :
      (gpus : List ℕ) (n : ℕ)
      → ltb 0 n ≡ true
      → length (elim gpus [ [] ↦ range 0 n | i ∷ is ↦ i ∷ is ]) ≢ 0
  unfolding range
  visible_positive [] zero l = ground arith
  visible_positive [] (suc n) l = ground arith
  visible_positive (i ∷ is) n l = ground arith

  visible_planned :
      distinct h.gpus ≡ true
      → usable_cuda h ≡ true
      → cuda_plan none none h ≡ ok (all_workers (visible_gpu_indices h))
  unfolding cuda_plan validate_gpu_selection visible_gpu_indices
  visible_planned d u =
      assigned (visible_gpu_indices h) (visible_positive h.gpus h.gpu_count (ground arith))
        (visible_distinct h.gpus h.gpu_count d)

  alone : cpu_plan none ≡ ok on_cpu
  unfolding cpu_plan execution_plan distinct
  alone = refl

  -- On hardware whose GPU indices are distinct, a request that leaves device, GPUs and workers open
  -- always gives a plan: with a worker on each visible GPU where CUDA is usable, and with the one
  -- CPU worker otherwise.
  pub resolve_values-automatic :
      distinct h.gpus ≡ true
      → resolve_values DeviceMode.auto none none h
        ≡ ok (if usable_cuda h then all_workers (visible_gpu_indices h) else on_cpu)
  unfolding resolve_values resolve_coerced
  resolve_values-automatic d = elim (Bool-cases (usable_cuda h)) [
    | inl u ↦ ground (arith, visible_planned d u)
    | inr u ↦ ground (arith, alone)
  ]
