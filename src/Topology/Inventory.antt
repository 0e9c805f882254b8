-- ===== src/Topology/Inventory.antt =====
-- The constructor of HardwareInventory in voxcpm_runtime/device.py, on the indices of the GPUs.
use open_bmb_vox_cpm2_infere.Common.{
  ℕ, zero, suc, ◌<◌, ◌≡◌, refl, ltb, Bool, true, false, not, Option, none, some, List, [], ◌∷◌,
  ◌++◌, arith, if◌then◌else◌,
}
use open_bmb_vox_cpm2_infere.Common.Lists.{length}
use open_bmb_vox_cpm2_infere.Topology.{Result, ok, err, value_error}
use open_bmb_vox_cpm2_infere.Topology.Lists.{elem, distinct}
use open_bmb_vox_cpm2_infere.Topology.Resolution.{HardwareInventory}

-- index for index in range(count) if index not in existing
unfoldable pub missing : List ℕ → ℕ → ℕ → List ℕ
unfolding elem
missing existing start zero = []
missing existing start (suc n) =
    let rest = missing existing (suc start) n in if elem start existing then rest else start ∷ rest

unfoldable pub count_or : Option ℕ → List ℕ → ℕ
count_or none gpus = length gpus
count_or (some n) gpus = n

unfoldable pub counted : Bool → List ℕ → ℕ → Result HardwareInventory
unfolding missing
counted cuda gpus count =
    if ltb count (length gpus)
    then err (value_error "gpu_count cannot be smaller than the GPU list")
    else ok (record {
      cuda_available = cuda;
      gpus = if ltb (length gpus) count then gpus ++ missing gpus 0 count else gpus;
      gpu_count = count;
    })

-- HardwareInventory.__post_init__
unfoldable pub hardware_inventory : Bool → List ℕ → Option ℕ → Result HardwareInventory
unfolding counted count_or distinct
hardware_inventory cuda gpus count =
    if not (distinct gpus)
    then err (value_error "GPU indices must be unique")
    else counted cuda gpus (count_or count gpus)

elem-missing :
    (i : ℕ) (xs : List ℕ) (start n : ℕ) → elem i (missing xs start n) ≡ true → elem i xs ≡ false
unfolding elem missing
elem-missing i xs start zero h = cc
elem-missing i xs start (suc n) h = ground (arith, elem-missing i xs (suc start) n)

later-missing :
    (i : ℕ) (xs : List ℕ) (start n : ℕ) → i < start → elem i (missing xs start n) ≡ false
unfolding elem missing
later-missing i xs start zero h = refl
later-missing i xs start (suc n) h = ground (arith, later-missing i xs (suc start) n)

distinct-missing : (xs : List ℕ) (start n : ℕ) → distinct (missing xs start n) ≡ true
unfolding distinct missing
distinct-missing xs start zero = refl
distinct-missing xs start (suc n) =
    ground (arith, distinct-missing xs (suc start) n, later-missing start xs (suc start) n)

elem-append :
    (i : ℕ) (xs ys : List ℕ) → elem i xs ≡ false → elem i ys ≡ false → elem i (xs ++ ys) ≡ false
unfolding elem
elem-append i [] ys h k = k
elem-append i (x ∷ xs) ys h k = ground (arith, elem-append i xs ys)

distinct-append :
    (xs ys : List ℕ)
    → distinct xs ≡ true
    → distinct ys ≡ true
    → ((i : ℕ) → elem i ys ≡ true → elem i xs ≡ false)
    → distinct (xs ++ ys) ≡ true
unfolding distinct elem
distinct-append [] ys h k d = k
distinct-append (x ∷ xs) ys h k d = ground (
  arith,
  distinct-append xs ys (ground arith) k (λ i e. ground (arith, d i e)),
  elem-append x xs ys,
  d x,
)

counted-distinct :
    (cuda : Bool) (gpus : List ℕ) (count : ℕ) (h : HardwareInventory)
    → distinct gpus ≡ true
    → counted cuda gpus count ≡ ok h
    → distinct h.gpus ≡ true
unfolding counted
counted-distinct cuda gpus count h d e = ground (
  arith,
  distinct-append gpus (missing gpus 0 count) d (distinct-missing gpus 0 count)
      (λ i k. elem-missing i gpus 0 count k),
)

-- The GPUs of an inventory that the constructor accepts have distinct indices, those that it adds to
-- reach the count included.
pub hardware_inventory-distinct :
    (cuda : Bool) (gpus : List ℕ) (count : Option ℕ) (h : HardwareInventory)
    → hardware_inventory cuda gpus count ≡ ok h
    → distinct h.gpus ≡ true
unfolding hardware_inventory
hardware_inventory-distinct cuda gpus count h e =
    counted-distinct cuda gpus (count_or count gpus) h (ground arith) (ground arith)
