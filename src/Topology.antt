-- ===== src/Topology.antt =====
-- Which devices and how many workers a configuration stands for: voxcpm_runtime/profiles.py, the
-- resolution part of voxcpm_runtime/device.py, and the fields of voxcpm_runtime/config.py that they
-- read. Indices are natural numbers, so the tests for negative ones hold of every argument.
pub mod Lists
pub mod Profiles
pub mod Plans
pub mod Resolution
pub mod Owed
pub mod Requests
pub mod Automatic
pub mod Parent
pub mod Agreement
pub mod Inventory
use open_bmb_vox_cpm2_infere.Common.{ℕ, Option, String, List}

pub data DeviceMode : Type 0 where
  auto cpu cuda : DeviceMode

pub data ExecutionProfile : Type 0 where
  auto cpu cuda_single cuda_replica : ExecutionProfile

-- RuntimeConfig: the fields of the topology, and whatever else it holds.
pub record RuntimeConfig : Type 0 where
  pub profile : Option ExecutionProfile
  pub device : DeviceMode
  pub gpu_devices : Option (List ℕ)
  pub workers : Option ℕ

-- The exceptions, with their message where it is fixed.
pub data TopologyError : Type 0 where
  profile_conflict : ExecutionProfile → DeviceMode → TopologyError
  profile_error configuration_error value_error cuda_unavailable : String → TopologyError
  invalid_gpu_selection worker_oversubscription : String → TopologyError
  gpu_not_visible : ℕ → List ℕ → TopologyError
  too_many_workers : ℕ → ℕ → TopologyError

pub data Result (A : Type 0) : Type 0 where
  ok : A → Result A
  err : TopologyError → Result A

infixl 5 ◌>>=◌ ◌>>◌
abbrev pub ◌>>=◌ : {A B : Type 0} → Result A → (A → Result B) → Result B
ok a >>= f = f a
err e >>= f = err e

abbrev pub ◌>>◌ : {A B : Type 0} → Result A → Result B → Result B
m >> k = m >>= λ _. k
