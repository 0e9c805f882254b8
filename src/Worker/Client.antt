-- ===== src/Worker/Client.antt =====
-- WorkerClient of voxcpm_runtime/worker_client.py, its state and its private helpers.
pub mod Transport
pub mod Methods
pub mod Valid
pub mod Running
pub mod Ending
pub mod Lifecycle
pub mod Stream
use open_bmb_vox_cpm2_infere.Common.{ℕ, Option, String}
use open_bmb_vox_cpm2_infere.Common.Exec.{Exec, ok}
use open_bmb_vox_cpm2_infere.Worker.Types.{WorkerBootstrapSpec, WorkerMessage}
use open_bmb_vox_cpm2_infere.Worker.Errors.{Exception}
use open_bmb_vox_cpm2_infere.Worker.Platform.{Platform}

pub data WorkerState : Type 0 where
  created starting ready busy stopping stopped failed : WorkerState

pub record WorkerClient : Type 0 where
  pub spec : WorkerBootstrapSpec
  pub startup_timeout : ℕ
  pub shutdown_timeout : ℕ
  pub stream_buffer_chunks : ℕ
  pub state : WorkerState
  pub process : Option ℕ
  pub control : Option ℕ
  pub results : Option ℕ
  pub active_request_id : Option String
  pub ready_message : Option WorkerMessage

abbrev pub set_state : WorkerState → WorkerClient → WorkerClient
set_state s c = record c { state = s }

unfoldable pub state_value : WorkerState → String
state_value created = "created"
state_value starting = "starting"
state_value ready = "ready"
state_value busy = "busy"
state_value stopping = "stopping"
state_value stopped = "stopped"
state_value failed = "failed"

module _ (P : Platform) where
  open P use {World}

  abbrev pub Method : Type 0 → Type 0
  Method A = Exec Exception (WorkerClient × World) A

  -- A call of the platform that gives a value, or one that gives none.
  abbrev pub outside : {A : Type 0} → (World → A × World) → Method A
  outside f (c, w) = let (a, w') = f w in (ok a, (c, w'))

  abbrev pub effect : (World → World) → Method (Unit {0})
  effect f (c, w) = (ok tt, (c, f w))

  abbrev pub self : Method WorkerClient
  self (c, w) = (ok c, (c, w))

  abbrev pub update : (WorkerClient → WorkerClient) → Method (Unit {0})
  update f (c, w) = (ok tt, (f c, w))
