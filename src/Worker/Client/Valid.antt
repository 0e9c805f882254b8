-- ===== src/Worker/Client/Valid.antt =====
-- The well-formedness of a WorkerClient, and that every method of
-- voxcpm_runtime/worker_client.py keeps it, whatever the platform does.
use open_bmb_vox_cpm2_infere.Common.{
  ℕ, Bool, true, false, ◌&&◌, not, ◌≡◌, Option, none, some, String, arith,
}
use open_bmb_vox_cpm2_infere.Worker.Types.{WorkerRequest}
use open_bmb_vox_cpm2_infere.Worker.Platform.{Platform}
use open_bmb_vox_cpm2_infere.Worker.Client.{
  WorkerClient, WorkerState, created, starting, ready, busy, stopping, stopped, failed,
}
use open_bmb_vox_cpm2_infere.Worker.Client.Transport.{receive_message, terminate_and_join}
use open_bmb_vox_cpm2_infere.Worker.Client.Methods.{start, submit, receive, cancel_active, shutdown}

abbrev pub present {ℓ} : {A : Type ℓ} → Option A → Bool
present none = false
present (some a) = true

-- What the fields of a client hold in each state: request, control, results, process.
abbrev pub shape : WorkerState → Option String → Option ℕ → Option ℕ → Option ℕ → Bool
shape created a c r p = not (present a) && (not (present c) && (not (present r) && not (present p)))
shape starting a c r p = not (present a) && (present c && (present r && present p))
shape ready a c r p = not (present a) && (present c && (present r && present p))
shape busy a c r p = present a && (present c && (present r && present p))
shape stopping a c r p = not (present a) && (present c && (present r && present p))
shape stopped a c r p = not (present c) && not (present r)
shape failed a c r p = present c && (present r && present p)

abbrev pub IsValid : WorkerClient → Type 0
IsValid c = shape c.state c.active_request_id c.control c.results c.process ≡ true

module _ (P : Platform) where
  open P use {World}

  pub start-IsValid : (c : WorkerClient) (w : World) → IsValid c → IsValid (start P (c, w)).1.0
  unfolding start receive_message terminate_and_join
  start-IsValid c w v = ground arith

  pub submit-IsValid :
      (r : WorkerRequest) (c : WorkerClient) (w : World)
      → IsValid c
      → IsValid (submit P r (c, w)).1.0
  unfolding submit
  submit-IsValid r c w v = ground arith

  pub receive-IsValid :
      (t : Option ℕ) (c : WorkerClient) (w : World) → IsValid c → IsValid (receive P t (c, w)).1.0
  unfolding receive receive_message
  receive-IsValid t c w v = ground arith

  pub cancel_active-IsValid :
      (c : WorkerClient) (w : World) → IsValid c → IsValid (cancel_active P (c, w)).1.0
  unfolding cancel_active
  cancel_active-IsValid c w v = ground arith

  pub shutdown-IsValid :
      (c : WorkerClient) (w : World) → IsValid c → IsValid (shutdown P (c, w)).1.0
  unfolding shutdown receive_message
  shutdown-IsValid c w v = ground arith
