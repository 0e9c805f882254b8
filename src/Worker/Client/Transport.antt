-- ===== src/Worker/Client/Transport.antt =====
-- The private helpers of WorkerClient in voxcpm_runtime/worker_client.py.
use mathlib.Core.Option.{get_or}
use open_bmb_vox_cpm2_infere.Common.{
  ℕ, Bool, true, false, Option, none, some, [], ◌∷◌, if◌then◌else◌,
}
use open_bmb_vox_cpm2_infere.Common.Exec.{pure, raise, ◌>>=◌, ◌>>◌}
use open_bmb_vox_cpm2_infere.Worker.Types.{WorkerMessage}
use open_bmb_vox_cpm2_infere.Worker.Errors.{
  Exception, WorkerErrorClass, transport_error, exited_error, worker, fault, fault_with,
  retryable_fault,
}
use open_bmb_vox_cpm2_infere.Worker.Platform.{Platform, Received, message, alien, empty, broken}
use open_bmb_vox_cpm2_infere.Worker.Client.{
  WorkerClient, failed, set_state, Method, outside, effect, self, update,
}

-- WorkerClient._error_from_message
unfoldable pub error_from_message : WorkerMessage → WorkerErrorClass → Exception
error_from_message m class = elim m.error [
  | none ↦ fault class
  | some e ↦ worker (record {
    class = class;
    message = e.message;
    code = e.code;
    retryable = e.retryable;
    details = e.details;
  })
]

-- WorkerClient._mark_failed
abbrev pub mark_failed : WorkerClient → WorkerClient
mark_failed = set_state failed

-- WorkerClient._cleanup_transport: the fields are cleared first.
abbrev pub without_transport : WorkerClient → WorkerClient
without_transport c = record c { control = none; results = none }

module _ (P : Platform) where
  open P use {World}

  unfoldable pub when_present : Option ℕ → (ℕ → World → World) → World → World
  when_present none f w = w
  when_present (some h) f w = f h w

  unfoldable pub cleanup_transport : Method P (Unit {0})
  cleanup_transport = do
    c ← self P
    update P without_transport
    effect P (when_present c.control P.close_connection)
    effect P (when_present c.results P.close_queue)

  unfoldable pub kill_if_alive : ℕ → ℕ → Bool → World → World
  kill_if_alive p timeout true w = P.join p timeout (P.kill p w)
  kill_if_alive p timeout false w = w

  unfoldable pub terminate_if_alive : ℕ → Bool → World → World
  terminate_if_alive p true w = P.terminate p w
  terminate_if_alive p false w = w

  -- The process is asked to end, then killed if it has not.
  unfoldable pub stop_process : ℕ → ℕ → World → World
  unfolding terminate_if_alive kill_if_alive
  stop_process timeout p w =
      let (alive, w₁) = P.is_alive p w in
      let w₂ = P.join p timeout (terminate_if_alive p alive w₁) in
      let (still_alive, w₃) = P.is_alive p w₂ in kill_if_alive p timeout still_alive w₃

  -- WorkerClient._terminate_and_join
  unfoldable pub terminate_and_join : Method P (Unit {0})
  terminate_and_join = do
    c ← self P
    effect P (when_present c.process (stop_process c.shutdown_timeout))

  -- A receive that ran into its timeout: the worker has exited, or is only late.
  unfoldable pub timed_out : Option ℕ → Method P WorkerMessage
  timed_out none = raise (retryable_fault transport_error "worker_receive_timeout" [])
  timed_out (some p) = do
    alive ← outside P (P.is_alive p)
    if alive then raise (retryable_fault transport_error "worker_receive_timeout" []) else do
      code ← outside P (λ w. (P.exitcode p w, w))
      update P mark_failed
      raise (fault_with exited_error "worker_exited" (("exitcode", code) ∷ []))

  unfoldable pub received : Received → Method P WorkerMessage
  unfolding timed_out
  received (message m) = pure m
  received empty = do c ← self P; timed_out c.process
  received broken = do update P mark_failed; raise (fault transport_error)
  received alien = do
    update P mark_failed
    raise (fault_with transport_error "invalid_worker_message" [])

  unfoldable pub receive_from : ℕ → Option ℕ → Method P WorkerMessage
  unfolding received
  receive_from timeout none = raise (fault transport_error)
  receive_from timeout (some q) = do got ← outside P (P.get q timeout); received got

  -- WorkerClient._receive_message
  unfoldable pub receive_message : Option ℕ → Method P WorkerMessage
  unfolding receive_from
  receive_message timeout = do c ← self P; receive_from (get_or timeout c.startup_timeout) c.results
