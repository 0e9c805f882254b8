-- ===== src/Worker/Client/Methods.antt =====
-- The public methods of WorkerClient in voxcpm_runtime/worker_client.py.
use open_bmb_vox_cpm2_infere.Common.{
  ℕ, Bool, true, false, Option, none, some, String, String_discrete, [], ◌∷◌, ite, if◌then◌else◌,
}
use open_bmb_vox_cpm2_infere.Common.Exec.{
  Outcome, ok, raised, pure, raise, attempt, finally, ◌>>=◌, ◌>>◌,
}
use open_bmb_vox_cpm2_infere.Worker.Types
use open_bmb_vox_cpm2_infere.Worker.Types.{
  AudioResult, AudioChunk, WorkerMessage, WorkerMessageKind, WorkerRequest, WorkerResultPayload,
  WorkerOperation, Detail,
}
use open_bmb_vox_cpm2_infere.Worker.Errors.{
  Exception, worker_error, state_error, start_error, transport_error, exited_error, worker,
  value_error, os_error, fault, fault_with,
}
use open_bmb_vox_cpm2_infere.Worker.Platform.{Platform}
use open_bmb_vox_cpm2_infere.Worker.Platform
use open_bmb_vox_cpm2_infere.Worker.Client.{
  WorkerClient, WorkerState, created, starting, ready, busy, stopping, stopped, failed, set_state,
  state_value, Method, outside, effect, self, update,
}
use open_bmb_vox_cpm2_infere.Worker.Client.Transport.{
  mark_failed, error_from_message, cleanup_transport, terminate_and_join, receive_message,
}

unfoldable pub kind_value : WorkerMessageKind → String
kind_value Types.ready = "ready"
kind_value Types.result = "result"
kind_value Types.stream_chunk = "stream_chunk"
kind_value Types.stream_end = "stream_end"
kind_value Types.error = "error"
kind_value Types.cancelled = "cancelled"
kind_value Types.shutdown_ack = "shutdown_ack"

-- message.kind in {"result", "error", "stream_end", "cancelled"}
abbrev pub is_terminal : WorkerMessageKind → Bool
is_terminal Types.result = true
is_terminal Types.error = true
is_terminal Types.stream_end = true
is_terminal Types.cancelled = true
is_terminal _ = false

-- Both ids are present and they differ.
unfoldable pub ids_differ : Option String → Option String → Bool
ids_differ (some r) (some a) = ite (String_discrete r a) false true
ids_differ _ _ = false

-- The worker's state once its request has ended.
abbrev pub after_request : WorkerState → WorkerState
after_request stopping = stopping
after_request _ = ready

unfoldable pub submitted : WorkerRequest → WorkerClient → WorkerClient
submitted r c = record c { active_request_id = some r.request_id; state = busy }

unfoldable pub settled : WorkerClient → WorkerClient
settled c = record c { active_request_id = none; state = after_request c.state }

module _ (P : Platform) where
  open P use {World}

  -- What the worker answers while it starts; anything but "ready" fails the start.
  unfoldable pub started : WorkerMessage → Method P WorkerMessage
  unfolding kind_value
  started m = elim m.kind [
    | Types.ready ↦ do update P (λ c. record c { ready_message = some m; state = ready }); pure m
    | Types.error ↦ do
      update P mark_failed
      terminate_and_join P
      raise (error_from_message m start_error)
    | other ↦ do
      update P mark_failed
      terminate_and_join P
      raise (
          fault_with start_error "worker_start_failed"
            (("kind", Detail.text (kind_value other)) ∷ []))
  ]

  unfoldable pub first_message : Outcome Exception WorkerMessage → Method P WorkerMessage
  unfolding started
  first_message (ok m) = started m
  first_message (raised (worker e)) = do
    update P mark_failed
    terminate_and_join P
    raise (worker e)
  first_message (raised e) = raise e

  -- What follows `process.start()` in `start`, by whether it raised.
  unfoldable pub greeted : ℕ → ℕ → Bool → Method P WorkerMessage
  unfolding first_message
  greeted timeout child_control true = do
    effect P (P.close_connection child_control)
    first ← attempt (receive_message P (some timeout))
    first_message first
  greeted timeout child_control false = raise os_error

  -- What follows `ctx.Queue` in `start`, by whether it raised.
  unfoldable pub spawn : WorkerClient → ℕ → ℕ → Option ℕ → Method P WorkerMessage
  unfolding greeted
  spawn c parent_control child_control none = raise os_error
  spawn c parent_control child_control (some results) = do
    process ← outside P (P.process child_control results c.spec)
    update P (λ c. record c {
      state = starting;
      control = some parent_control;
      results = some results;
      process = some process;
    })
    launched ← outside P (P.start process)
    greeted c.startup_timeout child_control launched

  -- What follows `ctx.Pipe` in `start`, by whether it raised.
  unfoldable pub connect : WorkerClient → Option (ℕ × ℕ) → Method P WorkerMessage
  unfolding spawn
  connect c none = raise os_error
  connect c (some (parent_control, child_control)) = do
    results ← outside P (P.queue c.stream_buffer_chunks)
    spawn c parent_control child_control results

  unfoldable pub launch : WorkerClient → Method P WorkerMessage
  unfolding connect
  launch c = do pipe ← outside P P.pipe; connect c pipe

  unfoldable pub start_in : WorkerState → WorkerClient → Method P WorkerMessage
  unfolding launch
  start_in created c = launch c
  start_in _ c = raise (fault_with state_error "worker_already_started" [])

  -- WorkerClient.start
  unfoldable pub start : Method P WorkerMessage
  unfolding start_in
  start = do c ← self P; start_in c.state c

  transmit : WorkerRequest → Option ℕ → Method P (Unit {0})
  transmit r none = raise (fault transport_error)
  transmit r (some control) = do
    sent ← outside P (P.send control (Platform.request r))
    if sent then update P (submitted r) else do update P mark_failed; raise (fault exited_error)

  -- WorkerClient.submit
  unfoldable pub submit : WorkerRequest → Method P (Unit {0})
  unfolding transmit submitted
  submit r = do
    c ← self P
    elim c.state [
      | ready ↦ transmit r c.control
      | other ↦ raise (
          fault_with state_error "worker_not_ready"
            (("state", Detail.text (state_value other)) ∷ []))
    ]

  unfoldable pub deliver : WorkerMessage → Method P WorkerMessage
  unfolding ids_differ settled
  deliver m = do
    c ← self P
    if ids_differ m.request_id c.active_request_id
        then (do update P mark_failed; raise (fault_with transport_error "request_id_mismatch" []))
        else do update P (λ c. if is_terminal m.kind then settled c else c); pure m

  unfoldable pub receive_active : Option ℕ → Method P WorkerMessage
  unfolding deliver
  receive_active timeout = do m ← receive_message P timeout; deliver m

  unfoldable pub receive_in : WorkerState → Option ℕ → Method P WorkerMessage
  unfolding receive_active
  receive_in busy timeout = receive_active timeout
  receive_in stopping timeout = receive_active timeout
  receive_in other timeout =
      raise
        (fault_with state_error "worker_not_busy" (("state", Detail.text (state_value other)) ∷ []))

  -- WorkerClient.receive
  unfoldable pub receive : Option ℕ → Method P WorkerMessage
  unfolding receive_in
  receive timeout = do c ← self P; receive_in c.state timeout

  invalid_result : Method P AudioResult
  invalid_result = do
    update P mark_failed
    raise (fault_with transport_error "invalid_worker_result" [])

  unpack_result : WorkerResultPayload → Method P AudioResult
  unfolding invalid_result
  unpack_result (Types.audio_result a) = pure a
  unpack_result _ = invalid_result

  one_result : WorkerMessage → Method P AudioResult
  unfolding unpack_result error_from_message
  one_result m = elim m.kind [
    | Types.error ↦ raise (error_from_message m worker_error)
    | Types.result ↦ unpack_result m.payload
    | _ ↦ invalid_result
  ]

  -- WorkerClient.execute
  unfoldable pub execute : WorkerRequest → Option ℕ → Method P AudioResult
  unfolding one_result
  execute r timeout = elim r.operation [
    | Types.stream ↦ raise (value_error "execute does not accept stream requests")
    | _ ↦ do submit r; m ← receive timeout; one_result m
  ]

  unfoldable pub stop_active : Option String → Method P String
  stop_active none = raise (fault_with state_error "no_active_request" [])
  stop_active (some r) = do
    terminate_and_join P
    update P (λ c. record c { active_request_id = none; state = stopped })
    cleanup_transport P
    pure r

  -- WorkerClient.cancel_active
  unfoldable pub cancel_active : Method P String
  unfolding stop_active terminate_and_join cleanup_transport
  cancel_active = do
    c ← self P
    elim c.state [
      | busy ↦ stop_active c.active_request_id
      | _ ↦ raise (fault_with state_error "no_active_request" [])
    ]

  acknowledged : WorkerMessageKind → Method P (Unit {0})
  unfolding kind_value
  acknowledged Types.shutdown_ack = pure tt
  acknowledged other = raise (
      fault_with transport_error "invalid_shutdown_ack"
        (("kind", Detail.text (kind_value other)) ∷ []))

  -- The body of the `try` of `shutdown`.
  ask_to_stop : ℕ → ℕ → Method P (Unit {0})
  unfolding acknowledged
  ask_to_stop timeout control = do
    sent ← outside P (P.send control Platform.shutdown)
    if sent then (do m ← receive_message P (some timeout); acknowledged m.kind) else raise os_error

  -- Its `except WorkerError` and `else` blocks; other exceptions pass.
  await_exit : ℕ → ℕ → Outcome Exception (Unit {0}) → Method P (Unit {0})
  await_exit timeout process (ok _) = do
    effect P (P.join process timeout)
    alive ← outside P (P.is_alive process)
    if alive then terminate_and_join P else pure tt
  await_exit timeout process (raised (worker e)) = terminate_and_join P
  await_exit timeout process (raised e) = raise e

  stop_idle : ℕ → Option ℕ → Option ℕ → Method P (Unit {0})
  unfolding ask_to_stop await_exit
  stop_idle timeout (some control) (some process) = do
    update P (set_state stopping)
    finally (do asked ← attempt (ask_to_stop timeout control); await_exit timeout process asked)
        do update P (set_state stopped); cleanup_transport P
  stop_idle timeout _ _ = do update P (set_state stopped); cleanup_transport P

  -- WorkerClient.shutdown, also named close
  unfoldable pub shutdown : Method P (Unit {0})
  unfolding stop_idle cancel_active terminate_and_join cleanup_transport
  shutdown = do
    c ← self P
    elim c.state [
      | stopped ↦ pure tt
      | created ↦ update P (set_state stopped)
      | busy ↦ do cancel_active; pure tt
      | failed ↦ do terminate_and_join P; cleanup_transport P; update P (set_state stopped)
      | _ ↦ stop_idle c.shutdown_timeout c.control c.process
    ]
