-- ===== src/Scheduler/Methods.antt =====
-- The public methods of Scheduler in voxcpm_runtime/scheduler.py.
use open_bmb_vox_cpm2_infere.Common.{
  ℕ, Bool, true, false, not, Option, none, some, String, String_discrete, List, [], ◌∷◌, ◌++◌, leb,
  ite, if◌then◌else◌,
}
use open_bmb_vox_cpm2_infere.Common.Exec.{Outcome, ok, raised, pure, raise, attempt, ◌>>=◌, ◌>>◌}
use open_bmb_vox_cpm2_infere.Common.Lists.{length}
use open_bmb_vox_cpm2_infere.Common.Dict.{lookup, member}
use open_bmb_vox_cpm2_infere.Worker.Types.{WorkerMessage, WorkerRequest, Detail}
use open_bmb_vox_cpm2_infere.Worker.Errors.{
  Exception, WorkerFault, WorkerErrorClass, worker, value_error, admission_error, transport_error,
  exited_error, fault_with, retryable_fault,
}
use open_bmb_vox_cpm2_infere.Worker.Platform.{Platform}
use open_bmb_vox_cpm2_infere.Worker.Client.Methods.{receive, cancel_active, shutdown, is_terminal}
use open_bmb_vox_cpm2_infere.Worker.Client.Methods
use open_bmb_vox_cpm2_infere.Scheduler.{
  Scheduler, PendingRequest, ready_workers, healthy_workers, saturated, cancelled_event, push,
  retire, assign, remember, Action, self, update, now, on_worker,
}
use open_bmb_vox_cpm2_infere.Scheduler.Queue.{
  expire_pending, expire_active, worker_failed, dispatch_pending,
  fail_pending_without_healthy_workers,
}

pub data SubmissionState : Type 0 where
  dispatched queued : SubmissionState

abbrev pub is_empty {ℓ} : {A : Type ℓ} → List A → Bool
is_empty [] = true
is_empty (x ∷ xs) = false

-- The queue without its first request of this id, where it has one.
unfoldable pub without_pending : String → List PendingRequest → Option (List PendingRequest)
without_pending r [] = none
without_pending r (p ∷ ps) =
    let rest = without_pending r ps in
    ite (String_discrete p.request.request_id r) (some ps)
      (elim rest [ none ↦ none | some qs ↦ some (p ∷ qs) ])

-- The first worker, in order, whose running request is `r`.
unfoldable pub worker_running : String → Scheduler → List String → Option String
worker_running r s [] = none
worker_running r s (k ∷ ks) =
    let rest = worker_running r s ks in
    elim (lookup k s.active) [ none ↦ rest | some q ↦ ite (String_discrete q r) (some k) rest ]

-- The `while` loop of `close`.
unfoldable pub cancel_all : List PendingRequest → Scheduler → Scheduler
cancel_all [] s = record s { pending = [] }
cancel_all (p ∷ ps) s =
    cancel_all ps (push (cancelled_event "scheduler" p.request.request_id "shutdown") s)

module _ (P : Platform) where
  open P use {World}

  unfoldable pub enqueue : WorkerRequest → Action P SubmissionState
  enqueue r = do
    s ← self P
    if leb s.max_pending (length s.pending)
        then raise (
            retryable_fault admission_error "queue_full" (
              ("max_pending_requests", Detail.number s.max_pending)
              ∷ ("pending_requests", Detail.number (length s.pending))
              ∷ []))
        else if is_empty (healthy_workers s)
        then raise (retryable_fault admission_error "no_healthy_worker" [])
        else do
          t ← now P
          update P (λ s. record s {
            pending = s.pending ++ record { request = r; enqueued_at = t } ∷ [];
          })
          update P (remember r.request_id)
          pure queued

  unfoldable pub admit : WorkerRequest → List String → Bool → Action P SubmissionState
  admit r (k ∷ ks) false = do
    on_worker P k (Methods.submit P r)
    t ← now P
    update P (assign k r.request_id t)
    update P (remember r.request_id)
    pure dispatched
  admit r _ _ = enqueue r

  -- Scheduler.submit
  unfoldable pub submit : WorkerRequest → Action P SubmissionState
  unfolding admit enqueue
  submit r = do
    s ← self P
    if s.closed
        then raise (fault_with admission_error "scheduler_closed" [])
        else if member r.request_id s.submitted_ids
        then raise (
            fault_with admission_error "duplicate_request_id"
              (("request_id", Detail.text r.request_id) ∷ []))
        else admit r (ready_workers s) (saturated s)

  -- Scheduler._drain_events
  unfoldable pub drain_events : Action P (List WorkerMessage)
  drain_events = do s ← self P; update P (λ s. record s { events = [] }); pure s.events

  -- The `except` clauses of `poll`; other errors pass.
  unfoldable pub not_received :
      String → String → WorkerFault → WorkerErrorClass → Action P (Unit {0})
  unfolding String_discrete
  not_received k r e transport_error =
      ite (String_discrete e.code "worker_receive_timeout") (pure tt) (worker_failed P k r e.code)
  not_received k r e exited_error = worker_failed P k r "worker_exited"
  not_received k r e _ = raise (worker e)

  -- What follows `worker.receive` in `poll`.
  unfoldable pub polled : String → String → Outcome Exception WorkerMessage → Action P (Unit {0})
  unfolding not_received
  polled k r (ok m) = do
    update P (push m)
    if is_terminal m.kind then (do update P (retire k); dispatch_pending P) else pure tt
  polled k r (raised (worker e)) = not_received k r e e.class
  polled k r (raised e) = raise e

  unfoldable pub poll_running : ℕ → String → Option String → Action P (Unit {0})
  poll_running timeout k none = pure tt
  poll_running timeout k (some r) = do
    got ← attempt (on_worker P k (receive P (some timeout)))
    polled k r got

  unfoldable pub poll_workers : ℕ → List String → Action P (Unit {0})
  poll_workers timeout [] = pure tt
  poll_workers timeout (k ∷ ks) = do
    s ← self P
    poll_running timeout k (lookup k s.active)
    poll_workers timeout ks

  -- Scheduler.poll
  unfoldable pub poll : ℕ → Action P (List WorkerMessage)
  poll timeout = do
    expire_active P
    expire_pending P
    s ← self P
    if not (is_empty s.events)
        then drain_events
        else do poll_workers timeout s.workers; fail_pending_without_healthy_workers P; drain_events

  unfoldable pub cancel_running : String → Option String → Action P WorkerMessage
  cancel_running r none =
      raise (fault_with admission_error "request_not_found" (("request_id", Detail.text r) ∷ []))
  cancel_running r (some k) = do
    stopped ← on_worker P k (cancel_active P)
    update P (retire k)
    fail_pending_without_healthy_workers P
    pure (cancelled_event k stopped "active")

  unfoldable pub cancel_found : String → Option (List PendingRequest) → Action P WorkerMessage
  unfolding cancel_running
  cancel_found r (some rest) = do
    update P (λ s. record s { pending = rest })
    pure (cancelled_event "scheduler" r "pending")
  cancel_found r none = do s ← self P; cancel_running r (worker_running r s s.workers)

  -- Scheduler.cancel
  unfoldable pub cancel : String → Action P WorkerMessage
  unfolding cancel_found String_discrete
  cancel r =
      ite (String_discrete r "") (raise (value_error "request_id must be non-empty"))
        do s ← self P; cancel_found r (without_pending r s.pending)

  -- `except WorkerError: pass`
  unfoldable pub ignore_worker_error : Outcome Exception (Unit {0}) → Action P (Unit {0})
  ignore_worker_error (ok _) = pure tt
  ignore_worker_error (raised (worker e)) = pure tt
  ignore_worker_error (raised e) = raise e

  unfoldable pub shutdown_workers : List String → Action P (Unit {0})
  shutdown_workers [] = pure tt
  shutdown_workers (k ∷ ks) = do
    done ← attempt (on_worker P k (shutdown P))
    ignore_worker_error done
    shutdown_workers ks

  unfoldable pub close_now : Action P (Unit {0})
  close_now = do
    update P (λ s. cancel_all s.pending (record s { closed = true }))
    s ← self P
    shutdown_workers s.workers
    update P (λ s. record s { active = []; active_started = [] })

  -- Scheduler.close
  unfoldable pub close : Action P (Unit {0})
  unfolding close_now
  close = do s ← self P; if s.closed then pure tt else close_now
