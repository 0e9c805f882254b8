-- ===== src/Scheduler/Queue.antt =====
-- The queue of voxcpm_runtime/scheduler.py: timeouts of waiting and running requests, dispatch of
-- waiting ones, and their failure when no worker is left.
use open_bmb_vox_cpm2_infere.Common.{
  ℕ, ◌+◌, Option, none, some, String, List, [], ◌∷◌, leb, if◌then◌else◌,
}
use open_bmb_vox_cpm2_infere.Common.Exec.{Outcome, ok, raised, pure, raise, attempt, ◌>>=◌, ◌>>◌}
use open_bmb_vox_cpm2_infere.Common.Dict.{lookup}
use open_bmb_vox_cpm2_infere.Worker.Errors.{
  Exception, WorkerFault, WorkerErrorClass, worker, state_error,
}
use open_bmb_vox_cpm2_infere.Worker.Platform.{Platform}
use open_bmb_vox_cpm2_infere.Worker.Client.Methods.{cancel_active}
use open_bmb_vox_cpm2_infere.Worker.Client.Methods
use open_bmb_vox_cpm2_infere.Scheduler.{
  Scheduler, PendingRequest, ready_workers, healthy_workers, saturated, error_event, push, retire,
  assign, Action, self, update, now, on_worker,
}

-- The queue_timeout event of a request that waited too long.
abbrev pub queue_timeout_event : PendingRequest → Scheduler → Scheduler
queue_timeout_event p = push (
    error_event "scheduler" p.request.request_id "queue_timeout"
      "Request expired while waiting for an inference worker.")

-- The `while` loop of `_expire_pending`, over the queue from its front.
unfoldable pub expire_from : ℕ → ℕ → List PendingRequest → Scheduler → Scheduler
expire_from timeout t [] s = record s { pending = [] }
expire_from timeout t (p ∷ ps) s =
    let rest = expire_from timeout t ps (queue_timeout_event p s) in
    if leb (p.enqueued_at + timeout) t then rest else record s { pending = p ∷ ps }

-- The `while` loop of `_fail_pending_without_healthy_workers`.
unfoldable pub fail_all : List PendingRequest → Scheduler → Scheduler
fail_all [] s = record s { pending = [] }
fail_all (p ∷ ps) s = fail_all ps (
    push
      (error_event "scheduler" p.request.request_id "no_healthy_worker"
        "No healthy worker is available.")
      s)

unfoldable pub fail_unless : List String → Scheduler → Scheduler
fail_unless [] s = fail_all s.pending s
fail_unless (k ∷ ks) s = s

module _ (P : Platform) where
  open P use {World}

  unfoldable pub expire_after : Option ℕ → Action P (Unit {0})
  expire_after none = pure tt
  expire_after (some timeout) = do t ← now P; update P (λ s. expire_from timeout t s.pending s)

  -- Scheduler._expire_pending
  unfoldable pub expire_pending : Action P (Unit {0})
  unfolding expire_after
  expire_pending = do s ← self P; expire_after s.queue_timeout

  -- Scheduler._fail_pending_without_healthy_workers
  unfoldable pub fail_pending_without_healthy_workers : Action P (Unit {0})
  fail_pending_without_healthy_workers = update P (λ s. fail_unless (healthy_workers s) s)

  -- Scheduler._worker_failed
  unfoldable pub worker_failed : String → String → String → Action P (Unit {0})
  worker_failed k r code =
      update P (λ s. push (error_event k r code "Worker process is unavailable.") (retire k s))

  -- `except WorkerStateError`; other errors pass.
  unfoldable pub not_dispatched :
      PendingRequest → WorkerFault → WorkerErrorClass → Action P (Unit {0})
  not_dispatched p e state_error = update P (λ s. record s { pending = p ∷ s.pending })
  not_dispatched p e _ = raise (worker e)

  -- What follows `worker.submit(pending.request)` in `_dispatch_pending`.
  unfoldable pub dispatched :
      String
      → PendingRequest
      → Action P (Unit {0})
      → Outcome Exception (Unit {0})
      → Action P (Unit {0})
  unfolding not_dispatched
  dispatched k p next (ok _) = do t ← now P; update P (assign k p.request.request_id t); next
  dispatched k p next (raised (worker e)) = not_dispatched p e e.class
  dispatched k p next (raised e) = raise e

  unfoldable pub dispatch_to :
      PendingRequest → List PendingRequest → Action P (Unit {0}) → List String → Action P (Unit {0})
  unfolding dispatched
  dispatch_to p rest next [] = pure tt
  dispatch_to p rest next (k ∷ ks) = do
    update P (λ s. record s { pending = rest })
    sent ← attempt (on_worker P k (Methods.submit P p.request))
    dispatched k p next sent

  -- The `while` loop of `_dispatch_pending`, over the queue from its front.
  unfoldable pub dispatch_loop : List PendingRequest → Action P (Unit {0})
  dispatch_loop [] = pure tt
  dispatch_loop (p ∷ rest) = do
    s ← self P
    if saturated s then pure tt else dispatch_to p rest (dispatch_loop rest) (ready_workers s)

  -- Scheduler._dispatch_pending
  unfoldable pub dispatch_pending : Action P (Unit {0})
  dispatch_pending = do expire_pending; s ← self P; dispatch_loop s.pending

  -- The event and the bookkeeping once a running request was stopped; only a WorkerError of the
  -- cancellation is ignored.
  unfoldable pub inference_timed_out :
      String → String → Outcome Exception String → Action P (Unit {0})
  inference_timed_out k r (raised (worker e)) = update P (λ s.
      push (error_event k r "inference_timeout" "Inference exceeded the configured time limit.")
        (retire k s))
  inference_timed_out k r (ok _) = update P (λ s.
      push (error_event k r "inference_timeout" "Inference exceeded the configured time limit.")
        (retire k s))
  inference_timed_out k r (raised e) = raise e

  unfoldable pub expire_running : ℕ → ℕ → String → Option String → Option ℕ → Action P (Unit {0})
  unfolding inference_timed_out
  expire_running timeout t k (some r) (some started) =
      if leb (started + timeout) t
      then (do stopped ← attempt (on_worker P k (cancel_active P)); inference_timed_out k r stopped)
      else pure tt
  expire_running timeout t k _ _ = pure tt

  unfoldable pub expire_worker : ℕ → ℕ → String → Action P (Unit {0})
  unfolding expire_running
  expire_worker timeout t k = do
    s ← self P
    expire_running timeout t k (lookup k s.active) (lookup k s.active_started)

  unfoldable pub expire_workers : ℕ → ℕ → List String → Action P (Unit {0})
  expire_workers timeout t [] = pure tt
  expire_workers timeout t (k ∷ ks) = do expire_worker timeout t k; expire_workers timeout t ks

  unfoldable pub expire_active_after : Option ℕ → Action P (Unit {0})
  expire_active_after none = pure tt
  expire_active_after (some timeout) = do
    t ← now P
    s ← self P
    expire_workers timeout t s.workers
    fail_pending_without_healthy_workers

  -- Scheduler._expire_active
  unfoldable pub expire_active : Action P (Unit {0})
  unfolding expire_active_after
  expire_active = do s ← self P; expire_active_after s.max_inference
