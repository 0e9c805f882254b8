-- ===== src/Scheduler/Consistency.antt =====
-- Every public method of Scheduler in voxcpm_runtime/scheduler.py but `close` keeps the scheduler
-- consistent.
use open_bmb_vox_cpm2_infere.Common.{
  ℕ, ◌≤◌, ◌≡◌, refl, sym, leb, not, if◌then◌else◌, Bool, true, false, Option, none, some, String,
  List, [], ◌∷◌, arith, Option-cases, Bool-cases, inl, inr, ◌∙◌, String_discrete,
}
use open_bmb_vox_cpm2_infere.Common.Exec.{Outcome, ok, raised, continue, pure, ◌>>=◌, ◌>>◌}
use open_bmb_vox_cpm2_infere.Common.Dict.{lookup, member}
use open_bmb_vox_cpm2_infere.Common.Lists.{length, length-append}
use open_bmb_vox_cpm2_infere.Worker.Types.{WorkerMessage, WorkerRequest}
use open_bmb_vox_cpm2_infere.Worker.Errors.{
  Exception, worker, os_error, value_error, WorkerErrorClass,
}
use open_bmb_vox_cpm2_infere.Worker.Platform.{Platform}
use open_bmb_vox_cpm2_infere.Worker.Client.{WorkerClient}
use open_bmb_vox_cpm2_infere.Worker.Client.Valid.{IsValid, submit-IsValid, cancel_active-IsValid}
use open_bmb_vox_cpm2_infere.Worker.Client.Methods.{cancel_active}
use open_bmb_vox_cpm2_infere.Worker.Client.Methods
use open_bmb_vox_cpm2_infere.Worker.Client.Running.{
  running, AfterSubmit, AfterCancel, FaultAfterSubmit, running-submit, running-cancel_active,
}
use open_bmb_vox_cpm2_infere.Scheduler.{
  Scheduler, PendingRequest, Action, is_ready, ready_workers, healthy_workers, saturated, on_worker,
  store, assign, remember, retire, cancelled_event, now, update,
}
use open_bmb_vox_cpm2_infere.Scheduler.Queue.{
  expire_pending, expire_active, fail_pending_without_healthy_workers,
}
use open_bmb_vox_cpm2_infere.Scheduler.Methods.{
  SubmissionState, dispatched, is_empty, without_pending, worker_running, enqueue, admit, submit,
  poll_running, poll_workers, poll, drain_events, cancel_running, cancel_found, cancel,
}
use open_bmb_vox_cpm2_infere.Scheduler.Invariant.{
  IsConsistent, same-Agrees, retire-Agrees, assign-Agrees, limited-pop, limited-put,
}
use open_bmb_vox_cpm2_infere.Scheduler.Keeps.{
  Keeps, Keeps-continue, Keeps-bind, Keeps-if, if_at, expire_pending-Keeps, expire_active-Keeps,
  fail_pending-Keeps, workers_where-head,
}
use open_bmb_vox_cpm2_infere.Scheduler.KeepsDispatch.{
  ite-IsConsistent, ready_is_ready, idle_when_ready, poll_running-IsConsistent,
}

idle_after_fault :
    (class : WorkerErrorClass) {q : Option String} → FaultAfterSubmit class q → q ≡ none
idle_after_fault class h = ground arith

length-without_pending :
    (r : String) (ps qs : List PendingRequest)
    → without_pending r ps ≡ some qs
    → length qs ≤ length ps
unfolding without_pending
length-without_pending r [] qs e = cc
length-without_pending r (p ∷ ps) qs e = elim (Option-cases (without_pending r ps)) [
  | inl gone ↦ ground arith
  | inr (rest, found) ↦ ground (arith, length-without_pending r ps rest found)
]

module _ (P : Platform) where
  open P use {World}

  -- The entry that `enqueue` adds.
  abbrev waiting : WorkerRequest → Scheduler → World → PendingRequest
  waiting r s w = record { request = r; enqueued_at = (P.monotonic w).0 }

  abbrev stopped_after : String → String → Action P WorkerMessage
  stopped_after k r = do fail_pending_without_healthy_workers P; pure (cancelled_event k r "active")

  stopped_after-Keeps : (k r : String) → Keeps P (stopped_after k r)
  stopped_after-Keeps k r =
      Keeps-bind P (fail_pending_without_healthy_workers P)
        (λ _. pure (cancelled_event k r "active")) (fail_pending-Keeps P) (λ _ s w v. v)

  -- What follows `worker.cancel_active()` in `cancel`.
  abbrev stopped_running : String → String → Action P WorkerMessage
  stopped_running k r = do update P (retire k); stopped_after k r

  enqueue-Keeps : (r : WorkerRequest) → Keeps P (enqueue P r)
  unfolding enqueue
  enqueue-Keeps r s w v = elim (Bool-cases (leb s.max_pending (length s.pending))) [
    | inl full ↦ rw full v
    | inr room ↦ rw room (elim (Bool-cases (is_empty (healthy_workers s))) [
      | inl alone ↦ rw alone v
      | inr some_healthy ↦ rw some_healthy (record {
        bounded = ground (arith, length-append s.pending (waiting r s w ∷ []));
        limited = v.limited;
        agrees = v.agrees;
      })
    ])
  ]

  -- What follows `worker.submit(request)` in `submit`.
  abbrev accepted : String → String → Unit {0} → Action P SubmissionState
  accepted k r _ = do t ← now P; update P (assign k r t); update P (remember r); pure dispatched

  -- The new request was sent to a ready worker, whose new object is `c`.
  accepted-IsConsistent :
      (k r : String) (o : Outcome Exception (Unit {0})) (c : WorkerClient) (s : Scheduler)
      (w : World)
      → IsConsistent s
      → saturated s ≡ false
      → running (s.client k) ≡ none
      → IsValid c
      → AfterSubmit o (running c) r
      → IsConsistent (continue o (accepted k r) (record s { client = store k c s.client }, w)).1.0
  accepted-IsConsistent k r (ok _) c s w v room idle vc h = record {
    bounded = v.bounded;
    limited = limited-put s.max_concurrent s.active k r room;
    agrees = assign-Agrees v.agrees k c vc r (P.monotonic w).0 h;
  }
  accepted-IsConsistent k r (raised (worker e)) c s w v room idle vc h = record {
    bounded = v.bounded;
    limited = v.limited;
    agrees = same-Agrees v.agrees k c vc (idle_after_fault e.class h ∙ sym idle);
  }
  accepted-IsConsistent k r (raised os_error) c s w v room idle vc h = absurd h
  accepted-IsConsistent k r (raised (value_error _)) c s w v room idle vc h = absurd h

  admit-IsConsistent :
      (r : WorkerRequest) (ks : List String) (b : Bool) (s : Scheduler) (w : World)
      → ready_workers s ≡ ks
      → saturated s ≡ b
      → IsConsistent s
      → IsConsistent (admit P r ks b (s, w)).1.0
  unfolding admit on_worker
  admit-IsConsistent r [] b s w e f v = enqueue-Keeps r s w v
  admit-IsConsistent r (k ∷ ks) true s w e f v = enqueue-Keeps r s w v
  admit-IsConsistent r (k ∷ ks) false s w e f v =
      let sent = Methods.submit P r (s.client k, w) in
      let is_idle =
        ready_is_ready (s.client k).state (workers_where-head is_ready s.client s.workers e) in
      accepted-IsConsistent k r.request_id sent.0 sent.1.0 s sent.1.1 v f
        (idle_when_ready (s.client k) is_idle)
        (submit-IsValid P r (s.client k) w (v.agrees.valid k))
        (running-submit P (s.client k) w r (v.agrees.valid k) is_idle)

  -- `submit` keeps the scheduler consistent, whether the request is dispatched, queued or refused
  -- and whatever the worker's pipe does.
  pub submit-IsConsistent :
      (r : WorkerRequest) (s : Scheduler) (w : World)
      → IsConsistent s
      → IsConsistent (submit P r (s, w)).1.0
  unfolding submit
  submit-IsConsistent r s w v = if_at P s.closed _ _ s w v (
      if_at P (member r.request_id s.submitted_ids) _ _ s w v
        (admit-IsConsistent r (ready_workers s) (saturated s) s w refl refl v))

  cancelled-IsConsistent :
      (k r : String) (o : Outcome Exception String) (c : WorkerClient) (s : Scheduler) (w : World)
      → IsConsistent s
      → IsValid c
      → AfterCancel o (running c) r
      → IsConsistent
          (continue o (stopped_running k) (record s { client = store k c s.client }, w)).1.0
  cancelled-IsConsistent k r (ok q) c s w v vc h =
      Keeps-continue P (ok tt) (λ _. stopped_after k q) _ w (λ _. stopped_after-Keeps k q)
        (record {
          bounded = v.bounded;
          limited = limited-pop s.max_concurrent s.active k v.limited;
          agrees = retire-Agrees v.agrees k c vc h.1;
        })
  cancelled-IsConsistent k r (raised e) c s w v vc h = absurd h

  worker_running-head :
      (r k : String) (s : Scheduler) (ks : List String)
      → worker_running r s ks ≡ some k
      → lookup k s.active ≡ some r
  unfolding worker_running
  worker_running-head r k s [] e = cc
  worker_running-head r k s (j ∷ ks) e =
      ground (arith, λ (h : worker_running r s ks ≡ some k). worker_running-head r k s ks h)

  cancel_running-IsConsistent :
      (r : String) (o : Option String) (s : Scheduler) (w : World)
      → worker_running r s s.workers ≡ o
      → IsConsistent s
      → IsConsistent (cancel_running P r o (s, w)).1.0
  unfolding cancel_running on_worker
  cancel_running-IsConsistent r none s w e v = v
  cancel_running-IsConsistent r (some k) s w e v =
      let stop = cancel_active P (s.client k, w) in
      let runs = sym (v.agrees.running k) ∙ worker_running-head r k s s.workers e in
      cancelled-IsConsistent k r stop.0 stop.1.0 s stop.1.1 v
        (cancel_active-IsValid P (s.client k) w (v.agrees.valid k))
        (running-cancel_active P (s.client k) w r (v.agrees.valid k) runs)

  cancel_found-IsConsistent :
      (r : String) (o : Option (List PendingRequest)) (s : Scheduler) (w : World)
      → without_pending r s.pending ≡ o
      → IsConsistent s
      → IsConsistent (cancel_found P r o (s, w)).1.0
  unfolding cancel_found
  cancel_found-IsConsistent r none s w e v =
      cancel_running-IsConsistent r (worker_running r s s.workers) s w refl v
  cancel_found-IsConsistent r (some rest) s w e v = record {
    bounded = omega (arith, v.bounded, length-without_pending r s.pending rest e);
    limited = v.limited;
    agrees = v.agrees;
  }

  -- `cancel` keeps the scheduler consistent, whether it finds the request waiting, running or not.
  pub cancel-IsConsistent :
      (r : String) (s : Scheduler) (w : World)
      → IsConsistent s
      → IsConsistent (cancel P r (s, w)).1.0
  unfolding cancel
  cancel-IsConsistent r s w v =
      ite-IsConsistent P (String_discrete r "") _ _ s w (λ _. v)
        (λ _. cancel_found-IsConsistent r (without_pending r s.pending) s w refl v)

  poll_workers-Keeps : (timeout : ℕ) (ks : List String) → Keeps P (poll_workers P timeout ks)
  unfolding poll_workers
  poll_workers-Keeps timeout [] s w v = v
  poll_workers-Keeps timeout (k ∷ ks) s w v =
      Keeps-continue P (step timeout k s w).0 (λ _. poll_workers P timeout ks)
        (step timeout k s w).1.0 (step timeout k s w).1.1 (λ _. poll_workers-Keeps timeout ks)
        (poll_running-IsConsistent P timeout k (lookup k s.active) s w refl v)
    where
      step : ℕ → String → Scheduler → World → Outcome Exception (Unit {0}) × (Scheduler × World)
      step timeout k s w = poll_running P timeout k (lookup k s.active) (s, w)

  drain_events-Keeps : Keeps P (drain_events P)
  unfolding drain_events
  drain_events-Keeps s w v = v

  -- `poll` keeps the scheduler consistent.
  pub poll-IsConsistent :
      (timeout : ℕ) (s : Scheduler) (w : World)
      → IsConsistent s
      → IsConsistent (poll P timeout (s, w)).1.0
  unfolding poll
  poll-IsConsistent timeout =
      Keeps-bind P (expire_active P) (λ _. expire_pending P >>= λ _. collect)
        (expire_active-Keeps P)
        (λ _.
          Keeps-bind P (expire_pending P) (λ _. collect) (expire_pending-Keeps P)
            (λ _ s w v.
              Keeps-if P (not (is_empty s.events)) (drain_events P) (rest s.workers)
                drain_events-Keeps (rest-Keeps s.workers) s w v))
    where
      rest : List String → Action P (List WorkerMessage)
      rest ks = do poll_workers P timeout ks; fail_pending_without_healthy_workers P; drain_events P

      collect : Action P (List WorkerMessage)
      collect sw = (if not (is_empty sw.0.events) then drain_events P else rest sw.0.workers) sw

      rest-Keeps : (ks : List String) → Keeps P (rest ks)
      rest-Keeps ks =
          Keeps-bind P (poll_workers P timeout ks)
            (λ _. fail_pending_without_healthy_workers P >>= λ _. drain_events P)
            (poll_workers-Keeps timeout ks)
            (λ _.
              Keeps-bind P (fail_pending_without_healthy_workers P) (λ _. drain_events P)
                (fail_pending-Keeps P) (λ _. drain_events-Keeps))
