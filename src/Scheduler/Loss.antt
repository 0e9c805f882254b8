-- ===== src/Scheduler/Loss.antt =====
-- What `_dispatch_pending` of voxcpm_runtime/scheduler.py does when the pipe of the ready worker
-- that it chose is broken.
use open_bmb_vox_cpm2_infere.Common.{
  ◌≡◌, refl, sym, ap, ◌∙◌, subst, [], true, false, if◌then◌else◌, none, some, String, List, ◌∷◌,
  arith, ℕ,
}
use open_bmb_vox_cpm2_infere.Common.Exec.{Outcome, ok, raised, pure}
use open_bmb_vox_cpm2_infere.Common.Dict.{member}
use open_bmb_vox_cpm2_infere.Worker.Types.{WorkerRequest, text}
use open_bmb_vox_cpm2_infere.Worker.Errors.{
  Exception, fault, fault_with, exited_error, admission_error,
}
use open_bmb_vox_cpm2_infere.Worker.Platform.{Platform}
use open_bmb_vox_cpm2_infere.Worker.Platform
use open_bmb_vox_cpm2_infere.Worker.Client.{WorkerClient, ready}
use open_bmb_vox_cpm2_infere.Worker.Client.Methods
use open_bmb_vox_cpm2_infere.Scheduler.{
  Scheduler, PendingRequest, Action, is_ready, ready_workers, saturated, on_worker,
}
use open_bmb_vox_cpm2_infere.Scheduler.Queue.{
  expire_pending, expire_after, dispatched, dispatch_to, dispatch_loop, dispatch_pending,
}
use open_bmb_vox_cpm2_infere.Scheduler.Methods as Scheduling
use open_bmb_vox_cpm2_infere.Scheduler.Methods.{SubmissionState}
use open_bmb_vox_cpm2_infere.Scheduler.Keeps.{workers_where-head}
use open_bmb_vox_cpm2_infere.Scheduler.KeepsDispatch.{ready_is_ready}

module _ (P : Platform) where
  open P use {World}

  submit-broken :
      (c : WorkerClient) (w : World) (r : WorkerRequest) (h : ℕ)
      → c.state ≡ ready
      → c.control ≡ some h
      → (P.send h (Platform.request r) w).0 ≡ false
      → (Methods.submit P r (c, w)).0 ≡ raised (fault exited_error)
  unfolding Methods.submit
  submit-broken c w r h s e b = ground arith

  -- The request `p` has left the queue of `t`, and `t` has no other trace of it.
  pub record IsLost (p : PendingRequest) (rest : List PendingRequest) (s t : Scheduler)
      : Type 0 where
    pub waiting : t.pending ≡ rest
    pub running : t.active ≡ s.active
    pub reported : t.events ≡ s.events
    pub remembered : t.submitted_ids ≡ s.submitted_ids
    pub closed_as_before : t.closed ≡ s.closed

  dispatched_raises :
      (k : String) (p : PendingRequest) (next : Action P (Unit {0}))
      (o : Outcome Exception (Unit {0})) (s : Scheduler) (w : World)
      → o ≡ raised (fault exited_error)
      → dispatched P k p next o (s, w) ≡ (raised (fault exited_error), (s, w))
  unfolding dispatched
  dispatched_raises k p next o s w e = rw e

  dispatch_to-IsLost :
      (p : PendingRequest) (rest : List PendingRequest) (next : Action P (Unit {0}))
      (ks : List String) (k : String) (js : List String) (h : ℕ) (s : Scheduler) (w : World)
      → ready_workers s ≡ ks
      → ks ≡ k ∷ js
      → (s.client k).control ≡ some h
      → (P.send h (Platform.request p.request) w).0 ≡ false
      → let (o, tu) = dispatch_to P p rest next ks (s, w) in
        (o ≡ raised (fault exited_error)) × IsLost p rest s tu.0
  unfolding dispatch_to on_worker
  dispatch_to-IsLost p rest next [] k js h s w e f c b = cc
  dispatch_to-IsLost p rest next (i ∷ is) k js h s w e f c b =
      let same : i ≡ k = ground arith in
      let sent = Methods.submit P p.request (s.client i, w) in
      let is_idle =
        ready_is_ready (s.client i).state (workers_where-head is_ready s.client s.workers e) in
      let broke =
        submit-broken (s.client i) w p.request h is_idle
          (ap (λ (x : String). (s.client x).control) same ∙ c) b in
      rw (dispatched_raises i p next sent.0 _ sent.1.1 broke) (
        refl,
        record {
          waiting = refl;
          running = refl;
          reported = refl;
          remembered = refl;
          closed_as_before = refl;
        },
      )

  no_expiry :
      (s : Scheduler) (w : World)
      → s.queue_timeout ≡ none
      → expire_pending P (s, w) ≡ (ok tt, (s, w))
  unfolding expire_pending expire_after
  no_expiry s w t = subst (λ q. expire_after P q (s, w) ≡ (ok tt, (s, w))) (sym t) refl

  abbrev Lost :
      PendingRequest
      → List PendingRequest
      → Scheduler
      → Outcome Exception (Unit {0}) × (Scheduler × World)
      → Type 0
  Lost p rest s (o, tu) = (o ≡ raised (fault exited_error)) × IsLost p rest s tu.0

  dispatch_loop-IsLost :
      (p : PendingRequest) (rest : List PendingRequest) (k : String) (js : List String) (h : ℕ)
      (s : Scheduler) (w : World)
      → saturated s ≡ false
      → ready_workers s ≡ k ∷ js
      → (s.client k).control ≡ some h
      → (P.send h (Platform.request p.request) w).0 ≡ false
      → Lost p rest s (dispatch_loop P (p ∷ rest) (s, w))
  unfolding dispatch_loop
  dispatch_loop-IsLost p rest k js h s w room f c b =
      subst
        (λ full. Lost p rest s (
          (if full then pure tt else dispatch_to P p rest (dispatch_loop P rest) (ready_workers s))
            (s, w)))
        (sym room)
        (dispatch_to-IsLost p rest (dispatch_loop P rest) (ready_workers s) k js h s w refl f c b)

  dispatch_pending_loses :
      (p : PendingRequest) (rest : List PendingRequest) (k : String) (js : List String) (h : ℕ)
      (s : Scheduler) (w : World)
      → s.queue_timeout ≡ none
      → s.pending ≡ p ∷ rest
      → saturated s ≡ false
      → ready_workers s ≡ k ∷ js
      → (s.client k).control ≡ some h
      → (P.send h (Platform.request p.request) w).0 ≡ false
      → Lost p rest s (dispatch_pending P (s, w))
  unfolding dispatch_pending
  dispatch_pending_loses p rest k js h s w t e room f c b = rw (no_expiry s w t) (
      subst (λ ps. Lost p rest s (dispatch_loop P ps (s, w))) (sym e)
        (dispatch_loop-IsLost p rest k js h s w room f c b))

  -- The answer to a further submission of the request id, in whatever state of the world.
  abbrev pub duplicate : String → Outcome Exception SubmissionState
  duplicate id =
      raised (fault_with admission_error "duplicate_request_id" (("request_id", text id) ∷ []))

  submit_again :
      (y : WorkerRequest) (s : Scheduler) (w : World)
      → s.closed ≡ false
      → member y.request_id s.submitted_ids ≡ true
      → Scheduling.submit P y (s, w) ≡ (duplicate y.request_id, (s, w))
  unfolding Scheduling.submit
  submit_again y s w c m = rw (c, m) refl

  -- Let the scheduler be open and without a queue timeout; let a waiting request, whose id is among
  -- the submitted ones, be at the front of the queue, a worker be ready, the number of running
  -- requests be below its limit, and the first ready worker's pipe break when the request is sent.
  -- `_dispatch_pending` raises the WorkerExitedError, and the request is lost: the queue goes on
  -- behind it, no worker runs it, and no event reports it. Nor can it be submitted again: whatever
  -- request then comes with its id is refused as a duplicate and changes nothing.
  pub dispatch_pending-IsLost :
      (p : PendingRequest) (rest : List PendingRequest) (k : String) (js : List String) (h : ℕ)
      (s : Scheduler) (w : World)
      → s.queue_timeout ≡ none
      → s.pending ≡ p ∷ rest
      → saturated s ≡ false
      → ready_workers s ≡ k ∷ js
      → (s.client k).control ≡ some h
      → (P.send h (Platform.request p.request) w).0 ≡ false
      → s.closed ≡ false
      → member p.request.request_id s.submitted_ids ≡ true
      → let (o, tu) = dispatch_pending P (s, w) in
        (o ≡ raised (fault exited_error))
        × IsLost p rest s tu.0
        × ((y : WorkerRequest) (v : World)
            → Scheduling.submit P (record y { request_id = p.request.request_id }) (tu.0, v)
              ≡ (duplicate p.request.request_id, (tu.0, v)))
  dispatch_pending-IsLost p rest k js h s w t e room f c b z m =
      let lost = dispatch_pending_loses p rest k js h s w t e room f c b in
      let t' = (dispatch_pending P (s, w)).1.0 in
      let known = ap (member p.request.request_id) lost.1.remembered ∙ m in
      (
        lost.0,
        lost.1,
        λ y v.
            submit_again (record y { request_id = p.request.request_id }) t' v
              (lost.1.closed_as_before ∙ z) known,
      )
