-- ===== src/Scheduler/KeepsDispatch.antt =====
-- `_dispatch_pending`, `submit`, `poll` and `cancel` of voxcpm_runtime/scheduler.py keep the
-- scheduler consistent.
use open_bmb_vox_cpm2_infere.Common.{
  ℕ, ◌≤◌, ◌≡◌, refl, sym, true, false, Option, none, some, String, List, [], ◌∷◌, arith, ite,
  Bool-cases, inl, inr, ◌∙◌, String_discrete, if_pos, if_neg,
}
use open_bmb_vox_cpm2_infere.Common.Exec.{Outcome, ok, raised, pure}
use open_bmb_vox_cpm2_infere.Common.Dict.{lookup}
use open_bmb_vox_cpm2_infere.Common.Lists.{length}
use open_bmb_vox_cpm2_infere.Worker.Types.{WorkerMessage}
use open_bmb_vox_cpm2_infere.Worker.Errors.{
  Exception, WorkerFault, WorkerErrorClass, worker, os_error, value_error, transport_error,
  exited_error,
}
use open_bmb_vox_cpm2_infere.Worker.Platform.{Platform}
use open_bmb_vox_cpm2_infere.Worker.Client.{WorkerClient, WorkerState, ready}
use open_bmb_vox_cpm2_infere.Worker.Client.Valid.{IsValid, submit-IsValid, receive-IsValid}
use open_bmb_vox_cpm2_infere.Worker.Client.Methods.{receive, is_terminal}
use open_bmb_vox_cpm2_infere.Worker.Client.Methods
use open_bmb_vox_cpm2_infere.Worker.Client.Running.{
  running, AfterSubmit, AfterReceive, FaultAfterSubmit, FaultAfterReceive, running-submit,
  running-receive,
}
use open_bmb_vox_cpm2_infere.Scheduler.{
  Scheduler, PendingRequest, Action, is_ready, ready_workers, saturated, on_worker, store,
}
use open_bmb_vox_cpm2_infere.Scheduler.Queue.{
  expire_pending, not_dispatched, dispatched, dispatch_to, dispatch_loop, dispatch_pending,
  worker_failed,
}
use open_bmb_vox_cpm2_infere.Scheduler.Methods.{polled, not_received, poll_running}
use open_bmb_vox_cpm2_infere.Scheduler.Invariant.{
  IsConsistent, same-Agrees, retire-Agrees, assign-Agrees, limited-pop, limited-put,
}
use open_bmb_vox_cpm2_infere.Scheduler.Keeps.{
  Keeps, Keeps-bind, expire_pending-Keeps, workers_where-head,
}

pub ready_is_ready : (x : WorkerState) → is_ready x ≡ true → x ≡ ready
ready_is_ready x h = ground arith

pub idle_when_ready : (c : WorkerClient) → c.state ≡ ready → running c ≡ none
idle_when_ready c h = ground arith

module _ (P : Platform) where
  open P use {World}

  not_dispatched-IsConsistent :
      (k : String) (p : PendingRequest) (e : WorkerFault) (class : WorkerErrorClass)
      (c : WorkerClient) (s : Scheduler) (w : World)
      → IsConsistent s
      → running (s.client k) ≡ none
      → IsValid c
      → FaultAfterSubmit class (running c)
      → IsConsistent (not_dispatched P p e class (record s { client = store k c s.client }, w)).1.0
  unfolding not_dispatched
  not_dispatched-IsConsistent k p e exited_error c s w v idle vc h = record {
    bounded = v.bounded;
    limited = v.limited;
    agrees = same-Agrees v.agrees k c vc (h ∙ sym idle);
  }
  not_dispatched-IsConsistent k p e _ c s w v idle vc h = absurd h

  -- A request was sent to a ready worker, whose new object is `c`.
  dispatched-IsConsistent :
      (k : String) (p : PendingRequest) (next : Action P (Unit {0}))
      (o : Outcome Exception (Unit {0})) (c : WorkerClient) (s : Scheduler) (w : World)
      → ((t : Scheduler) (u : World)
          → t.max_pending ≡ s.max_pending
          → IsConsistent t
          → IsConsistent (next (t, u)).1.0)
      → IsConsistent s
      → saturated s ≡ false
      → running (s.client k) ≡ none
      → IsValid c
      → AfterSubmit o (running c) p.request.request_id
      → IsConsistent (dispatched P k p next o (record s { client = store k c s.client }, w)).1.0
  unfolding dispatched
  dispatched-IsConsistent k p next (ok _) c s w kn v room idle vc h = kn _ _ refl (record {
    bounded = v.bounded;
    limited = limited-put s.max_concurrent s.active k p.request.request_id room;
    agrees = assign-Agrees v.agrees k c vc p.request.request_id (P.monotonic w).0 h;
  })
  dispatched-IsConsistent k p next (raised (worker e)) c s w kn v room idle vc h =
      not_dispatched-IsConsistent k p e e.class c s w v idle vc h
  dispatched-IsConsistent k p next (raised os_error) c s w kn v room idle vc h = absurd h
  dispatched-IsConsistent k p next (raised (value_error _)) c s w kn v room idle vc h = absurd h

  dispatch_to-IsConsistent :
      (p : PendingRequest) (rest : List PendingRequest) (next : Action P (Unit {0}))
      (ks : List String) (s : Scheduler) (w : World)
      → ((t : Scheduler) (u : World)
          → t.max_pending ≡ s.max_pending
          → IsConsistent t
          → IsConsistent (next (t, u)).1.0)
      → IsConsistent s
      → length rest ≤ s.max_pending
      → saturated s ≡ false
      → ready_workers s ≡ ks
      → IsConsistent (dispatch_to P p rest next ks (s, w)).1.0
  unfolding dispatch_to on_worker
  dispatch_to-IsConsistent p rest next [] s w kn v b room e = v
  dispatch_to-IsConsistent p rest next (k ∷ ks) s w kn v b room e =
      let sent = Methods.submit P p.request (s.client k, w) in
      let is_idle =
        ready_is_ready (s.client k).state (workers_where-head is_ready s.client s.workers e) in
      dispatched-IsConsistent k p next sent.0 sent.1.0 (record s { pending = rest }) sent.1.1 kn
        (record { bounded = b; limited = v.limited; agrees = v.agrees }) room
        (idle_when_ready (s.client k) is_idle)
        (submit-IsValid P p.request (s.client k) w (v.agrees.valid k))
        (running-submit P (s.client k) w p.request (v.agrees.valid k) is_idle)

  dispatch_loop-IsConsistent :
      (ps : List PendingRequest) (s : Scheduler) (w : World)
      → IsConsistent s
      → length ps ≤ s.max_pending
      → IsConsistent (dispatch_loop P ps (s, w)).1.0
  unfolding dispatch_loop
  dispatch_loop-IsConsistent [] s w v b = v
  dispatch_loop-IsConsistent (p ∷ ps) s w v b = elim (Bool-cases (saturated s)) [
    | inl full ↦ rw full v
    | inr room ↦ rw room (
        dispatch_to-IsConsistent p ps (dispatch_loop P ps) (ready_workers s) s w
          (λ t u e vt. dispatch_loop-IsConsistent ps t u vt (rw e (omega arith))) v (omega arith)
          room refl)
  ]

  pub dispatch_pending-Keeps : Keeps P (dispatch_pending P)
  unfolding dispatch_pending
  dispatch_pending-Keeps =
      Keeps-bind P (expire_pending P) (λ _ sw. dispatch_loop P sw.0.pending sw)
        (expire_pending-Keeps P) (λ _ s w v. dispatch_loop-IsConsistent s.pending s w v v.bounded)

  pub ite-IsConsistent :
      {A X : Type 0} (d : Dec X) (m n : Action P A) (s : Scheduler) (w : World)
      → (X → IsConsistent (m (s, w)).1.0)
      → (¬ X → IsConsistent (n (s, w)).1.0)
      → IsConsistent (ite d m n (s, w)).1.0
  ite-IsConsistent (yes x) m n s w hm hn = hm x
  ite-IsConsistent (no x) m n s w hm hn = hn x

  not_received-IsConsistent :
      (k r : String) (e : WorkerFault) (class : WorkerErrorClass) (c : WorkerClient) (s : Scheduler)
      (w : World)
      → IsConsistent s
      → running (s.client k) ≡ some r
      → IsValid c
      → FaultAfterReceive class e.code (running c) r
      → IsConsistent (not_received P k r e class (record s { client = store k c s.client }, w)).1.0
  unfolding not_received worker_failed
  not_received-IsConsistent k r e transport_error c s w v runs vc h =
      ite-IsConsistent (String_discrete e.code "worker_receive_timeout") (pure tt)
        (worker_failed P k r e.code) (record s { client = store k c s.client }) w
        (λ late. record {
          bounded = v.bounded;
          limited = v.limited;
          agrees = same-Agrees v.agrees k c vc ((rw (if_pos _ late) at h) ∙ sym runs);
        })
        (λ other. record {
          bounded = v.bounded;
          limited = limited-pop s.max_concurrent s.active k v.limited;
          agrees = retire-Agrees v.agrees k c vc (rw (if_neg _ other) at h);
        })
  not_received-IsConsistent k r e exited_error c s w v runs vc h = record {
    bounded = v.bounded;
    limited = limited-pop s.max_concurrent s.active k v.limited;
    agrees = retire-Agrees v.agrees k c vc h;
  }
  not_received-IsConsistent k r e _ c s w v runs vc h = absurd h

  -- The worker `k`, which ran `r`, was polled; its new object is `c`.
  polled-IsConsistent :
      (k r : String) (o : Outcome Exception WorkerMessage) (c : WorkerClient) (s : Scheduler)
      (w : World)
      → IsConsistent s
      → running (s.client k) ≡ some r
      → IsValid c
      → AfterReceive o (running c) r
      → IsConsistent (polled P k r o (record s { client = store k c s.client }, w)).1.0
  unfolding polled
  polled-IsConsistent k r (ok m) c s w v runs vc h = elim (Bool-cases (is_terminal m.kind)) [
    | inl ends ↦ rw ends (
        dispatch_pending-Keeps _ w (record {
          bounded = v.bounded;
          limited = limited-pop s.max_concurrent s.active k v.limited;
          agrees = retire-Agrees v.agrees k c vc (rw ends at h);
        }))
    | inr goes_on ↦ rw goes_on (record {
      bounded = v.bounded;
      limited = v.limited;
      agrees = same-Agrees v.agrees k c vc ((rw goes_on at h) ∙ sym runs);
    })
  ]
  polled-IsConsistent k r (raised (worker e)) c s w v runs vc h =
      not_received-IsConsistent k r e e.class c s w v runs vc h
  polled-IsConsistent k r (raised os_error) c s w v runs vc h = absurd h
  polled-IsConsistent k r (raised (value_error _)) c s w v runs vc h = absurd h

  pub poll_running-IsConsistent :
      (timeout : ℕ) (k : String) (o : Option String) (s : Scheduler) (w : World)
      → lookup k s.active ≡ o
      → IsConsistent s
      → IsConsistent (poll_running P timeout k o (s, w)).1.0
  unfolding poll_running on_worker
  poll_running-IsConsistent timeout k none s w e v = v
  poll_running-IsConsistent timeout k (some r) s w e v =
      let got = receive P (some timeout) (s.client k, w) in
      let runs = sym (v.agrees.running k) ∙ e in
      polled-IsConsistent k r got.0 got.1.0 s got.1.1 v runs
        (receive-IsValid P (some timeout) (s.client k) w (v.agrees.valid k))
        (running-receive P (s.client k) w (some timeout) r (v.agrees.valid k) runs)
