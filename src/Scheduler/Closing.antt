-- ===== src/Scheduler/Closing.antt =====
-- `close` of voxcpm_runtime/scheduler.py: what it leaves behind, and where it breaks off.
use open_bmb_vox_cpm2_infere.Common.{
  ℕ, ◌≡◌, ◌≢◌, refl, sym, ap, subst, ◌∙◌, true, false, if◌then◌else◌, some, String, List, [], ◌∷◌,
  ◌++◌, map, arith,
}
use mathlib.Core.List.{append_assoc, append-nil}
use open_bmb_vox_cpm2_infere.Common.Exec.{Outcome, ok, raised, continue, pure}
use open_bmb_vox_cpm2_infere.Common.Lists.{All}
use open_bmb_vox_cpm2_infere.Worker.Types.{WorkerMessage}
use open_bmb_vox_cpm2_infere.Worker.Errors.{Exception, worker, os_error, value_error}
use open_bmb_vox_cpm2_infere.Worker.Platform.{Platform}
use open_bmb_vox_cpm2_infere.Worker.Platform
use open_bmb_vox_cpm2_infere.Worker.Client.{WorkerClient, ready, stopped}
use open_bmb_vox_cpm2_infere.Worker.Client.Valid.{IsValid, shutdown-IsValid}
use open_bmb_vox_cpm2_infere.Worker.Client.Transport.{receive_message}
use open_bmb_vox_cpm2_infere.Worker.Client.Methods.{shutdown}
use open_bmb_vox_cpm2_infere.Worker.Client.Lifecycle.{shutdown-stopped}
use open_bmb_vox_cpm2_infere.Scheduler.{
  Scheduler, PendingRequest, store, on_worker, push, cancelled_event, update,
}
use open_bmb_vox_cpm2_infere.Scheduler.Methods.{
  cancel_all, ignore_worker_error, shutdown_workers, close_now, close,
}

-- The event of a request that was still waiting at the shutdown.
abbrev pub shutdown_event : PendingRequest → WorkerMessage
shutdown_event p = cancelled_event "scheduler" p.request.request_id "shutdown"

cancel_all_lem :
    (ps : List PendingRequest) (s : Scheduler)
    → cancel_all ps s ≡ record s { pending = []; events = s.events ++ map shutdown_event ps }
unfolding cancel_all
cancel_all_lem [] s = rw append-nil
cancel_all_lem (p ∷ ps) s =
    cancel_all_lem ps (push (shutdown_event p) s)
    ∙ ap (λ (e : List WorkerMessage). record s { pending = []; events = e })
        (append_assoc s.events (shutdown_event p ∷ []) (map shutdown_event ps))

abbrev IsStopped : Scheduler → String → Type 0
IsStopped s k = (s.client k).state ≡ stopped

abbrev pub AllValid : Scheduler → Type 0
AllValid s = (k : String) → IsValid (s.client k)

-- What the shutdown of workers leaves as it was.
record Untouched (s t : Scheduler) : Type 0 where
  pending : t.pending ≡ s.pending
  events : t.events ≡ s.events
  closed : t.closed ≡ s.closed

-- The scheduler once the object behind `k` has become `c`.
abbrev with_client : String → WorkerClient → Scheduler → Scheduler
with_client k c s = record s { client = store k c s.client }

store-AllValid :
    (s : Scheduler) (k : String) (c : WorkerClient)
    → AllValid s
    → IsValid c
    → AllValid (with_client k c s)
unfolding store
store-AllValid s k c v vc j = ground (arith, v j)

store-IsStopped :
    (s : Scheduler) (k j : String) (c : WorkerClient)
    → c.state ≡ stopped
    → IsStopped s j
    → IsStopped (with_client k c s) j
unfolding store
store-IsStopped s k j c h t = ground arith

store-IsStopped_self :
    (s : Scheduler) (k : String) (c : WorkerClient)
    → c.state ≡ stopped
    → IsStopped (with_client k c s) k
unfolding store
store-IsStopped_self s k c h = ground arith

store_ne :
    (k j : String) (c : WorkerClient) (f : String → WorkerClient) → k ≢ j → store k c f j ≡ f j
unfolding store
store_ne k j c f ne = ground arith

module _ (P : Platform) where
  open P use {World}

  -- What is left of `shutdown_workers` once the first worker was shut down with outcome `o`.
  abbrev go_on :
      Outcome Exception (Unit {0})
      → List String
      → Scheduler × World
      → Outcome Exception (Unit {0}) × (Scheduler × World)
  go_on o ks sw =
      let (q, tu) = ignore_worker_error P o sw in continue q (λ _. shutdown_workers P ks) tu

  abbrev stop : String → Scheduler × World → Outcome Exception (Unit {0}) × (WorkerClient × World)
  stop k (s, w) = shutdown P (s.client k, w)

  abbrev after_stop : String → Scheduler × World → Scheduler × World
  after_stop k (s, w) = (with_client k (stop k (s, w)).1.0 s, (stop k (s, w)).1.1)

  shutdown_workers-cons :
      (k : String) (ks : List String) (sw : Scheduler × World)
      → shutdown_workers P (k ∷ ks) sw ≡ go_on (stop k sw).0 ks (after_stop k sw)
  unfolding shutdown_workers on_worker
  shutdown_workers-cons k ks sw = refl

  go_on-IsStopped :
      (j : String) (o : Outcome Exception (Unit {0})) (ks : List String) (sw : Scheduler × World)
      → IsStopped sw.0 j
      → IsStopped (shutdown_workers P ks sw).1.0 j
      → IsStopped (go_on o ks sw).1.0 j
  unfolding ignore_worker_error
  go_on-IsStopped j (ok _) ks sw h ih = ih
  go_on-IsStopped j (raised (worker e)) ks sw h ih = ih
  go_on-IsStopped j (raised os_error) ks sw h ih = h
  go_on-IsStopped j (raised (value_error _)) ks sw h ih = h

  after_stop-AllValid :
      (k : String) (s : Scheduler) (w : World) → AllValid s → AllValid (after_stop k (s, w)).0
  after_stop-AllValid k s w v = store-AllValid s k _ v (shutdown-IsValid P (s.client k) w (v k))

  -- A stopped worker stays so while others are shut down.
  stays_stopped :
      (j : String) (ks : List String) (s : Scheduler) (w : World)
      → AllValid s
      → IsStopped s j
      → IsStopped (shutdown_workers P ks (s, w)).1.0 j
  stays_stopped j [] s w v t = unfold shutdown_workers in t
  stays_stopped j (k ∷ ks) s w v t =
      let still = store-IsStopped s k j _ (shutdown-stopped P (s.client k) w (v k)).0 t in
      rw (shutdown_workers-cons k ks (s, w)) (
        go_on-IsStopped j (stop k (s, w)).0 ks (after_stop k (s, w)) still (
          stays_stopped j ks (after_stop k (s, w)).0 (after_stop k (s, w)).1
            (after_stop-AllValid k s w v) still))

  go_on-all_stopped :
      (k : String) (o : Outcome Exception (Unit {0})) (ks : List String) (sw : Scheduler × World)
      → AllValid sw.0
      → IsStopped sw.0 k
      → (go_on o ks sw).0 ≡ ok tt
      → ((shutdown_workers P ks sw).0 ≡ ok tt → All (IsStopped (shutdown_workers P ks sw).1.0) ks)
      → All (IsStopped (go_on o ks sw).1.0) (k ∷ ks)
  unfolding ignore_worker_error
  go_on-all_stopped k (ok _) ks sw v h e ih = (stays_stopped k ks sw.0 sw.1 v h, ih e)
  go_on-all_stopped k (raised (worker f)) ks sw v h e ih = (stays_stopped k ks sw.0 sw.1 v h, ih e)
  go_on-all_stopped k (raised os_error) ks sw v h e ih = cc
  go_on-all_stopped k (raised (value_error _)) ks sw v h e ih = cc

  all_stopped :
      (ks : List String) (s : Scheduler) (w : World)
      → AllValid s
      → (shutdown_workers P ks (s, w)).0 ≡ ok tt
      → All (IsStopped (shutdown_workers P ks (s, w)).1.0) ks
  all_stopped [] s w v e = tt
  all_stopped (k ∷ ks) s w v e =
      subst (λ r. All (IsStopped r.1.0) (k ∷ ks)) (sym (shutdown_workers-cons k ks (s, w)))
        (go_on-all_stopped k (stop k (s, w)).0 ks (after_stop k (s, w))
          (after_stop-AllValid k s w v)
          (store-IsStopped_self s k _ (shutdown-stopped P (s.client k) w (v k)).0)
          (rw (shutdown_workers-cons k ks (s, w)) at e)
          (all_stopped ks (after_stop k (s, w)).0 (after_stop k (s, w)).1
            (after_stop-AllValid k s w v)))

  go_on-Untouched :
      (o : Outcome Exception (Unit {0})) (ks : List String) (s : Scheduler) (sw : Scheduler × World)
      → Untouched s sw.0
      → Untouched s (shutdown_workers P ks sw).1.0
      → Untouched s (go_on o ks sw).1.0
  unfolding ignore_worker_error
  go_on-Untouched (ok _) ks s sw h ih = ih
  go_on-Untouched (raised (worker e)) ks s sw h ih = ih
  go_on-Untouched (raised os_error) ks s sw h ih = h
  go_on-Untouched (raised (value_error _)) ks s sw h ih = h

  shutdown_workers-Untouched :
      (ks : List String) (s t : Scheduler) (w : World)
      → Untouched s t
      → Untouched s (shutdown_workers P ks (t, w)).1.0
  shutdown_workers-Untouched [] s t w h = unfold shutdown_workers in h
  shutdown_workers-Untouched (k ∷ ks) s t w h =
      let kept : Untouched s (after_stop k (t, w)).0 = record {
        pending = h.pending;
        events = h.events;
        closed = h.closed;
      } in
      rw (shutdown_workers-cons k ks (t, w)) (
        go_on-Untouched (stop k (t, w)).0 ks s (after_stop k (t, w)) kept
          (shutdown_workers-Untouched ks s (after_stop k (t, w)).0 (after_stop k (t, w)).1 kept))

  -- The scheduler as `close` hands it to the shutdown of its workers.
  abbrev closing : Scheduler → Scheduler
  closing s = cancel_all s.pending (record s { closed = true })

  closing_lem :
      (s : Scheduler)
      → closing s ≡ record s {
        pending = [];
        events = s.events ++ map shutdown_event s.pending;
        closed = true;
      }
  closing_lem s = cancel_all_lem s.pending (record s { closed = true })

  -- What a `close` that returns leaves behind: no waiting and no running request, every worker
  -- stopped, and after the earlier events one "cancelled" event for each request that waited.
  pub record IsClosed (s t : Scheduler) : Type 0 where
    pub closed : t.closed ≡ true
    pub pending : t.pending ≡ []
    pub active : t.active ≡ []
    pub events : t.events ≡ s.events ++ map shutdown_event s.pending
    pub workers : All (IsStopped t) s.workers

  clear : Scheduler → Scheduler
  clear s = record s { active = []; active_started = [] }

  finish :
      Outcome Exception (Unit {0}) × (Scheduler × World)
      → Outcome Exception (Unit {0}) × (Scheduler × World)
  unfolding clear
  finish (o, tu) = continue o (λ _. update P clear) tu

  close-open :
      (s : Scheduler) (w : World)
      → s.closed ≡ false
      → close P (s, w) ≡ finish (shutdown_workers P (closing s).workers (closing s, w))
  unfolding close finish
  close-open s w e =
      subst
        (λ b.
          (if b then pure tt else close_now P) (s, w)
          ≡ finish (shutdown_workers P (closing s).workers (closing s, w)))
        (sym e) refl

  finish-IsClosed :
      (s : Scheduler) (r : Outcome Exception (Unit {0}) × (Scheduler × World))
      → Untouched (closing s) r.1.0
      → (r.0 ≡ ok tt → All (IsStopped r.1.0) (closing s).workers)
      → (finish r).0 ≡ ok tt
      → IsClosed s (finish r).1.0
  unfolding finish clear
  finish-IsClosed s (ok _, tu) h all e = record {
    closed = h.closed ∙ ap (λ (t : Scheduler). t.closed) (closing_lem s);
    pending = h.pending ∙ ap (λ (t : Scheduler). t.pending) (closing_lem s);
    active = refl;
    events = h.events ∙ ap (λ (t : Scheduler). t.events) (closing_lem s);
    workers =
        subst (All (IsStopped tu.0)) (ap (λ (t : Scheduler). t.workers) (closing_lem s)) (all refl);
  }
  finish-IsClosed s (raised f, tu) h all e = cc

  -- Let the scheduler be open and its worker objects well formed. When `close` returns, it has left
  -- no waiting and no running request, it has appended to the events one "cancelled" event for each
  -- request that waited, in their order, and every worker is stopped.
  pub close-IsClosed :
      (s : Scheduler) (w : World)
      → s.closed ≡ false
      → AllValid s
      → (close P (s, w)).0 ≡ ok tt
      → IsClosed s (close P (s, w)).1.0
  close-IsClosed s w open_ v e =
      let shut = shutdown_workers P (closing s).workers (closing s, w) in
      let valid : AllValid (closing s) = subst AllValid (sym (closing_lem s)) v in
      subst (λ r. IsClosed s r.1.0) (sym (close-open s w open_))
        (finish-IsClosed s shut
          (shutdown_workers-Untouched (closing s).workers (closing s) (closing s) w
            (record { pending = refl; events = refl; closed = refl }))
          (all_stopped (closing s).workers (closing s) w valid)
          (subst (λ r. r.0 ≡ ok tt) (close-open s w open_) e))

  shutdown-broken :
      (c : WorkerClient) (w : World) (h p : ℕ)
      → c.state ≡ ready
      → c.control ≡ some h
      → c.process ≡ some p
      → (P.send h Platform.shutdown w).0 ≡ false
      → (shutdown P (c, w)).0 ≡ raised os_error
  unfolding shutdown receive_message
  shutdown-broken c w h p s e f b = ground arith

  go_on-broken :
      (o : Outcome Exception (Unit {0})) (ks : List String) (sw : Scheduler × World)
      → o ≡ raised os_error
      → go_on o ks sw ≡ (raised os_error, sw)
  unfolding ignore_worker_error
  go_on-broken o ks sw e = rw e

  finish-raised : (tu : Scheduler × World) → finish (raised os_error, tu) ≡ (raised os_error, tu)
  unfolding finish
  finish-raised tu = refl

  close-broken :
      (s : Scheduler) (w : World) (k : String) (ks : List String) (h p : ℕ)
      → s.closed ≡ false
      → s.workers ≡ k ∷ ks
      → (s.client k).state ≡ ready
      → (s.client k).control ≡ some h
      → (s.client k).process ≡ some p
      → (P.send h Platform.shutdown w).0 ≡ false
      → close P (s, w) ≡ (raised os_error, after_stop k (closing s, w))
  close-broken s w k ks h p open_ e a b c d =
      let before = λ (t : Scheduler). t.client k in
      let same = ap before (closing_lem s) in
      let broke =
        shutdown-broken (before (closing s)) w h p (ap (λ (x : WorkerClient). x.state) same ∙ a)
          (ap (λ (x : WorkerClient). x.control) same ∙ b)
          (ap (λ (x : WorkerClient). x.process) same ∙ c) d in
      close-open s w open_
      ∙ ap (λ js. finish (shutdown_workers P js (closing s, w)))
          (ap (λ (t : Scheduler). t.workers) (closing_lem s) ∙ e)
      ∙ ap finish (
          shutdown_workers-cons k ks (closing s, w)
          ∙ go_on-broken (stop k (closing s, w)).0 ks (after_stop k (closing s, w)) broke)
      ∙ finish-raised (after_stop k (closing s, w))

  close-closed : (s : Scheduler) (w : World) → s.closed ≡ true → close P (s, w) ≡ (ok tt, (s, w))
  unfolding close
  close-closed s w e =
      subst (λ b. (if b then pure tt else close_now P) (s, w) ≡ (ok tt, (s, w))) (sym e) refl

  -- Let the scheduler be open and its first worker ready, with a pipe that breaks when it is asked
  -- to shut down. `close` raises the OSError: every other worker object is as before, the table of
  -- running requests is as before, and since the scheduler is now closed a further `close` returns
  -- and changes nothing.
  pub close_breaks_off :
      (s : Scheduler) (w : World) (k : String) (ks : List String) (h p : ℕ)
      → s.closed ≡ false
      → s.workers ≡ k ∷ ks
      → (s.client k).state ≡ ready
      → (s.client k).control ≡ some h
      → (s.client k).process ≡ some p
      → (P.send h Platform.shutdown w).0 ≡ false
      → let (o, tu) = close P (s, w) in
        (o ≡ raised os_error)
        × ((j : String) → k ≢ j → tu.0.client j ≡ s.client j)
        × (tu.0.active ≡ s.active)
        × ((u : World) → close P (tu.0, u) ≡ (ok tt, (tu.0, u)))
  close_breaks_off s w k ks h p open_ e a b c d =
      subst
        (λ (r : Outcome Exception (Unit {0}) × (Scheduler × World)).
          (r.0 ≡ raised os_error)
          × ((j : String) → k ≢ j → r.1.0.client j ≡ s.client j)
          × (r.1.0.active ≡ s.active)
          × ((u : World) → close P (r.1.0, u) ≡ (ok tt, (r.1.0, u))))
        (sym (close-broken s w k ks h p open_ e a b c d))
        (
          refl,
          (λ j ne.
              store_ne k j _ (closing s).client ne
              ∙ ap (λ (t : Scheduler). t.client j) (closing_lem s)),
          ap (λ (t : Scheduler). t.active) (closing_lem s),
          λ u. close-closed _ u (ap (λ (t : Scheduler). t.closed) (closing_lem s)),
        )
