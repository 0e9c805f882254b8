-- ===== src/Scheduler/Keeps.antt =====
-- The parts of the methods of voxcpm_runtime/scheduler.py keep the scheduler consistent, whatever
-- the platform does and however they end.
use open_bmb_vox_cpm2_infere.Common.{
  ℕ, ◌+◌, ◌≤◌, ◌≡◌, refl, sym, leb, if◌then◌else◌, Bool, true, false, Option, none, some, String,
  List, [], ◌∷◌, arith, Bool-cases, inl, inr, ◌∙◌,
}
use open_bmb_vox_cpm2_infere.Common.Exec.{Outcome, ok, raised, continue, ◌>>=◌}
use open_bmb_vox_cpm2_infere.Common.Dict.{lookup}
use open_bmb_vox_cpm2_infere.Common.Lists.{length}
use open_bmb_vox_cpm2_infere.Worker.Errors.{Exception}
use open_bmb_vox_cpm2_infere.Worker.Platform.{Platform}
use open_bmb_vox_cpm2_infere.Worker.Client.{WorkerClient, WorkerState}
use open_bmb_vox_cpm2_infere.Worker.Client.Valid.{IsValid, cancel_active-IsValid}
use open_bmb_vox_cpm2_infere.Worker.Client.Methods.{cancel_active}
use open_bmb_vox_cpm2_infere.Worker.Client.Running.{running, AfterCancel, running-cancel_active}
use open_bmb_vox_cpm2_infere.Scheduler.{
  Scheduler, PendingRequest, Action, workers_where, healthy_workers, on_worker, store,
}
use open_bmb_vox_cpm2_infere.Scheduler.Queue.{
  queue_timeout_event, expire_from, expire_after, expire_running, fail_all, fail_unless,
  expire_pending, fail_pending_without_healthy_workers, inference_timed_out, expire_worker,
  expire_workers, expire_active_after, expire_active,
}
use open_bmb_vox_cpm2_infere.Scheduler.Invariant.{IsConsistent, retire-Agrees, limited-pop}

pub if-IsConsistent :
    (b : Bool) (x y : Scheduler)
    → IsConsistent x
    → IsConsistent y
    → IsConsistent (if b then x else y)
if-IsConsistent true x y hx hy = hx
if-IsConsistent false x y hx hy = hy

expire_from-IsConsistent :
    (timeout t : ℕ) (ps : List PendingRequest) (s : Scheduler)
    → length ps ≤ s.max_pending
    → IsConsistent s
    → IsConsistent (expire_from timeout t ps s)
unfolding expire_from
expire_from-IsConsistent timeout t [] s h v = record {
  bounded = omega arith;
  limited = v.limited;
  agrees = v.agrees;
}
expire_from-IsConsistent timeout t (p ∷ ps) s h v =
    if-IsConsistent (leb (p.enqueued_at + timeout) t) _ _
      (expire_from-IsConsistent timeout t ps (queue_timeout_event p s) (omega arith) v)
      (record { bounded = h; limited = v.limited; agrees = v.agrees })

fail_all-IsConsistent :
    (ps : List PendingRequest) (s : Scheduler) → IsConsistent s → IsConsistent (fail_all ps s)
unfolding fail_all
fail_all-IsConsistent [] s v = record {
  bounded = omega arith;
  limited = v.limited;
  agrees = v.agrees;
}
fail_all-IsConsistent (p ∷ ps) s v =
    fail_all-IsConsistent ps _
      (record { bounded = v.bounded; limited = v.limited; agrees = v.agrees })

fail_unless-IsConsistent :
    (ks : List String) (s : Scheduler) → IsConsistent s → IsConsistent (fail_unless ks s)
unfolding fail_unless
fail_unless-IsConsistent [] s v = fail_all-IsConsistent s.pending s v
fail_unless-IsConsistent (k ∷ ks) s v = v

-- The head of the workers that pass a test passes it.
pub workers_where-head :
    (test : WorkerState → Bool) (f : String → WorkerClient) (ks : List String) {k : String}
    {rest : List String}
    → workers_where test f ks ≡ k ∷ rest
    → test (f k).state ≡ true
unfolding workers_where
workers_where-head test f [] e = cc
workers_where-head test f (j ∷ ks) {k} {rest} e =
    ground (arith, λ (h : workers_where test f ks ≡ k ∷ rest). workers_where-head test f ks h)

module _ (P : Platform) where
  open P use {World}

  -- The action keeps the scheduler consistent, whether it returns or raises.
  abbrev pub Keeps : {A : Type 0} → Action P A → Type 0
  Keeps m = (s : Scheduler) (w : World) → IsConsistent s → IsConsistent (m (s, w)).1.0

  pub Keeps-continue :
      {A B : Type 0} (o : Outcome Exception A) (f : A → Action P B) (s : Scheduler) (w : World)
      → ((a : A) → Keeps (f a))
      → IsConsistent s
      → IsConsistent (continue o f (s, w)).1.0
  Keeps-continue (ok a) f s w k v = k a s w v
  Keeps-continue (raised e) f s w k v = v

  pub Keeps-bind :
      {A B : Type 0} (m : Action P A) (f : A → Action P B)
      → Keeps m
      → ((a : A) → Keeps (f a))
      → Keeps (m >>= f)
  Keeps-bind m f km kf s w v =
      Keeps-continue (m (s, w)).0 f (m (s, w)).1.0 (m (s, w)).1.1 kf (km s w v)

  pub Keeps-if :
      {A : Type 0} (b : Bool) (m n : Action P A) → Keeps m → Keeps n → Keeps (if b then m else n)
  Keeps-if true m n km kn = km
  Keeps-if false m n km kn = kn

  pub if_at :
      {A : Type 0} (b : Bool) (m n : Action P A) (s : Scheduler) (w : World)
      → IsConsistent (m (s, w)).1.0
      → IsConsistent (n (s, w)).1.0
      → IsConsistent ((if b then m else n) (s, w)).1.0
  if_at true m n s w hm hn = hm
  if_at false m n s w hm hn = hn

  pub fail_pending-Keeps : Keeps (fail_pending_without_healthy_workers P)
  unfolding fail_pending_without_healthy_workers
  fail_pending-Keeps s w v = fail_unless-IsConsistent (healthy_workers s) s v

  expire_after-Keeps : (o : Option ℕ) → Keeps (expire_after P o)
  unfolding expire_after
  expire_after-Keeps none s w v = v
  expire_after-Keeps (some timeout) s w v =
      expire_from-IsConsistent timeout (P.monotonic w).0 s.pending s v.bounded v

  pub expire_pending-Keeps : Keeps (expire_pending P)
  unfolding expire_pending
  expire_pending-Keeps s w v = expire_after-Keeps s.queue_timeout s w v

  -- A running request was stopped: the worker's new object is `c`.
  inference_timed_out-IsConsistent :
      (k r : String) (o : Outcome Exception String) (c : WorkerClient) (s : Scheduler) (w : World)
      → IsConsistent s
      → IsValid c
      → AfterCancel o (running c) r
      → IsConsistent (inference_timed_out P k r o (record s { client = store k c s.client }, w)).1.0
  unfolding inference_timed_out
  inference_timed_out-IsConsistent k r (ok _) c s w v vc h = record {
    bounded = v.bounded;
    limited = limited-pop s.max_concurrent s.active k v.limited;
    agrees = retire-Agrees v.agrees k c vc h.1;
  }
  inference_timed_out-IsConsistent k r (raised e) c s w v vc h = absurd h

  abbrev stop : String → Scheduler → World → Outcome Exception String × (WorkerClient × World)
  stop k s w = cancel_active P (s.client k, w)

  expire_running-Keeps :
      (timeout t : ℕ) (k : String) (o : Option String) (q : Option ℕ) (s : Scheduler) (w : World)
      → lookup k s.active ≡ o
      → IsConsistent s
      → IsConsistent (expire_running P timeout t k o q (s, w)).1.0
  unfolding expire_running on_worker
  expire_running-Keeps timeout t k (some r) (some started) s w e v =
      elim (Bool-cases (leb (started + timeout) t)) [
        | inl late ↦ rw late (
            inference_timed_out-IsConsistent k r (stop k s w).0 (stop k s w).1.0 s (stop k s w).1.1
              v (cancel_active-IsValid P (s.client k) w (v.agrees.valid k))
              (running-cancel_active P (s.client k) w r (v.agrees.valid k)
                (sym (v.agrees.running k) ∙ e)))
        | inr early ↦ rw early v
      ]
  expire_running-Keeps timeout t k (some r) none s w e v = v
  expire_running-Keeps timeout t k none q s w e v = v

  expire_workers-Keeps : (timeout t : ℕ) (ks : List String) → Keeps (expire_workers P timeout t ks)
  unfolding expire_workers expire_worker
  expire_workers-Keeps timeout t [] s w v = v
  expire_workers-Keeps timeout t (k ∷ ks) s w v =
      Keeps-bind (expire_worker P timeout t k) (λ _. expire_workers P timeout t ks)
        (λ s w v.
          expire_running-Keeps timeout t k (lookup k s.active) (lookup k s.active_started) s w refl
            v)
        (λ _. expire_workers-Keeps timeout t ks) s w v

  expire_active_after-Keeps : (o : Option ℕ) → Keeps (expire_active_after P o)
  unfolding expire_active_after
  expire_active_after-Keeps none s w v = v
  expire_active_after-Keeps (some timeout) s w v =
      Keeps-bind (expire_workers P timeout (P.monotonic w).0 s.workers)
        (λ _. fail_pending_without_healthy_workers P)
        (expire_workers-Keeps timeout (P.monotonic w).0 s.workers) (λ _. fail_pending-Keeps) s
        (P.monotonic w).1 v

  pub expire_active-Keeps : Keeps (expire_active P)
  unfolding expire_active
  expire_active-Keeps s w v = expire_active_after-Keeps s.max_inference s w v
