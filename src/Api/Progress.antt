-- ===== src/Api/Progress.antt =====
-- What a change of the runtime of voxcpm_runtime/api_runtime.py leads to.
use open_bmb_vox_cpm2_infere.Common.{
  ℕ, ◌+◌, ◌<◌, ◌≡◌, ◌≢◌, refl, sym, ap, subst, true, Option, none, some, String, arith,
}
use open_bmb_vox_cpm2_infere.Common.Dict.{lookup, put, lookup-put}
use open_bmb_vox_cpm2_infere.Worker.Types.{WorkerMessage}
use open_bmb_vox_cpm2_infere.Api.{
  ApiRuntime, Future, waiting, finished, Dispatcher, polling, ended, routing, testing, answering,
  waiting_for, offering, set_at, allocate, new_future, new_stream, resolved, settle,
}
use open_bmb_vox_cpm2_infere.Api.Dispatch.{is_settling}
use open_bmb_vox_cpm2_infere.Api.Routed.{
  About, Carries, IsRouted, set_at_same, settle-IsRouted, allocate-IsRouted, enter_future-IsRouted,
  enter_stream-IsRouted,
}

-- What a change of the runtime leads to: it is still routed, no future that was done has changed, and
-- every object is still there, for its request.
pub record Progress (a b : ApiRuntime) : Type 0 where
  pub routed : IsRouted b
  pub kept : (f : ℕ) → a.outcome f ≢ waiting → b.outcome f ≡ a.outcome f
  pub owned : (f : ℕ) → f < a.next → (f < b.next) × (b.requested f ≡ a.requested f)

-- The futures are as they were, and there is no new object.
abbrev pub Same : ApiRuntime → ApiRuntime → Type 0
Same a b = (b.outcome ≡ a.outcome) × (b.requested ≡ a.requested) × (b.next ≡ a.next)

module _ (a : ApiRuntime) (h : IsRouted a) where
  -- Nothing has become of the futures.
  pub Same-Progress : (b : ApiRuntime) → IsRouted b → Same a b → Progress a b
  Same-Progress b i e = record {
    routed = i;
    kept = λ f n. ap (λ o. o f) e.0;
    owned = λ f lt. (subst (λ n. f < n) (sym e.2) lt, ap (λ o. o f) e.1);
  }

  allocate_kept :
      (r : String) (f : ℕ) → a.outcome f ≢ waiting → (allocate r a).outcome f ≡ a.outcome f
  unfolding set_at
  allocate_kept r f n = ground (arith, h.unborn f)

  allocate_owned :
      (r : String) (f : ℕ)
      → f < a.next
      → (f < (allocate r a).next) × ((allocate r a).requested f ≡ a.requested f)
  unfolding set_at
  allocate_owned r f lt = (omega arith, ground arith)

  enter-Carries :
      (r : String) (d : Dispatcher)
      → Carries a.futures a.requested a.next d
      → Carries (put r a.next a.futures) (set_at a.next r a.requested) (a.next + 1) d
  unfolding set_at
  enter-Carries r polling c = tt
  enter-Carries r ended c = tt
  enter-Carries r (routing es) c = tt
  enter-Carries r (waiting_for e s q deadline es) c = (ground arith, omega arith, c.2)
  enter-Carries r (offering e s q deadline es) c = (ground arith, omega arith, c.2)
  enter-Carries r (testing e f es) c = (
    omega (arith, c.0),
    ground (arith, c.0, c.1),
    c.2,
    λ i. ground (arith, c.0, c.3, lookup-put r (a.requested f) a.next a.futures),
  )
  enter-Carries r (answering e f es) c = (
    omega (arith, c.0),
    ground (arith, c.0, c.1),
    c.2,
    λ i. ground (arith, c.0, c.3, lookup-put r (a.requested f) a.next a.futures),
  )

  pub new_future-Progress : (r : String) → Progress a (new_future r a)
  new_future-Progress r = record {
    routed =
        enter_future-IsRouted (allocate r a) (allocate-IsRouted a h r) r a.next
          (set_at_same a.next waiting a.outcome a.next refl)
          (set_at_same a.next r a.requested a.next refl) (omega arith)
          (enter-Carries r a.dispatcher h.carried);
    kept = allocate_kept r;
    owned = allocate_owned r;
  }

  pub new_stream-Progress : (r : String) → Progress a (new_stream r a)
  new_stream-Progress r = record {
    routed =
        enter_stream-IsRouted (allocate r a) (allocate-IsRouted a h r) r a.next
          (set_at_same a.next r a.requested a.next refl) (omega arith);
    kept = allocate_kept r;
    owned = allocate_owned r;
  }

  settle_kept :
      (r : String) (v : Future) (o : Option ℕ) (f : ℕ)
      → a.outcome f ≢ waiting
      → (settle r v o a).outcome f ≡ a.outcome f
  unfolding settle set_at resolved
  settle_kept r v none f n = refl
  settle_kept r v (some g) f n = ground arith

  settle_owned :
      (r : String) (v : Future) (o : Option ℕ) (f : ℕ)
      → f < a.next
      → (f < (settle r v o a).next) × ((settle r v o a).requested f ≡ a.requested f)
  unfolding settle
  settle_owned r v none f lt = (lt, refl)
  settle_owned r v (some g) f lt = (lt, refl)

  pub settle-Progress :
      (r : String) (v : Future)
      → ((m : WorkerMessage) → v ≡ finished m → About r m × (is_settling m.kind ≡ true))
      → Progress a (settle r v (lookup r a.futures) a)
  settle-Progress r v k = record {
    routed = settle-IsRouted a h r v k (lookup r a.futures) refl;
    kept = settle_kept r v (lookup r a.futures);
    owned = settle_owned r v (lookup r a.futures);
  }
