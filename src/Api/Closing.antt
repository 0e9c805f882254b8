-- ===== src/Api/Closing.antt =====
-- What ApiRuntime.close of voxcpm_runtime/api_runtime.py leaves of the futures.
use open_bmb_vox_cpm2_infere.Common.{
  ℕ, ◌≡◌, refl, sym, ap, subst, true, false, some, String, List, [], ◌∷◌, arith,
}
use open_bmb_vox_cpm2_infere.Common.Exec.{Outcome, ok, raised, continue}
use open_bmb_vox_cpm2_infere.Common.Dict.{Dict, lookup}
use open_bmb_vox_cpm2_infere.Worker.Errors.{Exception, os_error}
use open_bmb_vox_cpm2_infere.Worker.Platform.{Platform}
use open_bmb_vox_cpm2_infere.Worker.Platform
use open_bmb_vox_cpm2_infere.Worker.Client.{ready}
use open_bmb_vox_cpm2_infere.Scheduler.Methods
use open_bmb_vox_cpm2_infere.Scheduler.Closing.{close_breaks_off}
use open_bmb_vox_cpm2_infere.Api.{
  ApiRuntime, Future, cancelled, set_at, resolved, update, on_scheduler,
}
use open_bmb_vox_cpm2_infere.Api.Methods.{
  begin_close, closing_from, cancel_each, clear, finish_close,
}
use open_bmb_vox_cpm2_infere.Api.Routed.{IsRouted, is_finished}
use open_bmb_vox_cpm2_infere.Api.Clearing.{cancel_each_kept}

cancel_each-lookup :
    (d : Dict ℕ) (o : ℕ → Future) (r : String) (f : ℕ)
    → lookup r d ≡ some f
    → is_finished (o f) ≡ false
    → cancel_each d o f ≡ cancelled
unfolding cancel_each set_at resolved lookup
cancel_each-lookup [] o r f e h = cc
cancel_each-lookup ((k, g) ∷ d) o r f e h =
    let o' = set_at g (resolved cancelled (o g)) o in
    ground (arith, cancel_each-lookup d o' r f, cancel_each_kept d o' f)

fault_of : {A : Type 0} → Exception → Outcome Exception A → Exception
fault_of e (ok a) = e
fault_of e (raised x) = x

module _ (P : Platform) where
  open P use {World}

  already_closed :
      (b : ApiRuntime) (v : World) → b.closed ≡ true → begin_close P (b, v) ≡ (ok false, (b, v))
  unfolding begin_close closing_from
  already_closed b v z = ap (λ c. closing_from P c (b, v)) z

  finished_of :
      (o : Outcome Exception (Unit {0})) (b : ApiRuntime) (v : World)
      → o ≡ ok tt
      → continue o (λ _. update P clear) (b, v) ≡ (ok tt, (clear b, v))
  finished_of (ok _) b v e = refl
  finished_of (raised x) b v e = cc

  raised_of :
      (o : Outcome Exception (Unit {0})) (b : ApiRuntime) (v : World)
      → o ≡ raised os_error
      → continue o (λ _. update P clear) (b, v) ≡ (raised os_error, (b, v))
  unfolding fault_of
  raised_of (ok _) b v e = cc
  raised_of (raised x) b v e = ap (λ y. (raised y, (b, v))) (ap (fault_of x) e)

  -- Let futures and streams be routed. Where the scheduler closes, `close` cancels every future of
  -- its table, and empties its tables.
  pub finish_close-settles :
      (a : ApiRuntime) (w : World)
      → IsRouted a
      → (Methods.close P (a.scheduler, w)).0 ≡ ok tt
      → let (o, (b, v)) = finish_close P (a, w) in
        (o ≡ ok tt)
        × ((r : String) (f : ℕ) → lookup r a.futures ≡ some f → b.outcome f ≡ cancelled)
        × (b.futures ≡ [])
        × (b.streams ≡ [])
  unfolding finish_close on_scheduler
  finish_close-settles a w h e =
      let x = Methods.close P (a.scheduler, w) in
      let b = record a { scheduler = x.1.0 } in
      subst
        (λ (y : Outcome Exception (Unit {0}) × (ApiRuntime × World)).
          (y.0 ≡ ok tt)
          × ((r : String) (f : ℕ) → lookup r a.futures ≡ some f → y.1.0.outcome f ≡ cancelled)
          × (y.1.0.futures ≡ [])
          × (y.1.0.streams ≡ []))
        (sym (finished_of x.0 b x.1.1 e))
        (
          refl,
          (λ r f i. cancel_each-lookup a.futures a.outcome r f i (h.in_table r f i).0),
          refl,
          refl,
        )

  -- Let the first worker be ready, with a pipe that breaks when it is asked to shut down. `close`
  -- raises the OSError: no future has changed, those that waited in the table wait there still, and
  -- since the runtime is marked as closed, a further `close` returns at once and changes nothing.
  pub finish_close_breaks_off :
      (a : ApiRuntime) (w : World) (k : String) (ks : List String) (c p : ℕ)
      → a.closed ≡ true
      → a.scheduler.closed ≡ false
      → a.scheduler.workers ≡ k ∷ ks
      → (a.scheduler.client k).state ≡ ready
      → (a.scheduler.client k).control ≡ some c
      → (a.scheduler.client k).process ≡ some p
      → (P.send c Platform.shutdown w).0 ≡ false
      → let (o, bv) = finish_close P (a, w) in
        (o ≡ raised os_error)
        × (bv.0.outcome ≡ a.outcome)
        × (bv.0.futures ≡ a.futures)
        × (begin_close P bv ≡ (ok false, bv))
  unfolding finish_close on_scheduler begin_close
  finish_close_breaks_off a w k ks c p z s e st co pr br =
      let x = Methods.close P (a.scheduler, w) in
      let b = record a { scheduler = x.1.0 } in
      let broke = close_breaks_off P a.scheduler w k ks c p s e st co pr br in
      subst
        (λ (y : Outcome Exception (Unit {0}) × (ApiRuntime × World)).
          (y.0 ≡ raised os_error)
          × (y.1.0.outcome ≡ a.outcome)
          × (y.1.0.futures ≡ a.futures)
          × (begin_close P y.1 ≡ (ok false, y.1)))
        (sym (raised_of x.0 b x.1.1 broke.0)) (refl, refl, refl, already_closed b x.1.1 z)
