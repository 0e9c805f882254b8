-- ===== src/Api/Ended.antt =====
-- What ends the dispatcher thread of voxcpm_runtime/api_runtime.py, and what is left of the service then.
use open_bmb_vox_cpm2_infere.Common.{
  ℕ, ◌<◌, ◌≡◌, refl, sym, ap, subst, ◌∙◌, Bool, true, false, Option, none, some, String, List, [],
  ◌∷◌, arith,
}
use open_bmb_vox_cpm2_infere.Common.Exec.{Outcome, ok, raised, continue}
use open_bmb_vox_cpm2_infere.Common.Dict.{lookup}
use open_bmb_vox_cpm2_infere.Worker.Types.{
  WorkerMessage, WorkerRequest, WorkerOperation, synthesize, design, clone_voice, continue_audio,
  stream,
}
use open_bmb_vox_cpm2_infere.Worker.Errors.{Exception}
use open_bmb_vox_cpm2_infere.Worker.Platform.{Platform}
use open_bmb_vox_cpm2_infere.Scheduler.Methods
use open_bmb_vox_cpm2_infere.Api.{
  ApiRuntime, waiting, cancelled, finished, ended, answering, set_at, resolved, new_future,
  new_stream, settle, Action, on_scheduler,
}
use open_bmb_vox_cpm2_infere.Api.Methods.{
  accept, submit, submit_stream, submit_stream_of, cancel, begin_close, closing_from, finish_close,
  clear, forget,
}
use open_bmb_vox_cpm2_infere.Api.Dispatch.{at, set_result, step_from, dispatch_step}
use open_bmb_vox_cpm2_infere.Api.Clearing.{cancel_each_finished}
use open_bmb_vox_cpm2_infere.Api.Settling.{owner_cancel}
use open_bmb_vox_cpm2_infere.Api.Turns.{
  Turn, submits, streams, cancels, begins_close, finishes_close, dispatches, takes, owner_cancels,
  turn, run,
}

-- From `a` to `b` the dispatcher has not moved, and no future has been answered.
abbrev pub IsSilent : ApiRuntime → ApiRuntime → Type 0
IsSilent a b =
    (b.dispatcher ≡ a.dispatcher)
    × ((g : ℕ) (m : WorkerMessage) → b.outcome g ≡ finished m → a.outcome g ≡ finished m)

still : (a : ApiRuntime) → IsSilent a a
still a = (refl, λ g m e. e)

then-IsSilent : (a b c : ApiRuntime) → IsSilent a b → IsSilent b c → IsSilent a c
then-IsSilent a b c p q = (q.0 ∙ p.0, λ g m e. p.1 g m (q.1 g m e))

new_future-IsSilent : (r : String) (a : ApiRuntime) → IsSilent a (new_future r a)
unfolding set_at
new_future-IsSilent r a = (refl, λ g m e. ground arith)

new_stream-IsSilent : (r : String) (a : ApiRuntime) → IsSilent a (new_stream r a)
unfolding set_at
new_stream-IsSilent r a = (refl, λ g m e. ground arith)

settle-IsSilent : (r : String) (o : Option ℕ) (a : ApiRuntime) → IsSilent a (settle r cancelled o a)
unfolding settle set_at resolved
settle-IsSilent r none a = (refl, λ g m e. e)
settle-IsSilent r (some f) a = (refl, λ g m e. ground arith)

forget-IsSilent : (r : String) (a : ApiRuntime) → IsSilent a (forget r a)
unfolding forget
forget-IsSilent r a = let p = settle-IsSilent r (lookup r a.futures) a in (p.0, λ g m e. p.1 g m e)

clear-IsSilent : (a : ApiRuntime) → IsSilent a (clear a)
clear-IsSilent a = (refl, λ g m e. cancel_each_finished a.futures a.outcome g m e)

owner_cancel-IsSilent : (f : ℕ) (a : ApiRuntime) → IsSilent a (owner_cancel f a)
unfolding owner_cancel set_at resolved
owner_cancel-IsSilent f a = (ground arith, λ g m e. ground arith)

module _ (P : Platform) (poll_ticks : ℕ) where
  open P use {World}

  go_on-IsSilent :
      {A B : Type 0} (a b : ApiRuntime) (o : Outcome Exception A) (k : A → Action P B) (w : World)
      → IsSilent a b
      → ((x : A) → IsSilent b (k x (b, w)).1.0)
      → IsSilent a (continue o k (b, w)).1.0
  go_on-IsSilent a b (ok x) k w p q = then-IsSilent a b (k x (b, w)).1.0 p (q x)
  go_on-IsSilent a b (raised e) k w p q = p

  accept-IsSilent :
      (b : Bool) (r : WorkerRequest) (enter : String → ApiRuntime → ApiRuntime) (a : ApiRuntime)
      (w : World)
      → ((c : ApiRuntime) → IsSilent c (enter r.request_id c))
      → IsSilent a (accept P b r enter (a, w)).1.0
  unfolding accept on_scheduler
  accept-IsSilent true r enter a w k = still a
  accept-IsSilent false r enter a w k =
      let x = Methods.submit P r (a.scheduler, w) in
      let b = record a { scheduler = x.1.0 } in
      go_on-IsSilent a b x.0 _ x.1.1 (refl, λ g m e. e) (λ s. k b)

  submit_stream_of-IsSilent :
      (o : WorkerOperation) (r : WorkerRequest) (a : ApiRuntime) (w : World)
      → IsSilent a (submit_stream_of P o r (a, w)).1.0
  unfolding submit_stream_of
  submit_stream_of-IsSilent stream r a w =
      accept-IsSilent a.closed r new_stream a w (new_stream-IsSilent r.request_id)
  submit_stream_of-IsSilent synthesize r a w = still a
  submit_stream_of-IsSilent design r a w = still a
  submit_stream_of-IsSilent clone_voice r a w = still a
  submit_stream_of-IsSilent continue_audio r a w = still a

  closing_from-IsSilent :
      (b : Bool) (a : ApiRuntime) (w : World) → IsSilent a (closing_from P b (a, w)).1.0
  unfolding closing_from
  closing_from-IsSilent true a w = still a
  closing_from-IsSilent false a w = (refl, λ g m e. e)

  ended_step :
      (a : ApiRuntime) (w : World)
      → a.dispatcher ≡ ended
      → IsSilent a (dispatch_step P poll_ticks (a, w)).1.0
  unfolding dispatch_step step_from
  ended_step a w d = subst (λ p. IsSilent a (step_from P poll_ticks p (a, w)).1.0) (sym d) (still a)

  turn-IsSilent :
      (t : Turn) (a : ApiRuntime) (w : World)
      → a.dispatcher ≡ ended
      → IsSilent a (turn P poll_ticks t (a, w)).0
  unfolding turn submit submit_stream cancel begin_close finish_close on_scheduler
  turn-IsSilent (submits r) a w d =
      accept-IsSilent a.closed r new_future a w (new_future-IsSilent r.request_id)
  turn-IsSilent (streams r) a w d = submit_stream_of-IsSilent r.operation r a w
  turn-IsSilent (cancels r) a w d =
      let x = Methods.cancel P r (a.scheduler, w) in
      let b = record a { scheduler = x.1.0 } in
      go_on-IsSilent a b x.0 _ x.1.1 (refl, λ g m e. e) (λ m. forget-IsSilent r b)
  turn-IsSilent begins_close a w d = closing_from-IsSilent a.closed a w
  turn-IsSilent finishes_close a w d =
      let x = Methods.close P (a.scheduler, w) in
      let b = record a { scheduler = x.1.0 } in
      go_on-IsSilent a b x.0 _ x.1.1 (refl, λ g m e. e) (λ u. clear-IsSilent b)
  turn-IsSilent dispatches a w d = ended_step a w d
  turn-IsSilent (takes q) a w d = (refl, λ g m e. e)
  turn-IsSilent (owner_cancels f) a w d = owner_cancel-IsSilent f a

  run-IsSilent :
      (ts : List Turn) (a : ApiRuntime) (w : World)
      → a.dispatcher ≡ ended
      → IsSilent a (run P poll_ticks ts (a, w)).0
  unfolding run
  run-IsSilent [] a w d = still a
  run-IsSilent (t ∷ ts) a w d =
      let bv = turn P poll_ticks t (a, w) in
      let p = turn-IsSilent t a w d in
      then-IsSilent a bv.0 (run P poll_ticks ts bv).0 p (run-IsSilent ts bv.0 bv.1 (p.0 ∙ d))

  -- set_result raises, since the future is cancelled by now.
  refused :
      (e : WorkerMessage) (f : ℕ) (es : List WorkerMessage) (c : ApiRuntime) (w : World)
      → c.dispatcher ≡ answering e f es
      → c.outcome f ≡ cancelled
      → dispatch_step P poll_ticks (c, w) ≡ (ok tt, (at ended c, w))
  unfolding dispatch_step step_from set_result
  refused e f es c w d o =
      ap (λ p. step_from P poll_ticks p (c, w)) d ∙ ap (λ q. (ok tt, (set_result q e f es c, w))) o

  owner_cancel-outcome :
      (f : ℕ) (a : ApiRuntime)
      → a.outcome f ≡ waiting
      → f < a.next
      → (owner_cancel f a).outcome f ≡ cancelled
  unfolding owner_cancel set_at resolved
  owner_cancel-outcome f a o lt = ground arith

  -- Let the dispatcher have found a future of a caller not done, and be about to answer it. If the
  -- owner cancels it just then, the next step ends the thread, and whatever the threads do afterwards,
  -- the thread stays ended and no future is answered ever again.
  pub run-IsEnded :
      (ts : List Turn) (a : ApiRuntime) (w : World) (e : WorkerMessage) (f : ℕ)
      (es : List WorkerMessage)
      → a.dispatcher ≡ answering e f es
      → a.outcome f ≡ waiting
      → f < a.next
      → let b = (run P poll_ticks (owner_cancels f ∷ dispatches ∷ ts) (a, w)).0 in
        (b.dispatcher ≡ ended)
        × ((g : ℕ) (m : WorkerMessage) → b.outcome g ≡ finished m → a.outcome g ≡ finished m)
  unfolding run turn
  run-IsEnded ts a w e f es d o lt =
      let c = owner_cancel f a in
      let here = owner_cancel-IsSilent f a in
      let step = refused e f es c w (here.0 ∙ d) (owner_cancel-outcome f a o lt) in
      let rest = run-IsSilent ts (at ended c) w refl in
      subst
        (λ x.
          let b = (run P poll_ticks ts x.1).0 in
          (b.dispatcher ≡ ended)
          × ((g : ℕ) (m : WorkerMessage) → b.outcome g ≡ finished m → a.outcome g ≡ finished m))
        (sym step) (rest.0, λ g m q. here.1 g m (rest.1 g m q))
