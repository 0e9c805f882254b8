-- ===== src/Api/History.antt =====
-- What holds in every state that the threads of voxcpm_runtime/api_runtime.py reach, and what a caller
-- of ApiRuntime.submit may rely on.
use open_bmb_vox_cpm2_infere.Common.{
  ℕ, ◌≤◌, ◌<◌, ◌≡◌, ◌≢◌, refl, ap, subst, ◌∙◌, Bool, true, false, Option, some, String, List, arith,
}
use open_bmb_vox_cpm2_infere.Common.Exec.{Outcome, ok, raised, continue}
use open_bmb_vox_cpm2_infere.Worker.Types.{WorkerMessage, WorkerRequest}
use open_bmb_vox_cpm2_infere.Worker.Errors.{Exception}
use open_bmb_vox_cpm2_infere.Worker.Platform.{Platform}
use open_bmb_vox_cpm2_infere.Worker.Client.{WorkerClient}
use open_bmb_vox_cpm2_infere.Scheduler.{Scheduler}
use open_bmb_vox_cpm2_infere.Scheduler.Construct.{scheduler}
use open_bmb_vox_cpm2_infere.Scheduler.Methods
use open_bmb_vox_cpm2_infere.Api.{ApiRuntime, waiting, finished, new_future, on_scheduler}
use open_bmb_vox_cpm2_infere.Api.Methods.{accept, submit, api_runtime, around, constructed}
use open_bmb_vox_cpm2_infere.Api.Dispatch.{is_settling}
use open_bmb_vox_cpm2_infere.Api.Routed.{About, IsRouted, set_at_same}
use open_bmb_vox_cpm2_infere.Api.Progress.{new_future-Progress}
use open_bmb_vox_cpm2_infere.Api.Clearing.{no_entry}
use open_bmb_vox_cpm2_infere.Api.Turns.{Turn, run, run-Progress}

around-IsRouted :
    (chunks : ℕ) (b : Option ℕ) (s : Scheduler) → 1 ≤ chunks → IsRouted (around chunks b s)
around-IsRouted chunks b s h = record {
  in_table = λ r f e. absurd (no_entry r f e);
  answered = λ f m e. cc;
  streamed = λ r q e. absurd (no_entry r q e);
  buffered = λ q. tt;
  bounded = λ q. omega arith;
  carried = tt;
  made = tt;
  unborn = λ f le. refl;
  positive = h;
}

made_from : {A E : Type 0} (x : A) → Outcome E A → A
made_from x (ok a) = a
made_from x (raised e) = x

constructed-IsRouted :
    (chunks : ℕ) (b : Option ℕ) (o : Outcome Exception Scheduler) (a : ApiRuntime)
    → 1 ≤ chunks
    → constructed chunks b o ≡ ok a
    → IsRouted a
unfolding constructed made_from
constructed-IsRouted chunks b (ok s) a h e =
    subst IsRouted (ap (made_from a) e) (around-IsRouted chunks b s h)
constructed-IsRouted chunks b (raised x) a h e = cc

api_runtime-IsRouted :
    (ws : List WorkerClient) (p chunks : ℕ) (q i c b : Option ℕ) (a : ApiRuntime)
    → api_runtime ws p chunks q i c b ≡ ok a
    → IsRouted a
unfolding api_runtime
api_runtime-IsRouted ws p chunks q i c b a e =
    constructed-IsRouted chunks b (scheduler ws p q i c) a (ground arith) (ground arith)

module _ (P : Platform) (poll_ticks : ℕ) where
  open P use {World}

  -- Let the constructor accept its arguments. In whatever order the threads then submit, cancel, close,
  -- take from streams, cancel their futures and dispatch: no future in the table is finished, and each
  -- was made for its request; a future that is finished holds a result, an error or a cancellation of
  -- its own request; the queue of a stream holds messages about its own request only, and no more than
  -- its size; a future that the dispatcher has taken and not answered yet is in the table no more.
  pub run-IsRouted :
      (ws : List WorkerClient) (p chunks : ℕ) (q i c b : Option ℕ) (a : ApiRuntime) (w : World)
      (ts : List Turn)
      → api_runtime ws p chunks q i c b ≡ ok a
      → IsRouted (run P poll_ticks ts (a, w)).0
  run-IsRouted ws p chunks q i c b a w ts e =
      (run-Progress P poll_ticks ts a (api_runtime-IsRouted ws p chunks q i c b a e) w).routed

  -- What becomes of the future `f` of request `r`.
  pub record Settles (r : String) (f : ℕ) (aw : ApiRuntime × World) : Type 0 where
    pub waits : aw.0.outcome f ≡ waiting
    pub answers :
        (ts : List Turn) (m : WorkerMessage)
        → (run P poll_ticks ts aw).0.outcome f ≡ finished m
        → About r m × (is_settling m.kind ≡ true)
    pub once :
        (ts us : List Turn)
        → (run P poll_ticks ts aw).0.outcome f ≢ waiting
        → (run P poll_ticks us (run P poll_ticks ts aw)).0.outcome f
          ≡ (run P poll_ticks ts aw).0.outcome f

  settles :
      (r : String) (f : ℕ) (a : ApiRuntime) (h : IsRouted a) (w : World)
      → a.outcome f ≡ waiting
      → a.requested f ≡ r
      → f < a.next
      → Settles r f (a, w)
  settles r f a h w o e lt = record {
    waits = o;
    answers = λ ts m done.
        let p = run-Progress P poll_ticks ts a h w in
        let (about, kind) = p.routed.answered f m done in
        (about ∙ ap some ((p.owned f lt).1 ∙ e), kind);
    once = λ ts us n.
        let p = run-Progress P poll_ticks ts a h w in
        let bv = run P poll_ticks ts (a, w) in
        (run-Progress P poll_ticks us bv.0 p.routed bv.1).kept f n;
  }

  accepted-Settles :
      (r : WorkerRequest) (f : ℕ) (o : Outcome Exception Methods.SubmissionState) (a : ApiRuntime)
      (h : IsRouted a) (w : World)
      → let x =
          continue {E = Exception} {S = ApiRuntime × World} {B = ℕ} o
            (λ s bv. (ok bv.0.next, (new_future r.request_id bv.0, bv.1)))
            (a, w) in
        x.0 ≡ ok f → Settles r.request_id f x.1
  unfolding made_from
  accepted-Settles r f (ok s) a h w e =
      let p = new_future-Progress a h r.request_id in
      subst (λ g. Settles r.request_id g (new_future r.request_id a, w)) (ap (made_from a.next) e)
        (settles r.request_id a.next (new_future r.request_id a) p.routed w
          (set_at_same a.next waiting a.outcome a.next refl)
          (set_at_same a.next r.request_id a.requested a.next refl) (omega arith))
  accepted-Settles r f (raised x) a h w e = cc

  accept-Settles :
      (b : Bool) (r : WorkerRequest) (f : ℕ) (a : ApiRuntime) (w : World)
      → IsRouted a
      → (accept P b r new_future (a, w)).0 ≡ ok f
      → Settles r.request_id f (accept P b r new_future (a, w)).1
  unfolding accept on_scheduler
  accept-Settles true r f a w h e = cc
  accept-Settles false r f a w h e =
      let x = Methods.submit P r (a.scheduler, w) in
      accepted-Settles r f x.0 (record a { scheduler = x.1.0 }) h x.1.1 e

  -- Let `submit` take a request, in a state where futures and streams are routed. The future that it
  -- returns waits, and whatever the threads do afterwards: once it is finished it holds a result, an
  -- error or a cancellation of its own request, and once it is done it never changes.
  pub submit-Settles :
      (r : WorkerRequest) (f : ℕ) (a : ApiRuntime) (w : World)
      → IsRouted a
      → (submit P r (a, w)).0 ≡ ok f
      → Settles r.request_id f (submit P r (a, w)).1
  unfolding submit
  submit-Settles r f a w h e = accept-Settles a.closed r f a w h e
