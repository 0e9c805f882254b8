-- ===== src/Api/Turns.antt =====
-- Any interleaving of the threads of voxcpm_runtime/api_runtime.py: callers submit, cancel and close,
-- consumers take messages from the queues of their streams, owners cancel their futures, and the
-- dispatcher goes on by steps.
use open_bmb_vox_cpm2_infere.Common.{ℕ, ◌≤◌, refl, Bool, true, false, String, List, [], ◌∷◌, arith}
use open_bmb_vox_cpm2_infere.Common.Lists.{length, All}
use open_bmb_vox_cpm2_infere.Worker.Types.{
  WorkerMessage, WorkerRequest, WorkerOperation, synthesize, design, clone_voice, continue_audio,
  stream,
}
use open_bmb_vox_cpm2_infere.Worker.Platform.{Platform}
use open_bmb_vox_cpm2_infere.Scheduler.{Scheduler}
use open_bmb_vox_cpm2_infere.Scheduler.Methods
use open_bmb_vox_cpm2_infere.Api.{ApiRuntime, set_at, new_future, new_stream, on_scheduler}
use open_bmb_vox_cpm2_infere.Api.Methods.{
  accept, submit, submit_stream, submit_stream_of, cancel, begin_close, closing_from, finish_close,
}
use open_bmb_vox_cpm2_infere.Api.Dispatch.{dispatch_step}
use open_bmb_vox_cpm2_infere.Api.Routed.{About, IsRouted, refill-IsRouted}
use open_bmb_vox_cpm2_infere.Api.Progress.{
  Progress, Same-Progress, new_future-Progress, new_stream-Progress,
}
use open_bmb_vox_cpm2_infere.Api.Steps.{
  same, then_Progress, forget-Progress, go_on-Leads, dispatch_step-Leads,
}
use open_bmb_vox_cpm2_infere.Api.Clearing.{clear-Progress}
use open_bmb_vox_cpm2_infere.Api.Settling.{owner_cancel, owner_cancel-Progress}

-- What a thread does next. A call of `close` is its part before the join and its part after it;
-- `owner_cancels` is the cancellation of a future by the task that waits for it.
pub data Turn : Type 0 where
  submits streams : WorkerRequest → Turn
  cancels : String → Turn
  begins_close finishes_close dispatches : Turn
  takes owner_cancels : ℕ → Turn

abbrev tail : List WorkerMessage → List WorkerMessage
tail [] = []
tail (m ∷ ms) = ms

-- The consumer of the queue `q` takes its first message, if there is one.
abbrev pub take_from : ℕ → ApiRuntime → ApiRuntime
take_from q a = record a { buffer = set_at q (tail (a.buffer q)) a.buffer }

All-tail : (P : WorkerMessage → Type 0) (ms : List WorkerMessage) → All P ms → All P (tail ms)
All-tail P [] h = tt
All-tail P (m ∷ ms) h = h.1

length-tail-le : (ms : List WorkerMessage) (n : ℕ) → length ms ≤ n → length (tail ms) ≤ n
length-tail-le [] n h = h
length-tail-le (m ∷ ms) n h = omega arith

take_from-Progress : (a : ApiRuntime) (h : IsRouted a) (q : ℕ) → Progress a (take_from q a)
take_from-Progress a h q =
    Same-Progress a h (take_from q a)
      (refill-IsRouted a h q (tail (a.buffer q))
        (All-tail (About (a.requested q)) (a.buffer q) (h.buffered q))
        (length-tail-le (a.buffer q) a.stream_queue_chunks (h.bounded q)))
      (refl, refl, refl)

module _ (P : Platform) (poll_ticks : ℕ) where
  open P use {World}

  unfoldable pub turn : Turn → ApiRuntime × World → ApiRuntime × World
  turn (submits r) aw = (submit P r aw).1
  turn (streams r) aw = (submit_stream P r aw).1
  turn (cancels r) aw = (cancel P r aw).1
  turn begins_close aw = (begin_close P aw).1
  turn finishes_close aw = (finish_close P aw).1
  turn dispatches aw = (dispatch_step P poll_ticks aw).1
  turn (takes q) (a, w) = (take_from q a, w)
  turn (owner_cancels f) (a, w) = (owner_cancel f a, w)

  unfoldable pub run : List Turn → ApiRuntime × World → ApiRuntime × World
  run [] aw = aw
  run (t ∷ ts) aw = run ts (turn t aw)

  -- The scheduler has changed, and its method has returned or raised.
  scheduler-Progress :
      (a : ApiRuntime) (h : IsRouted a) (s : Scheduler) → Progress a (record a { scheduler = s })
  scheduler-Progress a h s = Same-Progress a h (record a { scheduler = s }) h (refl, refl, refl)

  accept-Progress :
      (b : Bool) (r : WorkerRequest) (enter : String → ApiRuntime → ApiRuntime) (a : ApiRuntime)
      (h : IsRouted a) (w : World)
      → ((c : ApiRuntime) → IsRouted c → Progress c (enter r.request_id c))
      → Progress a (accept P b r enter (a, w)).1.0
  unfolding accept on_scheduler
  accept-Progress true r enter a h w k = same a h
  accept-Progress false r enter a h w k =
      let x = Methods.submit P r (a.scheduler, w) in
      let b = record a { scheduler = x.1.0 } in
      go_on-Leads P poll_ticks a b x.0 _ x.1.1 (scheduler-Progress a h x.1.0) (λ s. k b h)

  submit_stream_of-Progress :
      (o : WorkerOperation) (r : WorkerRequest) (a : ApiRuntime) (h : IsRouted a) (w : World)
      → Progress a (submit_stream_of P o r (a, w)).1.0
  unfolding submit_stream_of
  submit_stream_of-Progress stream r a h w =
      accept-Progress a.closed r new_stream a h w (λ c i. new_stream-Progress c i r.request_id)
  submit_stream_of-Progress synthesize r a h w = same a h
  submit_stream_of-Progress design r a h w = same a h
  submit_stream_of-Progress clone_voice r a h w = same a h
  submit_stream_of-Progress continue_audio r a h w = same a h

  closing_from-Progress :
      (b : Bool) (a : ApiRuntime) (h : IsRouted a) (w : World)
      → Progress a (closing_from P b (a, w)).1.0
  unfolding closing_from
  closing_from-Progress true a h w = same a h
  closing_from-Progress false a h w =
      Same-Progress a h (record a { closed = true; stop = true }) h (refl, refl, refl)

  pub turn-Progress :
      (t : Turn) (a : ApiRuntime) (h : IsRouted a) (w : World) → Progress a (turn t (a, w)).0
  unfolding turn submit submit_stream cancel begin_close finish_close on_scheduler
  turn-Progress (submits r) a h w =
      accept-Progress a.closed r new_future a h w (λ c i. new_future-Progress c i r.request_id)
  turn-Progress (streams r) a h w = submit_stream_of-Progress r.operation r a h w
  turn-Progress (cancels r) a h w =
      let x = Methods.cancel P r (a.scheduler, w) in
      let b = record a { scheduler = x.1.0 } in
      go_on-Leads P poll_ticks a b x.0 _ x.1.1 (scheduler-Progress a h x.1.0)
        (λ m. forget-Progress b h r)
  turn-Progress begins_close a h w = closing_from-Progress a.closed a h w
  turn-Progress finishes_close a h w =
      let x = Methods.close P (a.scheduler, w) in
      let b = record a { scheduler = x.1.0 } in
      go_on-Leads P poll_ticks a b x.0 _ x.1.1 (scheduler-Progress a h x.1.0)
        (λ u. clear-Progress b h)
  turn-Progress dispatches a h w = dispatch_step-Leads P poll_ticks a h w
  turn-Progress (takes q) a h w = take_from-Progress a h q
  turn-Progress (owner_cancels f) a h w = owner_cancel-Progress a h f

  pub run-Progress :
      (ts : List Turn) (a : ApiRuntime) (h : IsRouted a) (w : World) → Progress a (run ts (a, w)).0
  unfolding run
  run-Progress [] a h w = same a h
  run-Progress (t ∷ ts) a h w =
      let p = turn-Progress t a h w in
      let bv = turn t (a, w) in
      then_Progress a bv.0 (run ts bv).0 p (run-Progress ts bv.0 p.routed bv.1)
