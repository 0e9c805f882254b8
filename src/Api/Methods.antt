-- ===== src/Api/Methods.antt =====
-- The methods of ApiRuntime in voxcpm_runtime/api_runtime.py that its callers use. What stands under
-- one `with self._lock` is one action.
use open_bmb_vox_cpm2_infere.Common.{
  ℕ, Bool, true, false, Option, none, some, String, List, [], ◌∷◌, ◌==◌, if◌then◌else◌,
}
use open_bmb_vox_cpm2_infere.Common.Exec.{Outcome, ok, raised, pure, raise, ◌>>=◌, ◌>>◌}
use open_bmb_vox_cpm2_infere.Common.Dict.{Dict, lookup}
use open_bmb_vox_cpm2_infere.Worker.Types.{WorkerMessage, WorkerRequest, WorkerOperation, stream}
use open_bmb_vox_cpm2_infere.Worker.Errors.{Exception, value_error, admission_error, fault_with}
use open_bmb_vox_cpm2_infere.Worker.Platform.{Platform}
use open_bmb_vox_cpm2_infere.Worker.Client.{WorkerClient}
use open_bmb_vox_cpm2_infere.Scheduler.{Scheduler}
use open_bmb_vox_cpm2_infere.Scheduler.Construct.{scheduler}
use open_bmb_vox_cpm2_infere.Scheduler.Methods
use open_bmb_vox_cpm2_infere.Api.{
  ApiRuntime, Future, waiting, cancelled, polling, set_at, new_future, new_stream, drop_stream,
  resolved, settle, Action, self, update, on_scheduler,
}

-- The runtime around a new scheduler.
abbrev pub around : ℕ → Option ℕ → Scheduler → ApiRuntime
around chunks backpressure s = record {
  scheduler = s;
  stream_queue_chunks = chunks;
  stream_backpressure_timeout = backpressure;
  futures = [];
  streams = [];
  closed = false;
  stop = false;
  dispatcher = polling;
  next = 0;
  outcome = λ f. waiting;
  buffer = λ q. [];
  requested = λ f. "";
}

-- stream_backpressure_timeout_seconds is given and not positive
abbrev pub not_positive : Option ℕ → Bool
not_positive none = false
not_positive (some n) = n == 0

abbrev pub no_workers : List WorkerClient → Bool
no_workers [] = true
no_workers (c ∷ cs) = false

unfoldable pub constructed :
    ℕ → Option ℕ → Outcome Exception Scheduler → Outcome Exception ApiRuntime
constructed chunks backpressure (ok s) = ok (around chunks backpressure s)
constructed chunks backpressure (raised e) = raised e

-- ApiRuntime.__init__
unfoldable pub api_runtime :
    List WorkerClient
    → ℕ
    → ℕ
    → Option ℕ
    → Option ℕ
    → Option ℕ
    → Option ℕ
    → Outcome Exception ApiRuntime
unfolding constructed scheduler
api_runtime ws max_pending chunks queue_timeout max_inference max_concurrent backpressure =
    if chunks == 0
    then raised (value_error "stream_queue_chunks must be a positive integer")
    else if no_workers ws
    then raised (value_error "workers must be a non-empty tuple")
    else if not_positive backpressure
    then raised (value_error "stream_backpressure_timeout_seconds must be a positive finite number")
    else constructed chunks backpressure
        (scheduler ws max_pending queue_timeout max_inference max_concurrent)

-- future.cancel() for every future in the table that is not done
unfoldable pub cancel_each : Dict ℕ → (ℕ → Future) → ℕ → Future
unfolding set_at resolved
cancel_each [] outcome = outcome
cancel_each ((r, f) ∷ futures) outcome =
    cancel_each futures (set_at f (resolved cancelled (outcome f)) outcome)

-- The end of `close`.
abbrev pub clear : ApiRuntime → ApiRuntime
clear a = record a { futures = []; streams = []; outcome = cancel_each a.futures a.outcome }

-- What `cancel` does to the request's future and its stream.
unfoldable pub forget : String → ApiRuntime → ApiRuntime
unfolding settle
forget r a = drop_stream r (settle r cancelled (lookup r a.futures) a)

module _ (P : Platform) where
  open P use {World}

  -- The scheduler takes the request, which is then entered by `enter`; the result is the reference to
  -- the new object.
  unfoldable pub accept : Bool → WorkerRequest → (String → ApiRuntime → ApiRuntime) → Action P ℕ
  unfolding on_scheduler
  accept true r enter = raise (fault_with admission_error "scheduler_closed" [])
  accept false r enter = do
    on_scheduler P (Methods.submit P r)
    a ← self P
    update P (enter r.request_id)
    pure a.next

  -- ApiRuntime.submit
  unfoldable pub submit : WorkerRequest → Action P ℕ
  unfolding accept
  submit r = do a ← self P; accept a.closed r new_future

  unfoldable pub submit_stream_of : WorkerOperation → WorkerRequest → Action P ℕ
  unfolding accept
  submit_stream_of stream r = do a ← self P; accept a.closed r new_stream
  submit_stream_of _ r = raise (value_error "submit_stream requires a stream request")

  -- ApiRuntime.submit_stream
  unfoldable pub submit_stream : WorkerRequest → Action P ℕ
  unfolding submit_stream_of
  submit_stream r = submit_stream_of r.operation r

  -- ApiRuntime.cancel
  unfoldable pub cancel : String → Action P WorkerMessage
  unfolding on_scheduler forget
  cancel r = do event ← on_scheduler P (Methods.cancel P r); update P (forget r); pure event

  unfoldable pub closing_from : Bool → Action P Bool
  closing_from true = pure false
  closing_from false = do update P (λ a. record a { closed = true; stop = true }); pure true

  -- `close` up to the join of the dispatcher; the result says whether it was open.
  unfoldable pub begin_close : Action P Bool
  unfolding closing_from
  begin_close = do a ← self P; closing_from a.closed

  -- `close` after the join of the dispatcher.
  unfoldable pub finish_close : Action P (Unit {0})
  unfolding on_scheduler cancel_each
  finish_close = do on_scheduler P (Methods.close P); update P clear
