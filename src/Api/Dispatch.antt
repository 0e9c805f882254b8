-- ===== src/Api/Dispatch.antt =====
-- The dispatcher thread of voxcpm_runtime/api_runtime.py: _dispatch_loop and _route_stream_event, by
-- steps. Between two steps other threads may run. A step is what the thread does under the lock, or one
-- operation on a future or a queue.
use open_bmb_vox_cpm2_infere.Common.{
  ℕ, zero, suc, ◌+◌, Bool, true, false, Option, none, some, String, List, [], ◌∷◌, ◌++◌, ltb, leb,
  if◌then◌else◌,
}
use open_bmb_vox_cpm2_infere.Common.Exec.{Outcome, ok, raised, pure, attempt, ◌>>=◌, ◌>>◌}
use open_bmb_vox_cpm2_infere.Common.Dict.{lookup}
use open_bmb_vox_cpm2_infere.Common.Lists.{length}
use open_bmb_vox_cpm2_infere.Worker.Types.{
  WorkerMessage, WorkerMessageKind, stream_chunk, stream_end, result, no_payload,
}
use open_bmb_vox_cpm2_infere.Worker.Types
use open_bmb_vox_cpm2_infere.Worker.Errors.{Exception, worker}
use open_bmb_vox_cpm2_infere.Worker.Platform.{Platform}
use open_bmb_vox_cpm2_infere.Scheduler.Methods
use open_bmb_vox_cpm2_infere.Api.{
  ApiRuntime, Future, waiting, finished, Dispatcher, polling, ended, routing, testing, answering,
  waiting_for, offering, set_at, take_future, drop_stream, Action, self, update, now, on_scheduler,
}

-- event.kind in {"stream_chunk", "stream_end", "error", "cancelled"}
abbrev pub is_streamed : WorkerMessageKind → Bool
is_streamed stream_chunk = true
is_streamed stream_end = true
is_streamed Types.error = true
is_streamed Types.cancelled = true
is_streamed _ = false

-- event.kind in {"result", "error", "cancelled"}
abbrev pub is_settling : WorkerMessageKind → Bool
is_settling result = true
is_settling Types.error = true
is_settling Types.cancelled = true
is_settling _ = false

-- event.kind in {"stream_end", "error", "cancelled"}
abbrev pub ends_stream : WorkerMessageKind → Bool
ends_stream stream_end = true
ends_stream Types.error = true
ends_stream Types.cancelled = true
ends_stream _ = false

-- What the consumer of a stream that was not drained in time is told.
abbrev pub backpressure_error : String → WorkerMessage
backpressure_error r = record {
  kind = Types.error;
  worker_id = "api";
  request_id = some r;
  payload = no_payload;
  error = some (record {
    code = "stream_backpressure_timeout";
    message = "Stream consumer did not drain buffered audio in time.";
    retryable = true;
    details = [];
  });
  metadata = [];
}

abbrev pub at : Dispatcher → ApiRuntime → ApiRuntime
at d a = record a { dispatcher = d }

-- The future that was popped under the lock, if there was one.
unfoldable pub found_future :
    WorkerMessage → List WorkerMessage → String → Option ℕ → ApiRuntime → ApiRuntime
found_future e es r none a = at (routing es) a
found_future e es r (some f) a = at (testing e f es) (take_future r a)

-- The event to its future, where it settles one.
unfoldable pub route_to_future :
    WorkerMessage → List WorkerMessage → String → ApiRuntime → ApiRuntime
unfolding found_future
route_to_future e es r a =
    if is_settling e.kind then found_future e es r (lookup r a.futures) a else at (routing es) a

-- `if future is not None and not future.done()`
unfoldable pub check_done :
    Future → WorkerMessage → ℕ → List WorkerMessage → ApiRuntime → ApiRuntime
check_done waiting e f es a = at (answering e f es) a
check_done _ e f es a = at (routing es) a

-- future.set_result(event): on a future that is done by now it raises InvalidStateError, which ends the
-- thread.
unfoldable pub set_result :
    Future → WorkerMessage → ℕ → List WorkerMessage → ApiRuntime → ApiRuntime
unfolding set_at
set_result waiting e f es a =
    at (routing es) (record a { outcome = set_at f (finished e) a.outcome })
set_result _ e f es a = at ended a

-- The end of _route_stream_event.
unfoldable pub end_stream : WorkerMessage → String → ApiRuntime → ApiRuntime
end_stream e r a = if ends_stream e.kind then drop_stream r a else a

-- stream_queue.put(event)
abbrev pub enqueue : WorkerMessage → ℕ → ApiRuntime → ApiRuntime
enqueue e q a = record a { buffer = set_at q (a.buffer q ++ e ∷ []) a.buffer }

-- The deadline has passed: the stream is dropped, and its queue holds the error alone.
unfoldable pub give_up : String → ℕ → ApiRuntime → ApiRuntime
unfolding set_at
give_up r q a = record (drop_stream r a) { buffer = set_at q (backpressure_error r ∷ []) a.buffer }

module _ (P : Platform) (poll_ticks : ℕ) where
  open P use {World}

  unfoldable pub polled : Outcome Exception (List WorkerMessage) → Action P (Unit {0})
  polled (ok events) = update P (at (routing events))
  polled (raised (worker e)) = update P (at (routing []))
  polled (raised e) = update P (at ended)

  -- The head of the `while` loop and the poll. An exception that is no WorkerError ends the thread.
  unfoldable pub poll_step : Bool → Action P (Unit {0})
  unfolding polled on_scheduler
  poll_step true = update P (at ended)
  poll_step false = do got ← attempt (on_scheduler P (Methods.poll P poll_ticks)); polled got

  unfoldable pub deadline_from : Option ℕ → Action P (Option ℕ)
  deadline_from none = pure none
  deadline_from (some timeout) = do t ← now P; pure (some (t + timeout))

  -- An event for request `r`, by the stream that waits for it, if any.
  unfoldable pub route_by :
      WorkerMessage → List WorkerMessage → String → Option ℕ → Action P (Unit {0})
  unfolding route_to_future deadline_from
  route_by e es r none = update P (route_to_future e es r)
  route_by e es r (some q) = do
    a ← self P
    deadline ← deadline_from a.stream_backpressure_timeout
    update P (at (waiting_for e r q deadline es))

  unfoldable pub route_for :
      WorkerMessage → List WorkerMessage → Option String → Action P (Unit {0})
  unfolding route_by
  route_for e es none = update P (at (routing es))
  route_for e es (some r) = do
    a ← self P
    route_by e es r (if is_streamed e.kind then lookup r a.streams else none)

  -- The top of the `while` loop of _route_stream_event, where the stream is still wanted.
  unfoldable pub wait_until :
      WorkerMessage → String → ℕ → Option ℕ → List WorkerMessage → Action P (Unit {0})
  unfolding give_up
  wait_until e r q none es = update P (at (offering e r q none es))
  wait_until e r q (some deadline) es = do
    t ← now P
    if leb deadline t
        then update P (λ a. at (routing es) (give_up r q a))
        else update P (at (offering e r q (some deadline) es))

  unfoldable pub wait_step :
      Bool
      → Option ℕ
      → WorkerMessage
      → String
      → ℕ
      → Option ℕ
      → List WorkerMessage
      → Action P (Unit {0})
  unfolding wait_until end_stream
  wait_step true entry e r q deadline es = update P (λ a. at (routing es) (end_stream e r a))
  wait_step false none e r q deadline es = update P (at (routing es))
  wait_step false (some _) e r q deadline es = wait_until e r q deadline es

  -- stream_queue.put, which gives up while the queue is full.
  unfoldable pub offer :
      Bool → WorkerMessage → String → ℕ → Option ℕ → List WorkerMessage → Action P (Unit {0})
  unfolding end_stream set_at
  offer true e r q deadline es = update P (λ a. at (routing es) (end_stream e r (enqueue e q a)))
  offer false e r q deadline es = update P (at (waiting_for e r q deadline es))

  unfoldable pub step_from : Dispatcher → Action P (Unit {0})
  unfolding poll_step route_for wait_step offer check_done set_result
  step_from ended = pure tt
  step_from polling = do a ← self P; poll_step a.stop
  step_from (routing []) = update P (at polling)
  step_from (routing (e ∷ es)) = route_for e es e.request_id
  step_from (testing e f es) = update P (λ a. check_done (a.outcome f) e f es a)
  step_from (answering e f es) = update P (λ a. set_result (a.outcome f) e f es a)
  step_from (waiting_for e r q deadline es) = do
    a ← self P
    wait_step a.stop (lookup r a.streams) e r q deadline es
  step_from (offering e r q deadline es) = do
    a ← self P
    offer (ltb (length (a.buffer q)) a.stream_queue_chunks) e r q deadline es

  -- One step of the dispatcher.
  unfoldable pub dispatch_step : Action P (Unit {0})
  unfolding step_from
  dispatch_step = do a ← self P; step_from a.dispatcher

  -- A number of its steps.
  unfoldable pub dispatch_steps : ℕ → Action P (Unit {0})
  dispatch_steps zero = pure tt
  dispatch_steps (suc n) = do dispatch_step; dispatch_steps n
