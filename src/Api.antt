-- ===== src/Api.antt =====
-- ApiRuntime of voxcpm_runtime/api_runtime.py: its state. Futures and stream queues are objects that
-- the runtime shares with its callers: `futures` and `streams` hold references to them, which are
-- numbers, and `outcome` and `buffer` what is behind each reference. `requested` says which request an
-- object was made for; no code reads it. The thread of the dispatcher is the place that it has reached.
pub mod Methods
pub mod Dispatch
pub mod Routed
pub mod Progress
pub mod Settling
pub mod Steps
pub mod Clearing
pub mod Turns
pub mod History
pub mod Closing
pub mod Routes
pub mod Delivery
pub mod Stuck
pub mod Ended
use open_bmb_vox_cpm2_infere.Common.{
  ℕ, ◌+◌, Bool, true, false, Option, none, some, String, List, [], ◌∷◌, ◌==◌, if◌then◌else◌,
}
use open_bmb_vox_cpm2_infere.Common.Exec.{Exec, ok}
use open_bmb_vox_cpm2_infere.Common.Dict.{Dict, put, pop}
use open_bmb_vox_cpm2_infere.Worker.Types.{WorkerMessage}
use open_bmb_vox_cpm2_infere.Worker.Errors.{Exception}
use open_bmb_vox_cpm2_infere.Worker.Platform.{Platform}
use open_bmb_vox_cpm2_infere.Scheduler.{Scheduler}
use open_bmb_vox_cpm2_infere.Scheduler

-- A concurrent.futures.Future.
pub data Future : Type 0 where
  waiting cancelled : Future
  finished : WorkerMessage → Future

-- _dispatch_loop between two events, at the test of `future.done()` and at `future.set_result` for the
-- future that it has taken from the table, and _route_stream_event at the top of its `while` loop and
-- at the `put` of the event, with the request, the queue, the deadline and the events that are left.
pub data Dispatcher : Type 0 where
  polling ended : Dispatcher
  routing : List WorkerMessage → Dispatcher
  testing answering : WorkerMessage → ℕ → List WorkerMessage → Dispatcher
  waiting_for offering : WorkerMessage → String → ℕ → Option ℕ → List WorkerMessage → Dispatcher

pub record ApiRuntime : Type 0 where
  pub scheduler : Scheduler
  pub stream_queue_chunks : ℕ
  pub stream_backpressure_timeout : Option ℕ
  pub futures : Dict ℕ
  pub streams : Dict ℕ
  pub closed : Bool
  pub stop : Bool
  pub dispatcher : Dispatcher
  pub next : ℕ
  pub outcome : ℕ → Future
  pub buffer : ℕ → List WorkerMessage
  pub requested : ℕ → String

-- The objects behind the references, with `v` at `k`.
unfoldable pub set_at : {A : Type 0} → ℕ → A → (ℕ → A) → ℕ → A
set_at k v f j = if k == j then v else f j

-- A new object for request `r`, a future or the queue of a stream.
abbrev pub allocate : String → ApiRuntime → ApiRuntime
allocate r a = record a {
  next = a.next + 1;
  outcome = set_at a.next waiting a.outcome;
  buffer = set_at a.next [] a.buffer;
  requested = set_at a.next r a.requested;
}

abbrev pub new_future : String → ApiRuntime → ApiRuntime
new_future r a = record (allocate r a) { futures = put r a.next a.futures }

abbrev pub new_stream : String → ApiRuntime → ApiRuntime
new_stream r a = record (allocate r a) { streams = put r a.next a.streams }

-- self._streams.pop(request_id, None)
abbrev pub drop_stream : String → ApiRuntime → ApiRuntime
drop_stream r a = record a { streams = pop r a.streams }

-- self._futures.pop(request_id, None), of a future that is there
abbrev pub take_future : String → ApiRuntime → ApiRuntime
take_future r a = record a { futures = pop r a.futures }

-- `if not future.done():` give it this outcome, where nothing comes in between: future.cancel() leaves
-- a future that is done as it is.
unfoldable pub resolved : Future → Future → Future
resolved v waiting = v
resolved v done = done

-- self._futures.pop(request_id, None) with the reference that was there, and what its owner is told.
unfoldable pub settle : String → Future → Option ℕ → ApiRuntime → ApiRuntime
unfolding set_at resolved
settle r v none a = a
settle r v (some f) a = record a {
  futures = pop r a.futures;
  outcome = set_at f (resolved v (a.outcome f)) a.outcome;
}

module _ (P : Platform) where
  open P use {World}

  abbrev pub Action : Type 0 → Type 0
  Action A = Exec Exception (ApiRuntime × World) A

  abbrev pub self : Action ApiRuntime
  self (a, w) = (ok a, (a, w))

  abbrev pub update : (ApiRuntime → ApiRuntime) → Action (Unit {0})
  update f (a, w) = (ok tt, (f a, w))

  abbrev pub now : Action ℕ
  now (a, w) = let (t, w') = P.monotonic w in (ok t, (a, w'))

  -- A method of the runtime's scheduler.
  unfoldable pub on_scheduler : {A : Type 0} → Scheduler.Action P A → Action A
  on_scheduler m (a, w) =
      let (o, sw) = m (a.scheduler, w) in (o, (record a { scheduler = sw.0 }, sw.1))
