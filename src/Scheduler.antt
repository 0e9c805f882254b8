-- ===== src/Scheduler.antt =====
-- Scheduler of voxcpm_runtime/scheduler.py: its state and its small helpers. Workers are shared
-- mutable objects; `workers` holds references to them, which are their ids, in sorted order, and
-- `client` the object behind each reference. Times are ticks of the monotonic clock.
pub mod Queue
pub mod Methods
pub mod Invariant
pub mod Keeps
pub mod KeepsDispatch
pub mod Consistency
pub mod Construct
pub mod History
pub mod Closing
pub mod Loss
use open_bmb_vox_cpm2_infere.Common.{
  ℕ, ◌+◌, Bool, true, false, Option, none, some, String, String_discrete, List, [], ◌∷◌, ◌++◌, ite,
  leb, if◌then◌else◌,
}
use open_bmb_vox_cpm2_infere.Common.Exec.{Exec, ok, continue, ◌>>=◌, ◌>>◌}
use open_bmb_vox_cpm2_infere.Common.Dict.{Dict, put, pop}
use open_bmb_vox_cpm2_infere.Common.Lists.{length}
use open_bmb_vox_cpm2_infere.Worker.Types.{
  WorkerMessage, WorkerRequest, WorkerErrorData, Detail, Metadata, no_payload,
}
use open_bmb_vox_cpm2_infere.Worker.Types
use open_bmb_vox_cpm2_infere.Worker.Errors.{Exception}
use open_bmb_vox_cpm2_infere.Worker.Platform.{Platform}
use open_bmb_vox_cpm2_infere.Worker.Client.{
  WorkerClient, WorkerState, ready, busy, failed, stopped, stopping, Method,
}

pub record PendingRequest : Type 0 where
  pub request : WorkerRequest
  pub enqueued_at : ℕ

pub record Scheduler : Type 0 where
  pub workers : List String
  pub client : String → WorkerClient
  pub max_pending : ℕ
  pub queue_timeout : Option ℕ
  pub max_inference : Option ℕ
  pub max_concurrent : Option ℕ
  pub pending : List PendingRequest
  pub active : Dict String
  pub active_started : Dict ℕ
  pub submitted_ids : List String
  pub events : List WorkerMessage
  pub closed : Bool

-- The objects behind the references, with the one at `k` mutated to `c`.
unfoldable pub store : String → WorkerClient → (String → WorkerClient) → String → WorkerClient
unfolding String_discrete
store k c f j = ite (String_discrete k j) c (f j)

abbrev pub is_ready : WorkerState → Bool
is_ready ready = true
is_ready _ = false

-- worker.state not in {FAILED, STOPPED, STOPPING}
abbrev pub is_healthy : WorkerState → Bool
is_healthy failed = false
is_healthy stopped = false
is_healthy stopping = false
is_healthy _ = true

unfoldable pub workers_where :
    (WorkerState → Bool) → (String → WorkerClient) → List String → List String
workers_where test f [] = []
workers_where test f (k ∷ ks) =
    let rest = workers_where test f ks in if test (f k).state then k ∷ rest else rest

-- Scheduler._ready_workers
abbrev pub ready_workers : Scheduler → List String
ready_workers s = workers_where is_ready s.client s.workers

-- Scheduler._healthy_workers
abbrev pub healthy_workers : Scheduler → List String
healthy_workers s = workers_where is_healthy s.client s.workers

-- len(self._active) >= self._max_concurrent_requests, where that is set
abbrev pub at_limit : Option ℕ → ℕ → Bool
at_limit none n = false
at_limit (some m) n = leb m n

abbrev pub saturated : Scheduler → Bool
saturated s = at_limit s.max_concurrent (length s.active)

-- An event of the scheduler's own about request `r`.
unfoldable pub error_event : String → String → String → String → WorkerMessage
error_event worker_id r code message = record {
  kind = Types.error;
  worker_id = worker_id;
  request_id = some r;
  payload = no_payload;
  error = some (record { code = code; message = message; retryable = true; details = [] });
  metadata = [];
}

unfoldable pub cancelled_event : String → String → String → WorkerMessage
cancelled_event worker_id r stage = record {
  kind = Types.cancelled;
  worker_id = worker_id;
  request_id = some r;
  payload = no_payload;
  error = none;
  metadata = ("stage", Detail.text stage) ∷ [];
}

abbrev pub push : WorkerMessage → Scheduler → Scheduler
push e s = record s { events = s.events ++ e ∷ [] }

-- The worker `k` is done with its request.
abbrev pub retire : String → Scheduler → Scheduler
retire k s = record s { active = pop k s.active; active_started = pop k s.active_started }

-- The worker `k` has taken request `r` at time `now`.
abbrev pub assign : String → String → ℕ → Scheduler → Scheduler
assign k r now s = record s {
  active = put k r s.active;
  active_started = put k now s.active_started;
}

abbrev pub remember : String → Scheduler → Scheduler
remember r s = record s { submitted_ids = r ∷ s.submitted_ids }

module _ (P : Platform) where
  open P use {World}

  abbrev pub Action : Type 0 → Type 0
  Action A = Exec Exception (Scheduler × World) A

  abbrev pub self : Action Scheduler
  self (s, w) = (ok s, (s, w))

  abbrev pub update : (Scheduler → Scheduler) → Action (Unit {0})
  update f (s, w) = (ok tt, (f s, w))

  abbrev pub now : Action ℕ
  now (s, w) = let (t, w') = P.monotonic w in (ok t, (s, w'))

  -- A method of the worker object behind reference `k`.
  unfoldable pub on_worker : {A : Type 0} → String → Method P A → Action A
  on_worker k m (s, w) =
      let (r, cw) = m (s.client k, w) in (r, (record s { client = store k cw.0 s.client }, cw.1))
