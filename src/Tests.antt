-- ===== src/Tests.antt =====
-- A simulated platform and small fixtures on which the theorems about voxcpm_runtime/ are tried.
pub mod Workers
pub mod Scheduling
pub mod Topologies
pub mod Processes
pub mod Access
pub mod Audio
pub mod Serving
pub mod Settings
pub mod Backends
use open_bmb_vox_cpm2_infere.Common.{
  ℕ, ◌+◌, Bool, true, false, Option, none, some, String, List, [], ◌∷◌,
}
use open_bmb_vox_cpm2_infere.Worker.Types.{
  WorkerRequest, WorkerMessage, WorkerMessageKind, WorkerBootstrapSpec, Detail, real_backend,
  no_payload, synthesize, one_shot, speech,
}
use open_bmb_vox_cpm2_infere.Worker.Platform.{Platform, Received, empty}
use open_bmb_vox_cpm2_infere.Worker.Client.{WorkerClient, WorkerState}

-- The outside world: what the result queues will deliver, whether pipes work, and the clock.
pub record SimulatedWorld : Type 0 where
  pub inbox : List Received
  pub pipes_work : Bool
  pub clock : ℕ

abbrev next_received : SimulatedWorld → Received × SimulatedWorld
next_received w = elim w.inbox [ [] ↦ (empty, w) | r ∷ rs ↦ (r, record w { inbox = rs }) ]

abbrev pub simulated : Platform
simulated = record {
  World = SimulatedWorld;
  pipe = λ w. (some (1, 2), w);
  queue = λ n w. (some 3, w);
  process = λ child results spec w. (4, w);
  start = λ p w. (w.pipes_work, w);
  send = λ h c w. (w.pipes_work, w);
  get = λ q t w. next_received w;
  is_alive = λ p w. (true, w);
  exitcode = λ p w. Detail.number 0;
  terminate = λ p w. w;
  kill = λ p w. w;
  join = λ p t w. w;
  close_connection = λ h w. w;
  close_queue = λ q w. w;
  monotonic = λ w. (w.clock, record w { clock = w.clock + 1 });
}

abbrev pub spec : String → WorkerBootstrapSpec
spec k = record {
  worker_id = k;
  backend_kind = real_backend;
  physical_gpu_index = none;
  fake_failure_operations = [];
}

-- A started worker in a state, with the request that it runs.
abbrev pub worker_in : String → WorkerState → Option String → WorkerClient
worker_in k state active = record {
  spec = spec k;
  startup_timeout = 10;
  shutdown_timeout = 5;
  stream_buffer_chunks = 4;
  state = state;
  process = some 4;
  control = some 1;
  results = some 3;
  active_request_id = active;
  ready_message = none;
}

abbrev pub say : String → WorkerRequest
say r = record { request_id = r; operation = synthesize; payload = one_shot (speech "hello") }

abbrev pub answer : WorkerMessageKind → String → WorkerMessage
answer kind r = record {
  kind = kind;
  worker_id = "a";
  request_id = some r;
  payload = no_payload;
  error = none;
  metadata = [];
}
