-- ===== src/Tests/Workers.antt =====
-- The theorems about voxcpm_runtime/worker_client.py at concrete clients.
use open_bmb_vox_cpm2_infere.Common.{◌≡◌, refl, true, false, none, some, [], ◌∷◌}
use open_bmb_vox_cpm2_infere.Worker.Types
use open_bmb_vox_cpm2_infere.Worker.Platform.{Platform, message}
use open_bmb_vox_cpm2_infere.Worker.Client.{busy, stopped}
use open_bmb_vox_cpm2_infere.Worker.Client.Methods.{start, receive, shutdown}
use open_bmb_vox_cpm2_infere.Worker.Client.Valid.{IsValid}
use open_bmb_vox_cpm2_infere.Worker.Client.Running.{running, AfterReceive, running-receive}
use open_bmb_vox_cpm2_infere.Worker.Client.Lifecycle.{
  starts, cancels, submits, AfterStart, run, run-IsValid, shutdown-stopped, start_lem,
}
use open_bmb_vox_cpm2_infere.Scheduler.Construct.{unstarted}
use open_bmb_vox_cpm2_infere.Worker.Client.Stream.{next_chunk, AfterNext, running-next_chunk}
use open_bmb_vox_cpm2_infere.Worker.Factory.{start_worker_clients}
use open_bmb_vox_cpm2_infere.Worker.Factory.AllOrNothing.{
  IsAllOrNothing, specs, start_worker_clients-IsAllOrNothing,
}
use open_bmb_vox_cpm2_infere.Tests.{SimulatedWorld, simulated, worker_in, say, answer}

abbrev world : SimulatedWorld
world = record {
  inbox = message (answer Types.ready "") ∷ message (answer Types.result "r1") ∷ [];
  pipes_work = true;
  clock = 7;
}

abbrev ready_world : SimulatedWorld
ready_world = record { inbox = message (answer Types.ready "") ∷ []; pipes_work = true; clock = 7 }

abbrev result_world : SimulatedWorld
result_world = record {
  inbox = message (answer Types.result "r1") ∷ [];
  pipes_work = true;
  clock = 7;
}

run-IsValid_example :
    IsValid (run simulated (starts ∷ submits (say "r1") ∷ cancels ∷ []) (unstarted "a", world)).0
run-IsValid_example =
    run-IsValid simulated (starts ∷ submits (say "r1") ∷ cancels ∷ []) (unstarted "a") world refl

start_lem_example :
    AfterStart
      (start simulated (unstarted "a", world)).0
      (start simulated (unstarted "a", world)).1.0
      (unstarted "a")
start_lem_example = start_lem simulated (unstarted "a") world refl

shutdown-stopped_example :
    let d = (shutdown simulated (worker_in "a" busy (some "r1"), world)).1.0 in
    (d.state ≡ stopped) × (d.control ≡ none) × (d.results ≡ none)
shutdown-stopped_example = shutdown-stopped simulated (worker_in "a" busy (some "r1")) world refl

running-receive_example :
    let (o, cw) = receive simulated (some 1) (worker_in "a" busy (some "r1"), result_world) in
    AfterReceive o (running cw.0) "r1"
running-receive_example =
    running-receive simulated (worker_in "a" busy (some "r1")) result_world (some 1) "r1" refl refl

-- A platform whose processes live until they are killed.
abbrev mortal : Platform
mortal = record {
  World = SimulatedWorld;
  pipe = simulated.pipe;
  queue = simulated.queue;
  process = simulated.process;
  start = simulated.start;
  send = simulated.send;
  get = simulated.get;
  is_alive = λ p w. (w.pipes_work, w);
  exitcode = simulated.exitcode;
  terminate = simulated.terminate;
  kill = λ p w. record w { pipes_work = false };
  join = simulated.join;
  close_connection = simulated.close_connection;
  close_queue = simulated.close_queue;
  monotonic = simulated.monotonic;
}

-- The inbox answers the first start; the second times out.
start_worker_clients-IsAllOrNothing_example :
    let (o, (ds, w')) =
      start_worker_clients simulated (unstarted "a" ∷ unstarted "b" ∷ []) ready_world in
    IsAllOrNothing o ds × (specs ds ≡ specs (unstarted "a" ∷ unstarted "b" ∷ []))
start_worker_clients-IsAllOrNothing_example =
    start_worker_clients-IsAllOrNothing simulated (unstarted "a" ∷ unstarted "b" ∷ []) ready_world
      ((refl, refl), ((refl, refl), tt))

-- A result is not a message of a stream.
running-next_chunk_example :
    let (o, cw) = next_chunk simulated (some 1) (worker_in "a" busy (some "r1"), result_world) in
    AfterNext simulated o (running cw.0) "r1"
running-next_chunk_example =
    running-next_chunk simulated (worker_in "a" busy (some "r1")) result_world (some 1) "r1" refl
      refl
