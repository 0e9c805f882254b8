-- ===== src/Tests/Scheduling.antt =====
-- The theorems about voxcpm_runtime/scheduler.py at a scheduler with two workers.
use open_bmb_vox_cpm2_infere.Common.{
  ◌≡◌, ◌≢◌, refl, true, false, none, some, String, List, [], ◌∷◌, arith,
}
use open_bmb_vox_cpm2_infere.Common.Exec.{ok, raised}
use open_bmb_vox_cpm2_infere.Common.Dict.{member}
use open_bmb_vox_cpm2_infere.Worker.Types
use open_bmb_vox_cpm2_infere.Worker.Types.{WorkerRequest}
use open_bmb_vox_cpm2_infere.Worker.Errors.{fault, exited_error, os_error}
use open_bmb_vox_cpm2_infere.Worker.Platform.{message}
use open_bmb_vox_cpm2_infere.Worker.Client.{WorkerClient, ready}
use open_bmb_vox_cpm2_infere.Worker.Client.Transport.{receive_message, when_present, stop_process}
use open_bmb_vox_cpm2_infere.Worker.Client.Methods.{shutdown}
use open_bmb_vox_cpm2_infere.Scheduler.{Scheduler, PendingRequest, workers_where, store, on_worker}
use open_bmb_vox_cpm2_infere.Scheduler.Construct.{scheduler, client_of}
use open_bmb_vox_cpm2_infere.Scheduler.Queue.{dispatch_pending}
use open_bmb_vox_cpm2_infere.Scheduler.Methods.{
  submit, cancel_all, ignore_worker_error, shutdown_workers, close,
}
use open_bmb_vox_cpm2_infere.Scheduler.Invariant.{IsConsistent}
use open_bmb_vox_cpm2_infere.Scheduler.History.{
  Call, submits, polls, cancels, run, run-IsConsistent,
}
use open_bmb_vox_cpm2_infere.Scheduler.Closing.{
  IsClosed, AllValid, close-IsClosed, close_breaks_off,
}
use open_bmb_vox_cpm2_infere.Scheduler.Loss.{IsLost, duplicate, dispatch_pending-IsLost}
use open_bmb_vox_cpm2_infere.Tests.{SimulatedWorld, simulated, worker_in, say, answer}

abbrev world : SimulatedWorld
world = record { inbox = message (answer Types.result "r1") ∷ []; pipes_work = true; clock = 7 }

abbrev broken_world : SimulatedWorld
broken_world = record { inbox = []; pipes_work = false; clock = 7 }

abbrev workers : List WorkerClient
workers = worker_in "b" ready none ∷ worker_in "a" ready none ∷ []

abbrev fresh : Scheduler
fresh = record {
  workers = "a" ∷ "b" ∷ [];
  client = client_of workers;
  max_pending = 2;
  queue_timeout = none;
  max_inference = some 30;
  max_concurrent = some 2;
  pending = [];
  active = [];
  active_started = [];
  submitted_ids = [];
  events = [];
  closed = false;
}

abbrev waiting : PendingRequest
waiting = record { request = say "r3"; enqueued_at = 4 }

abbrev backlog : Scheduler
backlog = record fresh { pending = waiting ∷ []; submitted_ids = "r3" ∷ [] }

abbrev calls : List Call
calls = submits (say "r1") ∷ submits (say "r2") ∷ submits (say "r3") ∷ polls 5 ∷ cancels "r3" ∷ []

scheduler-fresh : scheduler workers 2 none (some 30) (some 2) ≡ ok fresh
unfolding scheduler
scheduler-fresh = refl

run-IsConsistent_example : IsConsistent (run simulated calls (fresh, world)).0
run-IsConsistent_example =
    run-IsConsistent simulated workers 2 none (some 30) (some 2) fresh world calls
      (refl, (refl, tt)) scheduler-fresh

dispatch_pending-IsLost_example :
    let (o, tu) = dispatch_pending simulated (backlog, broken_world) in
    (o ≡ raised (fault exited_error))
    × IsLost simulated waiting [] backlog tu.0
    × ((y : WorkerRequest) (v : SimulatedWorld)
        → submit simulated (record y { request_id = "r3" }) (tu.0, v)
          ≡ (duplicate simulated "r3", (tu.0, v)))
unfolding client_of workers_where member
dispatch_pending-IsLost_example =
    dispatch_pending-IsLost simulated waiting [] "a" ("b" ∷ []) 1 backlog broken_world refl refl
      refl refl refl refl refl refl

backlog-AllValid : AllValid backlog
unfolding client_of
backlog-AllValid k = ground arith

abbrev closing_world : SimulatedWorld
closing_world = record {
  inbox = message (answer Types.shutdown_ack "") ∷ message (answer Types.shutdown_ack "") ∷ [];
  pipes_work = true;
  clock = 7;
}

backlog_closes : (close simulated (backlog, closing_world)).0 ≡ ok tt
unfolding close shutdown_workers cancel_all ignore_worker_error on_worker store shutdown
    receive_message client_of when_present stop_process
backlog_closes = refl

close-IsClosed_example : IsClosed simulated backlog (close simulated (backlog, closing_world)).1.0
close-IsClosed_example =
    close-IsClosed simulated backlog closing_world refl backlog-AllValid backlog_closes

close_breaks_off_example :
    let (o, tu) = close simulated (backlog, broken_world) in
    (o ≡ raised os_error)
    × ((j : String) → "a" ≢ j → tu.0.client j ≡ backlog.client j)
    × (tu.0.active ≡ backlog.active)
    × ((u : SimulatedWorld) → close simulated (tu.0, u) ≡ (ok tt, (tu.0, u)))
unfolding client_of
close_breaks_off_example =
    close_breaks_off simulated backlog broken_world "a" ("b" ∷ []) 1 4 refl refl refl refl refl refl
