-- ===== src/Tests/Serving.antt =====
-- The theorems about voxcpm_runtime/api_runtime.py at a runtime with two workers.
use open_bmb_vox_cpm2_infere.Common.{
  ℕ, ◌≤◌, ◌≡◌, refl, true, false, none, some, String, List, [], ◌∷◌, ◌⊎◌, arith,
}
use open_bmb_vox_cpm2_infere.Common.Exec.{ok, raised}
use open_bmb_vox_cpm2_infere.Common.Dict.{lookup, member, put}
use open_bmb_vox_cpm2_infere.Worker.Types.{WorkerMessage, WorkerRequest, streaming, speech}
use open_bmb_vox_cpm2_infere.Worker.Types
use open_bmb_vox_cpm2_infere.Worker.Errors.{os_error}
use open_bmb_vox_cpm2_infere.Worker.Platform.{message}
use open_bmb_vox_cpm2_infere.Worker.Client.{WorkerClient, ready}
use open_bmb_vox_cpm2_infere.Worker.Client.Transport.{receive_message, when_present, stop_process}
use open_bmb_vox_cpm2_infere.Worker.Client.Methods as Client
use open_bmb_vox_cpm2_infere.Worker.Client.Methods.{shutdown}
use open_bmb_vox_cpm2_infere.Scheduler.{Scheduler, workers_where, store, on_worker}
use open_bmb_vox_cpm2_infere.Scheduler.Construct.{client_of}
use open_bmb_vox_cpm2_infere.Scheduler.Methods.{
  admit, enqueue, cancel_all, ignore_worker_error, shutdown_workers,
}
use open_bmb_vox_cpm2_infere.Scheduler.Methods
use open_bmb_vox_cpm2_infere.Api.{
  ApiRuntime, waiting, cancelled, finished, ended, routing, answering, waiting_for, offering,
  new_future, new_stream, set_at,
}
use open_bmb_vox_cpm2_infere.Api.Methods.{submit, begin_close, finish_close, api_runtime, around}
use open_bmb_vox_cpm2_infere.Api.Dispatch.{at, enqueue as put_message, dispatch_steps}
use open_bmb_vox_cpm2_infere.Api.Routed.{IsRouted, at-IsRouted}
use open_bmb_vox_cpm2_infere.Api.Progress.{new_future-Progress}
use open_bmb_vox_cpm2_infere.Api.Turns.{
  Turn, submits, streams, cancels, dispatches, takes, owner_cancels, begins_close, finishes_close,
  run,
}
use open_bmb_vox_cpm2_infere.Api.History.{Settles, run-IsRouted, submit-Settles}
use open_bmb_vox_cpm2_infere.Api.Closing.{finish_close-settles, finish_close_breaks_off}
use open_bmb_vox_cpm2_infere.Api.Delivery.{IsRouting, dispatch_steps-delivers}
use open_bmb_vox_cpm2_infere.Api.Ended.{run-IsEnded}
use open_bmb_vox_cpm2_infere.Api.Stuck.{IsStuck, dispatch_steps-stuck}
use open_bmb_vox_cpm2_infere.Tests.{SimulatedWorld, simulated, worker_in, say, answer}

abbrev world : SimulatedWorld
world = record { inbox = message (answer Types.result "r1") ∷ []; pipes_work = true; clock = 7 }

abbrev broken_world : SimulatedWorld
broken_world = record { inbox = []; pipes_work = false; clock = 7 }

abbrev workers : List WorkerClient
workers = worker_in "b" ready none ∷ worker_in "a" ready none ∷ []

abbrev idle : Scheduler
idle = record {
  workers = "a" ∷ "b" ∷ [];
  client = client_of workers;
  max_pending = 2;
  queue_timeout = none;
  max_inference = none;
  max_concurrent = some 2;
  pending = [];
  active = [];
  active_started = [];
  submitted_ids = [];
  events = [];
  closed = false;
}

abbrev opened : ApiRuntime
opened = around 1 none idle

abbrev say_in_parts : WorkerRequest
say_in_parts = record {
  request_id = "r2";
  operation = Types.stream;
  payload = streaming (speech "hello");
}

abbrev turns : List Turn
turns =
    submits (say "r1")
    ∷ streams say_in_parts
    ∷ dispatches
    ∷ dispatches
    ∷ owner_cancels 0
    ∷ dispatches
    ∷ takes 1
    ∷ cancels "r2"
    ∷ begins_close
    ∷ finishes_close
    ∷ []

opens : api_runtime workers 2 1 none none (some 2) none ≡ ok opened
unfolding api_runtime
opens = refl

run-IsRouted_example : IsRouted (run simulated 5 turns (opened, world)).0
run-IsRouted_example =
    run-IsRouted simulated 5 workers 2 1 none none (some 2) none opened world turns opens

opened-IsRouted : IsRouted opened
unfolding run
opened-IsRouted = run-IsRouted simulated 5 workers 2 1 none none (some 2) none opened world [] opens

submit_returns : (submit simulated (say "r1") (opened, world)).0 ≡ ok 0
unfolding submit Methods.submit admit workers_where client_of on_worker store Client.submit member
submit_returns = refl

submit-Settles_example : Settles simulated 5 "r1" 0 (submit simulated (say "r1") (opened, world)).1
submit-Settles_example =
    submit-Settles simulated 5 (say "r1") 0 opened world opened-IsRouted submit_returns

-- A future in the table, and the runtime marked as closed.
abbrev serving : ApiRuntime
serving = record (new_future "r1" opened) { closed = true }

serving-IsRouted : IsRouted serving
serving-IsRouted = (new_future-Progress opened opened-IsRouted "r1").routed

abbrev closing_world : SimulatedWorld
closing_world = record {
  inbox = message (answer Types.shutdown_ack "") ∷ message (answer Types.shutdown_ack "") ∷ [];
  pipes_work = true;
  clock = 7;
}

idle_closes : (Methods.close simulated (idle, closing_world)).0 ≡ ok tt
unfolding Methods.close shutdown_workers cancel_all ignore_worker_error on_worker store shutdown
    receive_message client_of when_present stop_process
idle_closes = refl

finish_close-settles_example :
    let (o, (b, v)) = finish_close simulated (serving, closing_world) in
    (o ≡ ok tt)
    × ((r : String) (f : ℕ) → lookup r serving.futures ≡ some f → b.outcome f ≡ cancelled)
    × (b.futures ≡ [])
    × (b.streams ≡ [])
finish_close-settles_example =
    finish_close-settles simulated serving closing_world serving-IsRouted idle_closes

finish_close_breaks_off_example :
    let (o, bv) = finish_close simulated (serving, broken_world) in
    (o ≡ raised os_error)
    × (bv.0.outcome ≡ serving.outcome)
    × (bv.0.futures ≡ serving.futures)
    × (begin_close simulated bv ≡ (ok false, bv))
unfolding client_of
finish_close_breaks_off_example =
    finish_close_breaks_off simulated serving broken_world "a" ("b" ∷ []) 1 4 refl refl refl refl
      refl refl refl

abbrev polled : List WorkerMessage
polled = answer Types.result "r1" ∷ []

unstreamed : (r : String) → some "r1" ≡ some r → lookup {V = ℕ} r [] ≡ none
unfolding lookup
unstreamed r e = refl

dispatch_steps-delivers_example :
    (n : ℕ) × (n ≤ 3)
    × IsRouting simulated 5 polled serving.futures
        (dispatch_steps simulated 5 n (at (routing polled) serving, world))
dispatch_steps-delivers_example =
    dispatch_steps-delivers simulated 5 polled (at (routing polled) serving) world
      (at-IsRouted serving serving-IsRouted (routing polled) tt) refl (unstreamed, tt)

-- The dispatcher is about to answer the only future, which its owner cancels.
abbrev answering_first : ApiRuntime
answering_first = at (answering (answer Types.result "r1") 0 []) (record serving { futures = [] })

first_waits : answering_first.outcome 0 ≡ waiting
unfolding set_at
first_waits = refl

run-IsEnded_example :
    let b = (run simulated 5 (owner_cancels 0 ∷ dispatches ∷ turns) (answering_first, world)).0 in
    (b.dispatcher ≡ ended)
    × ((g : ℕ) (m : WorkerMessage)
        → b.outcome g ≡ finished m
        → answering_first.outcome g ≡ finished m)
run-IsEnded_example =
    run-IsEnded simulated 5 turns answering_first world (answer Types.result "r1") 0 [] refl
      first_waits (omega arith)

-- The queue of "r2" holds one chunk, as many as it can.
abbrev stalled : ApiRuntime
stalled = put_message (answer Types.stream_chunk "r2") 0 (new_stream "r2" opened)

abbrev chunk : WorkerMessage
chunk = answer Types.stream_chunk "r2"

stalled-IsStuck : IsStuck simulated 5 chunk "r2" 0 0 stalled
unfolding lookup set_at put
stalled-IsStuck = record { running = refl; wanted = refl; full = omega arith }

dispatch_steps-stuck_example :
    let x =
      dispatch_steps simulated 5 100 (at (waiting_for chunk "r2" 0 none polled) stalled, world) in
    (x ≡ (ok tt, (at (waiting_for chunk "r2" 0 none polled) stalled, world)))
    ⊎ (x ≡ (ok tt, (at (offering chunk "r2" 0 none polled) stalled, world)))
dispatch_steps-stuck_example =
    dispatch_steps-stuck simulated 5 100 chunk "r2" 0 0 polled stalled world stalled-IsStuck
