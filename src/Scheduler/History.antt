-- ===== src/Scheduler/History.antt =====
-- Any sequence of calls of the methods submit, poll and cancel of voxcpm_runtime/scheduler.py, each
-- of which may raise: the caller goes on from the state that the exception left.
use open_bmb_vox_cpm2_infere.Common.{ℕ, Option, List, [], ◌∷◌, String, ◌≡◌}
use open_bmb_vox_cpm2_infere.Common.Exec.{ok}
use open_bmb_vox_cpm2_infere.Common.Lists.{All}
use open_bmb_vox_cpm2_infere.Worker.Types.{WorkerRequest}
use open_bmb_vox_cpm2_infere.Worker.Platform.{Platform}
use open_bmb_vox_cpm2_infere.Worker.Client.{WorkerClient}
use open_bmb_vox_cpm2_infere.Worker.Client.Valid.{IsValid}
use open_bmb_vox_cpm2_infere.Scheduler.{Scheduler}
use open_bmb_vox_cpm2_infere.Scheduler.Construct.{scheduler, scheduler-IsConsistent}
use open_bmb_vox_cpm2_infere.Scheduler.Methods.{submit, poll, cancel}
use open_bmb_vox_cpm2_infere.Scheduler.Invariant.{IsConsistent}
use open_bmb_vox_cpm2_infere.Scheduler.Consistency.{
  submit-IsConsistent, poll-IsConsistent, cancel-IsConsistent,
}

pub data Call : Type 0 where
  submits : WorkerRequest → Call
  polls : ℕ → Call
  cancels : String → Call

module _ (P : Platform) where
  open P use {World}

  unfoldable pub call : Call → Scheduler × World → Scheduler × World
  call (submits r) sw = (submit P r sw).1
  call (polls timeout) sw = (poll P timeout sw).1
  call (cancels r) sw = (cancel P r sw).1

  unfoldable pub run : List Call → Scheduler × World → Scheduler × World
  run [] sw = sw
  run (c ∷ cs) sw = run cs (call c sw)

  call-IsConsistent :
      (c : Call) (s : Scheduler) (w : World) → IsConsistent s → IsConsistent (call c (s, w)).0
  unfolding call
  call-IsConsistent (submits r) = submit-IsConsistent P r
  call-IsConsistent (polls timeout) = poll-IsConsistent P timeout
  call-IsConsistent (cancels r) = cancel-IsConsistent P r

  run_keeps :
      (cs : List Call) (s : Scheduler) (w : World) → IsConsistent s → IsConsistent (run cs (s, w)).0
  unfolding run
  run_keeps [] s w v = v
  run_keeps (c ∷ cs) s w v =
      run_keeps cs (call c (s, w)).0 (call c (s, w)).1 (call-IsConsistent c s w v)

  -- Let the constructor accept workers that are well formed. After any calls of submit, poll and
  -- cancel, returning or raising, on any platform: the queue and the number of running requests are
  -- within their limits, the table of running requests names for each worker exactly the request
  -- that its object says it runs, each has a start time, and every worker object is well formed.
  pub run-IsConsistent :
      (ws : List WorkerClient) (p : ℕ) (q i c : Option ℕ) (s : Scheduler) (w : World)
      (cs : List Call)
      → All IsValid ws
      → scheduler ws p q i c ≡ ok s
      → IsConsistent (run cs (s, w)).0
  run-IsConsistent ws p q i c s w cs v e =
      run_keeps cs s w (scheduler-IsConsistent ws p q i c s v e)
