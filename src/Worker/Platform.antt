-- ===== src/Worker/Platform.antt =====
-- What the parent uses of Python's `multiprocessing`, `queue` and `time`: a parameter of the
-- model. Every call reads and changes the state of the outside world, which is passed on. Handles
-- stand for pipe ends, queues and processes; times are in ticks of the monotonic clock.
use open_bmb_vox_cpm2_infere.Common.{ℕ, Bool, Option}
use open_bmb_vox_cpm2_infere.Worker.Types.{
  Detail, WorkerBootstrapSpec, WorkerRequest, WorkerMessage,
}

pub data Command : Type 0 where
  request : WorkerRequest → Command
  shutdown : Command

-- results.get(timeout=…): a message, another object, queue.Empty, or EOFError, OSError, ValueError.
pub data Received : Type 0 where
  message : WorkerMessage → Received
  alien empty broken : Received

pub record Platform : Type 1 where
  pub World : Type 0
  -- ctx.Pipe(duplex=True): the parent's end and the child's; `none` is an OSError
  pub pipe : World → Option (ℕ × ℕ) × World
  -- ctx.Queue(maxsize=…); `none` is an OSError
  pub queue : ℕ → World → Option ℕ × World
  -- ctx.Process(target=worker_process_main, args=(child_control, results, spec))
  pub process : ℕ → ℕ → WorkerBootstrapSpec → World → ℕ × World
  -- process.start(); `false` is an OSError
  pub start : ℕ → World → Bool × World
  -- control.send(…); `false` is BrokenPipeError, EOFError or OSError
  pub send : ℕ → Command → World → Bool × World
  -- results.get(timeout=…)
  pub get : ℕ → ℕ → World → Received × World
  pub is_alive : ℕ → World → Bool × World
  pub exitcode : ℕ → World → Detail
  pub terminate : ℕ → World → World
  pub kill : ℕ → World → World
  -- process.join(timeout)
  pub join : ℕ → ℕ → World → World
  -- control.close()
  pub close_connection : ℕ → World → World
  -- results.close() and results.join_thread()
  pub close_queue : ℕ → World → World
  -- time.monotonic()
  pub monotonic : World → ℕ × World
