-- ===== src/Worker/Client/Lifecycle.antt =====
-- The life of a worker client of voxcpm_runtime/worker_client.py: which states follow which.
use open_bmb_vox_cpm2_infere.Common.{
  ℕ, ◌≡◌, refl, sym, subst, ◌⊎◌, inl, inr, Bool, true, false, Option, none, some, List, [], ◌∷◌,
  arith,
}
use open_bmb_vox_cpm2_infere.Common.Exec.{Outcome, ok, raised}
use open_bmb_vox_cpm2_infere.Worker.Types.{WorkerRequest, WorkerMessage}
use open_bmb_vox_cpm2_infere.Worker.Types
use open_bmb_vox_cpm2_infere.Worker.Errors.{Exception, worker, os_error, value_error}
use open_bmb_vox_cpm2_infere.Worker.Platform.{Platform}
use open_bmb_vox_cpm2_infere.Worker.Client.{
  WorkerClient, WorkerState, created, starting, ready, busy, stopping, stopped, failed,
}
use open_bmb_vox_cpm2_infere.Worker.Client.Transport.{
  receive_message, terminate_and_join, error_from_message,
}
use open_bmb_vox_cpm2_infere.Worker.Client.Methods.{
  started, first_message, greeted, spawn, connect, launch, start_in, start, submit, receive,
  cancel_active, shutdown,
}
use open_bmb_vox_cpm2_infere.Worker.Client.Running.{AfterMessage, receive_message_lem}
use open_bmb_vox_cpm2_infere.Worker.Client.Valid.{
  present, IsValid, start-IsValid, submit-IsValid, receive-IsValid, cancel_active-IsValid,
  shutdown-IsValid,
}

-- A call of a method, with its arguments.
pub data Call : Type 0 where
  starts cancels shuts_down : Call
  submits : WorkerRequest → Call
  receives : Option ℕ → Call

-- The states that one call may lead to.
abbrev pub may_follow : WorkerState → WorkerState → Bool
may_follow created created = true
may_follow created starting = true
may_follow created ready = true
may_follow created failed = true
may_follow created stopped = true
may_follow starting starting = true
may_follow starting stopped = true
may_follow ready ready = true
may_follow ready busy = true
may_follow ready failed = true
may_follow ready stopped = true
may_follow busy busy = true
may_follow busy ready = true
may_follow busy failed = true
may_follow busy stopped = true
may_follow failed failed = true
may_follow failed stopped = true
may_follow stopped stopped = true
may_follow stopping _ = true
may_follow _ _ = false

-- What `start` makes of a client `c` that was not started before: it is ready, or failed, or as it
-- was, or left in the state "starting" with its pipe, queue and process.
abbrev pub AfterStart : Outcome Exception WorkerMessage → WorkerClient → WorkerClient → Type 0
AfterStart (ok m) d c = (d.state ≡ ready) × (d.ready_message ≡ some m) × (m.kind ≡ Types.ready)
AfterStart (raised (worker e)) d c = d.state ≡ failed
AfterStart (raised os_error) d c =
    (d ≡ c)
    ⊎ ((d.state ≡ starting)
        × (present d.control ≡ true)
        × (present d.results ≡ true)
        × (present d.process ≡ true))
AfterStart (raised (value_error _)) d c = ⊥

module _ (P : Platform) where
  open P use {World}

  unfoldable pub call : Call → WorkerClient × World → WorkerClient × World
  call starts cw = (start P cw).1
  call cancels cw = (cancel_active P cw).1
  call shuts_down cw = (shutdown P cw).1
  call (submits r) cw = (submit P r cw).1
  call (receives timeout) cw = (receive P timeout cw).1

  unfoldable pub run : List Call → WorkerClient × World → WorkerClient × World
  run [] cw = cw
  run (m ∷ ms) cw = run ms (call m cw)

  call-IsValid : (m : Call) (c : WorkerClient) (w : World) → IsValid c → IsValid (call m (c, w)).0
  unfolding call
  call-IsValid starts = start-IsValid P
  call-IsValid cancels = cancel_active-IsValid P
  call-IsValid shuts_down = shutdown-IsValid P
  call-IsValid (submits r) = submit-IsValid P r
  call-IsValid (receives timeout) = receive-IsValid P timeout

  -- From a well-formed client, any sequence of calls of start, submit, receive, cancel_active and
  -- shutdown, whatever the platform does and whichever calls raise, leads to a well-formed client:
  -- a ready or busy one has its pipe, queue and process, a busy one has its request and a ready one
  -- has none, and a stopped one has dropped its pipe and its queue.
  pub run-IsValid :
      (ms : List Call) (c : WorkerClient) (w : World) → IsValid c → IsValid (run ms (c, w)).0
  unfolding run
  run-IsValid [] c w v = v
  run-IsValid (m ∷ ms) c w v =
      run-IsValid ms (call m (c, w)).0 (call m (c, w)).1 (call-IsValid m c w v)

  submit-may_follow :
      (r : WorkerRequest) (c : WorkerClient) (w : World)
      → IsValid c
      → may_follow c.state (submit P r (c, w)).1.0.state ≡ true
  unfolding submit
  submit-may_follow r c w v = ground arith

  receive-may_follow :
      (t : Option ℕ) (c : WorkerClient) (w : World)
      → IsValid c
      → may_follow c.state (receive P t (c, w)).1.0.state ≡ true
  unfolding receive receive_message
  receive-may_follow t c w v = ground arith

  cancel_active-may_follow :
      (c : WorkerClient) (w : World)
      → IsValid c
      → may_follow c.state (cancel_active P (c, w)).1.0.state ≡ true
  unfolding cancel_active
  cancel_active-may_follow c w v = ground arith

  -- `shutdown` of a well-formed client leaves it stopped, with its pipe and its queue dropped, also
  -- where it raises.
  pub shutdown-stopped :
      (c : WorkerClient) (w : World)
      → IsValid c
      → let d = (shutdown P (c, w)).1.0 in
        (d.state ≡ stopped) × (d.control ≡ none) × (d.results ≡ none)
  unfolding shutdown receive_message
  shutdown-stopped c w v = ground arith

  started_lem :
      (m : WorkerMessage) (c d : WorkerClient) (w : World)
      → let (o, ew) = started P m (d, w) in AfterStart o ew.0 c
  unfolding started terminate_and_join error_from_message
  started_lem m c d w = ground arith

  first_message_lem :
      (o : Outcome Exception WorkerMessage) (b c d : WorkerClient) (w : World)
      → AfterMessage o d c
      → let (q, ew) = first_message P o (d, w) in AfterStart q ew.0 b
  unfolding first_message terminate_and_join
  first_message_lem (ok m) b c d w h = started_lem m b d w
  first_message_lem (raised (worker e)) b c d w h = refl
  first_message_lem (raised os_error) b c d w h = absurd h
  first_message_lem (raised (value_error _)) b c d w h = absurd h

  greeted_lem :
      (timeout child : ℕ) (launched : Bool) (b c : WorkerClient) (w : World)
      → c.state ≡ starting
      → present c.control ≡ true
      → present c.results ≡ true
      → present c.process ≡ true
      → let (o, dw) = greeted P timeout child launched (c, w) in AfterStart o dw.0 b
  unfolding greeted
  greeted_lem timeout child true b c w s k r p =
      let w' = P.close_connection child w in
      let got = receive_message P (some timeout) (c, w') in
      first_message_lem got.0 b c got.1.0 got.1.1 (receive_message_lem P c w' (some timeout) r)
  greeted_lem timeout child false b c w s k r p = inr (s, k, r, p)

  spawn_lem :
      (parent child : ℕ) (o : Option ℕ) (c : WorkerClient) (w : World)
      → let (q, dw) = spawn P c parent child o (c, w) in AfterStart q dw.0 c
  unfolding spawn
  spawn_lem parent child none c w = inl refl
  spawn_lem parent child (some queue) c w =
      let process = P.process child queue c.spec w in
      let launched = P.start process.0 process.1 in
      greeted_lem c.startup_timeout child launched.0 c
        (record c {
          state = starting;
          control = some parent;
          results = some queue;
          process = some process.0;
        })
        launched.1 refl refl refl refl

  connect_lem :
      (o : Option (ℕ × ℕ)) (c : WorkerClient) (w : World)
      → let (q, dw) = connect P c o (c, w) in AfterStart q dw.0 c
  unfolding connect
  connect_lem none c w = inl refl
  connect_lem (some (parent, child)) c w =
      let queue = P.queue c.stream_buffer_chunks w in spawn_lem parent child queue.0 c queue.1

  launch_lem :
      (c : WorkerClient) (w : World) → let (o, dw) = launch P c (c, w) in AfterStart o dw.0 c
  unfolding launch
  launch_lem c w = let pipe = P.pipe w in connect_lem pipe.0 c pipe.1

  -- `start` of a client that was created: it returns the "ready" message and the client is ready; or
  -- it raises a WorkerError and the client is failed; or it raises an OSError, and the client is as it
  -- was (no pipe or no queue was made) or stays in the state "starting" with its pipe, its queue and
  -- the process that was not started.
  pub start_lem :
      (c : WorkerClient) (w : World)
      → c.state ≡ created
      → let (o, dw) = start P (c, w) in AfterStart o dw.0 c
  unfolding start
  start_lem c w e =
      subst (λ x. let (o, dw) = start_in P x c (c, w) in AfterStart o dw.0 c) (sym e)
        (launch_lem c w)
