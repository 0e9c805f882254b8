-- ===== src/Worker/Client/Running.antt =====
-- Which request a worker runs, and how the methods of voxcpm_runtime/worker_client.py change it.
use mathlib.Core.Option.{get_or}
use open_bmb_vox_cpm2_infere.Common.{
  ℕ, ◌≡◌, refl, sym, subst, true, Option, none, some, String, String_discrete, arith, ite,
  if◌then◌else◌,
}
use open_bmb_vox_cpm2_infere.Common.Exec.{Outcome, ok, raised, continue}
use open_bmb_vox_cpm2_infere.Worker.Types.{WorkerRequest, WorkerMessage}
use open_bmb_vox_cpm2_infere.Worker.Errors.{
  Exception, WorkerErrorClass, worker, transport_error, exited_error, default_code,
}
use open_bmb_vox_cpm2_infere.Worker.Platform.{Platform, Received, message, alien, empty, broken}
use open_bmb_vox_cpm2_infere.Worker.Client.{WorkerClient, WorkerState, ready, busy, failed}
use open_bmb_vox_cpm2_infere.Worker.Client.Transport.{
  timed_out, received, receive_from, receive_message,
}
use open_bmb_vox_cpm2_infere.Worker.Client.Methods.{
  submit, deliver, receive_in, receive, cancel_active, is_terminal,
}
use open_bmb_vox_cpm2_infere.Worker.Client.Valid.{present, IsValid}

abbrev running_in : WorkerState → Option String → Option String
running_in busy a = a
running_in _ a = none

-- The request that the client's worker runs.
abbrev pub running : WorkerClient → Option String
running c = running_in c.state c.active_request_id

abbrev pub FaultAfterReceive : WorkerErrorClass → String → Option String → String → Type 0
FaultAfterReceive transport_error code q r =
    q ≡ ite (String_discrete code "worker_receive_timeout") (some r) none
FaultAfterReceive exited_error code q r = q ≡ none
FaultAfterReceive _ code q r = ⊥

-- What a worker that ran `r` runs after `receive`, by its outcome: still `r` unless the message
-- ends the request or the error is other than a timeout.
abbrev pub AfterReceive : Outcome Exception WorkerMessage → Option String → String → Type 0
AfterReceive (ok m) q r = q ≡ (if is_terminal m.kind then none else some r)
AfterReceive (raised (worker e)) q r = FaultAfterReceive e.class e.code q r
AfterReceive (raised _) q r = ⊥

abbrev pub FaultAfterSubmit : WorkerErrorClass → Option String → Type 0
FaultAfterSubmit exited_error q = q ≡ none
FaultAfterSubmit _ q = ⊥

-- What a ready worker runs after `submit`: the request, or nothing if its process has gone.
abbrev pub AfterSubmit : Outcome Exception (Unit {0}) → Option String → String → Type 0
AfterSubmit (ok _) q r = q ≡ some r
AfterSubmit (raised (worker e)) q r = FaultAfterSubmit e.class q
AfterSubmit (raised _) q r = ⊥

-- What runs after `cancel_active`, which returns the request that ran.
abbrev pub AfterCancel : Outcome Exception String → Option String → String → Type 0
AfterCancel (ok a) q r = (a ≡ r) × (q ≡ none)
AfterCancel (raised _) q r = ⊥

abbrev pub FaultAfterMessage : WorkerErrorClass → String → WorkerClient → WorkerClient → Type 0
FaultAfterMessage transport_error code d c =
    ite (String_discrete code "worker_receive_timeout") (d ≡ c) (d.state ≡ failed)
FaultAfterMessage exited_error code d c = d.state ≡ failed
FaultAfterMessage _ code d c = ⊥

-- A client `c` that waited for a message has become `d`: failed, unless it got one or was too early.
abbrev pub AfterMessage : Outcome Exception WorkerMessage → WorkerClient → WorkerClient → Type 0
AfterMessage (ok m) d c = d ≡ c
AfterMessage (raised (worker e)) d c = FaultAfterMessage e.class e.code d c
AfterMessage (raised _) d c = ⊥

module _ (P : Platform) where
  open P use {World}

  timed_out_lem :
      (c : WorkerClient) (w : World) (p : Option ℕ)
      → let (o, cw) = timed_out P p (c, w) in AfterMessage o cw.0 c
  unfolding timed_out String_discrete default_code
  timed_out_lem c w none = refl
  timed_out_lem c w (some p) = ground arith

  received_lem :
      (c : WorkerClient) (w : World) (g : Received)
      → let (o, cw) = received P g (c, w) in AfterMessage o cw.0 c
  unfolding received String_discrete default_code
  received_lem c w (message m) = refl
  received_lem c w alien = refl
  received_lem c w empty = timed_out_lem c w c.process
  received_lem c w broken = refl

  receive_from_lem :
      (c : WorkerClient) (w : World) (t : ℕ) (q : Option ℕ)
      → present q ≡ true
      → let (o, cw) = receive_from P t q (c, w) in AfterMessage o cw.0 c
  unfolding receive_from
  receive_from_lem c w t none h = cc
  receive_from_lem c w t (some q) h = received_lem c (P.get q t w).1 (P.get q t w).0

module _ (P : Platform) (c : WorkerClient) where
  open P use {World}

  results_of_busy : (r : String) → IsValid c → running c ≡ some r → present c.results ≡ true
  results_of_busy r v b = ground arith

  pub receive_message_lem :
      (w : World) (t : Option ℕ)
      → present c.results ≡ true
      → let (o, cw) = receive_message P t (c, w) in AfterMessage o cw.0 c
  unfolding receive_message
  receive_message_lem w t h = receive_from_lem P c w (get_or t c.startup_timeout) c.results h

  deliver_ok :
      (w : World) (m : WorkerMessage) (r : String)
      → c.state ≡ busy
      → c.active_request_id ≡ some r
      → let (o, cw) = deliver P m (c, w) in AfterReceive o (running cw.0) r
  unfolding deliver String_discrete
  deliver_ok w m r s a = ground arith

  deliver_after :
      (o : Outcome Exception WorkerMessage) (d : WorkerClient) (w : World) (r : String)
      → c.state ≡ busy
      → c.active_request_id ≡ some r
      → AfterMessage o d c
      → let (q, dw) = continue o (deliver P) (d, w) in AfterReceive q (running dw.0) r
  deliver_after (ok m) d w r s a h =
      subst (λ x. let (q, dw) = deliver P m (x, w) in AfterReceive q (running dw.0) r) (sym h)
        (deliver_ok w m r s a)
  deliver_after (raised e) d w r s a h = ground arith

  busy_fields :
      (r : String) → running c ≡ some r → (c.state ≡ busy) × (c.active_request_id ≡ some r)
  busy_fields r b = ground arith

  -- For a well-formed busy client, `receive` keeps the request running on a message that does not end
  -- it and on a timeout, ends it on every other outcome, and raises only transport and exit errors.
  pub running-receive :
      (w : World) (t : Option ℕ) (r : String)
      → IsValid c
      → running c ≡ some r
      → let (o, cw) = receive P t (c, w) in AfterReceive o (running cw.0) r
  unfolding receive
  running-receive w t r v b =
      let (s, a) = busy_fields r b in
      subst (λ x. let (o, cw) = receive_in P x t (c, w) in AfterReceive o (running cw.0) r) (sym s)
        (deliver_after (receive_message P t (c, w)).0 (receive_message P t (c, w)).1.0
          (receive_message P t (c, w)).1.1 r s a (receive_message_lem w t (results_of_busy r v b)))

  -- For a well-formed ready client, `submit` returns with the request running, or raises
  -- WorkerExitedError with nothing running.
  pub running-submit :
      (w : World) (r : WorkerRequest)
      → IsValid c
      → c.state ≡ ready
      → let (o, cw) = submit P r (c, w) in AfterSubmit o (running cw.0) r.request_id
  unfolding submit
  running-submit w r v b = ground arith

  -- For a well-formed busy client, `cancel_active` returns the request that ran, and nothing runs
  -- after it.
  pub running-cancel_active :
      (w : World) (r : String)
      → IsValid c
      → running c ≡ some r
      → let (o, cw) = cancel_active P (c, w) in AfterCancel o (running cw.0) r
  unfolding cancel_active
  running-cancel_active w r v b = ground arith
