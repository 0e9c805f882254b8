-- ===== src/Worker/Client/Stream.antt =====
-- The generator WorkerClient.stream of voxcpm_runtime/worker_client.py, as the steps that its
-- consumer drives: its opening, the next chunk, and its closing before the end.
use open_bmb_vox_cpm2_infere.Common.{
  ◌⊎◌, inl, inr, ℕ, ◌≡◌, refl, Option, none, some, String, [], ◌∷◌, arith, if◌then◌else◌,
}
use open_bmb_vox_cpm2_infere.Common.Exec.{
  Outcome, ok, raised, pure, raise, attempt, finally, continue, unless_raised, ◌>>=◌, ◌>>◌,
}
use open_bmb_vox_cpm2_infere.Worker.Types
use open_bmb_vox_cpm2_infere.Worker.Types.{
  WorkerMessageKind, AudioChunk, WorkerMessage, WorkerRequest, WorkerResultPayload, Detail,
}
use open_bmb_vox_cpm2_infere.Worker.Errors.{
  Exception, worker_error, transport_error, value_error, fault_with,
}
use open_bmb_vox_cpm2_infere.Worker.Platform.{Platform}
use open_bmb_vox_cpm2_infere.Worker.Client.{WorkerClient, busy, Method, self, update}
use open_bmb_vox_cpm2_infere.Worker.Client.Transport.{mark_failed, error_from_message}
use open_bmb_vox_cpm2_infere.Worker.Client.Methods.{
  kind_value, is_terminal, submit, receive, cancel_active,
}
use open_bmb_vox_cpm2_infere.Worker.Client.Valid.{IsValid, receive-IsValid}
use open_bmb_vox_cpm2_infere.Worker.Client.Running.{running, AfterReceive, running-receive}

module _ (P : Platform) where
  open P use {World}

  -- What comes before the generator's `try`.
  unfoldable pub open_stream : WorkerRequest → Method P (Unit {0})
  open_stream r = elim r.operation [
    | Types.stream ↦ submit P r
    | _ ↦ raise (value_error "stream requires a stream WorkerRequest")
  ]

  -- The `finally` block.
  unfoldable pub release : Method P (Unit {0})
  release = do c ← self P; elim c.state [ busy ↦ (do cancel_active P; pure tt) | _ ↦ pure tt ]

  unfoldable pub invalid_chunk : Method P (Option AudioChunk)
  invalid_chunk = do
    update P mark_failed
    raise (fault_with transport_error "invalid_stream_chunk" [])

  unfoldable pub unpack_chunk : WorkerResultPayload → Method P (Option AudioChunk)
  unfolding invalid_chunk
  unpack_chunk (Types.audio_chunk c) = pure (some c)
  unpack_chunk _ = invalid_chunk

  -- One message: a chunk to yield, or the end.
  unfoldable pub streamed : WorkerMessage → Method P (Option AudioChunk)
  unfolding unpack_chunk error_from_message kind_value
  streamed m = elim m.kind [
    | Types.stream_chunk ↦ unpack_chunk m.payload
    | Types.stream_end ↦ pure none
    | Types.error ↦ raise (error_from_message m worker_error)
    | other ↦ do
      update P mark_failed
      raise (
          fault_with transport_error "unexpected_stream_message"
            (("kind", Detail.text (kind_value other)) ∷ []))
  ]

  -- A yield leaves the `try` open; the end and an exception run its `finally`.
  unfoldable pub yielded : Outcome Exception (Option AudioChunk) → Method P (Option AudioChunk)
  unfolding release
  yielded (ok (some c)) = pure (some c)
  yielded (ok none) = finally (pure none) release
  yielded (raised e) = finally (raise e) release

  -- next(generator): a chunk, or none at the end
  unfoldable pub next_chunk : Option ℕ → Method P (Option AudioChunk)
  unfolding streamed yielded
  next_chunk timeout = do got ← attempt (do m ← receive P timeout; streamed m); yielded got

  -- generator.close() after a yield
  unfoldable pub close_stream : Method P (Unit {0})
  unfolding release
  close_stream = release

  -- What the worker runs after a step: the request while chunks come, and nothing after the end.
  abbrev pub AfterNext : Outcome Exception (Option AudioChunk) → Option String → String → Type 0
  AfterNext (ok (some c)) q r = q ≡ some r
  AfterNext _ q r = q ≡ none

  abbrev NotChunk : Outcome Exception (Option AudioChunk) → Type 0
  NotChunk (ok (some c)) = ⊥
  NotChunk _ = Unit

  AfterNext-end :
      (o : Outcome Exception (Option AudioChunk)) (u : Outcome Exception (Unit {0}))
      (q : Option String) (r : String)
      → NotChunk o
      → q ≡ none
      → AfterNext (unless_raised o u) q r
  AfterNext-end (ok (some c)) u q r n e = absurd n
  AfterNext-end (ok none) (ok _) q r n e = e
  AfterNext-end (ok none) (raised f) q r n e = e
  AfterNext-end (raised x) (ok _) q r n e = e
  AfterNext-end (raised x) (raised f) q r n e = e

  -- A client that runs nothing once the `finally` block has run.
  abbrev IsReleasable : WorkerClient → Type 0
  IsReleasable d = (running d ≡ none) ⊎ IsValid d

  running-release :
      (d : WorkerClient) (w : World) → IsReleasable d → running (release (d, w)).1.0 ≡ none
  unfolding release cancel_active
  running-release d w (inl n) = ground arith
  running-release d w (inr v) = ground arith

  -- A step of the loop, before its `finally` block.
  abbrev Stepped : Outcome Exception (Option AudioChunk) → WorkerClient → String → Type 0
  Stepped (ok (some c)) d r = running d ≡ some r
  Stepped _ d r = IsReleasable d

  unpack_chunk_lem :
      (p : WorkerResultPayload) (d : WorkerClient) (w : World) (r : String)
      → running d ≡ some r
      → let (o, dw) = unpack_chunk p (d, w) in Stepped o dw.0 r
  unfolding unpack_chunk
  unpack_chunk_lem (Types.audio_chunk c) d w r e = e
  unpack_chunk_lem (Types.audio_result a) d w r e = inl refl
  unpack_chunk_lem Types.no_payload d w r e = inl refl

  streamed_in :
      (k : WorkerMessageKind) (m : WorkerMessage) (d : WorkerClient) (w : World) (r : String)
      → IsValid d
      → running d ≡ (if is_terminal k then none else some r)
      → let (o, dw) = streamed (record m { kind = k }) (d, w) in Stepped o dw.0 r
  unfolding streamed
  streamed_in Types.stream_chunk m d w r v e = unpack_chunk_lem m.payload d w r e
  streamed_in Types.stream_end m d w r v e = inr v
  streamed_in Types.error m d w r v e = inr v
  streamed_in Types.ready m d w r v e = inl refl
  streamed_in Types.result m d w r v e = inl refl
  streamed_in Types.cancelled m d w r v e = inl refl
  streamed_in Types.shutdown_ack m d w r v e = inl refl

  yielded_lem :
      (o : Outcome Exception (Option AudioChunk)) (d : WorkerClient) (w : World) (r : String)
      → Stepped o d r
      → let (q, dw) = yielded o (d, w) in AfterNext q (running dw.0) r
  unfolding yielded
  yielded_lem (ok (some c)) d w r s = s
  yielded_lem (ok none) d w r s =
      AfterNext-end (ok none) (release (d, w)).0 (running (release (d, w)).1.0) r tt
        (running-release d w s)
  yielded_lem (raised e) d w r s =
      AfterNext-end (raised e) (release (d, w)).0 (running (release (d, w)).1.0) r tt
        (running-release d w s)

  got_lem :
      (o : Outcome Exception WorkerMessage) (d : WorkerClient) (w : World) (r : String)
      → AfterReceive o (running d) r
      → IsValid d
      → let (q, dw) = continue o streamed (d, w) in Stepped q dw.0 r
  got_lem (ok m) d w r a v = streamed_in m.kind m d w r v a
  got_lem (raised e) d w r a v = inr v

  -- A step of the stream of a well-formed client that runs a request: where it yields a chunk, the
  -- request still runs; where the stream ends or raises, a timeout included, nothing runs after it.
  pub running-next_chunk :
      (c : WorkerClient) (w : World) (timeout : Option ℕ) (r : String)
      → IsValid c
      → running c ≡ some r
      → let (o, cw) = next_chunk timeout (c, w) in AfterNext o (running cw.0) r
  unfolding next_chunk
  running-next_chunk c w timeout r v b =
      let x = receive P timeout (c, w) in
      let got = continue x.0 streamed x.1 in
      yielded_lem got.0 got.1.0 got.1.1 r (
        got_lem x.0 x.1.0 x.1.1 r (running-receive P c w timeout r v b)
          (receive-IsValid P timeout c w v))
