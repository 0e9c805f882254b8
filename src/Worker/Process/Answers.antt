-- ===== src/Worker/Process/Answers.antt =====
-- The protocol of the worker process: what it sends for the requests that it reads.
use open_bmb_vox_cpm2_infere.Common.{
  ◌≡◌, refl, ap, sym, subst, ◌∙◌, true, none, some, String, List, [], ◌∷◌, ◌++◌, if◌then◌else◌,
}
use open_bmb_vox_cpm2_infere.Common.Lists.{All}
use open_bmb_vox_cpm2_infere.Common.Exec.{Outcome, ok, raised, continue, finally, unless_raised}
use open_bmb_vox_cpm2_infere.Worker.Types
use open_bmb_vox_cpm2_infere.Worker.Types.{
  no_payload, audio_result, WorkerBootstrapSpec, WorkerRequest, WorkerMessage,
}
use open_bmb_vox_cpm2_infere.Worker.Process.{
  Failure, system_exit, Script, stops, fails, yields, Child, BackendValue, audio, other_value,
  put_message, send_stream, send_result, execute_request, execute_operation, settle_request,
  handle_request, chunk_message, reply, request_error_data, call,
}

abbrev IsFor : String → WorkerRequest → WorkerMessage → Type 0
IsFor worker r m = (m.worker_id ≡ worker) × (m.request_id ≡ some r.request_id)

abbrev IsChunk : String → WorkerRequest → WorkerMessage → Type 0
IsChunk worker r m = (m.kind ≡ Types.stream_chunk) × IsFor worker r m

abbrev Ends : Types.WorkerMessageKind → Type 0
Ends Types.result = Unit
Ends Types.stream_end = Unit
Ends Types.error = Unit
Ends _ = ⊥

-- Some chunks of the request, and then one message that ends it.
abbrev pub IsAnswer : String → WorkerRequest → List WorkerMessage → Type 0
IsAnswer worker r [] = ⊥
IsAnswer worker r (m ∷ []) = Ends m.kind × IsFor worker r m
IsAnswer worker r (m ∷ n ∷ ms) = IsChunk worker r m × IsAnswer worker r (n ∷ ms)

-- An answer for each request in order, and then the given messages.
abbrev pub AreAnswers :
    String → List WorkerRequest → List WorkerMessage → List WorkerMessage → Type 0
AreAnswers worker [] rest ms = ms ≡ rest
AreAnswers worker (r ∷ rs) rest ms =
    (xs : List WorkerMessage) × (ys : List WorkerMessage) × (ms ≡ xs ++ ys)
    × IsAnswer worker r xs
    × AreAnswers worker rs rest ys

-- A queue that takes every message, and iterators and a backend that close without raising.
abbrev pub Works : Child → Type 0
Works P =
    ((m : WorkerMessage) (w : P.World) → (P.put m w).0 ≡ true)
    × ((w : P.World) → (P.close_iterator w).0 ≡ ok tt)
    × ((w : P.World) → (P.close_backend w).0 ≡ ok tt)

-- What a stream has sent where it ended, and where it raised.
abbrev Streamed : String → WorkerRequest → Outcome Failure (Unit {0}) → List WorkerMessage → Type 0
Streamed worker r (ok _) ms = IsAnswer worker r ms
Streamed worker r (raised e) ms = All (IsChunk worker r) ms

IsAnswer-append :
    (worker : String) (r : WorkerRequest) (ms : List WorkerMessage) (m : WorkerMessage)
    → All (IsChunk worker r) ms
    → Ends m.kind
    → IsFor worker r m
    → IsAnswer worker r (ms ++ (m ∷ []))
IsAnswer-append worker r [] m a e f = (e, f)
IsAnswer-append worker r (x ∷ []) m a e f = (a.0, (e, f))
IsAnswer-append worker r (x ∷ y ∷ ms) m a e f = (a.0, IsAnswer-append worker r (y ∷ ms) m a.1 e f)

pub append_assoc : (xs ys zs : List WorkerMessage) → (xs ++ ys) ++ zs ≡ xs ++ (ys ++ zs)
append_assoc [] ys zs = refl
append_assoc (x ∷ xs) ys zs = ap (λ l. x ∷ l) (append_assoc xs ys zs)

append_nil : (xs : List WorkerMessage) → xs ++ [] ≡ xs
append_nil [] = refl
append_nil (x ∷ xs) = ap (λ l. x ∷ l) (append_nil xs)

Streamed-cons :
    (worker : String) (r : WorkerRequest) (o : Outcome Failure (Unit {0})) (m : WorkerMessage)
    (ms : List WorkerMessage)
    → IsChunk worker r m
    → Streamed worker r o ms
    → Streamed worker r o (m ∷ ms)
Streamed-cons worker r (ok _) m [] c a = absurd a
Streamed-cons worker r (ok _) m (n ∷ ms) c a = (c, a)
Streamed-cons worker r (raised e) m ms c a = (c, a)

module _ (P : Child) (works : Works P) where
  open P use {World}

  pub put_message_lem :
      (m : WorkerMessage) (sent : List WorkerMessage) (w : World)
      → put_message P m (sent, w) ≡ (ok tt, (sent ++ (m ∷ []), (P.put m w).1))
  unfolding put_message
  put_message_lem m sent w =
      ap
        (λ b.
          if b
          then (ok tt, (sent ++ (m ∷ []), (P.put m w).1))
          else (raised system_exit, (sent, (P.put m w).1)))
        (works.0 m w)

  -- The messages that a call added, and what is said of them and of its outcome.
  abbrev pub Sends :
      (Outcome Failure (Unit {0}) → List WorkerMessage → Type 0)
      → List WorkerMessage
      → Outcome Failure (Unit {0}) × (List WorkerMessage × World)
      → Type 0
  Sends Q sent x = (ms : List WorkerMessage) × (x.1.0 ≡ sent ++ ms) × Q x.0 ms

  -- A put that works adds its message.
  pub put_sends :
      (Q : Outcome Failure (Unit {0}) → List WorkerMessage → Type 0) (m : WorkerMessage)
      (sent : List WorkerMessage) (w : World)
      → Q (ok tt) (m ∷ [])
      → Sends Q sent (put_message P m (sent, w))
  put_sends Q m sent w q = subst (Sends Q sent) (sym (put_message_lem m sent w)) (m ∷ [], refl, q)

  module _ (worker : String) (r : WorkerRequest) where
    send_stream_lem :
        (s : Script) (sent : List WorkerMessage) (w : World)
        → Sends (Streamed worker r) sent (send_stream P worker r s (sent, w))
    unfolding send_stream
    send_stream_lem stops sent w =
        put_sends (Streamed worker r) (reply P worker r Types.stream_end no_payload none) sent w
          (tt, (refl, refl))
    send_stream_lem (fails e) sent w = ([], sym (append_nil sent), tt)
    send_stream_lem (yields c s) sent w =
        let m = chunk_message worker r c in
        let sent' = sent ++ (m ∷ []) in
        let w' = (P.put m w).1 in
        let (ms, e, q) = send_stream_lem s sent' w' in
        subst
          (λ x. Sends (Streamed worker r) sent (continue x.0 (λ _. send_stream P worker r s) x.1))
          (sym (put_message_lem m sent w))
          (
            m ∷ ms,
            e ∙ append_assoc sent (m ∷ []) ms,
            Streamed-cons worker r (send_stream P worker r s (sent', w')).0 m ms
                (refl, (refl, refl)) q,
          )

    send_result_lem :
        (v : BackendValue) (sent : List WorkerMessage) (w : World)
        → Sends (Streamed worker r) sent (send_result P worker r v (sent, w))
    unfolding send_result
    send_result_lem (audio a) sent w =
        put_sends (Streamed worker r) (reply P worker r Types.result (audio_result a) none) sent w
          (tt, (refl, refl))
    send_result_lem other_value sent w = ([], sym (append_nil sent), tt)

    closed_lem :
        (o : Outcome Failure (Unit {0})) (sent sent' : List WorkerMessage) (w : World)
        → Sends (Streamed worker r) sent (o, (sent', w))
        → Sends
            (Streamed worker r)
            sent
            (unless_raised o (P.close_iterator w).0, (sent', (P.close_iterator w).1))
    closed_lem o sent sent' w (ms, e, q) =
        (ms, e, subst (λ c. Streamed worker r (unless_raised o c) ms) (sym (works.1 w)) q)

    streamed_lem :
        (o : Outcome Failure Script) (sent : List WorkerMessage) (w : World)
        → Sends (Streamed worker r) sent (
            continue o
              (λ script. finally (send_stream P worker r script) (call P P.close_iterator))
              (sent, w))
    streamed_lem (ok script) sent w =
        let x = send_stream P worker r script (sent, w) in
        closed_lem x.0 sent x.1.0 x.1.1 (send_stream_lem script sent w)
    streamed_lem (raised e) sent w = ([], sym (append_nil sent), tt)

    resulted_lem :
        (o : Outcome Failure BackendValue) (sent : List WorkerMessage) (w : World)
        → Sends
            (Streamed worker r)
            sent
            (continue o (λ value. send_result P worker r value) (sent, w))
    resulted_lem (ok v) sent w = send_result_lem v sent w
    resulted_lem (raised e) sent w = ([], sym (append_nil sent), tt)

    execute_operation_lem :
        (operation : Types.WorkerOperation) (sent : List WorkerMessage) (w : World)
        → Sends (Streamed worker r) sent (execute_operation P worker r operation (sent, w))
    unfolding execute_operation
    execute_operation_lem Types.stream sent w =
        let (o, w') = P.stream r.payload w in streamed_lem o sent w'
    execute_operation_lem Types.synthesize sent w =
        let (o, w') = P.method Types.synthesize r.payload w in resulted_lem o sent w'
    execute_operation_lem Types.design sent w =
        let (o, w') = P.method Types.design r.payload w in resulted_lem o sent w'
    execute_operation_lem Types.clone_voice sent w =
        let (o, w') = P.method Types.clone_voice r.payload w in resulted_lem o sent w'
    execute_operation_lem Types.continue_audio sent w =
        let (o, w') = P.method Types.continue_audio r.payload w in resulted_lem o sent w'

  -- A call that returns having sent an answer.
  abbrev Answered :
      String → WorkerRequest → Outcome Failure (Unit {0}) → List WorkerMessage → Type 0
  Answered worker r o ms = (o ≡ ok tt) × IsAnswer worker r ms

  settle_request_lem :
      (worker : String) (r : WorkerRequest) (o : Outcome Failure (Unit {0}))
      (sent sent' : List WorkerMessage) (w : World)
      → Sends (Streamed worker r) sent (o, (sent', w))
      → Sends (Answered worker r) sent (settle_request P worker r o (sent', w))
  unfolding settle_request
  settle_request_lem worker r (ok _) sent sent' w (ms, e, q) = (ms, e, (refl, q))
  settle_request_lem worker r (raised f) sent sent' w (ms, e, q) =
      let m = reply P worker r Types.error no_payload (some (request_error_data P f)) in
      subst (Sends (Answered worker r) sent) (sym (put_message_lem m sent' w)) (
        ms ++ (m ∷ []),
        ap (λ l. l ++ (m ∷ [])) e ∙ append_assoc sent ms (m ∷ []),
        (refl, IsAnswer-append worker r ms m q tt (refl, refl)),
      )

  pub handle_request_lem :
      (worker : String) (r : WorkerRequest) (sent : List WorkerMessage) (w : World)
      → Sends (Answered worker r) sent (handle_request P worker r (sent, w))
  unfolding handle_request execute_request
  handle_request_lem worker r sent w =
      let x = execute_operation P worker r r.operation (sent, w) in
      settle_request_lem worker r x.0 sent x.1.0 x.1.1
        (execute_operation_lem worker r r.operation sent w)
