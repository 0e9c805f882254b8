-- ===== src/Worker/Process.antt =====
-- The worker process: voxcpm_runtime/worker_process.py. The backend, the result queue and the pipe
-- are the parameter Child; the commands that the pipe delivers are a list, whose end is the end of
-- the file. Beside the world stands the list of the messages that the queue took, in order.
pub mod Answers
pub mod Session
use Prim.Native.String.{count, ◌++◌ as join_texts}
use open_bmb_vox_cpm2_infere.Common.{
  ℕ, ltb, Bool, true, false, ◌&&◌, not, Option, none, some, String, List, [], ◌∷◌, ◌++◌,
  if◌then◌else◌,
}
use open_bmb_vox_cpm2_infere.Common.Exec.{
  Outcome, ok, raised, Exec, pure, raise, attempt, finally, ◌>>=◌, ◌>>◌,
}
use open_bmb_vox_cpm2_infere.Worker.Types
use open_bmb_vox_cpm2_infere.Worker.Types.{
  WorkerBootstrapSpec, WorkerRequest, WorkerMessage, WorkerMessageKind, WorkerErrorData,
  WorkerPayload, WorkerOperation, WorkerResultPayload, AudioResult, AudioChunk, Detail, Metadata,
  audio_result, audio_chunk, no_payload,
}

-- An exception by the name of its type. A BackendError has the data of its to_dict.
pub data Failure : Type 0 where
  backend_failure : String → WorkerErrorData → Failure
  end_of_file system_exit : Failure
  unexpected : String → Failure

abbrev type_name : Failure → String
type_name (backend_failure n d) = n
type_name end_of_file = "EOFError"
type_name system_exit = "SystemExit"
type_name (unexpected n) = n

pub record BackendInfo : Type 0 where
  pub backend : String
  pub implementation : String
  pub device : String
  pub model_id : Option String
  pub capabilities : List String

-- What a backend's method returns.
pub data BackendValue : Type 0 where
  audio : AudioResult → BackendValue
  other_value : BackendValue

-- What an iterator over a stream yields until it stops or raises.
pub data Script : Type 0 where
  stops : Script
  fails : Failure → Script
  yields : AudioChunk → Script → Script

-- What the pipe delivers.
pub data Command : Type 0 where
  shutdown_command invalid_command : Command
  request_command : WorkerRequest → Command
  unreadable : String → Command

pub record Child : Type 1 where
  pub World : Type 0
  pub create_backend : WorkerBootstrapSpec → World → Outcome Failure (Unit {0}) × World
  pub load : World → Outcome Failure BackendInfo × World
  pub method : WorkerOperation → WorkerPayload → World → Outcome Failure BackendValue × World
  pub stream : WorkerPayload → World → Outcome Failure Script × World
  pub close_iterator : World → Outcome Failure (Unit {0}) × World
  pub close_backend : World → Outcome Failure (Unit {0}) × World
  pub put : WorkerMessage → World → Bool × World
  pub close_control : World → World
  pub is_identifier : String → Bool

abbrev request_message :
    WorkerMessageKind
    → String
    → Option String
    → WorkerResultPayload
    → Option WorkerErrorData
    → WorkerMessage
request_message kind worker id payload error = record {
  kind = kind;
  worker_id = worker;
  request_id = id;
  payload = payload;
  error = error;
  metadata = [];
}

-- ",".join(texts)
unfoldable pub comma_joined : List String → String
comma_joined [] = ""
comma_joined (t ∷ []) = t
comma_joined (t ∷ u ∷ us) = join_texts t (join_texts "," (comma_joined (u ∷ us)))

abbrev text_or_null : Option String → Detail
text_or_null none = Detail.null
text_or_null (some t) = Detail.text t

-- _ready_metadata, in the sorted order that the constructor of the message gives it.
unfoldable pub ready_metadata : BackendInfo → Metadata
ready_metadata i =
    ("backend", Detail.text i.backend)
    ∷ ("capabilities", Detail.text (comma_joined i.capabilities))
    ∷ ("device", Detail.text i.device)
    ∷ ("implementation", Detail.text i.implementation)
    ∷ ("model_id", text_or_null i.model_id)
    ∷ []

abbrev pub chunk_message : String → WorkerRequest → AudioChunk → WorkerMessage
chunk_message worker r c =
    request_message Types.stream_chunk worker (some r.request_id) (audio_chunk c) none

module _ (P : Child) where
  open P use {World}

  abbrev pub Action : Type 0 → Type 0
  Action A = Exec Failure (List WorkerMessage × World) A

  abbrev pub call : {A : Type 0} → (World → Outcome Failure A × World) → Action A
  call f (sent, w) = let (o, w') = f w in (o, (sent, w'))

  -- _put_message
  unfoldable pub put_message : WorkerMessage → Action (Unit {0})
  put_message m (sent, w) =
      let (taken, w') = P.put m w in
      if taken then (ok tt, (sent ++ (m ∷ []), w')) else (raised system_exit, (sent, w'))

  -- _unexpected_error_data
  unfoldable pub unexpected_error_data : Failure → WorkerErrorData
  unexpected_error_data e =
      let name = type_name e in
      record {
        code = "worker_execution_failed";
        message = "Worker execution failed.";
        retryable = false;
        details =
            (
              "exception_type",
              Detail.text (
                  if P.is_identifier name && not (ltb 64 (count name))
                  then name
                  else "UnknownWorkerError"),
            )
            ∷ [];
      }

  -- What a request that fails is answered with: _backend_error_data for a BackendError.
  unfoldable pub request_error_data : Failure → WorkerErrorData
  unfolding unexpected_error_data
  request_error_data (backend_failure n d) = d
  request_error_data e = unexpected_error_data e

  module _ (worker : String) where
    abbrev pub reply :
        WorkerRequest
        → WorkerMessageKind
        → WorkerResultPayload
        → Option WorkerErrorData
        → WorkerMessage
    reply r kind payload error = request_message kind worker (some r.request_id) payload error

    -- The loop over the iterator of a stream.
    unfoldable pub send_stream : WorkerRequest → Script → Action (Unit {0})
    unfolding put_message
    send_stream r stops = put_message (reply r Types.stream_end no_payload none)
    send_stream r (fails e) = raise e
    send_stream r (yields c s) = do put_message (chunk_message worker r c); send_stream r s

    unfoldable pub send_result : WorkerRequest → BackendValue → Action (Unit {0})
    unfolding put_message
    send_result r (audio a) = put_message (reply r Types.result (audio_result a) none)
    send_result r other_value = raise (unexpected "TypeError")

    unfoldable pub execute_operation : WorkerRequest → WorkerOperation → Action (Unit {0})
    unfolding send_stream send_result
    execute_operation r Types.stream = do
      script ← call (P.stream r.payload)
      finally (send_stream r script) (call P.close_iterator)
    execute_operation r operation = do
      value ← call (P.method operation r.payload)
      send_result r value

    -- _execute_request
    unfoldable pub execute_request : WorkerRequest → Action (Unit {0})
    unfolding execute_operation
    execute_request r = execute_operation r r.operation

    unfoldable pub settle_request : WorkerRequest → Outcome Failure (Unit {0}) → Action (Unit {0})
    unfolding put_message
    settle_request r (ok _) = pure tt
    settle_request r (raised e) =
        put_message (reply r Types.error no_payload (some (request_error_data e)))

    -- One request, with the handlers around it.
    unfoldable pub handle_request : WorkerRequest → Action (Unit {0})
    unfolding execute_request settle_request
    handle_request r = do done ← attempt (execute_request r); settle_request r done

    abbrev pub shutdown_ack_message : WorkerMessage
    shutdown_ack_message = request_message Types.shutdown_ack worker none no_payload none

    -- The command loop.
    unfoldable pub serve : List Command → Action (Unit {0})
    unfolding handle_request
    serve [] = raise end_of_file
    serve (shutdown_command ∷ cs) = do call P.close_backend; put_message shutdown_ack_message
    serve (invalid_command ∷ cs) = raise (unexpected "TypeError")
    serve (unreadable n ∷ cs) = raise (unexpected n)
    serve (request_command r ∷ cs) = do handle_request r; serve cs

    abbrev pub ready_message : BackendInfo → WorkerMessage
    ready_message i = record {
      kind = Types.ready;
      worker_id = worker;
      request_id = none;
      payload = no_payload;
      error = none;
      metadata = ready_metadata i;
    }

    unfoldable pub load_and_serve : List Command → Action (Unit {0})
    unfolding serve
    load_and_serve cs = do info ← call P.load; put_message (ready_message info); serve cs

    -- `except EOFError: return` and `except BaseException`, which tries to report the exception.
    unfoldable pub report : Outcome Failure (Unit {0}) → Action (Unit {0})
    unfolding put_message
    report (ok _) = pure tt
    report (raised end_of_file) = pure tt
    report (raised e) = do
      attempt (
          put_message
            (request_message Types.error worker none no_payload (some (unexpected_error_data e))))
      pure tt

  unfoldable pub run_backend :
      String → List Command → Outcome Failure (Unit {0}) → Action (Unit {0})
  unfolding load_and_serve report
  run_backend worker cs (raised e) = report worker (raised e)
  run_backend worker cs (ok _) = do
    served ← attempt (load_and_serve worker cs)
    report worker served
    attempt (call P.close_backend)
    pure tt

  -- worker_process_main
  unfoldable pub worker_process_main : WorkerBootstrapSpec → List Command → Action (Unit {0})
  unfolding run_backend
  worker_process_main spec cs = do
    created ← attempt (call (P.create_backend spec))
    run_backend spec.worker_id cs created
    call (λ w. (ok tt, P.close_control w))
