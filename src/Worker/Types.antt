-- ===== src/Worker/Types.antt =====
-- The messages between the parent and a worker: voxcpm_runtime/worker_types.py, with the request
-- and audio types of voxcpm_runtime/backend_types.py that they carry. Samples are floats: a finite
-- one is an integral number of units of the smallest step of a double.
use open_bmb_vox_cpm2_infere.Common.{ℕ, Bool, Option, String, List}

pub data Sample : Type 0 where
  positive negative : ℕ → Sample
  infinite not_a_number : Sample

-- ErrorDetail of errors.py; `real` is a float by its units, with its sign.
pub data Detail : Type 0 where
  text : String → Detail
  flag : Bool → Detail
  number : ℕ → Detail
  negative_number : ℕ → Detail
  real : Sample → Detail
  null : Detail

abbrev pub Metadata : Type 0
Metadata = List (String × Detail)

pub data OneShotRequest : Type 0 where
  speech : String → OneShotRequest
  voice_design : String → String → OneShotRequest
  clone : String → String → OneShotRequest
  continuation : String → String → String → OneShotRequest

pub data WorkerPayload : Type 0 where
  one_shot : OneShotRequest → WorkerPayload
  streaming : OneShotRequest → WorkerPayload

pub record AudioResult : Type 0 where
  pub samples : List Sample
  pub sample_rate_hz : ℕ
  pub channels : ℕ
  pub metadata : Metadata

pub record AudioChunk : Type 0 where
  pub samples : List Sample
  pub sample_rate_hz : ℕ
  pub channels : ℕ
  pub sequence : ℕ
  pub is_final : Bool
  pub metadata : Metadata

pub data WorkerResultPayload : Type 0 where
  audio_result : AudioResult → WorkerResultPayload
  audio_chunk : AudioChunk → WorkerResultPayload
  no_payload : WorkerResultPayload

pub data WorkerOperation : Type 0 where
  synthesize design clone_voice continue_audio stream : WorkerOperation

pub data WorkerMessageKind : Type 0 where
  ready result stream_chunk stream_end error cancelled shutdown_ack : WorkerMessageKind

pub data BackendKind : Type 0 where
  fake real_backend : BackendKind

pub record WorkerBootstrapSpec : Type 0 where
  pub worker_id : String
  pub backend_kind : BackendKind
  pub physical_gpu_index : Option ℕ
  pub fake_failure_operations : List String

pub record WorkerRequest : Type 0 where
  pub request_id : String
  pub operation : WorkerOperation
  pub payload : WorkerPayload

pub record WorkerErrorData : Type 0 where
  pub code : String
  pub message : String
  pub retryable : Bool
  pub details : Metadata

pub record WorkerMessage : Type 0 where
  pub kind : WorkerMessageKind
  pub worker_id : String
  pub request_id : Option String
  pub payload : WorkerResultPayload
  pub error : Option WorkerErrorData
  pub metadata : Metadata
