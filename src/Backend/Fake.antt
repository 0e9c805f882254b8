-- ===== src/Backend/Fake.antt =====
-- FakeVoxCPMBackend of voxcpm_runtime/fake_backend.py, with the errors of voxcpm_runtime/errors.py that
-- it raises. The digest of a request and the quotient of two integers as a float are parameters.
use open_bmb_vox_cpm2_infere.Common.{
  ℕ, zero, suc, ◌+◌, ◌-◌, ◌*◌, ◌/◌, ◌%◌, ◌==◌, ltb, leb, Bool, true, false, String, List, [], ◌∷◌,
  if◌then◌else◌,
}
use open_bmb_vox_cpm2_infere.Common.Exec.{Exec, pure, raise, gets, modify, ◌>>=◌, ◌>>◌}
use open_bmb_vox_cpm2_infere.Common.Dict.{member}
use open_bmb_vox_cpm2_infere.Common.Lists.{length}
use open_bmb_vox_cpm2_infere.Worker.Types.{
  Sample, Metadata, Detail, OneShotRequest, speech, voice_design, clone, continuation, AudioResult,
  AudioChunk,
}

pub data BackendState : Type 0 where
  created loaded closed : BackendState

-- BackendStateError by its code, BackendRequestError, and BackendExecutionError by its operation and
-- the type of the exception that it stands for.
pub data BackendError : Type 0 where
  state_error : String → BackendError
  request_error : BackendError
  execution_error : String → String → BackendError

pub record FakeVoxCpmBackend : Type 0 where
  pub failure_plan : List String
  pub chunk_size : ℕ
  pub state : BackendState

pub data FakeOperation : Type 0 where
  synthesize design clone_voice continue_audio : FakeOperation

-- The name of an operation, which a failure plan lists.
abbrev pub operation_name : FakeOperation → String
operation_name synthesize = "synthesize"
operation_name design = "design"
operation_name clone_voice = "clone"
operation_name continue_audio = "continue_audio"

-- _operation_for_request
abbrev pub operation_for : OneShotRequest → FakeOperation
operation_for (speech t) = synthesize
operation_for (voice_design i t) = design
operation_for (clone a t) = clone_voice
operation_for (continuation a s t) = continue_audio

-- isinstance(request, expected_type), by the operation that expects it.
abbrev pub is_expected : FakeOperation → OneShotRequest → Bool
is_expected synthesize (speech t) = true
is_expected design (voice_design i t) = true
is_expected clone_voice (clone a t) = true
is_expected continue_audio (continuation a s t) = true
is_expected _ _ = false

abbrev pub Action : Type 0 → Type 0
Action A = Exec BackendError FakeVoxCpmBackend A

-- An injected failure, a RuntimeError, as _call_normalized hands it on.
unfoldable pub fail_if : Bool → String → Action (Unit {0})
fail_if true operation = raise (execution_error operation "RuntimeError")
fail_if false operation = pure tt

unfoldable pub injected_failure : String → Action (Unit {0})
unfolding fail_if member
injected_failure operation b = fail_if (member operation b.failure_plan) operation b

-- FakeVoxCPMBackend.load; the result says that it is loaded.
unfoldable pub load_from : BackendState → Action (Unit {0})
unfolding injected_failure
load_from closed = raise (state_error "backend_closed")
load_from loaded = pure tt
load_from created = do injected_failure "load"; modify (λ b. record b { state = loaded })

unfoldable pub load : Action (Unit {0})
unfolding load_from
load b = load_from b.state b

-- FakeVoxCPMBackend.close
unfoldable pub close_from : BackendState → Action (Unit {0})
unfolding injected_failure
close_from closed = pure tt
close_from _ = do injected_failure "close"; modify (λ b. record b { state = closed })

unfoldable pub close : Action (Unit {0})
unfolding close_from
close b = close_from b.state b

-- _ensure_ready
unfoldable pub ready_in : BackendState → Action (Unit {0})
ready_in created = raise (state_error "backend_not_loaded")
ready_in closed = raise (state_error "backend_closed")
ready_in loaded = pure tt

unfoldable pub ensure_ready : Action (Unit {0})
unfolding ready_in
ensure_ready b = ready_in b.state b

-- _result_metadata
abbrev pub result_metadata : String → Metadata
result_metadata operation =
    ("backend", Detail.text "fake")
    ∷ ("contract_scope", Detail.text "test/fake contract only")
    ∷ ("operation", Detail.text operation)
    ∷ ("sample_rate_scope", Detail.text "test/fake contract only")
    ∷ []

-- digest[index % len(digest)] and digest[-1]; a digest is never empty.
unfoldable pub byte_at : ℕ → List ℕ → ℕ
byte_at i [] = 0
byte_at zero (b ∷ bs) = b
byte_at (suc i) (b ∷ bs) = byte_at i bs

unfoldable pub last_byte : List ℕ → ℕ
last_byte [] = 0
last_byte (b ∷ []) = b
last_byte (b ∷ c ∷ bs) = last_byte (c ∷ bs)

unfoldable pub first_samples : ℕ → List Sample → List Sample
first_samples zero ss = []
first_samples (suc n) [] = []
first_samples (suc n) (s ∷ ss) = s ∷ first_samples n ss

unfoldable pub after_samples : ℕ → List Sample → List Sample
after_samples zero ss = ss
after_samples (suc n) [] = []
after_samples (suc n) (s ∷ ss) = after_samples n ss

-- FakeVoxCPMBackend._chunks from `start` on, where `rest` are the samples that are left. A round takes
-- one sample at least, so as many rounds as there are samples are enough.
unfoldable pub chunks_from : ℕ → AudioResult → ℕ → ℕ → List Sample → List AudioChunk
unfolding first_samples after_samples
chunks_from size result zero start rest = []
chunks_from size result (suc fuel) start [] = []
chunks_from size result (suc fuel) start (s ∷ ss) =
    let total = length result.samples in
    let end = if ltb (start + size) total then start + size else total in
    let rest = chunks_from size result fuel (start + size) (after_samples (end - start) (s ∷ ss)) in
    record {
      samples = first_samples (end - start) (s ∷ ss);
      sample_rate_hz = result.sample_rate_hz;
      channels = result.channels;
      sequence = start / size;
      is_final = end == total;
      metadata = result.metadata;
    }
    ∷ rest

unfoldable pub chunks : ℕ → AudioResult → List AudioChunk
unfolding chunks_from
chunks size result = chunks_from size result (length result.samples) 0 result.samples

module _ (digest : String → OneShotRequest → List ℕ) (quotient : Bool → ℕ → ℕ → Sample) where
  -- The sample at an index: (byte - 128) * amplitude / 128_000_000_000, by its sign.
  unfoldable pub sample_at : ℕ → ℕ → Sample
  sample_at byte amplitude =
      if leb 128 byte
      then quotient true ((byte - 128) * amplitude) 128000000000
      else quotient false ((128 - byte) * amplitude) 128000000000

  unfoldable pub samples_from : List ℕ → ℕ → ℕ → ℕ → List Sample
  unfolding sample_at byte_at
  samples_from bytes amplitude index zero = []
  samples_from bytes amplitude index (suc count) =
      sample_at (byte_at (index % length bytes) bytes) amplitude
      ∷ samples_from bytes amplitude (index + 1) count

  -- _synthesize_result
  unfoldable pub synthesize_result : String → OneShotRequest → AudioResult
  unfolding samples_from last_byte
  synthesize_result operation request =
      let bytes = digest operation request in
      let amplitude = 100000000 + last_byte bytes * 50000000 / 255 in
      record {
        samples = samples_from bytes amplitude 0 480;
        sample_rate_hz = 48000;
        channels = 1;
        metadata = result_metadata operation;
      }

  unfoldable pub run_expected : Bool → FakeOperation → OneShotRequest → Action AudioResult
  unfolding injected_failure synthesize_result
  run_expected false operation request = raise request_error
  run_expected true operation request = do
    injected_failure (operation_name operation)
    pure (synthesize_result (operation_name operation) request)

  -- FakeVoxCPMBackend._run: synthesize, design, clone and continue_audio
  unfoldable pub run : FakeOperation → OneShotRequest → Action AudioResult
  unfolding ensure_ready run_expected
  run operation request = do
    ensure_ready
    run_expected (is_expected operation request) operation request

  unfoldable pub stream_chunks : OneShotRequest → Action (List AudioChunk)
  unfolding injected_failure synthesize_result chunks
  stream_chunks request = do
    injected_failure "stream"
    size ← gets (λ b. b.chunk_size)
    pure (chunks size (synthesize_result (operation_name (operation_for request)) request))

  -- FakeVoxCPMBackend.stream, with everything that the iterator yields.
  unfoldable pub stream : OneShotRequest → Action (List AudioChunk)
  unfolding ensure_ready stream_chunks
  stream request = do ensure_ready; stream_chunks request
