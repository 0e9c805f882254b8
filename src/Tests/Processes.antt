-- ===== src/Tests/Processes.antt =====
-- A worker process around a backend that synthesizes one result and streams one chunk.
use open_bmb_vox_cpm2_infere.Common.{◌≡◌, refl, true, none, [], ◌∷◌, ◌++◌, map}
use open_bmb_vox_cpm2_infere.Common.Exec.{ok}
use open_bmb_vox_cpm2_infere.Worker.Types
use open_bmb_vox_cpm2_infere.Worker.Types.{
  WorkerRequest, AudioResult, AudioChunk, streaming, speech,
}
use open_bmb_vox_cpm2_infere.Worker.Process.{
  Child, BackendInfo, audio, yields, fails, unexpected, shutdown_command, invalid_command,
  request_command, worker_process_main,
}
use open_bmb_vox_cpm2_infere.Worker.Process.Answers.{Works}
use open_bmb_vox_cpm2_infere.Worker.Process.Session.{
  Session, worker_process_main-Session, worker_process_main_returns,
}
use open_bmb_vox_cpm2_infere.Tests.{spec, say}

abbrev info : BackendInfo
info = record {
  backend = "fake";
  implementation = "test";
  device = "cpu";
  model_id = none;
  capabilities = "stream" ∷ "synthesize" ∷ [];
}

abbrev result : AudioResult
result = record { samples = []; sample_rate_hz = 48000; channels = 1; metadata = [] }

abbrev chunk : AudioChunk
chunk = record {
  samples = [];
  sample_rate_hz = 48000;
  channels = 1;
  sequence = 0;
  is_final = true;
  metadata = [];
}

abbrev child : Child
child = record {
  World = Unit {0};
  create_backend = λ s w. (ok tt, w);
  load = λ w. (ok info, w);
  method = λ o p w. (ok (audio result), w);
  stream = λ p w. (ok (yields chunk (fails (unexpected "OSError"))), w);
  close_iterator = λ w. (ok tt, w);
  close_backend = λ w. (ok tt, w);
  put = λ m w. (true, w);
  close_control = λ w. w;
  is_identifier = λ t. true;
}

abbrev child_works : Works child
child_works = (λ m w. refl, λ w. refl, λ w. refl)

abbrev stream_request : WorkerRequest
stream_request = record {
  request_id = "s";
  operation = Types.stream;
  payload = streaming (speech "hello");
}

worker_process_main-Session_example :
    let (o, (sent, w)) =
      worker_process_main child
        (spec "a")
        (map request_command (say "r1" ∷ stream_request ∷ []) ++ (shutdown_command ∷ []))
        ([], tt) in
    Session child child_works "a" (say "r1" ∷ stream_request ∷ []) info o sent
worker_process_main-Session_example =
    worker_process_main-Session child child_works (spec "a") (say "r1" ∷ stream_request ∷ []) info
      tt refl refl

worker_process_main_returns_example :
    (worker_process_main child (spec "a") (invalid_command ∷ []) ([], tt)).0 ≡ ok tt
worker_process_main_returns_example =
    worker_process_main_returns child (spec "a") (invalid_command ∷ []) [] tt
