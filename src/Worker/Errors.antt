-- ===== src/Worker/Errors.antt =====
-- voxcpm_runtime/worker_errors.py, and the exceptions of Python that the same code raises.
use open_bmb_vox_cpm2_infere.Common.{Bool, true, false, String, []}
use open_bmb_vox_cpm2_infere.Worker.Types.{Metadata}

-- The subclasses of WorkerError, and WorkerError itself.
pub data WorkerErrorClass : Type 0 where
  worker_error state_error start_error transport_error exited_error cancelled_error
        admission_error :
      WorkerErrorClass

pub record WorkerFault : Type 0 where
  pub class : WorkerErrorClass
  pub message : String
  pub code : String
  pub retryable : Bool
  pub details : Metadata

-- What a method may raise: a WorkerError, an OSError of a closed pipe (BrokenPipeError, EOFError
-- and OSError are treated alike), or a ValueError.
pub data Exception : Type 0 where
  worker : WorkerFault → Exception
  os_error : Exception
  value_error : String → Exception

unfoldable pub default_code : WorkerErrorClass → String
default_code worker_error = "worker_error"
default_code state_error = "worker_state_error"
default_code start_error = "worker_start_failed"
default_code transport_error = "worker_transport_failed"
default_code exited_error = "worker_exited"
default_code cancelled_error = "request_cancelled"
default_code admission_error = "scheduler_admission_failed"

unfoldable pub default_message : WorkerErrorClass → String
default_message worker_error = "Worker operation failed."
default_message state_error = "Worker lifecycle state does not allow this operation."
default_message start_error = "Worker failed to start."
default_message transport_error = "Worker transport failed."
default_message exited_error = "Worker process exited unexpectedly."
default_message cancelled_error = "Worker request was cancelled."
default_message admission_error = "Scheduler admission failed."

-- error_type()
abbrev pub fault : WorkerErrorClass → Exception
fault c = worker (record {
  class = c;
  message = default_message c;
  code = default_code c;
  retryable = false;
  details = [];
})

-- error_type(code=…, details=…)
abbrev pub fault_with : WorkerErrorClass → String → Metadata → Exception
fault_with c code details = worker (record {
  class = c;
  message = default_message c;
  code = code;
  retryable = false;
  details = details;
})

-- error_type(code=…, retryable=True, details=…)
abbrev pub retryable_fault : WorkerErrorClass → String → Metadata → Exception
retryable_fault c code details = worker (record {
  class = c;
  message = default_message c;
  code = code;
  retryable = true;
  details = details;
})
