-- ===== src/Lib.antt =====
-- Verification of the inference runtime of OpenBMB-VoxCPM2-Inference (voxcpm_runtime/).
--
-- The runtime serves text-to-speech requests with worker processes. A parent process resolves the
-- configuration to an execution plan (one CPU worker, or a worker for each of some GPUs), starts a
-- worker process for each entry of the plan behind a worker client, and hands the clients to one
-- scheduler. The scheduler keeps a bounded first-in first-out queue of requests, sends each to a
-- ready client, polls the clients for messages, turns these into events, and enforces a queue
-- timeout, an inference timeout, cancellation and shutdown. A client speaks to its process over a
-- pipe, for requests, and a queue, for messages. The API runtime lets threads submit requests to the
-- scheduler and hands its events on to their futures and streams. Audio is written as WAV files.
--
-- Common                      shared names, Boolean tests, small lemmas
-- Common/Exec                 Python methods: an action on a state that returns or raises
-- Common/Dict                 an insertion-ordered dictionary: lookup, put, pop
-- Common/Lists                length and a predicate on all elements
-- Worker/Types, Errors        voxcpm_runtime/worker_types.py, worker_errors.py and the request and
--                             result types of backend_types.py
-- Worker/Platform             the multiprocessing operations and the clock, as a parameter
-- Worker/Client, Client/*     voxcpm_runtime/worker_client.py, WorkerClient: start, submit, receive,
--                             execute, cancel_active, shutdown in Client/Methods, _receive_message,
--                             _cleanup_transport and _terminate_and_join in Client/Transport
-- Worker/Client/Stream        the generator WorkerClient.stream, as the steps of its consumer
-- Worker/Client/Valid, Running, Ending, Lifecycle
--                             its invariant, what each method does to the running request and to the
--                             process, and the life of a client
-- Worker/Process, Process/Answers, Session
--                             voxcpm_runtime/worker_process.py: worker_process_main, _execute_request
--                             and _put_message around a backend, and the protocol they follow
-- Worker/Factory, Factory/AllOrNothing
--                             start_worker_clients of voxcpm_runtime/worker_factory.py
-- Scheduler                   voxcpm_runtime/scheduler.py, Scheduler: its state
-- Scheduler/Queue             _dispatch_pending, _expire_pending, _expire_active, _worker_failed and
--                             _fail_pending_without_healthy_workers
-- Scheduler/Methods           submit, poll, cancel, close and _drain_events
-- Scheduler/Construct         __init__
-- Scheduler/Invariant, Keeps, KeepsDispatch, Consistency, History
--                             the agreement of the scheduler with its workers, and its preservation
-- Scheduler/Closing, Loss     what close does, and what a broken pipe does to a dispatch
-- Config/Text, Parse, Fields   the parsers and formatters of voxcpm_runtime/config.py on texts
-- Config/Decimal, RoundTrip, Distinct, Bounds
--                             what is printed is read back; what the parsers accept
-- Topology                    the topology fields of RuntimeConfig in voxcpm_runtime/config.py
-- Topology/Profiles           materialize_execution_profile of voxcpm_runtime/profiles.py
-- Topology/Plans, Resolution  ExecutionPlan and resolve_execution_plan of voxcpm_runtime/device.py
-- Topology/Inventory          the constructor of HardwareInventory of voxcpm_runtime/device.py
-- Topology/Owed, Requests, Automatic
--                             what a resolved plan owes to the request and to the hardware
-- Topology/Parent, Agreement  parent_execution_plan of voxcpm_runtime/worker_factory.py, and that it
--                             agrees with the resolution
-- Auth                        voxcpm_runtime/api_auth.py: who may use the API
-- Api, Api/Methods, Dispatch   voxcpm_runtime/api_runtime.py, ApiRuntime: its state, the methods of its
--                             callers, and the dispatcher thread
-- Api/Routed, Progress, Settling, Steps, Clearing, Turns, History
--                             the routing of messages to futures and streams, under any interleaving;
--                             Settling also has the cancellation of a future by its owner, which
--                             voxcpm_runtime/api_app.py passes on
-- Api/Closing, Routes, Delivery, Stuck, Ended
--                             what close leaves, what the dispatcher delivers and what stops it
-- Wav/Quantise, Bounds        _clip_and_quantize of voxcpm_runtime/wav_io.py, and its bounds and order
-- Wav/Format, Disk            the bytes of a WAV file, and the directory that it is written into
-- Wav/Write, Validate         write_wav and validate_wav of voxcpm_runtime/wav_io.py
-- Wav/Touches, Atomic         what write_wav changes on the disk when operations fail
-- Wav/Reading, Writing, RoundTrip, Overflow
--                             what is written passes validation; a header field that does not fit
-- Backend/Fake, Chunks, Lifecycle, Samples
--                             voxcpm_runtime/fake_backend.py: FakeVoxCPMBackend, the cutting of audio into
--                             chunks, when it generates, and what
-- Tests, Tests/*              a simulated platform and the theorems applied to it
--
-- A method is an action on its object beside the world of the platform, and returns or raises a
-- value of the exception's data type; state written before a raise stays written. The scheduler
-- holds its clients by identifier and runs a client's method in place, as the source mutates the
-- client objects that it shares with no one. Times are natural numbers of ticks, and a timeout that
-- is None is an absent option. Loops recurse on the list that they run over, a snapshot of the queue
-- or of the workers as in the source, so no fuel is needed; the cutting of audio into chunks runs on
-- the number of samples, which is enough since each chunk takes one at least.
-- The worker process reads a list of commands, and iterates over the finite list that a stream
-- yields. GPU indices are natural numbers. The disk of the WAV files takes from a script whether each of
-- its operations fails; products of doubles, sha256 and what the module wave reads are parameters.
--
-- The threads of the API runtime take turns; a turn is what a thread does under the lock, or one
-- operation on a future or a queue outside of it, and the dispatcher keeps its place between turns. Futures and stream queues are references into a store.
-- Texts that are parsed are lists of code points. A number is printed by as many divisions as the
-- number itself, which is enough since each makes it smaller; white space and casefold are parameters.
--
-- Not modelled: the rest of the HTTP application, the PyTorch backend, the assembly of RuntimeConfig, the
-- probing of hardware, metrics and diagnostics, and the scripts, which are glue or stand
-- beside this core.
pub mod Api
pub mod Auth
pub mod Backend
pub mod Common
pub mod Config
pub mod Scheduler
pub mod Tests
pub mod Topology
pub mod Wav
pub mod Worker
