-- ===== src/Scheduler/Construct.antt =====
-- The constructor of Scheduler in voxcpm_runtime/scheduler.py. Its arguments are typed, so its
-- isinstance tests and the finiteness of the timeouts hold of every argument.
use Prim.Native.String.{compare}
use text.Mathlib.Text.{is_le}
use open_bmb_vox_cpm2_infere.Common.{
  ℕ, ◌≡◌, refl, sym, Bool, true, false, ◌&&◌, Option, none, some, String, String_discrete, List, [],
  ◌∷◌, ite, arith, ◌==◌, if◌then◌else◌,
}
use open_bmb_vox_cpm2_infere.Common.Exec.{Outcome, ok, raised}
use open_bmb_vox_cpm2_infere.Common.Dict.{member, lookup}
use open_bmb_vox_cpm2_infere.Common.Lists.{All}
use open_bmb_vox_cpm2_infere.Worker.Types.{fake}
use open_bmb_vox_cpm2_infere.Worker.Errors.{Exception, value_error}
use open_bmb_vox_cpm2_infere.Worker.Client.{WorkerClient, created}
use open_bmb_vox_cpm2_infere.Worker.Client.Valid.{IsValid}
use open_bmb_vox_cpm2_infere.Worker.Client.Running.{running}
use open_bmb_vox_cpm2_infere.Scheduler.{Scheduler, is_ready}
use open_bmb_vox_cpm2_infere.Scheduler.Invariant.{Within, IsConsistent}

unfoldable pub worker_ids : List WorkerClient → List String
worker_ids [] = []
worker_ids (c ∷ cs) = c.spec.worker_id ∷ worker_ids cs

-- len({…}) == len(workers)
unfoldable pub all_distinct : List String → Bool
all_distinct [] = true
all_distinct (k ∷ ks) = if member k ks then false else all_distinct ks

unfoldable pub all_ready : List WorkerClient → Bool
all_ready [] = true
all_ready (c ∷ cs) = is_ready c.state && all_ready cs

insert_id : String → List String → List String
insert_id k [] = k ∷ []
insert_id k (j ∷ js) = if is_le (compare k j) then k ∷ j ∷ js else j ∷ insert_id k js

-- sorted(workers, key=lambda item: item.worker_id), on the references
unfoldable pub sort_ids : List String → List String
unfolding insert_id
sort_ids [] = []
sort_ids (k ∷ ks) = insert_id k (sort_ids ks)

-- Behind an id that no worker has stands a client that was never started.
abbrev pub unstarted : String → WorkerClient
unstarted k = record {
  spec = record {
    worker_id = k;
    backend_kind = fake;
    physical_gpu_index = none;
    fake_failure_operations = [];
  };
  startup_timeout = 1;
  shutdown_timeout = 1;
  stream_buffer_chunks = 1;
  state = created;
  process = none;
  control = none;
  results = none;
  active_request_id = none;
  ready_message = none;
}

unfoldable pub client_of : List WorkerClient → String → WorkerClient
unfolding String_discrete
client_of [] k = unstarted k
client_of (c ∷ cs) k = ite (String_discrete c.spec.worker_id k) c (client_of cs k)

-- An optional argument that is given and not positive.
abbrev pub not_positive : Option ℕ → Bool
not_positive none = false
not_positive (some n) = n == 0

abbrev pub no_workers : List WorkerClient → Bool
no_workers [] = true
no_workers (c ∷ cs) = false

-- Scheduler.__init__
unfoldable pub scheduler :
    List WorkerClient → ℕ → Option ℕ → Option ℕ → Option ℕ → Outcome Exception Scheduler
unfolding worker_ids all_distinct all_ready sort_ids client_of member
scheduler workers max_pending queue_timeout max_inference max_concurrent =
    if no_workers workers
    then raised (value_error "workers must be a non-empty tuple")
    else if all_distinct (worker_ids workers)
    then (if all_ready workers
        then (if max_pending == 0
            then raised (value_error "max_pending_requests must be a positive integer")
            else if not_positive max_inference
            then raised (value_error "max_inference_seconds must be a positive finite number")
            else if not_positive max_concurrent
            then raised (value_error "max_concurrent_requests must be a positive integer")
            else ok (record {
              workers = sort_ids (worker_ids workers);
              client = client_of workers;
              max_pending = max_pending;
              queue_timeout = queue_timeout;
              max_inference = max_inference;
              max_concurrent = max_concurrent;
              pending = [];
              active = [];
              active_started = [];
              submitted_ids = [];
              events = [];
              closed = false;
            }))
        else raised (value_error "all scheduler workers must be ready"))
    else raised (value_error "worker ids must be unique")

client_of_idle :
    (cs : List WorkerClient) (k : String)
    → all_ready cs ≡ true
    → All IsValid cs
    → IsValid (client_of cs k) × (running (client_of cs k) ≡ none)
unfolding client_of all_ready
client_of_idle [] k r v = (refl, refl)
client_of_idle (c ∷ cs) k r v = ground (arith, client_of_idle cs k)

Within-zero : (limit : Option ℕ) → Within limit 0
Within-zero none = tt
Within-zero (some m) = omega arith

scheduler-ok :
    (ws : List WorkerClient) (p : ℕ) (q i c : Option ℕ) (s : Scheduler)
    → scheduler ws p q i c ≡ ok s
    → (all_ready ws ≡ true)
      × (s.pending ≡ [])
      × (s.active ≡ [])
      × (s.active_started ≡ [])
      × (s.client ≡ client_of ws)
unfolding scheduler
scheduler-ok ws p q i c s e = ground arith

-- A scheduler that the constructor accepts is consistent.
pub scheduler-IsConsistent :
    (ws : List WorkerClient) (p : ℕ) (q i c : Option ℕ) (s : Scheduler)
    → All IsValid ws
    → scheduler ws p q i c ≡ ok s
    → IsConsistent s
unfolding lookup
scheduler-IsConsistent ws p q i c s v e =
    let (r, np, na, nt, nc) = scheduler-ok ws p q i c s e in
    record {
      bounded = rw np (omega arith);
      limited = rw na (Within-zero s.max_concurrent);
      agrees = record {
        running = λ k. rw (na, nc) (sym (client_of_idle ws k r v).1);
        timed = λ k. rw (na, nt);
        valid = λ k. rw nc (client_of_idle ws k r v).0;
      };
    }
