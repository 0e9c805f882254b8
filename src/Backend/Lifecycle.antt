-- ===== src/Backend/Lifecycle.antt =====
-- The life of a fake backend of voxcpm_runtime/fake_backend.py: when it generates audio.
use open_bmb_vox_cpm2_infere.Common.{
  ℕ, ◌≡◌, refl, sym, ap, ◌∙◌, Bool, true, false, String, List, [], ◌∷◌, arith,
}
use open_bmb_vox_cpm2_infere.Common.Dict.{member}
use open_bmb_vox_cpm2_infere.Common.Exec.{Outcome, ok, raised, continue}
use open_bmb_vox_cpm2_infere.Worker.Types.{Sample, OneShotRequest, AudioResult}
use open_bmb_vox_cpm2_infere.Backend.Fake.{
  BackendState, created, loaded, closed, BackendError, state_error, FakeVoxCpmBackend,
  FakeOperation, operation_name, is_expected, fail_if, injected_failure, stream_chunks, load_from,
  load, close_from, close, ready_in, ensure_ready, synthesize_result, run_expected, run, stream,
}

-- A call of a method.
pub data Call : Type 0 where
  loads closes : Call
  generates : FakeOperation → OneShotRequest → Call
  streams : OneShotRequest → Call

-- What may follow `close`: every other method raises, and a further `close` returns.
pub record IsOver (digest : String → OneShotRequest → List ℕ) (quotient : Bool → ℕ → ℕ → Sample)
    (b : FakeVoxCpmBackend) : Type 0 where
  pub load_refused : load b ≡ (raised (state_error "backend_closed"), b)
  pub run_refused :
      (o : FakeOperation) (r : OneShotRequest)
      → run digest quotient o r b ≡ (raised (state_error "backend_closed"), b)
  pub stream_refused :
      (r : OneShotRequest) → stream digest quotient r b ≡ (raised (state_error "backend_closed"), b)
  pub closes_again : close b ≡ (ok tt, b)

audio_of : AudioResult → Outcome BackendError AudioResult → AudioResult
audio_of a (ok x) = x
audio_of a (raised e) = a

module _ (digest : String → OneShotRequest → List ℕ) (quotient : Bool → ℕ → ℕ → Sample) where
  unfoldable pub call : Call → FakeVoxCpmBackend → FakeVoxCpmBackend
  call loads b = (load b).1
  call closes b = (close b).1
  call (generates o r) b = (run digest quotient o r b).1
  call (streams r) b = (stream digest quotient r b).1

  unfoldable pub calls : List Call → FakeVoxCpmBackend → FakeVoxCpmBackend
  calls [] b = b
  calls (c ∷ cs) b = calls cs (call c b)

  over : (b : FakeVoxCpmBackend) → b.state ≡ closed → IsOver digest quotient b
  unfolding load load_from run stream ensure_ready ready_in close close_from
  over b e = record {
    load_refused = ap (λ s. load_from s b) e;
    run_refused = λ o r.
        ap
          (λ s.
            let x = ready_in s b in
            continue x.0 (λ u. run_expected digest quotient (is_expected o r) o r) x.1)
          e;
    stream_refused = λ r.
        ap (λ s. let x = ready_in s b in continue x.0 (λ u. stream_chunks digest quotient r) x.1) e;
    closes_again = ap (λ s. close_from s b) e;
  }

  stays_closed : (c : Call) (b : FakeVoxCpmBackend) → b.state ≡ closed → (call c b).state ≡ closed
  unfolding call
  stays_closed loads b e = ap (λ x. x.1.state) (over b e).load_refused ∙ e
  stays_closed closes b e = ap (λ x. x.1.state) (over b e).closes_again ∙ e
  stays_closed (generates o r) b e = ap (λ x. x.1.state) ((over b e).run_refused o r) ∙ e
  stays_closed (streams r) b e = ap (λ x. x.1.state) ((over b e).stream_refused r) ∙ e

  remains_closed :
      (cs : List Call) (b : FakeVoxCpmBackend) → b.state ≡ closed → (calls cs b).state ≡ closed
  unfolding calls
  remains_closed [] b e = e
  remains_closed (c ∷ cs) b e = remains_closed cs (call c b) (stays_closed c b e)

  close_from-closed :
      (s : BackendState) (b : FakeVoxCpmBackend)
      → b.state ≡ s
      → (close_from s b).0 ≡ ok tt
      → (close_from s b).1.state ≡ closed
  unfolding close_from injected_failure
  close_from-closed closed b e h = e
  close_from-closed loaded b e h = ground arith
  close_from-closed created b e h = ground arith

  -- Once `close` has returned, and whatever is called afterwards: loading and every kind of generation
  -- raise "backend_closed" and change nothing, and a further `close` returns.
  pub close-IsOver :
      (b : FakeVoxCpmBackend) (cs : List Call)
      → (close b).0 ≡ ok tt
      → IsOver digest quotient (calls cs (close b).1)
  unfolding close
  close-IsOver b cs h =
      over (calls cs (close b).1)
        (remains_closed cs (close b).1 (close_from-closed b.state b refl h))

  unplanned :
      (m : Bool) (o : FakeOperation) (r : OneShotRequest) (b : FakeVoxCpmBackend) (a : AudioResult)
      → (let x = fail_if m (operation_name o) b in
          continue {B = AudioResult} x.0
            (λ u c. (ok (synthesize_result digest quotient (operation_name o) r), c))
            x.1).0
        ≡ ok a
      → (m ≡ false) × (a ≡ synthesize_result digest quotient (operation_name o) r)
  unfolding fail_if audio_of
  unplanned true o r b a h = cc
  unplanned false o r b a h = (refl, sym (ap (audio_of a) h))

  run_in :
      (s : BackendState) (p : Bool) (o : FakeOperation) (r : OneShotRequest) (b : FakeVoxCpmBackend)
      (a : AudioResult)
      → (let x = ready_in s b in continue x.0 (λ u. run_expected digest quotient p o r) x.1).0
        ≡ ok a
      → (s ≡ loaded)
        × (p ≡ true)
        × (member (operation_name o) b.failure_plan ≡ false)
        × (a ≡ synthesize_result digest quotient (operation_name o) r)
  unfolding ready_in run_expected injected_failure
  run_in created p o r b a h = cc
  run_in closed p o r b a h = cc
  run_in loaded false o r b a h = cc
  run_in loaded true o r b a h =
      let (e, g) = unplanned (member (operation_name o) b.failure_plan) o r b a h in
      (refl, refl, e, g)

  -- A generation that returns was asked of a loaded backend, with a request of the type that the
  -- operation expects, and its failure is not planned; the audio depends on the operation and the
  -- request alone.
  pub run-loaded :
      (o : FakeOperation) (r : OneShotRequest) (b : FakeVoxCpmBackend) (a : AudioResult)
      → (run digest quotient o r b).0 ≡ ok a
      → (b.state ≡ loaded)
        × (is_expected o r ≡ true)
        × (member (operation_name o) b.failure_plan ≡ false)
        × (a ≡ synthesize_result digest quotient (operation_name o) r)
  unfolding run ensure_ready
  run-loaded o r b a h = run_in b.state (is_expected o r) o r b a h
