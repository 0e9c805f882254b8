-- ===== src/Scheduler/Invariant.antt =====
-- What holds of the scheduler of voxcpm_runtime/scheduler.py between its methods, and that each
-- step on one worker keeps it.
use open_bmb_vox_cpm2_infere.Common.{ℕ, ◌≤◌, ◌≡◌, false, Option, none, some, String, List, arith}
use open_bmb_vox_cpm2_infere.Common.Dict.{
  Dict, lookup, put, pop, lookup-put, lookup-pop, length-put-le, length-pop-le,
}
use open_bmb_vox_cpm2_infere.Common.Lists.{length}
use open_bmb_vox_cpm2_infere.Worker.Client.{WorkerClient}
use open_bmb_vox_cpm2_infere.Worker.Client.Valid.{IsValid, present}
use open_bmb_vox_cpm2_infere.Worker.Client.Running.{running}
use open_bmb_vox_cpm2_infere.Scheduler.{Scheduler, PendingRequest, store, at_limit}

abbrev pub Within : Option ℕ → ℕ → Type 0
Within none n = Unit {0}
Within (some m) n = n ≤ m

-- `active` says of each worker which request it runs; every running request has a start time.
pub record Agrees (client : String → WorkerClient) (active : Dict String) (started : Dict ℕ)
    : Type 0 where
  pub running : (k : String) → lookup k active ≡ running (client k)
  pub timed : (k : String) → present (lookup k active) ≡ present (lookup k started)
  pub valid : (k : String) → IsValid (client k)

-- The queue and the number of running requests keep within their limits, and the table of running
-- requests agrees with the workers.
pub record Consistent (cap : ℕ) (limit : Option ℕ) (pending : List PendingRequest)
    (client : String → WorkerClient) (active : Dict String) (started : Dict ℕ) : Type 0 where
  pub bounded : length pending ≤ cap
  pub limited : Within limit (length active)
  pub agrees : Agrees client active started

abbrev pub IsConsistent : Scheduler → Type 0
IsConsistent s =
    Consistent s.max_pending s.max_concurrent s.pending s.client s.active s.active_started

module _ {client : String → WorkerClient} {active : Dict String} {started : Dict ℕ}
    (a : Agrees client active started) (k : String) (c : WorkerClient) (v : IsValid c) where
  -- The worker at `k` changed, and still runs what it ran.
  pub same-Agrees : running c ≡ running (client k) → Agrees (store k c client) active started
  unfolding store
  same-Agrees e = record {
    running = λ j. ground (arith, a.running j);
    timed = a.timed;
    valid = λ j. ground (arith, a.valid j);
  }

  -- The worker at `k` ended its request, and was taken off the table.
  pub retire-Agrees : running c ≡ none → Agrees (store k c client) (pop k active) (pop k started)
  unfolding store
  retire-Agrees e = record {
    running = λ j. ground (arith, a.running j, lookup-pop k j active);
    timed = λ j. ground (arith, a.timed j, lookup-pop k j active, lookup-pop k j started);
    valid = λ j. ground (arith, a.valid j);
  }

  -- The worker at `k` was given request `r`.
  pub assign-Agrees :
      (r : String) (t : ℕ)
      → running c ≡ some r
      → Agrees (store k c client) (put k r active) (put k t started)
  unfolding store
  assign-Agrees r t e = record {
    running = λ j. ground (arith, a.running j, lookup-put k j r active);
    timed = λ j. ground (arith, a.timed j, lookup-put k j r active, lookup-put k j t started);
    valid = λ j. ground (arith, a.valid j);
  }

module _ (limit : Option ℕ) (active : Dict String) (k : String) where
  pub limited-pop : Within limit (length active) → Within limit (length (pop k active))
  limited-pop h = ground (arith, length-pop-le k active)

  pub limited-put :
      (r : String) → at_limit limit (length active) ≡ false → Within limit (length (put k r active))
  limited-put r h = ground (arith, length-put-le k r active)
