-- ===== src/Worker/Factory.antt =====
-- start_worker_clients of voxcpm_runtime/worker_factory.py: the workers are started in order, and
-- where one fails all of them are shut down. The clients are given with their states and come back
-- in the order of the tuple, with what the starts and shutdowns made of them.
pub mod AllOrNothing
use open_bmb_vox_cpm2_infere.Common.{List, [], ◌∷◌}
use open_bmb_vox_cpm2_infere.Common.Lists.{reverse_onto}
use open_bmb_vox_cpm2_infere.Common.Exec.{Outcome, ok, raised}
use open_bmb_vox_cpm2_infere.Worker.Errors.{Exception, value_error}
use open_bmb_vox_cpm2_infere.Worker.Platform.{Platform}
use open_bmb_vox_cpm2_infere.Worker.Client.{WorkerClient}
use open_bmb_vox_cpm2_infere.Worker.Client.Methods.{start, shutdown}

module _ (P : Platform) where
  open P use {World}

  -- The outcome of a call on all workers, with the workers after it.
  abbrev pub Fleet : Type 0
  Fleet = Outcome Exception (Unit {0}) × (List WorkerClient × World)

  -- `try: worker.shutdown() except BaseException: pass` for each worker in order
  unfoldable pub shutdown_each : List WorkerClient → World → List WorkerClient × World
  shutdown_each [] w = ([], w)
  shutdown_each (c ∷ cs) w =
      let (c', w') = (shutdown P (c, w)).1 in
      let (cs', w'') = shutdown_each cs w' in (c' ∷ cs', w'')

  -- The workers that started, the last one first, and the others, the failing one first.
  unfoldable pub roll_back : Exception → List WorkerClient → List WorkerClient → World → Fleet
  unfolding shutdown_each
  roll_back e started others w =
      let (started', w') = shutdown_each started w in
      let (others', w'') = shutdown_each others w' in
      (raised e, (reverse_onto started' others', w''))

  unfoldable pub start_each : List WorkerClient → List WorkerClient → World → Fleet
  unfolding roll_back
  start_each started [] w = (ok tt, (reverse_onto started [], w))
  start_each started (c ∷ cs) w =
      let (o, cw) = start P (c, w) in
      elim o [
        | ok m ↦ start_each (cw.0 ∷ started) cs cw.1
        | raised e ↦ roll_back e started (cw.0 ∷ cs) cw.1
      ]

  unfoldable pub start_worker_clients : List WorkerClient → World → Fleet
  unfolding start_each
  start_worker_clients [] w = (raised (value_error "workers must be a non-empty tuple"), ([], w))
  start_worker_clients (c ∷ cs) w = start_each [] (c ∷ cs) w
